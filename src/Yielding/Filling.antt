-- ===== src/Yielding/Filling.antt =====
-- The iterators and their task in `as_yielded` of a_sync/utils/iterators.py make moves.
use ez_a_sync.Prelude.{
  ℕ, ◌+◌, ◌≡◌, refl, sym, ap, subst, Bool, true, false, List, [], ◌∷◌, ◌++◌, Option, none, some,
  Exn, inl, inr, Option-cases, Bool-cases, if◌then◌else◌, get_elem?, length, length-append, arith,
}
use ez_a_sync.Asyncio.{AsyncQueue, put_nowait}
use ez_a_sync.Gather.{Outer, Gathering, gives, raises}
use ez_a_sync.Gather
use ez_a_sync.Yielding.{
  Put, thing, marker, Source, Populating, gathering, joining, finished, cancelled_by, exhaust,
  exhaust_some, settle_with, rejoined, is_cancellation,
}
use ez_a_sync.Yielding.Queues.{Unbounded, put_nowait-Unbounded}
use ez_a_sync.Yielding.Moves.{
  Spec, IsPast, at_join, when_cancelled, put, stop, mark_end, mark_error, join,
}
use ez_a_sync.Yielding.Tracking.{embed, Tracks, Simulates, Advances, weaken, stays}

module _ {V : Type 0} where
  module _ (t : Spec V) (q : AsyncQueue (Put V)) (h : Tracks t q) where
    put-Unbounded :
        (x : Put V)
        → Unbounded
            (put_nowait x q).1
            (t.queue ++ x ∷ [])
            (length t.batch + length (t.queue ++ x ∷ []))
    put-Unbounded x =
        subst (λ (n : ℕ). Unbounded (put_nowait x q).1 (t.queue ++ x ∷ []) n)
          (omega (arith, length-append t.queue (x ∷ [])))
          (put_nowait-Unbounded x q t.queue _ h.queue)

    pub simulate_source :
        (k : ℕ) (src : Source V) (l : List V)
        → get_elem? t.sources k ≡ some src
        → src.stopped ≡ false
        → src.left ≡ l
        → Advances t (exhaust k src l (embed t q))
    simulate_source k src (x ∷ xs) e f g = (
      _,
      (put_nowait (thing k x) q).1,
      refl,
      put t k src x xs e f g,
      record { queue = put-Unbounded (thing k x); idle = h.idle },
    )
    simulate_source k src [] e f g =
        (_, q, refl, stop t k src e f g, record { queue = h.queue; idle = h.idle })

    pub simulate_advance :
        (k : ℕ) → Simulates t (exhaust_some k (get_elem? t.sources k) (embed t q))
    simulate_advance k = elim (Option-cases (get_elem? t.sources k)) [
      | inl e ↦ stays t q _ (ap (λ (o : Option (Source V)). exhaust_some k o (embed t q)) e) h
      | inr (src, e) ↦
          subst (λ (o : Option (Source V)). Simulates t (exhaust_some k o (embed t q))) (sym e)
            (elim (Bool-cases src.stopped) [
              | inl f ↦
                  stays t q _
                    (ap (λ (b : Bool). if b then embed t q else exhaust k src src.left (embed t q))
                      f)
                    h
              | inr f ↦
                  subst
                    (λ (b : Bool).
                      Simulates t (if b then embed t q else exhaust k src src.left (embed t q)))
                    (sym f) (weaken t _ (simulate_source k src src.left e f refl))
            ])
    ]

    after_error : (e : Exn) (b : Bool) → IsPast (if b then cancelled_by e else joining)
    after_error e true = when_cancelled e
    after_error e false = at_join

    pub settle_given :
        (l : List (Gather.Item (Unit {0})))
        → t.populating ≡ gathering
        → t.gather.outer ≡ gives l
        → Advances t (settle_with gathering (gives l) (embed t q))
    settle_given l e f = (
      _,
      (put_nowait (marker none) q).1,
      refl,
      mark_end t l e f,
      record { queue = put-Unbounded (marker none); idle = h.idle },
    )

    pub settle_raised :
        (x : Exn)
        → t.populating ≡ gathering
        → t.gather.outer ≡ raises x
        → Advances t (settle_with gathering (raises x) (embed t q))
    settle_raised x e f = (
      _,
      (put_nowait (marker (some x)) q).1,
      refl,
      mark_error t x _ e f (after_error x (is_cancellation x)),
      record { queue = put-Unbounded (marker (some x)); idle = h.idle },
    )

    pub simulate_settle :
        (p : Populating) (o : Outer (Unit {0}))
        → t.populating ≡ p
        → t.gather.outer ≡ o
        → Simulates t (settle_with p o (embed t q))
    simulate_settle gathering Gather.waits e f = stays t q _ refl h
    simulate_settle gathering (gives l) e f = weaken t _ (settle_given l e f)
    simulate_settle gathering (raises x) e f = weaken t _ (settle_raised x e f)
    simulate_settle joining o e f = stays t q _ refl h
    simulate_settle finished o e f = stays t q _ refl h
    simulate_settle (cancelled_by x) o e f = stays t q _ refl h

    none_left : {A : Type 0} (l : List A) → length l ≡ 0 → l ≡ []
    none_left [] e = refl
    none_left (x ∷ xs) e = absurd (omega arith)

    pub simulate_rejoin : (p : Populating) → t.populating ≡ p → Simulates t (rejoined p (embed t q))
    simulate_rejoin gathering e = stays t q _ refl h
    simulate_rejoin finished e = stays t q _ refl h
    simulate_rejoin (cancelled_by x) e = stays t q _ refl h
    simulate_rejoin joining e = elim (Bool-cases q.all_done) [
      | inl f ↦
          let z = h.queue.joined f in
          (
            _,
            q,
            ap (λ (b : Bool). if b then embed (record t { populating = finished }) q else embed t q)
                f,
            inr (
                join t e (none_left t.queue (omega (arith, z)))
                  (none_left t.batch (omega (arith, z)))),
            record { queue = h.queue; idle = h.idle },
          )
      | inr f ↦
          stays t q _
            (ap
              (λ (b : Bool). if b then embed (record t { populating = finished }) q else embed t q)
              f)
            h
    ]
