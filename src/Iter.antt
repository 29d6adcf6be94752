-- ===== src/Iter.antt =====
-- a_sync/iter.pyx: iterators that can be used in a `for` and in an `async for`, their filters and
-- their sorters. A wrapped iterator is the list of what it will give and the exception that ends it,
-- if one does; once it has ended it stays ended, as a generator does.
pub mod Order
pub mod Filtering
pub mod Sorting
pub mod Stable
pub mod Consumed
pub mod Examples
use ez_a_sync.Prelude.{
  ℕ, zero, suc, Bool, true, false, not, ◌&&◌, ◌||◌, List, [], ◌∷◌, map, Option, none, some, Result,
  ok, err, Exn, type_error, runtime_error, attribute_error, sync_mode_in_async_context, any, ltb,
  leb, ◌==◌, if◌then◌else◌,
}

pub data Next (A : Type 0) : Type 0 where
  yields : A → Next A
  stops : Next A
  raises : Exn → Next A

-- `_ASyncView`: one of `__aiterator__` and `__iterator__` is the iterator, `truth` is its truth
-- value, and the other is None.
pub record View (A : Type 0) : Type 0 where
  pub is_async : Bool
  pub truth : Bool
  pub items : List A
  pub ending : Option Exn

abbrev pub prepend_item : {A : Type 0} → A → Option (Result (List A)) → Option (Result (List A))
prepend_item x (some (ok l)) = some (ok (x ∷ l))
prepend_item x (some (err e)) = some (err e)
prepend_item x none = none

-- `[obj async for obj in self]` of `_materialized`; `none` means that the fuel ran out.
unfoldable pub materialized : {S A : Type 0} → (S → Next A × S) → ℕ → S → Option (Result (List A))
materialized anext zero self = none
materialized anext (suc fuel) self =
    let (next, self') = anext self in
    elim next [
      | yields x ↦ prepend_item x (materialized anext fuel self')
      | stops ↦ some (ok [])
      | raises e ↦ some (err e)
    ]

-- `_ASyncIterator.__next__`: only `ASyncIterator.__init__` sets `_run_loop`; `running` tells whether
-- the event loop is running. `stops` is StopIteration here.
unfoldable pub next : {S A : Type 0} → Bool → Bool → (S → Next A × S) → S → Next A × S
next has_run_loop running anext self =
    if not has_run_loop
    then (raises attribute_error, self)
    else if running
    then (raises sync_mode_in_async_context, self)
    else anext self

module _ {A : Type 0} where
  -- `_ASyncView.__init__`
  unfoldable pub init_view : Bool → Bool → Bool → List A → Option Exn → Result (View A)
  init_view is_async_iterable is_iterable truth items ending =
      if is_async_iterable || is_iterable
      then ok
          (record { is_async = is_async_iterable; truth = truth; items = items; ending = ending })
      else err type_error

  -- The loops of `_ASyncFilter.__anext__`; `check` is `_check`.
  unfoldable pub find : (A → Result Bool) → View A → List A → Option Exn → Next A × View A
  find check self [] none = (stops, record self { items = []; ending = none })
  find check self [] (some e) = (raises e, record self { items = []; ending = none })
  find check self (x ∷ xs) ending = elim (check x) [
    | ok true ↦ (yields x, record self { items = xs; ending = ending })
    | ok false ↦ find check self xs ending
    | err e ↦ (raises e, record self { items = xs; ending = ending })
  ]

  unfoldable pub filter_anext : (A → Result Bool) → View A → Next A × View A
  unfolding find
  filter_anext check self =
      if self.truth then find check self self.items self.ending else (raises type_error, self)

-- The key of a sorter: a function, or a coroutine function.
pub data SortKey (A : Type 0) : Type 0 where
  plain : (A → Result ℕ) → SortKey A
  coroutine : (A → ℕ) → SortKey A

-- What `__sort` has done: nothing, computed the items that are left to yield, or ended.
pub data Progress (A : Type 0) : Type 0 where
  unstarted : Progress A
  yielding : List A → Progress A
  ended : Progress A

pub record Sorter (A : Type 0) : Type 0 where
  pub view : View A
  pub progress : Progress A
  pub consumed : Bool

module _ {A : Type 0} where
  abbrev pub in_order : (A → ℕ) → Bool → A → A → Bool
  in_order key reverse x y = if reverse then leb (key y) (key x) else leb (key x) (key y)

  -- The order of the pairs `(key, item)`.
  abbrev pub pair_in_order : (A → ℕ) → (A → ℕ) → A → A → Bool
  pair_in_order key rank x y = ltb (key x) (key y) || ((key x == key y) && leb (rank x) (rank y))

  abbrev pub pairs_in_order : (A → ℕ) → (A → ℕ) → Bool → A → A → Bool
  pairs_in_order key rank reverse x y =
      if reverse then pair_in_order key rank y x else pair_in_order key rank x y

  unfoldable pub insert : (A → A → Bool) → A → List A → List A
  insert le x [] = x ∷ []
  insert le x (y ∷ ys) = if le x y then x ∷ y ∷ ys else y ∷ insert le x ys

  -- `sorted`, which is stable, also in reverse.
  unfoldable pub sort : (A → A → Bool) → List A → List A
  unfolding insert
  sort le [] = []
  sort le (x ∷ xs) = insert le x (sort le xs)

  -- Two items have one key and differ, so that `sorted` compares the items themselves.
  unfoldable pub has_tie : (A → ℕ) → (A → ℕ) → List A → Bool
  has_tie key rank [] = false
  has_tie key rank (x ∷ xs) =
      any (λ y. (key x == key y) && not (rank x == rank y)) xs || has_tie key rank xs

  -- `items.sort(key=..., reverse=...)`, which calls the key once for each item, in order.
  unfoldable pub sort_keys : (A → Result ℕ) → List A → Result (List (ℕ × A))
  sort_keys key [] = ok []
  sort_keys key (x ∷ xs) = elim (key x) [
    | ok k ↦ elim (sort_keys key xs) [ ok l ↦ ok ((k, x) ∷ l) | err e ↦ err e ]
    | err e ↦ err e
  ]

abbrev pub first : {A : Type 0} → ℕ × A → ℕ
first (k, x) = k

abbrev pub second : {A : Type 0} → ℕ × A → A
second (k, x) = x

module _ {A : Type 0} where
  unfoldable pub emit : Sorter A → List A → Next A × Sorter A
  emit self [] = (stops, record self { progress = ended; consumed = true })
  emit self (x ∷ xs) = (yields x, record self { progress = yielding xs })

  -- `items.sort(key=self._function, reverse=reverse)`
  unfoldable pub sort_plain : Bool → (A → Result ℕ) → List A → Result (List A)
  unfolding sort_keys sort
  sort_plain reverse key items = elim (sort_keys key items) [
    | ok l ↦ ok (map second (sort (in_order first reverse) l))
    | err e ↦ err e
  ]

-- `rank` orders the items themselves, which `sorted` can compare only if they are `comparable`.
module _ {A : Type 0} (comparable : Bool) (rank : A → ℕ) (key : SortKey A) (reverse : Bool) where
  unfoldable pub sort_pairs : (A → ℕ) → List A → Result (List A)
  unfolding has_tie sort
  sort_pairs key items =
      if has_tie key rank items && not comparable
      then err type_error
      else ok (sort (pairs_in_order key rank reverse) items)

  -- `_ASyncSorter.__sort`, up to its first `yield`.
  unfoldable pub run_sort : View A → Result (List A)
  unfolding sort_plain sort_pairs
  run_sort self = elim key [
    | coroutine f ↦ if not self.truth then ok [] else elim self.ending [
      | some e ↦ err e
      | none ↦ if self.is_async then ok [] else sort_pairs f self.items
    ]
    | plain f ↦
        if self.is_async && not self.truth
        then err type_error
        else elim self.ending [ some e ↦ err e | none ↦ sort_plain reverse f self.items ]
  ]

  unfoldable pub resume_sort : Sorter A → Progress A → Next A × Sorter A
  unfolding emit run_sort
  resume_sort self unstarted = elim (run_sort self.view) [
    | ok items ↦ emit self items
    | err e ↦ (raises e, record self { progress = ended })
  ]
  resume_sort self (yielding items) = emit self items
  resume_sort self ended = (stops, self)

  -- `_ASyncSorter.__anext__`
  unfoldable pub sorter_anext : Sorter A → Next A × Sorter A
  unfolding resume_sort
  sorter_anext self = resume_sort self self.progress

-- `_ASyncSorter.__init__` and `__aiter__`
abbrev pub init_sorter : {A : Type 0} → View A → Sorter A
init_sorter view = record { view = view; progress = unstarted; consumed = false }

unfoldable pub sorter_aiter : {A : Type 0} → Sorter A → Result (Sorter A)
sorter_aiter self = if self.consumed then err runtime_error else ok self
