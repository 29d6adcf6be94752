-- ===== src/Asyncio/Futures.antt =====
-- `asyncio.Future` and tasks, as far as their outcome goes.
use ez_a_sync.Prelude.{Exn}

-- A future with what it holds.
pub data Future (V : Type 0) : Type 0 where
  pending cancelled : Future V
  result : V → Future V
  exception : Exn → Future V
