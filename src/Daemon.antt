-- ===== src/Daemon.antt =====
-- internal/app and internal/service: the services of the daemon beside each other, on the tables that
-- they share. The services run concurrently, and each transaction is atomic: `interleave` runs
-- transactions in any order. Between two of them the clock moves and the environment chooses new faults.
pub mod Keeping
pub mod Soundness
pub mod Conservation
use delta_works.Base.{ℕ, List, [], ◌∷◌}
use delta_works.Decimal.{Decimals}
use delta_works.Domain.Order.{Time, ClientOrderId, Request, Event, Source}
use delta_works.Postgres.Session.{Session, Fault}
use delta_works.Postgres.OrderStore.{apply_event}
use delta_works.Postgres.OrderMethods.{create_pending, mark_cancel_requested}
use delta_works.Postgres.OutboxStore.{publish_pending, deliver, delete_published_before}

-- The transactions that change the tables.
pub data Transaction (D : Type 0) : Type 0 where
  creating : Request D → Transaction D
  marking : ClientOrderId → Time → Transaction D
  applying : Source → Event D → Transaction D
  publishing : ℕ → Transaction D
  deleting : Time → Transaction D
  waiting : Time → List Fault → Transaction D

module _ {D : Type 0} where
  abbrev pub elapse : Time → List Fault → Session D → Session D
  elapse now faults w = record w { now = now; faults = faults }

module _ {D : Type 0} ⦃dec : Decimals D⦄ where
  abbrev pub transact : Transaction D → Session D → Session D
  transact (creating req) w = (create_pending req w).1
  transact (marking id at) w = (mark_cancel_requested id at w).1
  transact (applying source ev) w = (apply_event source ev w).1
  transact (publishing limit) w = (publish_pending limit deliver w).1
  transact (deleting cutoff) w = (delete_published_before cutoff w).1
  transact (waiting now faults) w = elapse now faults w

  unfoldable pub interleave : List (Transaction D) → Session D → Session D
  interleave [] w = w
  interleave (t ∷ ts) w = interleave ts (transact t w)
