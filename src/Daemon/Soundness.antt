-- ===== src/Daemon/Soundness.antt =====
-- internal/app and internal/service: the orders after any interleaving of the daemon's services.
use delta_works.Base.{List}
use delta_works.Decimal.{Decimals}
use delta_works.Postgres.Session.{Session}
use delta_works.Postgres.Soundness.Tables.{SoundDb}
use delta_works.Postgres.Soundness.Operations.{
  IsSoundSession, apply_event-Keeps, create_pending-Keeps, mark_cancel-Keeps, publish_pending-Keeps,
  delete_published-Keeps,
}
use delta_works.Service.Stores.{OrdersKeep, OutboxKeeps}
use delta_works.Daemon.{Transaction, interleave}
use delta_works.Daemon.Keeping.{kept_by_interleave}

module _ {D : Type 0} ⦃dec : Decimals D⦄ where
  orders_keep : OrdersKeep {D = D} IsSoundSession
  orders_keep = record {
    same = λ w u e s. rw e s;
    applied = apply_event-Keeps;
    created = create_pending-Keeps;
    marked = mark_cancel-Keeps;
  }

  outbox_keeps : OutboxKeeps {D = D} IsSoundSession
  outbox_keeps = record {
    unchanged = λ w u e s. rw e s;
    published = publish_pending-Keeps;
    deleted = delete_published-Keeps;
  }

  -- From sound tables, after any interleaving of the transactions of the services, with any events and
  -- any faults between and in them: an order has one row; each transition and each fill belongs to an
  -- order; the status and the cumulative fill of every order are those of its last transition
  -- (pending and zero if it has none); and the cumulative fill is the sum of the order's fills.
  pub interleave-IsSound :
      (ts : List (Transaction D)) (w : Session D) → SoundDb w.db → SoundDb (interleave ts w).db
  interleave-IsSound = kept_by_interleave IsSoundSession orders_keep outbox_keeps
