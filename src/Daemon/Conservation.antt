-- ===== src/Daemon/Conservation.antt =====
-- internal/app and internal/service: the ledger after any interleaving of the daemon's services.
use delta_works.Base.{List}
use delta_works.Decimal.{Decimals}
use delta_works.Postgres.Session.{Session}
use delta_works.Postgres.Conservation.Posting.{ConservedDb}
use delta_works.Postgres.Conservation.Operations.{
  IsConservedSession, apply_event-Keeps, create_pending-Keeps, mark_cancel-Keeps,
  publish_pending-Keeps, delete_published-Keeps,
}
use delta_works.Service.Stores.{OrdersKeep, OutboxKeeps}
use delta_works.Daemon.{Transaction, interleave}
use delta_works.Daemon.Keeping.{kept_by_interleave}

module _ {D : Type 0} ⦃dec : Decimals D⦄ where
  orders_keep : OrdersKeep {D = D} IsConservedSession
  orders_keep = record {
    same = λ w u e s. rw e s;
    applied = apply_event-Keeps;
    created = create_pending-Keeps;
    marked = mark_cancel-Keeps;
  }

  outbox_keeps : OutboxKeeps {D = D} IsConservedSession
  outbox_keeps = record {
    unchanged = λ w u e s. rw e s;
    published = publish_pending-Keeps;
    deleted = delete_published-Keeps;
  }

  -- From conserved books, after any interleaving of the transactions of the services, with any events
  -- and any faults between and in them: the quantity of each lot is what remains of it and what its
  -- closures took, what remains is between zero and the quantity, and each closure is one of a lot.
  pub interleave-IsConserved :
      (ts : List (Transaction D)) (w : Session D)
      → ConservedDb w.db
      → ConservedDb (interleave ts w).db
  interleave-IsConserved = kept_by_interleave IsConservedSession orders_keep outbox_keeps
