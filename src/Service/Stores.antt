-- ===== src/Service/Stores.antt =====
-- internal/adapters/postgres: the operations that the services call to change the tables, and what it
-- means that each of them keeps a property.
use delta_works.Base.{◌≡◌, ℕ}
use delta_works.Decimal.{Decimals}
use delta_works.Domain.Order.{Time, ClientOrderId, Event, Request, Source}
use delta_works.Postgres.Session.{Session}
use delta_works.Postgres.Session.Keeps.{Keeps}
use delta_works.Postgres.OrderStore.{apply_event}
use delta_works.Postgres.OrderMethods.{create_pending, mark_cancel_requested}
use delta_works.Postgres.OutboxStore.{publish_pending, deliver, delete_published_before}

module _ {D : Type 0} ⦃dec : Decimals D⦄ where
  -- A property of the tables that every operation of the order store keeps.
  pub record OrdersKeep (P : Session D → Type 0) : Type 0 where
    pub same : (w u : Session D) → u.db ≡ w.db → P w → P u
    pub applied : (source : Source) (ev : Event D) → Keeps P (apply_event source ev)
    pub created : (req : Request D) → Keeps P (create_pending req)
    pub marked : (id : ClientOrderId) (at : Time) → Keeps P (mark_cancel_requested id at)

  -- The same for the outbox.
  pub record OutboxKeeps (P : Session D → Type 0) : Type 0 where
    pub unchanged : (w u : Session D) → u.db ≡ w.db → P w → P u
    pub published : (limit : ℕ) → Keeps P (publish_pending limit deliver)
    pub deleted : (cutoff : Time) → Keeps P (delete_published_before cutoff)
