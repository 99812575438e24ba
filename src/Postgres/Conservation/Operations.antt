-- ===== src/Postgres/Conservation/Operations.antt =====
-- internal/adapters/postgres: the operations of the stores that are not about the ledger leave it alone.
use delta_works.Base.{ℕ, inl, inr, any, Bool-cases}
use delta_works.Decimal.{Decimals}
use delta_works.Domain.Order.{Time, ClientOrderId, Event, Request, Source}
use delta_works.Postgres.Schema.{OrderRow}
use delta_works.Postgres.Session.{Session}
use delta_works.Postgres.Session.Keeps.{
  Keeps, Keeps-autocommit, Keeps-bind, Keeps-if, Keeps-pure, Keeps-raise,
}
use delta_works.Postgres.Queries.{
  has_id, is_storable, insert_pending_order, mark_cancel_requested_rows,
}
use delta_works.Postgres.OrderStore.{apply_event}
use delta_works.Postgres.OrderMethods.{pending_row, create_pending, mark_cancel_requested}
use delta_works.Postgres.OutboxStore.{publish_pending, deliver, delete_published_before}
use delta_works.Postgres.OutboxStore.Delivery.{publish_pending-Batch}
use delta_works.Postgres.Conservation.Posting.{ConservedDb, apply_event-IsConserved}

module _ {D : Type 0} ⦃dec : Decimals D⦄ where
  abbrev pub IsConservedSession : Session D → Type 0
  IsConservedSession w = ConservedDb w.db

  pub apply_event-Keeps :
      (source : Source) (ev : Event D) → Keeps IsConservedSession (apply_event source ev)
  apply_event-Keeps source ev = record { at = apply_event-IsConserved source ev }

  insert-Keeps : (row : OrderRow D) → Keeps IsConservedSession (insert_pending_order row)
  unfolding insert_pending_order
  insert-Keeps row =
      Keeps-autocommit IsConservedSession (λ w fs s. s) _
        (record {
          at = λ w s. elim (Bool-cases (is_storable row)) [
            | inr b ↦ rw b s
            | inl g ↦ elim (Bool-cases (any (has_id row.client_order_id) w.db.orders)) [
              | inl k ↦ rw (g, k) s
              | inr k ↦ rw (g, k) s
            ]
          ];
        })

  pub create_pending-Keeps : (req : Request D) → Keeps IsConservedSession (create_pending req)
  unfolding create_pending
  create_pending-Keeps req = Keeps-bind _ _ (insert-Keeps (pending_row req)) (λ n. Keeps-pure _)

  mark_rows-Keeps :
      (id : ClientOrderId) (at : Time) → Keeps IsConservedSession (mark_cancel_requested_rows id at)
  unfolding mark_cancel_requested_rows
  mark_rows-Keeps id at =
      Keeps-autocommit IsConservedSession (λ w fs s. s) _ (record { at = λ w s. s })

  pub mark_cancel-Keeps :
      (id : ClientOrderId) (at : Time) → Keeps IsConservedSession (mark_cancel_requested id at)
  unfolding mark_cancel_requested
  mark_cancel-Keeps id at =
      Keeps-bind _ _ (mark_rows-Keeps id at) (λ n. Keeps-if _ _ _ (Keeps-raise _) (Keeps-pure _))

  pub publish_pending-Keeps : (limit : ℕ) → Keeps IsConservedSession (publish_pending limit deliver)
  publish_pending-Keeps limit = record {
    at = λ w s. elim (publish_pending-Batch limit w) [
      | inl (e, ms, d) ↦ rw e s
      | inr (e, d) ↦ rw e s
    ];
  }

  pub delete_published-Keeps :
      (cutoff : Time) → Keeps IsConservedSession (delete_published_before cutoff)
  unfolding delete_published_before
  delete_published-Keeps cutoff =
      Keeps-autocommit IsConservedSession (λ w fs s. s) _ (record { at = λ w s. s })
