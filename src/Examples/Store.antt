-- ===== src/Examples/Store.antt =====
-- The theorems on `ApplyEvent`, at the first partial fill of order A.
use delta_works.Base.{◌≡◌, refl, ◌⊎◌, true, false, [], ◌∷◌, some, find, any, update_where}
use delta_works.Errors.{ok, err}
use delta_works.Decimal.Integers.{ℤ, pos, integers, sign, ◌+ℤ◌, ◌-ℤ◌, ◌*ℤ◌, ◌/ℤ◌}
use delta_works.Domain.Order.{Event, partially_filled, stream}
use delta_works.Domain.Order.Machine.{rank, decide, transition, advanced}
use delta_works.Postgres.Schema.{OrderRow}
use delta_works.Postgres.Session.{
  Session, ◌>>=◌, statement, transaction, fine, refused, reply_lost, db_error, fault_of,
}
use delta_works.Postgres.Session.Laws.{begun}
use delta_works.Postgres.Queries.{
  has_id, get_order_row, insert_transition, insert_fill, apply_order_update, insert_outbox,
  last_seq, venue_id_taken,
}
use delta_works.Postgres.LedgerQueries.{lock_inventory, insert_lot}
use delta_works.Postgres.LedgerPosting.{fresh_id, open_lot_for, post_ledger_fill, no_outcome}
use delta_works.Postgres.OrderStore.{
  ApplyResult, apply_event, apply_body, apply_to_row, persist_decision, post_fill, avg_fill_price,
  insert_event_outbox,
}
use delta_works.Postgres.OrderStore.Apply.{Applied, state_of, apply_event_ok, apply_event_atomic}
use delta_works.Postgres.OrderStore.Invariant.{IsBalanced}
use delta_works.Examples.{event, session, one_order}

abbrev partial_fill : Event ℤ
partial_fill = event partially_filled 2 5

abbrev after_fill : Session ℤ
after_fill = (apply_event stream partial_fill (session [])).1

abbrev posted : ApplyResult ℤ
posted = record {
  decision = advanced partial_fill (pos 2) false;
  outcome = no_outcome;
  fill_conflict = false;
}

posted_is : apply_event stream partial_fill (session []) ≡ (ok posted, after_fill)
unfolding apply_event apply_body apply_to_row persist_decision post_fill insert_event_outbox
    avg_fill_price transaction statement ◌>>=◌ get_order_row insert_transition insert_fill
    apply_order_update insert_outbox last_seq venue_id_taken lock_inventory insert_lot fresh_id
    open_lot_for post_ledger_fill transition decide rank sign ◌+ℤ◌ ◌-ℤ◌ ◌*ℤ◌ ◌/ℤ◌ find any
    update_where
posted_is = refl

apply_event_ok_example :
    (row : OrderRow ℤ) × (find (has_id "A") one_order.orders ≡ some row)
    × (transition (state_of row) partial_fill ≡ ok posted.decision)
    × Applied row stream partial_fill posted.decision (session []) after_fill
apply_event_ok_example = apply_event_ok stream partial_fill (session []) posted after_fill posted_is

one_order-IsBalanced : IsBalanced one_order
one_order-IsBalanced = record { filled = (refl, tt) }

-- The statement that inserts the transition is refused.
abbrev refused_session : Session ℤ
refused_session = session (fine ∷ fine ∷ refused ∷ [])

abbrev after_refusal : Session ℤ
after_refusal = (apply_event stream partial_fill refused_session).1

refusal_is : apply_event stream partial_fill refused_session ≡ (err db_error, after_refusal)
unfolding apply_event apply_body apply_to_row persist_decision transaction statement ◌>>=◌
    get_order_row insert_transition transition decide rank sign ◌+ℤ◌ ◌-ℤ◌ find
refusal_is = refl

apply_event_atomic_example :
    (after_refusal.db ≡ one_order)
    ⊎ ((r : ApplyResult ℤ) × (v : Session ℤ) × (row : OrderRow ℤ) × (apply_body stream partial_fill
            (begun refused_session)
          ≡ (ok (r, true), v))
        × (fault_of v.faults ≡ reply_lost)
        × (find (has_id partial_fill.ref.client_order_id) one_order.orders ≡ some row)
        × (transition (state_of row) partial_fill ≡ ok r.decision)
        × Applied row stream partial_fill r.decision refused_session after_refusal)
apply_event_atomic_example =
    apply_event_atomic stream partial_fill refused_session db_error after_refusal refusal_is
