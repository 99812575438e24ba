-- ===== src/Postgres/OrderStore.antt =====
-- internal/adapters/postgres/orders.go: the methods of `OrderStore`. `apply_event` is the only write
-- path for venue events: it locks the row, decides by the state machine and writes what the decision
-- carries in one transaction.
pub mod Effect
pub mod Apply
pub mod Invariant
use delta_works.Base.{
  ℕ, ◌+◌, Bool, true, false, not, ◌&&◌, ◌||◌, List, [], ◌∷◌, Option, none, some, String,
  if◌then◌else◌, ◌==◌, str_eq, map,
}
use delta_works.Errors.{Result, ok, err, Error, not_found}
use delta_works.Decimal.{Decimals, add, mul, div, is_positive, is_zero, zero_decimal}
use delta_works.Domain.Instrument.{Instrument, spot, Rules}
use delta_works.Domain.Order.{
  Time, ClientOrderId, Event, Request, OrderRecord, Source, Status, pending,
}
use delta_works.Domain.Order.Machine.{State, Decision, transition}
use delta_works.Domain.Ledger.{Outcome}
use delta_works.Postgres.Schema.{OrderRow, FillRow, order_updated, order_filled, micros}
use delta_works.Postgres.Session.{Session, Tx, pure, raise, ◌>>=◌, ◌>>◌, transaction, db_error}
use delta_works.Postgres.Queries.{
  get_order_row, insert_pending_order, adopt_venue_order_id_row, apply_order_update,
  mark_cancel_requested_rows, insert_transition, insert_fill, insert_outbox, is_none,
}
use delta_works.Postgres.LedgerPosting.{post_ledger_fill, no_outcome}

-- The decision on an event with its persisted ledger effects (`order.ApplyResult`).
pub record ApplyResult (D : Type 0) : Type 0 where
  pub decision : Decision D
  pub outcome : Outcome D
  pub fill_conflict : Bool

abbrev pub null_string : String → Option String
null_string s = if str_eq s "" then none else some s

abbrev pub from_null_string : Option String → String
from_null_string none = ""
from_null_string (some s) = s

abbrev pub subject_order_updated : String
subject_order_updated = "order.updated"

abbrev pub subject_order_filled : String
subject_order_filled = "order.filled"

-- What posting a fill leaves to the rest of `persistDecision`: the event, perhaps made anonymous, the
-- outcome and whether the venue's fill ID was taken.
pub record Posted (D : Type 0) : Type 0 where
  pub event : Event D
  pub outcome : Outcome D
  pub fill_conflict : Bool

module _ {D A : Type 0} where
  -- A pure result inside a transaction.
  abbrev pub lift : Result A → Tx D A
  lift r w = (r, w)

module _ {D : Type 0} ⦃dec : Decimals D⦄ where
  abbrev pub null_numeric : D → Option D
  null_numeric d = if is_zero d then none else some d

  abbrev pub from_numeric : Option D → D
  from_numeric none = zero_decimal
  from_numeric (some d) = d

  unfoldable pub adopt_venue_order_id : OrderRow D → String → Tx D Bool
  adopt_venue_order_id row venue_order_id =
      if not (is_none row.venue_order_id) || str_eq venue_order_id ""
      then pure false
      else do adopt_venue_order_id_row row.client_order_id (null_string venue_order_id); pure true

  -- The volume-weighted average after a fill; the stored one where the event carries no usable price.
  unfoldable pub avg_fill_price : OrderRow D → Decision D → Event D → D → Option D
  avg_fill_price row decision ev new_filled =
      if not (is_positive decision.fill_delta)
        || not (is_positive ev.fill_price)
        || is_zero new_filled
      then row.avg_fill_price
      else if is_none row.avg_fill_price && is_positive row.filled_qty
      then null_numeric ev.fill_price
      else null_numeric (
          div
            (add (mul (from_numeric row.avg_fill_price) row.filled_qty)
              (mul ev.fill_price decision.fill_delta))
            new_filled)

  unfoldable pub insert_event_outbox :
      OrderRow D → Source → Event D → Decision D → D → Tx D (Unit {0})
  insert_event_outbox row source ev decision new_filled = do
    insert_outbox subject_order_updated (
        order_updated (record {
          client_order_id = row.client_order_id;
          venue = row.venue;
          base = row.base;
          quote = row.quote;
          status = decision.to;
          filled_qty = new_filled;
          source = source;
          at = ev.at;
        }))
    if not (is_positive decision.fill_delta)
        then pure tt
        else insert_outbox subject_order_filled (
            order_filled (record {
              client_order_id = row.client_order_id;
              venue = row.venue;
              base = row.base;
              quote = row.quote;
              status = decision.to;
              filled_qty = new_filled;
              qty = decision.fill_delta;
              price = ev.fill_price;
              fee = ev.fee;
              fee_currency = ev.fee_currency;
              venue_fill_id = ev.venue_fill_id;
              at = ev.at;
            }))

  -- The row for `InsertFill`; the statement gives its ID.
  abbrev pub fill_row : OrderRow D → Event D → D → ℕ → FillRow D
  fill_row row ev delta transition_id = record {
    id = 0;
    client_order_id = row.client_order_id;
    transition_id = transition_id;
    qty = delta;
    price = null_numeric ev.fill_price;
    fee = null_numeric ev.fee;
    fee_currency = null_string ev.fee_currency;
    venue_fill_id = null_string ev.venue_fill_id;
    occurred_at = micros ev.at;
  }

  -- The row of the second attempt, after a venue fill ID that the order already has.
  abbrev pub anonymous_row : OrderRow D → Event D → D → ℕ → FillRow D
  anonymous_row row ev delta transition_id = record (fill_row row ev delta transition_id) {
    venue_fill_id = none;
    fee = none;
    fee_currency = none;
  }

  -- The event without what identifies and prices a fill that is already recorded.
  abbrev pub anonymous : Event D → Event D
  anonymous ev = record ev { venue_fill_id = ""; fee = zero_decimal; fee_currency = "" }

  abbrev pub missing_fill : Option ℕ → Tx D ℕ
  missing_fill none = raise db_error
  missing_fill (some id) = pure id

  abbrev pub post_after_insert : OrderRow D → Event D → D → ℕ → Option ℕ → Tx D (Posted D)
  post_after_insert row ev delta transition_id (some fill_id) = do
    outcome ← post_ledger_fill row ev delta fill_id
    pure (record { event = ev; outcome = outcome; fill_conflict = false })
  post_after_insert row ev delta transition_id none = do
    second ← insert_fill (anonymous_row row ev delta transition_id)
    fill_id ← missing_fill second
    outcome ← post_ledger_fill row (anonymous ev) delta fill_id
    pure (record { event = anonymous ev; outcome = outcome; fill_conflict = true })

  -- The fill row and its ledger posting. A venue fill ID that the order already has is a conflict: the
  -- delta is posted without it.
  unfoldable pub post_fill : OrderRow D → Event D → D → ℕ → Tx D (Posted D)
  post_fill row ev delta transition_id =
      if not (is_positive delta)
      then pure (record { event = ev; outcome = no_outcome; fill_conflict = false })
      else do
        first ← insert_fill (fill_row row ev delta transition_id)
        post_after_insert row ev delta transition_id first

  unfoldable pub persist_decision :
      OrderRow D → Source → Event D → Decision D → Tx D (ApplyResult D)
  persist_decision row source ev decision = do
    let new_filled = add row.filled_qty decision.fill_delta
    transition_id ←
        insert_transition row.client_order_id row.status decision.to new_filled source
          (null_string ev.reason) ev.at
    posted ← post_fill row ev decision.fill_delta transition_id
    apply_order_update row.client_order_id decision.to new_filled
        (avg_fill_price row decision ev new_filled) (null_string ev.ref.venue_order_id)
        (null_string ev.reason)
    insert_event_outbox row source posted.event decision new_filled
    pure (record {
      decision = decision;
      outcome = posted.outcome;
      fill_conflict = posted.fill_conflict;
    })

  abbrev pub unposted : Decision D → ApplyResult D
  unposted decision = record { decision = decision; outcome = no_outcome; fill_conflict = false }

  abbrev pub changes_nothing : Decision D → Bool
  changes_nothing decision = not decision.transition && not (is_positive decision.fill_delta)

  -- A dropped event commits only if it supplied a missing venue order ID.
  abbrev pub drop_event : OrderRow D → Event D → Decision D → Tx D (ApplyResult D × Bool)
  drop_event row ev decision = do
    adopted ← adopt_venue_order_id row ev.ref.venue_order_id
    pure (unposted decision, adopted)

  abbrev pub keep_decision :
      OrderRow D → Source → Event D → Decision D → Tx D (ApplyResult D × Bool)
  keep_decision row source ev decision = do
    result ← persist_decision row source ev decision
    pure (result, true)

  -- The body of the transaction once the row is locked; it says beside its result whether it commits.
  unfoldable pub apply_to_row : OrderRow D → Source → Event D → Tx D (ApplyResult D × Bool)
  apply_to_row row source ev = do
    decision ← lift (transition (record { status = row.status; filled_qty = row.filled_qty }) ev)
    if changes_nothing decision
        then drop_event row ev decision
        else keep_decision row source ev decision

  abbrev pub with_row : Option (OrderRow D) → Source → Event D → Tx D (ApplyResult D × Bool)
  with_row none source ev = raise (not_found ∷ [])
  with_row (some row) source ev = apply_to_row row source ev

  unfoldable pub apply_body : Source → Event D → Tx D (ApplyResult D × Bool)
  apply_body source ev = do row ← get_order_row ev.ref.client_order_id; with_row row source ev

  unfoldable pub apply_event : Source → Event D → Tx D (ApplyResult D)
  apply_event source ev = transaction (apply_body source ev)
