-- ===== src/Service/Orders.antt =====
-- internal/service/order/order.go: placing and canceling orders, and what the private streams report.
-- Log lines and metrics are left out. `canceled` says whether the caller's context is done when an
-- error of the store is inspected; `retry` stands for `backoff.Retry`, the venues for any adapter.
pub mod Commands
pub mod Prepare
use delta_works.Base.{
  Bool, true, false, not, ◌&&◌, ◌||◌, List, [], ◌∷◌, Option, none, some, String, if◌then◌else◌,
  str_eq,
}
use delta_works.Errors.{
  Result, ok, err, Error, is, wrap, not_found, auth, trading_unsupported, submit_unsettled,
  identity_mismatch, terminal_order, venue_not_configured, other,
}
use delta_works.Decimal.{Decimals, equal, zero_decimal}
use delta_works.Domain.Instrument.{VenueId}
use delta_works.Domain.Order.{
  Time, is_zero_time, ClientOrderId, Request, OrderRecord, Ref, Ack, Snapshot, Event, Source,
  Status, local, ack, stream, pending, rejected, same_status, same_side, same_type,
}
use delta_works.Domain.Order.Machine.{is_terminal}
use delta_works.Postgres.Session.{Session, Tx, pure, raise, ◌>>=◌, ◌>>◌, attempt}
use delta_works.Postgres.LedgerPosting.{fresh_id}
use delta_works.Postgres.OrderStore.{ApplyResult, apply_event}
use delta_works.Postgres.OrderMethods.{create_pending, get_order, mark_cancel_requested}

-- internal/ports/trading.go: the order surface of a venue.
pub record Placer (D : Type 0) : Type 0 where
  pub place_order : Request D → Tx D (Ack D)
  pub cancel_order : Ref D → Tx D (Unit {0})
  pub open_orders : Tx D (List (Snapshot D))
  pub lookup_order : Ref D → Tx D (Snapshot D)

pub record Venue (D : Type 0) : Type 0 where
  pub id : VenueId
  pub placer : Placer D

-- One try of a submit, as `backoff.Retry` sees it.
pub data Attempt (D : Type 0) : Type 0 where
  accepted : Ack D → Attempt D
  failed permanent : Error → Attempt D

pub record Service (D : Type 0) : Type 0 where
  pub venues : List (Venue D)
  pub now : Time
  pub retry : Tx D (Attempt D) → Tx D (Ack D)
  pub text : Error → String

pub record PlaceResult : Type 0 where
  pub client_order_id : ClientOrderId
  pub status : Status

-- A Go return of a result beside an error that may be nil.
pub record Placement : Type 0 where
  pub result : PlaceResult
  pub error : Option Error

abbrev pub not_placed : Error → Placement
not_placed e = record {
  result = record { client_order_id = ""; status = Status.unknown "" };
  error = some e;
}

-- What `preparePlace` decides: submit at a venue, or report the order as it is stored.
pub data Prepared (D : Type 0) : Type 0 where
  submit : Request D → Venue D → Prepared D
  existing : PlaceResult → Prepared D

module _ {D : Type 0} where
  -- The map of `New`: a later venue of the same ID replaces an earlier one.
  unfoldable pub venue_of : VenueId → List (Venue D) → Option (Venue D)
  venue_of id [] = none
  venue_of id (v ∷ vs) = elim (venue_of id vs) [
    | some u ↦ some u
    | none ↦ if str_eq v.id id then some v else none
  ]

  abbrev pub place_result : OrderRecord D → PlaceResult
  place_result stored = record { client_order_id = stored.client_order_id; status = stored.status }

module _ {D : Type 0} ⦃dec : Decimals D⦄ where
  unfoldable pub same_identity : OrderRecord D → Request D → Bool
  same_identity stored req =
      str_eq stored.client_order_id req.client_order_id
      && str_eq stored.bot_id req.bot_id
      && str_eq stored.instrument.venue req.instrument.venue
      && str_eq stored.instrument.base req.instrument.base
      && str_eq stored.instrument.quote req.instrument.quote
      && same_side stored.side req.side
      && same_type stored.type req.type
      && equal stored.price req.price
      && equal stored.qty req.qty

  -- The receipt time stands in where the venue reported none.
  abbrev pub stamped : Time → Event D → Event D
  stamped now ev = if is_zero_time ev.at then record ev { at = now } else ev

  abbrev pub after_apply : Bool → Result (ApplyResult D) → Tx D (Unit {0})
  after_apply canceled (ok r) = pure tt
  after_apply canceled (err e) =
      if is e not_found
      then pure tt
      else if canceled
      then pure tt
      else raise (wrap (other "order store") e)

  -- `apply`: only a failure of the store propagates.
  unfoldable pub apply : Bool → Time → Source → Event D → Tx D (Unit {0})
  apply canceled now source ev = do
    r ← attempt (apply_event source (stamped now ev))
    after_apply canceled r

  abbrev pub require_venue : Request D → Option (Venue D) → Tx D (Prepared D)
  require_venue req none = raise (venue_not_configured ∷ [])
  require_venue req (some venue) = pure (submit req venue)

  abbrev pub recognise : Request D → Option (Venue D) → Result (OrderRecord D) → Tx D (Prepared D)
  recognise req none (err e) = if is e not_found then raise (venue_not_configured ∷ []) else raise e
  recognise req (some venue) (err e) = raise e
  recognise req venue (ok stored) =
      if not (same_identity stored req)
      then raise (identity_mismatch ∷ [])
      else if str_eq stored.venue_order_id "" && same_status stored.status pending
      then require_venue req venue
      else pure (existing (place_result stored))

  unfoldable pub retry_of : Request D → Option (Venue D) → Tx D (Prepared D)
  retry_of req venue = do
    stored ← attempt (get_order req.client_order_id)
    recognise req venue stored

  abbrev pub persist_first : Request D → Option (Venue D) → Tx D (Prepared D)
  persist_first req none = retry_of req none
  persist_first req (some venue) = do
    inserted ← create_pending req
    let known = retry_of req (some venue)
    if inserted then pure (submit req venue) else known

  unfoldable pub with_id : Request D → Tx D (Request D)
  with_id req =
      if not (str_eq req.client_order_id "")
      then pure req
      else do id ← fresh_id; pure (record req { client_order_id = id })

  abbrev pub with_bot : Request D → Request D
  with_bot req = if str_eq req.bot_id "" then record req { bot_id = "manual" } else req

  unfoldable pub prepare_place : List (Venue D) → Request D → Tx D (Prepared D)
  prepare_place venues req = do
    named ← with_id req
    persist_first (with_bot named) (venue_of named.instrument.venue venues)
