-- ===== src/Service/Orders/Commands.antt =====
-- internal/service/order/order.go: `Place` after the pending row is there, `Cancel`, and the loop over
-- the events of a stream.
use Prim.Native.String.{◌++◌}
use delta_works.Base.{Bool, false, ◌||◌, List, [], ◌∷◌, Option, none, some, if◌then◌else◌}
use delta_works.Errors.{
  Result, ok, err, Error, is, wrap, auth, trading_unsupported, submit_unsettled, terminal_order,
  venue_not_configured,
}
use delta_works.Decimal.{Decimals, zero_decimal}
use delta_works.Domain.Order.{
  ClientOrderId, Request, OrderRecord, Ref, Ack, Event, Status, local, ack, stream, pending,
  rejected,
}
use delta_works.Domain.Order.Machine.{is_terminal}
use delta_works.Postgres.Session.{Tx, pure, raise, ◌>>=◌, ◌>>◌, attempt}
use delta_works.Postgres.OrderMethods.{get_order, mark_cancel_requested}
use delta_works.Service.Orders.{
  Venue, Service, Attempt, accepted, failed, permanent, Placement, not_placed, place_result,
  venue_of, apply, Prepared, submit, existing, prepare_place,
}

abbrev pub is_permanent : Error → Bool
is_permanent e = is e auth || is e trading_unsupported

module _ {D : Type 0} ⦃dec : Decimals D⦄ where
  abbrev pub attempted : Result (Ack D) → Tx D (Attempt D)
  attempted (ok a) = pure (accepted a)
  attempted (err e) = if is_permanent e then pure (permanent e) else pure (failed e)

  -- The closure that `Place` hands to `backoff.Retry`.
  unfoldable pub submit_once : Venue D → Request D → Tx D (Attempt D)
  submit_once venue req = do r ← attempt (venue.placer.place_order req); attempted r

  abbrev pub accepted_unsettled : Request D → Error → Tx D Placement
  accepted_unsettled req e = pure (record {
    result = record { client_order_id = req.client_order_id; status = pending };
    error = some (wrap submit_unsettled e);
  })

  abbrev pub unsettled : Request D → Error → Result (OrderRecord D) → Tx D Placement
  unsettled req e (err _) = pure (record {
    result = record { client_order_id = req.client_order_id; status = pending };
    error = some (wrap submit_unsettled e);
  })
  unsettled req e (ok stored) =
      pure (record { result = place_result stored; error = some (wrap submit_unsettled e) })

  abbrev pub rejection : Service D → Request D → Error → Event D
  rejection svc req e = record {
    ref = record {
      instrument = req.instrument;
      client_order_id = req.client_order_id;
      venue_order_id = "";
    };
    status = rejected;
    filled_qty = zero_decimal;
    fill_price = zero_decimal;
    venue_fill_id = "";
    fee = zero_decimal;
    fee_currency = "";
    reason = "submit failed: " ++ svc.text e;
    at = svc.now;
  }

  -- Recovery outlives the caller's context, so no cancellation hides an error here.
  unfoldable pub reject_now : Service D → Request D → Error → Tx D Placement
  reject_now svc req e = do
    attempt (apply false svc.now local (rejection svc req e))
    pure (record {
      result = record { client_order_id = req.client_order_id; status = rejected };
      error = some e;
    })

  unfoldable pub keep_pending : Request D → Error → Tx D Placement
  keep_pending req e = do stored ← attempt (get_order req.client_order_id); unsettled req e stored

  unfoldable pub submit_failure : Service D → Request D → Error → Tx D Placement
  submit_failure svc req e = if is_permanent e then reject_now svc req e else keep_pending req e

  -- The ack carries no cumulative fill.
  abbrev pub ack_event : Ack D → Event D
  ack_event a = record {
    ref = a.ref;
    status = a.status;
    filled_qty = zero_decimal;
    fill_price = zero_decimal;
    venue_fill_id = "";
    fee = zero_decimal;
    fee_currency = "";
    reason = "";
    at = a.accepted_at;
  }

  abbrev pub read_back : Request D → Result (OrderRecord D) → Tx D Placement
  read_back req (err e) = accepted_unsettled req e
  read_back req (ok stored) = pure (record { result = place_result stored; error = none })

  abbrev pub after_ack : Request D → Result (Unit {0}) → Tx D Placement
  after_ack req (err e) = accepted_unsettled req e
  after_ack req (ok _) = do stored ← attempt (get_order req.client_order_id); read_back req stored

  abbrev pub after_submit : Service D → Bool → Request D → Result (Ack D) → Tx D Placement
  after_submit svc canceled req (err e) = submit_failure svc req e
  after_submit svc canceled req (ok a) = do
    applied ← attempt (apply canceled svc.now ack (ack_event a))
    after_ack req applied

  abbrev pub after_prepare : Service D → Bool → Result (Prepared D) → Tx D Placement
  after_prepare svc canceled (err e) = pure (not_placed e)
  after_prepare svc canceled (ok (existing r)) = pure (record { result = r; error = none })
  after_prepare svc canceled (ok (submit req venue)) = do
    a ← attempt (svc.retry (submit_once venue req))
    after_submit svc canceled req a

  -- `Place`.
  unfoldable pub place : Service D → Bool → Request D → Tx D Placement
  place svc canceled req = do
    prepared ← attempt (prepare_place svc.venues req)
    after_prepare svc canceled prepared

  abbrev pub ref_of : OrderRecord D → Ref D
  ref_of stored = record {
    instrument = stored.instrument;
    client_order_id = stored.client_order_id;
    venue_order_id = stored.venue_order_id;
  }

  abbrev pub cancel_at : Service D → ClientOrderId → OrderRecord D → Option (Venue D) → Tx D Status
  cancel_at svc id stored none = raise (venue_not_configured ∷ [])
  cancel_at svc id stored (some venue) = do
    mark_cancel_requested id svc.now
    venue.placer.cancel_order (ref_of stored)
    pure stored.status

  -- `Cancel`.
  unfoldable pub cancel : Service D → ClientOrderId → Tx D Status
  cancel svc id = do
    stored ← get_order id
    if is_terminal stored.status
        then raise (terminal_order ∷ [])
        else cancel_at svc id stored (venue_of stored.instrument.venue svc.venues)

  -- The inner loop of `consumeStream`: the events of one stream, until the store fails.
  unfoldable pub consume_stream : Service D → Bool → List (Event D) → Tx D (Unit {0})
  consume_stream svc canceled [] = pure tt
  consume_stream svc canceled (ev ∷ evs) =
      apply canceled svc.now stream ev >>= λ _. consume_stream svc canceled evs

-- What `consumeStream` meets when it asks for a stream: no stream, or one that ends after its events. The
-- `Bool` says whether the context is done by then, or during the delay before the next try.
pub data StreamTry (D : Type 0) : Type 0 where
  unstarted : Bool → StreamTry D
  streamed : List (Event D) → Bool → StreamTry D

module _ {D : Type 0} ⦃dec : Decimals D⦄ where
  -- `consumeStream`: only a failure of the store ends it before the context is done.
  unfoldable pub consume_streams : Service D → Bool → List (StreamTry D) → Tx D (Unit {0})
  consume_streams svc canceled [] = pure tt
  consume_streams svc canceled (unstarted done ∷ tries) =
      let rest = consume_streams svc canceled tries in if done then pure tt else rest
  consume_streams svc canceled (streamed evs done ∷ tries) =
      let rest = consume_streams svc canceled tries in
      consume_stream svc canceled evs >>= λ _. if done then pure tt else rest
