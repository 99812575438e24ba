-- ===== src/Gct/Adapter.antt =====
-- internal/adapters/gct/orders.go and internal/adapters/gct/adapter.go: the calls of the adapter.
use delta_works.Base.{◌||◌, List, [], ◌∷◌, Option, none, some, String, str_eq, if◌then◌else◌}
use delta_works.Decimal.{Decimals}
use delta_works.Errors.{
  Result, ok, err, Error, is, wrap, other, auth, not_found, no_venue_order_id,
  credentials_are_empty, authentication_support_not_enabled, order_not_found,
}
use delta_works.Domain.Instrument.{Instrument, InstrumentType, VenueId}
use delta_works.Domain.Account.{AccountType, Balance, Ticker}
use delta_works.Domain.Order.{Time, is_zero_time, Status, open_order, Request, Ack, Ref, Snapshot}
use delta_works.Exchange.{Call, Exchange}
use delta_works.Gct.{Detail, SubmitResponse, Values, Bot}
use delta_works.Gct.Convert.{
  with_context, to_gct_asset, to_gct_asset_from_account, to_gct_pair_asset, to_ticker,
  to_instruments, to_balances,
}
use delta_works.Gct.ConvertOrders.{to_gct_submit, to_gct_cancel, to_status, to_snapshot}

module _ {W A B : Type 0} where
  abbrev pub after_call : (A → Call W B) → Result A × W → Result B × W
  after_call next (ok a, w) = next a w
  after_call next (err e, w) = (err e, w)

  infixl 5 ◌>>=◌
  -- `if err != nil { return err }`
  abbrev pub ◌>>=◌ : Call W A → (A → Call W B) → Call W B
  (m >>= next) w = after_call next (m w)

module _ {W A : Type 0} where
  -- A value that needs no call.
  abbrev pub settled : Result A → Call W A
  settled r w = (r, w)

  abbrev pub map_result : {B : Type 0} → (Result A → Result B) → Result A × W → Result B × W
  map_result f (r, w) = (f r, w)

unfoldable pub classify : Error → Error
classify e =
    if is e credentials_are_empty || is e authentication_support_not_enabled then wrap auth e else e

abbrev pub classified : {A : Type 0} → String → Result A → Result A
classified message (ok a) = ok a
classified message (err e) = err (wrap (other message) (classify e))

-- A status that has no name here settles later; the order is at the venue.
abbrev pub status_or_open : Result Status → Status
status_or_open (ok status) = status
status_or_open (err e) = open_order

module _ {D : Type 0} where
  abbrev pub ack_of : Request D → Time → SubmitResponse → Ack D
  ack_of req now resp = record {
    ref = record {
      instrument = req.instrument;
      client_order_id = req.client_order_id;
      venue_order_id = resp.order_id;
    };
    status = status_or_open (to_status resp.status);
    accepted_at = if is_zero_time resp.date then now else resp.date;
  }

  unfoldable pub acknowledge : Request D → Time → Option SubmitResponse → Result (Ack D)
  acknowledge req now none = err (other "gct: submit order: nil response" ∷ [])
  acknowledge req now (some resp) = ok (ack_of req now resp)

-- The first error of a list of results, or all their values.
abbrev pub prepend : {A : Type 0} → Result A → Result (List A) → Result (List A)
prepend (err e) rest = err e
prepend (ok a) (err e) = err e
prepend (ok a) (ok rest) = ok (a ∷ rest)

module _ {W D P F : Type 0} ⦃dec : Decimals D⦄ (values : Values D P F) (bot : Bot W P F)
    (id : VenueId) (now : Time) where
  unfoldable pub place_order : Request D → Call W (Ack D)
  place_order req = do
    submit ← settled (to_gct_submit values bot req)
    resp ← λ w. map_result (classified "gct: submit order") (bot.submit_order submit w)
    settled (acknowledge req now resp)

  unfoldable pub cancel_order : Ref D → Call W (Unit {0})
  cancel_order ref = do
    cancel ← settled (to_gct_cancel values bot ref)
    λ w. map_result (classified "gct: cancel order") (bot.cancel_order cancel w)

  -- One order that has no status here fails the listing.
  unfoldable pub to_snapshots : List (Detail P F) → Result (List (Snapshot D))
  to_snapshots [] = ok []
  to_snapshots (d ∷ details) = prepend (to_snapshot values now id d) (to_snapshots details)

  unfoldable pub open_orders : Call W (List (Snapshot D))
  open_orders = do
    item ← settled (to_gct_asset InstrumentType.spot)
    details ← λ w. map_result (classified "gct: open orders") (bot.get_active_orders item w)
    settled (with_context "gct: open orders" (to_snapshots details))

  -- What a lookup makes of the answer of the venue.
  abbrev pub looked_up : Result (Option (Detail P F)) → Result (Snapshot D)
  looked_up (err e) =
      if is e order_not_found
      then err (wrap not_found e)
      else err (wrap (other "gct: get order") (classify e))
  looked_up (ok none) = err (not_found ∷ [])
  looked_up (ok (some d)) = with_context "gct: get order" (to_snapshot values now id d)

  unfoldable pub get_order : Ref D → Call W (Snapshot D)
  get_order ref =
      if str_eq ref.venue_order_id ""
      then settled (err (other "gct: get order" ∷ no_venue_order_id ∷ []))
      else do
        (pair, item) ← settled (to_gct_pair_asset values bot ref.instrument)
        λ w. map_result looked_up (bot.get_order_info ref.venue_order_id pair item w)

  unfoldable pub ticker : Instrument D → Call W (Ticker D)
  ticker inst = do
    (pair, item) ← settled (to_gct_pair_asset values bot inst)
    price ← λ w. map_result (with_context "gct: ticker") (bot.update_ticker pair item w)
    settled (ok (to_ticker values inst price))

  unfoldable pub instruments : InstrumentType → Call W (List (Instrument D))
  instruments typ = do
    item ← settled (to_gct_asset typ)
    pairs ← settled (with_context "gct: enabled pairs" (bot.get_enabled_pairs item))
    settled (ok (to_instruments values id typ pairs))

  unfoldable pub balances : AccountType → Call W (List (Balance D))
  balances acct = do
    item ← settled (to_gct_asset_from_account acct)
    subs ← λ w. map_result (classified "gct: balances") (bot.update_account_balances item w)
    settled (ok (to_balances values subs))

  -- The adapter as the registry and the services see it.
  abbrev pub adapter : Exchange W D
  adapter = record {
    id = id;
    ticker = ticker;
    instruments = instruments;
    balances = balances;
    trading = some (record {
      place_order = place_order;
      cancel_order = cancel_order;
      open_orders = open_orders;
      lookup_order = get_order;
    });
  }
