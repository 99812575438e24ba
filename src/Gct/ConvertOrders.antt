-- ===== src/Gct/ConvertOrders.antt =====
-- internal/adapters/gct/convert_orders.go.
use delta_works.Base.{not, List, [], ◌∷◌, if◌then◌else◌}
use delta_works.Decimal.{Decimals, zero_decimal}
use delta_works.Errors.{Result, ok, err, other, ◌>>=◌}
use delta_works.Config.Texts.{trim_space}
use delta_works.Domain.Instrument.{new_currency, Instrument, InstrumentType, VenueId}
use delta_works.Domain.Order.{
  Time, is_zero_time, Side, OrderType, Status, pending, open_order, partially_filled, filled,
  canceled, rejected, expired, Request, Ref, Snapshot, Event,
}
use delta_works.Postgres.OrderMethods.{zero_rules}
use delta_works.Gct.{
  GctStatus, gct_pending, gct_new, gct_active, gct_open, gct_hidden, gct_pending_cancel,
  gct_cancelling, gct_partially_filled, gct_filled, gct_closed, gct_cancelled,
  gct_partially_cancelled, gct_partially_filled_cancelled, gct_liquidated, gct_auto_deleverage,
  gct_rejected, gct_insufficient_balance, gct_market_unavailable, gct_stp, gct_expired, gct_other,
  GctSide, gct_buy, gct_sell, GctType, gct_limit, gct_market, TradeHistory, Detail, Submit, Cancel,
  Values, Bot,
}
use delta_works.Gct.Convert.{to_gct_pair_asset}

unfoldable pub to_gct_side : Side → Result GctSide
to_gct_side Side.buy = ok gct_buy
to_gct_side Side.sell = ok gct_sell
to_gct_side (Side.unknown s) = err (other "order side not supported" ∷ [])

unfoldable pub to_gct_type : OrderType → Result GctType
to_gct_type OrderType.limit = ok gct_limit
to_gct_type OrderType.market = ok gct_market
to_gct_type (OrderType.unknown s) = err (other "order type not supported" ∷ [])

unfoldable pub to_status : GctStatus → Result Status
to_status gct_pending = ok pending
to_status gct_new = ok open_order
to_status gct_active = ok open_order
to_status gct_open = ok open_order
to_status gct_hidden = ok open_order
to_status gct_pending_cancel = ok open_order
to_status gct_cancelling = ok open_order
to_status gct_partially_filled = ok partially_filled
to_status gct_filled = ok filled
to_status gct_closed = ok filled
to_status gct_cancelled = ok canceled
to_status gct_partially_cancelled = ok canceled
to_status gct_partially_filled_cancelled = ok canceled
to_status gct_liquidated = ok canceled
to_status gct_auto_deleverage = ok canceled
to_status gct_rejected = ok rejected
to_status gct_insufficient_balance = ok rejected
to_status gct_market_unavailable = ok rejected
to_status gct_stp = ok rejected
to_status gct_expired = ok expired
to_status (gct_other s) = err (other "order status not mappable" ∷ [])

-- `time.Now` is what `now` says when it is called.
abbrev pub first_time : Time → Time → Time → Time
first_time updated date now =
    if not (is_zero_time updated) then updated else if not (is_zero_time date) then date else now

module _ {W D P F : Type 0} (values : Values D P F) (bot : Bot W P F) where
  unfoldable pub to_gct_submit : Request D → Result (Submit P F)
  to_gct_submit req = do
    (pair, item) ← to_gct_pair_asset values bot req.instrument
    side ← to_gct_side req.side
    typ ← to_gct_type req.type
    ok (record {
      exchange = bot.name;
      pair = pair;
      asset_type = item;
      side = side;
      type = typ;
      price = values.to_float req.price;
      amount = values.to_float req.qty;
      client_order_id = req.client_order_id;
    })

  unfoldable pub to_gct_cancel : Ref D → Result (Cancel P)
  to_gct_cancel ref = do
    (pair, item) ← to_gct_pair_asset values bot ref.instrument
    ok (record {
      exchange = bot.name;
      order_id = ref.venue_order_id;
      client_order_id = ref.client_order_id;
      pair = pair;
      asset_type = item;
    })

module _ {D P F : Type 0} ⦃dec : Decimals D⦄ (values : Values D P F) (now : Time) where
  abbrev pub detail_time : Detail P F → Time
  detail_time d = first_time d.last_updated d.date now

  unfoldable pub from_gct_pair : VenueId → P → Instrument D
  from_gct_pair venue pair = record {
    venue = venue;
    type = InstrumentType.spot;
    base = new_currency values.to_upper trim_space (values.base_of pair);
    quote = new_currency values.to_upper trim_space (values.quote_of pair);
    venue_symbol = values.text_of pair;
    rules = zero_rules;
  }

  unfoldable pub to_ref : VenueId → Detail P F → Ref D
  to_ref venue d = record {
    instrument = from_gct_pair venue d.pair;
    client_order_id = d.client_order_id;
    venue_order_id = d.order_id;
  }

  unfoldable pub to_snapshot : VenueId → Detail P F → Result (Snapshot D)
  to_snapshot venue d = do
    status ← to_status d.status
    ok (record {
      ref = to_ref venue d;
      status = status;
      price = values.from_float d.price;
      qty = values.from_float d.amount;
      filled_qty = values.from_float d.executed_amount;
      avg_fill_price = values.from_float d.average_executed_price;
      updated_at = detail_time d;
    })

  -- The facts of the fill, when there is exactly one trade.
  abbrev pub with_trade : List (TradeHistory F) → Event D → Event D
  with_trade (t ∷ []) ev = record ev {
    venue_fill_id = t.tid;
    fill_price = values.from_float t.price;
    fee = values.from_float t.fee;
    fee_currency = new_currency values.to_upper trim_space t.fee_asset;
  }
  with_trade _ ev = ev

  unfoldable pub to_event : VenueId → Detail P F → Result (Event D)
  to_event venue d = do
    status ← to_status d.status
    ok (
        with_trade d.trades (record {
          ref = to_ref venue d;
          status = status;
          filled_qty = values.from_float d.executed_amount;
          fill_price = values.from_float d.average_executed_price;
          venue_fill_id = "";
          fee = zero_decimal;
          fee_currency = "";
          reason = "";
          at = detail_time d;
        }))
