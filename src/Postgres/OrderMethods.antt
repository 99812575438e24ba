-- ===== src/Postgres/OrderMethods.antt =====
-- internal/adapters/postgres/orders.go: the methods of `OrderStore` that run one statement outside a
-- transaction of their own.
pub mod Reads
use delta_works.Base.{
  ◌+◌, Bool, true, ◌&&◌, ◌||◌, List, [], ◌∷◌, Option, none, some, String, if◌then◌else◌, ◌==◌, ltb,
  str_eq, map, keep, sort, take, any, text_less,
}
use delta_works.Errors.{ok, not_found}
use delta_works.Decimal.{Decimals, zero_decimal}
use delta_works.Domain.Instrument.{VenueId, spot, Rules}
use delta_works.Domain.Order.{
  Time, ClientOrderId, Request, OrderRecord, Query, Status, pending, open_order, partially_filled,
  same_status,
}
use delta_works.Postgres.Schema.{OrderRow}
use delta_works.Postgres.Session.{Tx, pure, raise, ◌>>=◌, statement}
use delta_works.Postgres.Queries.{get_order_row, insert_pending_order, mark_cancel_requested_rows}
use delta_works.Postgres.OrderStore.{from_null_string, from_numeric}

abbrev pub zero_time_if_null : Option Time → Time
zero_time_if_null none = 0
zero_time_if_null (some t) = t

abbrev pub is_or_null : Option String → String → Bool
is_or_null none s = true
is_or_null (some v) s = str_eq s v

abbrev pub status_among : Option (List Status) → Status → Bool
status_among none s = true
status_among (some l) s = any (same_status s) l

-- An empty list of statuses filters nothing.
abbrev pub statuses_or_all : Query → Query
statuses_or_all q = elim q.statuses [ some (s ∷ l) ↦ q | _ ↦ record q { statuses = none } ]

module _ {D : Type 0} where
  abbrev pub is_active : OrderRow D → Bool
  is_active row =
      same_status row.status pending
      || same_status row.status open_order
      || same_status row.status partially_filled

  abbrev created_before : OrderRow D → OrderRow D → Bool
  created_before a b = ltb a.created_at b.created_at

  -- ListActiveOrders: the non-terminal orders of a venue, by creation time.
  unfoldable pub list_active_rows : VenueId → Tx D (List (OrderRow D))
  unfolding statement
  list_active_rows venue = statement λ w.
      (ok (sort created_before (keep (λ r. str_eq r.venue venue && is_active r) w.db.orders)), w)

  -- The descending order (created_at, client_order_id) of ListOrders.
  abbrev pub newer : OrderRow D → OrderRow D → Bool
  newer a b =
      if a.created_at == b.created_at
      then text_less b.client_order_id a.client_order_id
      else ltb b.created_at a.created_at

  -- (created_at, client_order_id) < (cursor_created_at, cursor_id). With a time and no ID the row
  -- comparison is NULL where the times are equal, which is not true.
  abbrev pub past_cursor : Option Time → Option String → OrderRow D → Bool
  past_cursor none id r = true
  past_cursor (some t) none r = ltb r.created_at t
  past_cursor (some t) (some id) r =
      if r.created_at == t then text_less r.client_order_id id else ltb r.created_at t

  abbrev pub matches_query : Query → OrderRow D → Bool
  matches_query q r =
      is_or_null q.venue r.venue
      && status_among q.statuses r.status
      && is_or_null q.bot_id r.bot_id
      && past_cursor q.cursor_created_at q.cursor_id r

  -- ListOrders, with its row limit one above that of the query.
  unfoldable pub list_order_rows : Query → Tx D (List (OrderRow D))
  unfolding statement
  list_order_rows q =
      statement λ w. (ok (take (q.limit + 1) (sort newer (keep (matches_query q) w.db.orders))), w)

module _ {D : Type 0} ⦃dec : Decimals D⦄ where
  abbrev pub zero_rules : Rules D
  zero_rules = record {
    price_increment = zero_decimal;
    qty_increment = zero_decimal;
    min_qty = zero_decimal;
    min_notional = zero_decimal;
  }

  -- `orderRecord`.
  abbrev pub order_record : OrderRow D → OrderRecord D
  order_record row = record {
    client_order_id = row.client_order_id;
    bot_id = row.bot_id;
    venue_order_id = from_null_string row.venue_order_id;
    reason = from_null_string row.reason;
    instrument = record {
      venue = row.venue;
      type = spot;
      base = row.base;
      quote = row.quote;
      venue_symbol = row.venue_symbol;
      rules = zero_rules;
    };
    side = row.side;
    type = row.type;
    price = row.price;
    qty = row.qty;
    filled_qty = row.filled_qty;
    avg_fill_price = from_numeric row.avg_fill_price;
    status = row.status;
    cancel_requested_at = zero_time_if_null row.cancel_requested_at;
    created_at = row.created_at;
    updated_at = row.updated_at;
  }

  -- The columns of a new pending row; the statement gives the times.
  abbrev pub pending_row : Request D → OrderRow D
  pending_row req = record {
    client_order_id = req.client_order_id;
    venue = req.instrument.venue;
    base = req.instrument.base;
    quote = req.instrument.quote;
    venue_symbol = req.instrument.venue_symbol;
    side = req.side;
    type = req.type;
    price = req.price;
    qty = req.qty;
    filled_qty = zero_decimal;
    avg_fill_price = none;
    status = pending;
    venue_order_id = none;
    bot_id = req.bot_id;
    cancel_requested_at = none;
    reason = none;
    created_at = 0;
    updated_at = 0;
  }

  -- Whether a row was inserted: not if the ID has one.
  unfoldable pub create_pending : Request D → Tx D Bool
  create_pending req = do n ← insert_pending_order (pending_row req); pure (n == 1)

  unfoldable pub mark_cancel_requested : ClientOrderId → Time → Tx D (Unit {0})
  mark_cancel_requested id at = do
    n ← mark_cancel_requested_rows id at
    if n == 0 then raise (not_found ∷ []) else pure tt

  abbrev pub found_order : Option (OrderRow D) → Tx D (OrderRecord D)
  found_order none = raise (not_found ∷ [])
  found_order (some row) = pure (order_record row)

  unfoldable pub get_order : ClientOrderId → Tx D (OrderRecord D)
  get_order id = do row ← get_order_row id; found_order row

  unfoldable pub list_active_orders : VenueId → Tx D (List (OrderRecord D))
  list_active_orders venue = do rows ← list_active_rows venue; pure (map order_record rows)

  unfoldable pub list_orders : Query → Tx D (List (OrderRecord D))
  list_orders q = do rows ← list_order_rows (statuses_or_all q); pure (map order_record rows)
