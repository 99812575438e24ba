-- ===== src/Api/Orders/Listing.antt =====
-- internal/api/orders.go: `ListOrders`, one page of orders. A request has passed the validation of the
-- protocol (proto/control/v1/orders.proto), so that a limit is a number; `show` is the decimal library's
-- text of a value.
use delta_works.Base.{
  ℕ, Bool, List, [], ◌∷◌, Option, none, some, String, if◌then◌else◌, ◌==◌, ltb, str_eq, text_less,
  map, take, length, sort,
}
use delta_works.Errors.{Result, ok, err, invalid_argument}
use delta_works.Decimal.{Decimals}
use delta_works.Domain.Order.{
  Time, OrderRecord, Query, Status, pending, open_order, partially_filled, filled, canceled,
  rejected, expired, same_status,
}
use delta_works.Postgres.Session.{Tx, pure, ◌>>=◌, attempt}
use delta_works.Postgres.OrderMethods.{list_orders}
use delta_works.Api.Orders.{
  ProtoSide, ProtoOrderType, ProtoStatus, Codec, PageToken, from_proto_order_status, to_proto_side,
  to_proto_order_type, to_proto_order_status, decode_page_token, Reply, reply,
}

pub record ListOrdersRequest : Type 0 where
  pub venue : String
  pub statuses : List ProtoStatus
  pub bot_id : String
  pub limit : ℕ
  pub page_token : String

pub record ProtoOrder : Type 0 where
  pub client_order_id : String
  pub venue_order_id : String
  pub venue : String
  pub base : String
  pub quote : String
  pub side : ProtoSide
  pub type : ProtoOrderType
  pub price : String
  pub qty : String
  pub filled_qty : String
  pub avg_fill_price : String
  pub status : ProtoStatus
  pub bot_id : String
  pub created_at : Time
  pub updated_at : Time

pub record ListOrdersResponse : Type 0 where
  pub orders : List ProtoOrder
  pub next_page_token : String

abbrev pub default_order_limit : ℕ
default_order_limit = 50

-- The texts of the constants.
abbrev pub status_text : Status → String
status_text pending = "pending"
status_text open_order = "open"
status_text partially_filled = "partially_filled"
status_text filled = "filled"
status_text canceled = "canceled"
status_text rejected = "rejected"
status_text expired = "expired"
status_text (Status.unknown s) = s

abbrev pub earlier_text : Status → Status → Bool
earlier_text a b = text_less (status_text a) (status_text b)

-- `slices.Compact`: of equal neighbours the first stays.
unfoldable pub compact : List Status → List Status
compact [] = []
compact (a ∷ []) = a ∷ []
compact (a ∷ b ∷ l) =
    let rest = compact (b ∷ l) in
    if same_status a b then elim rest [ [] ↦ a ∷ [] | c ∷ cs ↦ a ∷ cs ] else a ∷ rest

abbrev pub unless_empty : String → Option String
unless_empty s = if str_eq s "" then none else some s

unfoldable pub filter_statuses : List ProtoStatus → List Status
filter_statuses l = compact (sort earlier_text (map from_proto_order_status l))

unfoldable pub order_filter : Codec → ListOrdersRequest → ℕ → Query
order_filter codec req limit = record {
  venue = unless_empty (codec.trim req.venue);
  bot_id = unless_empty (codec.trim req.bot_id);
  cursor_id = none;
  statuses = some (filter_statuses req.statuses);
  limit = limit;
  cursor_created_at = none;
}

unfoldable pub filter_digest : Codec → ListOrdersRequest → String
filter_digest codec req =
    codec.digest (codec.trim req.venue) (filter_statuses req.statuses) (codec.trim req.bot_id)

abbrev pub page_limit : ℕ → ℕ
page_limit n = if n == 0 then default_order_limit else n

abbrev pub with_cursor : Query → PageToken → Query
with_cursor q t = record q {
  cursor_created_at = some t.created_at;
  cursor_id = some t.client_order_id;
}

-- The query of a request: the filter, from the place where the token of the last page stopped.
unfoldable pub page_query : Codec → ListOrdersRequest → Result Query
page_query codec req =
    let q = order_filter codec req (page_limit req.limit) in
    if str_eq req.page_token ""
    then ok q
    else elim (decode_page_token codec req.page_token (filter_digest codec req)) [
      | ok t ↦ ok (with_cursor q t)
      | err e ↦ err e
    ]

abbrev pub last_of : {A : Type 0} → List A → Option A
last_of [] = none
last_of (x ∷ []) = some x
last_of (x ∷ y ∷ l) = last_of (y ∷ l)

module _ {D : Type 0} where
  abbrev pub token_of : OrderRecord D → String → PageToken
  token_of row digest = record {
    v = 1;
    created_at = row.created_at;
    client_order_id = row.client_order_id;
    filter_digest = digest;
  }

  abbrev pub to_proto_order : (D → String) → OrderRecord D → ProtoOrder
  to_proto_order show row = record {
    client_order_id = row.client_order_id;
    venue_order_id = row.venue_order_id;
    venue = row.instrument.venue;
    base = row.instrument.base;
    quote = row.instrument.quote;
    side = to_proto_side row.side;
    type = to_proto_order_type row.type;
    price = show row.price;
    qty = show row.qty;
    filled_qty = show row.filled_qty;
    avg_fill_price = show row.avg_fill_price;
    status = to_proto_order_status row.status;
    bot_id = row.bot_id;
    created_at = row.created_at;
    updated_at = row.updated_at;
  }

  -- The token behind the last order of a page that has more behind it.
  abbrev pub next_token : Codec → String → List (OrderRecord D) → Result String
  next_token codec digest rows = elim (last_of rows) [
    | none ↦ err (invalid_argument ∷ [])
    | some row ↦ codec.encode (token_of row digest)
  ]

  unfoldable pub page :
      Codec → String → (D → String) → ℕ → List (OrderRecord D) → Result ListOrdersResponse
  page codec digest show limit rows =
      if ltb limit (length rows)
      then elim (next_token codec digest (take limit rows)) [
        | err e ↦ err e
        | ok s ↦
            ok
              (record { orders = map (to_proto_order show) (take limit rows); next_page_token = s })
      ]
      else ok (record { orders = map (to_proto_order show) rows; next_page_token = "" })

module _ {D : Type 0} where
  abbrev pub lift_page : {A : Type 0} → Result A → Tx D A
  lift_page r w = (r, w)

module _ {D : Type 0} ⦃dec : Decimals D⦄ where
  -- `ListOrders`.
  unfoldable pub list_orders_page :
      Codec → (D → String) → ListOrdersRequest → Tx D ListOrdersResponse
  list_orders_page codec show req = do
    q ← lift_page (page_query codec req)
    rows ← list_orders q
    lift_page (page codec (filter_digest codec req) show (page_limit req.limit) rows)

  unfoldable pub handle_list_orders :
      Codec → (D → String) → ListOrdersRequest → Tx D (Reply ListOrdersResponse)
  handle_list_orders codec show req = do
    r ← attempt (list_orders_page codec show req)
    pure (reply r)
