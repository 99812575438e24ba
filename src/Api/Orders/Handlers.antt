-- ===== src/Api/Orders/Handlers.antt =====
-- internal/api/orders.go: `PlaceOrder` and `CancelOrder`; `read` is the decimal library's reading of a text.
use delta_works.Base.{Bool, true, false, [], ◌∷◌, Option, none, some, String, if◌then◌else◌, str_eq}
use delta_works.Errors.{ok, err, is, invalid_argument, submit_unsettled}
use delta_works.Decimal.{Decimals, zero_decimal}
use delta_works.Domain.Instrument.{spot, new_venue_id, new_currency}
use delta_works.Domain.Order.{ClientOrderId, Request}
use delta_works.Postgres.Session.{Tx, pure, ◌>>=◌, attempt}
use delta_works.Postgres.OrderMethods.{zero_rules}
use delta_works.Service.Orders.{Service, Placement}
use delta_works.Service.Orders.Commands.{place, cancel}
use delta_works.Api.Orders.{
  ProtoSide, ProtoOrderType, ProtoStatus, Codec, from_proto_side, from_proto_order_type,
  to_proto_order_status, map_order_error, Reply, answered, refused_with,
}

pub record PlaceOrderRequest : Type 0 where
  pub client_order_id : String
  pub venue : String
  pub base : String
  pub quote : String
  pub side : ProtoSide
  pub type : ProtoOrderType
  pub qty : String
  pub price : String

pub record PlaceOrderResponse : Type 0 where
  pub client_order_id : String
  pub status : ProtoStatus
  pub submit_is_unsettled : Bool

abbrev pub placed_as : Placement → Bool → Reply PlaceOrderResponse
placed_as p unsettled = answered (record {
  client_order_id = p.result.client_order_id;
  status = to_proto_order_status p.result.status;
  submit_is_unsettled = unsettled;
})

-- An unsettled submit is an answer, any other error is not.
unfoldable pub place_reply : Placement → Reply PlaceOrderResponse
place_reply p = elim p.error [
  | none ↦ placed_as p false
  | some e ↦ if is e submit_unsettled then placed_as p true else refused_with (map_order_error e)
]

abbrev pub invalid : Reply PlaceOrderResponse
invalid = refused_with (map_order_error (invalid_argument ∷ []))

module _ {D : Type 0} ⦃dec : Decimals D⦄ where
  abbrev pub read_price : (String → Option D) → String → Option D
  read_price read s = if str_eq s "" then some zero_decimal else read s

  abbrev pub request_of : Codec → PlaceOrderRequest → D → D → Request D
  request_of codec req qty price = record {
    client_order_id = req.client_order_id;
    bot_id = "manual";
    instrument = record {
      venue = new_venue_id codec.lower codec.trim req.venue;
      type = spot;
      base = new_currency codec.upper codec.trim req.base;
      quote = new_currency codec.upper codec.trim req.quote;
      venue_symbol = "";
      rules = zero_rules;
    };
    side = from_proto_side req.side;
    type = from_proto_order_type req.type;
    price = price;
    qty = qty;
  }

  abbrev pub place_read :
      Service D
      → Bool
      → Codec
      → PlaceOrderRequest
      → Option D
      → Option D
      → Tx D (Reply PlaceOrderResponse)
  place_read svc gone codec req none price = pure invalid
  place_read svc gone codec req (some qty) none = pure invalid
  place_read svc gone codec req (some qty) (some price) = do
    p ← place svc gone (request_of codec req qty price)
    pure (place_reply p)

  -- `PlaceOrder`.
  unfoldable pub handle_place_order :
      Service D
      → Bool
      → Codec
      → (String → Option D)
      → PlaceOrderRequest
      → Tx D (Reply PlaceOrderResponse)
  handle_place_order svc gone codec read req =
      place_read svc gone codec req (read req.qty) (read_price read req.price)

  -- `CancelOrder`.
  unfoldable pub handle_cancel_order : Service D → ClientOrderId → Tx D (Reply ProtoStatus)
  handle_cancel_order svc id = do
    r ← attempt (cancel svc id)
    pure (elim r [
      | ok s ↦ answered (to_proto_order_status s)
      | err e ↦ refused_with (map_order_error e)
    ])
