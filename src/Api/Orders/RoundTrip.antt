-- ===== src/Api/Orders/RoundTrip.antt =====
-- internal/api/orders.go: what survives the way to a client and back.
use delta_works.Base.{◌≡◌, Bool, true, false, some, String, if◌then◌else◌, str_eq, arith, [], ◌∷◌}
use delta_works.Errors.{ok, err, invalid_argument}
use delta_works.Domain.Order.{is_zero_time, Side, OrderType, Status}
use delta_works.Domain.Order.Machine.Step.{is_known}
use delta_works.Api.Orders.{
  PageToken, Codec, check_token, decode_page_token, from_proto_order_status, to_proto_order_status,
  from_proto_side, to_proto_side, from_proto_order_type, to_proto_order_type,
}

abbrev pub is_known_side : Side → Bool
is_known_side (Side.unknown s) = false
is_known_side _ = true

abbrev pub is_known_type : OrderType → Bool
is_known_type (OrderType.unknown s) = false
is_known_type _ = true

status_back :
    (s : Status) → is_known s ≡ true → from_proto_order_status (to_proto_order_status s) ≡ s
unfolding from_proto_order_status to_proto_order_status
status_back s h = ground arith

side_back : (s : Side) → is_known_side s ≡ true → from_proto_side (to_proto_side s) ≡ s
unfolding from_proto_side to_proto_side
side_back s h = ground arith

type_back :
    (t : OrderType) → is_known_type t ≡ true → from_proto_order_type (to_proto_order_type t) ≡ t
unfolding from_proto_order_type to_proto_order_type
type_back t h = ground arith

-- A status, a side and a type that the domain names come back from the protocol as they were.
pub proto_round_trip :
    (status : Status) (side : Side) (type : OrderType)
    → is_known status ≡ true
    → is_known_side side ≡ true
    → is_known_type type ≡ true
    → (from_proto_order_status (to_proto_order_status status) ≡ status)
      × (from_proto_side (to_proto_side side) ≡ side)
      × (from_proto_order_type (to_proto_order_type type) ≡ type)
proto_round_trip status side type h k l = (status_back status h, side_back side k, type_back type l)

-- A text that encodes a token decodes to it.
abbrev pub ReadsBack : Codec → Type 0
ReadsBack codec = (t : PageToken) (s : String) → codec.encode t ≡ ok s → codec.decode s ≡ some t

-- A token of the first version, for an order with a time and an ID, is accepted as it was made for the
-- filter that it was made for, and refused as an invalid argument for a filter with another digest;
-- provided that the coding reads back what it wrote.
pub decode_page_token-encode :
    (codec : Codec) (t : PageToken) (s digest : String)
    → ReadsBack codec
    → t.v ≡ 1
    → is_zero_time t.created_at ≡ false
    → str_eq t.client_order_id "" ≡ false
    → codec.encode t ≡ ok s
    → decode_page_token codec s digest
      ≡ (if str_eq t.filter_digest digest then ok t else err (invalid_argument ∷ []))
unfolding decode_page_token check_token
decode_page_token-encode codec t s digest back one at id made =
    let decoded = back t s made in ground arith
