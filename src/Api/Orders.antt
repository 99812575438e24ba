-- ===== src/Api/Orders.antt =====
-- internal/api/orders.go: the conversions between the protocol's enumerations and the domain, the
-- public errors, and the tokens of the pages. A protocol number that has no name is `unrecognized`.
pub mod Filters
pub mod Handlers
pub mod Listing
pub mod Pages
pub mod RoundTrip
use delta_works.Base.{
  ℕ, Bool, true, false, not, ◌||◌, List, [], ◌∷◌, Option, none, some, String, if◌then◌else◌, ◌==◌,
  str_eq,
}
use delta_works.Errors.{
  Result, ok, err, Error, is, Cause, not_found, auth, venue_unavailable, identity_mismatch,
  terminal_order, venue_not_configured, invalid_argument, canceled, deadline_exceeded,
}
use delta_works.Domain.Order.{
  Time, is_zero_time, ClientOrderId, Side, buy, sell, OrderType, limit, market, Status, pending,
  open_order, partially_filled, filled, rejected, expired,
}

pub data ProtoSide : Type 0 where
  side_unspecified side_buy side_sell : ProtoSide
  side_unrecognized : ℕ → ProtoSide

pub data ProtoOrderType : Type 0 where
  type_unspecified type_limit type_market : ProtoOrderType
  type_unrecognized : ℕ → ProtoOrderType

pub data ProtoStatus : Type 0 where
  status_unspecified status_pending status_open status_partially_filled : ProtoStatus
  status_filled status_canceled status_rejected status_expired : ProtoStatus
  status_unrecognized : ℕ → ProtoStatus

unfoldable pub from_proto_side : ProtoSide → Side
from_proto_side side_buy = buy
from_proto_side side_sell = sell
from_proto_side _ = Side.unknown ""

unfoldable pub to_proto_side : Side → ProtoSide
to_proto_side buy = side_buy
to_proto_side sell = side_sell
to_proto_side (Side.unknown s) = side_unspecified

unfoldable pub from_proto_order_type : ProtoOrderType → OrderType
from_proto_order_type type_limit = limit
from_proto_order_type type_market = market
from_proto_order_type _ = OrderType.unknown ""

unfoldable pub to_proto_order_type : OrderType → ProtoOrderType
to_proto_order_type limit = type_limit
to_proto_order_type market = type_market
to_proto_order_type (OrderType.unknown s) = type_unspecified

unfoldable pub from_proto_order_status : ProtoStatus → Status
from_proto_order_status status_pending = pending
from_proto_order_status status_open = open_order
from_proto_order_status status_partially_filled = partially_filled
from_proto_order_status status_filled = filled
from_proto_order_status status_canceled = Status.canceled
from_proto_order_status status_rejected = rejected
from_proto_order_status status_expired = expired
from_proto_order_status _ = Status.unknown ""

unfoldable pub to_proto_order_status : Status → ProtoStatus
to_proto_order_status pending = status_pending
to_proto_order_status open_order = status_open
to_proto_order_status partially_filled = status_partially_filled
to_proto_order_status filled = status_filled
to_proto_order_status Status.canceled = status_canceled
to_proto_order_status rejected = status_rejected
to_proto_order_status expired = status_expired
to_proto_order_status (Status.unknown s) = status_unspecified

-- The codes of the protocol that the handlers use.
pub data Code : Type 0 where
  code_canceled code_deadline_exceeded code_invalid_argument code_not_found : Code
  code_failed_precondition code_already_exists code_permission_denied : Code
  code_unavailable code_internal : Code

-- The code of `mapOrderError` for a non-nil error: the first case that applies.
unfoldable pub map_order_error : Error → Code
map_order_error e =
    if is e canceled
    then code_canceled
    else if is e deadline_exceeded
    then code_deadline_exceeded
    else if is e invalid_argument
    then code_invalid_argument
    else if is e not_found
    then code_not_found
    else if is e terminal_order || is e venue_not_configured
    then code_failed_precondition
    else if is e identity_mismatch
    then code_already_exists
    else if is e auth
    then code_permission_denied
    else if is e venue_unavailable
    then code_unavailable
    else code_internal

pub record PageToken : Type 0 where
  pub v : ℕ
  pub created_at : Time
  pub client_order_id : String
  pub filter_digest : String

-- What the handlers take from libraries: the coding of tokens (base64 and JSON; `decode` gives the one
-- value that a text holds), the digest of a filter, and the functions on texts.
pub record Codec : Type 0 where
  pub encode : PageToken → Result String
  pub decode : String → Option PageToken
  pub digest : String → List Status → String → String
  pub trim : String → String
  pub lower : String → String
  pub upper : String → String

unfoldable pub check_token : PageToken → String → Result PageToken
check_token t digest =
    if not (t.v == 1)
      || is_zero_time t.created_at
      || str_eq t.client_order_id ""
      || not (str_eq t.filter_digest digest)
    then err (invalid_argument ∷ [])
    else ok t

unfoldable pub decode_page_token : Codec → String → String → Result PageToken
decode_page_token codec encoded digest = elim (codec.decode encoded) [
  | none ↦ err (invalid_argument ∷ [])
  | some t ↦ check_token t digest
]

-- A response, or the error's code.
pub data Reply (A : Type 0) : Type 0 where
  answered : A → Reply A
  refused_with : Code → Reply A

module _ {A : Type 0} where
  abbrev pub reply : Result A → Reply A
  reply (ok a) = answered a
  reply (err e) = refused_with (map_order_error e)
