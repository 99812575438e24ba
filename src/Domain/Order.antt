-- ===== src/Domain/Order.antt =====
-- internal/domain/order/order.go: the order model. A Go string type with constants is a data type
-- with a constructor for each constant; `unknown` is a text that is none of them. A time is a
-- number of nanoseconds, 0 for the zero `time.Time`; quantities and prices are decimals of the parameter `D`.
pub mod Machine
use delta_works.Base.{ℕ, Bool, true, false, Option, List, String, str_eq, ◌==◌}
use delta_works.Domain.Instrument.{Instrument, Currency}

abbrev pub Time : Type 0
Time = ℕ

abbrev pub is_zero_time : Time → Bool
is_zero_time t = t == 0

abbrev pub ClientOrderId : Type 0
ClientOrderId = String

pub data Side : Type 0 where
  buy sell : Side
  unknown : String → Side

pub data OrderType : Type 0 where
  limit market : OrderType
  unknown : String → OrderType

pub data Status : Type 0 where
  pending open_order partially_filled filled canceled rejected expired : Status
  unknown : String → Status

abbrev pub same_status : Status → Status → Bool
same_status pending pending = true
same_status open_order open_order = true
same_status partially_filled partially_filled = true
same_status filled filled = true
same_status canceled canceled = true
same_status rejected rejected = true
same_status expired expired = true
same_status (Status.unknown a) (Status.unknown b) = str_eq a b
same_status _ _ = false

abbrev pub same_side : Side → Side → Bool
same_side buy buy = true
same_side sell sell = true
same_side (Side.unknown a) (Side.unknown b) = str_eq a b
same_side _ _ = false

abbrev pub same_type : OrderType → OrderType → Bool
same_type limit limit = true
same_type market market = true
same_type (OrderType.unknown a) (OrderType.unknown b) = str_eq a b
same_type _ _ = false

pub record Request (D : Type 0) : Type 0 where
  pub client_order_id : ClientOrderId
  pub bot_id : String
  pub instrument : Instrument D
  pub side : Side
  pub type : OrderType
  pub price : D
  pub qty : D

pub record OrderRecord (D : Type 0) : Type 0 where
  pub client_order_id : ClientOrderId
  pub bot_id : String
  pub venue_order_id : String
  pub reason : String
  pub instrument : Instrument D
  pub side : Side
  pub type : OrderType
  pub price : D
  pub qty : D
  pub filled_qty : D
  pub avg_fill_price : D
  pub status : Status
  pub cancel_requested_at : Time
  pub created_at : Time
  pub updated_at : Time

pub record Query : Type 0 where
  pub venue : Option String
  pub bot_id : Option String
  pub cursor_id : Option String
  pub statuses : Option (List Status)
  pub limit : ℕ
  pub cursor_created_at : Option Time

pub record Ref (D : Type 0) : Type 0 where
  pub instrument : Instrument D
  pub client_order_id : ClientOrderId
  pub venue_order_id : String

pub record Ack (D : Type 0) : Type 0 where
  pub ref : Ref D
  pub status : Status
  pub accepted_at : Time

pub record Snapshot (D : Type 0) : Type 0 where
  pub ref : Ref D
  pub status : Status
  pub price : D
  pub qty : D
  pub filled_qty : D
  pub avg_fill_price : D
  pub updated_at : Time

pub data Source : Type 0 where
  local ack stream reconcile : Source

pub record Event (D : Type 0) : Type 0 where
  pub ref : Ref D
  pub status : Status
  pub filled_qty : D
  pub fill_price : D
  pub venue_fill_id : String
  pub fee : D
  pub fee_currency : Currency
  pub reason : String
  pub at : Time
