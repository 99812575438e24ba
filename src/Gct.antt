-- ===== src/Gct.antt =====
-- internal/adapters/gct: the venue adapter over gocryptotrader. That library is not part of the
-- repository: the types here are what the adapter reads and writes of its own, with a currency pair
-- `P` and a float64 `F` left open, and the calls of a venue are the fields of `Bot`.
pub mod Convert
pub mod ConvertOrders
pub mod Adapter
pub mod Stream
pub mod Known
pub mod Outcomes
pub mod Balances
pub mod Sending
use delta_works.Base.{ℕ, Bool, List, Option, String}
use delta_works.Errors.{Result}
use delta_works.Domain.Order.{Time}
use delta_works.Exchange.{Call}

-- The statuses that the adapter names, and any other.
pub data GctStatus : Type 0 where
  gct_pending gct_new gct_active gct_open gct_hidden gct_pending_cancel gct_cancelling : GctStatus
  gct_partially_filled gct_filled gct_closed : GctStatus
  gct_cancelled gct_partially_cancelled gct_partially_filled_cancelled : GctStatus
  gct_liquidated gct_auto_deleverage : GctStatus
  gct_rejected gct_insufficient_balance gct_market_unavailable gct_stp gct_expired : GctStatus
  gct_other : String → GctStatus

pub data GctSide : Type 0 where
  gct_buy gct_sell : GctSide

pub data GctType : Type 0 where
  gct_limit gct_market : GctType

pub data Asset : Type 0 where
  asset_spot asset_margin : Asset

pub record TradeHistory (F : Type 0) : Type 0 where
  pub tid : String
  pub price : F
  pub fee : F
  pub fee_asset : String

pub record Detail (P F : Type 0) : Type 0 where
  pub pair : P
  pub client_order_id : String
  pub order_id : String
  pub status : GctStatus
  pub price : F
  pub amount : F
  pub executed_amount : F
  pub average_executed_price : F
  pub trades : List (TradeHistory F)
  pub last_updated : Time
  pub date : Time

pub record Submit (P F : Type 0) : Type 0 where
  pub exchange : String
  pub pair : P
  pub asset_type : Asset
  pub side : GctSide
  pub type : GctType
  pub price : F
  pub amount : F
  pub client_order_id : String

pub record SubmitResponse : Type 0 where
  pub status : GctStatus
  pub date : Time
  pub order_id : String

pub record Cancel (P : Type 0) : Type 0 where
  pub exchange : String
  pub order_id : String
  pub client_order_id : String
  pub pair : P
  pub asset_type : Asset

-- `ticker.Price`.
pub record Price (F : Type 0) : Type 0 where
  pub bid : F
  pub ask : F
  pub last : F
  pub bid_size : F
  pub ask_size : F
  pub last_updated : Time

-- `accounts.Balance`.
pub record VenueBalance (F : Type 0) : Type 0 where
  pub total : F
  pub free : F
  pub hold : F

-- Functions of the library, of shopspring/decimal and of Go that compute values: the parts and the text
-- of a pair, the conversions of numbers, the upper case and the search for punctuation of a text.
pub record Values (D P F : Type 0) : Type 0 where
  pub base_of : P → String
  pub quote_of : P → String
  pub text_of : P → String
  pub new_pair : String → String → Result P
  pub from_float : F → D
  pub to_float : D → F
  pub to_upper : String → String
  pub has_punct : String → Bool

-- The calls of `gctexchange.IBotExchange`, over the state `W` of the venue and of all around it. A nil
-- pointer is `none`; a sub-account is the entries of its balances in the order of the iteration.
pub record Bot (W P F : Type 0) : Type 0 where
  pub name : String
  pub match_symbol : String → Asset → Bool → Result P
  pub update_ticker : P → Asset → Call W (Option (Price F))
  pub get_enabled_pairs : Asset → Result (List P)
  pub update_account_balances : Asset → Call W (List (Option (List (String × VenueBalance F))))
  pub submit_order : Submit P F → Call W (Option SubmitResponse)
  pub cancel_order : Cancel P → Call W (Unit {0})
  pub get_active_orders : Asset → Call W (List (Detail P F))
  pub get_order_info : String → P → Asset → Call W (Option (Detail P F))
