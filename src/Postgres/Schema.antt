-- ===== src/Postgres/Schema.antt =====
-- The tables of internal/adapters/postgres (sqlcgen/models.go, migrations): a table is the list of
-- its rows in order of insertion, a nullable column an `Option`. A JSON payload is the value that it
-- encodes. A timestamp column keeps microseconds.
use delta_works.Base.{ℕ, ◌*◌, ◌/◌, List, Option, String}
use delta_works.Decimal.Integers.{ℤ}
use delta_works.Domain.Instrument.{VenueId, Currency}
use delta_works.Domain.Order.{Time, ClientOrderId, Side, OrderType, Status, Source}

-- What a timestamp column keeps of a time: the driver cuts it to whole microseconds.
abbrev pub micros : Time → Time
micros t = t / 1000 * 1000

pub record OrderRow (D : Type 0) : Type 0 where
  pub client_order_id : ClientOrderId
  pub venue : String
  pub base : String
  pub quote : String
  pub venue_symbol : String
  pub side : Side
  pub type : OrderType
  pub price : D
  pub qty : D
  pub filled_qty : D
  pub avg_fill_price : Option D
  pub status : Status
  pub venue_order_id : Option String
  pub bot_id : String
  pub cancel_requested_at : Option Time
  pub reason : Option String
  pub created_at : Time
  pub updated_at : Time

pub record TransitionRow (D : Type 0) : Type 0 where
  pub id : ℕ
  pub client_order_id : ClientOrderId
  pub seq : ℕ
  pub from_status : Status
  pub to_status : Status
  pub filled_qty : D
  pub source : Source
  pub reason : Option String
  pub occurred_at : Time
  pub recorded_at : Time

pub record FillRow (D : Type 0) : Type 0 where
  pub id : ℕ
  pub client_order_id : ClientOrderId
  pub transition_id : ℕ
  pub qty : D
  pub price : Option D
  pub fee : Option D
  pub fee_currency : Option String
  pub venue_fill_id : Option String
  pub occurred_at : Time

pub data LotStatus : Type 0 where
  open_lot closed_lot : LotStatus

pub record LotRow (D : Type 0) : Type 0 where
  pub id : String
  pub bot_id : String
  pub venue : String
  pub base : String
  pub quote : String
  pub qty : D
  pub remaining_qty : D
  pub cost_price : D
  pub opened_by_fill_id : ℕ
  pub status : LotStatus
  pub opened_at : Time
  pub closed_at : Option Time

pub record LotClosureRow (D : Type 0) : Type 0 where
  pub lot_id : String
  pub sell_fill_id : ℕ
  pub qty : D
  pub price : D
  pub closed_at : Time

pub record UnmatchedSellRow (D : Type 0) : Type 0 where
  pub sell_fill_id : ℕ
  pub bot_id : String
  pub venue : String
  pub base : String
  pub quote : String
  pub qty : D
  pub occurred_at : Time

-- internal/events/events.go: the payloads of the outbox.
pub record OrderUpdatedPayload (D : Type 0) : Type 0 where
  pub client_order_id : ClientOrderId
  pub venue : VenueId
  pub base : Currency
  pub quote : Currency
  pub status : Status
  pub filled_qty : D
  pub source : Source
  pub at : Time

pub record OrderFilledPayload (D : Type 0) : Type 0 where
  pub client_order_id : ClientOrderId
  pub venue : VenueId
  pub base : Currency
  pub quote : Currency
  pub status : Status
  pub filled_qty : D
  pub qty : D
  pub price : D
  pub fee : D
  pub fee_currency : Currency
  pub venue_fill_id : String
  pub at : Time

pub record UnmatchedSellPayload (D : Type 0) : Type 0 where
  pub bot_id : String
  pub venue : VenueId
  pub base : Currency
  pub quote : Currency
  pub client_order_id : ClientOrderId
  pub sell_fill_id : ℕ
  pub unmatched_qty : D

pub data Payload (D : Type 0) : Type 0 where
  order_updated : OrderUpdatedPayload D → Payload D
  order_filled : OrderFilledPayload D → Payload D
  unmatched_sell : UnmatchedSellPayload D → Payload D

pub record OutboxRow (D : Type 0) : Type 0 where
  pub id : ℕ
  pub subject : String
  pub payload : Payload D
  pub created_at : Time
  pub published_at : Option Time

-- internal/events/events.go: one unpublished row, as the relay hands it on.
pub record OutboxMessage (D : Type 0) : Type 0 where
  pub id : ℕ
  pub subject : String
  pub payload : Payload D
  pub created_at : Time

pub record CheckpointRow : Type 0 where
  pub id : String
  pub venue : String
  pub account_type : String
  pub taken_at : Time
  pub balance_count : ℤ
  pub status : String
  pub error : String
  pub created_at : Time

pub record Db (D : Type 0) : Type 0 where
  pub orders : List (OrderRow D)
  pub transitions : List (TransitionRow D)
  pub fills : List (FillRow D)
  pub outbox : List (OutboxRow D)
  pub lots : List (LotRow D)
  pub lot_closures : List (LotClosureRow D)
  pub unmatched_sells : List (UnmatchedSellRow D)
  pub checkpoints : List CheckpointRow
