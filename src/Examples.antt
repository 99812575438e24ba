-- ===== src/Examples.antt =====
-- A small exchange at which the theorems are applied: quantities and prices are whole numbers.
mod Machine
mod Allocation
mod Store
mod Relay
mod Services
mod Listing
mod Buses
mod Venues
mod Settings
mod Polling
mod Watching
mod Daemons
mod Checkpoints
mod Series
mod Clients
use delta_works.Base.{ℕ, List, [], ◌∷◌, Option, none, some, String}
use delta_works.Decimal.Integers.{ℤ, pos, integers}
use delta_works.Domain.Instrument.{Instrument, Rules, spot}
use delta_works.Domain.Order.{
  Event, Status, Side, buy, limit, pending, partially_filled, filled, canceled, open_order, Time,
}
use delta_works.Domain.Order.Machine.{State}
use delta_works.Domain.Ledger.{Lot}
use delta_works.Postgres.Schema.{OrderRow, Db, OutboxRow, order_updated, Payload}
use delta_works.Domain.Order.{stream}
use delta_works.Postgres.Session.{Session, Fault}

abbrev pub no_rules : Rules ℤ
no_rules = record {
  price_increment = pos 0;
  qty_increment = pos 0;
  min_qty = pos 0;
  min_notional = pos 0;
}

abbrev pub btc_usdt : Instrument ℤ
btc_usdt = record {
  venue = "kraken";
  type = spot;
  base = "BTC";
  quote = "USDT";
  venue_symbol = "BTC/USDT";
  rules = no_rules;
}

-- An event for order A with a status, a cumulative fill and a time.
abbrev pub event : Status → ℕ → Time → Event ℤ
event status cumulative at = record {
  ref = record { instrument = btc_usdt; client_order_id = "A"; venue_order_id = "v1" };
  status = status;
  filled_qty = pos cumulative;
  fill_price = pos 100;
  venue_fill_id = "";
  fee = pos 0;
  fee_currency = "";
  reason = "";
  at = at;
}

abbrev pub accepted_state : State ℤ
accepted_state = record { status = pending; filled_qty = pos 0 }

abbrev pub two_partials : List (Event ℤ)
two_partials = event partially_filled 2 5 ∷ event partially_filled 5 6 ∷ []

abbrev pub lot : String → ℕ → Time → Lot ℤ
lot id held at = record {
  id = id;
  bot_id = "manual";
  venue = "kraken";
  base = "BTC";
  quote = "USDT";
  qty = pos held;
  remaining_qty = pos held;
  cost_price = pos 90;
  opened_at = at;
}

abbrev pub order_a : OrderRow ℤ
order_a = record {
  client_order_id = "A";
  venue = "kraken";
  base = "BTC";
  quote = "USDT";
  venue_symbol = "BTC/USDT";
  side = buy;
  type = limit;
  price = pos 100;
  qty = pos 5;
  filled_qty = pos 0;
  avg_fill_price = none;
  status = pending;
  venue_order_id = none;
  bot_id = "manual";
  cancel_requested_at = none;
  reason = none;
  created_at = 1;
  updated_at = 1;
}

abbrev pub waiting_row : ℕ → OutboxRow ℤ
waiting_row id = record {
  id = id;
  subject = "order.updated";
  payload = order_updated (record {
    client_order_id = "A";
    venue = "kraken";
    base = "BTC";
    quote = "USDT";
    status = open_order;
    filled_qty = pos 0;
    source = stream;
    at = 2;
  });
  created_at = 2;
  published_at = none;
}

abbrev pub one_order : Db ℤ
one_order = record {
  orders = order_a ∷ [];
  transitions = [];
  fills = [];
  outbox = waiting_row 1 ∷ waiting_row 2 ∷ [];
  lots = [];
  lot_closures = [];
  unmatched_sells = [];
  checkpoints = [];
}

-- The session over that database, with the faults that its statements meet.
abbrev pub session : List Fault → Session ℤ
session faults = record {
  db = one_order;
  next_transition_id = 1;
  next_fill_id = 1;
  next_outbox_id = 3;
  new_id = λ n. "id";
  ids_taken = 0;
  now = 9;
  faults = faults;
  delivered = [];
}
