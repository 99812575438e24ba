-- ===== src/Gct/Stream.antt =====
-- internal/adapters/gct/stream.go: the order events of a venue's websocket. What the channels and the
-- ticker deliver is a sequence of inputs.
use delta_works.Base.{
  ℕ, suc, Bool, true, false, not, ◌&&◌, List, [], ◌∷◌, ◌++◌, Option, none, some, take,
  if◌then◌else◌,
}
use delta_works.Decimal.{Decimals}
use delta_works.Errors.{Result, ok, err}
use delta_works.Domain.Instrument.{VenueId}
use delta_works.Domain.Order.{Time, Event}
use delta_works.Gct.{Detail, Values}
use delta_works.Gct.ConvertOrders.{to_event}

-- The data of a payload, by its type.
pub data Payload (P F : Type 0) : Type 0 where
  detail : Option (Detail P F) → Payload P F
  details : List (Detail P F) → Payload P F
  anything_else : Payload P F

-- What the loop receives: `cut n` is a payload of whose events only `n` are taken before the context
-- is done, and `tick` has the answer of the connection probe.
pub data Input (P F : Type 0) : Type 0 where
  done : Input P F
  payload : Payload P F → Input P F
  cut : ℕ → Payload P F → Input P F
  data_closed : Input P F
  tick : Bool → Input P F

-- The loop: what it sent, how often it called `onReconnect`, and whether it still runs.
pub record Pump (D : Type 0) : Type 0 where
  pub connected : Bool
  pub sent : List (Event D)
  pub reconnects : ℕ
  pub is_running : Bool

-- The loop as it starts.
abbrev pub started : {D : Type 0} → Bool → Pump D
started connected = record { connected = connected; sent = []; reconnects = 0; is_running = true }

module _ {D P F : Type 0} ⦃dec : Decimals D⦄ (values : Values D P F) (now : Time)
    (id : VenueId) where
  abbrev pub event_or_none : Result (Event D) → List (Event D)
  event_or_none (ok ev) = ev ∷ []
  event_or_none (err e) = []

  unfoldable pub detail_events : List (Detail P F) → List (Event D)
  detail_events [] = []
  detail_events (d ∷ ds) = event_or_none (to_event values now id d) ++ detail_events ds

  unfoldable pub to_order_events : Payload P F → List (Event D)
  to_order_events (detail none) = []
  to_order_events (detail (some d)) = event_or_none (to_event values now id d)
  to_order_events (details ds) = detail_events ds
  to_order_events anything_else = []

  -- One round of the loop of `pump`.
  abbrev pub receive : Input P F → Pump D → Pump D
  receive done p = record p { is_running = false }
  receive (payload data_) p = record p { sent = p.sent ++ to_order_events data_ }
  receive (cut n data_) p = record p {
    sent = p.sent ++ take n (to_order_events data_);
    is_running = false;
  }
  receive data_closed p = record p { is_running = false }
  receive (tick now_connected) p = record p {
    connected = now_connected;
    reconnects = if now_connected && not p.connected then suc p.reconnects else p.reconnects;
  }

  unfoldable pub pump : List (Input P F) → Pump D → Pump D
  pump [] p = p
  pump (i ∷ is) p = let rest = pump is (receive i p) in if p.is_running then rest else p
