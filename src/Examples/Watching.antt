-- ===== src/Examples/Watching.antt =====
-- The theorem on the event stream of the control plane, at a client that sees a snapshot, an event with
-- no arm, and an orphan.
use delta_works.Base.{true, List, [], ◌∷◌, none, String}
use delta_works.Decimal.Integers.{ℤ}
use delta_works.Domain.Account.{spot}
use delta_works.Bus.{BusEvent}
use delta_works.Api.Events.{
  EventPayload, raw, orphan, taken, EventCodec, StreamInput, arrive, serve, disconnect, new_stream,
  stream_events,
}
use delta_works.Api.Events.Order.{arrivals, Serves, stream_in_order}

abbrev codec : EventCodec ℤ
codec = record {
  unmarshal_updated = λ text. none;
  unmarshal_filled = λ text. none;
  decimal_text = λ d. "1";
  account_text = λ a. "spot";
}

abbrev told : String → EventPayload ℤ → BusEvent (EventPayload ℤ)
told subject payload = record { subject = subject; at = 5; payload = payload }

abbrev inputs : List (StreamInput ℤ)
inputs =
    arrive (
      told "snapshot.taken" (
        taken (record {
          account = record { venue = "kraken"; type = spot };
          taken_at = 5;
          balances = [];
        })))
    ∷ arrive (told "ledger.unmatched_sell" (raw "{}"))
    ∷ serve true
    ∷ serve true
    ∷ arrive (
        told "reconcile.orphan" (
          orphan (record {
            venue = "kraken";
            venue_order_id = "v1";
            client_order_id = "A";
            base = "BTC";
            quote = "USDT";
          })))
    ∷ serve true
    ∷ disconnect
    ∷ []

stream_in_order_example : Serves codec (arrivals inputs) (stream_events codec inputs new_stream)
stream_in_order_example = stream_in_order codec inputs
