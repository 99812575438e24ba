-- ===== src/Api/Events.antt =====
-- internal/api/events.go: the stream of events of the control plane. JSON (the raw payload of an order
-- event) and the texts of decimals are parameters. `malformed` is the counter, by subject.
pub mod Order
use delta_works.Base.{
  ℕ, suc, Bool, true, false, List, [], ◌∷◌, ◌++◌, map, Option, none, some, String, str_eq,
  if◌then◌else◌, length, ltb,
}
use delta_works.Domain.Account.{AccountSnapshot, AccountType}
use delta_works.Domain.Instrument.{VenueId, Currency}
use delta_works.Domain.Order.{Time}
use delta_works.Bus.{BusEvent}
use delta_works.Api.Orders.{ProtoStatus, to_proto_order_status}
use delta_works.Postgres.Schema.{OrderUpdatedPayload, OrderFilledPayload}
use delta_works.Postgres.OrderStore.{subject_order_updated, subject_order_filled}
use delta_works.Service.Reconcile.{OrphanPayload}

-- The Go type of a payload: raw JSON, the two structs that are published as they are, or any other.
pub data EventPayload (D : Type 0) : Type 0 where
  raw : String → EventPayload D
  orphan : OrphanPayload → EventPayload D
  taken : AccountSnapshot D → EventPayload D
  something_else : EventPayload D

pub record EventCodec (D : Type 0) : Type 0 where
  pub unmarshal_updated : String → Option (OrderUpdatedPayload D)
  pub unmarshal_filled : String → Option (OrderFilledPayload D)
  pub decimal_text : D → String
  pub account_text : AccountType → String

pub record ProtoOrder : Type 0 where
  pub client_order_id : String
  pub venue : VenueId
  pub base : Currency
  pub quote : Currency
  pub status : ProtoStatus
  pub filled_qty : String

pub record ProtoBalance : Type 0 where
  pub currency : Currency
  pub total : String
  pub free : String
  pub locked : String

pub record ProtoSnapshot : Type 0 where
  pub venue : VenueId
  pub account : String
  pub taken_at : Time
  pub balances : List ProtoBalance

-- The arms of the payload of an event on the wire.
pub data ProtoPayload : Type 0 where
  proto_updated : ProtoOrder → ProtoPayload
  proto_filled : ProtoOrder → String → String → ProtoPayload
  proto_orphan : OrphanPayload → ProtoPayload
  proto_snapshot : ProtoSnapshot → ProtoPayload

pub record ProtoEvent : Type 0 where
  pub subject : String
  pub at : Time
  pub payload : ProtoPayload

abbrev pub subject_reconcile_orphan : String
subject_reconcile_orphan = "reconcile.orphan"

abbrev pub stream_buffer : ℕ
stream_buffer = 64

module _ {D : Type 0} (codec : EventCodec D) where
  -- A struct that the raw JSON of a payload holds.
  abbrev pub decode_order_payload : {A : Type 0} → (String → Option A) → EventPayload D → Option A
  decode_order_payload unmarshal (raw text) = unmarshal text
  decode_order_payload unmarshal _ = none

  abbrev pub updated_arm : Option (OrderUpdatedPayload D) → Option ProtoPayload
  updated_arm none = none
  updated_arm (some p) = some (
      proto_updated (record {
        client_order_id = p.client_order_id;
        venue = p.venue;
        base = p.base;
        quote = p.quote;
        status = to_proto_order_status p.status;
        filled_qty = codec.decimal_text p.filled_qty;
      }))

  abbrev pub filled_arm : Option (OrderFilledPayload D) → Option ProtoPayload
  filled_arm none = none
  filled_arm (some p) = some (
      proto_filled
        (record {
          client_order_id = p.client_order_id;
          venue = p.venue;
          base = p.base;
          quote = p.quote;
          status = to_proto_order_status p.status;
          filled_qty = codec.decimal_text p.filled_qty;
        })
        (codec.decimal_text p.qty) (codec.decimal_text p.price))

  abbrev pub orphan_arm : EventPayload D → Option ProtoPayload
  orphan_arm (orphan p) = some (proto_orphan p)
  orphan_arm _ = none

  unfoldable pub to_proto_snapshot : AccountSnapshot D → ProtoSnapshot
  to_proto_snapshot s = record {
    venue = s.account.venue;
    account = codec.account_text s.account.type;
    taken_at = s.taken_at;
    balances =
        map
          (λ b. record {
            currency = b.currency;
            total = codec.decimal_text b.total;
            free = codec.decimal_text b.free;
            locked = codec.decimal_text b.locked;
          })
          s.balances;
  }

  abbrev pub snapshot_arm : EventPayload D → Option ProtoPayload
  snapshot_arm (taken s) = some (proto_snapshot (to_proto_snapshot s))
  snapshot_arm _ = none

  -- The arm of an event; none is counted as malformed.
  unfoldable pub proto_payload : BusEvent (EventPayload D) → Option ProtoPayload
  proto_payload e =
      if str_eq e.subject subject_order_updated
      then updated_arm (decode_order_payload codec.unmarshal_updated e.payload)
      else if str_eq e.subject subject_order_filled
      then filled_arm (decode_order_payload codec.unmarshal_filled e.payload)
      else if str_eq e.subject subject_reconcile_orphan
      then orphan_arm e.payload
      else snapshot_arm e.payload

  abbrev pub as_event : BusEvent (EventPayload D) → Option ProtoPayload → Option ProtoEvent
  as_event e none = none
  as_event e (some p) = some (record { subject = e.subject; at = e.at; payload = p })

  abbrev pub to_proto_event : BusEvent (EventPayload D) → Option ProtoEvent
  to_proto_event e = as_event e (proto_payload e)

-- A stream: the events that wait in its channel, what it sent, and the subjects that it counted. `served`
-- has the events that the loop dealt with.
pub record EventStream (D : Type 0) : Type 0 where
  pub waiting : List (BusEvent (EventPayload D))
  pub served : List (BusEvent (EventPayload D))
  pub sent : List ProtoEvent
  pub malformed : List String
  pub is_running : Bool

-- The bus hands over an event, the loop takes one (and a send of it succeeds or not), or the context is
-- done.
pub data StreamInput (D : Type 0) : Type 0 where
  arrive : BusEvent (EventPayload D) → StreamInput D
  serve : Bool → StreamInput D
  disconnect : StreamInput D

module _ {D : Type 0} where
  abbrev pub new_stream : EventStream D
  new_stream = record { waiting = []; served = []; sent = []; malformed = []; is_running = true }

  -- A full channel drops the event.
  abbrev pub buffered : BusEvent (EventPayload D) → EventStream D → EventStream D
  buffered e s =
      if ltb (length s.waiting) stream_buffer then record s { waiting = s.waiting ++ e ∷ [] } else s

  abbrev pub deal :
      BusEvent (EventPayload D)
      → List (BusEvent (EventPayload D))
      → Bool
      → Option ProtoEvent
      → EventStream D
      → EventStream D
  deal e rest sends none s = record s {
    waiting = rest;
    served = s.served ++ e ∷ [];
    malformed = s.malformed ++ e.subject ∷ [];
  }
  deal e rest true (some m) s = record s {
    waiting = rest;
    served = s.served ++ e ∷ [];
    sent = s.sent ++ m ∷ [];
  }
  deal e rest false (some m) s = record s { waiting = rest; is_running = false }

module _ {D : Type 0} (codec : EventCodec D) where
  abbrev pub take_one : Bool → List (BusEvent (EventPayload D)) → EventStream D → EventStream D
  take_one sends [] s = s
  take_one sends (e ∷ rest) s = deal e rest sends (to_proto_event codec e) s

  abbrev pub advance : StreamInput D → EventStream D → EventStream D
  advance (arrive e) s = buffered e s
  advance (serve sends) s = take_one sends s.waiting s
  advance disconnect s = record s { is_running = false }

  -- `StreamEvents`, until it returns.
  unfoldable pub stream_events : List (StreamInput D) → EventStream D → EventStream D
  stream_events [] s = s
  stream_events (i ∷ is) s =
      let rest = stream_events is (advance i s) in if s.is_running then rest else s
