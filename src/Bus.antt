-- ===== src/Bus.antt =====
-- internal/bus/bus.go: the in-process event bus. The lock makes each call of the bus one action, and
-- each turn of a subscriber's goroutine is one; a schedule is a list of actions, in any interleaving.
-- A subscriber stays in the list after it unsubscribed, with `is_open` false, since its goroutine may
-- still have events to take. `handled` is what its handler was called with.
pub mod Accounting
pub mod Ordering
pub mod Progress
use delta_works.Base.{
  ℕ, suc, ◌+◌, Bool, true, false, not, ◌&&◌, List, [], ◌∷◌, ◌++◌, String, if◌then◌else◌, ◌==◌, ltb,
  length, map,
}
use text.Mathlib.Text.{starts_with}
use delta_works.Domain.Order.{Time}

pub record BusEvent (P : Type 0) : Type 0 where
  pub subject : String
  pub at : Time
  pub payload : P

abbrev pub subscriber_buffer : ℕ
subscriber_buffer = 64

pub record Subscriber (P : Type 0) : Type 0 where
  pub id : ℕ
  pub prefix : String
  pub queue : List (BusEvent P)
  pub handled : List (BusEvent P)
  pub is_open : Bool
  pub has_ended : Bool

pub record InProc (P : Type 0) : Type 0 where
  pub next_id : ℕ
  pub subs : List (Subscriber P)
  pub dropped : ℕ
  pub is_closed : Bool
  pub is_canceled : Bool

-- What can happen next: a call of the bus, a turn of a subscriber's goroutine, or its end.
pub data Action (P : Type 0) : Type 0 where
  publish : BusEvent P → Action P
  subscribe : String → Action P
  unsubscribe : ℕ → Action P
  receive : ℕ → Action P
  finish : ℕ → Action P
  close cancel : Action P

module _ {P : Type 0} where
  abbrev pub new_in_proc : InProc P
  new_in_proc = record {
    next_id = 0;
    subs = [];
    dropped = 0;
    is_closed = false;
    is_canceled = false;
  }

  -- Whether `Publish` tries to send the event to the subscriber.
  abbrev pub is_offered : BusEvent P → Subscriber P → Bool
  is_offered e s = s.is_open && starts_with e.subject s.prefix

  abbrev pub has_room : Subscriber P → Bool
  has_room s = ltb (length s.queue) subscriber_buffer

  -- The send that does not block.
  unfoldable pub offer : BusEvent P → Subscriber P → Subscriber P
  offer e s = if is_offered e s && has_room s then record s { queue = s.queue ++ e ∷ [] } else s

  -- How many sends of an event find no room.
  unfoldable pub drops : BusEvent P → List (Subscriber P) → ℕ
  drops e [] = 0
  drops e (s ∷ ss) = (if is_offered e s && not (has_room s) then 1 else 0) + drops e ss

  unfoldable pub publish_event : BusEvent P → InProc P → InProc P
  publish_event e b =
      if b.is_closed
      then b
      else record b { subs = map (offer e) b.subs; dropped = b.dropped + drops e b.subs }

  unfoldable pub subscribe_prefix : String → InProc P → InProc P
  subscribe_prefix p b = record b {
    next_id = suc b.next_id;
    subs =
        b.subs
        ++ record {
          id = b.next_id;
          prefix = p;
          queue = [];
          handled = [];
          is_open = true;
          has_ended = false;
        }
          ∷ [];
  }

  -- Deletes the subscriber and closes its channel; a second call changes nothing.
  abbrev pub closed_if : ℕ → Subscriber P → Subscriber P
  closed_if id s = if s.id == id then record s { is_open = false } else s

  -- One receive from the channel: an event goes to the handler; from an empty channel that is closed
  -- the goroutine returns, and from one that is open it waits.
  unfoldable pub take_turn : Subscriber P → Subscriber P
  take_turn s = elim s.queue [
    | [] ↦ if s.is_open then s else record s { has_ended = true }
    | e ∷ rest ↦ record s { queue = rest; handled = s.handled ++ e ∷ [] }
  ]

  unfoldable pub turn_if : ℕ → Subscriber P → Subscriber P
  turn_if id s = if s.id == id && not s.has_ended then take_turn s else s

  -- The other branch of the goroutine's `select`, once the base context is canceled.
  abbrev pub ended_if : ℕ → Subscriber P → Subscriber P
  ended_if id s = if s.id == id then record s { has_ended = true } else s

  -- `Close` marks the bus and then cancels the base context: two actions, since it lets go of the lock
  -- between them.
  unfoldable pub act : Action P → InProc P → InProc P
  act (publish e) b = publish_event e b
  act (subscribe p) b = subscribe_prefix p b
  act (unsubscribe id) b = record b { subs = map (closed_if id) b.subs }
  act (receive id) b = record b { subs = map (turn_if id) b.subs }
  act (finish id) b = if b.is_canceled then record b { subs = map (ended_if id) b.subs } else b
  act close b = record b { is_closed = true }
  act cancel b = record b { is_canceled = true }

  unfoldable pub run : InProc P → List (Action P) → InProc P
  run b [] = b
  run b (a ∷ later) = run (act a b) later
