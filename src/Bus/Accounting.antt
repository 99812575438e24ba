-- ===== src/Bus/Accounting.antt =====
-- internal/bus/bus.go: the bound of the buffers, and where each send of an event ends up.
use delta_works.Base.{
  ℕ, ◌+◌, ◌≡◌, refl, ◌≤◌, true, false, List, [], ◌∷◌, ◌++◌, if◌then◌else◌, length, length-append,
  map, All, arith, Bool-cases, inl, inr,
}
use delta_works.Bus.{
  BusEvent, Subscriber, InProc, Action, publish, subscribe, unsubscribe, receive, finish, close,
  cancel, subscriber_buffer, is_offered, offer, drops, publish_event, subscribe_prefix, closed_if,
  take_turn, turn_if, ended_if, act, run,
}

module _ {P : Type 0} where
  -- No buffer holds more than its channel has room for.
  abbrev pub IsBounded : InProc P → Type 0
  IsBounded b = All (λ s. length s.queue ≤ subscriber_buffer) b.subs

  each_bounded :
      (f : Subscriber P → Subscriber P) (ss : List (Subscriber P))
      → ((s : Subscriber P)
          → length s.queue ≤ subscriber_buffer
          → length (f s).queue ≤ subscriber_buffer)
      → All (λ s. length s.queue ≤ subscriber_buffer) ss
      → All (λ s. length s.queue ≤ subscriber_buffer) (map f ss)
  each_bounded f [] keep h = tt
  each_bounded f (s ∷ ss) keep h = (keep s h.0, each_bounded f ss keep h.1)

  offer_bounded :
      (e : BusEvent P) (s : Subscriber P)
      → length s.queue ≤ subscriber_buffer
      → length (offer e s).queue ≤ subscriber_buffer
  unfolding offer
  offer_bounded e s h = ground (arith, length-append s.queue (e ∷ []))

  turn_bounded :
      (id : ℕ) (s : Subscriber P)
      → length s.queue ≤ subscriber_buffer
      → length (turn_if id s).queue ≤ subscriber_buffer
  unfolding turn_if take_turn
  turn_bounded id s h = ground arith

  added_bounded :
      (ss : List (Subscriber P)) (s : Subscriber P)
      → length s.queue ≤ subscriber_buffer
      → All (λ s. length s.queue ≤ subscriber_buffer) ss
      → All (λ s. length s.queue ≤ subscriber_buffer) (ss ++ s ∷ [])
  added_bounded [] s k h = (k, tt)
  added_bounded (x ∷ ss) s k h = (h.0, added_bounded ss s k h.1)

  act-IsBounded : (a : Action P) (b : InProc P) → IsBounded b → IsBounded (act a b)
  unfolding act publish_event subscribe_prefix
  act-IsBounded (publish e) b h = elim (Bool-cases b.is_closed) [
    | inl c ↦ rw c h
    | inr c ↦ rw c (each_bounded (offer e) b.subs (offer_bounded e) h)
  ]
  act-IsBounded (subscribe p) b h = added_bounded b.subs _ (omega arith) h
  act-IsBounded (unsubscribe id) b h = each_bounded (closed_if id) b.subs (λ s k. ground arith) h
  act-IsBounded (receive id) b h = each_bounded (turn_if id) b.subs (turn_bounded id) h
  act-IsBounded (finish id) b h = elim (Bool-cases b.is_canceled) [
    | inl c ↦ rw c (each_bounded (ended_if id) b.subs (λ s k. ground arith) h)
    | inr c ↦ rw c h
  ]
  act-IsBounded close b h = h
  act-IsBounded cancel b h = h

  -- Whatever the schedule, no subscriber's buffer ever holds more than 64 events, if none did before.
  pub run-IsBounded :
      (b : InProc P) (later : List (Action P)) → IsBounded b → IsBounded (run b later)
  unfolding run
  run-IsBounded b [] h = h
  run-IsBounded b (a ∷ later) h = run-IsBounded (act a b) later (act-IsBounded a b h)

  -- The events that the subscribers were handed or still have in their buffers.
  abbrev pub kept : List (Subscriber P) → ℕ
  kept [] = 0
  kept (s ∷ ss) = length s.handled + length s.queue + kept ss

  -- To how many subscribers an event is sent.
  abbrev pub targets : BusEvent P → List (Subscriber P) → ℕ
  targets e [] = 0
  targets e (s ∷ ss) = (if is_offered e s then 1 else 0) + targets e ss

  abbrev pub sends : Action P → InProc P → ℕ
  sends (publish e) b = if b.is_closed then 0 else targets e b.subs
  sends _ b = 0

  -- The sends of a schedule.
  abbrev pub total_sends : InProc P → List (Action P) → ℕ
  total_sends b [] = 0
  total_sends b (a ∷ later) = sends a b + total_sends (act a b) later

  publish_kept :
      (e : BusEvent P) (ss : List (Subscriber P))
      → kept (map (offer e) ss) + drops e ss ≡ kept ss + targets e ss
  unfolding offer drops
  publish_kept e [] = omega arith
  publish_kept e (s ∷ ss) = ground (arith, publish_kept e ss, length-append s.queue (e ∷ []))

  each_kept :
      (f : Subscriber P → Subscriber P) (ss : List (Subscriber P))
      → ((s : Subscriber P)
          → length (f s).handled + length (f s).queue ≡ length s.handled + length s.queue)
      → kept (map f ss) ≡ kept ss
  each_kept f [] same = refl
  each_kept f (s ∷ ss) same = omega (arith, same s, each_kept f ss same)

  taken_kept :
      (s : Subscriber P) (q : List (BusEvent P))
      → s.queue ≡ q
      → length (take_turn s).handled + length (take_turn s).queue
        ≡ length s.handled + length s.queue
  unfolding take_turn
  taken_kept s [] h = rw h (ground arith)
  taken_kept s (e ∷ q) h = rw h (omega (arith, length-append s.handled (e ∷ [])))

  turn_kept :
      (id : ℕ) (s : Subscriber P)
      → length (turn_if id s).handled + length (turn_if id s).queue
        ≡ length s.handled + length s.queue
  unfolding turn_if
  turn_kept id s = ground (arith, taken_kept s s.queue refl)

  added_kept :
      (ss : List (Subscriber P)) (s : Subscriber P)
      → kept (ss ++ s ∷ []) ≡ kept ss + length s.handled + length s.queue
  added_kept [] s = omega arith
  added_kept (x ∷ ss) s = omega (arith, added_kept ss s)

  kept-act :
      (a : Action P) (b : InProc P)
      → kept (act a b).subs + (act a b).dropped ≡ kept b.subs + b.dropped + sends a b
  unfolding act publish_event subscribe_prefix
  kept-act (publish e) b = ground (arith, publish_kept e b.subs)
  kept-act (subscribe p) b = omega (
    arith,
    added_kept b.subs (record {
      id = b.next_id;
      prefix = p;
      queue = [];
      handled = [];
      is_open = true;
      has_ended = false;
    }),
  )
  kept-act (unsubscribe id) b = omega (arith, each_kept (closed_if id) b.subs (λ s. ground arith))
  kept-act (receive id) b = omega (arith, each_kept (turn_if id) b.subs (turn_kept id))
  kept-act (finish id) b =
      let same = each_kept (ended_if id) b.subs (λ s. ground arith) in ground arith
  kept-act close b = omega arith
  kept-act cancel b = omega arith

  -- Nothing vanishes silently: over any schedule, each send of an event to a subscriber ends as a call
  -- of its handler, as an event in its buffer, or in the count of the dropped events.
  pub run_accounts :
      (b : InProc P) (later : List (Action P))
      → kept (run b later).subs + (run b later).dropped
        ≡ kept b.subs + b.dropped + total_sends b later
  unfolding run
  run_accounts b [] = omega arith
  run_accounts b (a ∷ later) = omega (arith, kept-act a b, run_accounts (act a b) later)
