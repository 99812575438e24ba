-- ===== src/Gct/Known.antt =====
-- internal/adapters/gct/stream.go: what the stream of a venue hands to the order machine.
use delta_works.Base.{
  ℕ, zero, suc, ◌≡◌, refl, sym, ap, ◌∙◌, Bool, true, false, List, [], ◌∷◌, ◌++◌, take, All,
  if◌then◌else◌, arith, none, some,
}
use delta_works.Decimal.{Decimals}
use delta_works.Errors.{Result, ok, err, is, not_found, ◌>>=◌}
use delta_works.Domain.Instrument.{VenueId}
use delta_works.Domain.Order.{Time, Event, Status, Snapshot}
use delta_works.Domain.Order.Machine.{State}
use delta_works.Domain.Order.Machine.Step.{is_known}
use delta_works.Domain.Order.Machine.Replay.{replay, IsKnown, replay-highest}
use delta_works.Gct.{GctStatus, Detail, Values, TradeHistory}
use delta_works.Gct.Convert.{with_context}
use delta_works.Gct.ConvertOrders.{to_status, to_event, with_trade, to_snapshot, to_ref}
use delta_works.Gct.Stream.{
  Payload, detail, details, anything_else, Input, done, payload, cut, data_closed, tick, Pump,
  event_or_none, detail_events, to_order_events, receive, pump, started,
}

-- A status that the machine knows, or no status.
abbrev pub names_known : Result Status → Bool
names_known (ok t) = is_known t
names_known (err e) = true

-- The adapter names only statuses of the state machine.
pub to_status_known : (s : GctStatus) → names_known (to_status s) ≡ true
unfolding to_status
to_status_known s = ground arith

-- An error that is `ErrNotFound`.
abbrev pub is_error_of : {A : Type 0} → Result A → Bool
is_error_of (ok a) = false
is_error_of (err e) = is e not_found

status_error : (s : GctStatus) → is_error_of (to_status s) ≡ false
unfolding to_status is
status_error s = ground arith

-- What a conversion keeps of the status: whether it has one that is known, and its error.
kept_error :
    {A : Type 0} (r : Result Status) (made : Status → A)
    → is_error_of r ≡ false
    → is_error_of (with_context "gct: get order" (r >>= λ t. ok (made t))) ≡ false
unfolding is
kept_error (ok t) made h = refl
kept_error (err e) made h = h

module _ {D P F : Type 0} ⦃dec : Decimals D⦄ (values : Values D P F) (now : Time)
    (id : VenueId) where
  All-append : (xs ys : List (Event D)) → All IsKnown xs → All IsKnown ys → All IsKnown (xs ++ ys)
  All-append [] ys h k = k
  All-append (x ∷ xs) ys h k = (h.0, All-append xs ys h.1 k)

  All-take : (n : ℕ) (xs : List (Event D)) → All IsKnown xs → All IsKnown (take n xs)
  All-take zero xs h = tt
  All-take (suc n) [] h = tt
  All-take (suc n) (x ∷ xs) h = (h.0, All-take n xs h.1)

  with_trade_status :
      (ts : List (TradeHistory F)) (ev : Event D) → (with_trade values now ts ev).status ≡ ev.status
  with_trade_status [] ev = refl
  with_trade_status (t ∷ []) ev = refl
  with_trade_status (t ∷ u ∷ ts) ev = refl

  pub to_snapshot_error :
      (d : Detail P F)
      → is_error_of (with_context "gct: get order" (to_snapshot values now id d)) ≡ false
  unfolding to_snapshot
  to_snapshot_error d = kept_error (to_status d.status) _ (status_error d.status)

  snapshot_made :
      (r : Result Status) (made : Status → Snapshot D) (snap : Snapshot D)
      → names_known r ≡ true
      → ((t : Status) → (made t).status ≡ t)
      → (r >>= λ t. ok (made t)) ≡ ok snap
      → (t : Status) × (is_known t ≡ true) × (made t ≡ snap)
  snapshot_made (ok t) made snap h k e = (t, h, cc)
  snapshot_made (err e') made snap h k e = absurd (cc)

  -- A snapshot is of the order of the venue, with a status that is known.
  pub to_snapshot_known :
      (d : Detail P F) (snap : Snapshot D)
      → to_snapshot values now id d ≡ ok snap
      → (snap.ref ≡ to_ref values now id d) × (is_known snap.status ≡ true)
  unfolding to_snapshot
  to_snapshot_known d snap h =
      let (t, k, e) =
        snapshot_made (to_status d.status) _ snap (to_status_known d.status) (λ t. refl) h in
      (sym (ap (λ x. x.ref) e), rw (← e) k)

  made-IsKnown :
      (r : Result Status) (made : Status → Event D)
      → ((t : Status) → (made t).status ≡ t)
      → names_known r ≡ true
      → All IsKnown (event_or_none values now id (r >>= λ t. ok (made t)))
  made-IsKnown (err e) made h k = tt
  made-IsKnown (ok t) made h k = (ap is_known (h t) ∙ k, tt)

  to_event-IsKnown :
      (d : Detail P F) → All IsKnown (event_or_none values now id (to_event values now id d))
  unfolding to_event
  to_event-IsKnown d =
      made-IsKnown (to_status d.status) _ (λ t. with_trade_status d.trades _)
        (to_status_known d.status)

  detail_events-IsKnown : (ds : List (Detail P F)) → All IsKnown (detail_events values now id ds)
  unfolding detail_events
  detail_events-IsKnown [] = tt
  detail_events-IsKnown (d ∷ ds) = All-append _ _ (to_event-IsKnown d) (detail_events-IsKnown ds)

  to_order_events-IsKnown :
      (data_ : Payload P F) → All IsKnown (to_order_events values now id data_)
  unfolding to_order_events
  to_order_events-IsKnown (detail none) = tt
  to_order_events-IsKnown (detail (some d)) = to_event-IsKnown d
  to_order_events-IsKnown (details ds) = detail_events-IsKnown ds
  to_order_events-IsKnown anything_else = tt

  receive-IsKnown :
      (i : Input P F) (p : Pump D)
      → All IsKnown p.sent
      → All IsKnown (receive values now id i p).sent
  receive-IsKnown done p h = h
  receive-IsKnown (payload data_) p h = All-append p.sent _ h (to_order_events-IsKnown data_)
  receive-IsKnown (cut n data_) p h =
      All-append p.sent _ h (All-take n _ (to_order_events-IsKnown data_))
  receive-IsKnown data_closed p h = h
  receive-IsKnown (tick now_connected) p h = h

  whichever :
      (b : Bool) (p q : Pump D)
      → All IsKnown p.sent
      → All IsKnown q.sent
      → All IsKnown (if b then p else q).sent
  whichever true p q h k = h
  whichever false p q h k = k

  pump-IsKnown :
      (is : List (Input P F)) (p : Pump D)
      → All IsKnown p.sent
      → All IsKnown (pump values now id is p).sent
  unfolding pump
  pump-IsKnown [] p h = h
  pump-IsKnown (i ∷ is) p h =
      whichever p.is_running _ p
        (pump-IsKnown is (receive values now id i p) (receive-IsKnown i p h)) h

  -- Whatever a venue's websocket delivers, the events that the pump sends from its start take the order
  -- machine from any known status to a known status, with no error.
  pub pump-replay :
      (is : List (Input P F)) (connected : Bool) (s : State D)
      → is_known s.status ≡ true
      → (t : State D) × (replay s (pump values now id is (started connected)).sent ≡ ok t)
        × (is_known t.status ≡ true)
  pump-replay is connected s h =
      let (t, r, lt, ft, kt) = replay-highest s _ h (pump-IsKnown is (started connected) tt) in
      (t, r, kt)
