-- ===== src/Bus/Ordering.antt =====
-- internal/bus/bus.go: in which order a subscriber sees the events.
use mathlib.Core.List.{append_assoc, append-nil}
use delta_works.Base.{
  ℕ, ◌≡◌, refl, Bool, true, not, ◌&&◌, List, [], ◌∷◌, ◌++◌, if◌then◌else◌, ◌==◌, map, All, arith,
  Bool-cases, inl, inr, keep, String,
}
use text.Mathlib.Text.{starts_with}
use delta_works.Bus.{
  BusEvent, Subscriber, InProc, Action, publish, subscribe, unsubscribe, receive, finish, close,
  cancel, is_offered, has_room, offer, publish_event, subscribe_prefix, closed_if, take_turn,
  turn_if, ended_if, act, run, new_in_proc,
}

-- The first list can be had from the second by leaving items out.
pub data Within {A : Type 0} : List A → List A → Type 0 where
  done : Within [] []
  skip : {x : A} {xs ys : List A} → Within xs ys → Within xs (x ∷ ys)
  same : {x : A} {xs ys : List A} → Within xs ys → Within (x ∷ xs) (x ∷ ys)

module _ {A : Type 0} where
  pub Within-skip_last : {xs ys : List A} (x : A) → Within xs ys → Within xs (ys ++ x ∷ [])
  Within-skip_last x done = skip done
  Within-skip_last x (skip w) = skip (Within-skip_last x w)
  Within-skip_last x (same w) = same (Within-skip_last x w)

  pub Within-same_last :
      {xs ys : List A} (x : A) → Within xs ys → Within (xs ++ x ∷ []) (ys ++ x ∷ [])
  Within-same_last x done = same done
  Within-same_last x (skip w) = skip (Within-same_last x w)
  Within-same_last x (same w) = same (Within-same_last x w)

  keep-snoc :
      (p : A → Bool) (xs : List A) (x : A)
      → keep p (xs ++ x ∷ []) ≡ (if p x then keep p xs ++ x ∷ [] else keep p xs)
  unfolding keep
  keep-snoc p [] x = refl
  keep-snoc p (y ∷ ys) x = ground (arith, keep-snoc p ys x)

module _ {P : Type 0} where
  -- The events of a history that a prefix matches, in the order of their publication.
  abbrev pub matching : String → List (BusEvent P) → List (BusEvent P)
  matching p past = keep (λ e. starts_with e.subject p) past

  -- What the handler was called with and what waits in the buffer, in order, are published events that
  -- the prefix matches, in the order of their publication.
  abbrev pub SeesInOrder : List (BusEvent P) → Subscriber P → Type 0
  SeesInOrder past s = Within (s.handled ++ s.queue) (matching s.prefix past)

  abbrev pub published : List (Action P) → List (BusEvent P)
  published [] = []
  published (publish e ∷ later) = e ∷ published later
  published (_ ∷ later) = published later

  each_sees :
      (old new : List (BusEvent P)) (f : Subscriber P → Subscriber P) (ss : List (Subscriber P))
      → ((s : Subscriber P) → SeesInOrder old s → SeesInOrder new (f s))
      → All (SeesInOrder old) ss
      → All (SeesInOrder new) (map f ss)
  each_sees old new f [] keeps h = tt
  each_sees old new f (s ∷ ss) keeps h = (keeps s h.0, each_sees old new f ss keeps h.1)

  only_more :
      (past : List (BusEvent P)) (e : BusEvent P) (s : Subscriber P)
      → SeesInOrder past s
      → SeesInOrder (past ++ e ∷ []) s
  only_more past e s h = elim (Bool-cases (starts_with e.subject s.prefix)) [
    | inl m ↦ rw (keep-snoc (λ x. starts_with x.subject s.prefix) past e, m) (Within-skip_last e h)
    | inr m ↦ rw (keep-snoc (λ x. starts_with x.subject s.prefix) past e, m) h
  ]

  offer_sees :
      (past : List (BusEvent P)) (e : BusEvent P) (s : Subscriber P)
      → SeesInOrder past s
      → SeesInOrder (past ++ e ∷ []) (offer e s)
  unfolding offer
  offer_sees past e s h = elim (Bool-cases (is_offered e s && has_room s)) [
    | inr n ↦ rw n (only_more past e s h)
    | inl y ↦
        let m : starts_with e.subject s.prefix ≡ true = ground arith in
        rw y (
          rw
            (
              keep-snoc (λ x. starts_with x.subject s.prefix) past e,
              m,
              ← (append_assoc s.handled s.queue (e ∷ [])),
            )
            (Within-same_last e h))
  ]

  take_sees :
      (past : List (BusEvent P)) (s : Subscriber P) (q : List (BusEvent P))
      → s.queue ≡ q
      → SeesInOrder past s
      → SeesInOrder past (take_turn s)
  unfolding take_turn
  take_sees past s [] e h =
      let h' : Within (s.handled ++ []) (matching s.prefix past) = rw e at h in
      elim (Bool-cases s.is_open) [ inl o ↦ rw (e, o) h' | inr o ↦ rw (e, o) h' ]
  take_sees past s (x ∷ q) e h =
      let h' : Within (s.handled ++ x ∷ q) (matching s.prefix past) = rw e at h in
      rw (e, append_assoc s.handled (x ∷ []) q) h'

  turn_sees :
      (past : List (BusEvent P)) (id : ℕ) (s : Subscriber P)
      → SeesInOrder past s
      → SeesInOrder past (turn_if id s)
  unfolding turn_if
  turn_sees past id s h = elim (Bool-cases (s.id == id && not s.has_ended)) [
    | inl y ↦ rw y (take_sees past s s.queue refl h)
    | inr n ↦ rw n h
  ]

  added_sees :
      (past : List (BusEvent P)) (ss : List (Subscriber P)) (s : Subscriber P)
      → SeesInOrder past s
      → All (SeesInOrder past) ss
      → All (SeesInOrder past) (ss ++ s ∷ [])
  added_sees past [] s k h = (k, tt)
  added_sees past (x ∷ ss) s k h = (h.0, added_sees past ss s k h.1)

  nothing_yet : (xs : List (BusEvent P)) → Within [] xs
  nothing_yet [] = done
  nothing_yet (x ∷ xs) = skip (nothing_yet xs)

  publish_sees :
      (past : List (BusEvent P)) (e : BusEvent P) (b : InProc P)
      → All (SeesInOrder past) b.subs
      → All (SeesInOrder (past ++ e ∷ [])) (publish_event e b).subs
  unfolding publish_event
  publish_sees past e b h = elim (Bool-cases b.is_closed) [
    | inl c ↦ rw c (unchanged b.subs h)
    | inr c ↦ rw c (each_sees past (past ++ e ∷ []) (offer e) b.subs (offer_sees past e) h)
  ]
    where
      unchanged :
          (ss : List (Subscriber P))
          → All (SeesInOrder past) ss
          → All (SeesInOrder (past ++ e ∷ [])) ss
      unchanged [] h = tt
      unchanged (s ∷ ss) h = (only_more past e s h.0, unchanged ss h.1)

  finish_sees :
      (past : List (BusEvent P)) (id : ℕ) (b : InProc P)
      → All (SeesInOrder past) b.subs
      → All (SeesInOrder past) (act (finish id) b).subs
  unfolding act
  finish_sees past id b h = elim (Bool-cases b.is_canceled) [
    | inl c ↦ rw c (each_sees past past (ended_if id) b.subs (λ s k. ended s k) h)
    | inr c ↦ rw c h
  ]
    where
      ended : (s : Subscriber P) → SeesInOrder past s → SeesInOrder past (ended_if id s)
      ended s k = elim (Bool-cases (s.id == id)) [ inl c ↦ rw c k | inr c ↦ rw c k ]

  closed_sees :
      (past : List (BusEvent P)) (id : ℕ) (s : Subscriber P)
      → SeesInOrder past s
      → SeesInOrder past (closed_if id s)
  closed_sees past id s k = elim (Bool-cases (s.id == id)) [ inl c ↦ rw c k | inr c ↦ rw c k ]

  -- From any state, over any schedule: if what each subscriber sees follows the order of the events
  -- published so far, it follows the order of those and the events that the schedule publishes.
  run_sees :
      (b : InProc P) (past : List (BusEvent P)) (later : List (Action P))
      → All (SeesInOrder past) b.subs
      → All (SeesInOrder (past ++ published later)) (run b later).subs
  unfolding run act subscribe_prefix
  run_sees b past [] h = rw append-nil h
  run_sees b past (publish e ∷ later) h =
      rw (← (append_assoc past (e ∷ []) (published later)))
        (run_sees (publish_event e b) (past ++ e ∷ []) later (publish_sees past e b h))
  run_sees b past (subscribe p ∷ later) h =
      run_sees _ past later (added_sees past b.subs _ (nothing_yet (matching p past)) h)
  run_sees b past (unsubscribe id ∷ later) h =
      run_sees _ past later (each_sees past past (closed_if id) b.subs (closed_sees past id) h)
  run_sees b past (receive id ∷ later) h =
      run_sees _ past later (each_sees past past (turn_if id) b.subs (turn_sees past id) h)
  run_sees b past (finish id ∷ later) h =
      run_sees (act (finish id) b) past later (finish_sees past id b h)
  run_sees b past (close ∷ later) h = run_sees _ past later h
  run_sees b past (cancel ∷ later) h = run_sees _ past later h

  -- Over any schedule of a new bus, what each subscriber's handler was called with and then what waits
  -- in its buffer are, in this order, among the published events that its prefix matches, in the order
  -- of their publication: none comes twice, none out of turn, and none that the prefix does not match.
  pub run_in_order :
      (later : List (Action P)) → All (SeesInOrder (published later)) (run new_in_proc later).subs
  run_in_order later = run_sees new_in_proc [] later tt
