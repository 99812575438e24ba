-- ===== src/Domain/Order/Machine/Step.antt =====
-- internal/domain/order/machine.go: what one event does to the stored state, by rank and by fill.
use delta_works.Base.{
  ℕ, ◌≡◌, Bool, true, false, none, some, ◌&&◌, ◌||◌, if◌then◌else◌, ltb, arith, ◌≤◌,
}
use delta_works.Errors.{ok, is_ok}
use delta_works.Decimal.{Decimals, zero_decimal, add, sub, is_positive, is_negative}
use delta_works.Decimal.Laws.{add-sub}
use delta_works.Decimal.Order.{max, sign-sub_self, sign-zero}
use delta_works.Domain.Order.{
  Status, pending, open_order, partially_filled, filled, canceled, rejected, expired, Event,
  same_status,
}
use delta_works.Domain.Order.Machine.{State, Decision, terminal, rank, transition, is_terminal}

-- The rank of a status, read as a number; 4 stands for a text that is no status.
abbrev pub level : Status → ℕ
level pending = 0
level open_order = 1
level partially_filled = 2
level filled = 3
level canceled = 3
level rejected = 3
level expired = 3
level (Status.unknown s) = 4

abbrev pub is_known : Status → Bool
is_known (Status.unknown s) = false
is_known _ = true

abbrev pub later : ℕ → ℕ → ℕ
later a b = if ltb a b then b else a

later_le : (a b : ℕ) → b ≤ later a b
later_le a b = ground arith

pub rank-eq-level : (s : Status) → is_known s ≡ true → rank s ≡ ok (level s)
unfolding rank
rank-eq-level s h = ground arith

module _ {D : Type 0} where
  abbrev pub dropped_nothing : Decision D → Bool
  dropped_nothing d = elim d.drop [ none ↦ true | some _ ↦ false ]

module _ {D : Type 0} ⦃dec : Decimals D⦄ where
  -- The state that a decision leaves: its status, and the stored fill with the delta added.
  abbrev pub settle : State D → Decision D → State D
  settle s d = record { status = d.to; filled_qty = add s.filled_qty d.fill_delta }

  -- What the fill of a state becomes by an event: the larger, but a pending event carries none.
  abbrev pub larger_fill : D → Event D → D
  larger_fill f ev = if same_status ev.status pending then f else max f ev.filled_qty

  larger_fill_idem : (f : D) (ev : Event D) → larger_fill (larger_fill f ev) ev ≡ larger_fill f ev
  larger_fill_idem f ev = ground (arith, sign-sub_self ev.filled_qty)

  -- A decision is returned exactly for two statuses that the machine knows.
  pub transition-is_ok :
      (s : State D) (ev : Event D)
      → is_ok (transition s ev) ≡ (is_known s.status && is_known ev.status)
  unfolding transition
  transition-is_ok s ev = ground arith

  -- After a decision the rank of the stored status is the larger of the two ranks, the stored fill
  -- is the larger of the two cumulative fills (the stored one, for a pending event), and the status
  -- is one that the machine knows.
  pub decision_effect :
      (s : State D) (ev : Event D) (d : Decision D)
      → transition s ev ≡ ok d
      → (level (settle s d).status ≡ later (level s.status) (level ev.status))
        × ((settle s d).filled_qty ≡ larger_fill s.filled_qty ev)
        × (is_known (settle s d).status ≡ true)
  unfolding transition
  decision_effect s ev d h =
      ground (arith, add-sub s.filled_qty ev.filled_qty, dec.add_zero s.filled_qty)

  -- A decision moves the status exactly when the event outranks a stored status, or is another
  -- partial fill with a larger cumulative quantity; and it drops the event exactly otherwise.
  pub transition_exact :
      (s : State D) (ev : Event D) (d : Decision D)
      → transition s ev ≡ ok d
      → (d.transition ≡ (
          ltb (level s.status) (level ev.status)
          || (same_status s.status partially_filled
              && same_status ev.status partially_filled
              && is_positive (sub ev.filled_qty s.filled_qty))))
        × (d.transition ≡ dropped_nothing d)
        × (d.to ≡ (if d.transition then ev.status else s.status))
  unfolding transition
  transition_exact s ev d h = ground (arith, sign-zero dec)

  -- A decision is marked as an anomaly exactly when the status moves although the cumulative fill
  -- of the event is below the stored one; no decision carries a negative fill.
  pub anomaly_exact :
      (s : State D) (ev : Event D) (d : Decision D)
      → transition s ev ≡ ok d
      → (d.fill_anomaly ≡ (d.transition && is_negative (sub ev.filled_qty s.filled_qty)))
        × (is_negative d.fill_delta ≡ false)
  unfolding transition
  anomaly_exact s ev d h = ground (arith, sign-zero dec)

  -- A terminal status stays, whatever the event.
  pub terminal_absorbs :
      (s : State D) (ev : Event D) (d : Decision D)
      → is_terminal s.status ≡ true
      → transition s ev ≡ ok d
      → (d.to ≡ s.status) × (d.transition ≡ false) × (d.drop ≡ some terminal)
  unfolding transition is_terminal
  terminal_absorbs s ev d t h = ground arith

  -- An event that outranks nothing and fills nothing more is dropped with no fill.
  no_progress :
      (s : State D) (ev : Event D) (d : Decision D)
      → level ev.status ≤ level s.status
      → larger_fill s.filled_qty ev ≡ s.filled_qty
      → transition s ev ≡ ok d
      → (d.transition ≡ false) × (d.fill_delta ≡ zero_decimal)
  unfolding transition
  no_progress s ev d l f h = ground (arith, sign-zero dec, sign-sub_self ev.filled_qty)

  -- Applying an event again, after it was applied, moves no status and fills nothing.
  pub replay_drops :
      (s : State D) (ev : Event D) (d e : Decision D)
      → transition s ev ≡ ok d
      → transition (settle s d) ev ≡ ok e
      → (e.transition ≡ false) × (e.fill_delta ≡ zero_decimal)
  replay_drops s ev d e h k =
      let (l, f, _) = decision_effect s ev d h in
      no_progress (settle s d) ev e (rw l (later_le (level s.status) (level ev.status)))
        (rw f (larger_fill_idem s.filled_qty ev)) k
