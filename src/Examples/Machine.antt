-- ===== src/Examples/Machine.antt =====
-- The theorems on the state machine, at an order that fills in two steps.
use delta_works.Base.{
  ◌≡◌, refl, true, false, ◌&&◌, ◌||◌, ltb, List, [], ◌∷◌, Permᴰ, if◌then◌else◌, foldl,
}
use delta_works.Errors.{ok}
use delta_works.Decimal.{sub, is_positive}
use delta_works.Decimal.Integers.{ℤ, pos, integers, sign, ◌-ℤ◌, ◌+ℤ◌}
use delta_works.Domain.Order.{Event, pending, partially_filled, filled, canceled, same_status}
use delta_works.Domain.Order.Machine.{
  State, Decision, rank, transition, decide, advanced, is_terminal, dropped, duplicate,
}
use delta_works.Domain.Order.Machine.Step.{
  level, is_known, settle, larger_fill, dropped_nothing, transition_exact,
}
use delta_works.Domain.Order.Machine.Replay.{
  replay, replay-highest, replay_order_independent, raise, replay_terminal,
}
use delta_works.Examples.{event, accepted_state, two_partials}

abbrev partly_filled : State ℤ
partly_filled = record { status = partially_filled; filled_qty = pos 5 }

abbrev canceled_state : State ℤ
canceled_state = record { status = canceled; filled_qty = pos 5 }

abbrev swapped : List (Event ℤ)
swapped = event partially_filled 5 6 ∷ event partially_filled 2 5 ∷ []

replay_order_independent_example :
    (t : State ℤ) × (u : State ℤ) × (replay accepted_state two_partials ≡ ok t)
    × (replay accepted_state swapped ≡ ok u)
    × (t.filled_qty ≡ u.filled_qty)
    × (rank t.status ≡ rank u.status)
replay_order_independent_example =
    replay_order_independent accepted_state two_partials swapped refl (refl, (refl, tt))
      (Permᴰ.swap refl refl)

two_partials_reach : replay accepted_state two_partials ≡ ok partly_filled
unfolding replay transition decide rank sign ◌-ℤ◌ ◌+ℤ◌
two_partials_reach = refl

abbrev first_fill : Decision ℤ
first_fill = advanced (event partially_filled 2 5) (pos 2) false

first_fill_is : transition accepted_state (event partially_filled 2 5) ≡ ok first_fill
unfolding transition decide rank sign ◌-ℤ◌
first_fill_is = refl

transition_exact_example :
    (first_fill.transition ≡ (
      ltb 0 2
      || (same_status pending partially_filled
          && same_status partially_filled partially_filled
          && is_positive {D = ℤ} (sub (pos 2) (pos 0)))))
    × (first_fill.transition ≡ dropped_nothing first_fill)
    × (first_fill.to ≡ (if first_fill.transition then partially_filled else pending))
transition_exact_example =
    transition_exact accepted_state (event partially_filled 2 5) first_fill first_fill_is

abbrev regressed : Decision ℤ
regressed = advanced (event filled 2 7) (pos 0) true

regressed_is : transition partly_filled (event filled 2 7) ≡ ok regressed
unfolding transition decide rank sign ◌-ℤ◌
regressed_is = refl

replay-highest_example :
    (t : State ℤ) × (replay accepted_state swapped ≡ ok t)
    × (level t.status ≡ foldl raise 0 swapped)
    × (t.filled_qty ≡ foldl larger_fill (pos 0) swapped)
    × (is_known t.status ≡ true)
replay-highest_example = replay-highest accepted_state swapped refl (refl, (refl, tt))

canceled_stays : replay canceled_state two_partials ≡ ok canceled_state
unfolding replay transition decide rank sign ◌-ℤ◌ ◌+ℤ◌
canceled_stays = refl

canceled_is_terminal : is_terminal canceled ≡ true
unfolding is_terminal rank
canceled_is_terminal = refl

replay_terminal_example : canceled ≡ canceled
replay_terminal_example =
    replay_terminal canceled_state canceled_state two_partials canceled_is_terminal canceled_stays

abbrev again : Decision ℤ
again = dropped (settle accepted_state first_fill) (pos 0) duplicate

again_is : transition (settle accepted_state first_fill) (event partially_filled 2 5) ≡ ok again
unfolding transition decide rank sign ◌-ℤ◌ ◌+ℤ◌
again_is = refl
