-- ===== src/Examples/Buses.antt =====
-- The theorems on the event bus, at a schedule of two subscribers.
use delta_works.Base.{ℕ, ◌+◌, ◌≡◌, refl, List, [], ◌∷◌, All, map, length, String, arith}
use delta_works.Bus.{
  BusEvent, Action, publish, subscribe, unsubscribe, receive, new_in_proc, run, act, publish_event,
  subscribe_prefix, turn_if, take_turn, offer, drops,
}
use delta_works.Bus.Accounting.{kept, total_sends, run_accounts}
use delta_works.Bus.Ordering.{SeesInOrder, published, run_in_order}
use delta_works.Bus.Progress.{turns, caught_up, turns_catch_up}

abbrev note : String → ℕ → BusEvent ℕ
note subject n = record { subject = subject; at = n; payload = n }

abbrev schedule : List (Action ℕ)
schedule =
    subscribe "order."
    ∷ publish (note "order.updated" 1)
    ∷ subscribe ""
    ∷ publish (note "order.filled" 2)
    ∷ publish (note "snapshot.taken" 3)
    ∷ receive 0
    ∷ unsubscribe 1
    ∷ publish (note "order.updated" 4)
    ∷ []

run_accounts_example :
    kept (run new_in_proc schedule).subs + (run new_in_proc schedule).dropped
    ≡ 0 + 0 + total_sends new_in_proc schedule
run_accounts_example = run_accounts new_in_proc schedule

run_in_order_example : All (SeesInOrder (published schedule)) (run new_in_proc schedule).subs
run_in_order_example = run_in_order schedule

two_wait : All (λ s. s.id ≡ 0 → length s.queue ≡ 2) (run new_in_proc schedule).subs
unfolding run act publish_event subscribe_prefix turn_if take_turn offer drops
two_wait = ((λ e. refl), ((λ e. absurd (omega (arith, e))), tt))

turns_catch_up_example :
    (run (run new_in_proc schedule) (turns 0 2)).subs
    ≡ map (caught_up 0) (run new_in_proc schedule).subs
turns_catch_up_example = turns_catch_up 0 2 (run new_in_proc schedule) two_wait
