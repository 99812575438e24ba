-- ===== src/Domain/Order/Machine.antt =====
-- internal/domain/order/machine.go: how a venue event applies to the stored state of an order.
pub mod Step
pub mod Replay
use delta_works.Base.{
  ℕ, Bool, true, false, Option, none, some, ◌&&◌, not, if◌then◌else◌, ltb, leb, ◌==◌, List, [], ◌∷◌,
}
use delta_works.Errors.{Result, ok, err, ◌>>=◌, other}
use delta_works.Decimal.{Decimals, zero_decimal, sub, is_positive, is_negative}
use delta_works.Domain.Order.{
  Status, pending, open_order, partially_filled, filled, canceled, rejected, expired, Event,
  same_status,
}

unfoldable pub rank : Status → Result ℕ
rank pending = ok 0
rank open_order = ok 1
rank partially_filled = ok 2
rank filled = ok 3
rank canceled = ok 3
rank rejected = ok 3
rank expired = ok 3
rank (Status.unknown s) = err (other "order: unknown status" ∷ [])

abbrev pub terminal_rank : ℕ
terminal_rank = 3

unfoldable pub is_terminal : Status → Bool
unfolding rank
is_terminal s = elim (rank s) [ ok r ↦ r == terminal_rank | err e ↦ false ]

pub record State (D : Type 0) : Type 0 where
  pub status : Status
  pub filled_qty : D

pub data DropReason : Type 0 where
  stale duplicate terminal : DropReason

-- `drop` is `none` for the empty reason.
pub record Decision (D : Type 0) : Type 0 where
  pub transition : Bool
  pub to : Status
  pub fill_delta : D
  pub fill_anomaly : Bool
  pub drop : Option DropReason

module _ {D : Type 0} ⦃dec : Decimals D⦄ where
  -- The quantity that the event adds: a pending event carries no execution facts.
  abbrev pub fill_of : D → Status → D
  fill_of delta status =
      if is_positive delta && not (same_status status pending) then delta else zero_decimal

  -- The status stays as it is stored; the event is dropped for the reason given.
  abbrev pub dropped : State D → D → DropReason → Decision D
  dropped current fill why = record {
    transition = false;
    to = current.status;
    fill_delta = fill;
    fill_anomaly = false;
    drop = some why;
  }

  abbrev pub advanced : Event D → D → Bool → Decision D
  advanced ev fill anomaly = record {
    transition = true;
    to = ev.status;
    fill_delta = fill;
    fill_anomaly = anomaly;
    drop = none;
  }

  -- The `switch` of `Transition`, over the values computed above it.
  unfoldable pub decide : State D → Event D → ℕ → ℕ → D → D → Decision D
  decide current ev cur_rank ev_rank delta fill =
      if cur_rank == terminal_rank
      then dropped current fill terminal
      else if is_negative delta && leb ev_rank cur_rank
      then dropped current zero_decimal stale
      else if is_negative delta
      then advanced ev zero_decimal true
      else if ltb ev_rank cur_rank
      then dropped current fill stale
      else if ltb cur_rank ev_rank
      then advanced ev fill false
      else if same_status ev.status partially_filled && is_positive fill
      then advanced ev fill false
      else dropped current fill duplicate

  unfoldable pub transition : State D → Event D → Result (Decision D)
  unfolding rank decide
  transition current ev = do
    cur_rank ← rank current.status
    ev_rank ← rank ev.status
    let delta = sub ev.filled_qty current.filled_qty
    ok (decide current ev cur_rank ev_rank delta (fill_of delta ev.status))
