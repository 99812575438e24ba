-- ===== src/Service/Reconcile/Loop.antt =====
-- internal/service/reconcile/reconcile.go: `Run`, the loop of a venue and the signal of a reconnect. A
-- loop is one goroutine; what it meets, and the reconnects between, come in one list. The channel
-- `kick` holds at most one signal. The `bool` of an event says whether the context is done by the
-- end of the pass.
pub mod Kicks
use delta_works.Base.{
  Bool, true, false, not, List, [], ◌∷◌, Option, none, some, String, if◌then◌else◌, str_eq, map,
}
use delta_works.Errors.{Result, ok, err, Error}
use delta_works.Decimal.{Decimals}
use delta_works.Domain.Instrument.{VenueId}
use delta_works.Postgres.Session.{Tx, pure, raise, ◌>>=◌, attempt}
use delta_works.Service.Orders.{Venue}
use delta_works.Service.Reconcile.{Pace, Orphans, pass}

pub record VenueLoop (D : Type 0) : Type 0 where
  pub venue : Venue D
  pub kick : Bool
  pub last_orphans : List String

-- A payload of the reconnect subject that is no venue is `none`.
pub data LoopEvent : Type 0 where
  reconnected : Option VenueId → LoopEvent
  interval_over : Pace → Bool → LoopEvent
  kick_received : Pace → Bool → LoopEvent
  context_done : LoopEvent

module _ {D : Type 0} where
  -- `New`: a loop for each venue.
  abbrev pub new_loops : List (Venue D) → List (VenueLoop D)
  new_loops venues = map (λ v. record { venue = v; kick = false; last_orphans = [] }) venues

  -- A signal that finds the channel full is dropped: one is there.
  abbrev pub kicked_by : Option VenueId → VenueLoop D → VenueLoop D
  kicked_by none v = v
  kicked_by (some id) v = if str_eq v.venue.id id then record v { kick = true } else v

  unfoldable pub handle_reconnect : Option VenueId → List (VenueLoop D) → List (VenueLoop D)
  handle_reconnect payload loops = map (kicked_by payload) loops

module _ {D : Type 0} ⦃dec : Decimals D⦄ where
  -- `passError`: a store that fails after the context is done ends the loop with no error. `none` is the
  -- end of the loop.
  abbrev pub pass_failed : Bool → Error → Tx D (Option (VenueLoop D))
  pass_failed true e = pure none
  pass_failed false e = raise e

  -- The orphans of a pass are handed to the next, unless an error ends it.
  abbrev pub pass_error : Bool → VenueLoop D → Result Orphans → Tx D (Option (VenueLoop D))
  pass_error canceled v (err e) = pass_failed canceled e
  pass_error canceled v (ok found) = elim found.failure [
    | none ↦ pure (some (record v { last_orphans = found.current }))
    | some e ↦ pass_failed canceled e
  ]

  unfoldable pub pass_once : Pace → Bool → VenueLoop D → Tx D (Option (VenueLoop D))
  pass_once pace canceled v = do
    r ← attempt (pass pace v.venue v.last_orphans)
    pass_error canceled v r

  abbrev pub unless_over :
      (VenueLoop D → Tx D (VenueLoop D)) → VenueLoop D → Option (VenueLoop D) → Tx D (VenueLoop D)
  unless_over rest v none = pure v
  unless_over rest v (some u) = rest u

  -- The loop of `runVenue`. A receive from an empty channel does not happen.
  unfoldable pub wait_and_pass : List LoopEvent → VenueLoop D → Tx D (VenueLoop D)
  wait_and_pass [] v = pure v
  wait_and_pass (context_done ∷ es) v = pure v
  wait_and_pass (reconnected payload ∷ es) v = wait_and_pass es (kicked_by payload v)
  wait_and_pass (interval_over pace canceled ∷ es) v =
      pass_once pace canceled v >>= unless_over (wait_and_pass es) v
  wait_and_pass (kick_received pace canceled ∷ es) v =
      let rest = wait_and_pass es in
      if not v.kick
      then rest v
      else pass_once pace canceled (record v { kick = false }) >>= unless_over rest v

  -- `runVenue`; the first pass waits for nothing.
  unfoldable pub run_venue : Pace → Bool → List LoopEvent → VenueLoop D → Tx D (VenueLoop D)
  run_venue pace canceled es v = pass_once pace canceled v >>= unless_over (wait_and_pass es) v
