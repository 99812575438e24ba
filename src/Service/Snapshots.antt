-- ===== src/Service/Snapshots.antt =====
-- internal/service/snapshot/snapshot.go: polling the balances of accounts. The series writer, the
-- checkpoint store, the bus and `backoff.Retry` are parameters, over the state `W` of everything outside.
-- A pass takes the ID that `uuid.New` returns, the time at which the fetch ended, and whether the context
-- was done by then and after the checkpoint. The deadline of the fetch belongs to `retry`; a pass is one
-- step; metrics and log lines are left out.
pub mod Adapters
pub mod Anchors
use delta_works.Base.{ℕ, Bool, true, false, ◌||◌, List, [], ◌∷◌, String, if◌then◌else◌, length}
use delta_works.Decimal.{Decimals}
use delta_works.Decimal.Integers.{ℤ, pos}
use delta_works.Errors.{Result, ok, err, is_ok, Error, is, wrap, other, auth, unsupported_account}
use delta_works.Domain.Instrument.{VenueId}
use delta_works.Domain.Account.{
  AccountType, AccountRef, AccountSnapshot, Balance, Checkpoint, status_ok, status_failed, non_zero,
}
use delta_works.Domain.Order.{Time}
use delta_works.Exchange.{Call, Exchange, Registry, get_venue}

pub record Target : Type 0 where
  pub venue : VenueId
  pub account : AccountType

-- One try of a fetch, as `backoff.Retry` sees it.
pub data Fetched (D : Type 0) : Type 0 where
  fetched : List (Balance D) → Fetched D
  failed permanent : Error → Fetched D

-- internal/ports/store.go: `BalanceSeriesWriter` and `SnapshotRecorder`, with `Publish` of the bus.
pub record Stores (W D : Type 0) : Type 0 where
  pub write_balance_snapshot : AccountSnapshot D → Call W (Unit {0})
  pub flush : Call W (Unit {0})
  pub record_snapshot : Checkpoint → Call W (Unit {0})
  pub publish_taken : AccountSnapshot D → Call W (Unit {0})

pub record SnapshotService (W D : Type 0) : Type 0 where
  pub registry : Registry W D
  pub stores : Stores W D
  pub retry : Call W (Fetched D) → Call W (List (Balance D))
  pub text : Error → String

-- What one pass meets.
pub record Pass : Type 0 where
  pub target : Target
  pub id : String
  pub taken_at : Time
  pub canceled : Bool
  pub canceled_later : Bool  -- when a failed checkpoint has been recorded

abbrev pub as_attempt : {D : Type 0} → Result (List (Balance D)) → Fetched D
as_attempt (ok bs) = fetched bs
as_attempt (err e) = if is e auth || is e unsupported_account then permanent e else failed e

abbrev pub unless_done : {W : Type 0} → Bool → Result (Unit {0}) × W → Result (Unit {0}) × W
unless_done canceled (ok _, w) = (ok tt, w)
unless_done canceled (err e, w) =
    if canceled then (ok tt, w) else (err (wrap (other "checkpoint store") e), w)

module _ {W D : Type 0} where
  abbrev pub attempted : Result (List (Balance D)) × W → Result (Fetched D) × W
  attempted (r, w) = (ok (as_attempt r), w)

  unfoldable pub fetch : Exchange W D → AccountType → Call W (Fetched D)
  fetch ex acct w = attempted (ex.balances acct w)

  abbrev pub flush_after : Stores W D → Result (Unit {0}) × W → Result (Unit {0}) × W
  flush_after stores (ok _, w) = stores.flush w
  flush_after stores (err e, w) = (err e, w)

  -- The lock makes the write and the flush one step.
  unfoldable pub write_series : Stores W D → AccountSnapshot D → Call W (Unit {0})
  write_series stores snap w = flush_after stores (stores.write_balance_snapshot snap w)

  unfoldable pub record_checkpoint : Stores W D → Bool → Checkpoint → Call W (Unit {0})
  record_checkpoint stores canceled c w = unless_done canceled (stores.record_snapshot c w)

abbrev pub failed_checkpoint : (Error → String) → Pass → Error → Checkpoint
failed_checkpoint text p e = record {
  id = p.id;
  account = record { venue = p.target.venue; type = p.target.account };
  taken_at = p.taken_at;
  balance_count = pos 0;
  status = status_failed;
  error = text e;
}

module _ {D : Type 0} where
  -- The snapshot and the checkpoints that a pass makes.
  abbrev pub taken : Pass → List (Balance D) → AccountSnapshot D
  taken p bs = record {
    account = record { venue = p.target.venue; type = p.target.account };
    taken_at = p.taken_at;
    balances = bs;
  }

module _ {D : Type 0} ⦃dec : Decimals D⦄ where
  abbrev pub ok_checkpoint : Pass → List (Balance D) → Checkpoint
  ok_checkpoint p bs = record {
    id = p.id;
    account = record { venue = p.target.venue; type = p.target.account };
    taken_at = p.taken_at;
    balance_count = pos (length (non_zero (taken p bs)));
    status = status_ok;
    error = "";
  }

module _ {W D : Type 0} ⦃dec : Decimals D⦄ where
  -- The bus hears of a snapshot whose checkpoint is recorded.
  abbrev pub announce :
      Stores W D → AccountSnapshot D → Result (Unit {0}) × W → Result (Unit {0}) × W
  announce stores snap (ok _, w) = stores.publish_taken snap w
  announce stores snap (err e, w) = (err e, w)

  -- The context that records an ok checkpoint is detached, so it is not canceled.
  abbrev pub after_series :
      SnapshotService W D → Pass → List (Balance D) → Result (Unit {0}) × W → Result (Unit {0}) × W
  after_series s p bs (ok _, w) =
      announce s.stores (taken p bs) (record_checkpoint s.stores false (ok_checkpoint p bs) w)
  after_series s p bs (err e, w) =
      record_checkpoint s.stores p.canceled_later (failed_checkpoint s.text p e) w

  abbrev pub after_fetch :
      SnapshotService W D → Pass → Result (List (Balance D)) × W → Result (Unit {0}) × W
  after_fetch s p (err e, w) =
      record_checkpoint s.stores p.canceled_later (failed_checkpoint s.text p e) w
  after_fetch s p (ok bs, w) = after_series s p bs (write_series s.stores (taken p bs) w)

  abbrev pub unless_over :
      SnapshotService W D → Pass → Result (List (Balance D)) × W → Result (Unit {0}) × W
  unless_over s p answer = if p.canceled then (ok tt, answer.1) else after_fetch s p answer

  abbrev pub with_exchange : SnapshotService W D → Pass → Result (Exchange W D) → Call W (Unit {0})
  with_exchange s p (err e) w = (err e, w)
  with_exchange s p (ok ex) w = unless_over s p (s.retry (fetch ex p.target.account) w)

  unfoldable pub snapshot : SnapshotService W D → Pass → Call W (Unit {0})
  snapshot s p = with_exchange s p (get_venue s.registry p.target.venue)

  -- The passes of all targets, in the order in which they happen, until one fails.
  unfoldable pub poll : SnapshotService W D → List Pass → W → W
  poll s [] w = w
  poll s (p ∷ ps) w =
      let after = snapshot s p w in
      let rest = poll s ps after.1 in if is_ok after.0 then rest else after.1
