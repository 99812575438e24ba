-- ===== src/Examples/Checkpoints.antt =====
-- The theorems on the checkpoints, at two snapshots of one account.
use delta_works.Base.{◌≡◌, ◌<◌, All, refl, inl, [], true, arith, keep, any}
use delta_works.Errors.{ok}
use delta_works.Decimal.Integers.{ℤ, pos}
use delta_works.Domain.Account.{Checkpoint, spot, status_ok, status_failed, is_valid_account}
use delta_works.Postgres.Session.{Session, autocommit, fault_of}
use delta_works.Postgres.Checkpoints.{record_snapshot, record_snapshot_row, bits32, signed32}
use delta_works.Postgres.Checkpoints.Latest.{checkpoints_of}
use delta_works.Api.Orders.{answered}
use delta_works.Api.Snapshots.{checkpoint_message, get_last_snapshot, requested}
use delta_works.Api.Snapshots.Latest.{
  IsLatestReply, get_last_snapshot_exact, get_last_snapshot-record_snapshot,
}
use delta_works.Examples.{session}

abbrev first_failed : Checkpoint
first_failed = record {
  id = "c1";
  account = record { venue = "kraken"; type = spot };
  taken_at = 5;
  balance_count = pos 0;
  status = status_failed;
  error = "timeout";
}

abbrev then_taken : Checkpoint
then_taken = record {
  id = "c2";
  account = record { venue = "kraken"; type = spot };
  taken_at = 65400;
  balance_count = pos 3;
  status = status_ok;
  error = "";
}

abbrev with_first : Session ℤ
with_first = (record_snapshot first_failed (session [])).1

abbrev with_both : Session ℤ
with_both = (record_snapshot then_taken with_first).1

both_recorded : record_snapshot then_taken with_first ≡ (ok tt, with_both)
unfolding record_snapshot record_snapshot_row autocommit any bits32 signed32
both_recorded = refl

no_fault : fault_of with_both.faults ≡ fault_of []
unfolding record_snapshot record_snapshot_row autocommit any bits32 signed32
no_fault = refl

earlier : All (λ x. x.taken_at < 65000) (checkpoints_of then_taken.account with_first.db)
unfolding record_snapshot record_snapshot_row autocommit any bits32 signed32 keep
earlier = (omega arith, tt)

named : is_valid_account spot ≡ true
unfolding is_valid_account
named = refl

get_last_snapshot-record_snapshot_example :
    (get_last_snapshot (λ s. s) (λ s. s) "kraken" "spot" with_both).0
    ≡ ok (
        answered
          (record (checkpoint_message then_taken) { taken_at = 65000; balance_count = pos 3 }))
get_last_snapshot-record_snapshot_example =
    get_last_snapshot-record_snapshot (λ s. s) (λ s. s) "kraken" then_taken with_first with_both
      refl both_recorded no_fault named (inl refl) (omega arith) earlier

get_last_snapshot_exact_example :
    IsLatestReply
      (requested (λ s. s) (λ s. s) "kraken" "spot")
      with_both
      (get_last_snapshot (λ s. s) (λ s. s) "kraken" "spot" with_both).0
get_last_snapshot_exact_example =
    get_last_snapshot_exact (λ s. s) (λ s. s) "kraken" "spot" with_both
