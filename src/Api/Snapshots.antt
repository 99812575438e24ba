-- ===== src/Api/Snapshots.antt =====
-- internal/api/snapshot.go: `GetLastSnapshot`. `lower` and `trim` are the library's functions on texts.
pub mod Latest
use delta_works.Base.{Bool, String, if◌then◌else◌, not, [], ◌∷◌}
use delta_works.Errors.{Result, ok, err, is, not_found}
use delta_works.Decimal.Integers.{ℤ}
use delta_works.Domain.Instrument.{VenueId, new_venue_id}
use delta_works.Domain.Account.{
  AccountRef, Checkpoint, CheckpointStatus, status_ok, status_failed, status_unknown,
  is_valid_account, account_type_text, account_type_of,
}
use delta_works.Domain.Order.{Time}
use delta_works.Postgres.Session.{Tx, pure, ◌>>=◌, attempt}
use delta_works.Postgres.Checkpoints.{int32, last_snapshot}
use delta_works.Api.Orders.{
  Reply, answered, refused_with, code_invalid_argument, code_not_found, code_internal,
}

pub data ProtoCheckpointStatus : Type 0 where
  checkpoint_unspecified checkpoint_ok checkpoint_failed : ProtoCheckpointStatus

pub record CheckpointMessage : Type 0 where
  pub id : String
  pub venue : String
  pub account : String
  pub taken_at : Time
  pub balance_count : ℤ
  pub status : ProtoCheckpointStatus
  pub error : String

abbrev pub checkpoint_status : CheckpointStatus → ProtoCheckpointStatus
checkpoint_status status_ok = checkpoint_ok
checkpoint_status status_failed = checkpoint_failed
checkpoint_status (status_unknown s) = checkpoint_unspecified

abbrev pub checkpoint_message : Checkpoint → CheckpointMessage
checkpoint_message cp = record {
  id = cp.id;
  venue = cp.account.venue;
  account = account_type_text cp.account.type;
  taken_at = cp.taken_at;
  balance_count = int32 cp.balance_count;
  status = checkpoint_status cp.status;
  error = cp.error;
}

abbrev pub checkpoint_reply : Result Checkpoint → Reply CheckpointMessage
checkpoint_reply (ok cp) = answered (checkpoint_message cp)
checkpoint_reply (err e) =
    if is e not_found then refused_with code_not_found else refused_with code_internal

abbrev pub requested : (lower trim : String → String) → (venue account : String) → AccountRef
requested lower trim venue account = record {
  venue = new_venue_id lower trim venue;
  type = account_type_of account;
}

module _ {D : Type 0} where
  -- `GetLastSnapshot`.
  unfoldable pub get_last_snapshot :
      (lower trim : String → String) → (venue account : String) → Tx D (Reply CheckpointMessage)
  get_last_snapshot lower trim venue account =
      if not (is_valid_account (account_type_of account))
      then pure (refused_with code_invalid_argument)
      else do
        r ← attempt (last_snapshot (requested lower trim venue account))
        pure (checkpoint_reply r)
