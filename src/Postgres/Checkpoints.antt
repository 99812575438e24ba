-- ===== src/Postgres/Checkpoints.antt =====
-- internal/adapters/postgres/postgres.go and sqlcgen/checkpoints.sql.go: the store of the snapshot
-- checkpoints. Among rows of the same times the earliest inserted comes first, which SQL leaves open.
pub mod Int32
pub mod Latest
use delta_works.Base.{
  ℕ, ◌+◌, ◌-◌, ◌%◌, ◌^◌, Bool, ◌&&◌, List, [], ◌∷◌, ◌++◌, Option, none, some, String, if◌then◌else◌,
  ltb, ◌==◌, str_eq, keep, any, sort,
}
use delta_works.Errors.{Result, ok, err, not_found, wrap, other}
use delta_works.Decimal.Integers.{ℤ, pos, negsuc}
use delta_works.Domain.Account.{
  AccountRef, Checkpoint, account_type_text, account_type_of, checkpoint_status_text,
  checkpoint_status_of,
}
use delta_works.Postgres.Schema.{CheckpointRow, Db, micros}
use delta_works.Postgres.Session.{
  Session, Tx, pure, raise, ◌>>=◌, attempt, autocommit, statement, db_error,
}

-- The low 32 bits of an integer in two's complement, and the integer that 32 bits stand for.
unfoldable pub bits32 : ℤ → ℕ
bits32 (pos n) = n % 2 ^ 32
bits32 (negsuc n) = 2 ^ 32 - 1 - n % 2 ^ 32

unfoldable pub signed32 : ℕ → ℤ
signed32 b = if ltb b (2 ^ 31) then pos b else negsuc (2 ^ 32 - 1 - b)

-- The conversion `int32(n)`, which wraps.
abbrev pub int32 : ℤ → ℤ
int32 n = signed32 (bits32 n)

abbrev pub head_of : List CheckpointRow → Option CheckpointRow
head_of [] = none
head_of (r ∷ rs) = some r

abbrev pub has_checkpoint_id : String → CheckpointRow → Bool
has_checkpoint_id id r = str_eq r.id id

abbrev pub of_account : String → String → CheckpointRow → Bool
of_account venue type r = str_eq r.venue venue && str_eq r.account_type type

-- ORDER BY taken_at DESC, created_at DESC.
abbrev pub taken_later : CheckpointRow → CheckpointRow → Bool
taken_later a b =
    if a.taken_at == b.taken_at then ltb b.created_at a.created_at else ltb b.taken_at a.taken_at

module _ {D : Type 0} where
  -- RecordSnapshot; the ID is the primary key.
  unfoldable pub record_snapshot_row : CheckpointRow → Tx D (Unit {0})
  unfolding autocommit
  record_snapshot_row row = autocommit λ w.
      if any (has_checkpoint_id row.id) w.db.checkpoints then (err db_error, w) else (
        ok tt,
        record w {
          db = record w.db {
            checkpoints = w.db.checkpoints ++ record row { created_at = w.now } ∷ [];
          };
        },
      )

  -- LastSnapshot.
  unfoldable pub last_snapshot_row : String → String → Tx D (Option CheckpointRow)
  unfolding statement
  last_snapshot_row venue type =
      statement
        λ w. (ok (head_of (sort taken_later (keep (of_account venue type) w.db.checkpoints))), w)

-- The columns of a checkpoint; the statement gives the time of creation.
abbrev pub checkpoint_row : Checkpoint → CheckpointRow
checkpoint_row c = record {
  id = c.id;
  venue = c.account.venue;
  account_type = account_type_text c.account.type;
  taken_at = micros c.taken_at;
  balance_count = int32 c.balance_count;
  status = checkpoint_status_text c.status;
  error = c.error;
  created_at = 0;
}

abbrev pub checkpoint_of : CheckpointRow → Checkpoint
checkpoint_of row = record {
  id = row.id;
  account = record { venue = row.venue; type = account_type_of row.account_type };
  taken_at = row.taken_at;
  balance_count = row.balance_count;
  status = checkpoint_status_of row.status;
  error = row.error;
}

module _ {D : Type 0} where
  -- `RecordSnapshot`.
  unfoldable pub record_snapshot : Checkpoint → Tx D (Unit {0})
  record_snapshot c = record_snapshot_row (checkpoint_row c)

  abbrev pub found_checkpoint : Result (Option CheckpointRow) → Tx D Checkpoint
  found_checkpoint (err e) = raise (wrap (other "postgres: last snapshot") e)
  found_checkpoint (ok none) = raise (not_found ∷ [])
  found_checkpoint (ok (some row)) = pure (checkpoint_of row)

  -- `LastSnapshot`.
  unfoldable pub last_snapshot : AccountRef → Tx D Checkpoint
  last_snapshot ref = do
    r ← attempt (last_snapshot_row ref.venue (account_type_text ref.type))
    found_checkpoint r
