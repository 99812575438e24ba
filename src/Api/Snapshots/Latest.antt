-- ===== src/Api/Snapshots/Latest.antt =====
-- internal/api/snapshot.go: what a client reads of the checkpoints.
use mathlib.Core.Path.{ap₂}
use delta_works.Base.{
  ◌<◌, ◌≡◌, refl, ap, ◌∙◌, ◌⊎◌, inl, inr, true, false, [], ◌∷◌, String, All, Bool-cases,
}
use delta_works.Errors.{Result, ok, err, is, not_found, wrap, other}
use delta_works.Domain.Account.{
  AccountRef, Checkpoint, is_valid_account, account_type_text, account_type_of,
}
use delta_works.Postgres.Schema.{CheckpointRow, micros}
use delta_works.Postgres.Session.{Session, ◌>>=◌, fault_of, is_fine, fine, db_error}
use delta_works.Postgres.Checkpoints.{record_snapshot, last_snapshot, checkpoint_of}
use delta_works.Postgres.Checkpoints.Int32.{FitsInt32, int32_exact}
use delta_works.Postgres.Checkpoints.Latest.{
  IsLatest, IsKnownStatus, checkpoints_of, account_type_of-text, last_snapshot_exact,
  last_snapshot-record_snapshot,
}
use delta_works.Api.Orders.{
  Reply, answered, refused_with, code_invalid_argument, code_not_found, code_internal,
}
use delta_works.Api.Snapshots.{
  CheckpointMessage, checkpoint_message, checkpoint_reply, requested, get_last_snapshot,
}

module _ {D : Type 0} where
  -- The answers to a request for the last checkpoint of an account.
  abbrev pub IsLatestReply : AccountRef → Session D → Result (Reply CheckpointMessage) → Type 0
  IsLatestReply ref w answer =
      ((is_valid_account ref.type ≡ false) × (answer ≡ ok (refused_with code_invalid_argument)))
      ⊎ ((is_valid_account ref.type ≡ true)
          × (((row : CheckpointRow) × (answer
                  ≡ ok (answered (checkpoint_message (checkpoint_of row))))
                × IsLatest row (checkpoints_of ref w.db))
              ⊎ (((answer ≡ ok (refused_with code_not_found)) × (checkpoints_of ref w.db ≡ []))
                  ⊎ ((answer ≡ ok (refused_with code_internal))
                      × (is_fine (fault_of w.faults) ≡ false)))))

  replied :
      (lower trim : String → String) (venue account : String) (w : Session D)
      → is_valid_account (account_type_of account) ≡ true
      → (r : Result Checkpoint) → (last_snapshot (requested lower trim venue account) w).0 ≡ r
      → (get_last_snapshot lower trim venue account w).0 ≡ ok (checkpoint_reply r)
  unfolding get_last_snapshot ◌>>=◌
  replied lower trim venue account w h r k = rw (h, k) refl

  refused :
      (lower trim : String → String) (venue account : String) (w : Session D)
      → is_valid_account (account_type_of account) ≡ false
      → (get_last_snapshot lower trim venue account w).0 ≡ ok (refused_with code_invalid_argument)
  unfolding get_last_snapshot
  refused lower trim venue account w h = rw h refl

  -- A request is refused as invalid exactly if its account type has no name. Otherwise, with no fault,
  -- the answer is a checkpoint of the account than which no other of it is later, or `NotFound` if it
  -- has none; a fault of the store is `Internal`.
  pub get_last_snapshot_exact :
      (lower trim : String → String) (venue account : String) (w : Session D)
      → IsLatestReply
          (requested lower trim venue account)
          w
          (get_last_snapshot lower trim venue account w).0
  unfolding is
  get_last_snapshot_exact lower trim venue account w =
      elim (Bool-cases (is_valid_account (account_type_of account))) [
        | inr e ↦ inl (e, refused lower trim venue account w e)
        | inl e ↦
            let answers = replied lower trim venue account w e in
            inr (
              e,
              elim (last_snapshot_exact (requested lower trim venue account) w) [
                | inl (row, h, l) ↦ inl (row, answers (ok (checkpoint_of row)) h, l)
                | inr (inl (h, l)) ↦ inr (inl (answers (err (not_found ∷ [])) h, l))
                | inr (inr (h, f)) ↦
                    inr (inr (answers (err (wrap (other "postgres: last snapshot") db_error)) h, f))
              ],
            )
      ]

  -- The checkpoint that was recorded last is the one that the control plane answers with, under the name
  -- of its venue and of its account type, its time cut to whole microseconds and all else as it was, if
  -- its type and status have names, its count fits 32 bits, and the stored times of the earlier ones of
  -- the account are before that.
  pub get_last_snapshot-record_snapshot :
      (lower trim : String → String) (venue : String) (c : Checkpoint) (w u : Session D)
      → lower (trim venue) ≡ c.account.venue
      → record_snapshot c w ≡ (ok tt, u)
      → fault_of u.faults ≡ fine
      → is_valid_account c.account.type ≡ true
      → IsKnownStatus c.status
      → FitsInt32 c.balance_count
      → All (λ x. x.taken_at < micros c.taken_at) (checkpoints_of c.account w.db)
      → (get_last_snapshot lower trim venue (account_type_text c.account.type) u).0
        ≡ ok (
            answered (record (checkpoint_message c) {
              taken_at = micros c.taken_at;
              balance_count = c.balance_count;
            }))
  get_last_snapshot-record_snapshot lower trim venue c w u named h ready valid known fits earlier =
      let t = account_type_of-text c.account.type valid in
      let ref : requested lower trim venue (account_type_text c.account.type) ≡ c.account =
        ap₂ (λ v y. record { venue = v; type = y }) named t in
      replied lower trim venue (account_type_text c.account.type) u (ap is_valid_account t ∙ valid)
        (ok (record c { taken_at = micros c.taken_at }))
        (ap (λ r. (last_snapshot r u).0) ref
          ∙ last_snapshot-record_snapshot c w u h ready valid known fits earlier)
      ∙ ap
          (λ n. ok (
            answered
              (record (checkpoint_message c) { taken_at = micros c.taken_at; balance_count = n })))
          ((int32_exact c.balance_count).1 fits)
