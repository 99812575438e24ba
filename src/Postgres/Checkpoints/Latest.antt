-- ===== src/Postgres/Checkpoints/Latest.antt =====
-- internal/adapters/postgres/postgres.go: which checkpoint `LastSnapshot` returns.
use mathlib.Core.Option.{some-injective}
use delta_works.Base.{
  ℕ, ◌≡◌, refl, ap, ◌∙◌, ◌⊎◌, inl, inr, ◌<◌, Bool, true, false, List, [], ◌∷◌, ◌++◌, none, some,
  arith, eq_refl, keep, sort, insert_sorted, sort-perm, sort-IsSorted, IsSorted, All, Permᴰ,
  Bool-cases,
}
use delta_works.Errors.{ok, err, not_found, wrap, other}
use delta_works.Domain.Account.{
  AccountType, spot, funding, unified, margin, AccountRef, Checkpoint, CheckpointStatus, status_ok,
  status_failed, is_valid_account, account_type_text, account_type_of, checkpoint_status_text,
  checkpoint_status_of,
}
use delta_works.Postgres.Schema.{CheckpointRow, Db, micros}
use delta_works.Postgres.Session.{
  Session, ◌>>=◌, fault_of, is_fine, db_error, fine, autocommit, statement,
}
use delta_works.Postgres.Checkpoints.{
  head_of, of_account, taken_later, record_snapshot_row, last_snapshot_row, checkpoint_row,
  checkpoint_of, record_snapshot, last_snapshot,
}
use delta_works.Postgres.Checkpoints.Int32.{FitsInt32, int32_exact}

taken_later_asymm : (a b : CheckpointRow) → taken_later a b ≡ true → taken_later b a ≡ false
taken_later_asymm a b h = ground arith

not_later_trans :
    (a b c : CheckpointRow)
    → taken_later b a ≡ false
    → taken_later c b ≡ false
    → taken_later c a ≡ false
not_later_trans a b c h k = ground arith

-- A row of the list, with the others, none of which is later.
abbrev pub IsLatest : CheckpointRow → List CheckpointRow → Type 0
IsLatest row rows =
    (others : List CheckpointRow) × Permᴰ rows (row ∷ others)
    × All (λ r. taken_later r row ≡ false) others

head_insert_sorted :
    (x : CheckpointRow) (l : List CheckpointRow)
    → (row : CheckpointRow) × (head_of (insert_sorted taken_later x l) ≡ some row)
unfolding insert_sorted
head_insert_sorted x [] = (x, refl)
head_insert_sorted x (y ∷ ys) = elim (Bool-cases (taken_later y x)) [
  | inl e ↦ (y, rw e refl)
  | inr e ↦ (x, rw e refl)
]

head-IsLatest :
    (rows l : List CheckpointRow) (row : CheckpointRow)
    → Permᴰ rows l
    → IsSorted taken_later l
    → head_of l ≡ some row
    → IsLatest row rows
head-IsLatest rows [] row p s h = absurd (cc)
head-IsLatest rows (x ∷ l) row p s h =
    let first : IsLatest x rows = (l, p, s.0) in rw (some-injective _ _ h) at first

newest_cases :
    (rows : List CheckpointRow)
    → ((rows ≡ []) × (head_of (sort taken_later rows) ≡ none))
      ⊎ ((row : CheckpointRow) × (head_of (sort taken_later rows) ≡ some row) × IsLatest row rows)
unfolding sort
newest_cases [] = inl (refl, refl)
newest_cases (x ∷ xs) =
    let (row, h) = head_insert_sorted x (sort taken_later xs) in
    inr (
      row,
      h,
      head-IsLatest (x ∷ xs) (sort taken_later (x ∷ xs)) row (sort-perm taken_later (x ∷ xs))
          (sort-IsSorted taken_later taken_later_asymm not_later_trans (x ∷ xs)) h,
    )

insert-head :
    (x row : CheckpointRow) (l : List CheckpointRow)
    → head_of l ≡ some row
    → taken_later row x ≡ true
    → head_of (insert_sorted taken_later x l) ≡ some row
unfolding insert_sorted
insert-head x row [] h k = absurd (cc)
insert-head x row (y ∷ ys) h k = let e : y ≡ row = some-injective _ _ h in rw (e, k) refl

-- A row that is later than all the others comes first.
latest-snoc :
    (xs : List CheckpointRow) (row : CheckpointRow)
    → All (λ x. taken_later row x ≡ true) xs
    → head_of (sort taken_later (xs ++ row ∷ [])) ≡ some row
unfolding sort insert_sorted
latest-snoc [] row h = refl
latest-snoc (x ∷ xs) row h = insert-head x row _ (latest-snoc xs row h.1) h.0

module _ {D : Type 0} where
  -- The checkpoints of an account, as they are stored.
  abbrev pub checkpoints_of : AccountRef → Db D → List CheckpointRow
  checkpoints_of ref db = keep (of_account ref.venue (account_type_text ref.type)) db.checkpoints

  -- With no fault, `LastSnapshot` returns a checkpoint of the account than which no other of the account
  -- is later, or not found if it has none; a fault is an error that is not taken for that.
  pub last_snapshot_exact :
      (ref : AccountRef) (w : Session D)
      → ((row : CheckpointRow) × ((last_snapshot ref w).0 ≡ ok (checkpoint_of row))
          × IsLatest row (checkpoints_of ref w.db))
        ⊎ ((((last_snapshot ref w).0 ≡ err (not_found ∷ [])) × (checkpoints_of ref w.db ≡ []))
            ⊎ (((last_snapshot ref w).0 ≡ err (wrap (other "postgres: last snapshot") db_error))
                × (is_fine (fault_of w.faults) ≡ false)))
  unfolding last_snapshot last_snapshot_row ◌>>=◌ statement
  last_snapshot_exact ref w = elim (Bool-cases (is_fine (fault_of w.faults))) [
    | inr e ↦ inr (inr (rw e refl, e))
    | inl e ↦ elim (newest_cases (checkpoints_of ref w.db)) [
      | inl (none_left, h) ↦ inr (inl (rw (e, h) refl, none_left))
      | inr (row, h, l) ↦ inl (row, rw (e, h) refl, l)
    ]
  ]

pub account_type_of-text :
    (t : AccountType) → is_valid_account t ≡ true → account_type_of (account_type_text t) ≡ t
unfolding account_type_of is_valid_account
account_type_of-text spot h = refl
account_type_of-text funding h = refl
account_type_of-text unified h = refl
account_type_of-text margin h = refl
account_type_of-text (AccountType.unknown s) h = absurd (cc)

-- The two statuses that a checkpoint is given.
abbrev pub IsKnownStatus : CheckpointStatus → Type 0
IsKnownStatus s = (s ≡ status_ok) ⊎ (s ≡ status_failed)

checkpoint_status_of-text :
    (s : CheckpointStatus) → IsKnownStatus s → checkpoint_status_of (checkpoint_status_text s) ≡ s
unfolding checkpoint_status_of
checkpoint_status_of-text s (inl e) = rw e refl
checkpoint_status_of-text s (inr e) = rw e refl

abbrev pub stored_at : Checkpoint → ℕ → CheckpointRow
stored_at c now = record (checkpoint_row c) { created_at = now }

checkpoint_of-row :
    (c : Checkpoint) (now : ℕ)
    → is_valid_account c.account.type ≡ true
    → IsKnownStatus c.status
    → FitsInt32 c.balance_count
    → checkpoint_of (stored_at c now) ≡ record c { taken_at = micros c.taken_at }
checkpoint_of-row c now valid known fits =
    rw
      (
        account_type_of-text c.account.type valid,
        checkpoint_status_of-text c.status known,
        (int32_exact c.balance_count).1 fits,
      )
      refl

keep-snoc :
    (p : CheckpointRow → Bool) (xs : List CheckpointRow) (x : CheckpointRow)
    → p x ≡ true
    → keep p (xs ++ x ∷ []) ≡ keep p xs ++ x ∷ []
unfolding keep
keep-snoc p [] x h = rw h refl
keep-snoc p (y ∷ ys) x h = ground (arith, keep-snoc p ys x)

later_than :
    (c : Checkpoint) (now : ℕ) (xs : List CheckpointRow)
    → All (λ x. x.taken_at < micros c.taken_at) xs
    → All (λ x. taken_later (stored_at c now) x ≡ true) xs
later_than c now [] h = tt
later_than c now (x ∷ xs) h = let lt = h.0 in (ground arith, later_than c now xs h.1)

module _ {D : Type 0} where
  recorded :
      (row : CheckpointRow) (w u : Session D)
      → record_snapshot_row row w ≡ (ok tt, u)
      → u.db.checkpoints ≡ w.db.checkpoints ++ record row { created_at = w.now } ∷ []
  unfolding record_snapshot_row autocommit
  recorded row w u h = ground arith

  -- The checkpoint that was recorded last is the one that `LastSnapshot` returns, its time cut to whole
  -- microseconds, if its type and status have names, its count fits 32 bits, and the stored times of the
  -- earlier ones of the account are before that.
  pub last_snapshot-record_snapshot :
      (c : Checkpoint) (w u : Session D)
      → record_snapshot c w ≡ (ok tt, u)
      → fault_of u.faults ≡ fine
      → is_valid_account c.account.type ≡ true
      → IsKnownStatus c.status
      → FitsInt32 c.balance_count
      → All (λ x. x.taken_at < micros c.taken_at) (checkpoints_of c.account w.db)
      → (last_snapshot c.account u).0 ≡ ok (record c { taken_at = micros c.taken_at })
  unfolding record_snapshot last_snapshot last_snapshot_row ◌>>=◌ statement
  last_snapshot-record_snapshot c w u h ready valid known fits earlier =
      let rows = recorded (checkpoint_row c) w u h in
      let kept =
        ap (keep (of_account c.account.venue (account_type_text c.account.type))) rows
        ∙ keep-snoc _ w.db.checkpoints (stored_at c w.now)
            (rw (eq_refl c.account.venue, eq_refl (account_type_text c.account.type)) refl) in
      rw (ready, kept, latest-snoc _ (stored_at c w.now) (later_than c w.now _ earlier))
        (ap ok (checkpoint_of-row c w.now valid known fits))
