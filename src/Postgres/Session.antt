-- ===== src/Postgres/Session.antt =====
-- What runs against the database. A statement may fail, by a fault that the environment chooses or by
-- a constraint; a transaction keeps all of its writes or none. Identity columns count on even when a
-- transaction is rolled back, as in Postgres. `now()` is fixed while a transaction runs.
pub mod Laws
pub mod Keeps
pub mod Commits
use delta_works.Base.{
  ℕ, suc, Bool, true, false, List, [], ◌∷◌, Option, none, some, String, ◌≡◌, refl, arith,
  if◌then◌else◌, ◌⊎◌, inl, inr, ◌++◌, All,
}
use delta_works.Errors.{Result, ok, err, Error, other}
use delta_works.Domain.Order.{Time}
use delta_works.Postgres.Schema.{Db, OutboxMessage}

-- What happens to one statement: it runs, it is refused, or it runs and its reply is lost.
pub data Fault : Type 0 where
  fine refused reply_lost : Fault

pub record Session (D : Type 0) : Type 0 where
  pub db : Db D
  pub next_transition_id : ℕ
  pub next_fill_id : ℕ
  pub next_outbox_id : ℕ
  pub new_id : ℕ → String  -- what the calls of `id.New` return, in order
  pub ids_taken : ℕ
  pub now : Time
  pub faults : List Fault
  pub delivered : List (OutboxMessage D)  -- what was handed to the event bus, which no rollback undoes

abbrev pub Tx : Type 0 → Type 0 → Type 0
Tx D A = Session D → Result A × Session D

module _ {D A : Type 0} where
  abbrev pub pure : A → Tx D A
  pure a w = (ok a, w)

  abbrev pub raise : Error → Tx D A
  raise e w = (err e, w)

  -- A call whose error the caller inspects.
  abbrev pub attempt : Tx D A → Tx D (Result A)
  attempt m w = let (r, w') = m w in (ok r, w')

module _ {D A B : Type 0} where
  abbrev pub continue : Result A → (A → Tx D B) → Tx D B
  continue (ok a) f w = f a w
  continue (err e) f w = (err e, w)

  infixl 5 ◌>>=◌ ◌>>◌
  unfoldable pub ◌>>=◌ : Tx D A → (A → Tx D B) → Tx D B
  ◌>>=◌ m f w = let (r, w') = m w in continue r f w'

  abbrev pub ◌>>◌ : Tx D A → Tx D B → Tx D B
  m >> n = m >>= λ _. n

abbrev pub db_error : Error
db_error = other "postgres" ∷ []

-- The next fault of the environment; none left means that nothing goes wrong.
abbrev pub fault_of : List Fault → Fault
fault_of [] = fine
fault_of (f ∷ fs) = f

abbrev pub later_faults : List Fault → List Fault
later_faults [] = []
later_faults (f ∷ fs) = fs

abbrev pub is_fine : Fault → Bool
is_fine fine = true
is_fine _ = false

module _ {D : Type 0} where
  -- A statement inside a transaction: any fault is an error.
  unfoldable pub statement : {A : Type 0} → Tx D A → Tx D A
  statement m w =
      let w' = record w { faults = later_faults w.faults } in
      if is_fine (fault_of w.faults) then m w' else (err db_error, w')

  abbrev pub under_fault : {A : Type 0} → Fault → Tx D A → Tx D A
  under_fault fine m w = m w
  under_fault refused m w = (err db_error, w)
  under_fault reply_lost m w = (err db_error, (m w).1)

  -- A statement on its own, which commits what it wrote even if its reply is lost.
  unfoldable pub autocommit : {A : Type 0} → Tx D A → Tx D A
  autocommit m w = under_fault (fault_of w.faults) m (record w { faults = later_faults w.faults })

  abbrev pub rolled_back : Db D → Session D → Session D
  rolled_back db w = record w { db = db }

  -- COMMIT: when its reply is lost, the writes stay and the caller sees an error.
  abbrev pub commit : {A : Type 0} → Db D → A → Tx D A
  commit before a w =
      let w' = record w { faults = later_faults w.faults } in
      elim (fault_of w.faults) [
        | fine ↦ (ok a, w')
        | refused ↦ (err db_error, rolled_back before w')
        | reply_lost ↦ (err db_error, w')
      ]

  -- The body says beside its result whether it commits; any other way out is the deferred rollback.
  abbrev pub finish : {A : Type 0} → Db D → Result (A × Bool) → Tx D A
  finish before (ok (a, true)) w = commit before a w
  finish before (ok (a, false)) w = (ok a, rolled_back before w)
  finish before (err e) w = (err e, rolled_back before w)

  unfoldable pub transaction : {A : Type 0} → Tx D (A × Bool) → Tx D A
  unfolding statement ◌>>=◌
  transaction body = statement (pure tt) >>= λ _. λ w. let (r, w') = body w in finish w.db r w'
