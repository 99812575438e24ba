-- ===== src/Postgres/Session/Laws.antt =====
-- Inversion of a run that returns a value, and what actions leave alone whatever happens.
use delta_works.Base.{
  ◌≡◌, refl, sym, ap, ◌∙◌, Bool, true, false, arith, if◌then◌else◌, ◌⊎◌, inl, inr, Bool-cases,
}
use delta_works.Errors.{Result, ok, err, Error}
use delta_works.Postgres.Schema.{Db}
use delta_works.Postgres.Session.{
  Session, Tx, pure, raise, continue, ◌>>=◌, statement, transaction, fault_of, later_faults,
  is_fine, db_error, finish, fine, refused, reply_lost, Fault,
}

module _ {D A B : Type 0} where
  continue_ok :
      (f : A → Tx D B) (r : Result A) (w : Session D) {b : B} {u : Session D}
      → continue r f w ≡ (ok b, u)
      → (a : A) × (r ≡ ok a) × (f a w ≡ (ok b, u))
  continue_ok f (ok a) w h = (a, refl, h)
  continue_ok f (err e) w h = cc

  -- A sequence returns a value only if both parts do.
  pub bind_ok :
      (m : Tx D A) (f : A → Tx D B) (w : Session D) {b : B} {u : Session D}
      → (m >>= f) w ≡ (ok b, u)
      → (a : A) × (v : Session D) × (m w ≡ (ok a, v)) × (f a v ≡ (ok b, u))
  unfolding ◌>>=◌
  bind_ok m f w h =
      let (a, e, k) = continue_ok f (m w).0 (m w).1 h in (a, (m w).1, λ i. (e i, (m w).1), k)

module _ {D A : Type 0} where
  -- A statement that returns a value was not at fault.
  pub statement_ok :
      (m : Tx D A) (w : Session D) {a : A} {u : Session D}
      → statement m w ≡ (ok a, u)
      → m (record w { faults = later_faults w.faults }) ≡ (ok a, u)
  unfolding statement
  statement_ok m w h = elim (Bool-cases (is_fine (fault_of w.faults))) [
    | inl e ↦ rw e at h
    | inr e ↦ absurd (impossible (rw e at h))
  ]
    where
      impossible :
          {x y : Session D} {a : A} → ◌≡◌ {A = Result A × Session D} (err db_error, x) (ok a, y) → ⊥
      impossible p = cc

-- `f` of the database is the same after `m`, whether it returns or fails.
pub record Preserves {D A X : Type 0} (f : Db D → X) (m : Tx D A) : Type 0 where
  pub at : (w : Session D) → f (m w).1.db ≡ f w.db

module _ {D A X : Type 0} {f : Db D → X} where
  pub Preserves-pure : (a : A) → Preserves f (pure {D = D} a)
  Preserves-pure a = record { at = λ w. refl }

  pub Preserves-raise : (e : Error) → Preserves f (raise {D = D} {A = A} e)
  Preserves-raise e = record { at = λ w. refl }

  pub Preserves-statement : (m : Tx D A) → Preserves f m → Preserves f (statement m)
  unfolding statement
  Preserves-statement m p = record {
    at = λ w. elim (Bool-cases (is_fine (fault_of w.faults))) [
      | inl e ↦ rw e (p.at (record w { faults = later_faults w.faults }))
      | inr e ↦ rw e
    ];
  }

  pub Preserves-if :
      (b : Bool) (m n : Tx D A) → Preserves f m → Preserves f n → Preserves f (if b then m else n)
  Preserves-if true m n p q = p
  Preserves-if false m n p q = q

module _ {D A B X : Type 0} {f : Db D → X} where
  Preserves-continue :
      (g : A → Tx D B)
      → ((a : A) → Preserves f (g a))
      → (r : Result A) (w : Session D) → f (continue r g w).1.db ≡ f w.db
  Preserves-continue g p (ok a) w = (p a).at w
  Preserves-continue g p (err e) w = refl

  pub Preserves-bind :
      (m : Tx D A) (g : A → Tx D B)
      → Preserves f m
      → ((a : A) → Preserves f (g a))
      → Preserves f (m >>= g)
  unfolding ◌>>=◌
  Preserves-bind m g p q = record { at = λ w. Preserves-continue g q (m w).0 (m w).1 ∙ p.at w }

pub ruleset preserves_rules =
    (Preserves-pure, Preserves-raise, Preserves-statement, Preserves-if, Preserves-bind)

Fault-cases : (f : Fault) → (f ≡ fine) ⊎ ((f ≡ refused) ⊎ (f ≡ reply_lost))
Fault-cases fine = inl refl
Fault-cases refused = inr (inl refl)
Fault-cases reply_lost = inr (inr refl)

-- The session once a transaction has begun.
abbrev pub begun : {D : Type 0} → Session D → Session D
begun w = record w { faults = later_faults w.faults }

module _ {D A : Type 0} where
  finish_ok :
      (before : Db D) (r : Result (A × Bool)) (v : Session D) {a : A} {u : Session D}
      → finish before r v ≡ (ok a, u)
      → (b : Bool) × (r ≡ ok (a, b)) × (u.db ≡ (if b then v.db else before))
  finish_ok before (ok (a, true)) v h = (true, ground arith, ground arith)
  finish_ok before (ok (a, false)) v h = (false, ground arith, ground arith)
  finish_ok before (err e) v h = absurd (ground arith)

  finish_err :
      (before : Db D) (r : Result (A × Bool)) (v : Session D) {e : Error} {u : Session D}
      → finish before r v ≡ (err e, u)
      → (u.db ≡ before)
        ⊎ ((a : A) × (r ≡ ok (a, true)) × (fault_of v.faults ≡ reply_lost) × (u.db ≡ v.db))
  finish_err before (ok (a, true)) v h = elim (Fault-cases (fault_of v.faults)) [
    | inl f ↦ absurd (ground arith)
    | inr (inl f) ↦ inl (ground arith)
    | inr (inr f) ↦ inr (a, refl, f, ground arith)
  ]
  finish_err before (ok (a, false)) v h = absurd (ground arith)
  finish_err before (err e) v h = inl (ground arith)

  -- A transaction that returns a value ran its body to a value, and kept the body's writes exactly if
  -- the body asked to commit.
  pub transaction_ok :
      (body : Tx D (A × Bool)) (w : Session D) {a : A} {u : Session D}
      → transaction body w ≡ (ok a, u)
      → (b : Bool) × (v : Session D) × (body (begun w) ≡ (ok (a, b), v))
        × (u.db ≡ (if b then v.db else w.db))
  unfolding transaction
  transaction_ok body w h = elim (Bool-cases (is_fine (fault_of w.faults))) [
    | inl e ↦
        let (b, r, k) = finish_ok w.db (body (begun w)).0 (body (begun w)).1 (rw e at h) in
        (b, (body (begun w)).1, (λ i. (r i, (body (begun w)).1)), k)
    | inr e ↦ absurd (not_begun (rw e at h))
  ]
    where
      not_begun :
          {x y : Session D} {a : A} → ◌≡◌ {A = Result A × Session D} (err db_error, x) (ok a, y) → ⊥
      not_begun p = cc

  -- A transaction that fails has changed nothing, unless the reply of its commit was lost: then the
  -- body had run to its end and all of its writes stay.
  pub transaction_err :
      (body : Tx D (A × Bool)) (w : Session D) {e : Error} {u : Session D}
      → transaction body w ≡ (err e, u)
      → (u.db ≡ w.db)
        ⊎ ((a : A) × (v : Session D) × (body (begun w) ≡ (ok (a, true), v))
            × (fault_of v.faults ≡ reply_lost)
            × (u.db ≡ v.db))
  unfolding transaction
  transaction_err body w h = elim (Bool-cases (is_fine (fault_of w.faults))) [
    | inl e ↦ elim (finish_err w.db (body (begun w)).0 (body (begun w)).1 (rw e at h)) [
      | inl k ↦ inl k
      | inr (a, r, f, k) ↦ inr (a, (body (begun w)).1, (λ i. (r i, (body (begun w)).1)), f, k)
    ]
    | inr e ↦ inl (not_begun (rw e at h))
  ]
    where
      not_begun :
          {u : Session D} {d e : Error}
          → ◌≡◌ {A = Result A × Session D} (err d, begun w) (err e, u)
          → u.db ≡ w.db
      not_begun p = ap (λ r. r.1.db) (sym p)

module _ {D A : Type 0} where
  -- How a session ends: what was delivered stays, and the tables are those of before, or those of a body
  -- that asked to commit.
  abbrev pub Ended : Db D → Result (A × Bool) → Session D → Session D → Type 0
  Ended before r v u =
      (u.delivered ≡ v.delivered)
      × ((u.db ≡ before) ⊎ ((a : A) × (r ≡ ok (a, true)) × (u.db ≡ v.db)))

  finish_any :
      (before : Db D) (r : Result (A × Bool)) (v : Session D)
      → Ended before r v (finish before r v).1
  finish_any before (ok (a, true)) v = elim (Fault-cases (fault_of v.faults)) [
    | inl f ↦ (ground arith, inr (a, refl, ground arith))
    | inr (inl f) ↦ (ground arith, inl (ground arith))
    | inr (inr f) ↦ (ground arith, inr (a, refl, ground arith))
  ]
  finish_any before (ok (a, false)) v = (refl, inl refl)
  finish_any before (err e) v = (refl, inl refl)

  pub transaction_any :
      (body : Tx D (A × Bool)) (w : Session D)
      → ((transaction body w).1 ≡ begun w)
        ⊎ Ended w.db (body (begun w)).0 (body (begun w)).1 (transaction body w).1
  unfolding transaction
  transaction_any body w = elim (Bool-cases (is_fine (fault_of w.faults))) [
    | inl e ↦ inr (rw e (finish_any w.db (body (begun w)).0 (body (begun w)).1))
    | inr e ↦ inl (rw e)
  ]
