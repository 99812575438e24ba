-- ===== src/Postgres/Session/Commits.antt =====
-- What a body of a transaction leaves when it returns a value, and so what the transaction leaves.
use delta_works.Base.{◌≡◌, ap, Bool, true, false, if◌then◌else◌, inl, inr}
use delta_works.Errors.{ok, Error}
use delta_works.Postgres.Schema.{Db}
use delta_works.Postgres.Session.{Session, Tx, pure, raise, ◌>>=◌, transaction}
use delta_works.Postgres.Session.Keeps.{Keeps}
use delta_works.Postgres.Session.Laws.{bind_ok, transaction_any, Preserves, begun}

-- A call that leaves the property of the tables as it was if it returns a value. In between, and where
-- it fails, the property may not hold.
pub record Commits {D A : Type 0} (P : Db D → Type 0) (m : Tx D A) : Type 0 where
  pub at : (w u : Session D) (a : A) → m w ≡ (ok a, u) → P w.db → P u.db

module _ {D A : Type 0} {P : Db D → Type 0} where
  pub Commits-pure : (a : A) → Commits P (pure a)
  Commits-pure a = record {
    at = λ w u b h p. let e : w.db ≡ u.db = ap (λ x. x.1.db) h in rw e at p;
  }

  pub Commits-raise : (e : Error) → Commits {A = A} P (raise e)
  Commits-raise e = record { at = λ w u b h p. absurd (cc) }

  pub Commits-if :
      (b : Bool) (m n : Tx D A) → Commits P m → Commits P n → Commits P (if b then m else n)
  Commits-if true m n p q = p
  Commits-if false m n p q = q

  pub Commits-Keeps : (m : Tx D A) → Keeps (λ w. P w.db) m → Commits P m
  Commits-Keeps m k = record {
    at = λ w u a h p. let e : (m w).1.db ≡ u.db = ap (λ x. x.1.db) h in rw e at (k.at w p);
  }

  -- A transaction keeps what its body commits, whether it returns or fails.
  pub transaction-Keeps :
      (body : Tx D (A × Bool)) → Commits P body → Keeps (λ w. P w.db) (transaction body)
  transaction-Keeps body c = record {
    at = λ w p. elim (transaction_any body w) [
      | inl e ↦ rw e p
      | inr (_, inl e) ↦ rw e p
      | inr (_, inr (a, r, e)) ↦
          rw e (c.at (begun w) (body (begun w)).1 (a, true) (ap (λ x. (x, (body (begun w)).1)) r) p)
    ];
  }

module _ {D A B : Type 0} {P : Db D → Type 0} where
  pub Commits-bind :
      (m : Tx D A) (f : A → Tx D B)
      → Commits P m
      → ((a : A) → Commits P (f a))
      → Commits P (m >>= f)
  Commits-bind m f p q = record {
    at = λ w u b h k. let (a, v, e, g) = bind_ok m f w h in (q a).at v u b g (p.at w v a e k);
  }

-- A property of some part of the tables that a call does not touch.
module _ {D A X : Type 0} (f : Db D → X) (P : X → Type 0) where
  pub Commits-Preserves : (m : Tx D A) → Preserves f m → Commits (λ db. P (f db)) m
  Commits-Preserves m k = record {
    at = λ w u a h p. let e : (m w).1.db ≡ u.db = ap (λ x. x.1.db) h in rw (← e, k.at w) p;
  }

pub ruleset commits_rules = (Commits-pure, Commits-raise, Commits-if, Commits-bind)
