-- ===== src/Postgres/Session/Keeps.antt =====
-- Invariants of a session through the calls that a service makes.
use delta_works.Base.{List, ◌≡◌, refl, ◌∙◌, Bool, true, false, if◌then◌else◌}
use delta_works.Errors.{Result, ok, err, Error}
use delta_works.Postgres.Session.{
  Session, Tx, Fault, pure, raise, continue, ◌>>=◌, attempt, autocommit, under_fault, fault_of,
  fine, refused, reply_lost,
}

-- A call that leaves the property as it was, whatever it returns.
pub record Keeps {D A : Type 0} (P : Session D → Type 0) (m : Tx D A) : Type 0 where
  pub at : (w : Session D) → P w → P (m w).1

module _ {D A : Type 0} {P : Session D → Type 0} where
  pub Keeps-pure : (a : A) → Keeps P (pure a)
  Keeps-pure a = record { at = λ w h. h }

  pub Keeps-raise : (e : Error) → Keeps {A = A} P (raise e)
  Keeps-raise e = record { at = λ w h. h }

  pub Keeps-attempt : (m : Tx D A) → Keeps P m → Keeps P (attempt m)
  Keeps-attempt m k = record { at = k.at }

  pub Keeps-if : (b : Bool) (m n : Tx D A) → Keeps P m → Keeps P n → Keeps P (if b then m else n)
  Keeps-if true m n p q = p
  Keeps-if false m n p q = q

module _ {D A B : Type 0} {P : Session D → Type 0} where
  Keeps-continue :
      (g : A → Tx D B)
      → ((a : A) → Keeps P (g a))
      → (r : Result A) (w : Session D) → P w
      → P (continue r g w).1
  Keeps-continue g q (ok a) w h = (q a).at w h
  Keeps-continue g q (err e) w h = h

  pub Keeps-bind :
      (m : Tx D A) (g : A → Tx D B) → Keeps P m → ((a : A) → Keeps P (g a)) → Keeps P (m >>= g)
  unfolding ◌>>=◌
  Keeps-bind m g p q = record { at = λ w h. Keeps-continue g q (m w).0 (m w).1 (p.at w h) }

-- A call that leaves the tables as they were, whatever it returns.
abbrev pub LeavesDb : {D A : Type 0} → Tx D A → Type 0
LeavesDb m = (w : Session _) → (m w).1.db ≡ w.db

-- What depends on the tables alone, such a call keeps.
module _ {D : Type 0} (P : Session D → Type 0)
    (same : (w u : Session D) → u.db ≡ w.db → P w → P u) where
  pub Keeps-LeavesDb : {A : Type 0} (m : Tx D A) → LeavesDb m → Keeps P m
  Keeps-LeavesDb m e = record { at = λ w h. same w (m w).1 (e w) h }

module _ {D : Type 0} (P : Session D → Type 0)
    (later : (w : Session D) (fs : List Fault) → P w → P (record w { faults = fs })) where
  Keeps-under_fault : {A : Type 0} (f : Fault) (m : Tx D A) → Keeps P m → Keeps P (under_fault f m)
  Keeps-under_fault fine m k = record { at = k.at }
  Keeps-under_fault refused m k = record { at = λ w h. h }
  Keeps-under_fault reply_lost m k = record { at = k.at }

  pub Keeps-autocommit : {A : Type 0} (m : Tx D A) → Keeps P m → Keeps P (autocommit m)
  unfolding autocommit
  Keeps-autocommit m k = record {
    at = λ w h. (Keeps-under_fault (fault_of w.faults) m k).at _ (later w _ h);
  }

module _ {D A B : Type 0} where
  continue-LeavesDb :
      (g : A → Tx D B) → ((a : A) → LeavesDb (g a)) → (r : Result A) → LeavesDb (continue r g)
  continue-LeavesDb g q (ok a) w = q a w
  continue-LeavesDb g q (err e) w = refl

  pub bind-LeavesDb :
      (m : Tx D A) (g : A → Tx D B) → LeavesDb m → ((a : A) → LeavesDb (g a)) → LeavesDb (m >>= g)
  unfolding ◌>>=◌
  bind-LeavesDb m g p q w = continue-LeavesDb g q (m w).0 (m w).1 ∙ p w

pub ruleset keeps_rules = (Keeps-pure, Keeps-raise, Keeps-attempt, Keeps-if, Keeps-bind)
