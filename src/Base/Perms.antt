-- ===== src/Base/Perms.antt =====
-- Permutations of a list: a commuting fold and a predicate of every item do not see the order.
use mathlib.Core.Path.{◌≡◌, refl, ap, ap₂, ◌∙◌, subst}
use mathlib.Core.List.{List, Permᴰ, foldl}
use delta_works.Base.Lists.{All}

module _ {ℓ κ} {A : Type ℓ} {B : Type κ} (g : B → A → B) where
  pub foldl-perm :
      ((b : B) (x y : A) → g (g b x) y ≡ g (g b y) x)
      → (b : B) {xs ys : List A} → Permᴰ xs ys
      → foldl g b xs ≡ foldl g b ys
  foldl-perm comm b Permᴰ.nil = refl
  foldl-perm comm b (Permᴰ.cons {l₂ = ys} e p) =
      foldl-perm comm (g b _) p ∙ ap (λ x. foldl g (g b x) ys) e
  foldl-perm comm b (Permᴰ.swap {l = l} e d) =
      ap (λ c. foldl g c l) (comm b _ _ ∙ ap₂ (λ x y. g (g b x) y) d e)
  foldl-perm comm b (Permᴰ.trans p q) = foldl-perm comm b p ∙ foldl-perm comm b q

pub All-perm {ℓ κ} :
    {A : Type ℓ} (P : A → Type κ) {xs ys : List A} → Permᴰ xs ys → All P xs → All P ys
All-perm P Permᴰ.nil h = h
All-perm P (Permᴰ.cons e p) h = (subst P e h.0, All-perm P p h.1)
All-perm P (Permᴰ.swap e d) h = (subst P d h.1.0, (subst P e h.0, h.1.1))
All-perm P (Permᴰ.trans p q) h = All-perm P q (All-perm P p h)
