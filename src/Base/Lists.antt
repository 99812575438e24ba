-- ===== src/Base/Lists.antt =====
-- Lists measured by native numbers, under the library's names, and predicates on all items.
use Prim.Native.Nat.{ℕ, zero, suc, ◌+◌, min}
use mathlib.Core.Path.{◌≡◌}
use mathlib.Core.Bool.{Bool, true, false}
use mathlib.Core.List.{List, [], ◌∷◌, ◌++◌, map}
use mathlib.Core.Option.{Option, none, some}
use mathlib.Core.Path.{subst}
use mathlib.Core.Logic.{inl, inr}
use mathlib.Core.Option.{some-injective}
use native.Mathlib.Omega.{arith}
use delta_works.Base.Tests.{if◌then◌else◌, Bool-cases}

module _ {ℓ} {A : Type ℓ} where
  abbrev pub length : List A → ℕ
  length [] = 0
  length (x ∷ xs) = suc (length xs)

  abbrev pub take : ℕ → List A → List A
  take zero xs = []
  take (suc n) [] = []
  take (suc n) (x ∷ xs) = x ∷ take n xs

  -- The items that pass a test, in order.
  unfoldable pub keep : (A → Bool) → List A → List A
  keep p [] = []
  keep p (x ∷ xs) = let rest = keep p xs in if p x then x ∷ rest else rest

  -- The first item that passes a test.
  unfoldable pub find : (A → Bool) → List A → Option A
  find p [] = none
  find p (x ∷ xs) = let rest = find p xs in if p x then some x else rest

  unfoldable pub any : (A → Bool) → List A → Bool
  any p [] = false
  any p (x ∷ xs) = let rest = any p xs in if p x then true else rest

  pub length-append : (xs ys : List A) → length (xs ++ ys) ≡ length xs + length ys
  length-append [] ys = omega arith
  length-append (x ∷ xs) ys = omega (arith, length-append xs ys)

  pub length-take : (n : ℕ) (xs : List A) → length (take n xs) ≡ min n (length xs)
  length-take zero xs = omega arith
  length-take (suc n) [] = omega arith
  length-take (suc n) (x ∷ xs) = omega (arith, length-take n xs)

module _ {ℓ κ} {A : Type ℓ} {B : Type κ} where
  pub length-map : (f : A → B) (xs : List A) → length (map f xs) ≡ length xs
  length-map f [] = omega arith
  length-map f (x ∷ xs) = omega (arith, length-map f xs)

module _ {ℓ κ} {A : Type ℓ} (P : A → Type κ) where
  -- Every row of a table has the property.
  abbrev pub All : List A → Type κ
  All [] = Unit
  All (row ∷ rows) = P row × All rows

-- `UPDATE ... WHERE`: the rows that pass the test are changed.
unfoldable pub update_where {ℓ} : {A : Type ℓ} → (A → Bool) → (A → A) → List A → List A
update_where p f [] = []
update_where p f (x ∷ xs) = (if p x then f x else x) ∷ update_where p f xs

module _ {ℓ κ} {A : Type ℓ} (P : A → Type κ) where
  pub All-find :
      (p : A → Bool) (xs : List A) {x : A} → find p xs ≡ some x → All P xs → P x × (p x ≡ true)
  unfolding find
  All-find p [] h k = absurd (cc)
  All-find p (y ∷ ys) h k = elim (Bool-cases (p y)) [
    | inl e ↦ let s = some-injective _ _ (rw e at h) in (subst P s k.0, subst (λ z. p z ≡ true) s e)
    | inr e ↦ All-find p ys (rw e at h) k.1
  ]

  pub All-update_where :
      (p : A → Bool) (f : A → A) (xs : List A)
      → ((x : A) → p x ≡ true → P x → P (f x))
      → All P xs
      → All P (update_where p f xs)
  unfolding update_where
  All-update_where p f [] h k = tt
  All-update_where p f (x ∷ xs) h k = (
    elim (Bool-cases (p x)) [ inl e ↦ rw e (h x e k.0) | inr e ↦ rw e k.0 ],
    All-update_where p f xs h k.1,
  )

  pub All-map_where : {B : A → Type κ} (xs : List A) → ((x : A) → B x → P x) → All B xs → All P xs
  All-map_where [] h k = tt
  All-map_where (x ∷ xs) h k = (h x k.0, All-map_where xs h k.1)

module _ {ℓ κ} {A : Type ℓ} (P : A → Type κ) where
  pub All-append : (xs ys : List A) → All P xs → All P ys → All P (xs ++ ys)
  All-append [] ys h k = k
  All-append (x ∷ xs) ys h k = (h.0, All-append xs ys h.1 k)

  pub All-snoc : (xs : List A) (x : A) → All P xs → P x → All P (xs ++ x ∷ [])
  All-snoc [] x h k = (k, tt)
  All-snoc (y ∷ ys) x h k = (h.0, All-snoc ys x h.1 k)

  -- What no item of a list has.
  pub All-not_any :
      (p : A → Bool) (xs : List A) → any p xs ≡ false → ((x : A) → p x ≡ false → P x) → All P xs
  unfolding any
  All-not_any p [] h k = tt
  All-not_any p (x ∷ xs) h k = elim (Bool-cases (p x)) [
    | inl e ↦ absurd (cc (h, e))
    | inr e ↦ (k x e, All-not_any p xs (rw e at h) k)
  ]
