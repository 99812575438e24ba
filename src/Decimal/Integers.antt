-- ===== src/Decimal/Integers.antt =====
-- Whole numbers are decimals: an instance of the interface, at which the theorems are applied. Its
-- ℤ stands on the native numbers; `negsuc n` is -(n + 1).
use delta_works.Base.{ℕ, zero, suc, ◌+◌, ◌-◌, ◌*◌, ◌/◌, ◌≡◌, refl, ◌↔◌, arith, leb, if◌then◌else◌}
use delta_works.Decimal.{Decimals, Sign, minus, naught, plus, flip}

pub data ℤ : Type 0 where
  pos : ℕ → ℤ
  negsuc : ℕ → ℤ

abbrev pos_part : ℤ → ℕ
pos_part (pos n) = n
pos_part (negsuc n) = 0

abbrev neg_part : ℤ → ℕ
neg_part (pos n) = 0
neg_part (negsuc n) = suc n

-- a - b, as an integer.
abbrev sub_ℕ : ℕ → ℕ → ℤ
sub_ℕ a b = if leb b a then pos (a - b) else negsuc (b - a - 1)

unfoldable pub ◌+ℤ◌ : ℤ → ℤ → ℤ
◌+ℤ◌ a b = sub_ℕ (pos_part a + pos_part b) (neg_part a + neg_part b)

unfoldable pub ◌-ℤ◌ : ℤ → ℤ → ℤ
◌-ℤ◌ a b = sub_ℕ (pos_part a + neg_part b) (neg_part a + pos_part b)

unfoldable pub ◌*ℤ◌ : ℤ → ℤ → ℤ
◌*ℤ◌ a b =
    sub_ℕ (pos_part a * pos_part b + neg_part a * neg_part b)
      (pos_part a * neg_part b + neg_part a * pos_part b)

-- The quotient of two values that are not negative, the only ones that the code divides.
unfoldable pub ◌/ℤ◌ : ℤ → ℤ → ℤ
◌/ℤ◌ a b = pos (pos_part a / pos_part b)

unfoldable pub sign : ℤ → Sign
sign (pos zero) = naught
sign (pos (suc n)) = plus
sign (negsuc n) = minus

pub add_assoc : (a b c : ℤ) → ◌+ℤ◌ (◌+ℤ◌ a b) c ≡ ◌+ℤ◌ a (◌+ℤ◌ b c)
unfolding ◌+ℤ◌
add_assoc a b c = ground arith

pub add_comm : (a b : ℤ) → ◌+ℤ◌ a b ≡ ◌+ℤ◌ b a
unfolding ◌+ℤ◌
add_comm a b = ground arith

pub add_zero : (a : ℤ) → ◌+ℤ◌ a (pos 0) ≡ a
unfolding ◌+ℤ◌
add_zero a = ground arith

pub sub_add : (a b : ℤ) → ◌+ℤ◌ (◌-ℤ◌ a b) b ≡ a
unfolding ◌+ℤ◌ ◌-ℤ◌
sub_add a b = ground arith

pub sign_naught : (a : ℤ) → (sign a ≡ naught) ↔ (a ≡ pos 0)
unfolding sign
sign_naught (pos zero) = (λ _. refl, λ _. refl)
sign_naught (pos (suc n)) = (λ h. ground arith, λ h. ground arith)
sign_naught (negsuc n) = (λ h. ground arith, λ h. ground arith)

pub sign-flip : (a b : ℤ) → sign (◌-ℤ◌ b a) ≡ flip (sign (◌-ℤ◌ a b))
unfolding sign ◌-ℤ◌
sign-flip a b = ground arith

pub sign_add : (a b : ℤ) → sign a ≡ plus → sign b ≡ plus → sign (◌+ℤ◌ a b) ≡ plus
unfolding sign ◌+ℤ◌
sign_add a b h k = ground arith

instance abbrev pub integers : Decimals ℤ
integers = record {
  zero_value = pos 0;
  add_values = ◌+ℤ◌;
  sub_values = ◌-ℤ◌;
  mul_values = ◌*ℤ◌;
  div_values = ◌/ℤ◌;
  sign_of = sign;
  add_assoc = add_assoc;
  add_comm = add_comm;
  add_zero = add_zero;
  sub_add = sub_add;
  sign_naught = sign_naught;
  sign_flip = sign-flip;
  sign_add = sign_add;
}
