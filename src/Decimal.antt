-- ===== src/Decimal.antt =====
-- The exact decimals of github.com/shopspring/decimal, which the accounting code computes with. The
-- package is not part of the repository, so its operations are a parameter, with the documented
-- laws that the code relies on: the decimals are an ordered abelian group. A value stands for the
-- number: `1.0` and `1.00` are one value here, as they are for `Equal` and `Cmp`.
pub mod Laws
pub mod Order
pub mod Integers
use delta_works.Base.{◌≡◌, ◌↔◌, Bool, true, false, if◌then◌else◌}

-- What `Sign` returns: -1, 0 or 1.
pub data Sign : Type 0 where
  minus naught plus : Sign

abbrev pub flip : Sign → Sign
flip minus = plus
flip naught = naught
flip plus = minus

abbrev pub is_minus : Sign → Bool
is_minus minus = true
is_minus _ = false

abbrev pub is_naught : Sign → Bool
is_naught naught = true
is_naught _ = false

abbrev pub is_plus : Sign → Bool
is_plus plus = true
is_plus _ = false

-- The operations, and the laws of an ordered abelian group. `Mul` and `Div` (which rounds) have none
-- here: a theorem that needs one names it as a hypothesis.
pub record Decimals (D : Type 0) : Type 0 where
  pub zero_value : D
  pub add_values : D → D → D
  pub sub_values : D → D → D
  pub mul_values : D → D → D
  pub div_values : D → D → D
  pub sign_of : D → Sign
  pub add_assoc : (a b c : D) → add_values (add_values a b) c ≡ add_values a (add_values b c)
  pub add_comm : (a b : D) → add_values a b ≡ add_values b a
  pub add_zero : (a : D) → add_values a zero_value ≡ a
  pub sub_add : (a b : D) → add_values (sub_values a b) b ≡ a
  pub sign_naught : (a : D) → (sign_of a ≡ naught) ↔ (a ≡ zero_value)
  pub sign_flip : (a b : D) → sign_of (sub_values b a) ≡ flip (sign_of (sub_values a b))
  pub sign_add : (a b : D) → sign_of a ≡ plus → sign_of b ≡ plus → sign_of (add_values a b) ≡ plus

-- `decimal.Zero` and the methods, by the names that the code calls.
module _ {D : Type 0} ⦃dec : Decimals D⦄ where
  abbrev pub zero_decimal : D
  zero_decimal = dec.zero_value

  abbrev pub add : D → D → D
  add = dec.add_values

  abbrev pub sub : D → D → D
  sub = dec.sub_values

  abbrev pub mul : D → D → D
  mul = dec.mul_values

  abbrev pub div : D → D → D
  div = dec.div_values

  abbrev pub sign : D → Sign
  sign = dec.sign_of

  abbrev pub is_positive : D → Bool
  is_positive d = is_plus (sign d)

  abbrev pub is_negative : D → Bool
  is_negative d = is_minus (sign d)

  abbrev pub is_zero : D → Bool
  is_zero d = is_naught (sign d)

  abbrev pub equal : D → D → Bool
  equal a b = is_zero (sub a b)

  -- `decimal.Min` of two values keeps the first unless the second is smaller.
  abbrev pub min : D → D → D
  min a b = if is_negative (sub b a) then b else a
