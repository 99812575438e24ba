-- ===== src/Decimal/Order.antt =====
-- The order of decimals, by the sign of a difference.
use delta_works.Base.{◌≡◌, refl, sym, ap, ◌∙◌, ◌⊎◌, inl, inr, true, false, arith, if◌then◌else◌}
use delta_works.Decimal.{
  Decimals, Sign, minus, naught, plus, add, sub, sign, min, is_positive, is_negative,
}
use delta_works.Decimal.Laws.{sub_trans, sub_self, zero-add}

pub Sign-cases : (s : Sign) → (s ≡ minus) ⊎ ((s ≡ naught) ⊎ (s ≡ plus))
Sign-cases minus = inl refl
Sign-cases naught = inr (inl refl)
Sign-cases plus = inr (inr refl)

pub sign-zero : {D : Type 0} (dec : Decimals D) → dec.sign_of dec.zero_value ≡ naught
sign-zero dec = (dec.sign_naught dec.zero_value).1 refl

module _ {D : Type 0} ⦃dec : Decimals D⦄ where
  -- a ≤ b
  abbrev pub AtMost : D → D → Type 0
  AtMost a b = is_positive (sub a b) ≡ false

  pub sign-sub_self : (a : D) → sign (sub a a) ≡ naught
  sign-sub_self a = (dec.sign_naught _).1 (sub_self a)

  pub sub_naught : (a b : D) → sign (sub a b) ≡ naught → a ≡ b
  sub_naught a b h =
      sym (dec.sub_add a b) ∙ ap (λ x. add x b) ((dec.sign_naught _).0 h) ∙ zero-add b

  pub AtMost-refl : (a : D) → AtMost a a
  AtMost-refl a = ground (arith, sign-sub_self a)

  pub AtMost-antisymm : (a b : D) → AtMost a b → AtMost b a → a ≡ b
  AtMost-antisymm a b h k = sub_naught a b (ground (arith, dec.sign_flip a b))

  pub AtMost-total : (a b : D) → AtMost a b ⊎ AtMost b a
  AtMost-total a b = ground (arith, dec.sign_flip a b)

  pub less_trans :
      (a b c : D) → sign (sub b a) ≡ plus → sign (sub c b) ≡ plus → sign (sub c a) ≡ plus
  less_trans a b c h k = rw sub_trans at (dec.sign_add _ _ k h)

  pub AtMost-less : (a b c : D) → AtMost a b → sign (sub c b) ≡ plus → sign (sub c a) ≡ plus
  AtMost-less a b c h k = ground (arith, dec.sign_flip a b, sub_naught a b, less_trans a b c)

  pub AtMost-trans : (a b c : D) → AtMost a b → AtMost b c → AtMost a c
  AtMost-trans a b c h k =
      ground (arith, dec.sign_flip a c, dec.sign_flip b c, dec.sign_flip a b, AtMost-less b c a)

  -- The larger of two values.
  abbrev pub max : D → D → D
  max a b = if is_positive (sub b a) then b else a

  pub max_comm : (a b : D) → max a b ≡ max b a
  max_comm a b = ground (arith, dec.sign_flip a b, sub_naught a b)

  pub max_assoc : (a b c : D) → max (max a b) c ≡ max a (max b c)
  max_assoc a b c = ground (
    arith,
    dec.sign_flip a b,
    dec.sign_flip b c,
    dec.sign_flip a c,
    less_trans a b c,
    AtMost-trans c b a,
  )

  pub max_upper : (a b : D) → AtMost a (max a b) × AtMost b (max a b)
  max_upper a b = ground (arith, dec.sign_flip a b, AtMost-refl a, AtMost-refl b)

  pub min-AtMost : (a b : D) → AtMost (min a b) a × AtMost (min a b) b
  min-AtMost a b = ground (arith, dec.sign_flip a b, AtMost-refl a, AtMost-refl b)

  pub min_positive :
      (a b : D) → is_positive a ≡ true → is_positive b ≡ true → is_positive (min a b) ≡ true
  min_positive a b h k = ground arith

  pub add_positive :
      (a b : D) → is_positive a ≡ true → is_positive b ≡ true → is_positive (add a b) ≡ true
  add_positive a b h k = ground (arith, dec.sign_add a b)

  pub add_nonneg :
      (a b : D) → is_negative a ≡ false → is_negative b ≡ false → is_negative (add a b) ≡ false
  add_nonneg a b h k =
      ground
        (arith, dec.sign_add a b, dec.sign_naught a, dec.sign_naught b, dec.add_zero a, zero-add b)
