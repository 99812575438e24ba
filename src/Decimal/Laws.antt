-- ===== src/Decimal/Laws.antt =====
-- The group laws of decimals that follow from those of the interface.
use delta_works.Base.{◌≡◌, refl, sym, ap, ◌∙◌}
use delta_works.Decimal.{Decimals, zero_decimal, add, sub}

module _ {D : Type 0} ⦃dec : Decimals D⦄ where
  pub zero-add : (a : D) → add zero_decimal a ≡ a
  zero-add a = dec.add_comm _ _ ∙ dec.add_zero a

  pub neg-add : (a : D) → add (sub zero_decimal a) a ≡ zero_decimal
  neg-add a = dec.sub_add _ _

  pub add-neg_cancel : (a b : D) → add (add a b) (sub zero_decimal b) ≡ a
  add-neg_cancel a b =
      dec.add_assoc _ _ _ ∙ ap (add a) (dec.add_comm _ _ ∙ dec.sub_add _ _) ∙ dec.add_zero a

  pub add_cancel : (a b c : D) → add a c ≡ add b c → a ≡ b
  add_cancel a b c h =
      sym (add-neg_cancel a c) ∙ ap (λ x. add x (sub zero_decimal c)) h ∙ add-neg_cancel b c

  pub sub_unique : (a b c : D) → add c b ≡ a → sub a b ≡ c
  sub_unique a b c h = add_cancel _ _ b (dec.sub_add a b ∙ sym h)

  pub sub_self : (a : D) → sub a a ≡ zero_decimal
  sub_self a = sub_unique a a zero_decimal (zero-add a)

  pub sub-zero : (a : D) → sub a zero_decimal ≡ a
  sub-zero a = sub_unique a zero_decimal a (dec.add_zero a)

  pub add-sub : (a b : D) → add a (sub b a) ≡ b
  add-sub a b = dec.add_comm _ _ ∙ dec.sub_add b a

  pub sub-add_right : (a b : D) → sub (add a b) b ≡ a
  sub-add_right a b = sub_unique _ _ _ refl

  pub add_left_comm : (a b c : D) → add a (add b c) ≡ add b (add a c)
  add_left_comm a b c =
      sym (dec.add_assoc a b c) ∙ ap (λ x. add x c) (dec.add_comm a b) ∙ dec.add_assoc b a c

  -- (a - b) + (b - c) = a - c
  pub sub_trans : (a b c : D) → add (sub a b) (sub b c) ≡ sub a c
  sub_trans a b c = sym (
      sub_unique a c _
        (dec.add_assoc _ _ _ ∙ ap (add (sub a b)) (dec.sub_add b c) ∙ dec.sub_add a b))

  pub sub-sub-add : (a b c : D) → sub (sub a b) c ≡ sub a (add b c)
  sub-sub-add a b c = sub_unique _ _ _ (
      sym (
        sub_unique a b _
          (dec.add_assoc _ _ _ ∙ ap (add _) (dec.add_comm c b) ∙ dec.sub_add a (add b c))))

  -- c - (a - b) = (b + c) - a
  pub sub-sub_right : (a b c : D) → sub c (sub a b) ≡ sub (add b c) a
  sub-sub_right a b c = sub_unique c (sub a b) _ (
      sym (
        sub_unique _ b _ (
          dec.add_assoc _ _ _
          ∙ ap (add _) (dec.sub_add a b)
          ∙ dec.sub_add (add b c) a
          ∙ dec.add_comm b c))
      ∙ sub-add_right c b)

  pub sub-add_left : (a b c : D) → sub (add a b) c ≡ add (sub a c) b
  sub-add_left a b c = sub_unique _ _ _ (
      dec.add_assoc _ _ _
      ∙ ap (add _) (dec.add_comm b c)
      ∙ sym (dec.add_assoc _ _ _)
      ∙ ap (λ x. add x b) (dec.sub_add a c))
