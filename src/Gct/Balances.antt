-- ===== src/Gct/Balances.antt =====
-- internal/adapters/gct/convert.go: the balances of the sub-accounts, summed by currency.
use delta_works.Base.{
  ℕ, suc, ◌≤◌, ◌≡◌, refl, sym, ap, ◌∙◌, true, false, List, [], ◌∷◌, Option, none, some, String,
  str_eq, eq_iff, eq_refl, if◌then◌else◌, Bool-cases, inl, inr, arith,
}
use delta_works.Decimal.{Decimals, zero_decimal, add}
use delta_works.Decimal.Laws.{zero-add, add_left_comm}
use delta_works.Config.Texts.{trim_space}
use delta_works.Domain.Instrument.{new_currency, new_currency, Currency}
use delta_works.Domain.Account.{Balance}
use delta_works.Gct.{VenueBalance, Values}
use delta_works.Gct.Convert.{
  add_to, no_balance, add_balance, add_balances, add_sub_accounts, to_balances,
}

other_currency :
    (k c cur : Currency) → str_eq k c ≡ true → str_eq c cur ≡ false → str_eq k cur ≡ false
other_currency k c cur e h = rw ((eq_iff k c).0 e) h

module _ {D P F : Type 0} ⦃dec : Decimals D⦄ (values : Values D P F) where
  -- How many entries a currency has.
  abbrev pub count : Currency → List (Balance D) → ℕ
  count cur [] = 0
  count cur (entry ∷ entries) =
      if str_eq entry.currency cur then suc (count cur entries) else count cur entries

  count_other :
      (cur c : Currency) (b : VenueBalance F) (entries : List (Balance D))
      → str_eq c cur ≡ false
      → count cur (add_balance values c b entries) ≡ count cur entries
  unfolding add_balance
  count_other cur c b [] h = ground arith
  count_other cur c b (entry ∷ entries) h = elim (Bool-cases (str_eq entry.currency c)) [
    | inl e ↦ rw e refl
    | inr e ↦ ground (arith, count_other cur c b entries h)
  ]

  count_added :
      (cur c : Currency) (b : VenueBalance F) (entries : List (Balance D))
      → count cur entries ≤ 1
      → count cur (add_balance values c b entries) ≤ 1
  unfolding add_balance
  count_added cur c b [] h = ground arith
  count_added cur c b (entry ∷ entries) h = ground (
    arith,
    count_other cur c b entries,
    count_added cur c b entries,
    eq_iff entry.currency c,
    eq_iff entry.currency cur,
    eq_iff c cur,
  )

module _ {D : Type 0} ⦃dec : Decimals D⦄ (column : Balance D → D) where
  -- The sum of the column over the entries of a currency.
  abbrev pub held : Currency → List (Balance D) → D
  held cur [] = zero_decimal
  held cur (entry ∷ entries) =
      if str_eq entry.currency cur then add (column entry) (held cur entries) else held cur entries

module _ {D P F : Type 0} ⦃dec : Decimals D⦄ (values : Values D P F)
    (part : VenueBalance F → F) where
  -- The sum of what the venue reports for a currency, over the balances and over the sub-accounts.
  abbrev pub reported : Currency → List (String × VenueBalance F) → D
  reported cur [] = zero_decimal
  reported cur ((code, b) ∷ bs) =
      if str_eq (new_currency values.to_upper trim_space code) cur
      then add (values.from_float (part b)) (reported cur bs)
      else reported cur bs

  abbrev pub reported_in : Currency → List (Option (List (String × VenueBalance F))) → D
  reported_in cur [] = zero_decimal
  reported_in cur (none ∷ subs) = reported_in cur subs
  reported_in cur (some bs ∷ subs) = add (reported cur bs) (reported_in cur subs)

-- One column of the balances: what the venue reports of it, and where the entry has it.
module _ {D P F : Type 0} ⦃dec : Decimals D⦄ (values : Values D P F) (part : VenueBalance F → F)
    (column : Balance D → D) (starts : (c : Currency) → column (no_balance values c) ≡ zero_decimal)
    (grows : (b : VenueBalance F) (e : Balance D)
      → column (add_to values b e) ≡ add (column e) (values.from_float (part b))) where
  held_added_same :
      (c : Currency) (b : VenueBalance F) (entries : List (Balance D))
      → held column c (add_balance values c b entries)
        ≡ add (values.from_float (part b)) (held column c entries)
  unfolding add_balance
  held_added_same c b [] =
      let v = values.from_float (part b) in
      rw (eq_refl c) (
        ap (λ x. add x zero_decimal)
          (grows b (no_balance values c) ∙ ap (λ x. add x v) (starts c) ∙ zero-add v))
  held_added_same c b (entry ∷ entries) = elim (Bool-cases (str_eq entry.currency c)) [
    | inl e ↦
        rw (e, e)
          (ap (λ x. add x (held column c entries)) (grows b entry ∙ dec.add_comm _ _)
            ∙ dec.add_assoc _ _ _)
    | inr e ↦ rw (e, e) (held_added_same c b entries)
  ]

  held_added_other :
      (cur c : Currency) (b : VenueBalance F) (entries : List (Balance D))
      → str_eq c cur ≡ false
      → held column cur (add_balance values c b entries) ≡ held column cur entries
  unfolding add_balance
  held_added_other cur c b [] h = rw h refl
  held_added_other cur c b (entry ∷ entries) h = elim (Bool-cases (str_eq entry.currency c)) [
    | inl e ↦ rw (e, other_currency entry.currency c cur e h) refl
    | inr e ↦ rw e (ground (arith, held_added_other cur c b entries h))
  ]

  held_added :
      (cur code : Currency) (b : VenueBalance F) (bs : List (String × VenueBalance F))
      (entries : List (Balance D))
      → add (reported values part cur bs) (
          held column cur
            (add_balance values (new_currency values.to_upper trim_space code) b entries))
        ≡ add (reported values part cur ((code, b) ∷ bs)) (held column cur entries)
  held_added cur code b bs entries =
      elim (Bool-cases (str_eq (new_currency values.to_upper trim_space code) cur)) [
        | inl e ↦
            let same = (eq_iff (new_currency values.to_upper trim_space code) cur).0 e in
            rw (e, same)
              (ap (add (reported values part cur bs)) (held_added_same cur b entries)
                ∙ add_left_comm _ _ _
                ∙ sym (dec.add_assoc _ _ _))
        | inr e ↦
            rw (e, held_added_other cur (new_currency values.to_upper trim_space code) b entries e)
              refl
      ]

  held_balances :
      (cur : Currency) (bs : List (String × VenueBalance F)) (entries : List (Balance D))
      → held column cur (add_balances values bs entries)
        ≡ add (reported values part cur bs) (held column cur entries)
  unfolding add_balances
  held_balances cur [] entries = sym (zero-add _)
  held_balances cur ((code, b) ∷ bs) entries =
      held_balances cur bs
        (add_balance values (new_currency values.to_upper trim_space code) b entries)
      ∙ held_added cur code b bs entries

  held_sub_accounts :
      (cur : Currency) (subs : List (Option (List (String × VenueBalance F))))
      (entries : List (Balance D))
      → held column cur (add_sub_accounts values subs entries)
        ≡ add (reported_in values part cur subs) (held column cur entries)
  unfolding add_sub_accounts
  held_sub_accounts cur [] entries = sym (zero-add _)
  held_sub_accounts cur (none ∷ subs) entries = held_sub_accounts cur subs entries
  held_sub_accounts cur (some bs ∷ subs) entries =
      held_sub_accounts cur subs (add_balances values bs entries)
      ∙ ap (add (reported_in values part cur subs)) (held_balances cur bs entries)
      ∙ add_left_comm _ _ _
      ∙ sym (dec.add_assoc _ _ _)

module _ {D P F : Type 0} ⦃dec : Decimals D⦄ (values : Values D P F) where
  once_balances :
      (cur : Currency) (bs : List (String × VenueBalance F)) (entries : List (Balance D))
      → count values cur entries ≤ 1
      → count values cur (add_balances values bs entries) ≤ 1
  unfolding add_balances
  once_balances cur [] entries h = h
  once_balances cur ((code, b) ∷ bs) entries h =
      once_balances cur bs _
        (count_added values cur (new_currency values.to_upper trim_space code) b entries h)

  once_sub_accounts :
      (cur : Currency) (subs : List (Option (List (String × VenueBalance F))))
      (entries : List (Balance D))
      → count values cur entries ≤ 1
      → count values cur (add_sub_accounts values subs entries) ≤ 1
  unfolding add_sub_accounts
  once_sub_accounts cur [] entries h = h
  once_sub_accounts cur (none ∷ subs) entries h = once_sub_accounts cur subs entries h
  once_sub_accounts cur (some bs ∷ subs) entries h =
      once_sub_accounts cur subs _ (once_balances cur bs entries h)

  column_kept :
      (part : VenueBalance F → F) (column : Balance D → D)
      (starts : (c : Currency) → column (no_balance values c) ≡ zero_decimal)
      (grows : (b : VenueBalance F) (e : Balance D)
        → column (add_to values b e) ≡ add (column e) (values.from_float (part b)))
      (cur : Currency) (subs : List (Option (List (String × VenueBalance F))))
      → held column cur (to_balances values subs) ≡ reported_in values part cur subs
  unfolding to_balances
  column_kept part column starts grows cur subs =
      held_sub_accounts values part column starts grows cur subs [] ∙ dec.add_zero _

  -- Of each currency, the converted balances have at most one entry, whose total, free and locked
  -- amounts are the sums of those that all sub-accounts report for the codes of the currency; nil
  -- sub-accounts count for nothing.
  pub to_balances_sums :
      (cur : Currency) (subs : List (Option (List (String × VenueBalance F))))
      → (count values cur (to_balances values subs) ≤ 1)
        × (held (λ e. e.total) cur (to_balances values subs)
            ≡ reported_in values (λ b. b.total) cur subs)
        × (held (λ e. e.free) cur (to_balances values subs)
            ≡ reported_in values (λ b. b.free) cur subs)
        × (held (λ e. e.locked) cur (to_balances values subs)
            ≡ reported_in values (λ b. b.hold) cur subs)
  unfolding to_balances
  to_balances_sums cur subs = (
    once_sub_accounts cur subs [] (ground arith),
    column_kept (λ b. b.total) (λ e. e.total) (λ c. refl) (λ b e. refl) cur subs,
    column_kept (λ b. b.free) (λ e. e.free) (λ c. refl) (λ b e. refl) cur subs,
    column_kept (λ b. b.hold) (λ e. e.locked) (λ c. refl) (λ b e. refl) cur subs,
  )
