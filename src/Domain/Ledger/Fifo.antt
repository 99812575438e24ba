-- ===== src/Domain/Ledger/Fifo.antt =====
-- internal/domain/ledger/ledger.go: what a first-in-first-out selection allocates.
use delta_works.Base.{
  true, false, List, [], ◌∷◌, ◌++◌, if◌then◌else◌, ◌≡◌, refl, sym, ap, ◌∙◌, arith, inl, inr,
  Bool-cases, Permᴰ, sort, sort-perm, sort-IsSorted, IsSorted, text_less_asymm, not_less_trans,
}
use delta_works.Decimal.{Decimals, add, sub, min, is_positive, is_negative, zero_decimal}
use delta_works.Decimal.Laws.{
  add-sub, sub_self, sub-zero, sub-sub-add, sub-sub_right, sub-add_left, zero-add, add_left_comm,
}
use mathlib.Core.Path.{ap₂}
use delta_works.Decimal.Order.{AtMost, min-AtMost, min_positive, sign-zero, add_nonneg}
use delta_works.Domain.Ledger.{Lot, Closure, allocate, older, select}

module _ {D : Type 0} where
  older_asymm : (a b : Lot D) → older a b ≡ true → older b a ≡ false
  unfolding older
  older_asymm a b h = ground (arith, text_less_asymm a.id b.id)

  not_older_trans : (a b c : Lot D) → older b a ≡ false → older c b ≡ false → older c a ≡ false
  unfolding older
  not_older_trans a b c h k = ground (arith, not_less_trans a.id b.id c.id)

module _ {D : Type 0} ⦃dec : Decimals D⦄ where
  abbrev pub closed_qty : List (Closure D) → D
  closed_qty [] = zero_decimal
  closed_qty (c ∷ cs) = add c.qty (closed_qty cs)

  -- What the lots still hold; a lot with nothing left adds nothing.
  abbrev pub held_qty : List (Lot D) → D
  held_qty [] = zero_decimal
  held_qty (l ∷ ls) =
      add (if is_positive l.remaining_qty then l.remaining_qty else zero_decimal) (held_qty ls)

  -- Each closure is of a lot of the list, in its order, positive and within what the lot holds.
  pub data Closes : List (Lot D) → List (Closure D) → Type 0 where
    stop : {ls : List (Lot D)} → Closes ls []
    pass :
        {l : Lot D} {ls : List (Lot D)} {cs : List (Closure D)} → Closes ls cs → Closes (l ∷ ls) cs
    close :
        {l : Lot D} {ls : List (Lot D)} {c : Closure D} {cs : List (Closure D)}
        → c.lot_id ≡ l.id
        → is_positive c.qty ≡ true
        → AtMost c.qty l.remaining_qty
        → Closes ls cs
        → Closes (l ∷ ls) (c ∷ cs)

  -- Nothing is lost: what the closures take and what is left unmatched make up the sell.
  pub allocate-conserves :
      (ls : List (Lot D)) (q : D)
      → add (closed_qty (allocate ls q).closures) (allocate ls q).unmatched ≡ q
  unfolding allocate
  allocate-conserves [] q = zero-add q
  allocate-conserves (l ∷ ls) q = ground (
    arith,
    zero-add q,
    allocate-conserves ls q,
    allocate-conserves ls (sub q (min q l.remaining_qty)),
    add-sub (min q l.remaining_qty) q,
    dec.add_assoc (min q l.remaining_qty)
        (closed_qty (allocate ls (sub q (min q l.remaining_qty))).closures)
        (allocate ls (sub q (min q l.remaining_qty))).unmatched,
  )

  allocate-Closes : (ls : List (Lot D)) (q : D) → Closes ls (allocate ls q).closures
  unfolding allocate
  allocate-Closes [] q = stop
  allocate-Closes (l ∷ ls) q = elim (Bool-cases (is_positive q)) [
    | inr n ↦ rw n stop
    | inl p ↦ elim (Bool-cases (is_positive l.remaining_qty)) [
      | inr n ↦ rw (p, n) (pass (allocate-Closes ls q))
      | inl r ↦
          rw (p, r)
            (close refl (min_positive q l.remaining_qty p r) (min-AtMost q l.remaining_qty).1
              (allocate-Closes ls (sub q (min q l.remaining_qty))))
    ]
  ]

  -- A sell that is not positive finds nothing to close.
  allocate-stops :
      (ls : List (Lot D)) (q : D)
      → is_positive q ≡ false
      → allocate ls q ≡ record { closures = []; unmatched = q }
  unfolding allocate
  allocate-stops [] q h = refl
  allocate-stops (l ∷ ls) q h = rw h

  -- Earlier lots come first: the allocation from two stretches of lots is that from the first, and
  -- from the second the allocation of what the first left unmatched.
  pub allocate-append :
      (xs ys : List (Lot D)) (q : D)
      → (allocate (xs ++ ys) q).closures
        ≡ (allocate xs q).closures ++ (allocate ys (allocate xs q).unmatched).closures
  unfolding allocate
  allocate-append [] ys q = refl
  allocate-append (l ∷ xs) ys q = ground (
    arith,
    allocate-stops ys q,
    allocate-append xs ys q,
    allocate-append xs ys (sub q (min q l.remaining_qty)),
  )

  held_qty_nonneg : (ls : List (Lot D)) → is_negative (held_qty ls) ≡ false
  held_qty_nonneg [] = ground (arith, sign-zero dec)
  held_qty_nonneg (l ∷ ls) =
      add_nonneg {D = D} _ _ (ground (arith, sign-zero dec)) (held_qty_nonneg ls)

  -- With nothing or with too little to sell, the whole of it is matched.
  min-zero : (h : D) → is_negative h ≡ false → min zero_decimal h ≡ zero_decimal
  min-zero h p = rw (sub-zero, p)

  -- One lot's share and then the others' is the smaller of the sell and all that is held.
  shares :
      (q r h : D)
      → is_positive r ≡ true
      → is_negative h ≡ false
      → sub (sub q (min q r)) (min (sub q (min q r)) h) ≡ sub q (min q (add r h))
  shares q r h p n = elim (Bool-cases (is_negative (sub r q))) [
    | inl less ↦
        rw (less, sub-sub_right q r h)
          (elim (Bool-cases (is_negative (sub (add r h) q))) [
            | inl short ↦ rw (short) (sub-sub-add q r h)
            | inr all ↦ rw (all) (sub_self _ ∙ sym (sub_self q))
          ])
    | inr more ↦
        rw (more, sub_self q, min-zero h n, sub-add_left r h q, add_nonneg (sub r q) h more n)
          (sub_self zero_decimal ∙ sym (sub_self q))
  ]

  held_qty-perm : {xs ys : List (Lot D)} → Permᴰ xs ys → held_qty xs ≡ held_qty ys
  held_qty-perm Permᴰ.nil = refl
  held_qty-perm (Permᴰ.cons e p) =
      ap₂ (λ l h. add (if is_positive l.remaining_qty then l.remaining_qty else zero_decimal) h) e
        (held_qty-perm p)
  held_qty-perm (Permᴰ.swap {a = a} {b = b} {l = l} e d) =
      add_left_comm _ _ _
      ∙ ap₂
          (λ x y. add (if is_positive x.remaining_qty then x.remaining_qty else zero_decimal) (
            add (if is_positive y.remaining_qty then y.remaining_qty else zero_decimal)
              (held_qty l)))
          d e
  held_qty-perm (Permᴰ.trans p q) = held_qty-perm p ∙ held_qty-perm q

  nothing_left :
      (q h : D)
      → is_negative q ≡ false
      → is_positive q ≡ false
      → is_negative h ≡ false
      → q ≡ sub q (min q h)
  nothing_left q h n p k =
      let e : q ≡ zero_decimal = (dec.sign_naught q).0 (ground arith) in
      rw (e, min-zero h k) (sym (sub_self zero_decimal))

  still_nonneg : (q r : D) → is_negative (sub q (min q r)) ≡ false
  still_nonneg q r = ground (arith, min-AtMost q r, dec.sign_flip q (min q r))

  -- What a sell that is not negative leaves unmatched is exactly what it exceeds the lots by: nothing,
  -- if they hold enough.
  pub allocate-unmatched :
      (ls : List (Lot D)) (q : D)
      → is_negative q ≡ false
      → (allocate ls q).unmatched ≡ sub q (min q (held_qty ls))
  unfolding allocate
  allocate-unmatched [] q h =
      ground (arith, dec.sign_flip q zero_decimal, sub-zero q, sub_self q, dec.sign_naught q)
  allocate-unmatched (l ∷ ls) q h = elim (Bool-cases (is_positive q)) [
    | inr n ↦ rw n (nothing_left q (held_qty (l ∷ ls)) h n (held_qty_nonneg (l ∷ ls)))
    | inl p ↦ elim (Bool-cases (is_positive l.remaining_qty)) [
      | inr n ↦ rw (p, n, zero-add (held_qty ls)) (allocate-unmatched ls q h)
      | inl r ↦
          rw (p, r)
            (allocate-unmatched ls (sub q (min q l.remaining_qty)) (still_nonneg q l.remaining_qty)
              ∙ shares q l.remaining_qty (held_qty ls) r (held_qty_nonneg ls))
    ]
  ]

  -- `Select` for a sell that is not negative: the closures are of the lots in order of opening time,
  -- ties broken by ID, each positive and within what its lot holds; they and the unmatched quantity
  -- make up the sell; and the unmatched quantity is what the sell exceeds all the open lots by.
  pub select-fifo :
      (open_lots : List (Lot D)) (q : D)
      → is_negative q ≡ false
      → IsSorted older (sort older open_lots)
        × Permᴰ open_lots (sort older open_lots)
        × Closes (sort older open_lots) (select open_lots q).closures
        × (add (closed_qty (select open_lots q).closures) (select open_lots q).unmatched ≡ q)
        × ((select open_lots q).unmatched ≡ sub q (min q (held_qty open_lots)))
  unfolding select
  select-fifo ls q h = (
    sort-IsSorted older older_asymm not_older_trans ls,
    sort-perm older ls,
    allocate-Closes (sort older ls) q,
    allocate-conserves (sort older ls) q,
    allocate-unmatched (sort older ls) q h
        ∙ ap (λ x. sub q (min q x)) (sym (held_qty-perm (sort-perm older ls))),
  )
