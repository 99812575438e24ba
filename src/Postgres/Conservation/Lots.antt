-- ===== src/Postgres/Conservation/Lots.antt =====
-- internal/adapters/postgres/ledger.go: what a lot has, and what its closures have taken of it.
use delta_works.Base.{
  ◌≡◌, refl, sym, ap, ◌∙◌, Bool, true, false, not, ◌&&◌, List, [], ◌∷◌, ◌++◌, String, if◌then◌else◌,
  arith, str_eq, eq_iff, any, update_where, All, All-map_where, All-snoc, Bool-cases, inl, inr,
}
use delta_works.Decimal.{Decimals, add, sub, zero_decimal, is_positive}
use delta_works.Decimal.Laws.{zero-add}
use delta_works.Decimal.Order.{sign-sub_self}
use delta_works.Domain.Order.{Time}
use delta_works.Postgres.Schema.{LotRow, LotClosureRow}
use delta_works.Postgres.LedgerQueries.{decremented, in_range}

turned : (i j : String) → str_eq i j ≡ false → str_eq j i ≡ false
turned i j h = ground (arith, eq_iff i j, eq_iff j i)

module _ {D : Type 0} where
  abbrev pub has_lot : List (LotRow D) → String → Bool
  has_lot lots id = any (λ l. str_eq l.id id) lots

  has_lot-append :
      (lots new : List (LotRow D)) (id : String)
      → has_lot lots id ≡ true
      → has_lot (lots ++ new) id ≡ true
  unfolding any
  has_lot-append [] new id h = absurd (cc)
  has_lot-append (l ∷ lots) new id h = ground (arith, has_lot-append lots new id)

module _ {D : Type 0} ⦃dec : Decimals D⦄ where
  -- What the closures have taken of a lot.
  abbrev pub closed_qty : String → List (LotClosureRow D) → D
  closed_qty id [] = zero_decimal
  closed_qty id (c ∷ cs) =
      if str_eq c.lot_id id then add c.qty (closed_qty id cs) else closed_qty id cs

  -- The quantity of a lot is what remains of it and what its closures took; what remains is between zero
  -- and the quantity; and each closure is one of a lot.
  pub record IsConserved (lots : List (LotRow D)) (closures : List (LotClosureRow D)) : Type 0 where
    pub conserved : All (λ l. l.qty ≡ add l.remaining_qty (closed_qty l.id closures)) lots
    pub within : All (λ l. in_range l ≡ true) lots
    pub known : All (λ c. has_lot lots c.lot_id ≡ true) closures

  closed_qty-snoc :
      (id : String) (cs : List (LotClosureRow D)) (c : LotClosureRow D)
      → closed_qty id (cs ++ c ∷ [])
        ≡ (if str_eq c.lot_id id then add (closed_qty id cs) c.qty else closed_qty id cs)
  closed_qty-snoc id [] c = ground (arith, zero-add c.qty, dec.add_zero c.qty)
  closed_qty-snoc id (d ∷ cs) c =
      ground (arith, closed_qty-snoc id cs c, dec.add_assoc d.qty (closed_qty id cs) c.qty)

  -- A lot that is not there has no closures.
  none_closed :
      (lots : List (LotRow D)) (id : String) (cs : List (LotClosureRow D))
      → has_lot lots id ≡ false
      → All (λ c. has_lot lots c.lot_id ≡ true) cs
      → closed_qty id cs ≡ zero_decimal
  none_closed lots id [] h k = refl
  none_closed lots id (c ∷ cs) h k = elim (Bool-cases (str_eq c.lot_id id)) [
    | inl e ↦ absurd (cc (h, k.0, (eq_iff c.lot_id id).0 e))
    | inr e ↦ rw e (none_closed lots id cs h k.1)
  ]

  -- A new lot, of which all remains.
  pub opened-IsConserved :
      (lots : List (LotRow D)) (cs : List (LotClosureRow D)) (lot : LotRow D)
      → has_lot lots lot.id ≡ false
      → is_positive lot.qty ≡ true
      → lot.remaining_qty ≡ lot.qty
      → IsConserved lots cs
      → IsConserved (lots ++ lot ∷ []) cs
  opened-IsConserved lots cs lot new positive whole s = record {
    conserved =
        All-snoc _ lots lot s.conserved
          (rw (whole, none_closed lots lot.id cs new s.known, dec.add_zero lot.qty) refl);
    within =
        All-snoc _ lots lot s.within (rw whole (ground (arith, positive, sign-sub_self lot.qty)));
    known = All-map_where _ cs (λ c h. has_lot-append lots (lot ∷ []) c.lot_id h) s.known;
  }

  has_lot-update_where :
      (p : LotRow D → Bool) (q : D) (t : Time) (lots : List (LotRow D)) (id : String)
      → has_lot (update_where p (decremented q t) lots) id ≡ has_lot lots id
  unfolding update_where any decremented
  has_lot-update_where p q t [] id = refl
  has_lot-update_where p q t (l ∷ lots) id = ground (arith, has_lot-update_where p q t lots id)

  moved : (a q c : D) → add (sub a q) (add c q) ≡ add a c
  moved a q c =
      ap (add (sub a q)) (dec.add_comm c q)
      ∙ sym (dec.add_assoc (sub a q) q c)
      ∙ ap (λ x. add x c) (dec.sub_add a q)

  taken :
      (c : LotClosureRow D) (t : Time) (cs : List (LotClosureRow D)) (lots : List (LotRow D))
      → All (λ l. l.qty ≡ add l.remaining_qty (closed_qty l.id cs)) lots
      → All
          (λ l. l.qty ≡ add l.remaining_qty (closed_qty l.id (cs ++ c ∷ [])))
          (update_where (λ l. str_eq l.id c.lot_id) (decremented c.qty t) lots)
  unfolding update_where decremented
  taken c t cs [] h = tt
  taken c t cs (l ∷ lots) h = (
    elim (Bool-cases (str_eq l.id c.lot_id)) [
      | inl e ↦
          let same = (eq_iff l.id c.lot_id).0 e in
          let there : str_eq c.lot_id l.id ≡ true = (eq_iff c.lot_id l.id).1 (sym same) in
          rw (e, closed_qty-snoc l.id cs c, there)
            (h.0 ∙ sym (moved l.remaining_qty c.qty (closed_qty l.id cs)))
      | inr e ↦
          let other : str_eq c.lot_id l.id ≡ false = turned l.id c.lot_id e in
          rw (e, closed_qty-snoc l.id cs c, other) h.0
    ],
    taken c t cs lots h.1,
  )

  still_within :
      (id : String) (q : D) (t : Time) (lots : List (LotRow D))
      → any (λ l. str_eq l.id id && not (in_range (decremented q t l))) lots ≡ false
      → All (λ l. in_range l ≡ true) lots
      → All (λ l. in_range l ≡ true) (update_where (λ l. str_eq l.id id) (decremented q t) lots)
  unfolding any update_where
  still_within id q t [] e h = tt
  still_within id q t (l ∷ lots) e h = (
    elim (Bool-cases (str_eq l.id id)) [ inl k ↦ ground (arith, e, k) | inr k ↦ rw k h.0 ],
    still_within id q t lots (ground (arith, e)) h.1,
  )

  -- A closure, with the lot reduced by its quantity.
  pub closed-IsConserved :
      (lots : List (LotRow D)) (cs : List (LotClosureRow D)) (c : LotClosureRow D) (t : Time)
      → has_lot lots c.lot_id ≡ true
      → any (λ l. str_eq l.id c.lot_id && not (in_range (decremented c.qty t l))) lots ≡ false
      → IsConserved lots cs
      → IsConserved
          (update_where (λ l. str_eq l.id c.lot_id) (decremented c.qty t) lots)
          (cs ++ c ∷ [])
  closed-IsConserved lots cs c t there enough s = record {
    conserved = taken c t cs lots s.conserved;
    within = still_within c.lot_id c.qty t lots enough s.within;
    known =
        All-snoc _ cs c
          (All-map_where _ cs (λ d h. has_lot-update_where _ c.qty t lots d.lot_id ∙ h) s.known)
          (has_lot-update_where _ c.qty t lots c.lot_id ∙ there);
  }
