-- ===== src/Domain/Order/Machine/Replay.antt =====
-- internal/domain/order/machine.go: sequences of events from the ack, the stream and the reconciliation, in any interleaving.
use delta_works.Base.{
  ℕ, ◌≡◌, refl, sym, ap, ◌∙◌, true, List, [], ◌∷◌, arith, All, foldl, Permᴰ, foldl-perm, All-perm,
}
use delta_works.Errors.{Result, ok, err, ◌>>=◌, >>=-eq-ok, is_ok-value}
use delta_works.Decimal.{Decimals, zero_decimal, add}
use delta_works.Decimal.Order.{max, max_comm, max_assoc}
use delta_works.Domain.Order.{Event}
use delta_works.Domain.Order.Machine.{State, Decision, transition, is_terminal, rank}
use delta_works.Domain.Order.Machine.Step.{
  level, is_known, rank-eq-level, later, settle, larger_fill, transition-is_ok, decision_effect,
  terminal_absorbs,
}

module _ {D : Type 0} ⦃dec : Decimals D⦄ where
  -- The state after a sequence of events; an unknown status stops it.
  unfoldable pub replay : State D → List (Event D) → Result (State D)
  replay s [] = ok s
  replay s (ev ∷ evs) = transition s ev >>= λ d. replay (settle s d) evs

  -- What one event does to the level of the status.
  abbrev pub raise : ℕ → Event D → ℕ
  raise l ev = later l (level ev.status)

  abbrev pub IsKnown : Event D → Type 0
  IsKnown ev = is_known ev.status ≡ true

  decision_exists :
      (s : State D) (ev : Event D)
      → is_known s.status ≡ true
      → is_known ev.status ≡ true
      → (d : Decision D) × (transition s ev ≡ ok d)
  decision_exists s ev h k = is_ok-value (transition s ev) (transition-is_ok s ev ∙ (rw (h, k)))

  -- Known statuses always reach a state; its level is the highest level of the sequence, and its
  -- fill the highest cumulative fill.
  pub replay-highest :
      (s : State D) (evs : List (Event D))
      → is_known s.status ≡ true
      → All IsKnown evs
      → (t : State D) × (replay s evs ≡ ok t)
        × (level t.status ≡ foldl raise (level s.status) evs)
        × (t.filled_qty ≡ foldl larger_fill s.filled_qty evs)
        × (is_known t.status ≡ true)
  unfolding replay
  replay-highest s [] h k = (s, refl, refl, refl, h)
  replay-highest s (ev ∷ evs) h k =
      let (d, e) = decision_exists s ev h k.0 in
      let (l, f, kn) = decision_effect s ev d e in
      let (t, r, lt, ft, kt) = replay-highest (settle s d) evs kn k.1 in
      (t, rw e r, lt ∙ ap (λ x. foldl raise x evs) l, ft ∙ ap (λ x. foldl larger_fill x evs) f, kt)

  larger_fill_comm :
      (f : D) (a b : Event D) → larger_fill (larger_fill f a) b ≡ larger_fill (larger_fill f b) a
  larger_fill_comm f a b = ground (
    arith,
    max_assoc f a.filled_qty b.filled_qty,
    max_assoc f b.filled_qty a.filled_qty,
    ap (max f) (max_comm a.filled_qty b.filled_qty),
  )

  later_comm : (l : ℕ) (a b : Event D) → raise (raise l a) b ≡ raise (raise l b) a
  later_comm l a b = ground arith

  -- The order in which known events arrive does not matter: both orders reach a state, with the same
  -- cumulative fill and statuses of the same rank.
  pub replay_order_independent :
      (s : State D) (xs ys : List (Event D))
      → is_known s.status ≡ true
      → All IsKnown xs
      → Permᴰ xs ys
      → (t : State D) × (u : State D) × (replay s xs ≡ ok t)
        × (replay s ys ≡ ok u)
        × (t.filled_qty ≡ u.filled_qty)
        × (rank t.status ≡ rank u.status)
  replay_order_independent s xs ys h k p =
      let (t, rt, lt, ft, kt) = replay-highest s xs h k in
      let (u, ru, lu, fu, ku) = replay-highest s ys h (All-perm IsKnown p k) in
      (
        t,
        u,
        rt,
        ru,
        ft ∙ foldl-perm larger_fill larger_fill_comm s.filled_qty p ∙ sym fu,
        rank-eq-level t.status kt
            ∙ ap ok (lt ∙ foldl-perm raise later_comm (level s.status) p ∙ sym lu)
            ∙ sym (rank-eq-level u.status ku),
      )

  -- The sum of the fills that the decisions of a sequence carry.
  abbrev pub total_delta : State D → List (Event D) → D
  total_delta s [] = zero_decimal
  total_delta s (ev ∷ evs) = elim (transition s ev) [
    | ok d ↦ add d.fill_delta (total_delta (settle s d) evs)
    | err e ↦ zero_decimal
  ]

  -- The fills that a sequence of events posts add up to the growth of the stored fill: no quantity is
  -- posted twice and none is lost.
  pub total_delta-replay :
      (s t : State D) (evs : List (Event D))
      → replay s evs ≡ ok t
      → add s.filled_qty (total_delta s evs) ≡ t.filled_qty
  unfolding replay
  total_delta-replay s t [] h = ground (arith, dec.add_zero s.filled_qty)
  total_delta-replay s t (ev ∷ evs) h =
      let (d, e, r) = >>=-eq-ok (transition s ev) _ h in
      rw (e, total_delta) (sym (dec.add_assoc _ _ _) ∙ total_delta-replay (settle s d) t evs r)

  -- A terminal status is final: whatever known events follow, the status stays.
  pub replay_terminal :
      (s t : State D) (evs : List (Event D))
      → is_terminal s.status ≡ true
      → replay s evs ≡ ok t
      → t.status ≡ s.status
  unfolding replay
  replay_terminal s t [] i h = ground arith
  replay_terminal s t (ev ∷ evs) i h =
      let (d, e, r) = >>=-eq-ok (transition s ev) _ h in
      let (same, _, _) = terminal_absorbs s ev d i e in
      replay_terminal (settle s d) t evs (rw same i) r ∙ same
