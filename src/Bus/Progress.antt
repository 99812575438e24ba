-- ===== src/Bus/Progress.antt =====
-- internal/bus/bus.go: how the goroutine of a subscriber empties its buffer.
use mathlib.Core.List.{append_assoc, append-nil}
use delta_works.Base.{
  ℕ, zero, suc, ◌≡◌, refl, sym, ap, ◌∙◌, true, false, not, ◌&&◌, List, [], ◌∷◌, ◌++◌, if◌then◌else◌,
  ◌==◌, length, map, arith, Bool-cases, inl, inr, All,
}
use delta_works.Bus.{BusEvent, Subscriber, InProc, Action, receive, take_turn, turn_if, act, run}

module _ {P : Type 0} where
  -- So many turns of the goroutine of subscriber `id`, one after the other.
  abbrev pub turns : ℕ → ℕ → List (Action P)
  turns id zero = []
  turns id (suc n) = receive id ∷ turns id n

  -- The subscriber once its handler has had every event that waits.
  abbrev pub caught_up : ℕ → Subscriber P → Subscriber P
  caught_up id s =
      if s.id == id && not s.has_ended
      then record s { queue = []; handled = s.handled ++ s.queue }
      else s

  abbrev times : ℕ → (Subscriber P → Subscriber P) → Subscriber P → Subscriber P
  times zero f s = s
  times (suc n) f s = times n f (f s)

  turns_each :
      (id n : ℕ) (b : InProc P) → (run b (turns id n)).subs ≡ map (times n (turn_if id)) b.subs
  unfolding run act
  turns_each id zero b = sym (map_id b.subs)
    where
      map_id : (ss : List (Subscriber P)) → map (λ s. s) ss ≡ ss
      map_id [] = refl
      map_id (s ∷ ss) = ap (◌∷◌ s) (map_id ss)
  turns_each id (suc n) b = turns_each id n (act (receive id) b) ∙ map_twice b.subs
    where
      map_twice :
          (ss : List (Subscriber P))
          → map (times n (turn_if id)) (map (turn_if id) ss) ≡ map (times (suc n) (turn_if id)) ss
      map_twice [] = refl
      map_twice (s ∷ ss) = ap (◌∷◌ (times (suc n) (turn_if id) s)) (map_twice ss)

  idle :
      (id n : ℕ) (s : Subscriber P)
      → (s.id == id && not s.has_ended) ≡ false
      → times n (turn_if id) s ≡ s
  unfolding turn_if
  idle id zero s h = refl
  idle id (suc n) s h = rw h (idle id n s h)

  one_turn :
      (id : ℕ) (x : BusEvent P) (q : List (BusEvent P)) (s : Subscriber P)
      → (s.id == id && not s.has_ended) ≡ true
      → s.queue ≡ x ∷ q
      → turn_if id s ≡ record s { queue = q; handled = s.handled ++ x ∷ [] }
  unfolding turn_if take_turn
  one_turn id x q s h e = rw (h, e) refl

  drained :
      (id : ℕ) (q : List (BusEvent P)) (s : Subscriber P)
      → (s.id == id && not s.has_ended) ≡ true
      → s.queue ≡ q
      → times (length q) (turn_if id) s ≡ record s { queue = []; handled = s.handled ++ q }
  drained id [] s h e = ground (arith, append-nil s.handled)
  drained id (x ∷ q) s h e =
      ap (times (length q) (turn_if id)) (one_turn id x q s h e)
      ∙ drained id q (record s { queue = q; handled = s.handled ++ x ∷ [] }) h refl
      ∙ ap (λ l. record s { queue = []; handled = l }) (append_assoc s.handled (x ∷ []) q)

  each_drained :
      (id n : ℕ) (s : Subscriber P)
      → (s.id ≡ id → length s.queue ≡ n)
      → times n (turn_if id) s ≡ caught_up id s
  each_drained id n s waits = elim (Bool-cases (s.id == id && not s.has_ended)) [
    | inr f ↦ rw f (idle id n s f)
    | inl t ↦
        let e : length s.queue ≡ n = waits (ground arith) in
        rw t (ap (λ k. times k (turn_if id) s) (sym e) ∙ drained id s.queue s t refl)
  ]

  -- A goroutine that has not ended and takes as many turns as its buffer has events, with nothing else
  -- between them, hands all of them to its handler, in order; the other subscribers stay as they are.
  pub turns_catch_up :
      (id n : ℕ) (b : InProc P)
      → All (λ s. s.id ≡ id → length s.queue ≡ n) b.subs
      → (run b (turns id n)).subs ≡ map (caught_up id) b.subs
  turns_catch_up id n b h = turns_each id n b ∙ all_drained b.subs h
    where
      all_drained :
          (ss : List (Subscriber P))
          → All (λ s. s.id ≡ id → length s.queue ≡ n) ss
          → map (times n (turn_if id)) ss ≡ map (caught_up id) ss
      all_drained [] h = refl
      all_drained (s ∷ ss) h = λ i. each_drained id n s h.0 i ∷ all_drained ss h.1 i
