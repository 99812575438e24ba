-- ===== src/Gct/Sending.antt =====
-- internal/adapters/gct/stream.go: what the pump sends, and when it says that the venue reconnected.
use mathlib.Core.List.{append_assoc, append-nil}
use delta_works.Base.{
  ℕ, suc, ◌+◌, ◌≡◌, refl, sym, ap, ◌∙◌, Bool, true, false, not, ◌&&◌, List, [], ◌∷◌, ◌++◌, take,
  if◌then◌else◌, arith,
}
use delta_works.Decimal.{Decimals}
use delta_works.Domain.Instrument.{VenueId}
use delta_works.Domain.Order.{Time, Event}
use delta_works.Gct.{Values}
use delta_works.Gct.Stream.{
  Input, done, payload, cut, data_closed, tick, Pump, to_order_events, receive, pump, started,
}

module _ {P F : Type 0} where
  -- How often the probe answers that the venue is connected after it answered, or was found at the
  -- start, not to be, until the pump stops.
  abbrev pub rises : Bool → List (Input P F) → ℕ
  rises was [] = 0
  rises was (tick is_connected ∷ is) =
      if is_connected && not was then suc (rises is_connected is) else rises is_connected is
  rises was (payload p ∷ is) = rises was is
  rises was (_ ∷ is) = 0

module _ {D P F : Type 0} ⦃dec : Decimals D⦄ (values : Values D P F) (now : Time)
    (id : VenueId) where
  -- The order events of the payloads until the pump stops, in their order.
  abbrev pub forwarded : List (Input P F) → List (Event D)
  forwarded [] = []
  forwarded (payload p ∷ is) = to_order_events values now id p ++ forwarded is
  forwarded (cut n p ∷ is) = take n (to_order_events values now id p)
  forwarded (tick is_connected ∷ is) = forwarded is
  forwarded (_ ∷ is) = []

  stopped :
      (is : List (Input P F)) (p : Pump D) → p.is_running ≡ false → pump values now id is p ≡ p
  unfolding pump
  stopped [] p h = refl
  stopped (i ∷ is) p h =
      ap (λ b. if b then pump values now id is (receive values now id i p) else p) h

  running :
      (i : Input P F) (is : List (Input P F)) (p : Pump D)
      → p.is_running ≡ true
      → pump values now id (i ∷ is) p ≡ pump values now id is (receive values now id i p)
  unfolding pump
  running i is p h = ap (λ b. if b then pump values now id is (receive values now id i p) else p) h

  abbrev Forwards : List (Input P F) → Pump D → Pump D → Type 0
  Forwards is p q =
      (q.sent ≡ p.sent ++ forwarded is) × (q.reconnects ≡ p.reconnects + rises p.connected is)

  pump_ends :
      (i : Input P F) (is : List (Input P F)) (p : Pump D)
      → p.is_running ≡ true
      → (receive values now id i p).is_running ≡ false
      → pump values now id (i ∷ is) p ≡ receive values now id i p
  pump_ends i is p h k = running i is p h ∙ stopped is (receive values now id i p) k

  pump-Forwards :
      (is : List (Input P F)) (p : Pump D)
      → p.is_running ≡ true
      → Forwards is p (pump values now id is p)
  unfolding pump
  pump-Forwards [] p h = (sym (append-nil p.sent), omega (arith))
  pump-Forwards (done ∷ is) p h =
      rw (pump_ends done is p h refl) (sym (append-nil p.sent), omega (arith))
  pump-Forwards (data_closed ∷ is) p h =
      rw (pump_ends data_closed is p h refl) (sym (append-nil p.sent), omega (arith))
  pump-Forwards (cut n d ∷ is) p h = rw (pump_ends (cut n d) is p h refl) (refl, omega (arith))
  pump-Forwards (payload d ∷ is) p h =
      let (sent, reconnects) = pump-Forwards is (receive values now id (payload d) p) h in
      rw (running (payload d) is p h)
        (sent ∙ append_assoc p.sent (to_order_events values now id d) (forwarded is), reconnects)
  pump-Forwards (tick c ∷ is) p h =
      let (sent, reconnects) = pump-Forwards is (receive values now id (tick c) p) h in
      rw (running (tick c) is p h) (sent, ground (arith, reconnects))

  -- From its start, the pump sends the order events of all payloads that it receives before it stops, in
  -- their order and nothing else, and calls `onReconnect` once for each time that the connection probe
  -- goes from not connected to connected before that.
  pub pump_forwards :
      (is : List (Input P F)) (connected : Bool)
      → ((pump values now id is (started connected)).sent ≡ forwarded is)
        × ((pump values now id is (started connected)).reconnects ≡ rises connected is)
  pump_forwards is connected =
      let (sent, reconnects) = pump-Forwards is (started connected) refl in
      (sent, omega (arith, reconnects))
