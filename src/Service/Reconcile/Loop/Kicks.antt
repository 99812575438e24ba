-- ===== src/Service/Reconcile/Loop/Kicks.antt =====
-- internal/service/reconcile/reconcile.go: what becomes of the signal of a reconnect.
use mathlib.Core.Path.{ap₂}
use delta_works.Base.{
  ◌≡◌, ◌⊎◌, refl, ◌∙◌, Bool, true, false, List, [], ◌∷◌, Option, none, some, arith, str_eq, eq_refl,
  any, Bool-cases, Option-cases, inl, inr,
}
use delta_works.Errors.{Result, ok, err, Error}
use delta_works.Decimal.{Decimals}
use delta_works.Domain.Instrument.{VenueId}
use delta_works.Postgres.Session.{Session, pure, attempt}
use delta_works.Postgres.Session.Laws.{bind_ok}
use delta_works.Service.Reconcile.{Pace, Orphans, pass}
use delta_works.Service.Reconcile.Loop.{
  VenueLoop, LoopEvent, reconnected, interval_over, kick_received, context_done, kicked_by,
  handle_reconnect, pass_failed, pass_error, pass_once, wait_and_pass,
}

abbrev pub is_receive : LoopEvent → Bool
is_receive (kick_received pace canceled) = true
is_receive _ = false

module _ {D : Type 0} ⦃dec : Decimals D⦄ where
  pass_failed_ok :
      (canceled : Bool) (e : Error) (w u : Session D) (o : Option (VenueLoop D))
      → pass_failed canceled e w ≡ (ok o, u)
      → o ≡ none
  pass_failed_ok true e w u o h = ground arith
  pass_failed_ok false e w u o h = absurd (ground arith)

  ends_with : (a o : Option (VenueLoop D)) (w u : Session D) → pure a w ≡ (ok o, u) → o ≡ a
  ends_with a o w u h = ground arith

  -- The loop's venue stays, whatever it passes over.
  pass_error_ok :
      (canceled : Bool) (v : VenueLoop D) (r : Result Orphans) (w u : Session D)
      (o : Option (VenueLoop D))
      → pass_error canceled v r w ≡ (ok o, u)
      → (o ≡ none)
        ⊎ ((v' : VenueLoop D) × (o ≡ some v') × (v'.kick ≡ v.kick) × (v'.venue.id ≡ v.venue.id))
  pass_error_ok canceled v (err e) w u o h = inl (pass_failed_ok canceled e w u o h)
  pass_error_ok canceled v (ok found) w u o h = elim (Option-cases found.failure) [
    | inl f ↦
        inr (record v { last_orphans = found.current }, ends_with _ o w u (rw f at h), refl, refl)
    | inr (e, f) ↦ inl (pass_failed_ok canceled e w u o (rw f at h))
  ]

  pass_once_ok :
      (pace : Pace) (canceled : Bool) (v : VenueLoop D) (w u : Session D) (o : Option (VenueLoop D))
      → pass_once pace canceled v w ≡ (ok o, u)
      → (o ≡ none)
        ⊎ ((v' : VenueLoop D) × (o ≡ some v') × (v'.kick ≡ v.kick) × (v'.venue.id ≡ v.venue.id))
  unfolding pass_once
  pass_once_ok pace canceled v w u o h =
      let (r, w', _, k) = bind_ok (attempt (pass pace v.venue v.last_orphans)) _ w h in
      pass_error_ok canceled v r w' u o k

  kicked_stays :
      (payload : Option VenueId) (v : VenueLoop D)
      → v.kick ≡ true
      → (kicked_by payload v).kick ≡ true
  kicked_stays none v h = h
  kicked_stays (some id) v h = ground arith

  twice : (p : Option VenueId) (v : VenueLoop D) → kicked_by p (kicked_by p v) ≡ kicked_by p v
  twice none v = refl
  twice (some id) v = elim (Bool-cases (str_eq v.venue.id id)) [
    | inl e ↦ rw (e, e) refl
    | inr e ↦ rw (e, e) refl
  ]

  either_order :
      (p q : Option VenueId) (v : VenueLoop D)
      → kicked_by p (kicked_by q v) ≡ kicked_by q (kicked_by p v)
  either_order none q v = refl
  either_order (some i) none v = refl
  either_order (some i) (some j) v = whichever (str_eq v.venue.id i) (str_eq v.venue.id j) refl refl
    where
      whichever :
          (a b : Bool)
          → str_eq v.venue.id i ≡ a
          → str_eq v.venue.id j ≡ b
          → kicked_by (some i) (kicked_by (some j) v) ≡ kicked_by (some j) (kicked_by (some i) v)
      whichever true true e k = rw (e, k, e) refl
      whichever true false e k = rw (k, e, k) refl
      whichever false true e k = rw (k, e, k) refl
      whichever false false e k = rw (e, k) (rw e refl)

  ended :
      (v v' : VenueLoop D) (w u : Session D)
      → pure v w ≡ (ok v', u)
      → v.kick ≡ true
      → v'.kick ≡ true
  ended v v' w u h k = ground (arith, h, k)

  kick_waits :
      (es : List LoopEvent) (v v' : VenueLoop D) (w u : Session D)
      → any is_receive es ≡ false
      → v.kick ≡ true
      → wait_and_pass es v w ≡ (ok v', u)
      → v'.kick ≡ true
  unfolding wait_and_pass any
  kick_waits [] v v' w u n k h = ended v v' w u h k
  kick_waits (context_done ∷ es) v v' w u n k h = ended v v' w u h k
  kick_waits (reconnected payload ∷ es) v v' w u n k h =
      kick_waits es (kicked_by payload v) v' w u n (kicked_stays payload v k) h
  kick_waits (kick_received pace canceled ∷ es) v v' w u n k h = absurd (cc)
  kick_waits (interval_over pace canceled ∷ es) v v' w u n k h =
      let (o, x, e, g) = bind_ok (pass_once pace canceled v) _ w h in
      elim (pass_once_ok pace canceled v w x o e) [
        | inl q ↦ ended v v' x u (rw q at g) k
        | inr (v1, q, s, _) ↦ kick_waits es v1 v' x u n (s ∙ k) (rw q at g)
      ]

  -- A reconnect of the loop's venue is not lost: the loop holds the signal until it receives it, whatever
  -- passes the interval brings, with any faults, whatever other reconnects come, and wherever it ends
  -- with no error.
  pub reconnect_waits :
      (es : List LoopEvent) (v v' : VenueLoop D) (w u : Session D)
      → any is_receive es ≡ false
      → wait_and_pass (reconnected (some v.venue.id) ∷ es) v w ≡ (ok v', u)
      → v'.kick ≡ true
  unfolding wait_and_pass
  reconnect_waits es v v' w u n h =
      kick_waits es (kicked_by (some v.venue.id) v) v' w u n (rw (eq_refl v.venue.id) refl) h

  -- The signals of reconnects do not queue: handling one again changes nothing, and two come to the same
  -- in either order.
  pub handle_reconnect_coalesces :
      (p q : Option VenueId) (loops : List (VenueLoop D))
      → (handle_reconnect p (handle_reconnect p loops) ≡ handle_reconnect p loops)
        × (handle_reconnect p (handle_reconnect q loops)
            ≡ handle_reconnect q (handle_reconnect p loops))
  unfolding handle_reconnect
  handle_reconnect_coalesces p q [] = (refl, refl)
  handle_reconnect_coalesces p q (v ∷ vs) =
      let (a, b) = handle_reconnect_coalesces p q vs in
      (ap₂ (λ x l. x ∷ l) (twice p v) a, ap₂ (λ x l. x ∷ l) (either_order p q v) b)
