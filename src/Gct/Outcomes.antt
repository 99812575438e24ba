-- ===== src/Gct/Outcomes.antt =====
-- internal/adapters/gct/orders.go: what the callers of the adapter may conclude from its answers.
use mathlib.Core.Path.{ap₂}
use delta_works.Base.{
  ◌≡◌, ◌≢◌, refl, ap, Bool, true, false, ◌||◌, List, [], ◌∷◌, map, Option, none, some, All, String,
  str_eq, eq_iff, Bool-cases, inl, inr, arith,
}
use delta_works.Decimal.{Decimals}
use delta_works.Errors.{Result, ok, err, Error, is, not_found, order_not_found}
use delta_works.Domain.Instrument.{VenueId}
use delta_works.Domain.Order.{Time, Status, Request, Ack, Ref, Snapshot}
use delta_works.Domain.Order.Machine.Step.{is_known}
use delta_works.Gct.{Asset, asset_spot, Detail, SubmitResponse, Submit, Values, Bot}
use delta_works.Gct.Convert.{with_context, to_gct_asset, to_gct_pair_asset}
use delta_works.Gct.ConvertOrders.{to_gct_submit, to_status, to_ref, to_snapshot}
use delta_works.Gct.Adapter.{
  after_call, settled, map_result, classify, classified, status_or_open, ack_of, acknowledge,
  prepend, place_order, to_snapshots, open_orders, looked_up, get_order,
}
use delta_works.Gct.Known.{
  names_known, to_status_known, is_error_of, to_snapshot_error, to_snapshot_known,
}

-- The answer of a venue that it has no such order.
abbrev pub is_missing : {A : Type 0} → Result (Option A) → Bool
is_missing (ok none) = true
is_missing (ok (some a)) = false
is_missing (err e) = is e order_not_found || is e not_found

open_status_known : (r : Result Status) → names_known r ≡ true → is_known (status_or_open r) ≡ true
open_status_known (ok t) h = h
open_status_known (err e) h = refl

classify-not_found : (e : Error) → is (classify e) not_found ≡ is e not_found
unfolding classify is
classify-not_found e = ground arith

ok_same : {A : Type 0} {a b : A} → ok a ≡ ok b → a ≡ b
ok_same h = cc

with_context_ok :
    {A : Type 0} (message : String) (r : Result A) {a : A}
    → with_context message r ≡ ok a
    → r ≡ ok a
with_context_ok message (ok b) h = h
with_context_ok message (err e) h = absurd (cc)

module _ {W D P F : Type 0} ⦃dec : Decimals D⦄ (values : Values D P F) (bot : Bot W P F)
    (id : VenueId) (now : Time) where
  looked_up_missing :
      (r : Result (Option (Detail P F)))
      → is_error_of (looked_up values bot id now r) ≡ is_missing r
  unfolding is
  looked_up_missing (ok none) = refl
  looked_up_missing (ok (some d)) = to_snapshot_error values now id d
  looked_up_missing (err e) = ground (arith, classify-not_found e)

  -- For an order with a venue order ID and a pair, a lookup fails with `ErrNotFound` exactly if the venue
  -- answers that it has no such order, or answers nothing: any other failure, and an order whose status
  -- has no name here, are errors that are not `ErrNotFound`.
  pub get_order-not_found :
      (ref : Ref D) (w : W) (pair : P) (item : Asset)
      → ref.venue_order_id ≢ ""
      → to_gct_pair_asset values bot ref.instrument ≡ ok (pair, item)
      → is_error_of (get_order values bot id now ref w).0
        ≡ is_missing (bot.get_order_info ref.venue_order_id pair item w).0
  unfolding get_order
  get_order-not_found ref w pair item some_id paired =
      elim (Bool-cases (str_eq ref.venue_order_id "")) [
        | inl e ↦ absurd (some_id ((eq_iff ref.venue_order_id "").0 e))
        | inr e ↦
            simp (e, paired)
              (looked_up_missing (bot.get_order_info ref.venue_order_id pair item w).0)
      ]

  -- When the venue answers a submission of an order with a response, the caller gets an acknowledgment
  -- with the caller's ID of the order, the venue's ID of it, and a status that the order machine knows,
  -- also if the status of the response has no name here.
  pub place_order_acknowledged :
      (req : Request D) (w u : W) (submit : Submit P F) (resp : SubmitResponse)
      → to_gct_submit values bot req ≡ ok submit
      → bot.submit_order submit w ≡ (ok (some resp), u)
      → (ack : Ack D) × (place_order values bot id now req w ≡ (ok ack, u))
        × (ack.ref.client_order_id ≡ req.client_order_id)
        × (ack.ref.venue_order_id ≡ resp.order_id)
        × (is_known ack.status ≡ true)
  unfolding place_order acknowledge
  place_order_acknowledged req w u submit resp made answered = (
    ack_of req now resp,
    rw (made, answered) refl,
    refl,
    refl,
    open_status_known (to_status resp.status) (to_status_known resp.status),
  )

  prepend_ok :
      {A : Type 0} (r : Result A) (rest : Result (List A)) (out : List A)
      → prepend r rest ≡ ok out
      → (a : A) × (others : List A) × (r ≡ ok a) × (rest ≡ ok others) × (a ∷ others ≡ out)
  prepend_ok (err e) rest out h = absurd (cc)
  prepend_ok (ok a) (err e) out h = absurd (cc)
  prepend_ok (ok a) (ok others) out h = (a, others, refl, refl, cc)

  abbrev pub Lists : List (Detail P F) → List (Snapshot D) → Type 0
  Lists ds snaps =
      (map (λ s. s.ref) snaps ≡ map (to_ref values now id) ds)
      × All (λ s. is_known s.status ≡ true) snaps

  to_snapshots-Lists :
      (ds : List (Detail P F)) (snaps : List (Snapshot D))
      → to_snapshots values bot id now ds ≡ ok snaps
      → Lists ds snaps
  unfolding to_snapshots
  to_snapshots-Lists [] snaps h = rw (← ok_same h) (refl, tt)
  to_snapshots-Lists (d ∷ ds) snaps h =
      let (a, rest, ea, erest, e) = prepend_ok (to_snapshot values now id d) _ snaps h in
      let (ref, known) = to_snapshot_known values now id d a ea in
      let (refs, knowns) = to_snapshots-Lists ds rest erest in
      rw (← e) (ap₂ ◌∷◌ ref refs, (known, knowns))

  listed :
      (answer : Result (List (Detail P F)) × W) (u : W) (snaps : List (Snapshot D))
      → after_call
          (λ ds. settled (with_context "gct: open orders" (to_snapshots values bot id now ds)))
          (map_result (classified "gct: open orders") answer)
        ≡ (ok snaps, u)
      → (ds : List (Detail P F)) × (answer ≡ (ok ds, u)) × Lists ds snaps
  listed (err e, v) u snaps h = absurd (cc (ap (λ x. x.0) h))
  listed (ok ds, v) u snaps h = (
    ds,
    ap (λ x. (ok ds, x.1)) h,
    to_snapshots-Lists ds snaps (with_context_ok "gct: open orders" _ (ap (λ x. x.0) h)),
  )

  -- A listing of the open orders that succeeds lists each order of the venue's answer, in its order,
  -- with its IDs and a status that the order machine knows: none is dropped.
  pub open_orders_complete :
      (w u : W) (snaps : List (Snapshot D))
      → open_orders values bot id now w ≡ (ok snaps, u)
      → (ds : List (Detail P F)) × (bot.get_active_orders asset_spot w ≡ (ok ds, u))
        × Lists ds snaps
  unfolding open_orders to_gct_asset
  open_orders_complete w u snaps h = listed (bot.get_active_orders asset_spot w) u snaps h
