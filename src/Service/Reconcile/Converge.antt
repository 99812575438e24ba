-- ===== src/Service/Reconcile/Converge.antt =====
-- internal/service/reconcile/reconcile.go: what a pass leaves in the tables.
use delta_works.Base.{◌≡◌, Bool, List, [], ◌∷◌, Option, none, some, String}
use delta_works.Errors.{Result, ok, err}
use delta_works.Decimal.{Decimals}
use delta_works.Domain.Instrument.{VenueId}
use delta_works.Domain.Order.{
  Time, ClientOrderId, OrderRecord, Ref, Snapshot, Event, Source, reconcile,
}
use delta_works.Postgres.Session.{Session, Tx}
use delta_works.Postgres.Session.Keeps.{
  Keeps, Keeps-bind, Keeps-if, Keeps-pure, Keeps-raise, Keeps-attempt, LeavesDb, Keeps-LeavesDb,
}
use delta_works.Postgres.OrderMethods.Reads.{get_order-LeavesDb, list_active-LeavesDb}
use delta_works.Postgres.OrderStore.{ApplyResult, apply_event}
use delta_works.Postgres.OrderStore.Invariant.{IsBalanced, apply_event-IsBalanced}
use delta_works.Service.Orders.{Placer, Venue}
use delta_works.Service.Reconcile.{
  Pace, apply, after_apply, apply_lookup, reconcile_missing_active, reconcile_pending,
  reconcile_with, reconcile_local, reconcile_all, orphan_if_missing, is_orphan, Orphans,
  after_orphan, reconcile_orphans, active_or_wrap, pass_over, pass, snapshot_event, snapshot_of,
}

module _ {D : Type 0} ⦃dec : Decimals D⦄ where
  -- The calls of a venue are not on the database.
  pub record LeavesTables (placer : Placer D) : Type 0 where
    pub open_orders_db : LeavesDb placer.open_orders
    pub lookup_order_db : (ref : Ref D) → LeavesDb (placer.lookup_order ref)

-- What every event leaves as it was, a pass leaves, if it depends on the tables alone.
module _ {D : Type 0} ⦃dec : Decimals D⦄ (P : Session D → Type 0)
    (same : (w u : Session D) → u.db ≡ w.db → P w → P u)
    (applied : (source : Source) (ev : Event D) → Keeps P (apply_event source ev)) where
  after_apply-Keeps : (r : Result (ApplyResult D)) → Keeps P (after_apply r)
  after_apply-Keeps (ok r) = Keeps-pure _
  after_apply-Keeps (err e) = Keeps-if _ _ _ (Keeps-pure _) (Keeps-raise _)

  apply-Keeps : (now : Time) (snap : Snapshot D) → Keeps P (apply now snap)
  unfolding apply
  apply-Keeps now snap =
      Keeps-bind _ _ (Keeps-attempt _ (applied reconcile (snapshot_event now snap)))
        after_apply-Keeps

  apply_lookup-Keeps :
      (now : Time) (lo : OrderRecord D) (r : Result (Snapshot D)) → Keeps P (apply_lookup now lo r)
  apply_lookup-Keeps now lo (err e) = Keeps-pure _
  apply_lookup-Keeps now lo (ok snap) = apply-Keeps now _

  module _ (pace : Pace) (placer : Placer D) (leaves : LeavesTables placer) where
    missing-Keeps : (lo : OrderRecord D) → Keeps P (reconcile_missing_active pace placer lo)
    unfolding reconcile_missing_active
    missing-Keeps lo =
        Keeps-bind _ _ (Keeps-attempt _ (Keeps-LeavesDb P same _ (leaves.lookup_order_db _)))
          (apply_lookup-Keeps pace.now lo)

    pending-Keeps : (lo : OrderRecord D) → Keeps P (reconcile_pending pace placer lo)
    unfolding reconcile_pending
    pending-Keeps lo = Keeps-if _ _ _ (Keeps-pure _) (
        Keeps-if _ _ _ (Keeps-pure _) (
          Keeps-bind _ _ (Keeps-attempt _ (Keeps-LeavesDb P same _ (leaves.lookup_order_db _)))
            (apply_lookup-Keeps pace.now lo)))

    with-Keeps :
        (lo : OrderRecord D) (s : Option (Snapshot D)) → Keeps P (reconcile_with pace placer lo s)
    with-Keeps lo (some snap) = Keeps-if _ _ _ (Keeps-pure _) (apply-Keeps pace.now snap)
    with-Keeps lo none = Keeps-if _ _ _ (pending-Keeps lo) (missing-Keeps lo)

    all-Keeps :
        (snaps : List (Snapshot D)) (los : List (OrderRecord D))
        → Keeps P (reconcile_all pace placer snaps los)
    unfolding reconcile_all reconcile_local
    all-Keeps snaps [] = Keeps-pure _
    all-Keeps snaps (lo ∷ los) =
        Keeps-bind _ _ (with-Keeps lo (snapshot_of lo.client_order_id snaps))
          (λ _. all-Keeps snaps los)

  is_orphan-Keeps : (snap : Snapshot D) → Keeps P (is_orphan snap)
  unfolding is_orphan
  is_orphan-Keeps snap = Keeps-if _ _ _ (Keeps-pure _) (
      Keeps-bind _ _
        (Keeps-attempt _ (Keeps-LeavesDb P same _ (get_order-LeavesDb snap.ref.client_order_id)))
        missing)
    where
      missing : (r : Result (OrderRecord D)) → Keeps P (orphan_if_missing r)
      missing (ok stored) = Keeps-pure _
      missing (err e) = Keeps-if _ _ _ (Keeps-pure _) (Keeps-raise _)

  after_orphan-Keeps :
      (venue : VenueId) (last : List String) (snap : Snapshot D) (rest : Tx D Orphans)
      → Keeps P rest
      → (r : Result Bool) → Keeps P (after_orphan venue last snap rest r)
  after_orphan-Keeps venue last snap rest k (err e) = Keeps-pure _
  after_orphan-Keeps venue last snap rest k (ok o) = Keeps-bind _ _ k (λ f. Keeps-pure _)

  orphans-Keeps :
      (venue : VenueId) (last : List String) (ids : List ClientOrderId) (snaps : List (Snapshot D))
      → Keeps P (reconcile_orphans venue last ids snaps)
  unfolding reconcile_orphans
  orphans-Keeps venue last ids [] = Keeps-pure _
  orphans-Keeps venue last ids (snap ∷ snaps) =
      Keeps-bind _ _ (Keeps-attempt _ (Keeps-if _ _ _ (Keeps-pure _) (is_orphan-Keeps snap)))
        (after_orphan-Keeps venue last snap _ (orphans-Keeps venue last ids snaps))

  active_or_wrap-Keeps : (r : Result (List (OrderRecord D))) → Keeps P (active_or_wrap r)
  active_or_wrap-Keeps (ok los) = Keeps-pure _
  active_or_wrap-Keeps (err e) = Keeps-raise _

  pass_over-Keeps :
      (pace : Pace) (v : Venue D) (last : List String) (r : Result (List (Snapshot D)))
      → LeavesTables v.placer
      → Keeps P (pass_over pace v last r)
  pass_over-Keeps pace v last (err e) leaves = Keeps-pure _
  pass_over-Keeps pace v last (ok snaps) leaves =
      Keeps-bind _ _ (Keeps-attempt _ (Keeps-LeavesDb P same _ (list_active-LeavesDb v.id)))
        (λ listed. Keeps-bind _ _ (active_or_wrap-Keeps listed) (λ los.
          Keeps-bind _ _ (all-Keeps pace v.placer leaves snaps los)
            (λ _. orphans-Keeps v.id last _ snaps)))

  pass-Keeps :
      (pace : Pace) (v : Venue D) (last : List String)
      → LeavesTables v.placer
      → Keeps P (pass pace v last)
  unfolding pass
  pass-Keeps pace v last leaves =
      Keeps-bind _ _ (Keeps-attempt _ (Keeps-LeavesDb P same _ leaves.open_orders_db))
        (λ r. pass_over-Keeps pace v last r leaves)

module _ {D : Type 0} ⦃dec : Decimals D⦄ where
  -- A pass over a venue whose calls are not on the database, with any faults and wherever it stops:
  -- the stored cumulative fill of every order stays the sum of the quantities of the order's fills.
  pub pass-IsBalanced :
      (pace : Pace) (v : Venue D) (last : List String) (w : Session D)
      → LeavesTables v.placer
      → IsBalanced w.db
      → IsBalanced (pass pace v last w).1.db
  pass-IsBalanced pace v last w leaves =
      (pass-Keeps (λ w. IsBalanced w.db) (λ w u e h. rw e h)
          (λ source ev. record { at = λ w h. apply_event-IsBalanced source ev w h }) pace v last
          leaves).at
        w
