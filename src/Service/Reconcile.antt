-- ===== src/Service/Reconcile.antt =====
-- internal/service/reconcile/reconcile.go: one pass over the orders of a venue. Log lines and metrics
-- are left out, and a pass returns what it published: the orphans that it reports on the bus, whose
-- `Publish` returns no error. An error of the store in the loop over the open venue orders comes beside
-- what was published before it; one before that loop, where nothing is published yet, is the pass's own.
-- The map from client order IDs is the list of snapshots, read from its end.
pub mod Converge
pub mod Loop
pub mod Reports
use delta_works.Base.{
  ℕ, suc, ◌+◌, ◌*◌, ◌-◌, Bool, true, false, not, ◌&&◌, ◌||◌, List, [], ◌∷◌, Option, none, some,
  String, if◌then◌else◌, str_eq, ltb, map, any,
}
use delta_works.Errors.{Result, ok, err, Error, is, wrap, not_found, other}
use delta_works.Decimal.{Decimals, equal, zero_decimal}
use delta_works.Domain.Instrument.{VenueId, Currency}
use delta_works.Domain.Order.{
  Time, is_zero_time, ClientOrderId, OrderRecord, Ref, Snapshot, Event, reconcile, pending,
  same_status,
}
use delta_works.Postgres.Session.{Session, Tx, pure, raise, ◌>>=◌, ◌>>◌, attempt}
use delta_works.Postgres.OrderStore.{ApplyResult, apply_event}
use delta_works.Postgres.OrderMethods.{get_order, list_active_orders}
use delta_works.Service.Orders.{Placer, Venue}

-- internal/events/events.go: an unknown venue order, which is never adopted.
pub record OrphanPayload : Type 0 where
  pub venue : VenueId
  pub venue_order_id : String
  pub client_order_id : ClientOrderId
  pub base : Currency
  pub quote : Currency

-- The clock of a pass and the configured interval.
pub record Pace : Type 0 where
  pub now : Time
  pub interval : ℕ

-- What one loop over the open venue orders gathers until an error of the store ends it: the venue order
-- IDs of the orphans of this pass, the orphans that the last pass had not seen, which are published, and
-- the error.
pub record Orphans : Type 0 where
  pub current : List String
  pub published : List OrphanPayload
  pub failure : Option Error

abbrev pub is_among : String → List String → Bool
is_among s l = any (str_eq s) l

module _ {D : Type 0} where
  -- The map `venueByClient`: a later snapshot of the same ID replaces an earlier one, and one without
  -- a client order ID is not in it.
  unfoldable pub snapshot_of : ClientOrderId → List (Snapshot D) → Option (Snapshot D)
  snapshot_of id [] = none
  snapshot_of id (s ∷ ss) = elim (snapshot_of id ss) [
    | some t ↦ some t
    | none ↦
        if not (str_eq s.ref.client_order_id "") && str_eq s.ref.client_order_id id
        then some s
        else none
  ]

  abbrev pub stored_ref : OrderRecord D → Ref D
  stored_ref lo = record {
    instrument = lo.instrument;
    client_order_id = lo.client_order_id;
    venue_order_id = lo.venue_order_id;
  }

  -- The keys of the local order on a snapshot that was looked up for it.
  abbrev pub with_local_ref : Snapshot D → OrderRecord D → Snapshot D
  with_local_ref snap lo = record snap {
    ref = record snap.ref {
      client_order_id = lo.client_order_id;
      venue_order_id =
          if str_eq snap.ref.venue_order_id "" then lo.venue_order_id else snap.ref.venue_order_id;
    };
  }

  abbrev pub orphan_payload : VenueId → Snapshot D → OrphanPayload
  orphan_payload venue snap = record {
    venue = venue;
    venue_order_id = snap.ref.venue_order_id;
    client_order_id = snap.ref.client_order_id;
    base = snap.ref.instrument.base;
    quote = snap.ref.instrument.quote;
  }

module _ {D : Type 0} ⦃dec : Decimals D⦄ where
  -- The event that a snapshot stands for.
  abbrev pub snapshot_event : Time → Snapshot D → Event D
  snapshot_event now snap = record {
    ref = snap.ref;
    status = snap.status;
    filled_qty = snap.filled_qty;
    fill_price = snap.avg_fill_price;
    venue_fill_id = "";
    fee = zero_decimal;
    fee_currency = "";
    reason = "";
    at = if is_zero_time snap.updated_at then now else snap.updated_at;
  }

  abbrev pub after_apply : Result (ApplyResult D) → Tx D (Unit {0})
  after_apply (ok r) = pure tt
  after_apply (err e) =
      if is e not_found then pure tt else raise (wrap (other "reconcile store: apply event") e)

  unfoldable pub apply : Time → Snapshot D → Tx D (Unit {0})
  apply now snap = do r ← attempt (apply_event reconcile (snapshot_event now snap)); after_apply r

  -- A lookup at the venue that fails leaves the order to the next pass.
  abbrev pub apply_lookup : Time → OrderRecord D → Result (Snapshot D) → Tx D (Unit {0})
  apply_lookup now lo (err e) = pure tt
  apply_lookup now lo (ok snap) = apply now (with_local_ref snap lo)

  unfoldable pub reconcile_missing_active : Pace → Placer D → OrderRecord D → Tx D (Unit {0})
  reconcile_missing_active pace placer lo = do
    r ← attempt (placer.lookup_order (stored_ref lo))
    apply_lookup pace.now lo r

  -- A submit less than two intervals old, or that has no venue order ID, is left alone.
  unfoldable pub reconcile_pending : Pace → Placer D → OrderRecord D → Tx D (Unit {0})
  reconcile_pending pace placer lo =
      if ltb pace.now (lo.created_at + 2 * pace.interval)
      then pure tt
      else if str_eq lo.venue_order_id ""
      then pure tt
      else do r ← attempt (placer.lookup_order (stored_ref lo)); apply_lookup pace.now lo r

  -- Whether the snapshot says nothing that the local order does not have.
  abbrev pub agrees : Snapshot D → OrderRecord D → Bool
  agrees snap lo =
      same_status snap.status lo.status
      && equal snap.filled_qty lo.filled_qty
      && not (str_eq lo.venue_order_id "" && not (str_eq snap.ref.venue_order_id ""))

  abbrev pub reconcile_with :
      Pace → Placer D → OrderRecord D → Option (Snapshot D) → Tx D (Unit {0})
  reconcile_with pace placer lo (some snap) =
      if agrees snap lo then pure tt else apply pace.now snap
  reconcile_with pace placer lo none =
      if same_status lo.status pending
      then reconcile_pending pace placer lo
      else reconcile_missing_active pace placer lo

  unfoldable pub reconcile_local :
      Pace → Placer D → List (Snapshot D) → OrderRecord D → Tx D (Unit {0})
  reconcile_local pace placer snaps lo =
      reconcile_with pace placer lo (snapshot_of lo.client_order_id snaps)

  unfoldable pub reconcile_all :
      Pace → Placer D → List (Snapshot D) → List (OrderRecord D) → Tx D (Unit {0})
  reconcile_all pace placer snaps [] = pure tt
  reconcile_all pace placer snaps (lo ∷ los) = do
    reconcile_local pace placer snaps lo
    reconcile_all pace placer snaps los

  abbrev pub orphan_if_missing : Result (OrderRecord D) → Tx D Bool
  orphan_if_missing (ok stored) = pure false
  orphan_if_missing (err e) =
      if is e not_found then pure true else raise (wrap (other "reconcile store: get order") e)

  -- An order that is open at the venue although it is terminal here is no orphan.
  unfoldable pub is_orphan : Snapshot D → Tx D Bool
  is_orphan snap =
      if str_eq snap.ref.client_order_id ""
      then pure true
      else do r ← attempt (get_order snap.ref.client_order_id); orphan_if_missing r

  abbrev pub note_orphan : VenueId → List String → Snapshot D → Bool → Orphans → Orphans
  note_orphan venue last snap orphan found = if not orphan then found else record found {
    current = snap.ref.venue_order_id ∷ found.current;
    published =
        if is_among snap.ref.venue_order_id last
        then found.published
        else orphan_payload venue snap ∷ found.published;
  }

  abbrev pub is_local : List ClientOrderId → Snapshot D → Bool
  is_local ids snap =
      not (str_eq snap.ref.client_order_id "") && is_among snap.ref.client_order_id ids

  -- An error ends the loop; what was published before stays published.
  abbrev pub after_orphan :
      VenueId → List String → Snapshot D → Tx D Orphans → Result Bool → Tx D Orphans
  after_orphan venue last snap rest (err e) =
      pure (record { current = []; published = []; failure = some e })
  after_orphan venue last snap rest (ok orphan) = do
    found ← rest
    pure (note_orphan venue last snap orphan found)

  unfoldable pub reconcile_orphans :
      VenueId → List String → List ClientOrderId → List (Snapshot D) → Tx D Orphans
  reconcile_orphans venue last ids [] =
      pure (record { current = []; published = []; failure = none })
  reconcile_orphans venue last ids (snap ∷ snaps) =
      let rest = reconcile_orphans venue last ids snaps in
      attempt (if is_local ids snap then pure false else is_orphan snap)
      >>= after_orphan venue last snap rest

  abbrev pub active_or_wrap : Result (List (OrderRecord D)) → Tx D (List (OrderRecord D))
  active_or_wrap (ok los) = pure los
  active_or_wrap (err e) = raise (wrap (other "reconcile store: list active orders") e)

  abbrev pub pass_over : Pace → Venue D → List String → Result (List (Snapshot D)) → Tx D Orphans
  pass_over pace v last (err e) = pure (record { current = last; published = []; failure = none })
  pass_over pace v last (ok snaps) = do
    listed ← attempt (list_active_orders v.id)
    los ← active_or_wrap listed
    reconcile_all pace v.placer snaps los
    reconcile_orphans v.id last (map (λ lo. lo.client_order_id) los) snaps

  -- One pass; a venue that cannot list its open orders skips it.
  unfoldable pub pass : Pace → Venue D → List String → Tx D Orphans
  pass pace v last = do r ← attempt v.placer.open_orders; pass_over pace v last r
