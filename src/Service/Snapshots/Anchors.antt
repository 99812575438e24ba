-- ===== src/Service/Snapshots/Anchors.antt =====
-- internal/service/snapshot/snapshot.go: what a checkpoint means.
use delta_works.Base.{
  ◌≡◌, refl, ap, ◌∙◌, ◌⊎◌, inl, inr, Bool, true, false, List, [], ◌∷◌, ◌++◌, All, length,
  if◌then◌else◌, String,
}
use delta_works.Decimal.{Decimals}
use delta_works.Decimal.Integers.{pos}
use delta_works.Errors.{Result, ok, err, Error, is_ok}
use delta_works.Domain.Instrument.{VenueId}
use delta_works.Domain.Account.{
  AccountType, AccountSnapshot, Balance, Checkpoint, status_ok, status_failed, non_zero,
  account_type_text, checkpoint_status_text,
}
use delta_works.Domain.Order.{Time}
use delta_works.Exchange.{Exchange, get_venue}
use delta_works.Postgres.Schema.{CheckpointRow, micros}
use delta_works.Postgres.Checkpoints.{int32}
use delta_works.Postgres.Checkpoints.Latest.{stored_at}
use delta_works.Service.Snapshots.{
  Stores, SnapshotService, Pass, fetch, flush_after, write_series, unless_done, record_checkpoint,
  taken, failed_checkpoint, ok_checkpoint, announce, after_series, after_fetch, with_exchange,
  snapshot, poll,
}

-- What can be seen of the state: the stored checkpoints, the snapshots that were written, and those
-- that are durable.
pub record View (W D : Type 0) : Type 1 where
  pub checkpoints : W → List CheckpointRow
  pub IsWritten : AccountSnapshot D → W → Type 0
  pub IsDurable : AccountSnapshot D → W → Type 0

failed_text : checkpoint_status_text status_failed ≡ checkpoint_status_text status_ok → ⊥
failed_text h = absurd (cc)

module _ {W D : Type 0} where
  -- A call that records no checkpoint and loses no durable snapshot.
  abbrev pub Leaves : View W D → W → W → Type 0
  Leaves view w u =
      (view.checkpoints u ≡ view.checkpoints w)
      × ((s : AccountSnapshot D) → view.IsDurable s w → view.IsDurable s u)

-- What the service relies on: `Flush` makes the written rows durable, `RecordSnapshot` adds at most the
-- row of its checkpoint, whatever it returns, and nothing else touches the checkpoints or loses a
-- durable row.
pub record Documented {W D : Type 0} (view : View W D) (stores : Stores W D) : Type 0 where
  pub write_leaves :
      (s : AccountSnapshot D) (w : W) → Leaves view w (stores.write_balance_snapshot s w).1
  pub write_writes :
      (s : AccountSnapshot D) (w u : W)
      → stores.write_balance_snapshot s w ≡ (ok tt, u)
      → view.IsWritten s u
  pub flush_leaves : (w : W) → Leaves view w (stores.flush w).1
  pub flush_lasts :
      (s : AccountSnapshot D) (w u : W)
      → view.IsWritten s w
      → stores.flush w ≡ (ok tt, u)
      → view.IsDurable s u
  pub publish_leaves : (s : AccountSnapshot D) (w : W) → Leaves view w (stores.publish_taken s w).1
  pub record_adds :
      (c : Checkpoint) (w : W)
      → (view.checkpoints (stores.record_snapshot c w).1 ≡ view.checkpoints w)
        ⊎ ((t : Time) × (view.checkpoints (stores.record_snapshot c w).1
              ≡ view.checkpoints w ++ stored_at c t ∷ []))
  pub record_lasts :
      (c : Checkpoint) (s : AccountSnapshot D) (w : W)
      → view.IsDurable s w
      → view.IsDurable s (stores.record_snapshot c w).1

module _ {W D : Type 0} ⦃dec : Decimals D⦄ (view : View W D) where
  -- An ok checkpoint stands for a durable snapshot of its account and, to the microsecond, its time,
  -- with as many balances that are not zero as it says, in the 32 bits of its column.
  abbrev pub IsAnchor : W → CheckpointRow → Type 0
  IsAnchor w row =
      row.status ≡ checkpoint_status_text status_ok
      → (s : AccountSnapshot D) × view.IsDurable s w
        × (row.venue ≡ s.account.venue)
        × (row.account_type ≡ account_type_text s.account.type)
        × (row.taken_at ≡ micros s.taken_at)
        × (row.balance_count ≡ int32 (pos (length (non_zero s))))

  abbrev pub IsAnchored : W → Type 0
  IsAnchored w = All (IsAnchor w) (view.checkpoints w)

  leaves_each :
      (w u : W)
      → ((s : AccountSnapshot D) → view.IsDurable s w → view.IsDurable s u)
      → (cs : List CheckpointRow) → All (IsAnchor w) cs
      → All (IsAnchor u) cs
  leaves_each w u keep [] h = tt
  leaves_each w u keep (c ∷ cs) h = (
    (λ good. let (s, durable, v, a, t, n) = h.0 good in (s, keep s durable, v, a, t, n)),
    leaves_each w u keep cs h.1,
  )

  Leaves-IsAnchored : (w u : W) → Leaves view w u → IsAnchored w → IsAnchored u
  Leaves-IsAnchored w u (same, keep) h = rw same (leaves_each w u keep (view.checkpoints w) h)

  IsAnchor-added :
      (w : W) (cs : List CheckpointRow) (row : CheckpointRow)
      → All (IsAnchor w) cs
      → IsAnchor w row
      → All (IsAnchor w) (cs ++ row ∷ [])
  IsAnchor-added w [] row h k = (k, tt)
  IsAnchor-added w (c ∷ cs) row h k = (h.0, IsAnchor-added w cs row h.1 k)

  module _ (stores : Stores W D) (laws : Documented view stores) where
    done_state :
        (canceled : Bool) (answer : Result (Unit {0}) × W)
        → (unless_done canceled answer).1 ≡ answer.1
    done_state canceled (ok _, w) = refl
    done_state true (err e, w) = refl
    done_state false (err e, w) = refl

    record-IsAnchored :
        (canceled : Bool) (c : Checkpoint) (w : W)
        → IsAnchored w
        → ((t : Time) → IsAnchor (stores.record_snapshot c w).1 (stored_at c t))
        → IsAnchored (record_checkpoint stores canceled c w).1
    unfolding record_checkpoint
    record-IsAnchored canceled c w h k = rw (done_state canceled (stores.record_snapshot c w)) (
        let kept =
          leaves_each w (stores.record_snapshot c w).1 (λ s. laws.record_lasts c s w)
            (view.checkpoints w) h in
        elim (laws.record_adds c w) [
          | inl e ↦ rw e kept
          | inr (t, e) ↦ rw e (IsAnchor-added _ (view.checkpoints w) (stored_at c t) kept (k t))
        ])

    failed-IsAnchored :
        (canceled : Bool) (text : Error → String) (p : Pass) (e : Error) (w : W)
        → IsAnchored w
        → IsAnchored (record_checkpoint stores canceled (failed_checkpoint text p e) w).1
    failed-IsAnchored canceled text p e w h =
        record-IsAnchored canceled (failed_checkpoint text p e) w h
          (λ t good. absurd (failed_text good))

    flushed :
        (s : AccountSnapshot D) (w : W) (answer : Result (Unit {0}) × W)
        → stores.write_balance_snapshot s w ≡ answer
        → Leaves view w (flush_after stores answer).1
          × ((flush_after stores answer).0 ≡ ok tt → view.IsDurable s (flush_after stores answer).1)
    flushed s w (err e, u) h = (rw h at (laws.write_leaves s w), (λ bad. absurd (cc)))
    flushed s w (ok _, u) h =
        let (a, b) = rw h at (laws.write_leaves s w) in
        let (c, d) = laws.flush_leaves u in
        (
          (c ∙ a, (λ x k. d x (b x k))),
          (λ good.
              laws.flush_lasts s u _ (laws.write_writes s w u h)
                (ap (λ x. (x, (stores.flush u).1)) good)),
        )

    series-Leaves :
        (s : AccountSnapshot D) (w : W)
        → Leaves view w (write_series stores s w).1
          × ((write_series stores s w).0 ≡ ok tt → view.IsDurable s (write_series stores s w).1)
    unfolding write_series
    series-Leaves s w = flushed s w (stores.write_balance_snapshot s w) refl

  module _ (s : SnapshotService W D) (laws : Documented view s.stores)
      (fetch-Leaves : (v : VenueId) (ex : Exchange W D) (acct : AccountType) (w : W)
        → get_venue s.registry v ≡ ok ex
        → Leaves view w (s.retry (fetch ex acct) w).1) where
    announce-IsAnchored :
        (snap : AccountSnapshot D) (answer : Result (Unit {0}) × W)
        → IsAnchored answer.1
        → IsAnchored (announce s.stores snap answer).1
    announce-IsAnchored snap (err e, w) h = h
    announce-IsAnchored snap (ok _, w) h = Leaves-IsAnchored w _ (laws.publish_leaves snap w) h

    after_series-IsAnchored :
        (p : Pass) (bs : List (Balance D)) (answer : Result (Unit {0}) × W)
        → IsAnchored answer.1
        → (answer.0 ≡ ok tt → view.IsDurable (taken p bs) answer.1)
        → IsAnchored (after_series s p bs answer).1
    after_series-IsAnchored p bs (err e, w) h durable =
        failed-IsAnchored s.stores laws p.canceled_later s.text p e w h
    after_series-IsAnchored p bs (ok _, w) h durable =
        announce-IsAnchored (taken p bs) (record_checkpoint s.stores false (ok_checkpoint p bs) w) (
          record-IsAnchored s.stores laws false (ok_checkpoint p bs) w h (λ t good.
            (taken p bs, laws.record_lasts _ _ w (durable refl), refl, refl, refl, refl)))

    after_fetch-IsAnchored :
        (p : Pass) (answer : Result (List (Balance D)) × W)
        → IsAnchored answer.1
        → IsAnchored (after_fetch s p answer).1
    after_fetch-IsAnchored p (err e, w) h =
        failed-IsAnchored s.stores laws p.canceled_later s.text p e w h
    after_fetch-IsAnchored p (ok bs, w) h =
        let (leaves, durable) = series-Leaves s.stores laws (taken p bs) w in
        after_series-IsAnchored p bs (write_series s.stores (taken p bs) w)
          (Leaves-IsAnchored w _ leaves h) durable

    unless_over-IsAnchored :
        (p : Pass) (canceled : Bool) (answer : Result (List (Balance D)) × W)
        → IsAnchored answer.1
        → IsAnchored (if canceled then (ok tt, answer.1) else after_fetch s p answer).1
    unless_over-IsAnchored p true answer h = h
    unless_over-IsAnchored p false answer h = after_fetch-IsAnchored p answer h

    with_exchange-IsAnchored :
        (p : Pass) (found : Result (Exchange W D)) (w : W)
        → get_venue s.registry p.target.venue ≡ found
        → IsAnchored w
        → IsAnchored (with_exchange s p found w).1
    with_exchange-IsAnchored p (err e) w listed h = h
    with_exchange-IsAnchored p (ok ex) w listed h =
        unless_over-IsAnchored p p.canceled (s.retry (fetch ex p.target.account) w)
          (Leaves-IsAnchored w _ (fetch-Leaves p.target.venue ex p.target.account w listed) h)

    pub snapshot-IsAnchored : (p : Pass) (w : W) → IsAnchored w → IsAnchored (snapshot s p w).1
    unfolding snapshot
    snapshot-IsAnchored p w h =
        with_exchange-IsAnchored p (get_venue s.registry p.target.venue) w refl h

    whichever : (b : Bool) (u v : W) → IsAnchored u → IsAnchored v → IsAnchored (if b then u else v)
    whichever true u v h k = h
    whichever false u v h k = k

    pub kept_by_poll : (ps : List Pass) (w : W) → IsAnchored w → IsAnchored (poll s ps w)
    unfolding poll
    kept_by_poll [] w h = h
    kept_by_poll (p ∷ ps) w h =
        let kept = snapshot-IsAnchored p w h in
        whichever (is_ok (snapshot s p w).0) _ _ (kept_by_poll ps (snapshot s p w).1 kept) kept
