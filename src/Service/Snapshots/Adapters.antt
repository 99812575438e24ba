-- ===== src/Service/Snapshots/Adapters.antt =====
-- internal/app/app.go: the snapshot service over the series writer of internal/adapters/questdb and the
-- checkpoint store of internal/adapters/postgres. The line sender, the conversion to a float64 and what
-- the bus does with a publication are parameters.
use mathlib.Core.List.{append-nil, append_assoc}
use delta_works.Base.{
  ◌≡◌, refl, sym, ap, ◌∙◌, ◌⊎◌, inl, inr, List, [], ◌∷◌, ◌++◌, String, Bool-cases, any,
}
use delta_works.Decimal.{Decimals}
use delta_works.Errors.{Result, ok, Error}
use delta_works.Domain.Instrument.{VenueId}
use delta_works.Domain.Account.{AccountType, AccountSnapshot, Balance, Checkpoint}
use delta_works.Domain.Order.{Time}
use delta_works.Exchange.{Call, Exchange, Registry, get_venue}
use delta_works.Postgres.Session.{Session, Fault, fine, refused, reply_lost, fault_of, autocommit}
use delta_works.Postgres.Checkpoints.{record_snapshot, record_snapshot_row, has_checkpoint_id}
use delta_works.Postgres.Checkpoints.Latest.{stored_at}
use delta_works.Questdb.{Line, LineSender, balance_lines, write_balance_snapshot, flush}
use delta_works.Questdb.Writes
use delta_works.Questdb.Writes.{lines_added, lines_keep, flush_keeps, flush_ok}
use delta_works.Service.Snapshots.{Stores, SnapshotService, Fetched, Pass, fetch, poll}
use delta_works.Service.Snapshots.Anchors.{View, Leaves, Documented, IsAnchored, kept_by_poll}

-- What the adapters keep: the line sender, the session of the database, the bus.
pub record Backing (S D B : Type 0) : Type 0 where
  pub series : S
  pub session : Session D
  pub bus : B

module _ {S D B : Type 0} where
  abbrev pub with_series : Backing S D B → Result (Unit {0}) × S → Result (Unit {0}) × Backing S D B
  with_series w (r, x) = (r, record w { series = x })

  abbrev pub with_session :
      Backing S D B → Result (Unit {0}) × Session D → Result (Unit {0}) × Backing S D B
  with_session w (r, x) = (r, record w { session = x })

  abbrev pub with_bus : Backing S D B → Result (Unit {0}) × B → Result (Unit {0}) × Backing S D B
  with_bus w (r, x) = (r, record w { bus = x })

module _ {S D B F : Type 0} ⦃dec : Decimals D⦄ (to_float : D → F) (sender : LineSender S F)
    (publish : AccountSnapshot D → Call B (Unit {0})) where
  abbrev pub adapters : Stores (Backing S D B) D
  adapters = record {
    write_balance_snapshot =
        λ s w. with_series w (write_balance_snapshot to_float sender s w.series);
    flush = λ w. with_series w (flush sender w.series);
    record_snapshot = λ c w. with_session w (record_snapshot c w.session);
    publish_taken = λ s w. with_bus w (publish s w.bus);
  }

  -- The service as `newSnapshotService` wires it.
  abbrev pub new_snapshot_service :
      Registry (Backing S D B) D
      → (Call (Backing S D B) (Fetched D) → Call (Backing S D B) (List (Balance D)))
      → (Error → String)
      → SnapshotService (Backing S D B) D
  new_snapshot_service registry retry text = record {
    registry = registry;
    stores = adapters;
    retry = retry;
    text = text;
  }

-- The rows that stand in a list, one after the other.
abbrev pub Contains : {A : Type 0} → List A → List A → Type 0
Contains {A} ls all = (before after : List A) × (all ≡ before ++ ls ++ after)

Contains-more :
    {A : Type 0} (ls all all' more : List A)
    → all' ≡ all ++ more
    → Contains ls all
    → Contains ls all'
Contains-more ls all all' more e (before, after, h) =
    (before, after ++ more, e ∙ ap (λ x. x ++ more) h ∙ append_assoc (before ++ ls) after more)

module _ {S D B F : Type 0} ⦃dec : Decimals D⦄ (to_float : D → F) (sender : LineSender S F)
    (publish : AccountSnapshot D → Call B (Unit {0})) (buffer sent : S → List (Line F)) where
  -- The checkpoints are the rows of their table. A snapshot is written if its rows wait at the sender or
  -- were sent, and durable if they were sent.
  abbrev pub seen : View (Backing S D B) D
  seen = record {
    checkpoints = λ w. w.session.db.checkpoints;
    IsWritten = λ s w. Contains (balance_lines to_float s) (sent w.series ++ buffer w.series);
    IsDurable = λ s w. Contains (balance_lines to_float s) (sent w.series);
  }

  record_adds :
      (c : Checkpoint) (w : Session D)
      → ((record_snapshot c w).1.db.checkpoints ≡ w.db.checkpoints)
        ⊎ ((t : Time) × ((record_snapshot c w).1.db.checkpoints
              ≡ w.db.checkpoints ++ stored_at c t ∷ []))
  unfolding record_snapshot record_snapshot_row autocommit
  record_adds c w = faulty (fault_of w.faults) refl
    where
      faulty :
          (f : Fault)
          → fault_of w.faults ≡ f
          → ((record_snapshot c w).1.db.checkpoints ≡ w.db.checkpoints)
            ⊎ ((t : Time) × ((record_snapshot c w).1.db.checkpoints
                  ≡ w.db.checkpoints ++ stored_at c t ∷ []))
      faulty refused e = inl (rw e refl)
      faulty fine e = elim (Bool-cases (any (has_checkpoint_id c.id) w.db.checkpoints)) [
        | inl k ↦ inl (rw (e, k) refl)
        | inr k ↦ inr (w.now, rw (e, k) refl)
      ]
      faulty reply_lost e = elim (Bool-cases (any (has_checkpoint_id c.id) w.db.checkpoints)) [
        | inl k ↦ inl (rw (e, k) refl)
        | inr k ↦ inr (w.now, rw (e, k) refl)
      ]

  module _ (laws : Writes.Documented sender buffer sent) where
    -- The adapters do what the service relies on.
    adapters-Documented : Documented seen (adapters to_float sender publish)
    unfolding write_balance_snapshot
    adapters-Documented = record {
      write_leaves = λ s w. (
        refl,
        (λ x h.
            let (more, e) =
              lines_keep sender buffer sent laws "questdb: write balance" (balance_lines to_float s)
                w.series in
            Contains-more (balance_lines to_float x) _ _ more e h),
      );
      write_writes = λ s w u h. (
        sent w.series ++ buffer w.series,
        [],
        lines_added sender buffer sent laws "questdb: write balance" (balance_lines to_float s)
              w.series u.series (ap (λ x. (x.0, x.1.series)) h)
            ∙ sym (append-nil _),
      );
      flush_leaves = λ w. (
        refl,
        (λ x h.
            let (more, e) = flush_keeps sender buffer sent laws w.series in
            Contains-more (balance_lines to_float x) _ _ more e h),
      );
      flush_lasts = λ s w u k h.
          let (before, after, e) = k in
          let sends =
            flush_ok sender buffer sent laws w.series u.series (ap (λ x. (x.0, x.1.series)) h) in
          (before, after, sends ∙ e);
      publish_leaves = λ s w. (refl, (λ x h. h));
      record_adds = λ c w. record_adds c w.session;
      record_lasts = λ c s w h. h;
    }

    -- Over any sequence of passes of any targets, with any answers of the venues and any faults of the
    -- database and the series store, each stored checkpoint that is ok stands for a snapshot of its
    -- account and, to the microsecond, its time, whose rows the series store has been sent, with as many
    -- balances that are not zero as it says, in 32 bits, if each did before. The line sender is taken to
    -- do what its library documents, and a fetch from a venue of the registry to leave the stored
    -- checkpoints and the rows that were sent.
    pub poll-IsAnchored :
        (registry : Registry (Backing S D B) D)
        (retry : Call (Backing S D B) (Fetched D) → Call (Backing S D B) (List (Balance D)))
        (text : Error → String)
        → ((v : VenueId) (ex : Exchange (Backing S D B) D) (acct : AccountType) (w : Backing S D B)
            → get_venue registry v ≡ ok ex
            → Leaves seen w (retry (fetch ex acct) w).1)
        → (ps : List Pass) (w : Backing S D B) → IsAnchored seen w
        → IsAnchored seen
            (poll (new_snapshot_service to_float sender publish registry retry text) ps w)
    poll-IsAnchored registry retry text fetch-Leaves =
        kept_by_poll seen (new_snapshot_service to_float sender publish registry retry text)
          adapters-Documented fetch-Leaves
