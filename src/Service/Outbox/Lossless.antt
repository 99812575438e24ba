-- ===== src/Service/Outbox/Lossless.antt =====
-- internal/service/outbox/outbox.go: what becomes of a row that waits in the outbox.
use delta_works.Base.{
  ℕ, ◌≡◌, refl, inl, inr, Bool, true, false, not, ◌&&◌, ◌||◌, List, [], ◌∷◌, ◌++◌, some, arith,
  ◌==◌, Bool-cases, Option-cases, update_where, any, keep, map,
}
use delta_works.Domain.Order.{Time}
use delta_works.Postgres.Schema.{OutboxRow}
use delta_works.Postgres.Session.{Session, Tx, fault_of, is_fine}
use delta_works.Postgres.Session.Keeps.{Keeps, Keeps-bind, Keeps-pure, Keeps-autocommit}
use delta_works.Postgres.Queries.{is_none}
use delta_works.Postgres.OutboxStore.{
  publish_pending, deliver, has_number, message_of, delete_published_before, published_before,
  unpublished_stats,
}
use delta_works.Postgres.OutboxStore.Delivery.{
  was_delivered, was_delivered-append, was_delivered-map, publish_pending-Batch, claimed, marked,
}
use delta_works.Service.Outbox.{
  drain, Wake, poll_due, cleanup_due, context_done, unless_stuck, loop, run,
}
use delta_works.Service.Outbox.Drain.{drain-Keeps, cleanup-Keeps}

module _ {D : Type 0} (n : ℕ) where
  abbrev pub waits_as : OutboxRow D → Bool
  waits_as r = r.id == n && is_none r.published_at

  -- The row of an ID still waits to be published, or its message was handed to the bus.
  abbrev pub IsKept : Session D → Type 0
  IsKept w = (any waits_as w.db.outbox || was_delivered n w.delivered) ≡ true

  marking_keeps :
      (ids : List ℕ) (now : Time) (rows : List (OutboxRow D))
      → any waits_as rows ≡ true
      → (any waits_as (
            update_where
              (λ r. has_number r.id ids)
              (λ r. record r { published_at = some now })
              rows)
          || has_number n ids)
        ≡ true
  unfolding any update_where
  marking_keeps ids now [] h = absurd (cc)
  marking_keeps ids now (r ∷ rows) h = elim (Bool-cases (waits_as r)) [
    | inl e ↦ ground arith
    | inr e ↦ ground (arith, marking_keeps ids now rows)
  ]

  deleting_keeps :
      (cutoff : Time) (rows : List (OutboxRow D))
      → any waits_as (keep (λ r. not (published_before cutoff r)) rows) ≡ any waits_as rows
  unfolding any keep
  deleting_keeps cutoff [] = refl
  deleting_keeps cutoff (r ∷ rows) = elim (Option-cases r.published_at) [
    | inl e ↦ rw (e, deleting_keeps cutoff rows) refl
    | inr (t, e) ↦ ground (arith, e, deleting_keeps cutoff rows)
  ]

  batch-IsKept : (limit : ℕ) (w : Session D) → IsKept w → IsKept (publish_pending limit deliver w).1
  batch-IsKept limit w h = elim (publish_pending-Batch limit w) [
    | inl (e, ms, d) ↦ ground (arith, e, d, was_delivered-append n w.delivered ms)
    | inr (e, d) ↦ rw (e, d) (marked_kept (claimed limit w.db))
  ]
    where
      marked_kept :
          (rows : List (OutboxRow D))
          → (any waits_as (marked w rows).outbox
              || was_delivered n (w.delivered ++ map message_of rows))
            ≡ true
      marked_kept rows =
          rw (was_delivered-append n w.delivered (map message_of rows), was_delivered-map n rows)
            (elim (Bool-cases (any waits_as w.db.outbox)) [
              | inl e ↦ ground (arith, marking_keeps (map (λ x. x.id) rows) w.now w.db.outbox e)
              | inr e ↦ ground (arith, e, h)
            ])

  delete-Keeps : (cutoff : Time) → Keeps IsKept (delete_published_before cutoff)
  unfolding delete_published_before
  delete-Keeps cutoff =
      Keeps-autocommit IsKept (λ w fs h. h) _
        (record { at = λ w h. rw (deleting_keeps cutoff w.db.outbox) h })

  stats-Keeps : Keeps IsKept unpublished_stats
  unfolding unpublished_stats
  stats-Keeps = record {
    at = λ w h. elim (Bool-cases (is_fine (fault_of w.faults))) [ inl e ↦ rw e h | inr e ↦ rw e h ];
  }

  some_drain-Keeps :
      (fuel : ℕ) (canceled : Bool) (batch : ℕ) → Keeps IsKept (drain fuel canceled batch)
  some_drain-Keeps fuel canceled batch =
      drain-Keeps IsKept fuel canceled batch stats-Keeps (record { at = batch-IsKept batch })

  unless_stuck-Keeps :
      (rest : Tx D Bool) (b : Bool) → Keeps IsKept rest → Keeps IsKept (unless_stuck rest b)
  unless_stuck-Keeps rest true k = k
  unless_stuck-Keeps rest false k = Keeps-pure false

  loop-Keeps : (fuel batch : ℕ) (wakes : List Wake) → Keeps IsKept (loop fuel batch wakes)
  unfolding loop
  loop-Keeps fuel batch [] = Keeps-pure true
  loop-Keeps fuel batch (context_done ∷ wakes) = Keeps-pure true
  loop-Keeps fuel batch (poll_due canceled ∷ wakes) =
      Keeps-bind _ _ (some_drain-Keeps fuel canceled batch)
        (λ b. unless_stuck-Keeps _ b (loop-Keeps fuel batch wakes))
  loop-Keeps fuel batch (cleanup_due canceled now ∷ wakes) =
      Keeps-bind _ _ (cleanup-Keeps IsKept canceled now (delete-Keeps _))
        (λ b. unless_stuck-Keeps _ b (loop-Keeps fuel batch wakes))

  -- Whatever wakes the relay, with any faults and wherever it stops: a row that waits to be published
  -- still waits afterwards, or its message was handed to the bus. No cleanup removes it before.
  pub run_loses_nothing :
      (fuel : ℕ) (canceled : Bool) (batch : ℕ) (wakes : List Wake) (w : Session D)
      → any waits_as w.db.outbox ≡ true
      → IsKept (run fuel canceled batch wakes w).1
  unfolding run
  run_loses_nothing fuel canceled batch wakes w h =
      (Keeps-bind _ _ (some_drain-Keeps fuel canceled batch)
          (λ b. unless_stuck-Keeps _ b (loop-Keeps fuel batch wakes))).at
        w (rw h refl)
