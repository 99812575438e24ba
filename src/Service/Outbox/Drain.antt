-- ===== src/Service/Outbox/Drain.antt =====
-- internal/service/outbox/outbox.go: what was handed to the bus, over a whole drain.
use delta_works.Base.{ℕ, zero, suc, ◌-◌, refl, inl, inr, Bool, true, false, Bool-cases}
use delta_works.Errors.{Result, ok, err}
use delta_works.Postgres.Session.{Session, Tx, fault_of, is_fine}
use delta_works.Postgres.Session.Keeps.{
  Keeps, Keeps-bind, Keeps-if, Keeps-pure, Keeps-raise, Keeps-attempt, LeavesDb,
}
use delta_works.Postgres.OutboxStore.{
  unpublished_stats, publish_pending, deliver, delete_published_before,
}
use delta_works.Postgres.OutboxStore.Delivery.{IsDelivered, publish_pending-IsDelivered}
use delta_works.Service.Outbox.{unless_canceled, observe_backlog, drain, cleanup, retention}
use delta_works.Domain.Order.{Time}

module _ {D A : Type 0} {P : Session D → Type 0} where
  Keeps-unless_canceled :
      {B : Type 0} (canceled : Bool) (b : B) (next : A → Tx D B) (r : Result A)
      → ((a : A) → Keeps P (next a))
      → Keeps P (unless_canceled canceled b next r)
  Keeps-unless_canceled canceled b next (ok a) k = k a
  Keeps-unless_canceled true b next (err e) k = Keeps-pure b
  Keeps-unless_canceled false b next (err e) k = Keeps-raise _

module _ {D : Type 0} where
  stats-LeavesDb : LeavesDb {D = D} unpublished_stats
  unfolding unpublished_stats
  stats-LeavesDb w = elim (Bool-cases (is_fine (fault_of w.faults))) [
    | inl e ↦ rw e refl
    | inr e ↦ rw e refl
  ]

  stats-IsDelivered : Keeps {D = D} IsDelivered unpublished_stats
  unfolding unpublished_stats
  stats-IsDelivered = record {
    at = λ w h. elim (Bool-cases (is_fine (fault_of w.faults))) [ inl e ↦ rw e h | inr e ↦ rw e h ];
  }

-- What the statistics and a batch of the relay keep, a drain keeps; and a cleanup keeps what the
-- deletion keeps.
module _ {D : Type 0} (P : Session D → Type 0) where
  observe_backlog-Keeps :
      (canceled : Bool) → Keeps P unpublished_stats → Keeps P (observe_backlog canceled)
  unfolding observe_backlog
  observe_backlog-Keeps canceled counted =
      Keeps-bind _ _ (Keeps-attempt _ counted)
        (λ r. Keeps-unless_canceled canceled true _ r (λ _. Keeps-pure true))

  pub drain-Keeps :
      (fuel : ℕ) (canceled : Bool) (batch : ℕ)
      → Keeps P unpublished_stats
      → Keeps P (publish_pending batch deliver)
      → Keeps P (drain fuel canceled batch)
  unfolding drain
  drain-Keeps zero canceled batch counted published = Keeps-pure false
  drain-Keeps (suc fuel) canceled batch counted published =
      Keeps-bind _ _ (Keeps-attempt _ published) (λ r. Keeps-unless_canceled canceled true _ r (λ n.
        Keeps-if _ _ _ (observe_backlog-Keeps canceled counted)
          (drain-Keeps fuel canceled batch counted published)))

  pub cleanup-Keeps :
      (canceled : Bool) (now : Time)
      → Keeps P (delete_published_before (now - retention))
      → Keeps P (cleanup canceled now)
  unfolding cleanup
  cleanup-Keeps canceled now deleted =
      Keeps-bind _ _ (Keeps-attempt _ deleted)
        (λ r. Keeps-unless_canceled canceled true _ r (λ _. Keeps-pure true))

module _ {D : Type 0} where
  -- A drain, with any faults, however many batches it takes and wherever it stops: each row that is
  -- marked published afterwards was handed to the bus, if that held before.
  pub drain-IsDelivered :
      (fuel : ℕ) (canceled : Bool) (batch : ℕ) (w : Session D)
      → IsDelivered w
      → IsDelivered (drain fuel canceled batch w).1
  drain-IsDelivered fuel canceled batch =
      (drain-Keeps IsDelivered fuel canceled batch stats-IsDelivered
        (record { at = λ w h. publish_pending-IsDelivered batch w h })).at
