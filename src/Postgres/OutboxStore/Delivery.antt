-- ===== src/Postgres/OutboxStore/Delivery.antt =====
-- internal/adapters/postgres/outbox.go: the batches of the relay, and what was handed to the bus.
use mathlib.Core.List.{append-nil, append_assoc}
use delta_works.Base.{
  ℕ, ◌≡◌, refl, sym, ap, ◌∙◌, ◌⊎◌, inl, inr, Bool, true, false, ◌||◌, List, [], ◌∷◌, ◌++◌, some,
  if◌then◌else◌, arith, Bool-cases, update_where, All, ◌==◌, keep, sort, take, map, length,
}
use delta_works.Errors.{Result, ok, err}
use delta_works.Postgres.Schema.{OutboxRow, OutboxMessage, Db}
use delta_works.Postgres.Session.{
  Session, Tx, pure, ◌>>=◌, fault_of, later_faults, is_fine, db_error,
}
use delta_works.Postgres.Session.Laws.{begun, transaction_any}
use delta_works.Postgres.Queries.{is_none}
use delta_works.Postgres.OutboxStore.{
  claim_unpublished, mark_published, message_of, publish_rows, publish_claimed, publish_pending,
  deliver, has_number, lower_id,
}

module _ {D : Type 0} where
  publish_rows-deliver :
      (rs : List (OutboxRow D)) (w : Session D)
      → publish_rows deliver rs w
        ≡ (ok tt, record w { delivered = w.delivered ++ map message_of rs })
  unfolding publish_rows deliver ◌>>=◌
  publish_rows-deliver [] w = rw append-nil
  publish_rows-deliver (r ∷ rs) w =
      publish_rows-deliver rs (record w { delivered = w.delivered ++ message_of r ∷ [] })
      ∙ rw append_assoc

  -- The rows that a batch claims.
  abbrev pub claimed : ℕ → Db D → List (OutboxRow D)
  claimed limit db = take limit (sort lower_id (keep (λ r. is_none r.published_at) db.outbox))

  abbrev pub marked : Session D → List (OutboxRow D) → Db D
  marked w rows = record w.db {
    outbox =
        update_where (λ r. has_number r.id (map (λ x. x.id) rows))
          (λ r. record r { published_at = some w.now }) w.db.outbox;
  }

  -- The two outcomes of a batch: the table as it was, and perhaps messages delivered; or the claimed
  -- rows marked, and all of their messages delivered.
  abbrev pub Batch : ℕ → Session D → Session D → Type 0
  Batch limit w u =
      ((u.db ≡ w.db) × (ms : List (OutboxMessage D)) × (u.delivered ≡ w.delivered ++ ms))
      ⊎ ((u.db ≡ marked w (claimed limit w.db))
          × (u.delivered ≡ w.delivered ++ map message_of (claimed limit w.db)))

  -- What the body of a batch leaves.
  BodyRun : Session D → List (OutboxRow D) → Result (ℕ × Bool) → Session D → Type 0
  BodyRun w rows r v =
      (v.delivered ≡ w.delivered ++ map message_of rows)
      × ((n : ℕ) → r ≡ ok (n, true) → v.db ≡ marked w rows)

  mark_run :
      (ids : List ℕ) (k : ℕ) (v : Session D)
      → let m : Tx D (ℕ × Bool) = (mark_published ids >>= λ _. pure (k, true)) in
        ((m v).1.delivered ≡ v.delivered)
        × ((n : ℕ)
            → (m v).0 ≡ ok (n, true)
            → (m v).1.db ≡ record v.db {
              outbox =
                  update_where
                    (λ r. has_number r.id ids)
                    (λ r. record r { published_at = some v.now })
                    v.db.outbox;
            })
  unfolding mark_published ◌>>=◌
  mark_run ids k v = elim (Bool-cases (is_fine (fault_of v.faults))) [
    | inl e ↦ (rw e, λ n q. rw e)
    | inr e ↦ (rw e, λ n q. absurd (ground arith))
  ]

  publish_claimed_run :
      (rows : List (OutboxRow D)) (w : Session D)
      → BodyRun w rows (publish_claimed deliver rows w).0 (publish_claimed deliver rows w).1
  unfolding ◌>>=◌ BodyRun
  publish_claimed_run [] w = (sym (append-nil _), λ n e. absurd (ground arith))
  publish_claimed_run (r ∷ rs) w = rw (publish_rows-deliver (r ∷ rs) w) (
      mark_run (map (λ x. x.id) (r ∷ rs)) (length (r ∷ rs))
        (record w { delivered = w.delivered ++ map message_of (r ∷ rs) }))

  pub batch_body_run :
      (limit : ℕ) (w : Session D)
      → let m : Tx D (ℕ × Bool) = (claim_unpublished limit >>= publish_claimed deliver) in
        ((ms : List (OutboxMessage D)) × ((m w).1.delivered ≡ w.delivered ++ ms))
        × ((n : ℕ)
            → (m w).0 ≡ ok (n, true)
            → ((m w).1.delivered ≡ w.delivered ++ map message_of (claimed limit w.db))
              × ((m w).1.db ≡ marked w (claimed limit w.db)))
  unfolding claim_unpublished ◌>>=◌ BodyRun
  batch_body_run limit w = elim (Bool-cases (is_fine (fault_of w.faults))) [
    | inl e ↦
        let w' = record w { faults = later_faults w.faults } in
        let (d, k) = publish_claimed_run (claimed limit w.db) w' in
        ((map message_of (claimed limit w.db), rw e d), λ n q. (rw e d, rw e (k n (rw e at q))))
    | inr e ↦ (([], rw e (sym (append-nil _))), λ n q. absurd (not_ok n (rw e at q)))
  ]
    where
      not_ok : (n : ℕ) → ◌≡◌ {A = Result (ℕ × Bool)} (err db_error) (ok (n, true)) → ⊥
      not_ok n q = cc

  -- Whatever happens to a batch, with any faults, the tables are as they were, and perhaps messages were
  -- handed to the bus; or exactly the claimed rows are marked published, and the messages of all of them
  -- were handed to the bus, in their order.
  pub publish_pending-Batch :
      (limit : ℕ) (w : Session D) → Batch limit w (publish_pending limit deliver w).1
  unfolding publish_pending
  publish_pending-Batch limit w =
      let (d, k) = batch_body_run limit (begun w) in
      elim (transaction_any (claim_unpublished limit >>= publish_claimed deliver) w) [
        | inl e ↦ inl (ap (λ x. x.db) e, [], ap (λ x. x.delivered) e ∙ sym (append-nil _))
        | inr (f, inl g) ↦ inl (g, d.0, f ∙ d.1)
        | inr (f, inr (n, q, g)) ↦ let (x, y) = k n q in inr (g ∙ y, f ∙ x)
      ]

  abbrev pub was_delivered : ℕ → List (OutboxMessage D) → Bool
  was_delivered n [] = false
  was_delivered n (m ∷ ms) = if m.id == n then true else was_delivered n ms

  -- Every row that is marked published was handed to the bus.
  abbrev pub IsDelivered : Session D → Type 0
  IsDelivered w =
      All (λ r. (is_none r.published_at ≡ true) ⊎ (was_delivered r.id w.delivered ≡ true))
        w.db.outbox

  pub was_delivered-append :
      (n : ℕ) (ms ns : List (OutboxMessage D))
      → was_delivered n (ms ++ ns) ≡ (was_delivered n ms || was_delivered n ns)
  was_delivered-append n [] ns = refl
  was_delivered-append n (m ∷ ms) ns = ground (arith, was_delivered-append n ms ns)

  pub was_delivered-map :
      (n : ℕ) (rs : List (OutboxRow D))
      → was_delivered n (map message_of rs) ≡ has_number n (map (λ x. x.id) rs)
  was_delivered-map n [] = refl
  was_delivered-map n (r ∷ rs) = ground (arith, was_delivered-map n rs)

  more_delivered :
      (rows : List (OutboxRow D)) (ms ns : List (OutboxMessage D))
      → All (λ r. (is_none r.published_at ≡ true) ⊎ (was_delivered r.id ms ≡ true)) rows
      → All (λ r. (is_none r.published_at ≡ true) ⊎ (was_delivered r.id (ms ++ ns) ≡ true)) rows
  more_delivered [] ms ns h = tt
  more_delivered (r ∷ rs) ms ns h =
      (ground (arith, was_delivered-append r.id ms ns), more_delivered rs ms ns h.1)

  marked_delivered :
      (w : Session D) (rows : List (OutboxRow D)) (table : List (OutboxRow D))
      → All (λ r. (is_none r.published_at ≡ true) ⊎ (was_delivered r.id w.delivered ≡ true)) table
      → All
          (λ r.
            (is_none r.published_at ≡ true)
            ⊎ (was_delivered r.id (w.delivered ++ map message_of rows) ≡ true))
          (update_where
            (λ r. has_number r.id (map (λ x. x.id) rows))
            (λ r. record r { published_at = some w.now })
            table)
  unfolding update_where
  marked_delivered w rows [] h = tt
  marked_delivered w rows (r ∷ rs) h = (
    ground (
      arith,
      was_delivered-append r.id w.delivered (map message_of rows),
      was_delivered-map r.id rows,
    ),
    marked_delivered w rows rs h.1,
  )

  -- At least once: whatever happens to a batch, with any faults, each row that is marked published
  -- afterwards was handed to the bus, if that held before.
  pub publish_pending-IsDelivered :
      (limit : ℕ) (w : Session D) → IsDelivered w → IsDelivered (publish_pending limit deliver w).1
  publish_pending-IsDelivered limit w h = elim (publish_pending-Batch limit w) [
    | inl (e, ms, d) ↦ rw (e, d) (more_delivered w.db.outbox w.delivered ms h)
    | inr (e, d) ↦ rw (e, d) (marked_delivered w (claimed limit w.db) w.db.outbox h)
  ]
