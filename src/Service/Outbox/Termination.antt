-- ===== src/Service/Outbox/Termination.antt =====
-- internal/service/outbox/outbox.go: how many batches a drain takes.
use delta_works.Base.{
  ℕ, zero, suc, ◌≡◌, refl, sym, ap, ◌∙◌, ◌⊎◌, inl, inr, Bool, true, false, ◌&&◌, if◌then◌else◌, ltb,
  ◌<◌, ◌≤◌, arith, List, [], ◌∷◌, All, All-perm, keep, any, update_where, map, length, take,
  sort-perm, Bool-cases, some,
}
use delta_works.Errors.{Result, ok, err}
use delta_works.Domain.Order.{Time}
use delta_works.Postgres.Schema.{OutboxRow, Db}
use delta_works.Postgres.Session.{Session, Tx, pure, ◌>>=◌}
use delta_works.Postgres.Session.Laws.{bind_ok, transaction_ok, begun}
use delta_works.Postgres.Queries.{is_none}
use delta_works.Postgres.OutboxStore.{
  claim_unpublished, publish_pending, publish_claimed, publish_rows, mark_published, deliver,
  has_number, lower_id, unpublished_stats,
}
use delta_works.Postgres.OutboxStore.Delivery.{claimed, marked, batch_body_run}
use delta_works.Service.Outbox.{drain, observe_backlog, unless_canceled}

-- A drain that did not run out of fuel.
abbrev Ends : Result Bool → Type 0
Ends r = r ≡ ok false → ⊥

module _ {D : Type 0} where
  abbrev waits : OutboxRow D → Bool
  waits r = is_none r.published_at

  -- The number of rows that are not published yet.
  abbrev pub waiting : Db D → ℕ
  waiting db = length (keep waits db.outbox)

  abbrev mark : Time → OutboxRow D → OutboxRow D
  mark now r = record r { published_at = some now }

  marking_adds_none :
      (ids : List ℕ) (now : Time) (rows : List (OutboxRow D))
      → length (keep waits (update_where (λ r. has_number r.id ids) (mark now) rows))
        ≤ length (keep waits rows)
  unfolding keep update_where
  marking_adds_none ids now [] = omega arith
  marking_adds_none ids now (r ∷ rows) = ground (arith, marking_adds_none ids now rows)

  marking_removes :
      (ids : List ℕ) (now : Time) (rows : List (OutboxRow D))
      → any (λ r. waits r && has_number r.id ids) rows ≡ true
      → length (keep waits (update_where (λ r. has_number r.id ids) (mark now) rows))
        < length (keep waits rows)
  unfolding keep update_where any
  marking_removes ids now [] h = absurd (cc)
  marking_removes ids now (r ∷ rows) h =
      ground (arith, marking_adds_none ids now rows, marking_removes ids now rows)

  not_any :
      (p : OutboxRow D → Bool) (rows : List (OutboxRow D))
      → any p rows ≡ false
      → All (λ r. p r ≡ false) rows
  unfolding any
  not_any p [] h = tt
  not_any p (r ∷ rows) h = (ground arith, not_any p rows (ground arith))

  All-keep :
      (p q : OutboxRow D → Bool) (rows : List (OutboxRow D))
      → All (λ r. q r ≡ false) rows
      → All (λ r. (q r ≡ false) × (p r ≡ true)) (keep p rows)
  unfolding keep
  All-keep p q [] h = tt
  All-keep p q (r ∷ rows) h = elim (Bool-cases (p r)) [
    | inl e ↦ rw e ((h.0, e), All-keep p q rows h.1)
    | inr e ↦ rw e (All-keep p q rows h.1)
  ]

  All-take :
      (P : OutboxRow D → Type 0) (n : ℕ) (rows : List (OutboxRow D))
      → All P rows
      → All P (take n rows)
  All-take P zero rows h = tt
  All-take P (suc n) [] h = tt
  All-take P (suc n) (r ∷ rows) h = (h.0, All-take P n rows h.1)

  -- A row that is claimed is one of the rows that wait.
  claimed-waits :
      (limit : ℕ) (db : Db D) (r : OutboxRow D) (rs : List (OutboxRow D))
      → claimed limit db ≡ r ∷ rs
      → any (λ x. waits x && has_number x.id (map (λ y. y.id) (r ∷ rs))) db.outbox ≡ true
  claimed-waits limit db r rs h =
      elim (Bool-cases
        (any (λ x. waits x && has_number x.id (map (λ y. y.id) (r ∷ rs))) db.outbox)) [
          | inl e ↦ e
          | inr e ↦
              let q : OutboxRow D → Bool =
                λ x. waits x && has_number x.id (map (λ y. y.id) (r ∷ rs)) in
              let kept = All-keep waits q db.outbox (not_any q db.outbox e) in
              let sorted =
                All-perm (λ x. (q x ≡ false) × (waits x ≡ true)) (sort-perm lower_id _) kept in
              let taken = All-take (λ x. (q x ≡ false) × (waits x ≡ true)) limit _ sorted in
              absurd (impossible (rw h at taken))
        ]
    where
      impossible :
          All
            (λ x.
              ((waits x && has_number x.id (map (λ y. y.id) (r ∷ rs))) ≡ false) × (waits x ≡ true))
            (r ∷ rs)
          → ⊥
      impossible a = ground (arith, a.0.0, a.0.1)

  publish_claimed_ok :
      (rows : List (OutboxRow D)) (w v : Session D) (n : ℕ) (b : Bool)
      → publish_claimed deliver rows w ≡ (ok (n, b), v)
      → ((n ≡ 0) × (b ≡ false))
        ⊎ ((b ≡ true) × (r : OutboxRow D) × (rs : List (OutboxRow D)) × (rows ≡ r ∷ rs))
  publish_claimed_ok [] w v n b h = inl (ground arith, ground arith)
  publish_claimed_ok (r ∷ rs) w v n b h =
      let (_, w1, _, h1) = bind_ok (publish_rows deliver (r ∷ rs)) _ w h in
      let (_, w2, _, h2) = bind_ok (mark_published (map (λ x. x.id) (r ∷ rs))) _ w1 h1 in
      inr (ground arith, r, rs, refl)

  claim_ok :
      (limit : ℕ) (w v : Session D) (rows : List (OutboxRow D))
      → claim_unpublished limit w ≡ (ok rows, v)
      → rows ≡ claimed limit w.db
  unfolding claim_unpublished
  claim_ok limit w v rows h = ground arith

  fewer_wait :
      (limit n : ℕ) (w v u : Session D) (b : Bool)
      → ltb 0 limit ≡ true
      → ltb n limit ≡ false
      → (claim_unpublished limit >>= publish_claimed deliver) (begun w) ≡ (ok (n, b), v)
      → u.db ≡ (if b then v.db else w.db)
      → waiting u.db < waiting w.db
  fewer_wait limit n w v u b some_limit full run kept =
      let (rows, w1, e, h) =
        bind_ok (claim_unpublished limit) (publish_claimed deliver) (begun w) run in
      elim (publish_claimed_ok rows w1 v n b h) [
        | inl (z, f) ↦ absurd (ground arith)
        | inr (t, r, rs, s) ↦
            let c : claimed limit w.db ≡ r ∷ rs = sym (claim_ok limit (begun w) w1 rows e) ∙ s in
            let (_, d) =
              (batch_body_run limit (begun w)).1 n (ap (λ x. x.0) run ∙ ap (λ x. ok (n, x)) t) in
            let m : v.db ≡ marked w (claimed limit w.db) = ap (λ x. x.1.db) (sym run) ∙ d in
            let k : u.db ≡ marked w (r ∷ rs) =
              kept ∙ ap (λ x. if x then v.db else w.db) t ∙ m ∙ ap (marked w) c in
            rw k (
              marking_removes (map (λ x. x.id) (r ∷ rs)) w.now w.db.outbox
                (claimed-waits limit w.db r rs c))
      ]

  full_batch :
      (limit n : ℕ) (w u : Session D)
      → ltb 0 limit ≡ true
      → ltb n limit ≡ false
      → publish_pending limit deliver w ≡ (ok n, u)
      → waiting u.db < waiting w.db
  unfolding publish_pending
  full_batch limit n w u some_limit full h =
      let (b, v, run, kept) =
        transaction_ok (claim_unpublished limit >>= publish_claimed deliver) w h in
      fewer_wait limit n w v u b some_limit full run kept

  backlog-Ends : (canceled : Bool) (w : Session D) → Ends (observe_backlog canceled w).0
  unfolding observe_backlog ◌>>=◌
  backlog-Ends canceled w = after (unpublished_stats w).0 canceled
    where
      after :
          (r : Result (ℕ × Time)) (canceled : Bool)
          → Ends
              (unless_canceled {D = D} canceled true (λ _. pure true) r (unpublished_stats w).1).0
      after (ok a) canceled h = cc
      after (err e) true h = cc
      after (err e) false h = cc

  after_batch-Ends :
      (batch : ℕ) (rest : Tx D Bool) (canceled : Bool) (r : Result ℕ) (u : Session D)
      → ((n : ℕ) → r ≡ ok n → ltb n batch ≡ false → Ends (rest u).0)
      → Ends
          (unless_canceled canceled true
            (λ n. if ltb n batch then observe_backlog canceled else rest)
            r
            u).0
  after_batch-Ends batch rest true (err e) u more h = cc
  after_batch-Ends batch rest false (err e) u more h = cc
  after_batch-Ends batch rest canceled (ok n) u more h = elim (Bool-cases (ltb n batch)) [
    | inl small ↦ backlog-Ends canceled u (rw small at h)
    | inr full ↦ more n refl full (rw full at h)
  ]

  -- With a batch size that is not 0, a drain with more fuel than there are unpublished rows does not run
  -- out of it, with any faults.
  pub drain_ends :
      (fuel : ℕ) (canceled : Bool) (batch : ℕ) (w : Session D)
      → ltb 0 batch ≡ true
      → waiting w.db < fuel
      → ¬ ((drain fuel canceled batch w).0 ≡ ok false)
  unfolding drain ◌>>=◌
  drain_ends zero canceled batch w some_batch enough h = absurd (ground arith)
  drain_ends (suc fuel) canceled batch w some_batch enough h =
      let u = (publish_pending batch deliver w).1 in
      after_batch-Ends batch (drain fuel canceled batch) canceled
        (publish_pending batch deliver w).0 u
        (λ n e full.
          let less = full_batch batch n w u some_batch full (ap (λ x. (x, u)) e) in
          drain_ends fuel canceled batch u some_batch (omega (arith, less, enough)))
        h
