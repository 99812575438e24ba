-- ===== src/Postgres/OrderStore/Effect.antt =====
-- internal/adapters/postgres/orders.go: what `persist_decision` leaves in the tables when it returns a result.
use delta_works.Base.{
  ℕ, ◌≡◌, refl, sym, ap, ◌∙◌, ◌⊎◌, inl, inr, Bool, true, false, List, [], ◌∷◌, ◌++◌, Option, none,
  some, String, arith, Bool-cases, update_where,
}
use mathlib.Core.List.{append-nil}
use mathlib.Core.Path.{subst}
use delta_works.Errors.{Result, ok, err}
use delta_works.Decimal.{Decimals, add, is_positive}
use delta_works.Domain.Order.{Time, ClientOrderId, Event, Source, Status}
use delta_works.Domain.Order.Machine.{Decision}
use delta_works.Postgres.Schema.{OrderRow, FillRow}
use delta_works.Postgres.Session.{db_error, Session, pure, ◌>>=◌}
use delta_works.Postgres.Session.Laws.{Preserves, bind_ok, preserves_rules}
use delta_works.Postgres.Queries.{
  has_id, updated_order, transition_row, insert_transition, insert_fill, apply_order_update,
}
use delta_works.Postgres.LedgerPosting.{post_ledger_fill}
use delta_works.Postgres.LedgerPosting.Frame.{core, Core, post_ledger_fill-core, insert_outbox-core}
use delta_works.Postgres.OrderStore.{
  ApplyResult, Posted, post_fill, post_after_insert, missing_fill, persist_decision,
  insert_event_outbox, null_string, avg_fill_price, fill_row, anonymous_row, anonymous,
}

module _ {D : Type 0} where
  insert_transition_ok :
      (id : ClientOrderId) (from to : Status) (q : D) (s : Source) (r : Option String) (t : Time)
      (w : Session D) {i : ℕ} {u : Session D}
      → insert_transition id from to q s r t w ≡ (ok i, u)
      → (u.db ≡ record w.db {
        transitions = w.db.transitions ++ transition_row w id from to q s r t ∷ [];
      })
        × (i ≡ w.next_transition_id)
        × (u.now ≡ w.now)
  unfolding insert_transition
  insert_transition_ok id from to q s r t w h = ground arith

  apply_order_update_ok :
      (id : ClientOrderId) (st : Status) (q : D) (avg : Option D) (v r : Option String)
      (w : Session D) {u : Session D}
      → apply_order_update id st q avg v r w ≡ (ok tt, u)
      → u.db ≡ record w.db {
        orders = update_where (has_id id) (updated_order w.now st q avg v r) w.db.orders;
      }
  unfolding apply_order_update
  apply_order_update_ok id st q avg v r w h = ground arith

  insert_fill_ok :
      (f : FillRow D) (w : Session D) (i : Option ℕ) {u : Session D}
      → insert_fill f w ≡ (ok i, u)
      → ((i ≡ none) × (u.db ≡ w.db))
        ⊎ ((i ≡ some w.next_fill_id)
            × (u.db ≡ record w.db { fills = w.db.fills ++ record f { id = w.next_fill_id } ∷ [] }))
  unfolding insert_fill
  insert_fill_ok f w i h = ground arith

-- The fills that posting a delta adds: none, or one of the order with the delta as its quantity.
abbrev pub Adds :
    {D : Type 0} ⦃dec : Decimals D⦄ → ClientOrderId → D → ℕ → List (FillRow D) → Type 0
Adds id delta tid [] = is_positive delta ≡ false
Adds id delta tid (f ∷ []) =
    (is_positive delta ≡ true)
    × (f.client_order_id ≡ id)
    × (f.qty ≡ delta)
    × (f.transition_id ≡ tid)
Adds id delta tid (f ∷ g ∷ fs) = ⊥

module _ {D : Type 0} ⦃dec : Decimals D⦄ where
  posted_core :
      (row : OrderRow D) (ev : Event D) (q : D) (i : ℕ) (p : Posted D) (c : Bool) (w : Session D)
      {u : Session D}
      → (post_ledger_fill row ev q i >>= λ o.
            pure (record { event = ev; outcome = o; fill_conflict = c }))
          w
        ≡ (ok p, u)
      → core u.db ≡ core w.db
  posted_core row ev q i p c w h =
      let (o, x, e, k) = bind_ok (post_ledger_fill row ev q i) _ w h in
      ap (λ r. core r.1.db) (sym k)
      ∙ ap (λ r. core r.1.db) (sym e)
      ∙ (post_ledger_fill-core row ev q i).at w

  -- What one insertion leaves: the core tables as they were, or one more fill.
  insert_fill-core :
      (f : FillRow D) (w : Session D) (i : Option ℕ) {u : Session D}
      → insert_fill f w ≡ (ok i, u)
      → ((i ≡ none) × (core u.db ≡ core w.db))
        ⊎ ((j : ℕ) × (i ≡ some j)
            × (core u.db ≡ (w.db.orders, w.db.transitions, w.db.fills ++ record f { id = j } ∷ [])))
  insert_fill-core f w i h = elim (insert_fill_ok f w i h) [
    | inl (e, d) ↦ inl (e, ap core d)
    | inr (e, d) ↦ inr (w.next_fill_id, e, ap core d)
  ]

  -- The anonymous second insertion, and its posting.
  second_insert_ok :
      (row : OrderRow D) (ev : Event D) (i : Option ℕ) (q : D) (p : Posted D) (w : Session D)
      {u : Session D}
      → (missing_fill i >>= λ j. post_ledger_fill row ev q j >>= λ o.
            pure (record { event = ev; outcome = o; fill_conflict = true }))
          w
        ≡ (ok p, u)
      → (j : ℕ) × (i ≡ some j) × (core u.db ≡ core w.db)
  unfolding ◌>>=◌
  second_insert_ok row ev none q p w h = absurd (not_ok h)
    where
      not_ok :
          {x : Session D} {y : Session D}
          → ◌≡◌ {A = Result (Posted D) × Session D} (err db_error, x) (ok p, y)
          → ⊥
      not_ok z = cc
  second_insert_ok row ev (some j) q p w h = (j, refl, posted_core row ev q j p true w h)

  abbrev AddedTo : Session D → ClientOrderId → D → ℕ → Session D → Type 0
  AddedTo w id delta tid u =
      (fs : List (FillRow D)) × (core u.db ≡ (w.db.orders, w.db.transitions, w.db.fills ++ fs))
      × Adds id delta tid fs

  post_after_insert_ok :
      (row : OrderRow D) (ev : Event D) (delta : D) (tid : ℕ) (i : Option ℕ) (p : Posted D)
      (w v : Session D) {u : Session D}
      → is_positive delta ≡ true
      → ((i ≡ none) × (core v.db ≡ core w.db))
        ⊎ ((j : ℕ) × (i ≡ some j)
            × (core v.db ≡ (
              w.db.orders,
              w.db.transitions,
              w.db.fills ++ record (fill_row row ev delta tid) { id = j } ∷ [],
            )))
      → post_after_insert row ev delta tid i v ≡ (ok p, u)
      → AddedTo w row.client_order_id delta tid u
  post_after_insert_ok row ev delta tid (some i) p w v pos (inl (e, d)) h = absurd (cc)
  post_after_insert_ok row ev delta tid (some i) p w v pos (inr (j, e, d)) h = (
    record (fill_row row ev delta tid) { id = j } ∷ [],
    posted_core row ev delta i p false v h ∙ d,
    (pos, refl, refl, refl),
  )
  post_after_insert_ok row ev delta tid none p w v pos (inr (j, e, d)) h = absurd (cc)
  post_after_insert_ok row ev delta tid none p w v pos (inl (e, d)) h =
      let (i, x, q, k) = bind_ok _ _ v h in
      let (j, some_id, c) = second_insert_ok row (anonymous ev) i delta p x k in
      elim (insert_fill-core (anonymous_row row ev delta tid) v i q) [
        | inl (n, d2) ↦ absurd (cc)
        | inr (m, _, d2) ↦
            let f = record (anonymous_row row ev delta tid) { id = m } in
            (
              f ∷ [],
              c ∙ d2 ∙ ap (λ (t : Core D). (t.0, t.1, t.2 ++ f ∷ [])) d,
              (pos, refl, refl, refl),
            )
      ]

  post_fill_ok :
      (row : OrderRow D) (ev : Event D) (delta : D) (tid : ℕ) (w : Session D) (p : Posted D)
      {u : Session D}
      → post_fill row ev delta tid w ≡ (ok p, u)
      → AddedTo w row.client_order_id delta tid u
  unfolding post_fill
  post_fill_ok row ev delta tid w p h = elim (Bool-cases (is_positive delta)) [
    | inr n ↦ ([], rw append-nil (ap (λ r. core r.1.db) (sym (rw n at h))), n)
    | inl pos ↦
        let (i, v, q, k) = bind_ok (insert_fill (fill_row row ev delta tid)) _ w (rw pos at h) in
        post_after_insert_ok row ev delta tid i p w v pos
          (insert_fill-core (fill_row row ev delta tid) w i q) k
  ]

-- What persisting a decision on `row` writes: the row's new state under `row`'s ID, one transition with
-- the next `seq`, and one fill if the decision carries a quantity.
pub record Persisted {D : Type 0} ⦃dec : Decimals D⦄ (row : OrderRow D) (source : Source)
    (ev : Event D) (d : Decision D) (w u : Session D) : Type 0 where
  pub stamp : Time
  pub fills_added : List (FillRow D)
  pub orders :
      u.db.orders
      ≡ update_where
          (has_id row.client_order_id)
          (updated_order stamp d.to
            (add row.filled_qty d.fill_delta)
            (avg_fill_price row d ev (add row.filled_qty d.fill_delta))
            (null_string ev.ref.venue_order_id)
            (null_string ev.reason))
          w.db.orders
  pub transitions :
      u.db.transitions
      ≡ w.db.transitions
        ++ transition_row w row.client_order_id row.status d.to
            (add row.filled_qty d.fill_delta)
            source
            (null_string ev.reason)
            ev.at
          ∷ []
  pub fills : u.db.fills ≡ w.db.fills ++ fills_added
  pub added : Adds row.client_order_id d.fill_delta w.next_transition_id fills_added

module _ {D : Type 0} ⦃dec : Decimals D⦄ where
  insert_event_outbox-core :
      (row : OrderRow D) (source : Source) (ev : Event D) (d : Decision D) (q : D)
      → Preserves core (insert_event_outbox row source ev d q)
  unfolding insert_event_outbox
  insert_event_outbox-core row source ev d q = search (preserves_rules, insert_outbox-core)

  -- The writes of the four stages, put together.
  stages :
      (row : OrderRow D) (source : Source) (ev : Event D) (d : Decision D)
      (w w1 w2 w3 w4 : Session D) (tid : ℕ) (fs : List (FillRow D))
      → let new = add row.filled_qty d.fill_delta in
        (w1.db ≡ record w.db {
          transitions =
              w.db.transitions
              ++ transition_row w row.client_order_id row.status d.to new source
                  (null_string ev.reason)
                  ev.at
                ∷ [];
        })
        → tid ≡ w.next_transition_id
        → core w2.db ≡ (w1.db.orders, w1.db.transitions, w1.db.fills ++ fs)
        → Adds row.client_order_id d.fill_delta tid fs
        → w3.db ≡ record w2.db {
          orders =
              update_where
                (has_id row.client_order_id)
                (updated_order w2.now d.to new
                  (avg_fill_price row d ev new)
                  (null_string ev.ref.venue_order_id)
                  (null_string ev.reason))
                w2.db.orders;
        }
        → core w4.db ≡ core w3.db
        → Persisted row source ev d w w4
  stages row source ev d w w1 w2 w3 w4 tid fs t i c a o k = record {
    stamp = w2.now;
    fills_added = fs;
    orders =
        ap (λ x. x.0) k
        ∙ ap (λ x. x.orders) o
        ∙ ap (update_where _ _) (ap (λ x. x.0) c ∙ ap (λ x. x.orders) t);
    transitions =
        ap (λ x. x.1) k ∙ ap (λ x. x.transitions) o ∙ ap (λ x. x.1) c ∙ ap (λ x. x.transitions) t;
    fills = ap (λ x. x.2) k ∙ ap (λ x. x.fills) o ∙ ap (λ x. x.2) c ∙ ap (λ x. x.fills ++ fs) t;
    added = subst (λ n. Adds row.client_order_id d.fill_delta n fs) i a;
  }

  -- Persisting a decision, when it returns, has written exactly that, and reports the decision.
  pub persist_decision_ok :
      (row : OrderRow D) (source : Source) (ev : Event D) (d : Decision D) (w : Session D)
      {r : ApplyResult D} {u : Session D}
      → persist_decision row source ev d w ≡ (ok r, u)
      → Persisted row source ev d w u × (r.decision ≡ d)
  unfolding persist_decision
  persist_decision_ok row source ev d w h =
      let (tid, w1, e1, h1) = bind_ok _ _ w h in
      let (p, w2, e2, h2) = bind_ok _ _ w1 h1 in
      let (_, w3, e3, h3) = bind_ok _ _ w2 h2 in
      let (_, w4, e4, h4) = bind_ok _ _ w3 h3 in
      let (t, i, _) =
        insert_transition_ok row.client_order_id row.status d.to _ source _ ev.at w e1 in
      let (fs, c, a) = post_fill_ok row ev d.fill_delta tid w1 p e2 in
      let o = apply_order_update_ok row.client_order_id d.to _ _ _ _ w2 e3 in
      let k =
        (insert_event_outbox-core row source p.event d (add row.filled_qty d.fill_delta)).at w3 in
      (
        subst (Persisted row source ev d w) (ap (λ x. x.1) h4) (
            stages row source ev d w w1 w2 w3 w4 tid fs t i c a o
              (ap (λ x. core x.1.db) (sym e4) ∙ k)),
        returned h4,
      )
    where
      returned :
          {a : ApplyResult D} {x y : Session D} {r : ApplyResult D}
          → ◌≡◌ {A = Result (ApplyResult D) × Session D} (ok a, x) (ok r, y)
          → r.decision ≡ a.decision
      returned q = cc
