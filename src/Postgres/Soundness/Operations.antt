-- ===== src/Postgres/Soundness/Operations.antt =====
-- internal/adapters/postgres: what the operations of the stores leave.
use mathlib.Core.Option.{some-injective}
use delta_works.Base.{
  ℕ, ◌≡◌, refl, ap, Bool, true, false, List, [], ◌∷◌, some, if◌then◌else◌, find, any, eq_refl, All,
  All-find, Bool-cases, inl, inr,
}
use delta_works.Errors.{Result, ok, err}
use delta_works.Decimal.{Decimals, is_negative, zero_decimal}
use delta_works.Domain.Order.{Time, ClientOrderId, Event, Source, Request, pending}
use delta_works.Domain.Order.Machine.{Decision, transition}
use delta_works.Domain.Order.Machine.Step.{anomaly_exact}
use delta_works.Postgres.Schema.{OrderRow, FillRow}
use delta_works.Postgres.Session.{Session, Fault}
use delta_works.Postgres.Session.Keeps.{
  Keeps, Keeps-autocommit, Keeps-bind, Keeps-if, Keeps-pure, Keeps-raise,
}
use delta_works.Postgres.Queries.{
  has_id, is_storable, insert_pending_order, mark_cancel_requested_rows,
}
use delta_works.Postgres.OrderStore.{apply_event, ApplyResult}
use delta_works.Postgres.OrderStore.Effect.{Adds, Persisted}
use delta_works.Postgres.OrderStore.Apply.{
  Adopted, Applied, state_of, apply_event_ok, apply_event_atomic,
}
use delta_works.Postgres.OrderStore.Invariant.{fills_qty, Persisted-IsBalanced}
use delta_works.Postgres.OrderMethods.{pending_row, create_pending, mark_cancel_requested}
use delta_works.Postgres.OutboxStore.{publish_pending, deliver, delete_published_before}
use delta_works.Postgres.OutboxStore.Delivery.{publish_pending-Batch}
use delta_works.Postgres.Soundness.Tables.{SoundDb, has_order, touched-IsSound}
use delta_works.Postgres.Soundness.Changes.{created-IsSound, advanced-IsSound}

found_later : (b c : Bool) → c ≡ true → (if b then true else c) ≡ true
found_later true c h = refl
found_later false c h = h

module _ {D : Type 0} ⦃dec : Decimals D⦄ where
  -- The session's tables are sound.
  abbrev pub IsSoundSession : Session D → Type 0
  IsSoundSession w = SoundDb w.db

  Adds-ids :
      (id : ClientOrderId) (delta : _) (tid : ℕ) (fs : List (FillRow D))
      → Adds id delta tid fs
      → All (λ f. f.client_order_id ≡ id) fs
  Adds-ids id delta tid [] a = tt
  Adds-ids id delta tid (f ∷ []) a = (a.1, tt)
  Adds-ids id delta tid (f ∷ g ∷ fs) a = absurd a

  find-has_order :
      (id : ClientOrderId) (orders : List (OrderRow D)) (row : OrderRow D)
      → find (has_id id) orders ≡ some row
      → has_order orders row.client_order_id ≡ true
  unfolding find any
  find-has_order id [] row h = absurd (cc)
  find-has_order id (r ∷ rs) row h = elim (Bool-cases (has_id id r)) [
    | inl e ↦
        let same : r ≡ row = some-injective _ _ (rw e at h) in
        rw (← same, eq_refl r.client_order_id) refl
    | inr e ↦ found_later (has_id row.client_order_id r) _ (find-has_order id rs row (rw e at h))
  ]

  Persisted-IsSound :
      (row : OrderRow D) (source : Source) (ev : Event D) (d : Decision D) (w u : Session D)
      → has_order w.db.orders row.client_order_id ≡ true
      → is_negative d.fill_delta ≡ false
      → row.filled_qty ≡ fills_qty row.client_order_id w.db.fills
      → Persisted row source ev d w u
      → SoundDb w.db
      → SoundDb u.db
  Persisted-IsSound row source ev d w u there n q p s =
      let balanced =
        Persisted-IsBalanced row source ev d w u n q p (record { filled = s.balanced }) in
      rw (p.orders, p.transitions, p.fills)
        (advanced-IsSound _ _ w.db.transitions (λ r. refl) (λ r. refl) w.db.orders w.db.fills
          p.fills_added there
          (Adds-ids row.client_order_id d.fill_delta w.next_transition_id p.fills_added p.added)
          (rw (p.orders, p.fills) at balanced.filled) s)

  Adopted-IsSound :
      (row : OrderRow D) (ev : Event D) (w u : Session D)
      → Adopted row ev w u
      → SoundDb w.db
      → SoundDb u.db
  Adopted-IsSound row ev w u (inl e) s = rw e s
  Adopted-IsSound row ev w u (inr (t, _, _, e)) s =
      rw e (touched-IsSound _ _ (λ r. refl) w.db.orders w.db.transitions w.db.fills (λ r. refl) s)

  Applied-IsSound :
      (row : OrderRow D) (source : Source) (ev : Event D) (d : Decision D) (id : ClientOrderId)
      (w u : Session D)
      → find (has_id id) w.db.orders ≡ some row
      → transition (state_of row) ev ≡ ok d
      → Applied row source ev d w u
      → SoundDb w.db
      → SoundDb u.db
  Applied-IsSound row source ev d id w u f t (inl (_, a)) s = Adopted-IsSound row ev w u a s
  Applied-IsSound row source ev d id w u f t (inr (_, p)) s =
      Persisted-IsSound row source ev d w u (find-has_order id w.db.orders row f)
        (anomaly_exact (state_of row) ev d t).1
        (All-find (λ r. r.filled_qty ≡ fills_qty r.client_order_id w.db.fills) (has_id id)
          w.db.orders f s.balanced).0
        p s

  apply_event-IsSound :
      (source : Source) (ev : Event D) (w : Session D)
      → SoundDb w.db
      → SoundDb (apply_event source ev w).1.db
  apply_event-IsSound source ev w s = ended (apply_event source ev w).0 _ refl
    where
      ended :
          (r : Result (ApplyResult D)) (u : Session D)
          → apply_event source ev w ≡ (r, u)
          → SoundDb u.db
      ended (ok r) u e =
          let (row, f, t, a) = apply_event_ok source ev w r u e in
          Applied-IsSound row source ev r.decision ev.ref.client_order_id w u f t a s
      ended (err x) u e = elim (apply_event_atomic source ev w x u e) [
        | inl k ↦ rw k s
        | inr (r, _, row, _, _, f, t, a) ↦
            Applied-IsSound row source ev r.decision ev.ref.client_order_id w u f t a s
      ]

  pub apply_event-Keeps :
      (source : Source) (ev : Event D) → Keeps IsSoundSession (apply_event source ev)
  apply_event-Keeps source ev = record { at = λ w s. apply_event-IsSound source ev w s }

  same_sound :
      (w : Session D) (fs : List Fault)
      → IsSoundSession w
      → IsSoundSession (record w { faults = fs })
  same_sound w fs s = s

  insert-Keeps :
      (row : OrderRow D)
      → row.filled_qty ≡ zero_decimal
      → Keeps IsSoundSession (insert_pending_order row)
  unfolding insert_pending_order
  insert-Keeps row start = Keeps-autocommit IsSoundSession same_sound _ (record {
    at = λ w s. elim (Bool-cases (is_storable row)) [
      | inr b ↦ rw b s
      | inl g ↦ elim (Bool-cases (has_order w.db.orders row.client_order_id)) [
        | inl k ↦ rw (g, k) s
        | inr k ↦
            rw (g, k)
              (created-IsSound w.db.orders w.db.transitions w.db.fills
                (record row { status = pending; created_at = w.now; updated_at = w.now }) k
                (ap (λ q. record { status = pending; filled_qty = q }) start) s)
      ]
    ];
  })

  pub create_pending-Keeps : (req : Request D) → Keeps IsSoundSession (create_pending req)
  unfolding create_pending
  create_pending-Keeps req =
      Keeps-bind _ _ (insert-Keeps (pending_row req) refl) (λ n. Keeps-pure _)

  mark_rows-Keeps :
      (id : ClientOrderId) (at : Time) → Keeps IsSoundSession (mark_cancel_requested_rows id at)
  unfolding mark_cancel_requested_rows
  mark_rows-Keeps id at = Keeps-autocommit IsSoundSession same_sound _ (record {
    at = λ w s.
        touched-IsSound _ _ (λ r. refl) w.db.orders w.db.transitions w.db.fills (λ r. refl) s;
  })

  pub mark_cancel-Keeps :
      (id : ClientOrderId) (at : Time) → Keeps IsSoundSession (mark_cancel_requested id at)
  unfolding mark_cancel_requested
  mark_cancel-Keeps id at =
      Keeps-bind _ _ (mark_rows-Keeps id at) (λ n. Keeps-if _ _ _ (Keeps-raise _) (Keeps-pure _))

  pub publish_pending-Keeps : (limit : ℕ) → Keeps IsSoundSession (publish_pending limit deliver)
  publish_pending-Keeps limit = record {
    at = λ w s. elim (publish_pending-Batch limit w) [
      | inl (e, ms, d) ↦ rw e s
      | inr (e, d) ↦ rw e s
    ];
  }

  pub delete_published-Keeps :
      (cutoff : Time) → Keeps IsSoundSession (delete_published_before cutoff)
  unfolding delete_published_before
  delete_published-Keeps cutoff =
      Keeps-autocommit IsSoundSession same_sound _ (record { at = λ w s. s })
