-- ===== src/Postgres/OrderStore/Invariant.antt =====
-- internal/adapters/postgres/orders.go: the stored cumulative fills beside the fills of the orders.
use delta_works.Base.{
  ℕ, ◌≡◌, refl, sym, inl, inr, false, List, [], ◌∷◌, ◌++◌, some, if◌then◌else◌, arith, update_where,
  find, str_eq, eq_iff, All, All-find, All-update_where,
}
use delta_works.Errors.{Result, ok, err}
use delta_works.Decimal.{Decimals, add, is_negative, zero_decimal}
use delta_works.Decimal.Laws.{zero-add}
use delta_works.Domain.Order.{ClientOrderId, Event, Source}
use delta_works.Domain.Order.Machine.{Decision, transition}
use delta_works.Domain.Order.Machine.Step.{anomaly_exact}
use delta_works.Postgres.Schema.{OrderRow, FillRow, Db}
use delta_works.Postgres.Session.{Session}
use delta_works.Postgres.Queries.{has_id}
use delta_works.Postgres.OrderStore.{apply_event, ApplyResult}
use delta_works.Postgres.OrderStore.Effect.{Adds, Persisted}
use delta_works.Postgres.OrderStore.Apply.{
  Adopted, Applied, state_of, apply_event_ok, apply_event_atomic,
}

module _ {D : Type 0} ⦃dec : Decimals D⦄ where
  -- The quantity of all fills of an order.
  abbrev pub fills_qty : ClientOrderId → List (FillRow D) → D
  fills_qty id [] = zero_decimal
  fills_qty id (f ∷ fs) =
      if str_eq f.client_order_id id then add f.qty (fills_qty id fs) else fills_qty id fs

  pub fills_qty-append :
      (id : ClientOrderId) (fs gs : List (FillRow D))
      → fills_qty id (fs ++ gs) ≡ add (fills_qty id fs) (fills_qty id gs)
  fills_qty-append id [] gs = sym (zero-add _)
  fills_qty-append id (f ∷ fs) gs =
      ground
        (arith, fills_qty-append id fs gs, dec.add_assoc f.qty (fills_qty id fs) (fills_qty id gs))

  -- Each order's cumulative fill is the sum of its fills.
  pub record IsBalanced (db : Db D) : Type 0 where
    pub filled : All (λ r. r.filled_qty ≡ fills_qty r.client_order_id db.fills) db.orders

  -- What one recorded delta adds to the sum: the delta for its order, nothing for the others.
  Adds-fills_qty :
      (id j : ClientOrderId) (delta : D) (tid : ℕ) (fs : List (FillRow D))
      → is_negative delta ≡ false
      → Adds id delta tid fs
      → fills_qty j fs ≡ (if str_eq id j then delta else zero_decimal)
  Adds-fills_qty id j delta tid [] n a = ground (arith, dec.sign_naught delta)
  Adds-fills_qty id j delta tid (f ∷ []) n a =
      ground (arith, dec.add_zero f.qty, eq_iff id j, eq_iff f.client_order_id j)
  Adds-fills_qty id j delta tid (f ∷ g ∷ fs) n a = absurd a

  balanced_after :
      (row : OrderRow D) (delta : D) (tid : ℕ) (fs new : List (FillRow D))
      (f : OrderRow D → OrderRow D) (rows : List (OrderRow D))
      → is_negative delta ≡ false
      → Adds row.client_order_id delta tid new
      → row.filled_qty ≡ fills_qty row.client_order_id fs
      → ((r : OrderRow D) → (f r).filled_qty ≡ add row.filled_qty delta)
      → ((r : OrderRow D) → (f r).client_order_id ≡ r.client_order_id)
      → All (λ r. r.filled_qty ≡ fills_qty r.client_order_id fs) rows
      → All
          (λ r. r.filled_qty ≡ fills_qty r.client_order_id (fs ++ new))
          (update_where (has_id row.client_order_id) f rows)
  unfolding update_where
  balanced_after row delta tid fs new f [] n a b q i h = tt
  balanced_after row delta tid fs new f (r ∷ rows) n a b q i h = (
    ground (
      arith,
      q r,
      i r,
      fills_qty-append r.client_order_id fs new,
      Adds-fills_qty row.client_order_id r.client_order_id delta tid new n a,
      eq_iff r.client_order_id row.client_order_id,
      eq_iff row.client_order_id r.client_order_id,
      dec.add_zero (fills_qty r.client_order_id fs),
    ),
    balanced_after row delta tid fs new f rows n a b q i h.1,
  )

  pub Persisted-IsBalanced :
      (row : OrderRow D) (source : Source) (ev : Event D) (d : Decision D) (w u : Session D)
      → is_negative d.fill_delta ≡ false
      → row.filled_qty ≡ fills_qty row.client_order_id w.db.fills
      → Persisted row source ev d w u
      → IsBalanced w.db
      → IsBalanced u.db
  Persisted-IsBalanced row source ev d w u n q p h = record {
    filled =
        rw (p.orders, p.fills)
          (balanced_after row d.fill_delta w.next_transition_id w.db.fills p.fills_added _
            w.db.orders n p.added q (λ r. refl) (λ r. refl) h.filled);
  }

  Adopted-IsBalanced :
      (row : OrderRow D) (ev : Event D) (w u : Session D)
      → Adopted row ev w u
      → IsBalanced w.db
      → IsBalanced u.db
  Adopted-IsBalanced row ev w u (inl e) h = rw e h
  Adopted-IsBalanced row ev w u (inr (t, _, _, e)) h = rw e (record {
    filled =
        All-update_where (λ r. r.filled_qty ≡ fills_qty r.client_order_id w.db.fills) _ _
          w.db.orders (λ r _ k. k) h.filled;
  })

  Applied-IsBalanced :
      (row : OrderRow D) (source : Source) (ev : Event D) (d : Decision D) (id : ClientOrderId)
      (w u : Session D)
      → find (has_id id) w.db.orders ≡ some row
      → transition (state_of row) ev ≡ ok d
      → Applied row source ev d w u
      → IsBalanced w.db
      → IsBalanced u.db
  Applied-IsBalanced row source ev d id w u f t (inl (_, a)) h = Adopted-IsBalanced row ev w u a h
  Applied-IsBalanced row source ev d id w u f t (inr (_, p)) h =
      Persisted-IsBalanced row source ev d w u (anomaly_exact (state_of row) ev d t).1
        (All-find (λ r. r.filled_qty ≡ fills_qty r.client_order_id w.db.fills) (has_id id)
          w.db.orders f h.filled).0
        p h

  -- Whatever `ApplyEvent` does, with any faults and whether it returns a result or an error, the
  -- stored cumulative fill of every order stays the sum of the quantities of the order's fills.
  pub apply_event-IsBalanced :
      (source : Source) (ev : Event D) (w : Session D)
      → IsBalanced w.db
      → IsBalanced (apply_event source ev w).1.db
  apply_event-IsBalanced source ev w h = ended (apply_event source ev w).0 _ refl
    where
      ended :
          (r : Result (ApplyResult D)) (u : Session D)
          → apply_event source ev w ≡ (r, u)
          → IsBalanced u.db
      ended (ok r) u e =
          let (row, f, t, a) = apply_event_ok source ev w r u e in
          Applied-IsBalanced row source ev r.decision ev.ref.client_order_id w u f t a h
      ended (err x) u e = elim (apply_event_atomic source ev w x u e) [
        | inl k ↦ rw k h
        | inr (r, _, row, _, _, f, t, a) ↦
            Applied-IsBalanced row source ev r.decision ev.ref.client_order_id w u f t a h
      ]
