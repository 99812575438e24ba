-- ===== src/Postgres/Soundness/Changes.antt =====
-- internal/adapters/postgres: the changes that the operations make to the tables of orders, transitions
-- and fills.
use delta_works.Base.{
  ◌≡◌, refl, sym, ap, ◌∙◌, Bool, true, false, List, [], ◌∷◌, ◌++◌, if◌then◌else◌, arith,
  update_where, str_eq, eq_iff, All, All-map_where, All-append, All-snoc,
}
use delta_works.Decimal.{Decimals, zero_decimal}
use delta_works.Domain.Order.{ClientOrderId}
use delta_works.Domain.Order.Machine.{State}
use delta_works.Postgres.Schema.{OrderRow, TransitionRow, FillRow}
use delta_works.Postgres.Queries.{has_id}
use delta_works.Postgres.OrderStore.Apply.{state_of}
use delta_works.Postgres.OrderStore.Invariant.{fills_qty}
use delta_works.Postgres.Soundness.Tables.{
  turned, has_order, logged, at_start, IsSound, has_order-update_where, rows_of-update_where,
  logged-append, has_order-append, rows_of-snoc, no_rows, other_order, log_of_none,
}

module _ {D : Type 0} ⦃dec : Decimals D⦄ where
  fills_of_none :
      (orders : List (OrderRow D)) (id : ClientOrderId) (fs : List (FillRow D))
      → has_order orders id ≡ false
      → All (λ f. has_order orders f.client_order_id ≡ true) fs
      → fills_qty id fs ≡ zero_decimal
  fills_of_none orders id [] h k = refl
  fills_of_none orders id (f ∷ fs) h k =
      rw (other_order orders f.client_order_id id k.0 h) (fills_of_none orders id fs h k.1)

  -- A new order, as it is at its start.
  pub created-IsSound :
      (orders : List (OrderRow D)) (ts : List (TransitionRow D)) (fs : List (FillRow D))
      (row : OrderRow D)
      → has_order orders row.client_order_id ≡ false
      → state_of row ≡ at_start
      → IsSound orders ts fs
      → IsSound (orders ++ row ∷ []) ts fs
  created-IsSound orders ts fs row new start s = record {
    one_row = λ id. ground (
      arith,
      rows_of-snoc id orders row,
      s.one_row id,
      no_rows row.client_order_id orders new,
      eq_iff row.client_order_id id,
    );
    known_transitions =
        All-map_where _ ts (λ t h. has_order-append orders (row ∷ []) t.client_order_id h)
          s.known_transitions;
    known_fills =
        All-map_where _ fs (λ f h. has_order-append orders (row ∷ []) f.client_order_id h)
          s.known_fills;
    logs =
        All-snoc _ orders row s.logs (
          start ∙ sym (log_of_none orders row.client_order_id at_start ts new s.known_transitions));
    balanced = All-snoc _ orders row s.balanced (
        ap (λ x. x.filled_qty) start
        ∙ sym (fills_of_none orders row.client_order_id fs new s.known_fills));
  }

  logged-snoc :
      (id : ClientOrderId) (s : State D) (ts : List (TransitionRow D)) (t : TransitionRow D)
      (b : Bool)
      → str_eq t.client_order_id id ≡ b
      → logged id s (ts ++ t ∷ [])
        ≡ (if b then record { status = t.to_status; filled_qty = t.filled_qty } else logged id s ts)
  logged-snoc id s ts t b e =
      logged-append id s ts (t ∷ [])
      ∙ ap
          (λ c.
            if c
            then record { status = t.to_status; filled_qty = t.filled_qty }
            else logged id s ts)
          e

  module _ (t : TransitionRow D) (f : OrderRow D → OrderRow D) (ts : List (TransitionRow D))
      (st : (r : OrderRow D)
        → state_of (f r) ≡ record { status = t.to_status; filled_qty = t.filled_qty })
      (same : (r : OrderRow D) → (f r).client_order_id ≡ r.client_order_id) where
    log_after :
        (r : OrderRow D) (b : Bool)
        → has_id t.client_order_id r ≡ b
        → state_of r ≡ logged r.client_order_id at_start ts
        → state_of (if b then f r else r)
          ≡ logged (if b then f r else r).client_order_id at_start (ts ++ t ∷ [])
    log_after r true e h =
        st r
        ∙ sym (
            ap (λ i. logged i at_start (ts ++ t ∷ [])) (same r)
            ∙ logged-snoc r.client_order_id at_start ts t true (turned _ _ true e))
    log_after r false e h =
        h ∙ sym (logged-snoc r.client_order_id at_start ts t false (turned _ _ false e))

    logs_after :
        (orders : List (OrderRow D))
        → All (λ r. state_of r ≡ logged r.client_order_id at_start ts) orders
        → All
            (λ r. state_of r ≡ logged r.client_order_id at_start (ts ++ t ∷ []))
            (update_where (has_id t.client_order_id) f orders)
    unfolding update_where
    logs_after [] h = tt
    logs_after (r ∷ rs) h = (log_after r (has_id t.client_order_id r) refl h.0, logs_after rs h.1)

    known_after :
        (orders : List (OrderRow D)) {A : Type 0} (key : A → ClientOrderId) (xs : List A)
        → All (λ x. has_order orders (key x) ≡ true) xs
        → All (λ x. has_order (update_where (has_id t.client_order_id) f orders) (key x) ≡ true) xs
    known_after orders key xs =
        All-map_where _ xs
          (λ x h. has_order-update_where (has_id t.client_order_id) f same orders (key x) ∙ h)

    -- A transition of an order, and the fills that it adds.
    pub advanced-IsSound :
        (orders : List (OrderRow D)) (fs gs : List (FillRow D))
        → has_order orders t.client_order_id ≡ true
        → All (λ g. g.client_order_id ≡ t.client_order_id) gs
        → All
            (λ r. r.filled_qty ≡ fills_qty r.client_order_id (fs ++ gs))
            (update_where (has_id t.client_order_id) f orders)
        → IsSound orders ts fs
        → IsSound (update_where (has_id t.client_order_id) f orders) (ts ++ t ∷ []) (fs ++ gs)
    advanced-IsSound orders fs gs there theirs balanced s = record {
      one_row = λ id.
          rw (rows_of-update_where (has_id t.client_order_id) f same id orders) (s.one_row id);
      known_transitions =
          All-snoc _ ts t (known_after orders (λ x. x.client_order_id) ts s.known_transitions) (
            has_order-update_where (has_id t.client_order_id) f same orders t.client_order_id
            ∙ there);
      known_fills =
          All-append _ fs gs (known_after orders (λ x. x.client_order_id) fs s.known_fills) (
            All-map_where _ gs
              (λ g e.
                ap (has_order (update_where (has_id t.client_order_id) f orders)) e
                ∙ has_order-update_where (has_id t.client_order_id) f same orders t.client_order_id
                ∙ there)
              theirs);
      logs = logs_after orders s.logs;
      balanced = balanced;
    }
