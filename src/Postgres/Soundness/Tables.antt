-- ===== src/Postgres/Soundness/Tables.antt =====
-- internal/adapters/postgres: the tables of orders, transitions and fills beside each other.
use delta_works.Base.{
  ℕ, ◌+◌, ◌≤◌, ◌≡◌, refl, sym, ap, ◌∙◌, Bool, true, false, List, [], ◌∷◌, ◌++◌, if◌then◌else◌,
  arith, update_where, any, keep, length, str_eq, eq_iff, All, All-update_where, All-map_where,
  Bool-cases, inl, inr,
}
use delta_works.Decimal.{Decimals, zero_decimal}
use delta_works.Domain.Order.{ClientOrderId, pending}
use delta_works.Domain.Order.Machine.{State}
use delta_works.Postgres.Schema.{OrderRow, TransitionRow, FillRow, Db}
use delta_works.Postgres.Queries.{has_id}
use delta_works.Postgres.OrderStore.Apply.{state_of}
use delta_works.Postgres.OrderStore.Invariant.{fills_qty}

pub turned : (i j : ClientOrderId) (b : Bool) → str_eq i j ≡ b → str_eq j i ≡ b
turned i j b e = ground (arith, eq_iff i j, eq_iff j i)

module _ {D : Type 0} where
  -- Whether there is an order of an ID.
  abbrev pub has_order : List (OrderRow D) → ClientOrderId → Bool
  has_order orders id = any (has_id id) orders

  -- How many rows an ID has.
  abbrev pub rows_of : ClientOrderId → List (OrderRow D) → ℕ
  rows_of id orders = length (keep (has_id id) orders)

  abbrev pub log_step : ClientOrderId → State D → TransitionRow D → State D
  log_step id s t =
      if str_eq t.client_order_id id
      then record { status = t.to_status; filled_qty = t.filled_qty }
      else s

  -- The state that the transitions of an order lead to.
  abbrev pub logged : ClientOrderId → State D → List (TransitionRow D) → State D
  logged id s [] = s
  logged id s (t ∷ ts) = logged id (log_step id s t) ts

  pub logged-append :
      (id : ClientOrderId) (s : State D) (ts us : List (TransitionRow D))
      → logged id s (ts ++ us) ≡ logged id (logged id s ts) us
  logged-append id s [] us = refl
  logged-append id s (t ∷ ts) us = logged-append id (log_step id s t) ts us

  pub has_order-append :
      (orders new : List (OrderRow D)) (id : ClientOrderId)
      → has_order orders id ≡ true
      → has_order (orders ++ new) id ≡ true
  unfolding any
  has_order-append [] new id h = absurd (cc)
  has_order-append (r ∷ rs) new id h = ground (arith, has_order-append rs new id)

  pub rows_of-snoc :
      (id : ClientOrderId) (orders : List (OrderRow D)) (row : OrderRow D)
      → rows_of id (orders ++ row ∷ []) ≡ rows_of id orders + (if has_id id row then 1 else 0)
  unfolding keep
  rows_of-snoc id [] row = ground arith
  rows_of-snoc id (r ∷ rs) row = ground (arith, rows_of-snoc id rs row)

  pub no_rows :
      (id : ClientOrderId) (orders : List (OrderRow D))
      → has_order orders id ≡ false
      → rows_of id orders ≡ 0
  unfolding any keep
  no_rows id [] h = refl
  no_rows id (r ∷ rs) h = ground (arith, no_rows id rs)

  -- A row that belongs to another order than one that is not there.
  pub other_order :
      (orders : List (OrderRow D)) (i j : ClientOrderId)
      → has_order orders i ≡ true
      → has_order orders j ≡ false
      → str_eq i j ≡ false
  other_order orders i j h k = elim (Bool-cases (str_eq i j)) [
    | inl e ↦ absurd (cc (h, k, (eq_iff i j).0 e))
    | inr e ↦ e
  ]

  pub log_of_none :
      (orders : List (OrderRow D)) (id : ClientOrderId) (s : State D) (ts : List (TransitionRow D))
      → has_order orders id ≡ false
      → All (λ t. has_order orders t.client_order_id ≡ true) ts
      → logged id s ts ≡ s
  log_of_none orders id s [] h k = refl
  log_of_none orders id s (t ∷ ts) h k =
      rw (other_order orders t.client_order_id id k.0 h) (log_of_none orders id s ts h k.1)

module _ {D : Type 0} ⦃dec : Decimals D⦄ where
  abbrev pub at_start : State D
  at_start = record { status = pending; filled_qty = zero_decimal }

  -- An order has one row; each transition and each fill belongs to an order; and the status and the
  -- cumulative fill of an order are those that its transitions lead to, the fill the sum of its fills.
  pub record IsSound (orders : List (OrderRow D)) (transitions : List (TransitionRow D))
      (fills : List (FillRow D)) : Type 0 where
    pub one_row : (id : ClientOrderId) → rows_of id orders ≤ 1
    pub known_transitions : All (λ t. has_order orders t.client_order_id ≡ true) transitions
    pub known_fills : All (λ f. has_order orders f.client_order_id ≡ true) fills
    pub logs : All (λ r. state_of r ≡ logged r.client_order_id at_start transitions) orders
    pub balanced : All (λ r. r.filled_qty ≡ fills_qty r.client_order_id fills) orders

  abbrev pub SoundDb : Db D → Type 0
  SoundDb db = IsSound db.orders db.transitions db.fills

  module _ (p : OrderRow D → Bool) (f : OrderRow D → OrderRow D)
      (same_id : (r : OrderRow D) → (f r).client_order_id ≡ r.client_order_id) where
    pub has_order-update_where :
        (orders : List (OrderRow D)) (id : ClientOrderId)
        → has_order (update_where p f orders) id ≡ has_order orders id
    unfolding update_where any
    has_order-update_where [] id = refl
    has_order-update_where (r ∷ rs) id = ground (arith, same_id r, has_order-update_where rs id)

    pub rows_of-update_where :
        (id : ClientOrderId) (orders : List (OrderRow D))
        → rows_of id (update_where p f orders) ≡ rows_of id orders
    unfolding update_where keep
    rows_of-update_where id [] = refl
    rows_of-update_where id (r ∷ rs) = ground (arith, same_id r, rows_of-update_where id rs)

    -- A change of other columns of some rows.
    pub touched-IsSound :
        (orders : List (OrderRow D)) (ts : List (TransitionRow D)) (fs : List (FillRow D))
        → ((r : OrderRow D) → state_of (f r) ≡ state_of r)
        → IsSound orders ts fs
        → IsSound (update_where p f orders) ts fs
    touched-IsSound orders ts fs same s = record {
      one_row = λ id. rw (rows_of-update_where id orders) (s.one_row id);
      known_transitions =
          All-map_where _ ts (λ t h. has_order-update_where orders t.client_order_id ∙ h)
            s.known_transitions;
      known_fills =
          All-map_where _ fs (λ t h. has_order-update_where orders t.client_order_id ∙ h)
            s.known_fills;
      logs =
          All-update_where _ p f orders
            (λ r _ h. same r ∙ h ∙ ap (λ i. logged i at_start ts) (sym (same_id r))) s.logs;
      balanced =
          All-update_where _ p f orders
            (λ r _ h.
              ap (λ x. x.filled_qty) (same r) ∙ h ∙ ap (λ i. fills_qty i fs) (sym (same_id r)))
            s.balanced;
    }
