-- ===== src/Postgres/OrderStore/Apply.antt =====
-- internal/adapters/postgres/orders.go: `apply_event` as a whole: what it returns, what it writes, and what a failure leaves.
use mathlib.Core.Path.{subst}
use delta_works.Base.{
  ◌≡◌, refl, sym, ap, ◌∙◌, ◌⊎◌, inl, inr, Bool, true, false, not, ◌&&◌, ◌||◌, Option, none, some,
  String, if◌then◌else◌, arith, Bool-cases, update_where, find, str_eq,
}
use delta_works.Errors.{Result, ok, err, Error}
use delta_works.Decimal.{Decimals}
use delta_works.Domain.Order.{Time, ClientOrderId, Event, Source}
use delta_works.Domain.Order.Machine.{State, Decision, transition}
use delta_works.Postgres.Schema.{OrderRow, Db}
use delta_works.Postgres.Session.{Session, fault_of, reply_lost}
use delta_works.Postgres.Session.Laws.{bind_ok, transaction_ok, transaction_err, begun}
use delta_works.Postgres.Queries.{has_id, get_order_row, adopt_venue_order_id_row, is_none}
use delta_works.Postgres.OrderStore.{
  ApplyResult, adopt_venue_order_id, persist_decision, changes_nothing, drop_event, keep_decision,
  apply_to_row, with_row, apply_body, apply_event, lift, null_string,
}
use delta_works.Postgres.OrderStore.Effect.{Persisted, persist_decision_ok}

-- What dropping an event on `row` writes: nothing, or the venue order ID that the row misses.
abbrev pub Adopted : {D : Type 0} → OrderRow D → Event D → Session D → Session D → Type 0
Adopted row ev w u =
    (u.db ≡ w.db)
    ⊎ ((stamp : Time) × (is_none row.venue_order_id ≡ true)
        × (str_eq ev.ref.venue_order_id "" ≡ false)
        × (u.db ≡ record w.db {
          orders =
              update_where (λ r. has_id row.client_order_id r && is_none r.venue_order_id)
                (λ r. record r {
                  venue_order_id = null_string ev.ref.venue_order_id;
                  updated_at = stamp;
                })
                w.db.orders;
        }))

module _ {D : Type 0} ⦃dec : Decimals D⦄ where
  abbrev pub state_of : OrderRow D → State D
  state_of row = record { status = row.status; filled_qty = row.filled_qty }

  adopt_row_ok :
      (row : OrderRow D) (v : Option String) (w : Session D) {u : Session D}
      → adopt_venue_order_id_row row.client_order_id v w ≡ (ok tt, u)
      → u.db ≡ record w.db {
        orders =
            update_where
              (λ r. has_id row.client_order_id r && is_none r.venue_order_id)
              (λ r. record r { venue_order_id = v; updated_at = w.now })
              w.db.orders;
      }
  unfolding adopt_venue_order_id_row
  adopt_row_ok row v w h = ground arith

  adopt_ok :
      (row : OrderRow D) (ev : Event D) (w : Session D) (b : Bool) {u : Session D}
      → adopt_venue_order_id row ev.ref.venue_order_id w ≡ (ok b, u)
      → (b ≡ false) ⊎ ((b ≡ true) × Adopted row ev w u)
  unfolding adopt_venue_order_id
  adopt_ok row ev w b h =
      elim (Bool-cases (not (is_none row.venue_order_id) || str_eq ev.ref.venue_order_id "")) [
        | inl e ↦ inl (returned (rw e at h))
        | inr e ↦
            let (_, v, q, k) = bind_ok _ _ w (rw e at h) in
            let d = adopt_row_ok row (null_string ev.ref.venue_order_id) w q in
            inr (returned k, inr (w.now, ground arith, ground arith, ap (λ x. x.1.db) (sym k) ∙ d))
      ]
    where
      returned :
          {a b : Bool} {x y : Session D}
          → ◌≡◌ {A = Result Bool × Session D} (ok a, x) (ok b, y)
          → b ≡ a
      returned q = cc

  drop_event_ok :
      (row : OrderRow D) (ev : Event D) (d : Decision D) (w : Session D) (r : ApplyResult D)
      (b : Bool) {u : Session D}
      → drop_event row ev d w ≡ (ok (r, b), u)
      → (r.decision ≡ d) × ((b ≡ false) ⊎ ((b ≡ true) × Adopted row ev w u))
  drop_event_ok row ev d w r b h =
      let (a, v, q, k) = bind_ok _ _ w h in
      (
        ap (λ x. x.decision) (result_of k),
        subst (λ (x : Bool × Session D). (x.0 ≡ false) ⊎ ((x.0 ≡ true) × Adopted row ev w x.1))
            (flag_of k) (adopt_ok row ev w a q),
      )
    where
      result_of :
          {x y : ApplyResult D} {a c : Bool} {v z : Session D}
          → ◌≡◌ {A = Result (ApplyResult D × Bool) × Session D} (ok (x, a), v) (ok (y, c), z)
          → y ≡ x
      result_of q = cc

      flag_of :
          {x y : ApplyResult D} {a c : Bool} {v z : Session D}
          → ◌≡◌ {A = Result (ApplyResult D × Bool) × Session D} (ok (x, a), v) (ok (y, c), z)
          → ◌≡◌ {A = Bool × Session D} (a, v) (c, z)
      flag_of q = cc

  pub get_order_row_ok :
      (id : ClientOrderId) (w : Session D) {o : Option (OrderRow D)} {u : Session D}
      → get_order_row id w ≡ (ok o, u)
      → (o ≡ find (has_id id) w.db.orders) × (u ≡ record w { faults = u.faults })
  unfolding get_order_row
  get_order_row_ok id w h = ground arith

  -- The two ways in which an event is applied to the row it names.
  abbrev pub Applied : OrderRow D → Source → Event D → Decision D → Session D → Session D → Type 0
  Applied row source ev d w u =
      ((changes_nothing d ≡ true) × Adopted row ev w u)
      ⊎ ((changes_nothing d ≡ false) × Persisted row source ev d w u)

  Persisted-faults :
      (row : OrderRow D) (source : Source) (ev : Event D) (d : Decision D) (w w1 v u : Session D)
      → w1 ≡ record w { faults = w1.faults }
      → u.db ≡ v.db
      → Persisted row source ev d w1 v
      → Persisted row source ev d w u
  Persisted-faults row source ev d w w1 v u e k p =
      let q = subst (λ x. Persisted row source ev d x v) e p in
      record {
        stamp = q.stamp;
        fills_added = q.fills_added;
        orders = ap (λ x. x.orders) k ∙ q.orders;
        transitions = ap (λ x. x.transitions) k ∙ q.transitions;
        fills = ap (λ x. x.fills) k ∙ q.fills;
        added = q.added;
      }

  Adopted-faults :
      (row : OrderRow D) (ev : Event D) (w w1 v u : Session D)
      → w1.db ≡ w.db
      → u.db ≡ v.db
      → Adopted row ev w1 v
      → Adopted row ev w u
  Adopted-faults row ev w w1 v u e k (inl s) = inl (k ∙ s ∙ e)
  Adopted-faults row ev w w1 v u e k (inr (t, a, b, s)) = inr (
    t,
    a,
    b,
    k
        ∙ s
        ∙ ap
            (λ (x : Db D). record x {
              orders =
                  update_where (λ r. has_id row.client_order_id r && is_none r.venue_order_id)
                    (λ r. record r {
                      venue_order_id = null_string ev.ref.venue_order_id;
                      updated_at = t;
                    })
                    x.orders;
            })
            e,
  )

  -- What the body wrote, once the transaction has kept or undone it.
  abbrev Kept : OrderRow D → Source → Event D → Decision D → Bool → Session D → Session D → Type 0
  Kept row source ev d b w v =
      ((changes_nothing d ≡ true) × ((b ≡ false) ⊎ ((b ≡ true) × Adopted row ev w v)))
      ⊎ ((changes_nothing d ≡ false) × (b ≡ true) × Persisted row source ev d w v)

  persist_ok :
      (row : OrderRow D) (source : Source) (ev : Event D) (d : Decision D) (w : Session D)
      (r : ApplyResult D) (b : Bool) {u : Session D}
      → keep_decision row source ev d w ≡ (ok (r, b), u)
      → (r.decision ≡ d) × (b ≡ true) × Persisted row source ev d w u
  persist_ok row source ev d w r b h =
      let (x, v, q, k) = bind_ok (persist_decision row source ev d) _ w h in
      let (p, e) = persist_decision_ok row source ev d w q in
      (
        ap (λ y. y.decision) (result_of k) ∙ e,
        flag_of k,
        subst (Persisted row source ev d w) (ap (λ y. y.1) k) p,
      )
    where
      result_of :
          {x y : ApplyResult D} {a c : Bool} {v z : Session D}
          → ◌≡◌ {A = Result (ApplyResult D × Bool) × Session D} (ok (x, a), v) (ok (y, c), z)
          → y ≡ x
      result_of q = cc

      flag_of :
          {x y : ApplyResult D} {a c : Bool} {v z : Session D}
          → ◌≡◌ {A = Result (ApplyResult D × Bool) × Session D} (ok (x, a), v) (ok (y, c), z)
          → c ≡ a
      flag_of q = cc

  -- Both ways out of the body, for a decision `d`.
  body-Kept :
      (row : OrderRow D) (source : Source) (ev : Event D) (d : Decision D) (w : Session D)
      (r : ApplyResult D) (b : Bool) {u : Session D}
      → (if changes_nothing d then drop_event row ev d else keep_decision row source ev d) w
        ≡ (ok (r, b), u)
      → (r.decision ≡ d) × Kept row source ev d b w u
  body-Kept row source ev d w r b h = elim (Bool-cases (changes_nothing d)) [
    | inl c ↦ let (x, y) = drop_event_ok row ev d w r b (rw c at h) in (x, inl (c, y))
    | inr c ↦ let (x, y, z) = persist_ok row source ev d w r b (rw c at h) in (x, inr (c, y, z))
  ]

  apply_to_row_ok :
      (row : OrderRow D) (source : Source) (ev : Event D) (w : Session D) (r : ApplyResult D)
      (b : Bool) {u : Session D}
      → apply_to_row row source ev w ≡ (ok (r, b), u)
      → (transition (state_of row) ev ≡ ok r.decision) × Kept row source ev r.decision b w u
  unfolding apply_to_row
  apply_to_row_ok row source ev w r b {u} h =
      let (d, w1, e1, h1) = bind_ok (lift (transition (state_of row) ev)) _ w h in
      let (x, y) = body-Kept row source ev d w1 r b h1 in
      (
        ap (λ z. z.0) e1 ∙ ap ok (sym x),
        subst (λ z. Kept row source ev r.decision b z u) (ap (λ z. z.1) (sym e1))
            (subst (λ z. Kept row source ev z b w1 u) (sym x) y),
      )

  -- The lock and the body after it.
  with_row_ok :
      (o : Option (OrderRow D)) (source : Source) (ev : Event D) (w : Session D) (r : ApplyResult D)
      (b : Bool) {u : Session D}
      → with_row o source ev w ≡ (ok (r, b), u)
      → (row : OrderRow D) × (o ≡ some row)
        × (transition (state_of row) ev ≡ ok r.decision)
        × Kept row source ev r.decision b w u
  with_row_ok none source ev w r b h = absurd (cc)
  with_row_ok (some row) source ev w r b h =
      let (t, k) = apply_to_row_ok row source ev w r b h in (row, refl, t, k)

  Kept-Applied :
      (row : OrderRow D) (source : Source) (ev : Event D) (d : Decision D) (b : Bool)
      (w w1 v u : Session D)
      → w1 ≡ record w { faults = w1.faults }
      → (u.db ≡ (if b then v.db else w.db))
      → Kept row source ev d b w1 v
      → Applied row source ev d w u
  Kept-Applied row source ev d false w w1 v u e k (inl (c, _)) = inl (c, inl k)
  Kept-Applied row source ev d true w w1 v u e k (inl (c, inl f)) = absurd (cc)
  Kept-Applied row source ev d true w w1 v u e k (inl (c, inr (t, a))) =
      inl (c, Adopted-faults row ev w w1 v u (ap (λ x. x.db) e) k a)
  Kept-Applied row source ev d false w w1 v u e k (inr (c, f, p)) = absurd (cc)
  Kept-Applied row source ev d true w w1 v u e k (inr (c, f, p)) =
      inr (c, Persisted-faults row source ev d w w1 v u e k p)

  -- The body, from the session at the start of the transaction.
  pub apply_body_ok :
      (source : Source) (ev : Event D) (w v u : Session D) (r : ApplyResult D) (b : Bool)
      → apply_body source ev (begun w) ≡ (ok (r, b), v)
      → u.db ≡ (if b then v.db else w.db)
      → (row : OrderRow D) × (find (has_id ev.ref.client_order_id) w.db.orders ≡ some row)
        × (transition (state_of row) ev ≡ ok r.decision)
        × Applied row source ev r.decision w u
  unfolding apply_body
  apply_body_ok source ev w v u r b e k =
      let (o, w1, e1, h1) = bind_ok (get_order_row ev.ref.client_order_id) _ (begun w) e in
      let (found, same) = get_order_row_ok ev.ref.client_order_id (begun w) e1 in
      let (row, s, t, kept) = with_row_ok o source ev w1 r b h1 in
      (row, sym found ∙ s, t, Kept-Applied row source ev r.decision b w w1 v u same k kept)

  -- When `ApplyEvent` returns a result, the order existed, the result carries the decision of the state
  -- machine on the stored status and fill, and the orders, transitions and fills hold exactly what that
  -- decision asks for: a
  -- dropped event with no fill writes nothing but a missing venue order ID; any other writes the row's
  -- new state, one transition with the next sequence number, also if the event's status is dropped and
  -- only its fill is taken, and one fill of the decision's quantity if that is positive.
  pub apply_event_ok :
      (source : Source) (ev : Event D) (w : Session D) (r : ApplyResult D) (u : Session D)
      → apply_event source ev w ≡ (ok r, u)
      → (row : OrderRow D) × (find (has_id ev.ref.client_order_id) w.db.orders ≡ some row)
        × (transition (state_of row) ev ≡ ok r.decision)
        × Applied row source ev r.decision w u
  unfolding apply_event
  apply_event_ok source ev w r u h =
      let (b, v, e, k) = transaction_ok (apply_body source ev) w h in
      apply_body_ok source ev w v u r b e k

  -- A failed `ApplyEvent` has written nothing, unless the reply of its COMMIT was lost. Then the order
  -- existed, and the orders, transitions and fills hold exactly what the decision of the state machine
  -- on the stored status and fill asks for, as after a success: never a part of it.
  pub apply_event_atomic :
      (source : Source) (ev : Event D) (w : Session D) (e : Error) (u : Session D)
      → apply_event source ev w ≡ (err e, u)
      → (u.db ≡ w.db)
        ⊎ ((r : ApplyResult D) × (v : Session D) × (row : OrderRow D) × (apply_body source ev
                (begun w)
              ≡ (ok (r, true), v))
            × (fault_of v.faults ≡ reply_lost)
            × (find (has_id ev.ref.client_order_id) w.db.orders ≡ some row)
            × (transition (state_of row) ev ≡ ok r.decision)
            × Applied row source ev r.decision w u)
  unfolding apply_event
  apply_event_atomic source ev w e u h = elim (transaction_err (apply_body source ev) w h) [
    | inl k ↦ inl k
    | inr (r, v, b, f, k) ↦
        let (row, found, t, a) = apply_body_ok source ev w v u r true b k in
        inr (r, v, row, b, f, found, t, a)
  ]
