-- ===== src/Service/Orders/Prepare.antt =====
-- internal/service/order/order.go: the table of orders when `preparePlace` decides to submit.
use delta_works.Base.{
  ℕ, ◌≡◌, refl, sym, ap, ◌∙◌, Bool, true, false, List, [], ◌∷◌, ◌++◌, Option, none, some,
  if◌then◌else◌, ◌==◌, arith, str_eq, eq_refl, find, any,
}
use delta_works.Errors.{Result, ok, err}
use delta_works.Decimal.{Decimals}
use delta_works.Decimal.Order.{sign-sub_self}
use delta_works.Domain.Order.{
  ClientOrderId, Request, OrderRecord, Side, OrderType, same_side, same_type, same_status, pending,
  buy, sell, limit, market,
}
use delta_works.Postgres.Schema.{OrderRow, Db}
use delta_works.Postgres.Session.{Session, Tx, pure, attempt}
use delta_works.Postgres.Session.Laws.{bind_ok}
use delta_works.Postgres.Queries.{has_id, insert_pending_order, get_order_row}
use delta_works.Postgres.OrderStore.Apply.{get_order_row_ok}
use delta_works.Postgres.OrderMethods.{
  create_pending, get_order, found_order, order_record, pending_row,
}
use delta_works.Service.Orders.{
  Venue, submit, same_identity, recognise, retry_of, persist_first, with_id, with_bot,
  prepare_place, venue_of,
}

same_side_refl : (s : Side) → same_side s s ≡ true
same_side_refl buy = refl
same_side_refl sell = refl
same_side_refl (Side.unknown t) = eq_refl t

same_type_refl : (s : OrderType) → same_type s s ≡ true
same_type_refl limit = refl
same_type_refl market = refl
same_type_refl (OrderType.unknown t) = eq_refl t

module _ {D : Type 0} ⦃dec : Decimals D⦄ where
  attempt_ok :
      {A : Type 0} (m : Tx D A) (w : Session D) (r : Result A) (v : Session D)
      → attempt m w ≡ (ok r, v)
      → m w ≡ (r, v)
  attempt_ok m w r v h = cc

  -- The order of a request is stored, as the request describes it, pending and with no venue order ID.
  abbrev pub IsReady : Request D → Db D → Type 0
  IsReady req db =
      (row : OrderRow D) × (find (has_id req.client_order_id) db.orders ≡ some row)
      × (same_identity (order_record row) req ≡ true)
      × (same_status row.status pending ≡ true)
      × (str_eq (order_record row).venue_order_id "" ≡ true)

  find-append :
      (id : ClientOrderId) (rows : List (OrderRow D)) (r : OrderRow D)
      → any (has_id id) rows ≡ false
      → has_id id r ≡ true
      → find (has_id id) (rows ++ r ∷ []) ≡ some r
  unfolding find any
  find-append id [] r n h = rw h
  find-append id (x ∷ rows) r n h = ground (arith, find-append id rows r)

  fresh_identity :
      (req : Request D) (row : OrderRow D)
      → row ≡ record (pending_row req) { created_at = row.created_at; updated_at = row.updated_at }
      → same_identity (order_record row) req ≡ true
  unfolding same_identity
  fresh_identity req row e = rw (
    e,
    eq_refl req.client_order_id,
    eq_refl req.bot_id,
    eq_refl req.instrument.venue,
    eq_refl req.instrument.base,
    eq_refl req.instrument.quote,
    same_side_refl req.side,
    same_type_refl req.type,
    sign-sub_self req.price,
    sign-sub_self req.qty,
  )

  abbrev stored_row : OrderRow D → ℕ → OrderRow D
  stored_row row now = record row { status = pending; created_at = now; updated_at = now }

  insert_ok :
      (row : OrderRow D) (n : ℕ) (w u : Session D)
      → insert_pending_order row w ≡ (ok n, u)
      → (n == 1) ≡ true
      → (any (has_id row.client_order_id) w.db.orders ≡ false)
        × (u.db.orders ≡ w.db.orders ++ stored_row row w.now ∷ [])
  unfolding insert_pending_order
  insert_ok row n w u h k = ground arith

  create_pending_ok :
      (req : Request D) (w u : Session D) → create_pending req w ≡ (ok true, u) → IsReady req u.db
  unfolding create_pending
  create_pending_ok req w u h =
      let (n, v, e, k) = bind_ok (insert_pending_order (pending_row req)) _ w h in
      let (b, rows) = insert_ok (pending_row req) n w v e (ground arith) in
      let same : u.db ≡ v.db = ground arith in
      (
        stored_row (pending_row req) w.now,
        ap (λ x. find (has_id req.client_order_id) x.orders) same
            ∙ ap (find (has_id req.client_order_id)) rows
            ∙ find-append req.client_order_id w.db.orders _ b (eq_refl req.client_order_id),
        fresh_identity req _ refl,
        refl,
        refl,
      )

  found_order_ok :
      (o : Option (OrderRow D)) (w u : Session D) (stored : OrderRecord D)
      → found_order o w ≡ (ok stored, u)
      → (row : OrderRow D) × (o ≡ some row) × (stored ≡ order_record row) × (u.db ≡ w.db)
  found_order_ok none w u stored h = absurd (ground arith)
  found_order_ok (some row) w u stored h = (row, refl, ground arith, ground arith)

  get_order_ok :
      (id : ClientOrderId) (w u : Session D) (stored : OrderRecord D)
      → get_order id w ≡ (ok stored, u)
      → (row : OrderRow D) × (find (has_id id) u.db.orders ≡ some row) × (stored ≡ order_record row)
  unfolding get_order
  get_order_ok id w u stored h =
      let (o, v, e, k) = bind_ok (get_order_row id) _ w h in
      let (found, same) = get_order_row_ok id w e in
      let (row, p, q, d) = found_order_ok o v u stored k in
      (row, ap (λ x. find (has_id id) x.orders) (d ∙ ap (λ x. x.db) same) ∙ sym found ∙ p, q)

  recognise_ok :
      (req req' : Request D) (venue : Option (Venue D)) (at : Venue D) (r : Result (OrderRecord D))
      (w u : Session D)
      → recognise req venue r w ≡ (ok (submit req' at), u)
      → (stored : OrderRecord D) × (r ≡ ok stored)
        × (req' ≡ req)
        × (venue ≡ some at)
        × (u ≡ w)
        × (same_identity stored req ≡ true)
        × (same_status stored.status pending ≡ true)
        × (str_eq stored.venue_order_id "" ≡ true)
  recognise_ok req req' none at (err e) w u h = absurd (ground arith)
  recognise_ok req req' (some v) at (err e) w u h = absurd (ground arith)
  recognise_ok req req' none at (ok stored) w u h = absurd (ground arith)
  recognise_ok req req' (some v) at (ok stored) w u h = (
    stored,
    refl,
    ground arith,
    ground arith,
    ground arith,
    ground arith,
    ground arith,
    ground arith,
  )

  retry_of_ok :
      (req req' : Request D) (venue : Option (Venue D)) (at : Venue D) (w u : Session D)
      → retry_of req venue w ≡ (ok (submit req' at), u)
      → IsReady req' u.db × (req' ≡ req) × (venue ≡ some at)
  unfolding retry_of
  retry_of_ok req req' venue at w u h =
      let (r, v, e, k) = bind_ok (attempt (get_order req.client_order_id)) _ w h in
      let (stored, p, q, same, s, i, pend, empty) = recognise_ok req req' venue at r v u k in
      let run = attempt_ok (get_order req.client_order_id) w r v e in
      let (row, f, o) = get_order_ok req.client_order_id w v stored (run ∙ ap (λ x. (x, v)) p) in
      let ready : IsReady req v.db = (row, f, rw o at i, rw o at pend, rw o at empty) in
      (rw (q, s) ready, q, same)

  persist_first_ok :
      (req req' : Request D) (venue : Option (Venue D)) (at : Venue D) (w u : Session D)
      → persist_first req venue w ≡ (ok (submit req' at), u)
      → IsReady req' u.db × (req' ≡ req) × (venue ≡ some at)
  persist_first_ok req req' none at w u h = retry_of_ok req req' none at w u h
  persist_first_ok req req' (some venue) at w u h =
      let (b, v, e, k) = bind_ok (create_pending req) _ w h in after b v e k
    where
      after :
          (b : Bool) (v : Session D)
          → create_pending req w ≡ (ok b, v)
          → (if b then pure (submit req venue) else retry_of req (some venue)) v
            ≡ (ok (submit req' at), u)
          → IsReady req' u.db × (req' ≡ req) × (some venue ≡ some at)
      after false v e k = retry_of_ok req req' (some venue) at v u k
      after true v e k =
          let ready = create_pending_ok req w v e in
          let q : req' ≡ req = ground arith in
          let s : u ≡ v = ground arith in (rw (q, s) ready, q, ground arith)

  bot_instrument : (req : Request D) → (with_bot req).instrument ≡ req.instrument
  bot_instrument req = ground arith

  -- When `preparePlace` decides to submit, with any faults before, the order is stored under the ID of
  -- the request that is submitted, with the same bot, instrument, side, type, price and quantity,
  -- pending and with no venue order ID; and the venue is the one configured for the request.
  pub prepare_place-IsReady :
      (venues : List (Venue D)) (req sent : Request D) (venue : Venue D) (w u : Session D)
      → prepare_place venues req w ≡ (ok (submit sent venue), u)
      → IsReady sent u.db × (venue_of sent.instrument.venue venues ≡ some venue)
  unfolding prepare_place
  prepare_place-IsReady venues req sent venue w u h =
      let (named, v, e, k) = bind_ok (with_id req) _ w h in
      let (ready, q, same) =
        persist_first_ok (with_bot named) sent (venue_of named.instrument.venue venues) venue v u
          k in
      (
        ready,
        ap (λ x. venue_of x.instrument.venue venues) q
            ∙ ap (λ i. venue_of i.venue venues) (bot_instrument named)
            ∙ same,
      )
