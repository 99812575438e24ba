-- ===== src/Ctl/Daemon.antt =====
-- cmd/ctl/order.go: the listing of the client at the daemon of internal/api/orders.go.
use delta_works.Base.{
  ℕ, ◌≤◌, ◌≡◌, ap, List, [], ◌∷◌, String, length, length-map, length-take, take, arith, inl, inr,
}
use delta_works.Errors.{Result, ok, err, other}
use delta_works.Decimal.{Decimals}
use delta_works.Domain.Order.{OrderRecord}
use delta_works.Exchange.{Call}
use delta_works.Postgres.Session.{Session, ◌>>=◌}
use delta_works.Postgres.Session.Laws.{bind_ok}
use delta_works.Postgres.OrderMethods.{list_orders}
use delta_works.Api.Orders.{Codec, Reply, answered, refused_with, reply}
use delta_works.Api.Orders.Listing.{
  ListOrdersRequest, ListOrdersResponse, page, page_query, page_limit, filter_digest, lift_page,
  list_orders_page, handle_list_orders,
}
use delta_works.Api.Orders.Pages.{page-IsPage}
use delta_works.Ctl.Listing.{IsBounded}

-- An answer of `ListOrders` as the client has it.
abbrev pub received : Result (Reply ListOrdersResponse) → Result ListOrdersResponse
received (ok (answered r)) = ok r
received (ok (refused_with c)) = err (other "refused" ∷ [])
received (err e) = err e

module _ {D : Type 0} ⦃dec : Decimals D⦄ (codec : Codec) (show : D → String) where
  abbrev pub daemon : ListOrdersRequest → Call (Session D) ListOrdersResponse
  daemon req w =
      (received (handle_list_orders codec show req w).0, (handle_list_orders codec show req w).1)

  page_bounded :
      (digest : String) (limit : ℕ) (rows : List (OrderRecord D)) (r : ListOrdersResponse)
      → page codec digest show limit rows ≡ ok r
      → length r.orders ≤ limit
  page_bounded digest limit rows r h = elim (page-IsPage codec digest show limit rows r h) [
    | inl (few, orders, _) ↦ rw (orders, length-map _ rows) few
    | inr (many, orders, _, _, _) ↦
        rw (orders, length-map _ (take limit rows), length-take limit rows) (omega arith)
  ]

  list_orders_page_bounded :
      (req : ListOrdersRequest) (w u : Session D) (r : ListOrdersResponse)
      → list_orders_page codec show req w ≡ (ok r, u)
      → length r.orders ≤ page_limit req.limit
  unfolding list_orders_page
  list_orders_page_bounded req w u r h =
      let (q, v, _, k) = bind_ok (lift_page (page_query codec req)) _ w h in
      let (rows, x, _, j) = bind_ok (list_orders q) _ v k in
      page_bounded (filter_digest codec req) (page_limit req.limit) rows r (ap (λ y. y.0) j)

  answers :
      (req : ListOrdersRequest) (w u : Session D) (r : ListOrdersResponse)
      → daemon req w ≡ (ok r, u)
      → list_orders_page codec show req w ≡ (ok r, u)
  unfolding handle_list_orders ◌>>=◌
  answers req w u r h =
      whichever (list_orders_page codec show req w).0 (list_orders_page codec show req w).1 h
    where
      whichever :
          (x : Result ListOrdersResponse) (v : Session D)
          → ◌≡◌ {A = Result ListOrdersResponse × Session D} (received (ok (reply x)), v) (ok r, u)
          → ◌≡◌ {A = Result ListOrdersResponse × Session D} (x, v) (ok r, u)
      whichever (ok y) v h = h
      whichever (err e) v h = absurd (cc)

  -- The daemon answers a request for a number of orders with no more than it is asked for.
  pub daemon-IsBounded : IsBounded daemon
  daemon-IsBounded req w u r some_asked full h =
      let few = list_orders_page_bounded req w u r (answers req w u r h) in
      ground (arith, few, some_asked)
