-- ===== src/Ctl/Listing.antt =====
-- cmd/ctl/order.go: how a listing ends, and how much it prints.
use delta_works.Base.{
  ℕ, zero, suc, ◌-◌, ◌≤◌, ◌<◌, ◌≡◌, refl, Bool, true, false, ◌||◌, List, String, ◌==◌, ltb, str_eq,
  length, length-append, arith, Bool-cases, inl, inr,
}
use delta_works.Errors.{Result, ok, err}
use delta_works.Exchange.{Call}
use delta_works.Api.Orders.{ProtoStatus}
use delta_works.Api.Orders.Listing.{ListOrdersRequest, ListOrdersResponse}
use delta_works.Ctl.{
  out_of_fuel, Listed, after_page, page_size, page_request, list_pages, list_with, run_order_list,
  wire_statuses,
}

-- A daemon that answers a request for a number of orders, one to a full page, with no more than it is
-- asked for.
abbrev pub IsBounded : {W : Type 0} → (ListOrdersRequest → Call W ListOrdersResponse) → Type 0
IsBounded {W} ask =
    (req : ListOrdersRequest) (w u : W) (r : ListOrdersResponse)
    → 0 < req.limit
    → req.limit ≤ page_size
    → ask req w ≡ (ok r, u)
    → length r.orders ≤ req.limit

module _ {W : Type 0} where
  -- It ends with fuel left, and has printed no more than a bound.
  abbrev pub IsWithin : ℕ → Listed × W → Type 0
  IsWithin bound l = (length l.0.printed ≤ bound) × ¬ (l.0.ended ≡ out_of_fuel)

  after_page-IsWithin :
      (next : ℕ → String → W → Listed × W) (remaining : ℕ) (answer : Result ListOrdersResponse × W)
      → ((r : ListOrdersResponse) (u : W) → answer ≡ (ok r, u) → length r.orders ≤ remaining)
      → ((n : ℕ) (token : String) (w : W) → n < remaining → IsWithin n (next n token w))
      → IsWithin remaining (after_page next remaining answer)
  after_page-IsWithin next remaining (err e, w) few more = (omega arith, λ h. cc)
  after_page-IsWithin next remaining (ok r, w) few more =
      whichever (str_eq r.next_page_token "" || length r.orders == 0) refl
    where
      whichever :
          (b : Bool)
          → (str_eq r.next_page_token "" || length r.orders == 0) ≡ b
          → IsWithin remaining (after_page next remaining (ok r, w))
      whichever true e = rw e (few r w refl, λ h. cc)
      whichever false e =
          let some_orders : ¬ (length r.orders ≡ 0) = λ z. ground (arith, e, z) in
          let bound = few r w refl in
          let (n, f) =
            more (remaining - length r.orders) r.next_page_token w
              (omega (arith, some_orders, bound)) in
          rw
            (
              e,
              length-append r.orders
                  (next (remaining - length r.orders) r.next_page_token w).0.printed,
            )
            (omega (arith, n, bound), f)

  few_enough :
      {ask : ListOrdersRequest → Call W ListOrdersResponse} (filter : ListOrdersRequest)
      (remaining : ℕ) (token : String) (w u : W) (r : ListOrdersResponse)
      → IsBounded ask
      → ask (page_request filter (suc remaining) token) w ≡ (ok r, u)
      → length r.orders ≤ suc remaining
  few_enough filter remaining token w u r b h = elim (Bool-cases (ltb (suc remaining) page_size)) [
    | inl e ↦
        let few : length r.orders ≤ (page_request filter (suc remaining) token).limit =
          b (page_request filter (suc remaining) token) w u r (rw e (omega arith))
            (rw e (ground (arith, e))) h in
        rw e at few
    | inr e ↦
        let few : length r.orders ≤ (page_request filter (suc remaining) token).limit =
          b (page_request filter (suc remaining) token) w u r (rw e (omega arith))
            (rw e (omega arith)) h in
        ground (arith, e, rw e at few)
  ]

  list_pages-IsWithin :
      (ask : ListOrdersRequest → Call W ListOrdersResponse) (filter : ListOrdersRequest)
      (fuel remaining : ℕ) (token : String) (w : W)
      → IsBounded ask
      → remaining < fuel
      → IsWithin remaining (list_pages ask filter fuel remaining token w)
  unfolding list_pages
  list_pages-IsWithin ask filter zero remaining token w b enough = absurd (omega arith)
  list_pages-IsWithin ask filter (suc fuel) zero token w b enough = (omega arith, λ h. cc)
  list_pages-IsWithin ask filter (suc fuel) (suc remaining) token w b enough =
      after_page-IsWithin (list_pages ask filter fuel) (suc remaining) _
        (λ r u h. few_enough filter remaining token w u r b h)
        (λ n t v less. list_pages-IsWithin ask filter fuel n t v b (omega arith))

  -- A listing ends with more fuel than its limit, and prints no more orders than its limit, if the daemon
  -- answers a request for one to 500 orders with no more than it is asked for.
  pub run_order_list-IsWithin :
      (ask : ListOrdersRequest → Call W ListOrdersResponse) (parse : String → ProtoStatus)
      (fuel : ℕ) (venue bot : String) (limit : ℕ) (statuses : List String) (w : W)
      → IsBounded ask
      → limit < fuel
      → IsWithin limit (run_order_list ask parse fuel venue bot limit statuses w)
  unfolding run_order_list
  run_order_list-IsWithin ask parse fuel venue bot limit statuses w b enough =
      elim (Bool-cases (ltb limit 1)) [
        | inl e ↦ rw e (omega arith, λ h. cc)
        | inr e ↦ rw e (listed (wire_statuses parse statuses))
      ]
    where
      listed :
          (r : Result (List ProtoStatus)) → IsWithin limit (list_with ask fuel venue bot limit r w)
      listed (err x) = (omega arith, λ h. cc)
      listed (ok ss) = list_pages-IsWithin ask _ fuel limit "" w b enough
