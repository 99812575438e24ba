-- ===== src/Api/Orders/Pages.antt =====
-- internal/api/orders.go: how one page leads to the next.
use delta_works.Base.{
  ℕ, ◌≡◌, refl, ◌∙◌, ◌⊎◌, inl, inr, false, List, [], ◌∷◌, some, String, ltb, ◌<◌, ◌≤◌, str_eq,
  eq_refl, arith, ◌&&◌, map, take, length, Bool-cases,
}
use delta_works.Errors.{ok, Result-cases}
use delta_works.Decimal.{Decimals}
use delta_works.Domain.Order.{is_zero_time, OrderRecord, Query}
use delta_works.Postgres.Schema.{OrderRow}
use delta_works.Postgres.OrderMethods.{order_record, matches_query, statuses_or_all, newer}
use delta_works.Api.Orders.{Codec}
use delta_works.Api.Orders.Listing.{
  ListOrdersRequest, ListOrdersResponse, page, next_token, token_of, to_proto_order, last_of,
  page_query, order_filter, filter_digest, page_limit, with_cursor,
}
use delta_works.Api.Orders.Filters.{in_filter, cursor_selects}
use delta_works.Api.Orders.RoundTrip.{ReadsBack, decode_page_token-encode}

module _ {D : Type 0} where
  -- The two kinds of page: the last one, and a full one with a token for its last order.
  abbrev pub IsPage :
      Codec → String → (D → String) → ℕ → List (OrderRecord D) → ListOrdersResponse → Type 0
  IsPage codec digest show limit rows resp =
      ((length rows ≤ limit)
        × (resp.orders ≡ map (to_proto_order show) rows)
        × (resp.next_page_token ≡ ""))
      ⊎ ((limit < length rows)
          × (resp.orders ≡ map (to_proto_order show) (take limit rows))
          × (row : OrderRecord D) × (last_of (take limit rows) ≡ some row)
          × (codec.encode (token_of row digest) ≡ ok resp.next_page_token))

  next_token_ok :
      (codec : Codec) (digest : String) (rows : List (OrderRecord D)) (s : String)
      → next_token codec digest rows ≡ ok s
      → (row : OrderRecord D) × (last_of rows ≡ some row)
        × (codec.encode (token_of row digest) ≡ ok s)
  next_token_ok codec digest [] s h = absurd (cc)
  next_token_ok codec digest (x ∷ []) s h = (x, refl, h)
  next_token_ok codec digest (x ∷ y ∷ l) s h = next_token_ok codec digest (y ∷ l) s h

  -- A page that is returned has all of the rows and no token, if there are no more than the limit; or
  -- else the first of them up to the limit, and a token for the last order that it shows.
  pub page-IsPage :
      (codec : Codec) (digest : String) (show : D → String) (limit : ℕ)
      (rows : List (OrderRecord D)) (resp : ListOrdersResponse)
      → page codec digest show limit rows ≡ ok resp
      → IsPage codec digest show limit rows resp
  unfolding page
  page-IsPage codec digest show limit rows resp h = elim (Bool-cases (ltb limit (length rows))) [
    | inr e ↦ inl (ground arith, ground arith, ground arith)
    | inl e ↦ elim (Result-cases (next_token codec digest (take limit rows))) [
      | inr (x, f) ↦ absurd (ground arith)
      | inl (s, f) ↦
          let (row, l, m) = next_token_ok codec digest (take limit rows) s f in
          inr (ground arith, ground arith, row, l, m ∙ ground arith)
    ]
  ]

module _ {D : Type 0} ⦃dec : Decimals D⦄ where
  -- The request for the next page, with the token of a row, asks the store for as many rows as before,
  -- and a row is selected exactly if its venue, status and bot are those that the request asks for
  -- (where it asks for any) and it comes after the token's row in the order of the listing; provided that
  -- the coding reads back what it wrote and writes no empty text, and that the row has a time and an ID.
  pub page_query-token :
      (codec : Codec) (req : ListOrdersRequest) (row : OrderRow D) (s : String)
      → ReadsBack codec
      → str_eq s "" ≡ false
      → is_zero_time row.created_at ≡ false
      → str_eq row.client_order_id "" ≡ false
      → codec.encode (token_of (order_record row) (filter_digest codec req)) ≡ ok s
      → (q : Query) × (page_query codec (record req { page_token = s }) ≡ ok q)
        × (q.limit ≡ page_limit req.limit)
        × ((x : OrderRow D)
            → matches_query (statuses_or_all q) x ≡ (in_filter codec req x && newer row x))
  unfolding page_query order_filter filter_digest
  page_query-token codec req row s back full at id made =
      let read =
        decode_page_token-encode codec (token_of (order_record row) (filter_digest codec req)) s
          (filter_digest codec req) back refl at id made in
      (
        with_cursor (order_filter codec req (page_limit req.limit))
            (token_of (order_record row) (filter_digest codec req)),
        ground (arith, eq_refl (filter_digest codec req)),
        refl,
        cursor_selects codec req (page_limit req.limit) (filter_digest codec req) row,
      )
