-- ===== src/Examples/Listing.antt =====
-- The theorems on the pages, with a coding that writes the tokens of orders that were created at
-- time 1.
use delta_works.Base.{◌≡◌, refl, ◌&&◌, [], ◌∷◌, some, if◌then◌else◌, ◌==◌, str_eq, eq_iff, arith}
use delta_works.Errors.{ok, err, invalid_argument}
use delta_works.Decimal.Integers.{ℤ, integers}
use delta_works.Domain.Order.{Query, OrderRecord, buy, limit, filled}
use delta_works.Postgres.Schema.{OrderRow}
use delta_works.Postgres.OrderMethods.{order_record, matches_query, statuses_or_all, newer}
use delta_works.Api.Orders.{
  Codec, PageToken, decode_page_token, to_proto_order_status, from_proto_order_status,
  to_proto_side, from_proto_side, to_proto_order_type, from_proto_order_type,
}
use delta_works.Api.Orders.Listing.{
  ListOrdersRequest, ListOrdersResponse, page, page_query, filter_digest, token_of, to_proto_order,
}
use delta_works.Api.Orders.RoundTrip.{ReadsBack, proto_round_trip, decode_page_token-encode}
use delta_works.Api.Orders.Filters.{in_filter}
use delta_works.Api.Orders.Pages.{IsPage, page-IsPage, page_query-token}
use delta_works.Examples.{order_a}

abbrev pub codec : Codec
codec = record {
  encode = λ t.
      if t.v == 1 && (t.created_at == 1 && str_eq t.filter_digest "d")
      then ok t.client_order_id
      else err [];
  decode = λ s. some (record { v = 1; created_at = 1; client_order_id = s; filter_digest = "d" });
  digest = λ venue statuses bot. "d";
  trim = λ s. s;
  lower = λ s. s;
  upper = λ s. s;
}

codec-ReadsBack : ReadsBack codec
codec-ReadsBack t s h = ground (arith, eq_iff t.filter_digest "d")

abbrev stored : OrderRecord ℤ
stored = order_record order_a

abbrev first_page : ListOrdersResponse
first_page = record { orders = to_proto_order (λ d. "1") stored ∷ []; next_page_token = "A" }

first_page_is : page codec "d" (λ d. "1") 1 (stored ∷ stored ∷ []) ≡ ok first_page
unfolding page
first_page_is = refl

page-IsPage_example : IsPage codec "d" (λ d. "1") 1 (stored ∷ stored ∷ []) first_page
page-IsPage_example =
    page-IsPage codec "d" (λ d. "1") 1 (stored ∷ stored ∷ []) first_page first_page_is

abbrev request : ListOrdersRequest
request = record { venue = "kraken"; statuses = []; bot_id = ""; limit = 1; page_token = "" }

token_made : codec.encode (token_of stored (filter_digest codec request)) ≡ ok "A"
unfolding filter_digest
token_made = refl

page_query-token_example :
    (q : Query) × (page_query codec (record request { page_token = "A" }) ≡ ok q)
    × (q.limit ≡ 1)
    × ((x : OrderRow ℤ)
        → matches_query (statuses_or_all q) x ≡ (in_filter codec request x && newer order_a x))
page_query-token_example =
    page_query-token codec request order_a "A" codec-ReadsBack refl refl refl token_made

abbrev token : PageToken
token = record { v = 1; created_at = 1; client_order_id = "A"; filter_digest = "d" }

decode_page_token-encode_example : decode_page_token codec "A" "e" ≡ err (invalid_argument ∷ [])
decode_page_token-encode_example =
    decode_page_token-encode codec token "A" "e" codec-ReadsBack refl refl refl refl

proto_round_trip_example :
    (from_proto_order_status (to_proto_order_status filled) ≡ filled)
    × (from_proto_side (to_proto_side buy) ≡ buy)
    × (from_proto_order_type (to_proto_order_type limit) ≡ limit)
proto_round_trip_example = proto_round_trip filled buy limit refl refl refl
