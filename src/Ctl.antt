-- ===== src/Ctl.antt =====
-- cmd/ctl/order.go: `runOrderList`. The call of the daemon is a parameter, over the state `W` of
-- everything outside; so is what `parseOrderStatus` makes of a text. The loop over the pages takes fuel;
-- what it printed is its result. `remaining` is a number: where the code goes below zero, it stops at
-- zero, and both end the loop.
pub mod Daemon
pub mod Listing
use delta_works.Base.{
  ℕ, zero, suc, ◌-◌, Bool, true, false, ◌||◌, List, [], ◌∷◌, ◌++◌, String, if◌then◌else◌, ◌==◌, ltb,
  str_eq, length,
}
use delta_works.Errors.{Result, ok, err, Error, other}
use delta_works.Exchange.{Call}
use delta_works.Api.Orders.{ProtoStatus, status_unspecified}
use delta_works.Api.Orders.Listing.{ListOrdersRequest, ListOrdersResponse, ProtoOrder}

abbrev pub is_unspecified : ProtoStatus → Bool
is_unspecified status_unspecified = true
is_unspecified _ = false

abbrev pub push : ProtoStatus → Result (List ProtoStatus) → Result (List ProtoStatus)
push s (err e) = err e
push s (ok ss) = ok (s ∷ ss)

-- The loop over the status flags; the first that has no meaning ends the command.
unfoldable pub wire_statuses : (String → ProtoStatus) → List String → Result (List ProtoStatus)
wire_statuses parse [] = ok []
wire_statuses parse (s ∷ ss) =
    let rest = wire_statuses parse ss in
    if is_unspecified (parse s)
    then err (other "invalid order status" ∷ [])
    else push (parse s) rest

-- How a listing ended: at its end, with an error of the daemon, or out of fuel.
pub data Ended : Type 0 where
  complete out_of_fuel : Ended
  failed : Error → Ended

pub record Listed : Type 0 where
  pub printed : List ProtoOrder
  pub ended : Ended

abbrev pub page_size : ℕ
page_size = 500

abbrev pub page_request : ListOrdersRequest → ℕ → String → ListOrdersRequest
page_request filter remaining token = record filter {
  limit = if ltb remaining page_size then remaining else page_size;
  page_token = token;
}

module _ {W : Type 0} where
  abbrev pub also_printed : List ProtoOrder → Listed × W → Listed × W
  also_printed orders (l, w) = (record l { printed = orders ++ l.printed }, w)

  abbrev pub after_page :
      (ℕ → String → W → Listed × W) → ℕ → Result ListOrdersResponse × W → Listed × W
  after_page next remaining (err e, w) = (record { printed = []; ended = failed e }, w)
  after_page next remaining (ok r, w) =
      let rest = next (remaining - length r.orders) r.next_page_token w in
      if str_eq r.next_page_token "" || length r.orders == 0
      then (record { printed = r.orders; ended = complete }, w)
      else also_printed r.orders rest

  -- The loop over the pages.
  unfoldable pub list_pages :
      (ListOrdersRequest → Call W ListOrdersResponse)
      → ListOrdersRequest
      → (fuel remaining : ℕ) → String
      → W
      → Listed × W
  list_pages ask filter zero remaining token w = (record { printed = []; ended = out_of_fuel }, w)
  list_pages ask filter (suc fuel) zero token w = (record { printed = []; ended = complete }, w)
  list_pages ask filter (suc fuel) (suc remaining) token w =
      after_page (list_pages ask filter fuel) (suc remaining)
        (ask (page_request filter (suc remaining) token) w)

  abbrev pub list_with :
      (ListOrdersRequest → Call W ListOrdersResponse)
      → ℕ
      → (venue bot : String) → ℕ
      → Result (List ProtoStatus)
      → W
      → Listed × W
  list_with ask fuel venue bot limit (err e) w = (record { printed = []; ended = failed e }, w)
  list_with ask fuel venue bot limit (ok statuses) w =
      list_pages ask
        (record { venue = venue; statuses = statuses; bot_id = bot; limit = 0; page_token = "" })
        fuel limit "" w

  -- `runOrderList`, behind the reading of its flags.
  unfoldable pub run_order_list :
      (ListOrdersRequest → Call W ListOrdersResponse)
      → (String → ProtoStatus)
      → ℕ
      → (venue bot : String) → ℕ
      → List String
      → W
      → Listed × W
  run_order_list ask parse fuel venue bot limit statuses w =
      if ltb limit 1
      then (record { printed = []; ended = failed (other "limit must be positive" ∷ []) }, w)
      else list_with ask fuel venue bot limit (wire_statuses parse statuses) w
