-- ===== src/Examples/Venues.antt =====
-- The theorems on the venue adapter and on the registry, at a venue with two orders: its pairs and its
-- numbers are texts and whole numbers.
use delta_works.Base.{
  ℕ, suc, ◌≡◌, ◌≤◌, refl, true, false, List, [], ◌∷◌, none, some, String, find, str_eq,
}
use delta_works.Decimal.Integers.{ℤ, pos, integers}
use delta_works.Errors.{ok, err, order_not_found}
use delta_works.Domain.Order.{Ref, Event, Snapshot}
use delta_works.Domain.Order.Machine.{State}
use delta_works.Domain.Order.Machine.Step.{is_known}
use delta_works.Domain.Order.Machine.Replay.{replay}
use delta_works.Exchange.{Exchange, get_venue, new_registry, registered}
use delta_works.Exchange.Lookup.{get_venue-new_registry}
use delta_works.Gct.{Values, Bot, Detail, VenueBalance, asset_spot, gct_open, gct_filled}
use delta_works.Gct.Convert.{to_gct_asset, to_gct_pair_asset, to_balances}
use delta_works.Gct.ConvertOrders.{to_snapshot, to_status}
use delta_works.Gct.Adapter.{adapter, get_order, open_orders, to_snapshots}
use delta_works.Gct.Stream.{Input, payload, details, tick, cut, pump, started}
use delta_works.Gct.Known.{pump-replay, is_error_of}
use delta_works.Gct.Sending.{rises, forwarded, pump_forwards}
use delta_works.Gct.Outcomes.{is_missing, get_order-not_found, Lists, open_orders_complete}
use delta_works.Gct.Balances.{count, held, reported_in, to_balances_sums}
use delta_works.Examples.{btc_usdt, accepted_state}

abbrev values : Values ℤ String ℤ
values = record {
  base_of = λ p. "BTC";
  quote_of = λ p. "USDT";
  text_of = λ p. p;
  new_pair = λ b q. ok "BTC/USDT";
  from_float = λ x. x;
  to_float = λ x. x;
  to_upper = λ s. s;
  has_punct = λ s. true;
}

abbrev order_at : String → ℕ → Detail String ℤ
order_at id n = record {
  pair = "BTC/USDT";
  client_order_id = "A";
  order_id = id;
  status = gct_open;
  price = pos 100;
  amount = pos 10;
  executed_amount = pos n;
  average_executed_price = pos 100;
  trades = [];
  last_updated = 5;
  date = 4;
}

abbrev two_open : List (Detail String ℤ)
two_open = order_at "v1" 2 ∷ record (order_at "v2" 10) { status = gct_filled } ∷ []

abbrev sub_account : List (String × VenueBalance ℤ)
sub_account =
    ("BTC", record { total = pos 5; free = pos 3; hold = pos 2 })
    ∷ ("USDT", record { total = pos 7; free = pos 7; hold = pos 0 })
    ∷ []

-- Its state is the number of calls that it answered.
abbrev bot : Bot ℕ String ℤ
bot = record {
  name = "kraken";
  match_symbol = λ symbol item delimited. ok symbol;
  update_ticker = λ p item w. (ok none, suc w);
  get_enabled_pairs = λ item. ok ("BTC/USDT" ∷ []);
  update_account_balances = λ item w. (ok (some sub_account ∷ none ∷ some sub_account ∷ []), suc w);
  submit_order = λ submit w. (ok none, suc w);
  cancel_order = λ cancel w. (ok tt, suc w);
  get_active_orders = λ item w. (ok two_open, suc w);
  get_order_info = λ id p item w. (err (order_not_found ∷ []), suc w);
}

abbrev kraken : Exchange ℕ ℤ
kraken = adapter values bot "kraken" 9

abbrev order_ref : Ref ℤ
order_ref = record { instrument = btc_usdt; client_order_id = "A"; venue_order_id = "v9" }

abbrev inputs : List (Input String ℤ)
inputs =
    tick true ∷ payload (details two_open) ∷ tick false ∷ tick true ∷ cut 1 (details two_open) ∷ []

abbrev sent : List (Input String ℤ) → List (Event ℤ)
sent is = (pump values 9 "kraken" is (started false)).sent

pump-replay_example :
    (t : State ℤ) × (replay accepted_state (sent inputs) ≡ ok t) × (is_known t.status ≡ true)
pump-replay_example = pump-replay values 9 "kraken" inputs false accepted_state refl

pump_forwards_example :
    (sent inputs ≡ forwarded values 9 "kraken" inputs)
    × ((pump values 9 "kraken" inputs (started false)).reconnects ≡ rises false inputs)
pump_forwards_example = pump_forwards values 9 "kraken" inputs false

get_order-not_found_example :
    is_error_of (get_order values bot "kraken" 9 order_ref 0).0
    ≡ is_missing (bot.get_order_info "v9" "BTC/USDT" asset_spot 0).0
unfolding to_gct_pair_asset to_gct_asset
get_order-not_found_example =
    get_order-not_found values bot "kraken" 9 order_ref 0 "BTC/USDT" asset_spot (λ e. absurd (cc))
      refl

two_listed : (snaps : List (Snapshot ℤ)) × (open_orders values bot "kraken" 9 0 ≡ (ok snaps, 1))
unfolding open_orders to_gct_asset to_snapshots to_snapshot to_status
two_listed = (_, refl)

open_orders_complete_example :
    (ds : List (Detail String ℤ)) × (bot.get_active_orders asset_spot 0 ≡ (ok ds, 1))
    × Lists values bot "kraken" 9 ds two_listed.0
open_orders_complete_example =
    open_orders_complete values bot "kraken" 9 0 1 two_listed.0 two_listed.1

to_balances_sums_example :
    (count values "BTC" (to_balances values (some sub_account ∷ none ∷ some sub_account ∷ [])) ≤ 1)
    × (held
          (λ e. e.total)
          "BTC"
          (to_balances values (some sub_account ∷ none ∷ some sub_account ∷ []))
        ≡ reported_in values (λ b. b.total) "BTC" (some sub_account ∷ none ∷ some sub_account ∷ []))
    × (held
          (λ e. e.free)
          "BTC"
          (to_balances values (some sub_account ∷ none ∷ some sub_account ∷ []))
        ≡ reported_in values (λ b. b.free) "BTC" (some sub_account ∷ none ∷ some sub_account ∷ []))
    × (held
          (λ e. e.locked)
          "BTC"
          (to_balances values (some sub_account ∷ none ∷ some sub_account ∷ []))
        ≡ reported_in values (λ b. b.hold) "BTC" (some sub_account ∷ none ∷ some sub_account ∷ []))
to_balances_sums_example =
    to_balances_sums values "BTC" (some sub_account ∷ none ∷ some sub_account ∷ [])

abbrev read_only : Exchange ℕ ℤ
read_only = record kraken { trading = none }

get_venue-new_registry_example :
    get_venue (new_registry (kraken ∷ read_only ∷ [])) "kraken"
    ≡ registered (find (λ ex. str_eq ex.id "kraken") (kraken ∷ read_only ∷ []))
get_venue-new_registry_example = get_venue-new_registry (kraken ∷ read_only ∷ []) "kraken"
