-- ===== src/Gct/Convert.antt =====
-- internal/adapters/gct/convert.go, with `NewCurrency` of internal/domain/money/money.go.
use delta_works.Base.{List, [], ◌∷◌, map, Option, none, some, String, str_eq, if◌then◌else◌}
use delta_works.Decimal.{Decimals, add, zero_decimal}
use delta_works.Errors.{Result, ok, err, wrap, other, unsupported_account, ◌>>=◌}
use delta_works.Config.Texts.{trim_space}
use delta_works.Domain.Instrument.{new_currency, Instrument, InstrumentType, VenueId, Currency}
use delta_works.Domain.Account.{AccountType, Balance, Ticker}
use delta_works.Postgres.OrderMethods.{zero_rules}
use delta_works.Gct.{Asset, asset_spot, asset_margin, Price, VenueBalance, Values, Bot}

-- `fmt.Errorf("...: %w", err)`: the value, or the error with the message around it.
abbrev pub with_context : {A : Type 0} → String → Result A → Result A
with_context message (ok a) = ok a
with_context message (err e) = err (wrap (other message) e)

unfoldable pub to_gct_asset : InstrumentType → Result Asset
to_gct_asset InstrumentType.spot = ok asset_spot
to_gct_asset (InstrumentType.unknown s) = err (other "instrument type not supported yet" ∷ [])

unfoldable pub to_gct_asset_from_account : AccountType → Result Asset
to_gct_asset_from_account AccountType.spot = ok asset_spot
to_gct_asset_from_account AccountType.unified = ok asset_spot
to_gct_asset_from_account AccountType.margin = ok asset_margin
to_gct_asset_from_account _ = err (unsupported_account ∷ [])

module _ {W D P F : Type 0} (values : Values D P F) (bot : Bot W P F) where
  -- The pair of a supported instrument.
  abbrev pub to_pair : Instrument D → Asset → Result P
  to_pair inst item =
      if str_eq inst.venue_symbol ""
      then with_context "pair" (values.new_pair inst.base inst.quote)
      else with_context "symbol"
          (bot.match_symbol inst.venue_symbol item (values.has_punct inst.venue_symbol))

  unfoldable pub to_gct_pair_asset : Instrument D → Result (P × Asset)
  to_gct_pair_asset inst = do
    item ← to_gct_asset inst.type
    pair ← to_pair inst item
    ok (pair, item)

module _ {D P F : Type 0} ⦃dec : Decimals D⦄ (values : Values D P F) where
  unfoldable pub to_ticker : Instrument D → Option (Price F) → Ticker D
  to_ticker inst none = record {
    instrument = inst;
    bid = zero_decimal;
    ask = zero_decimal;
    last = zero_decimal;
    bid_size = zero_decimal;
    ask_size = zero_decimal;
    at = 0;
  }
  to_ticker inst (some p) = record {
    instrument = inst;
    bid = values.from_float p.bid;
    ask = values.from_float p.ask;
    last = values.from_float p.last;
    bid_size = values.from_float p.bid_size;
    ask_size = values.from_float p.ask_size;
    at = p.last_updated;
  }

  unfoldable pub to_instruments : VenueId → InstrumentType → List P → List (Instrument D)
  to_instruments venue typ pairs =
      map
        (λ p. record {
          venue = venue;
          type = typ;
          base = new_currency values.to_upper trim_space (values.base_of p);
          quote = new_currency values.to_upper trim_space (values.quote_of p);
          venue_symbol = values.text_of p;
          rules = zero_rules;
        })
        pairs

  abbrev pub add_to : VenueBalance F → Balance D → Balance D
  add_to b entry = record entry {
    total = add entry.total (values.from_float b.total);
    free = add entry.free (values.from_float b.free);
    locked = add entry.locked (values.from_float b.hold);
  }

  abbrev pub no_balance : Currency → Balance D
  no_balance cur = record {
    currency = cur;
    total = zero_decimal;
    free = zero_decimal;
    locked = zero_decimal;
  }

  -- The map and the order of its keys are one list: the entries in the order in which their currencies
  -- first came.
  unfoldable pub add_balance : Currency → VenueBalance F → List (Balance D) → List (Balance D)
  add_balance cur b [] = add_to b (no_balance cur) ∷ []
  add_balance cur b (entry ∷ entries) =
      let rest = add_balance cur b entries in
      if str_eq entry.currency cur then add_to b entry ∷ entries else entry ∷ rest

  unfoldable pub add_balances : List (String × VenueBalance F) → List (Balance D) → List (Balance D)
  add_balances [] entries = entries
  add_balances ((code, b) ∷ bs) entries =
      add_balances bs (add_balance (new_currency values.to_upper trim_space code) b entries)

  unfoldable pub add_sub_accounts :
      List (Option (List (String × VenueBalance F))) → List (Balance D) → List (Balance D)
  add_sub_accounts [] entries = entries
  add_sub_accounts (none ∷ subs) entries = add_sub_accounts subs entries
  add_sub_accounts (some bs ∷ subs) entries = add_sub_accounts subs (add_balances bs entries)

  unfoldable pub to_balances : List (Option (List (String × VenueBalance F))) → List (Balance D)
  to_balances subs = add_sub_accounts subs []
