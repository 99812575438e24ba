-- ===== src/Exchange.antt =====
-- internal/exchange/registry.go and internal/exchange/middleware.go: venue connections, and the
-- limiter and the breaker that wrap them. A call runs over the state `W` of everything outside the
-- wrapped code. The limiter (golang.org/x/time/rate) and the breaker (github.com/sony/gobreaker) are
-- parameters; of the breaker it is taken that `Execute` either refuses a request at once with an error,
-- or runs it, records whether it was a success, and returns its result.
pub mod Lookup
use delta_works.Base.{
  Bool, true, false, ◌||◌, List, [], ◌∷◌, ◌++◌, Option, none, some, String, if◌then◌else◌, str_eq,
}
use delta_works.Errors.{
  Result, ok, err, Error, is, wrap, other, auth, unsupported_account, trading_unsupported,
  not_found, no_venue_order_id, canceled, limiter_wait,
}
use delta_works.Domain.Instrument.{Instrument, VenueId, InstrumentType}
use delta_works.Domain.Account.{AccountType, Balance, Ticker}
use delta_works.Domain.Order.{Request, Ack, Ref, Snapshot}

abbrev pub Call : Type 0 → Type 0 → Type 0
Call W A = W → Result A × W

-- internal/ports/trading.go: `OrderPlacer`.
pub record Trading (W D : Type 0) : Type 0 where
  pub place_order : Request D → Call W (Ack D)
  pub cancel_order : Ref D → Call W (Unit {0})
  pub open_orders : Call W (List (Snapshot D))
  pub lookup_order : Ref D → Call W (Snapshot D)

-- internal/ports/exchange.go: `Exchange`, with the outcome of its assertion to `OrderPlacer`.
pub record Exchange (W D : Type 0) : Type 0 where
  pub id : VenueId
  pub ticker : Instrument D → Call W (Ticker D)
  pub instruments : InstrumentType → Call W (List (Instrument D))
  pub balances : AccountType → Call W (List (Balance D))
  pub trading : Option (Trading W D)

pub record Breaker (W : Type 0) : Type 0 where
  pub admit : W → Option Error × W  -- the error of a refusal
  pub note : Bool → W → W  -- a request ended, with success or not

unfoldable pub is_breaker_success : Error → Bool
is_breaker_success e =
    is e auth
    || is e unsupported_account
    || is e not_found
    || is e no_venue_order_id
    || is e canceled
    || is e limiter_wait

-- No error is a success too.
abbrev pub outcome : {A : Type 0} → Result A → Bool
outcome (ok a) = true
outcome (err e) = is_breaker_success e

module _ {W A : Type 0} where
  -- A call behind the limiter, once the limiter has answered.
  abbrev pub after_wait : Call W A → Result (Unit {0}) × W → Result A × W
  after_wait m (ok _, w) = m w
  after_wait m (err e, w) = (err (wrap limiter_wait e), w)

  unfoldable pub limited : Call W (Unit {0}) → Call W A → Call W A
  limited wait m w = after_wait m (wait w)

  -- A call through the breaker: its result is recorded and returned.
  abbrev pub recorded : Breaker W → Result A × W → Result A × W
  recorded br (r, w) = (r, br.note (outcome r) w)

  abbrev pub after_admit : Breaker W → Call W A → Option Error × W → Result A × W
  after_admit br m (some e, w) = (err e, w)
  after_admit br m (none, w) = recorded br (m w)

  unfoldable pub execute : Breaker W → Call W A → Call W A
  execute br m w = after_admit br m (br.admit w)

  abbrev pub unsupported : Call W A
  unsupported w = (err (trading_unsupported ∷ []), w)

module _ {W D : Type 0} where
  -- A trading call of an exchange that may not trade.
  abbrev pub with_trading :
      {A : Type 0} → Option (Trading W D) → (Trading W D → Call W A) → Call W A
  with_trading none f = unsupported
  with_trading (some t) f = f t

  unfoldable pub with_rate_limit : Exchange W D → Call W (Unit {0}) → Exchange W D
  with_rate_limit ex wait = record {
    id = ex.id;
    ticker = λ inst. limited wait (ex.ticker inst);
    instruments = λ typ. limited wait (ex.instruments typ);
    balances = λ acct. limited wait (ex.balances acct);
    trading = some (record {
      place_order = λ req. with_trading ex.trading (λ t. limited wait (t.place_order req));
      cancel_order = λ ref. with_trading ex.trading (λ t. limited wait (t.cancel_order ref));
      open_orders = with_trading ex.trading (λ t. limited wait t.open_orders);
      lookup_order = λ ref. with_trading ex.trading (λ t. limited wait (t.lookup_order ref));
    });
  }

  unfoldable pub with_breaker : Exchange W D → Breaker W → Exchange W D
  with_breaker ex br = record {
    id = ex.id;
    ticker = λ inst. execute br (ex.ticker inst);
    instruments = λ typ. execute br (ex.instruments typ);
    balances = λ acct. execute br (ex.balances acct);
    trading = some (record {
      place_order = λ req. with_trading ex.trading (λ t. execute br (t.place_order req));
      cancel_order = λ ref. with_trading ex.trading (λ t. execute br (t.cancel_order ref));
      open_orders = with_trading ex.trading (λ t. execute br t.open_orders);
      lookup_order = λ ref. with_trading ex.trading (λ t. execute br (t.lookup_order ref));
    });
  }

  -- `Decorate`: the limiter inside, the breaker outside it.
  unfoldable pub decorate : Exchange W D → Call W (Unit {0}) → Breaker W → Exchange W D
  decorate ex wait br = with_breaker (with_rate_limit ex wait) br

-- The map and the order of the registry.
pub record Registry (W D : Type 0) : Type 0 where
  pub by_id : List (VenueId × Exchange W D)
  pub order : List (Exchange W D)

module _ {W D : Type 0} where
  unfoldable pub venue_entry : VenueId → List (VenueId × Exchange W D) → Option (Exchange W D)
  venue_entry id [] = none
  venue_entry id ((key, ex) ∷ entries) = if str_eq key id then some ex else venue_entry id entries

  -- One round of the loop of `NewRegistry`: a venue that is there already stays as it is.
  unfoldable pub register : Registry W D → Exchange W D → Registry W D
  register r ex = elim (venue_entry ex.id r.by_id) [
    | some _ ↦ r
    | none ↦ record { by_id = (ex.id, ex) ∷ r.by_id; order = r.order ++ ex ∷ [] }
  ]

  unfoldable pub register_all : Registry W D → List (Exchange W D) → Registry W D
  register_all r [] = r
  register_all r (ex ∷ exs) = register_all (register r ex) exs

  unfoldable pub new_registry : List (Exchange W D) → Registry W D
  new_registry exs = register_all (record { by_id = []; order = [] }) exs

  abbrev pub registered : Option (Exchange W D) → Result (Exchange W D)
  registered (some ex) = ok ex
  registered none = err (other "venue not registered" ∷ [])

  unfoldable pub get_venue : Registry W D → VenueId → Result (Exchange W D)
  get_venue r venue = registered (venue_entry venue r.by_id)
