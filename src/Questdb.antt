-- ===== src/Questdb.antt =====
-- internal/adapters/questdb/questdb.go: the writer of the series. The line sender of the client library
-- and the conversion of a decimal to a float64 are parameters, over the state `W` of the sender. The
-- mutex makes a write and a flush one step each.
pub mod Writes
use delta_works.Base.{List, [], ◌∷◌, String, map}
use delta_works.Errors.{Result, ok, err, Error, wrap, other}
use delta_works.Decimal.{Decimals}
use delta_works.Domain.Account.{
  AccountSnapshot, AccountRef, Balance, Ticker, account_type_text, non_zero,
}
use delta_works.Domain.Instrument.Pairs.{pair}
use delta_works.Domain.Order.{Time}
use delta_works.Exchange.{Call}

-- One row as it is built: its table, its symbols, its float columns and its time.
pub record Line (F : Type 0) : Type 0 where
  pub table : String
  pub symbols : List (String × String)
  pub floats : List (String × F)
  pub at : Time

pub record LineSender (W F : Type 0) : Type 0 where
  pub at : Line F → Call W (Unit {0})
  pub flush : Call W (Unit {0})

module _ {W : Type 0} where
  abbrev pub or_failed :
      String → (W → Result (Unit {0}) × W) → Result (Unit {0}) × W → Result (Unit {0}) × W
  or_failed what rest (ok _, w) = rest w
  or_failed what rest (err e, w) = (err (wrap (other what) e), w)

module _ {W F : Type 0} where
  -- The loop over the rows, which ends at the first that the sender refuses.
  unfoldable pub write_lines : LineSender W F → String → List (Line F) → Call W (Unit {0})
  write_lines sender what [] w = (ok tt, w)
  write_lines sender what (l ∷ ls) w =
      let rest = write_lines sender what ls in or_failed what rest (sender.at l w)

  -- `Flush`.
  unfoldable pub flush : LineSender W F → Call W (Unit {0})
  flush sender w = or_failed "questdb: flush" (λ u. (ok tt, u)) (sender.flush w)

module _ {D F : Type 0} ⦃dec : Decimals D⦄ (to_float : D → F) where
  abbrev pub balance_line : AccountRef → Time → Balance D → Line F
  balance_line account at b = record {
    table = "balances";
    symbols =
        ("venue", account.venue)
        ∷ ("account", account_type_text account.type)
        ∷ ("currency", b.currency)
        ∷ [];
    floats =
        ("total", to_float b.total)
        ∷ ("free", to_float b.free)
        ∷ ("locked", to_float b.locked)
        ∷ [];
    at = at;
  }

  abbrev pub ticker_line : Ticker D → Line F
  ticker_line t = record {
    table = "tickers";
    symbols = ("venue", t.instrument.venue) ∷ ("symbol", pair t.instrument) ∷ [];
    floats =
        ("bid", to_float t.bid)
        ∷ ("ask", to_float t.ask)
        ∷ ("last", to_float t.last)
        ∷ ("bid_size", to_float t.bid_size)
        ∷ ("ask_size", to_float t.ask_size)
        ∷ [];
    at = t.at;
  }

  -- The rows of a snapshot: one for each balance that is not zero.
  abbrev pub balance_lines : AccountSnapshot D → List (Line F)
  balance_lines s = map (balance_line s.account s.taken_at) (non_zero s)

module _ {W D F : Type 0} ⦃dec : Decimals D⦄ (to_float : D → F) (sender : LineSender W F) where
  -- `WriteBalanceSnapshot` and `WriteTicker`.
  unfoldable pub write_balance_snapshot : AccountSnapshot D → Call W (Unit {0})
  write_balance_snapshot s = write_lines sender "questdb: write balance" (balance_lines to_float s)

  unfoldable pub write_ticker : Ticker D → Call W (Unit {0})
  write_ticker t = write_lines sender "questdb: write ticker" (ticker_line to_float t ∷ [])
