-- ===== src/Examples/Series.antt =====
-- The theorems on the series writer and on pairs, at a sender that keeps its rows in two
-- lists.
use mathlib.Core.List.{append-nil, append_assoc}
use delta_works.Base.{
  ◌≡◌, refl, sym, ◌∙◌, Bool, true, false, List, [], ◌∷◌, ◌++◌, keep, ap, leb, length,
}
use delta_works.Errors.{ok}
use delta_works.Decimal.Integers.{ℤ, pos, integers, sign}
use delta_works.Domain.Account.{AccountSnapshot, spot, non_zero}
use delta_works.Domain.Instrument.{new_currency}
use delta_works.Domain.Instrument.Pairs.{pair, parse_pair, has_slash, parse_pair-pair}
use delta_works.Config.Texts.{trim_space, trim_left, trim_right}
use delta_works.Service.Snapshots.{Stores, write_series}
use delta_works.Questdb.{
  Line, LineSender, balance_lines, write_lines, write_balance_snapshot, flush,
}
use delta_works.Questdb.Writes.{Documented, with_writer, write_series_sends}
use delta_works.Examples.{btc_usdt}

pub record Lines : Type 0 where
  pub buffer : List (Line ℤ)
  pub sent : List (Line ℤ)

-- A row is added; with `full`, all of them are sent.
abbrev pub put : Bool → Line ℤ → Lines → Lines
put true l w = record { buffer = []; sent = w.sent ++ (w.buffer ++ l ∷ []) }
put false l w = record w { buffer = w.buffer ++ l ∷ [] }

-- The sender flushes by itself at the third row that waits.
abbrev pub sender : LineSender Lines ℤ
sender = record {
  at = λ l w. (ok tt, put (leb 2 (length w.buffer)) l w);
  flush = λ w. (ok tt, record { buffer = []; sent = w.sent ++ w.buffer });
}

added :
    (w : Lines) (full : Bool) (l : Line ℤ)
    → (put full l w).sent ++ (put full l w).buffer ≡ (w.sent ++ w.buffer) ++ l ∷ []
added w true l = append-nil _ ∙ sym (append_assoc w.sent w.buffer (l ∷ []))
added w false l = sym (append_assoc w.sent w.buffer (l ∷ []))

at_most :
    (w : Lines) (full : Bool) (l : Line ℤ)
    → (more : List (Line ℤ)) × ((put full l w).sent ≡ w.sent ++ more)
at_most w true l = (w.buffer ++ l ∷ [], refl)
at_most w false l = ([], sym (append-nil _))

pub sender-Documented : Documented sender (λ w. w.buffer) (λ w. w.sent)
sender-Documented = record {
  at_adds = λ l w u h. rw (← (ap (λ x. x.1) h)) (added w (leb 2 (length w.buffer)) l);
  flush_sends = λ w u h. rw (← (ap (λ x. x.1) h)) refl;
  at_keeps = λ l w. at_most w (leb 2 (length w.buffer)) l;
  flush_keeps = λ w. (w.buffer, refl);
}

abbrev stores : Stores Lines ℤ
stores = record {
  write_balance_snapshot = λ s w. (ok tt, w);
  flush = λ w. (ok tt, w);
  record_snapshot = λ c w. (ok tt, w);
  publish_taken = λ s w. (ok tt, w);
}

abbrev two_balances : AccountSnapshot ℤ
two_balances = record {
  account = record { venue = "kraken"; type = spot };
  taken_at = 5;
  balances =
      record { currency = "BTC"; total = pos 5; free = pos 3; locked = pos 2 }
      ∷ record { currency = "ETH"; total = pos 0; free = pos 0; locked = pos 0 }
      ∷ [];
}

abbrev nothing_yet : Lines
nothing_yet = record { buffer = []; sent = [] }

abbrev pub whole : ℤ → ℤ
whole z = z

abbrev written : Lines
written = (write_series (with_writer sender whole stores) two_balances nothing_yet).1

series_written :
    write_series (with_writer sender whole stores) two_balances nothing_yet ≡ (ok tt, written)
unfolding write_series write_balance_snapshot write_lines flush non_zero keep sign
series_written = refl

write_series_sends_example : written.sent ≡ [] ++ [] ++ balance_lines whole two_balances
write_series_sends_example =
    write_series_sends sender (λ w. w.buffer) (λ w. w.sent) sender-Documented whole stores
      two_balances nothing_yet written series_written

btc : new_currency (λ s. s) trim_space "BTC" ≡ "BTC"
unfolding trim_space trim_left trim_right
btc = refl

usdt : new_currency (λ s. s) trim_space "USDT" ≡ "USDT"
unfolding trim_space trim_left trim_right
usdt = refl

no_slash : (has_slash "BTC" ≡ false) × (has_slash "USDT" ≡ false)
unfolding has_slash
no_slash = (refl, refl)

parse_pair-pair_example : parse_pair (λ s. s) (pair btc_usdt) ≡ ok ("BTC", "USDT")
parse_pair-pair_example = parse_pair-pair (λ s. s) btc_usdt btc usdt refl no_slash.0 no_slash.1
