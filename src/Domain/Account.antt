-- ===== src/Domain/Account.antt =====
-- internal/domain/account/account.go, internal/domain/marketdata/marketdata.go and
-- internal/snapshot/checkpoint.go: accounts and their balances, tickers, and checkpoints.
use delta_works.Base.{Bool, true, false, not, List, String, keep, str_eq, if◌then◌else◌}
use delta_works.Decimal.{Decimals, is_zero}
use delta_works.Decimal.Integers.{ℤ}
use delta_works.Domain.Instrument.{Instrument, VenueId, Currency}
use delta_works.Domain.Order.{Time}

pub data AccountType : Type 0 where
  spot funding unified margin : AccountType
  unknown : String → AccountType

unfoldable pub is_valid_account : AccountType → Bool
is_valid_account (unknown s) = false
is_valid_account _ = true

-- The text of a type, and the type of a text (a conversion in Go).
abbrev pub account_type_text : AccountType → String
account_type_text spot = "spot"
account_type_text funding = "funding"
account_type_text unified = "unified"
account_type_text margin = "margin"
account_type_text (unknown s) = s

unfoldable pub account_type_of : String → AccountType
account_type_of s =
    if str_eq s "spot"
    then spot
    else if str_eq s "funding"
    then funding
    else if str_eq s "unified"
    then unified
    else if str_eq s "margin"
    then margin
    else unknown s

pub record AccountRef : Type 0 where
  pub venue : VenueId
  pub type : AccountType

pub record Balance (D : Type 0) : Type 0 where
  pub currency : Currency
  pub total : D
  pub free : D
  pub locked : D

pub record AccountSnapshot (D : Type 0) : Type 0 where
  pub account : AccountRef
  pub taken_at : Time
  pub balances : List (Balance D)

module _ {D : Type 0} ⦃dec : Decimals D⦄ where
  -- The balances whose total is not zero.
  unfoldable pub non_zero : AccountSnapshot D → List (Balance D)
  non_zero s = keep (λ b. not (is_zero b.total)) s.balances

pub record Ticker (D : Type 0) : Type 0 where
  pub instrument : Instrument D
  pub bid : D
  pub ask : D
  pub last : D
  pub bid_size : D
  pub ask_size : D
  pub at : Time

pub data CheckpointStatus : Type 0 where
  status_ok status_failed : CheckpointStatus
  status_unknown : String → CheckpointStatus

abbrev pub checkpoint_status_text : CheckpointStatus → String
checkpoint_status_text status_ok = "ok"
checkpoint_status_text status_failed = "failed"
checkpoint_status_text (status_unknown s) = s

unfoldable pub checkpoint_status_of : String → CheckpointStatus
checkpoint_status_of s =
    if str_eq s "ok"
    then status_ok
    else if str_eq s "failed"
    then status_failed
    else status_unknown s

pub record Checkpoint : Type 0 where
  pub id : String
  pub account : AccountRef
  pub taken_at : Time
  pub balance_count : ℤ
  pub status : CheckpointStatus
  pub error : String
