-- ===== src/Domain/Ledger.antt =====
-- internal/domain/ledger/ledger.go: open lots, and which of them a sell fill closes. `sort.Slice` of
-- the Go library is an insertion sort here: the comparison is a total order on lots whose IDs differ,
-- so every sort gives the same list.
pub mod Fifo
use delta_works.Base.{
  ℕ, Bool, true, false, List, [], ◌∷◌, String, ltb, ◌==◌, if◌then◌else◌, not, text_less, sort,
}
use delta_works.Decimal.{Decimals, sub, min, is_positive, zero_decimal}
use delta_works.Domain.Instrument.{VenueId, Currency}
use delta_works.Domain.Order.{Time}

pub record Lot (D : Type 0) : Type 0 where
  pub id : String
  pub bot_id : String
  pub venue : VenueId
  pub base : Currency
  pub quote : Currency
  pub qty : D
  pub remaining_qty : D
  pub cost_price : D
  pub opened_at : Time

pub record Closure (D : Type 0) : Type 0 where
  pub lot_id : String
  pub qty : D

pub record Allocation (D : Type 0) : Type 0 where
  pub closures : List (Closure D)
  pub unmatched : D

-- The observable result of applying a fill to the ledger.
pub record Outcome (D : Type 0) : Type 0 where
  pub unmatched_qty : D

module _ {D : Type 0} ⦃dec : Decimals D⦄ where
  -- The loop of `Select` over the sorted lots; `remaining` is the quantity still to allocate.
  unfoldable pub allocate : List (Lot D) → D → Allocation D
  allocate [] remaining = record { closures = []; unmatched = remaining }
  allocate (lot ∷ lots) remaining =
      let skip = allocate lots remaining in
      let qty = min remaining lot.remaining_qty in
      let rest = allocate lots (sub remaining qty) in
      if not (is_positive remaining)
      then record { closures = []; unmatched = remaining }
      else if not (is_positive lot.remaining_qty)
      then skip
      else record {
        closures = record { lot_id = lot.id; qty = qty } ∷ rest.closures;
        unmatched = rest.unmatched;
      }

module _ {D : Type 0} where
  -- The comparison: the lot opened earlier first, ties broken by the ID.
  unfoldable pub older : Lot D → Lot D → Bool
  older a b =
      if a.opened_at == b.opened_at then text_less a.id b.id else ltb a.opened_at b.opened_at

-- `FIFO.Select`.
module _ {D : Type 0} ⦃dec : Decimals D⦄ where
  unfoldable pub select : List (Lot D) → D → Allocation D
  select open_lots sell_qty = allocate (sort older open_lots) sell_qty
