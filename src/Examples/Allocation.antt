-- ===== src/Examples/Allocation.antt =====
-- The theorems on the selection of lots, at two lots given newest first.
use delta_works.Base.{◌≡◌, refl, false, List, [], ◌∷◌, Permᴰ, sort, IsSorted}
use delta_works.Decimal.{add, sub, min, is_negative}
use delta_works.Decimal.Integers.{ℤ, pos, integers, sign}
use delta_works.Domain.Ledger.{Lot, older, select}
use delta_works.Domain.Ledger.Fifo.{Closes, closed_qty, held_qty, select-fifo}
use delta_works.Examples.{lot}

abbrev two_lots : List (Lot ℤ)
two_lots = lot "b" 3 8 ∷ lot "a" 2 4 ∷ []

four_is_sold : is_negative {D = ℤ} (pos 4) ≡ false
unfolding sign
four_is_sold = refl

select-fifo_example :
    IsSorted older (sort older two_lots)
    × Permᴰ two_lots (sort older two_lots)
    × Closes (sort older two_lots) (select two_lots (pos 4)).closures
    × (add (closed_qty (select two_lots (pos 4)).closures) (select two_lots (pos 4)).unmatched
        ≡ pos 4)
    × ((select two_lots (pos 4)).unmatched ≡ sub (pos 4) (min (pos 4) (held_qty two_lots)))
select-fifo_example = select-fifo two_lots (pos 4) four_is_sold
