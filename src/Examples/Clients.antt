-- ===== src/Examples/Clients.antt =====
-- The theorem on the listing of the command-line client, at the daemon with the tables of the examples.
use delta_works.Base.{[], ◌∷◌, String, arith}
use delta_works.Decimal.Integers.{ℤ, integers}
use delta_works.Api.Orders.{ProtoStatus, status_open}
use delta_works.Ctl.{run_order_list}
use delta_works.Ctl.Daemon.{daemon, daemon-IsBounded}
use delta_works.Ctl.Listing.{IsWithin, run_order_list-IsWithin}
use delta_works.Examples.{session}
use delta_works.Examples.Listing.{codec}

abbrev text : ℤ → String
text d = "1"

abbrev parse : String → ProtoStatus
parse s = status_open

run_order_list-IsWithin_example :
    IsWithin 3 (run_order_list (daemon codec text) parse 4 "kraken" "" 3 ("open" ∷ []) (session []))
run_order_list-IsWithin_example =
    run_order_list-IsWithin (daemon codec text) parse 4 "kraken" "" 3 ("open" ∷ []) (session [])
      (daemon-IsBounded codec text) (omega arith)
