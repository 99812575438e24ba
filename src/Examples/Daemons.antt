-- ===== src/Examples/Daemons.antt =====
-- The theorems on the whole daemon, from empty tables.
use delta_works.Base.{List, [], ◌∷◌, ◌++◌, arith, keep}
use delta_works.Decimal.Integers.{ℤ, pos, integers}
use delta_works.Domain.Order.{Request, Event, buy, sell, limit, partially_filled, filled, stream}
use delta_works.Postgres.Schema.{Db}
use delta_works.Postgres.Session.{Session, fine, reply_lost}
use delta_works.Postgres.Soundness.Tables.{SoundDb}
use delta_works.Daemon.{
  Transaction, creating, marking, applying, publishing, deleting, waiting, interleave,
}
use delta_works.Daemon.Soundness.{interleave-IsSound}
use delta_works.Daemon.Conservation.{interleave-IsConserved}
use delta_works.Postgres.Conservation.Posting.{ConservedDb}
use delta_works.Examples.{btc_usdt, event, session}

abbrev empty : Db ℤ
empty = record {
  orders = [];
  transitions = [];
  fills = [];
  outbox = [];
  lots = [];
  lot_closures = [];
  unmatched_sells = [];
  checkpoints = [];
}

abbrev fresh : Session ℤ
fresh = record (session []) { db = empty }

empty-IsSound : SoundDb empty
unfolding keep
empty-IsSound = record {
  one_row = λ id. omega arith;
  known_transitions = tt;
  known_fills = tt;
  logs = tt;
  balanced = tt;
}

abbrev request : Request ℤ
request = record {
  client_order_id = "A";
  bot_id = "manual";
  instrument = btc_usdt;
  side = buy;
  type = limit;
  price = pos 100;
  qty = pos 5;
}

-- An order that two fills complete, the second one reported twice, the first time with a lost reply.
abbrev transactions : List (Transaction ℤ)
transactions =
    creating request
    ∷ applying stream (event partially_filled 2 5)
    ∷ waiting 20 (fine ∷ fine ∷ fine ∷ reply_lost ∷ [])
    ∷ applying stream (event filled 5 6)
    ∷ marking "A" 21
    ∷ applying stream (event filled 5 6)
    ∷ publishing 10
    ∷ deleting 30
    ∷ []

interleave-IsSound_example : SoundDb (interleave transactions fresh).db
interleave-IsSound_example = interleave-IsSound transactions fresh empty-IsSound

empty-IsConserved : ConservedDb empty
empty-IsConserved = record { conserved = tt; within = tt; known = tt }

-- A sell of three, after the order above has bought five.
abbrev sell_request : Request ℤ
sell_request = record request { client_order_id = "B"; side = sell }

abbrev sold : Event ℤ
sold = record (event partially_filled 3 8) {
  ref = record { instrument = btc_usdt; client_order_id = "B"; venue_order_id = "v2" };
}

interleave-IsConserved_example :
    ConservedDb
      (interleave (transactions ++ creating sell_request ∷ applying stream sold ∷ []) fresh).db
interleave-IsConserved_example =
    interleave-IsConserved (transactions ++ creating sell_request ∷ applying stream sold ∷ []) fresh
      empty-IsConserved
