-- ===== src/Questdb/Writes.antt =====
-- internal/adapters/questdb/questdb.go under internal/service/snapshot/snapshot.go: which rows the
-- server has after `writeSeries`.
use mathlib.Core.List.{append-nil, append_assoc}
use delta_works.Base.{◌≡◌, refl, sym, ap, ◌∙◌, List, [], ◌∷◌, ◌++◌, String}
use delta_works.Errors.{Result, ok, err}
use delta_works.Decimal.{Decimals}
use delta_works.Domain.Account.{AccountSnapshot}
use delta_works.Service.Snapshots.{Stores, flush_after, write_series}
use delta_works.Questdb.{
  Line, LineSender, or_failed, write_lines, flush, balance_lines, write_balance_snapshot,
}

-- What the client library documents: `At` adds the row to the rows that wait in a buffer, and may then
-- send some of them (the HTTP sender flushes by itself after so many rows and so much time), `Flush`
-- sends all of them, and a row that was sent stays, whatever they return.
pub record Documented {W F : Type 0} (sender : LineSender W F) (buffer sent : W → List (Line F))
    : Type 0 where
  pub at_adds :
      (l : Line F) (w u : W)
      → sender.at l w ≡ (ok tt, u)
      → sent u ++ buffer u ≡ (sent w ++ buffer w) ++ l ∷ []
  pub flush_sends : (w u : W) → sender.flush w ≡ (ok tt, u) → sent u ≡ sent w ++ buffer w
  pub at_keeps :
      (l : Line F) (w : W) → (more : List (Line F)) × (sent (sender.at l w).1 ≡ sent w ++ more)
  pub flush_keeps : (w : W) → (more : List (Line F)) × (sent (sender.flush w).1 ≡ sent w ++ more)

module _ {W : Type 0} where
  or_failed_ok :
      (what : String) (rest : W → Result (Unit {0}) × W) (answer : Result (Unit {0}) × W) (u : W)
      → or_failed what rest answer ≡ (ok tt, u)
      → (v : W) × (answer ≡ (ok tt, v)) × (rest v ≡ (ok tt, u))
  or_failed_ok what rest (ok tt, v) u h = (v, refl, h)
  or_failed_ok what rest (err e, v) u h = absurd (cc)

module _ {W D F : Type 0} ⦃dec : Decimals D⦄ (sender : LineSender W F) (to_float : D → F) where
  -- The snapshot service's stores with this writer behind their series.
  abbrev pub with_writer : Stores W D → Stores W D
  with_writer stores = record stores {
    write_balance_snapshot = write_balance_snapshot to_float sender;
    flush = flush sender;
  }

module _ {W F : Type 0} (sender : LineSender W F) (buffer sent : W → List (Line F))
    (laws : Documented sender buffer sent) where
  -- The rows that were sent, and those that wait, once all rows are written.
  pub lines_added :
      (what : String) (ls : List (Line F)) (w u : W)
      → write_lines sender what ls w ≡ (ok tt, u)
      → sent u ++ buffer u ≡ (sent w ++ buffer w) ++ ls
  unfolding write_lines
  lines_added what [] w u h =
      let e : w ≡ u = ap (λ x. x.1) h in ap (λ x. sent x ++ buffer x) (sym e) ∙ sym (append-nil _)
  lines_added what (l ∷ ls) w u h =
      let (v, a, k) = or_failed_ok what (write_lines sender what ls) (sender.at l w) u h in
      lines_added what ls v u k
      ∙ ap (λ x. x ++ ls) (laws.at_adds l w v a)
      ∙ append_assoc (sent w ++ buffer w) (l ∷ []) ls

  -- Whatever it returns, a write or a flush takes back nothing that was sent.
  or_failed_keeps :
      (what : String) (rest : W → Result (Unit {0}) × W) (answer : Result (Unit {0}) × W) (w : W)
      → (more : List (Line F)) × (sent answer.1 ≡ sent w ++ more)
      → ((v : W) → (more : List (Line F)) × (sent (rest v).1 ≡ sent v ++ more))
      → (more : List (Line F)) × (sent (or_failed what rest answer).1 ≡ sent w ++ more)
  or_failed_keeps what rest (err e, v) w h k = h
  or_failed_keeps what rest (ok _, v) w (more, h) k =
      let (later, j) = k v in
      (more ++ later, j ∙ ap (λ x. x ++ later) h ∙ append_assoc (sent w) more later)

  pub lines_keep :
      (what : String) (ls : List (Line F)) (w : W)
      → (more : List (Line F)) × (sent (write_lines sender what ls w).1 ≡ sent w ++ more)
  unfolding write_lines
  lines_keep what [] w = ([], sym (append-nil _))
  lines_keep what (l ∷ ls) w =
      or_failed_keeps what (write_lines sender what ls) (sender.at l w) w (laws.at_keeps l w)
        (lines_keep what ls)

  pub flush_keeps : (w : W) → (more : List (Line F)) × (sent (flush sender w).1 ≡ sent w ++ more)
  unfolding flush
  flush_keeps w =
      or_failed_keeps "questdb: flush" (λ x. (ok tt, x)) (sender.flush w) w (laws.flush_keeps w)
        (λ v. ([], sym (append-nil _)))

  pub flush_ok : (w u : W) → flush sender w ≡ (ok tt, u) → sent u ≡ sent w ++ buffer w
  unfolding flush
  flush_ok w u h =
      let (v, a, k) = or_failed_ok "questdb: flush" (λ x. (ok tt, x)) (sender.flush w) u h in
      let e : v ≡ u = ap (λ x. x.1) k in rw e at (laws.flush_sends w v a)

  module _ {D : Type 0} ⦃dec : Decimals D⦄ (to_float : D → F) where
    flush_after_ok :
        (stores : Stores W D) (answer : Result (Unit {0}) × W) (u : W)
        → flush_after (with_writer sender to_float stores) answer ≡ (ok tt, u)
        → (v : W) × (answer ≡ (ok tt, v)) × (flush sender v ≡ (ok tt, u))
    flush_after_ok stores (ok tt, v) u h = (v, refl, h)
    flush_after_ok stores (err e, v) u h = absurd (cc)

    -- When `writeSeries` of the snapshot service returns no error, the server has what it had, what was
    -- buffered before, and one row for each balance of the snapshot that is not zero, in their order. The
    -- sender is taken to do what its library documents.
    pub write_series_sends :
        (stores : Stores W D) (s : AccountSnapshot D) (w u : W)
        → write_series (with_writer sender to_float stores) s w ≡ (ok tt, u)
        → sent u ≡ sent w ++ buffer w ++ balance_lines to_float s
    unfolding write_series write_balance_snapshot
    write_series_sends stores s w u h =
        let (v, a, k) = flush_after_ok stores (write_balance_snapshot to_float sender s w) u h in
        flush_ok v u k ∙ lines_added "questdb: write balance" (balance_lines to_float s) w v a
