-- ===== src/Postgres/OutboxStore.antt =====
-- internal/adapters/postgres/outbox.go: the store side of the transactional outbox. One relay runs at
-- a time, so no row is locked by another (`SKIP LOCKED` skips none).
pub mod Delivery
use delta_works.Base.{
  ℕ, Bool, true, false, not, List, [], ◌∷◌, Option, none, some, if◌then◌else◌, ◌==◌, ltb, leb, keep,
  ◌++◌, sort, take, any, map, length, update_where,
}
use delta_works.Errors.{Result, ok, err}
use delta_works.Domain.Order.{Time}
use delta_works.Postgres.Schema.{OutboxRow, OutboxMessage, Db}
use delta_works.Postgres.Session.{
  Session, Tx, pure, raise, ◌>>=◌, ◌>>◌, statement, autocommit, transaction,
}
use delta_works.Postgres.Queries.{write, is_none}

abbrev pub has_number : ℕ → List ℕ → Bool
has_number n [] = false
has_number n (m ∷ ms) = if m == n then true else has_number n ms

-- The earliest of some times, or `none`.
abbrev pub earliest : Time → List Time → Time
earliest now [] = now
earliest now (t ∷ []) = t
earliest now (t ∷ u ∷ ts) = let rest = earliest now (u ∷ ts) in if ltb rest t then rest else t

module _ {D : Type 0} where
  abbrev pub lower_id : OutboxRow D → OutboxRow D → Bool
  lower_id a b = ltb a.id b.id

  -- ClaimUnpublishedOutbox: the first unpublished rows by ID.
  unfoldable pub claim_unpublished : ℕ → Tx D (List (OutboxRow D))
  unfolding statement
  claim_unpublished limit =
      statement
        λ w. (ok (take limit (sort lower_id (keep (λ r. is_none r.published_at) w.db.outbox))), w)

  -- MarkOutboxPublished.
  unfoldable pub mark_published : List ℕ → Tx D (Unit {0})
  unfolding statement
  mark_published ids = statement λ w. (
    ok tt,
    write
        (λ db. record db {
          outbox =
              update_where (λ r. has_number r.id ids) (λ r. record r { published_at = some w.now })
                db.outbox;
        })
        w,
  )

  abbrev pub message_of : OutboxRow D → OutboxMessage D
  message_of r = record {
    id = r.id;
    subject = r.subject;
    payload = r.payload;
    created_at = r.created_at;
  }

  -- The loop over the claimed rows: an error of `publish` ends it.
  unfoldable pub publish_rows :
      (OutboxMessage D → Tx D (Unit {0})) → List (OutboxRow D) → Tx D (Unit {0})
  publish_rows publish [] = pure tt
  publish_rows publish (r ∷ rs) = publish (message_of r) >>= λ _. publish_rows publish rs

  abbrev pub publish_claimed :
      (OutboxMessage D → Tx D (Unit {0})) → List (OutboxRow D) → Tx D (ℕ × Bool)
  publish_claimed publish [] = pure (0, false)
  publish_claimed publish (r ∷ rs) = do
    publish_rows publish (r ∷ rs)
    mark_published (map (λ x. x.id) (r ∷ rs))
    pure (length (r ∷ rs), true)

  -- `PublishPending`: the number of rows published.
  unfoldable pub publish_pending : ℕ → (OutboxMessage D → Tx D (Unit {0})) → Tx D ℕ
  publish_pending limit publish =
      transaction (do rows ← claim_unpublished limit; publish_claimed publish rows)

  abbrev pub published_before : Time → OutboxRow D → Bool
  published_before cutoff r = elim r.published_at [ none ↦ false | some t ↦ ltb t cutoff ]

  -- `DeletePublishedBefore`: the number of rows deleted.
  unfoldable pub delete_published_before : Time → Tx D ℕ
  unfolding autocommit
  delete_published_before cutoff = autocommit λ w. (
    ok (length (keep (published_before cutoff) w.db.outbox)),
    write (λ db. record db { outbox = keep (λ r. not (published_before cutoff r)) db.outbox }) w,
  )

  -- `UnpublishedStats`: the number of unpublished rows and when the oldest was created.
  unfoldable pub unpublished_stats : Tx D (ℕ × Time)
  unfolding statement
  unpublished_stats = statement λ w.
      let rows = keep (λ r. is_none r.published_at) w.db.outbox in
      (ok (length rows, earliest w.now (map (λ r. r.created_at) rows)), w)

-- internal/service/outbox/outbox.go hands a row to the in-process bus, which returns no error.
module _ {D : Type 0} where
  unfoldable pub deliver : OutboxMessage D → Tx D (Unit {0})
  deliver m w = (ok tt, record w { delivered = w.delivered ++ m ∷ [] })
