-- ===== src/Config/Validity.antt =====
-- internal/config/config.go: what a configuration that passes its checks satisfies.
use delta_works.Base.{
  ℕ, ◌*◌, ◌≤◌, ◌≡◌, ◌≢◌, ◌↔◌, ◌⊎◌, inl, inr, refl, Bool, true, false, not, ◌&&◌, ◌||◌, List, [],
  ◌∷◌, ◌++◌, String, str_eq, eq_iff, eq_refl, All, arith, Bool-cases, if◌then◌else◌,
}
use delta_works.Decimal.Integers.{ℤ, pos, negsuc}
use delta_works.Config.{
  Config, Venue, millisecond, second, minute, is_below, is_above, is_not_positive, is_valid_level,
  is_empty, has_none, complaint, validate_venue, validate_venues, validate,
}

-- The number is not negative, and in the range.
abbrev pub IsBetween : ℤ → ℕ → ℕ → Type 0
IsBetween (pos n) low high = (low ≤ n) × (n ≤ high)
IsBetween (negsuc n) low high = ⊥

abbrev pub IsPositive : ℤ → Type 0
IsPositive (pos n) = 1 ≤ n
IsPositive (negsuc n) = ⊥

abbrev pub IsVenueValid : {F : Type 0} → (F → Bool) → Venue F → Type 0
IsVenueValid rps_not_positive v =
    (rps_not_positive v.rate.rps ≡ false)
    × (IsPositive v.rate.burst × ((v.accounts ≢ []) × ((v.api_key ≢ "") × ((v.api_secret ≢ "")))))

abbrev pub IsEntryValid : {F : Type 0} → (F → Bool) → String × Venue F → Type 0
IsEntryValid rps_not_positive (name, v) =
    (v.trading ≡ true → v.enabled ≡ true) × (v.enabled ≡ true → IsVenueValid rps_not_positive v)

abbrev pub IsLevel : String → Type 0
IsLevel l = (l ≡ "trace") ⊎ (l ≡ "debug") ⊎ (l ≡ "info") ⊎ (l ≡ "warn") ⊎ (l ≡ "error")

abbrev pub IsFormat : String → Type 0
IsFormat f = (f ≡ "console") ⊎ (f ≡ "json")

abbrev pub IsValid : {F : Type 0} → (F → Bool) → Config F → Type 0
IsValid rps_not_positive c =
    IsLevel c.log.level
    × (IsFormat c.log.format
        × ((c.http_addr ≢ "")
            × (IsPositive c.snapshot_interval
                × (IsBetween c.outbox.interval (200 * millisecond) second
                    × (IsBetween c.outbox.batch 1 1000
                        × (IsBetween c.reconcile_interval (5 * second) (5 * minute)
                            × (IsBetween c.submit_budget second minute
                                × ((c.postgres_dsn ≢ "")
                                    × ((c.quest_db_conf ≢ "")
                                        × (All (IsEntryValid rps_not_positive) c.venues))))))))))

module _ {P Q : Type 0} where
  quiet_append : (xs ys : List String) → (xs ≡ []) ↔ P → (ys ≡ []) ↔ Q → (xs ++ ys ≡ []) ↔ (P × Q)
  quiet_append [] ys p q = ((λ e. (p.0 refl, q.0 e)), (λ h. q.1 h.1))
  quiet_append (x ∷ xs) ys p q = ((λ e. absurd (cc)), (λ h. absurd (cc (p.1 h.0))))

  either : (a b : Bool) → (a ≡ true) ↔ P → (b ≡ true) ↔ Q → (a || b ≡ true) ↔ (P ⊎ Q)
  either true b p q = ((λ e. inl (p.0 refl)), (λ h. refl))
  either false b p q = ((λ e. inr (q.0 e)), elim [ inl h ↦ absurd (cc (p.1 h)) | inr h ↦ q.1 h ])

module _ {P : Type 0} where
  quiet_last : (xs : List String) → (xs ≡ []) ↔ P → (xs ++ [] ≡ []) ↔ P
  quiet_last [] p = ((λ e. p.0 refl), (λ h. refl))
  quiet_last (x ∷ xs) p = ((λ e. absurd (cc)), (λ h. absurd (cc (p.1 h))))

  quiet : (b : Bool) (key : String) → (b ≡ false) ↔ P → (complaint b key ≡ []) ↔ P
  quiet true key p = ((λ e. absurd (cc)), (λ h. absurd (cc (p.1 h))))
  quiet false key p = ((λ e. p.0 refl), (λ h. refl))

  denied : (b : Bool) → (b ≡ true) ↔ P → (not b ≡ false) ↔ P
  denied true p = ((λ e. p.0 refl), (λ h. refl))
  denied false p = ((λ e. absurd (cc)), (λ h. absurd (cc (p.1 h))))

pub not_empty : (s : String) → (is_empty s ≡ false) ↔ (s ≢ "")
not_empty s = (
  (λ e p. absurd (cc (e, eq_refl "", p))),
  (λ h. elim (Bool-cases (is_empty s)) [ inl e ↦ absurd (h ((eq_iff s "").0 e)) | inr e ↦ e ]),
)

positive : (a : ℤ) → (is_not_positive a ≡ false) ↔ IsPositive a
positive (pos n) = ((λ e. ground arith), (λ h. ground arith))
positive (negsuc n) = ((λ e. absurd (cc)), (λ h. absurd h))

between :
    (a : ℤ) (low high : ℕ) → (is_below a low || is_above a high ≡ false) ↔ IsBetween a low high
between (pos n) low high = ((λ e. ground arith), (λ h. ground arith))
between (negsuc n) low high = ((λ e. absurd (cc)), (λ h. absurd h))

positive_to :
    (a : ℤ) (high : ℕ) → (is_not_positive a || is_above a high ≡ false) ↔ IsBetween a 1 high
positive_to a high = between a 1 high

has_some : {A : Type 0} (xs : List A) → (has_none xs ≡ false) ↔ (xs ≢ [])
has_some [] = ((λ e. absurd (cc)), (λ h. absurd (h refl)))
has_some (x ∷ xs) = ((λ e p. absurd (cc)), (λ h. refl))

is_level : (l : String) → (is_valid_level l ≡ true) ↔ IsLevel l
unfolding is_valid_level
is_level l = either (str_eq l "trace") _ (eq_iff l "trace") (
    either (str_eq l "debug") _ (eq_iff l "debug") (
      either (str_eq l "info") _ (eq_iff l "info")
        (either (str_eq l "warn") (str_eq l "error") (eq_iff l "warn") (eq_iff l "error"))))

neither :
    {P Q : Type 0} (a b : Bool)
    → (a ≡ true) ↔ P
    → (b ≡ true) ↔ Q
    → (not a && not b ≡ false) ↔ (P ⊎ Q)
neither true b p q = ((λ e. inl (p.0 refl)), (λ h. refl))
neither false true p q = ((λ e. inr (q.0 refl)), (λ h. refl))
neither false false p q =
    ((λ e. absurd (cc)), (elim [ inl h ↦ absurd (cc (p.1 h)) | inr h ↦ absurd (cc (q.1 h)) ]))

nor : {P Q : Type 0} (a b : Bool) → (a ≡ false) ↔ P → (b ≡ false) ↔ Q → (a || b ≡ false) ↔ (P × Q)
nor true b p q = ((λ e. absurd (cc)), (λ h. absurd (cc (p.1 h.0))))
nor false b p q = ((λ e. (p.0 refl, q.0 e)), (λ h. q.1 h.1))

guarded :
    {P : Type 0} (b : Bool) (xs : List String)
    → (xs ≡ []) ↔ P
    → ((if not b then [] else xs) ≡ []) ↔ (b ≡ true → P)
guarded true xs p = ((λ e h. p.0 e), (λ h. p.1 (h refl)))
guarded false xs p = ((λ e h. absurd (cc)), (λ h. refl))

trading_enabled : (t e : Bool) → (t && not e ≡ false) ↔ (t ≡ true → e ≡ true)
trading_enabled true true = ((λ p h. refl), (λ h. refl))
trading_enabled true false = ((λ p h. absurd (cc)), (λ h. absurd (cc (h refl))))
trading_enabled false e = ((λ p h. absurd (cc)), (λ h. refl))

regroup : {P Q R S : Type 0} → P ↔ (Q × (R × S)) → P ↔ ((Q × R) × S)
regroup p = ((λ e. ((((p.0 e).0, (p.0 e).1.0)), (p.0 e).1.1)), (λ h. p.1 (h.0.0, (h.0.1, h.1))))

ungroup : {P Q R S : Type 0} → P ↔ ((Q × R) × S) → P ↔ (Q × (R × S))
ungroup p = ((λ e. ((p.0 e).0.0, ((p.0 e).0.1, (p.0 e).1))), (λ h. p.1 ((h.0, h.1.0), h.1.1)))

module _ {F : Type 0} (rps_not_positive : F → Bool) where
  venue_valid :
      (v : Venue F)
      → (validate_venue rps_not_positive v ≡ [])
        ↔ (v.enabled ≡ true → IsVenueValid rps_not_positive v)
  unfolding validate_venue
  venue_valid v = guarded v.enabled _ (
      ungroup (
        quiet_append _ _
          (quiet _ "venues.rate"
            (nor (rps_not_positive v.rate.rps) _ ((λ e. e), (λ h. h)) (positive v.rate.burst)))
          (quiet_append _ _ (quiet _ "venues.accounts" (has_some v.accounts)) (
            quiet_last _ (
              quiet _ "venues.api_key" (nor _ _ (not_empty v.api_key) (not_empty v.api_secret)))))))

  entries_valid :
      (vs : List (String × Venue F))
      → (validate_venues rps_not_positive vs ≡ []) ↔ All (IsEntryValid rps_not_positive) vs
  unfolding validate_venues
  entries_valid [] = ((λ e. tt), (λ h. refl))
  entries_valid ((name, v) ∷ vs) = regroup (
      quiet_append _ _ (quiet _ "venues.trading" (trading_enabled v.trading v.enabled))
        (quiet_append _ _ (venue_valid v) (entries_valid vs)))

  -- A configuration passes `Validate` with no error exactly if its log level and format are among the
  -- known ones, no address, DSN or store configuration that must be set is empty, each interval, the
  -- batch and the submit budget are within their bounds, a venue that trades is enabled, and an enabled
  -- venue has a positive rate, an account, a key and a secret. The test of the float64 is a parameter.
  pub validate-IsValid :
      (c : Config F) → (validate rps_not_positive c ≡ []) ↔ IsValid rps_not_positive c
  unfolding validate
  validate-IsValid c = quiet_append _ _ (quiet _ "log.level" (denied _ (is_level c.log.level))) (
      quiet_append _ _
        (quiet _ "log.format"
          (neither _ _ (eq_iff c.log.format "console") (eq_iff c.log.format "json")))
        (quiet_append _ _ (quiet _ "http.addr" (not_empty c.http_addr)) (
          quiet_append _ _ (quiet _ "snapshot.interval" (positive c.snapshot_interval)) (
            quiet_append _ _
              (quiet _ "outbox.interval" (between c.outbox.interval (200 * millisecond) second))
              (quiet_append _ _ (quiet _ "outbox.batch" (positive_to c.outbox.batch 1000)) (
                quiet_append _ _
                  (quiet _ "reconcile.interval"
                    (between c.reconcile_interval (5 * second) (5 * minute)))
                  (quiet_append _ _
                    (quiet _ "order.submit_budget" (between c.submit_budget second minute))
                    (quiet_append _ _ (quiet _ "postgres.dsn" (not_empty c.postgres_dsn)) (
                      quiet_append _ _ (quiet _ "questdb.conf" (not_empty c.quest_db_conf))
                        (quiet_last _ (entries_valid c.venues)))))))))))
