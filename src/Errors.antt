-- ===== src/Errors.antt =====
-- Errors as the code tests them: an error wraps causes (`fmt.Errorf` with `%w`), and `errors.Is`
-- asks for one. internal/ports/exchange.go, ports/store.go, ports/trading.go, service/order/order.go
-- and api/orders.go declare the causes that have a name; `context`, `io/fs` and gocryptotrader have the
-- others.
use delta_works.Base.{
  ◌≡◌, refl, ◌⊎◌, inl, inr, Bool, true, false, List, [], ◌∷◌, String, if◌then◌else◌,
}

pub data Cause : Type 0 where
  not_found no_venue_order_id venue_unavailable auth rate_limited : Cause
  unsupported_account trading_unsupported limiter_wait : Cause
  submit_unsettled identity_mismatch terminal_order venue_not_configured : Cause
  invalid_argument canceled deadline_exceeded not_exist : Cause
  credentials_are_empty authentication_support_not_enabled order_not_found : Cause
  -- an error that the code compares with nothing, by its message
  other : String → Cause

abbrev pub same_cause : Cause → Cause → Bool
same_cause not_found not_found = true
same_cause no_venue_order_id no_venue_order_id = true
same_cause venue_unavailable venue_unavailable = true
same_cause auth auth = true
same_cause rate_limited rate_limited = true
same_cause unsupported_account unsupported_account = true
same_cause trading_unsupported trading_unsupported = true
same_cause limiter_wait limiter_wait = true
same_cause submit_unsettled submit_unsettled = true
same_cause identity_mismatch identity_mismatch = true
same_cause terminal_order terminal_order = true
same_cause venue_not_configured venue_not_configured = true
same_cause invalid_argument invalid_argument = true
same_cause canceled canceled = true
same_cause deadline_exceeded deadline_exceeded = true
same_cause not_exist not_exist = true
same_cause credentials_are_empty credentials_are_empty = true
same_cause authentication_support_not_enabled authentication_support_not_enabled = true
same_cause order_not_found order_not_found = true
same_cause _ _ = false

-- A non-nil error, by what it wraps.
abbrev pub Error : Type 0
Error = List Cause

-- `errors.Is`.
unfoldable pub is : Error → Cause → Bool
is [] c = false
is (d ∷ e) c = let rest = is e c in if same_cause d c then true else rest

-- `fmt.Errorf("%w: ...", c, e)`.
abbrev pub wrap : Cause → Error → Error
wrap c e = c ∷ e

-- A Go return of a value and an error, of which the caller uses the value only if the error is nil.
pub data Result {ℓ} (A : Type ℓ) : Type ℓ where
  err : Error → Result A
  ok : A → Result A

module _ {ℓ κ} {A : Type ℓ} {B : Type κ} where
  infixl 5 ◌>>=◌
  -- `if err != nil { return err }`
  abbrev pub ◌>>=◌ : Result A → (A → Result B) → Result B
  err e >>= next = err e
  ok value >>= next = next value

  -- A chain that ends well went well at its first step, and from there.
  pub >>=-eq-ok :
      (first : Result A) (next : A → Result B) {b : B}
      → (first >>= next) ≡ ok b
      → (value : A) × (first ≡ ok value) × (next value ≡ ok b)
  >>=-eq-ok (err e) next ends = absurd (cc)
  >>=-eq-ok (ok value) next ends = (value, refl, ends)

abbrev pub is_ok {ℓ} : {A : Type ℓ} → Result A → Bool
is_ok (ok a) = true
is_ok (err e) = false

pub Result-cases {ℓ} :
    {A : Type ℓ} (r : Result A) → ((a : A) × (r ≡ ok a)) ⊎ ((e : Error) × (r ≡ err e))
Result-cases (ok a) = inl (a, refl)
Result-cases (err e) = inr (e, refl)

pub is_ok-value {ℓ} : {A : Type ℓ} (r : Result A) → is_ok r ≡ true → (a : A) × (r ≡ ok a)
is_ok-value (ok a) h = (a, refl)
is_ok-value (err e) h = absurd (cc)
