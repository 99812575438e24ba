-- ===== src/Domain/Instrument/Pairs.antt =====
-- internal/domain/instrument/instrument.go: the texts of an instrument, and the reading of a pair.
-- `upper` is `strings.ToUpper`.
use Prim.Native.Char.{Char, code}
use Prim.Native.String.{◌++◌}
use Prim.Native.String.append
use delta_works.Base.{
  ◌≡◌, refl, ap, ◌∙◌, Bool, true, false, ◌||◌, Option, none, some, String, [], ◌∷◌, if◌then◌else◌,
  ◌==◌, str_eq, Bool-cases, inl, inr,
}
use delta_works.Errors.{Result, ok, err, other}
use delta_works.Config.Texts.{trim_space}
use delta_works.Domain.Instrument.{
  Currency, Instrument, InstrumentType, spot, unknown, new_currency,
}

-- `strings.Contains(s, "/")`.
unfoldable pub has_slash : String → Bool
has_slash String.[] = false
has_slash (String.◌∷◌ c s) = let rest = has_slash s in if code c == 47 then true else rest

abbrev pub before : Char → Option (String × String) → Option (String × String)
before c none = none
before c (some (l, r)) = some (String.◌∷◌ c l, r)

-- `strings.Cut(s, "/")`; `none` if it is not found.
unfoldable pub cut_slash : String → Option (String × String)
cut_slash String.[] = none
cut_slash (String.◌∷◌ c s) =
    let rest = cut_slash s in if code c == 47 then some ("", s) else before c rest

abbrev pub type_text : InstrumentType → String
type_text spot = "spot"
type_text (unknown s) = s

module _ {D : Type 0} where
  -- `Pair` and `Key`.
  unfoldable pub pair : Instrument D → String
  pair i = i.base ++ "/" ++ i.quote

  unfoldable pub key : Instrument D → String
  key i = i.venue ++ ":" ++ type_text i.type ++ ":" ++ i.base ++ "/" ++ i.quote

abbrev pub check_pair : Currency → Currency → Result (Currency × Currency)
check_pair base quote =
    if str_eq base "" || str_eq quote ""
    then err (other "parse pair: empty base or quote" ∷ [])
    else if has_slash quote
    then err (other "parse pair: more than one '/'" ∷ [])
    else ok (base, quote)

abbrev pub read_pair : (String → String) → Option (String × String) → Result (Currency × Currency)
read_pair upper none = err (other "parse pair: missing '/'" ∷ [])
read_pair upper (some (left, right)) =
    check_pair (new_currency upper trim_space left) (new_currency upper trim_space right)

-- `ParsePair`.
unfoldable pub parse_pair : (String → String) → String → Result (Currency × Currency)
parse_pair upper s = read_pair upper (cut_slash s)

after_slash : (r : String) → "" ++ "/" ++ r ≡ String.◌∷◌ "/" r
after_slash r =
    append.nil ("/" ++ r) ∙ append.cons "/" String.[] r ∙ ap (String.◌∷◌ "/") (append.nil r)

cut_slash-append : (l r : String) → has_slash l ≡ false → cut_slash (l ++ "/" ++ r) ≡ some (l, r)
unfolding cut_slash has_slash
cut_slash-append String.[] r h = ap cut_slash (after_slash r)
cut_slash-append (String.◌∷◌ c l) r h = elim (Bool-cases (code c == 47)) [
  | inl e ↦ absurd (cc (rw e at h))
  | inr e ↦
      ap cut_slash (append.cons c l ("/" ++ r)) ∙ rw (e, cut_slash-append l r (rw e at h)) refl
]

-- The pair of an instrument is read as its base and its quote, if these are currencies as `NewCurrency`
-- writes them, not empty and without a slash.
pub parse_pair-pair :
    {D : Type 0} (upper : String → String) (i : Instrument D)
    → new_currency upper trim_space i.base ≡ i.base
    → new_currency upper trim_space i.quote ≡ i.quote
    → (str_eq i.base "" || str_eq i.quote "") ≡ false
    → has_slash i.base ≡ false
    → has_slash i.quote ≡ false
    → parse_pair upper (pair i) ≡ ok (i.base, i.quote)
unfolding parse_pair pair
parse_pair-pair upper i b q some_text h k =
    rw (cut_slash-append i.base i.quote h, b, q, some_text, k) refl
