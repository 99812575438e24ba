-- ===== src/Config/Loading.antt =====
-- internal/config/load.go: what is known of a configuration that was loaded.
use delta_works.Base.{
  ℕ, ◌<◌, ◌≡◌, ◌≢◌, ◌⊎◌, inl, inr, refl, sym, ap, Bool, true, false, not, List, [], ◌∷◌, String,
  eq_iff, lt→ltb, arith, Bool-cases, if◌then◌else◌,
}
use delta_works.Decimal.Integers.{pos}
use delta_works.Errors.{Result, ok, err, Error, ◌>>=◌, >>=-eq-ok}
use delta_works.Config.{
  Config, Venue, Files, Koanf, is_empty, wrapping, expand_home, read_secret, resolve_secret,
  resolve_enabled, resolve_venue, resolve_secret_files, after_file, when_valid, load,
}
use delta_works.Config.Texts.{trim_space}
use delta_works.Config.Validity.{IsValid, validate-IsValid, not_empty}
use delta_works.Postgres.Session.{Session}
use delta_works.Service.Outbox.{drain}
use delta_works.Service.Outbox.Termination.{waiting, drain_ends}

when_valid_ok :
    {F : Type 0} (c out : Config F) (keys : List String)
    → when_valid c keys ≡ ok out
    → (keys ≡ []) × (c ≡ out)
when_valid_ok c out [] h = (refl, cc)
when_valid_ok c out (key ∷ keys) h = absurd (cc)

wrapping_ok :
    {A : Type 0} (message : String) (r : Result A) {a : A} → wrapping message r ≡ ok a → r ≡ ok a
wrapping_ok message (ok b) h = h
wrapping_ok message (err e) h = absurd (cc)

otherwise_ok :
    {A : Type 0} (b : Bool) (e : Error) (r : Result A) {a : A}
    → (if b then err e else r) ≡ ok a
    → (b ≡ false) × (r ≡ ok a)
otherwise_ok true e r h = absurd (cc)
otherwise_ok false e r h = (refl, h)

either_ok :
    {A : Type 0} (b : Bool) (r s : Result A) {a : A}
    → (if not b then r else s) ≡ ok a
    → (b ≡ false → r ≡ ok a) × (b ≡ true → s ≡ ok a)
either_ok true r s h = ((λ e. absurd (cc)), (λ e. h))
either_ok false r s h = ((λ e. h), (λ e. absurd (cc)))

ok_same : {A : Type 0} {a b : A} → ok a ≡ ok b → a ≡ b
ok_same h = cc

-- Where a secret comes from: the value that is set, with no file; or a file that could be read, when
-- no value is set, without the space around it.
abbrev pub ComesFrom : Files → String → String → String → Type 0
ComesFrom files value path secret =
    ((path ≡ "") × (secret ≡ value))
    ⊎ ((path ≢ "")
        × (value ≡ "")
        × (secret ≢ "")
        × ((file : String) × (content : String) × (expand_home files path ≡ ok file)
            × (files.read_file file ≡ ok content)
            × (secret ≡ trim_space content)))

-- The venue as it was, when it is disabled; with its secrets from their sources, when it is enabled.
abbrev pub IsResolved : {F : Type 0} → Files → Venue F → Venue F → Type 0
IsResolved files v out =
    (v.enabled ≡ false → out ≡ v)
    × (v.enabled ≡ true
        → ComesFrom files v.api_key v.api_key_file out.api_key
          × ComesFrom files v.api_secret v.api_secret_file out.api_secret)

abbrev pub Each : {F : Type 0} → Files → List (String × Venue F) → List (String × Venue F) → Type 0
Each files [] [] = Unit
Each files ((name, v) ∷ vs) ((name', out) ∷ outs) =
    ((name ≡ name') × IsResolved files v out) × Each files vs outs
Each files _ _ = ⊥

module _ (files : Files) where
  read_secret_ok :
      (path secret : String)
      → read_secret files path ≡ ok secret
      → (secret ≢ "")
        × ((content : String) × (files.read_file path ≡ ok content) × (secret ≡ trim_space content))
  unfolding read_secret
  read_secret_ok path secret h =
      let got = >>=-eq-ok (wrapping "read secret file" (files.read_file path)) _ h in
      let full = otherwise_ok (is_empty (trim_space got.0)) _ (ok (trim_space got.0)) got.2 in
      let same : trim_space got.0 ≡ secret = ok_same full.1 in
      (
        rw same at ((not_empty (trim_space got.0)).0 full.0),
        (got.0, wrapping_ok _ _ got.1, sym same),
      )

  set_none : (value : String) → not (is_empty value) ≡ false → value ≡ ""
  set_none value h = (eq_iff value "").0 (ground arith)

  resolve_secret-ComesFrom :
      (value path secret : String)
      → resolve_secret files value path ≡ ok secret
      → ComesFrom files value path secret
  unfolding resolve_secret
  resolve_secret-ComesFrom value path secret h = elim (Bool-cases (is_empty path)) [
    | inl e ↦ inl ((eq_iff path "").0 e, cc (rw e at h))
    | inr e ↦
        let unset =
          otherwise_ok (not (is_empty value)) _ (expand_home files path >>= read_secret files)
            (rw e at h) in
        let found = >>=-eq-ok (expand_home files path) _ unset.1 in
        let read = read_secret_ok found.0 secret found.2 in
        inr (
          (not_empty path).0 e,
          set_none value unset.0,
          read.0,
          (found.0, read.1.0, found.1, read.1.1, read.1.2),
        )
  ]

  resolve_enabled-ComesFrom :
      {F : Type 0} (v out : Venue F)
      → resolve_enabled files v ≡ ok out
      → ComesFrom files v.api_key v.api_key_file out.api_key
        × ComesFrom files v.api_secret v.api_secret_file out.api_secret
  unfolding resolve_enabled
  resolve_enabled-ComesFrom v out h =
      let key =
        >>=-eq-ok (wrapping "venues.api_key" (resolve_secret files v.api_key v.api_key_file)) _ h in
      let secret =
        >>=-eq-ok
          (wrapping "venues.api_secret" (resolve_secret files v.api_secret v.api_secret_file)) _
          key.2 in
      let same : record v { api_key = key.0; api_secret = secret.0 } ≡ out = ok_same secret.2 in
      (
        rw (← (ap (λ u. u.api_key) same))
            (resolve_secret-ComesFrom _ _ key.0 (wrapping_ok _ _ key.1)),
        rw (← (ap (λ u. u.api_secret) same))
            (resolve_secret-ComesFrom _ _ secret.0 (wrapping_ok _ _ secret.1)),
      )

  resolve_venue-IsResolved :
      {F : Type 0} (v out : Venue F) → resolve_venue files v ≡ ok out → IsResolved files v out
  unfolding resolve_venue
  resolve_venue-IsResolved v out h =
      let branches = either_ok v.enabled (ok v) (resolve_enabled files v) h in
      ((λ e. sym (ok_same (branches.0 e))), (λ e. resolve_enabled-ComesFrom v out (branches.1 e)))

  -- When the secrets of all venues are resolved, a disabled venue is as it was, and each secret of an
  -- enabled one is the value that was set, with no file, or the text of its file, not empty, when no
  -- value was set.
  pub resolve_secret_files_lem :
      {F : Type 0} (vs outs : List (String × Venue F))
      → resolve_secret_files files vs ≡ ok outs
      → Each files vs outs
  unfolding resolve_secret_files
  resolve_secret_files_lem [] [] h = tt
  resolve_secret_files_lem [] (out ∷ outs) h = absurd (cc)
  resolve_secret_files_lem ((name, v) ∷ vs) outs h =
      let first = >>=-eq-ok (resolve_venue files v) _ h in
      let rest = >>=-eq-ok (resolve_secret_files files vs) _ first.2 in
      rw (← (ok_same rest.2)) (
        (
          (refl, resolve_venue-IsResolved v first.0 first.1),
          resolve_secret_files_lem vs rest.0 rest.1,
        ))

module _ {K F : Type 0} (koanf : Koanf K F) (files : Files) (rps_not_positive : F → Bool) where
  -- Whatever the sources hold, a configuration that is loaded passes all checks of `Validate`.
  pub load-IsValid :
      (path : String) (explicit : Bool) (c : Config F)
      → load koanf files rps_not_positive path explicit ≡ ok c
      → IsValid rps_not_positive c
  unfolding load
  load-IsValid path explicit c h =
      let defaulted = >>=-eq-ok (wrapping "load defaults" koanf.load_defaults) _ h in
      let filed = >>=-eq-ok (after_file explicit _ (koanf.load_file path _)) _ defaulted.2 in
      let merged = >>=-eq-ok (wrapping "load env" (koanf.load_env _)) _ filed.2 in
      let read = >>=-eq-ok (wrapping "unmarshal config" (koanf.unmarshal _)) _ merged.2 in
      let resolved = >>=-eq-ok (resolve_secret_files files _) _ read.2 in
      let valid = when_valid_ok _ c _ resolved.2 in
      rw (← valid.1) ((validate-IsValid rps_not_positive _).0 valid.0)

  -- With the batch size of a configuration that was loaded, a drain of the outbox with more fuel than
  -- there are unpublished rows does not run out of it, with any faults.
  pub loaded_drain_ends :
      {D : Type 0} (path : String) (explicit : Bool) (c : Config F) (batch fuel : ℕ)
      (canceled : Bool) (w : Session D)
      → load koanf files rps_not_positive path explicit ≡ ok c
      → c.outbox.batch ≡ pos batch
      → waiting w.db < fuel
      → ¬ ((drain fuel canceled batch w).0 ≡ ok false)
  loaded_drain_ends path explicit c batch fuel canceled w loaded e enough =
      let valid = load-IsValid path explicit c loaded in
      let between = rw e at valid.1.1.1.1.1.0 in
      drain_ends fuel canceled batch w (lt→ltb 0 batch (omega (arith, between.0))) enough
