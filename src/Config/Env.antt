-- ===== src/Config/Env.antt =====
-- internal/core/config/config.go: how Load reads a variable of the environment, with the default of the
-- profile and the fallback, and how Lint checks that its text is a value. Durations and floats are
-- parsed by parameters.
use projectbook_backend.Base.{
  ◌++◌, ◌^◌, ltb, ◌==◌, if◌then◌else◌, Bool, true, false, not, ◌||◌, Option, none, some, List, [],
  ◌∷◌,
}
use projectbook_backend.Text.{Text, codes, is_empty, trim_space, mem_text}
use projectbook_backend.Text.Decimal.{ℤ, pos, negsuc, parse_int}
use projectbook_backend.Config.{Ratio}

-- os.LookupEnv, and the defaults of the active profile.
pub record Environment : Type 0 where
  pub lookup : Text → Option Text
  pub profile_default : Text → Option Text

-- os.Getenv
unfoldable pub get_raw : Environment → Text → Text
get_raw env key = elim (env.lookup key) [ none ↦ [] | some v ↦ v ]

abbrev pub text_or {ℓ} : {A : Type ℓ} → Option A → A → A
text_or none d = d
text_or (some a) d = a

-- The text of a variable, or else the default of the profile.
unfoldable pub with_profile : Environment → Text → Text
unfolding get_raw
with_profile env key =
    if is_empty (get_raw env key) then text_or (env.profile_default key) [] else get_raw env key

-- getenv
unfoldable pub get_env : Environment → Text → Text → Text
unfolding with_profile
get_env env key fallback =
    if is_empty (with_profile env key) then fallback else with_profile env key

-- getInt, getInt32, getInt64, getBool, getDuration and getFloat64, for the parser of the type.
unfoldable pub get_parsed {ℓ} : {A : Type ℓ} → (Text → Option A) → Environment → Text → A → A
unfolding with_profile
get_parsed parse env key fallback =
    if is_empty (with_profile env key)
    then fallback
    else text_or (parse (with_profile env key)) fallback

-- strconv.ParseBool
unfoldable pub parse_bool : Text → Option Bool
unfolding mem_text
parse_bool s =
    if mem_text s
      (codes "1" ∷ codes "t" ∷ codes "T" ∷ codes "true" ∷ codes "TRUE" ∷ codes "True" ∷ [])
    then some true
    else if mem_text s
        (codes "0" ∷ codes "f" ∷ codes "F" ∷ codes "false" ∷ codes "FALSE" ∷ codes "False" ∷ [])
    then some false
    else none

abbrev fits_32 : ℤ → Bool
fits_32 (pos n) = ltb n (2 ^ 31)
fits_32 (negsuc n) = ltb n (2 ^ 31)

abbrev when_fits_32 : Option ℤ → Option ℤ
when_fits_32 none = none
when_fits_32 (some n) = if fits_32 n then some n else none

-- strconv.ParseInt(v, 10, 32)
unfoldable pub parse_int_32 : Text → Option ℤ
unfolding parse_int
parse_int_32 s = when_fits_32 (parse_int s)

-- time.ParseDuration and strconv.ParseFloat
pub record Parsers : Type 0 where
  pub parse_duration : Text → Option ℤ
  pub parse_float : Text → Option Ratio

abbrev is_none {ℓ} : {A : Type ℓ} → Option A → Bool
is_none none = true
is_none (some a) = false

abbrev refuses {ℓ} : {A : Type ℓ} → (Text → Option A) → Option Text → Bool
refuses parse none = false
refuses parse (some v) = is_none (parse v)

-- The test of lintBoolEnv, lintIntEnv, lintDurationEnv, lintFloat64Env, lintInt32Env, lintInt64Env: is
-- the variable set to a text that is no value?
unfoldable pub is_invalid {ℓ} : {A : Type ℓ} → (Text → Option A) → Environment → Text → Bool
is_invalid parse env key = refuses parse (env.lookup key)

-- hasNonEmptyEnv
unfoldable pub has_non_empty_env : Environment → Text → Bool
unfolding get_raw trim_space
has_non_empty_env env key = not (is_empty (trim_space (get_raw env key)))

-- getenvAlias: the first variable that is set, or else the first default of the profile.
unfoldable pub first_set : (Text → Text) → List Text → Text → Text
first_set read [] fallback = fallback
first_set read (k ∷ ks) fallback =
    let rest = first_set read ks fallback in
    if is_empty k || is_empty (read k) then rest else read k

unfoldable pub get_env_alias : Environment → List Text → Text → Text
unfolding get_raw first_set
get_env_alias env keys fallback =
    first_set (get_raw env) keys (first_set (λ k. text_or (env.profile_default k) []) keys fallback)

-- strings.Split(v, ","), each part trimmed, the empty ones left out.
unfoldable pub csv_parts : Text → Text → List Text
unfolding trim_space
csv_parts part [] = if is_empty (trim_space part) then [] else trim_space part ∷ []
csv_parts part (c ∷ s) =
    let rest = csv_parts [] s in
    let longer = csv_parts (part ++ (c ∷ [])) s in
    if c == 44
    then (if is_empty (trim_space part) then rest else trim_space part ∷ rest)
    else longer

-- The text of a list, or else the default of the profile.
unfoldable pub csv_text : Environment → Text → Text
unfolding get_raw trim_space
csv_text env key =
    if is_empty (trim_space (get_raw env key))
    then text_or (env.profile_default key) (get_raw env key)
    else get_raw env key

abbrev items_or : List Text → List Text → List Text
items_or [] d = d
items_or (x ∷ xs) d = x ∷ xs

-- getCSV
unfoldable pub get_csv : Environment → Text → List Text → List Text
unfolding csv_text csv_parts
get_csv env key fallback = items_or (csv_parts [] (csv_text env key)) fallback

-- getCSVAlias
unfoldable pub get_csv_alias : Environment → List Text → List Text → List Text
unfolding csv_text csv_parts
get_csv_alias env [] fallback = fallback
get_csv_alias env (k ∷ ks) fallback =
    let rest = get_csv_alias env ks fallback in
    if is_empty k then rest else items_or (csv_parts [] (csv_text env k)) rest
