-- ===== src/RateLimit/Identity.antt =====
-- internal/core/ratelimit/ratelimit.go: whom a request is counted for. `split_host` is
-- net.SplitHostPort, and `hash_hex` the hexadecimal SHA-256 of a token.
use projectbook_backend.Base.{
  ℕ, zero, suc, ◌≤◌, ◌==◌, ◌≡◌, ◌≢◌, refl, length, take, Bool, true, false, not, ◌&&◌, Bool-cases,
  inl, inr, Option, none, some, List, [], ◌∷◌, if◌then◌else◌, arith,
}
use projectbook_backend.Text.{Text, codes, is_space, is_empty, trim_space, equal_fold}
use projectbook_backend.Policy.Http.{AuthContext}
use projectbook_backend.RateLimit.{
  Scope, unset, auto, anon, ip, user, project, token, other, sanitize_identifier,
}

-- The parts of *http.Request that the keys read; `client_ip` is netx.ClientIPFromContext.
pub record Source : Type 0 where
  pub principal : Option AuthContext
  pub client_ip : Option Text
  pub remote_addr : Text
  pub authorization : Text

abbrev pub Key : Type 0
Key = Scope × Text

abbrev pub Keyer : Type 0
Keyer = Source → Key

-- Rule
pub record Rule : Type 0 where
  pub scope : Scope
  pub keyer : Option Keyer

-- KeyByAnonymous
abbrev pub anonymous : Key
anonymous = (anon, codes "anonymous")

unfoldable pub is_anon : Scope → Bool
is_anon anon = true
is_anon unset = false
is_anon auto = false
is_anon ip = false
is_anon user = false
is_anon project = false
is_anon token = false
is_anon (other t) = false

-- `if scope, id := first; scope != ScopeAnon { return scope, id }` before the rest.
unfoldable pub or_else : Key → Key → Key
unfolding is_anon
or_else (s, id) rest = if is_anon s then rest else (s, id)

unfoldable pub known_scope : Scope → Scope
known_scope unset = anon
known_scope auto = anon
known_scope anon = anon
known_scope ip = ip
known_scope user = user
known_scope project = project
known_scope token = token
known_scope (other t) = other t

-- normalizeKey
unfoldable pub normalize_key : Key → Key
unfolding sanitize_identifier known_scope
normalize_key (s, id) =
    if is_empty (sanitize_identifier id) then anonymous else (known_scope s, sanitize_identifier id)

-- A byte before the text whose words are given.
unfoldable pub grow : ℕ → Text → List Text → List Text
unfolding is_space
grow c [] ws = (c ∷ []) ∷ ws
grow c (d ∷ s) [] = (c ∷ []) ∷ []
grow c (d ∷ s) (w ∷ ws) = if is_space d then (c ∷ []) ∷ w ∷ ws else (c ∷ w) ∷ ws

-- strings.Fields
unfoldable pub words : Text → List Text
unfolding is_space grow
words [] = []
words (c ∷ s) = let ws = words s in if is_space c then ws else grow c s ws

unfoldable pub bearer_of : List Text → Option Text
unfolding equal_fold
bearer_of [] = none
bearer_of (a ∷ []) = none
bearer_of (a ∷ b ∷ []) = if equal_fold a (codes "Bearer") && not (is_empty b) then some b else none
bearer_of (a ∷ b ∷ c ∷ ws) = none

-- bearerToken
unfoldable pub bearer_token : Text → Option Text
unfolding words bearer_of
bearer_token header = bearer_of (words header)

unfoldable pub user_of : Option AuthContext → Key
unfolding trim_space
user_of none = anonymous
user_of (some p) = if is_empty (trim_space p.user_id) then anonymous else (user, p.user_id)

-- KeyByUser
unfoldable pub key_by_user : Keyer
unfolding user_of
key_by_user r = user_of r.principal

unfoldable pub project_of : Option AuthContext → Key
unfolding trim_space
project_of none = anonymous
project_of (some p) =
    if is_empty (trim_space p.project_id) then anonymous else (project, p.project_id)

-- KeyByProject
unfoldable pub key_by_project : Keyer
unfolding project_of
key_by_project r = project_of r.principal

abbrev pub or_text : Option Text → Text → Text
or_text none d = d
or_text (some t) d = t

unfoldable pub host_key : Option Text → Text → Key
host_key (some address) host = (ip, address)
host_key none host = if is_empty host then anonymous else (ip, host)

module _ (split_host : Text → Option Text) (hash_hex : Text → Text) where
  -- KeyByIP
  unfoldable pub key_by_ip : Keyer
  unfolding host_key trim_space
  key_by_ip r =
      host_key r.client_ip
        (or_text (split_host (trim_space r.remote_addr)) (trim_space r.remote_addr))

  unfoldable pub token_key : ℕ → Option Text → Key
  token_key n none = anonymous
  token_key n (some t) = (token, take n (hash_hex t))

  -- KeyByTokenHash; where the prefix is longer than the hash, it is the hash.
  unfoldable pub key_by_token_hash : ℕ → Keyer
  unfolding token_key bearer_token
  key_by_token_hash n r = token_key (if n == 0 then 16 else n) (bearer_token r.authorization)

  -- KeyByUserOrProjectOrTokenHash
  unfoldable pub key_by_user_or_project_or_token_hash : ℕ → Keyer
  unfolding or_else key_by_user key_by_project key_by_token_hash
  key_by_user_or_project_or_token_hash n r =
      or_else (key_by_user r)
        (or_else (key_by_project r) (or_else (key_by_token_hash n r) anonymous))

  -- The switch on the scope of the rule.
  unfoldable pub key_of_scope : Scope → Keyer
  unfolding normalize_key or_else key_by_ip key_by_user key_by_project key_by_token_hash
      key_by_user_or_project_or_token_hash
  key_of_scope ip r = normalize_key (key_by_ip r)
  key_of_scope user r =
      or_else (normalize_key (key_by_user r))
        (or_else (normalize_key (key_by_token_hash 16 r)) anonymous)
  key_of_scope project r = or_else (normalize_key (key_by_project r)) anonymous
  key_of_scope token r = or_else (normalize_key (key_by_token_hash 16 r)) anonymous
  key_of_scope auto r =
      or_else (normalize_key (key_by_user_or_project_or_token_hash 16 r)) anonymous
  key_of_scope unset r =
      or_else (normalize_key (key_by_user_or_project_or_token_hash 16 r)) anonymous
  key_of_scope anon r = anonymous
  key_of_scope (other t) r = anonymous

  unfoldable pub custom_key : Option Keyer → Keyer
  unfolding normalize_key
  custom_key none r = anonymous
  custom_key (some k) r = normalize_key (k r)

  -- ResolveScopeAndIdentifier
  unfoldable pub resolve_scope_and_identifier : Source → Rule → Key
  unfolding custom_key or_else key_of_scope
  resolve_scope_and_identifier r rule =
      or_else (custom_key rule.keyer r) (key_of_scope rule.scope r)

-- A scope that the limiter counts by, and an identifier of 1 to 128 bytes.
pub record IsBounded (k : Key) : Type 0 where
  pub named : k.0 ≢ unset
  pub settled : k.0 ≢ auto
  pub full : is_empty k.1 ≡ false
  pub short : length k.1 ≤ 128

length-take : (n : ℕ) (s : Text) → length (take n s) ≤ n
length-take zero s = omega arith
length-take (suc n) [] = omega arith
length-take (suc n) (c ∷ s) = omega (arith, length-take n s)

anonymous-IsBounded : IsBounded anonymous
unfolding known_scope
anonymous-IsBounded = record {
  named = λ e. cc;
  settled = λ e. cc;
  full = refl;
  short = omega arith;
}

known_scope-named : (s : Scope) → known_scope s ≢ unset
unfolding known_scope
known_scope-named s h = ground arith

known_scope-settled : (s : Scope) → known_scope s ≢ auto
unfolding known_scope
known_scope-settled s h = ground arith

normalize_key-IsBounded : (k : Key) → IsBounded (normalize_key k)
unfolding normalize_key sanitize_identifier
normalize_key-IsBounded (s, id) = elim (Bool-cases (is_empty (sanitize_identifier id))) [
  | inl e ↦ rw e anonymous-IsBounded
  | inr e ↦ rw e (record {
    named = known_scope-named s;
    settled = known_scope-settled s;
    full = e;
    short = length-take 128 _;
  })
]

or_else-IsBounded : (k rest : Key) → IsBounded k → IsBounded rest → IsBounded (or_else k rest)
unfolding or_else
or_else-IsBounded (s, id) rest h t = elim (Bool-cases (is_anon s)) [
  | inl e ↦ rw e t
  | inr e ↦ rw e h
]

or_anonymous-IsBounded : (k : Key) → IsBounded (or_else (normalize_key k) anonymous)
or_anonymous-IsBounded k =
    or_else-IsBounded (normalize_key k) anonymous (normalize_key-IsBounded k) anonymous-IsBounded

module _ (split_host : Text → Option Text) (hash_hex : Text → Text) where
  key_of_scope-IsBounded :
      (s : Scope) (r : Source) → IsBounded (key_of_scope split_host hash_hex s r)
  unfolding key_of_scope
  key_of_scope-IsBounded ip r = normalize_key-IsBounded (key_by_ip split_host hash_hex r)
  key_of_scope-IsBounded user r =
      or_else-IsBounded (normalize_key (key_by_user r)) _ (normalize_key-IsBounded (key_by_user r))
        (or_anonymous-IsBounded (key_by_token_hash split_host hash_hex 16 r))
  key_of_scope-IsBounded project r = or_anonymous-IsBounded (key_by_project r)
  key_of_scope-IsBounded token r =
      or_anonymous-IsBounded (key_by_token_hash split_host hash_hex 16 r)
  key_of_scope-IsBounded auto r =
      or_anonymous-IsBounded (key_by_user_or_project_or_token_hash split_host hash_hex 16 r)
  key_of_scope-IsBounded unset r =
      or_anonymous-IsBounded (key_by_user_or_project_or_token_hash split_host hash_hex 16 r)
  key_of_scope-IsBounded anon r = anonymous-IsBounded
  key_of_scope-IsBounded (other t) r = anonymous-IsBounded

  custom_key-IsBounded :
      (k : Option Keyer) (r : Source) → IsBounded (custom_key split_host hash_hex k r)
  unfolding custom_key
  custom_key-IsBounded none r = anonymous-IsBounded
  custom_key-IsBounded (some k) r = normalize_key-IsBounded (k r)

  -- Whatever the request and the rule, a custom key of the rule included, the scope that is counted
  -- is neither unset nor auto, and the identifier has 1 to 128 bytes.
  pub resolve_scope_and_identifier-IsBounded :
      (r : Source) (rule : Rule)
      → IsBounded (resolve_scope_and_identifier split_host hash_hex r rule)
  unfolding resolve_scope_and_identifier
  resolve_scope_and_identifier-IsBounded r rule =
      or_else-IsBounded (custom_key split_host hash_hex rule.keyer r) _
        (custom_key-IsBounded rule.keyer r) (key_of_scope-IsBounded rule.scope r)
