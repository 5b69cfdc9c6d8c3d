-- ===== src/Cache/Tests.antt =====
-- Runs of the cache manager at small inputs, and the theorems about it at concrete requests.
mod OneCounter
use mathlib.Core.Path.{subst}
use projectbook_backend.Base.{
  ℕ, zero, suc, ◌+◌, ◌≤◌, ltb, leb, ◌≡◌, ◌≢◌, ◌⊎◌, refl, sym, ap, ◌∙◌, inl, inr, if◌then◌else◌, map,
  Bool, true, false, ◌&&◌, Option, none, some, List, [], ◌∷◌, Result, ok, err, arith, Bool-cases,
}
use projectbook_backend.Text.{Text, codes, text_eq, to_upper, trim_space}
use projectbook_backend.Text.Laws.{text_eq_iff}
use projectbook_backend.Text.Decimal.{max_int, negsuc}
use projectbook_backend.Text.Join.{join_texts}
use projectbook_backend.Text.Unique.{unique_strings}
use projectbook_backend.Policy.Http.{AuthContext}
use projectbook_backend.Cache.{
  CacheTagSpec, CacheVaryBy, KeyConfig, ReadKeyTemplate, normalized_names, normalize_tag_specs,
  prepare_read_key_template,
}
use projectbook_backend.Cache.Tags.{KeyRequest, missing_path_param, resolve_tag_names, query_escape}
use projectbook_backend.Cache.Store.{
  RedisClient, Manager, CacheState, new_manager, tag_version_token, bump_tags,
}
use projectbook_backend.Cache.Key.{
  is_cursor_like_query_param, query_param_hash_selected, read_key, build_read_key_with_template,
}
use projectbook_backend.Cache.Versions.{counter_value, token_text}
use projectbook_backend.Cache.Counters.{CounterLaws, occurrences, version_at}
use projectbook_backend.Cache.Digest.{Collides}
use projectbook_backend.Cache.Fresh.{bump_tags-build_read_key_with_template}
use projectbook_backend.Cache.Coherence.{
  CacheStep, CacheRun, bump, start, next, tag_version_token-IsOld,
}
use projectbook_backend.Cache.Old.{IsOld}
use projectbook_backend.Cache.Isolation.{caller_of, IsPlain, read_key-caller_of}
use projectbook_backend.Cache.Tests.OneCounter.{one_counter, one_counter-CounterLaws}

abbrev manager : Manager
manager = record {
  env = codes "dev";
  fail_open = true;
  default_max_bytes = 1000;
  tag_token_ttl = 5000;
}

abbrev caller : Text → AuthContext
caller user = record {
  user_id = user;
  project_id = codes "p1";
  role = codes "Owner";
  permission_mask = 1;
  permissions = [];
}

abbrev request_of : Text → KeyRequest
request_of user = record {
  method = codes "get";
  url_param = λ p. if text_eq p (codes "id") then codes "a b" else [];
  query_values = λ q. codes "2" ∷ codes "1" ∷ [];
  header_values = λ h. [];
  principal = some (caller user);
}

abbrev vary_by_user : CacheVaryBy
vary_by_user = record {
  method = true;
  project_id = false;
  user_id = true;
  role = false;
  path_params = codes "id" ∷ [];
  query_params = codes "page" ∷ [];
  headers = [];
}

abbrev project_tag : CacheTagSpec
project_tag = record {
  name = codes "project";
  path_params = [];
  project_id = false;
  user_id = false;
  literals = [];
}

abbrev template : ReadKeyTemplate
template = record {
  route_part = [];
  vary_by = vary_by_user;
  tag_specs = project_tag ∷ [];
  allow_authenticated = true;
}

abbrev server_at : ℕ → CacheState ℕ
server_at n = record { server = n; tokens = []; now = 0 }

names_folded :
    normalized_names (codes " B" ∷ codes "a" ∷ codes "b " ∷ []) ≡ codes "a" ∷ codes "B" ∷ []
unfolding normalized_names
names_folded = refl

escaped : query_escape (codes "a b|c") ≡ codes "a+b%7Cc"
unfolding query_escape
escaped = refl

tag_of_path :
    resolve_tag_names
      (request_of (codes "u1"))
      (record project_tag { path_params = codes "id" ∷ []; project_id = true } ∷ [])
    ≡ ok (codes "project|path.id=a+b|project=p1" ∷ [])
unfolding resolve_tag_names
tag_of_path = refl

tag_without_value :
    resolve_tag_names
      (request_of (codes "u1"))
      (record project_tag { path_params = codes "slug" ∷ [] } ∷ [])
    ≡ err (missing_path_param (codes "slug"))
unfolding resolve_tag_names
tag_without_value = refl

-- Of a cursor only the presence is hashed: two pages have one hash.
pages_alike :
    query_param_hash_selected (λ s. s) (λ q. codes "djE6MjA" ∷ []) (codes "cursor" ∷ [])
    ≡ query_param_hash_selected (λ s. s) (λ q. codes "djE6NDA" ∷ []) (codes "cursor" ∷ [])
unfolding query_param_hash_selected
pages_alike = refl

token_kept :
    (tag_version_token one_counter manager (codes "project" ∷ []) (record (server_at 7) {
      tokens =
          (tag_version_token one_counter manager (codes "project" ∷ []) (server_at 3)).1.tokens;
    })).0
    ≡ ok (codes "project=3")
unfolding tag_version_token counter_value
token_kept = refl

abbrev key_after : Text
key_after =
    read_key (λ s. s) manager (request_of (codes "u1")) (codes "/items") template
      (codes "project=4")

bump_tags-build_read_key_with_template_example :
    (key_after
      ≢ read_key
          (λ s. s)
          manager
          (request_of (codes "u1"))
          (codes "/items")
          template
          (token_text (codes "project" ∷ []) (λ t. 3)))
    ⊎ Collides (λ s. s)
unfolding bump_tags build_read_key_with_template counter_value one_counter-CounterLaws
bump_tags-build_read_key_with_template_example =
    bump_tags-build_read_key_with_template one_counter one_counter-CounterLaws manager (λ s. s)
      (request_of (codes "u1")) (codes "/items") template (codes "project" ∷ [])
      (codes "project" ∷ []) (codes "project") (server_at 3) (server_at 4)
      (tag_version_token one_counter manager (codes "project" ∷ []) (server_at 4)).1 key_after
      (λ t. 3) refl refl refl refl refl (omega arith)

tag_version_token-IsOld_example :
    IsOld
      (version_at one_counter one_counter-CounterLaws manager (server_at 4))
      (join_texts 31 (codes "project" ∷ []))
      (codes "project=4")
unfolding bump_tags tag_version_token counter_value
tag_version_token-IsOld_example =
    tag_version_token-IsOld one_counter one_counter-CounterLaws manager (server_at 3) (server_at 4)
      (tag_version_token one_counter manager (codes "project" ∷ []) (server_at 4)).1
      (codes "project") [] (codes "project=4")
      (next (server_at 3) (server_at 3) (server_at 4) (start (server_at 3))
        (bump (codes "project" ∷ []) (server_at 3)))
      refl refl

caller-IsPlain : IsPlain (request_of (codes "u1"))
unfolding to_upper trim_space
caller-IsPlain = record {
  method = (omega arith, (omega arith, (omega arith, tt)));
  project_id = (omega arith, (omega arith, tt));
  user_id = (omega arith, (omega arith, tt));
  role = (omega arith, (omega arith, (omega arith, (omega arith, (omega arith, tt)))));
}

read_key-caller_of_example :
    (caller_of template (request_of (codes "u1")) ≡ caller_of template (request_of (codes "u1")))
    ⊎ Collides (λ s. s)
read_key-caller_of_example =
    read_key-caller_of (λ s. s) template manager (codes "/items") (request_of (codes "u1"))
      (request_of (codes "u1")) (codes "project=4") (codes "project=4") caller-IsPlain
      caller-IsPlain refl
