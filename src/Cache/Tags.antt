-- ===== src/Cache/Tags.antt =====
-- internal/core/cache/manager.go, resolveTagNamesPrepared and resolveTagName: the names of the tags of
-- a request. A request is read through the parameters of its path, its query and its headers.
use projectbook_backend.Base.{
  ℕ, ◌+◌, ◌/◌, ◌%◌, ltb, leb, ◌==◌, if◌then◌else◌, map, Bool, ◌&&◌, ◌||◌, Option, none, some, List,
  [], ◌∷◌, ◌++◌, Result, ok, err, ◌>>=◌,
}
use projectbook_backend.Text.{Text, codes, is_empty, trim_space}
use projectbook_backend.Text.Join.{join_texts}
use projectbook_backend.Text.Unique.{sort_texts, unique_strings}
use projectbook_backend.Policy.Http.{AuthContext}
use projectbook_backend.Cache.{CacheTagSpec, CacheTagLiteral}

-- What the manager reads of *http.Request; `principal` is auth.FromContext.
pub record KeyRequest : Type 0 where
  pub method : Text
  pub url_param : Text → Text
  pub query_values : Text → List Text
  pub header_values : Text → List Text
  pub principal : Option AuthContext

-- The principal of auth.FromContext, empty where there is none.
abbrev pub request_principal : KeyRequest → AuthContext
request_principal r = elim r.principal [
  | none ↦ record {
    user_id = [];
    project_id = [];
    role = [];
    permission_mask = 0;
    permissions = [];
  }
  | some a ↦ a
]

pub data KeyError : Type 0 where
  missing_path_param missing_project missing_user : Text → KeyError
  version_lookup_failed : KeyError

unfoldable pub is_unreserved : ℕ → Bool
is_unreserved c =
    leb 97 c && leb c 122
    || leb 65 c && leb c 90
    || leb 48 c && leb c 57
    || c == 45
    || c == 95
    || c == 46
    || c == 126

abbrev hex_digit : ℕ → ℕ
hex_digit v = if ltb v 10 then 48 + v else 55 + v

-- url.QueryEscape
unfoldable pub query_escape : Text → Text
unfolding is_unreserved
query_escape [] = []
query_escape (c ∷ s) =
    let rest = query_escape s in
    if is_unreserved c
    then c ∷ rest
    else if c == 32
    then 43 ∷ rest
    else 37 ∷ hex_digit (c / 16) ∷ hex_digit (c % 16) ∷ rest

unfoldable pub escape_tag_value : Text → Text
unfolding query_escape trim_space
escape_tag_value v = query_escape (trim_space v)

-- The loop over the parameters of the path.
unfoldable pub path_parts : KeyRequest → Text → List Text → Result KeyError (List Text)
unfolding escape_tag_value trim_space
path_parts r name [] = ok []
path_parts r name (p ∷ ps) =
    let rest = path_parts r name ps in
    let value = trim_space (r.url_param p) in
    if is_empty value
    then err (missing_path_param p)
    else rest >>= λ parts. ok ((codes "path." ++ p ++ codes "=" ++ escape_tag_value value) ∷ parts)

-- A part with an identifier of the principal, where the tag asks for it.
unfoldable pub identity_part : Bool → Text → Text → KeyError → Result KeyError (List Text)
unfolding escape_tag_value trim_space
identity_part wanted label value e =
    if wanted
    then (if is_empty (trim_space value)
        then err e
        else ok ((label ++ escape_tag_value (trim_space value)) ∷ []))
    else ok []

unfoldable pub literal_part : CacheTagLiteral → Text
unfolding escape_tag_value
literal_part l = codes "lit." ++ l.key ++ codes "=" ++ escape_tag_value l.value

unfoldable pub tag_name : Text → List Text → Text
unfolding join_texts sort_texts
tag_name name [] = name
tag_name name (p ∷ ps) = name ++ codes "|" ++ join_texts 124 (sort_texts (p ∷ ps))

-- resolveTagName, for a specification with a name.
unfoldable pub resolve_tag_name : KeyRequest → CacheTagSpec → Result KeyError Text
unfolding path_parts identity_part literal_part tag_name
resolve_tag_name r spec = do
  paths ← path_parts r spec.name spec.path_params
  project ←
      identity_part spec.project_id (codes "project=") (request_principal r).project_id
        (missing_project spec.name)
  user ←
      identity_part spec.user_id (codes "user=") (request_principal r).user_id
        (missing_user spec.name)
  ok (tag_name spec.name (paths ++ project ++ user ++ map literal_part spec.literals))

-- The loop of resolveTagNamesPrepared; a specification without a name has no tag.
unfoldable pub resolve_each : KeyRequest → List CacheTagSpec → Result KeyError (List Text)
unfolding resolve_tag_name
resolve_each r [] = ok []
resolve_each r (spec ∷ specs) =
    let rest = resolve_each r specs in
    if is_empty spec.name then rest else do
      tag ← resolve_tag_name r spec
      tags ← rest
      ok (if is_empty tag then tags else tag ∷ tags)

-- resolveTagNamesPrepared, ResolveTagNames
unfoldable pub resolve_tag_names : KeyRequest → List CacheTagSpec → Result KeyError (List Text)
unfolding resolve_each unique_strings
resolve_tag_names r specs = do tags ← resolve_each r specs; ok (unique_strings tags)
