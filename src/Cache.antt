-- ===== src/Cache.antt =====
-- internal/core/cache/manager.go: the configuration of a cached route and its normal form. The tags
-- are in Cache.Tags, the versions in Cache.Store and the keys in Cache.Key.
pub mod Tags
pub mod Store
pub mod Key
pub mod Versions
pub mod Counters
pub mod Digest
pub mod Fresh
pub mod Old
pub mod Coherence
pub mod Isolation
mod Tests
use projectbook_backend.Base.{
  ◌==◌, if◌then◌else◌, map, take, Bool, true, false, ◌||◌, List, [], ◌∷◌, ◌++◌,
}
use projectbook_backend.Text.{Text, codes, text_eq, is_empty, trim_space, to_lower, mem_text}
use projectbook_backend.Text.Unique.{text_lt}
use projectbook_backend.Text.Join.{join_texts}
use projectbook_backend.RateLimit.{replace_bytes, normalize_route}

-- CacheVaryBy
pub record CacheVaryBy : Type 0 where
  pub method : Bool
  pub project_id : Bool
  pub user_id : Bool
  pub role : Bool
  pub path_params : List Text
  pub query_params : List Text
  pub headers : List Text

-- CacheTagLiteral
pub record CacheTagLiteral : Type 0 where
  pub key : Text
  pub value : Text

-- CacheTagSpec
pub record CacheTagSpec : Type 0 where
  pub name : Text
  pub path_params : List Text
  pub project_id : Bool
  pub user_id : Bool
  pub literals : List CacheTagLiteral

-- The parts of CacheReadConfig that a key is built from.
pub record KeyConfig : Type 0 where
  pub key : Text
  pub tag_specs : List CacheTagSpec
  pub vary_by : CacheVaryBy
  pub allow_authenticated : Bool

-- ReadKeyTemplate
pub record ReadKeyTemplate : Type 0 where
  pub route_part : Text
  pub vary_by : CacheVaryBy
  pub tag_specs : List CacheTagSpec
  pub allow_authenticated : Bool

-- sort.Slice, of elements that are equal where neither is less.
unfoldable pub insert_by {ℓ} : {A : Type ℓ} → (A → A → Bool) → A → List A → List A
insert_by less x [] = x ∷ []
insert_by less x (y ∷ ys) =
    let rest = insert_by less x ys in if less y x then y ∷ rest else x ∷ y ∷ ys

unfoldable pub sort_by {ℓ} : {A : Type ℓ} → (A → A → Bool) → List A → List A
unfolding insert_by
sort_by less [] = []
sort_by less (x ∷ xs) = insert_by less x (sort_by less xs)

-- The loop of normalizedNames: names that differ in letter case only are kept once.
unfoldable pub fold_names : List Text → List Text → List Text
unfolding trim_space to_lower mem_text
fold_names seen [] = []
fold_names seen (item ∷ items) =
    let trimmed = trim_space item in
    let skipped = is_empty trimmed || mem_text (to_lower trimmed) seen in
    let rest = fold_names (if skipped then seen else to_lower trimmed ∷ seen) items in
    if skipped then rest else trimmed ∷ rest

unfoldable pub name_lt : Text → Text → Bool
unfolding to_lower text_lt text_eq
name_lt a b =
    if text_eq (to_lower a) (to_lower b) then text_lt a b else text_lt (to_lower a) (to_lower b)

-- normalizedNames
unfoldable pub normalized_names : List Text → List Text
unfolding fold_names name_lt sort_by
normalized_names items = sort_by name_lt (fold_names [] items)

-- The loops that keep a sorted element unless its key is that of the one kept before.
unfoldable pub dedup_by {ℓ} : {A : Type ℓ} → (A → Text) → Text → List A → List A
unfolding text_eq
dedup_by key last [] = []
dedup_by key last (x ∷ xs) =
    let same = text_eq (key x) last in
    let rest = dedup_by key (if same then last else key x) xs in if same then rest else x ∷ rest

-- The loop of normalizeTagLiterals.
unfoldable pub trimmed_literals : List CacheTagLiteral → List CacheTagLiteral
unfolding trim_space to_lower
trimmed_literals [] = []
trimmed_literals (item ∷ items) =
    let k = trim_space (to_lower item.key) in
    let v = trim_space item.value in
    let rest = trimmed_literals items in
    if is_empty k || is_empty v then rest else record { key = k; value = v } ∷ rest

unfoldable pub literal_lt : CacheTagLiteral → CacheTagLiteral → Bool
unfolding text_eq text_lt
literal_lt a b = if text_eq a.key b.key then text_lt a.value b.value else text_lt a.key b.key

unfoldable pub literal_key : CacheTagLiteral → Text
literal_key l = l.key ++ codes "=" ++ l.value

-- normalizeTagLiterals
unfoldable pub normalize_tag_literals : List CacheTagLiteral → List CacheTagLiteral
unfolding trimmed_literals literal_lt literal_key sort_by dedup_by
normalize_tag_literals items = dedup_by literal_key [] (sort_by literal_lt (trimmed_literals items))

-- normalizeTagName
unfoldable pub normalize_tag_name : Text → Text
unfolding trim_space to_lower replace_bytes
normalize_tag_name name = take 120 (replace_bytes (λ c. c == 32) (trim_space (to_lower name)))

abbrev when : Bool → Text → List Text
when b s = if b then s ∷ [] else []

-- tagSpecKey
unfoldable pub tag_spec_key : CacheTagSpec → Text
unfolding join_texts literal_key
tag_spec_key spec = join_texts 124 (
    (spec.name ∷ map (λ p. codes "path." ++ p) spec.path_params)
    ++ when spec.project_id (codes "project")
    ++ when spec.user_id (codes "user")
    ++ map (λ l. codes "lit." ++ literal_key l) spec.literals)

unfoldable pub prepared_specs : List CacheTagSpec → List CacheTagSpec
unfolding normalize_tag_name normalized_names normalize_tag_literals
prepared_specs [] = []
prepared_specs (spec ∷ specs) =
    let name = normalize_tag_name spec.name in
    let rest = prepared_specs specs in
    if is_empty name
    then rest
    else record {
      name = name;
      path_params = normalized_names spec.path_params;
      project_id = spec.project_id;
      user_id = spec.user_id;
      literals = normalize_tag_literals spec.literals;
    }
      ∷ rest

-- normalizeTagSpecs, PrepareTagSpecs
unfoldable pub normalize_tag_specs : List CacheTagSpec → List CacheTagSpec
unfolding prepared_specs tag_spec_key text_lt sort_by dedup_by
normalize_tag_specs specs =
    dedup_by tag_spec_key []
      (sort_by (λ a b. text_lt (tag_spec_key a) (tag_spec_key b)) (prepared_specs specs))

-- PrepareReadKeyTemplate
unfoldable pub prepare_read_key_template : KeyConfig → ReadKeyTemplate
unfolding normalize_route trim_space normalized_names normalize_tag_specs
prepare_read_key_template c = record {
  route_part = if is_empty (trim_space c.key) then [] else normalize_route (trim_space c.key);
  vary_by = record c.vary_by {
    path_params = normalized_names c.vary_by.path_params;
    query_params = normalized_names c.vary_by.query_params;
    headers = normalized_names c.vary_by.headers;
  };
  tag_specs = normalize_tag_specs c.tag_specs;
  allow_authenticated = c.allow_authenticated;
}
