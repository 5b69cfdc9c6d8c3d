-- ===== src/Cache/Key.antt =====
-- internal/core/cache/manager.go, BuildReadKeyWithTemplate and queryParamHashSelected: the key that a
-- response is stored under. The digest of SHA-256, cut to 32 hexadecimal digits, is a parameter.
use projectbook_backend.Base.{
  if◌then◌else◌, map, any, Bool, true, false, not, ◌&&◌, ◌||◌, none, some, List, [], ◌∷◌, ◌++◌,
  Result, ok, err,
}
use projectbook_backend.Text.{Text, codes, text_eq, is_empty, trim_space, to_lower, to_upper}
use projectbook_backend.Text.Join.{join_texts}
use projectbook_backend.Text.Unique.{sort_texts}
use projectbook_backend.RateLimit.{normalize_route}
use projectbook_backend.Cache.{ReadKeyTemplate, KeyConfig, prepare_read_key_template}
use projectbook_backend.Cache.Tags.{KeyRequest, request_principal, KeyError, resolve_tag_names}
use projectbook_backend.Cache.Store.{RedisClient, Manager, CacheState, tag_version_token}

-- strings.HasSuffix
unfoldable pub has_suffix : Text → Text → Bool
unfolding text_eq
has_suffix [] suffix = text_eq [] suffix
has_suffix (c ∷ s) suffix = text_eq (c ∷ s) suffix || has_suffix s suffix

-- isCursorLikeQueryParam
unfoldable pub is_cursor_like_query_param : Text → Bool
unfolding to_lower trim_space text_eq has_suffix
is_cursor_like_query_param name =
    let normalized = to_lower (trim_space name) in
    text_eq normalized (codes "cursor") || has_suffix normalized (codes ".cursor")

-- The values of a parameter as they enter the hash: of a cursor, only whether there is one.
unfoldable pub hashed_values : Text → List Text → List Text
unfolding is_cursor_like_query_param trim_space sort_texts
hashed_values name vals =
    if is_cursor_like_query_param name
    then (if any (λ v. not (is_empty (trim_space v))) vals then codes "__present__" ∷ [] else [])
    else sort_texts vals

unfoldable pub query_parts : (Text → List Text) → List Text → List Text
unfolding hashed_values join_texts
query_parts values names =
    map (λ name. name ++ (61 ∷ join_texts 44 (hashed_values name (values name)))) names

-- A value of the key, where the template asks for it.
abbrev pub when_asked : Bool → Text → Text → List Text
when_asked b label value = if b then (label ++ value) ∷ [] else []

unfoldable pub has_principal : KeyRequest → Bool
has_principal r = elim r.principal [ none ↦ false | some a ↦ true ]

-- The route of the template, or else that of the request.
unfoldable pub route_part_of : Text → ReadKeyTemplate → Text
unfolding trim_space normalize_route
route_part_of route t =
    if is_empty (trim_space t.route_part) then normalize_route route else trim_space t.route_part

module _ (digest : Text → Text) where
  -- queryParamHashSelected
  unfoldable pub query_param_hash_selected : (Text → List Text) → List Text → Text
  unfolding query_parts join_texts
  query_param_hash_selected values [] = []
  query_param_hash_selected values (n ∷ ns) = digest (join_texts 38 (query_parts values (n ∷ ns)))

  -- The values behind those of the caller: the path, the headers, the query and the mark of
  -- authenticated callers.
  unfoldable pub request_values : KeyRequest → ReadKeyTemplate → List Text
  unfolding query_param_hash_selected trim_space join_texts has_principal
  request_values r t =
      let hash = query_param_hash_selected r.query_values t.vary_by.query_params in
      map (λ p. codes "path." ++ p ++ (61 ∷ trim_space (r.url_param p))) t.vary_by.path_params
      ++ map (λ h. codes "header." ++ h ++ (61 ∷ join_texts 44 (r.header_values h)))
          t.vary_by.headers
      ++ when_asked (not (is_empty hash)) (codes "query_hash=") hash
      ++ when_asked (has_principal r && t.allow_authenticated) (codes "auth=") (codes "allowed")

  -- The values of a key but for its tags.
  unfoldable pub key_values : KeyRequest → Text → ReadKeyTemplate → List Text
  unfolding request_values to_upper trim_space
  key_values r route_part t =
      let a = request_principal r in
      (codes "route=" ++ route_part)
      ∷ (when_asked t.vary_by.method (codes "method=") (to_upper (trim_space r.method))
          ++ (when_asked t.vary_by.project_id (codes "project=") (trim_space a.project_id)
              ++ (when_asked t.vary_by.user_id (codes "user=") (trim_space a.user_id)
                  ++ (when_asked t.vary_by.role (codes "role=") (trim_space a.role)
                      ++ request_values r t))))

  -- The text that is hashed.
  unfoldable pub canonical_text : KeyRequest → Text → ReadKeyTemplate → Text → Text
  unfolding key_values join_texts
  canonical_text r route_part t token =
      join_texts 124
        (key_values r route_part t ++ when_asked (not (is_empty token)) (codes "tags=") token)

  -- `fmt.Sprintf("cache:%s:%s:%s", m.env, routePart, shortHash)`
  unfoldable pub read_key : Manager → KeyRequest → Text → ReadKeyTemplate → Text → Text
  unfolding canonical_text route_part_of
  read_key m r route t token =
      let route_part = route_part_of route t in
      codes "cache:"
      ++ (m.env ++ (58 ∷ (route_part ++ (58 ∷ digest (canonical_text r route_part t token)))))

  module _ {W : Type 0} (redis : RedisClient W) (m : Manager) where
    abbrev pub key_of_token :
        KeyRequest
        → Text
        → ReadKeyTemplate
        → Result KeyError Text × CacheState W
        → Result KeyError Text × CacheState W
    key_of_token r route t (ok token, st) = (ok (read_key m r route t token), st)
    key_of_token r route t (err e, st) = (err e, st)

    unfoldable pub key_of_tags :
        KeyRequest
        → Text
        → ReadKeyTemplate
        → CacheState W
        → Result KeyError (List Text)
        → Result KeyError Text × CacheState W
    unfolding tag_version_token read_key
    key_of_tags r route t st (err e) = (err e, st)
    key_of_tags r route t st (ok tags) = key_of_token r route t (tag_version_token redis m tags st)

    -- BuildReadKeyWithTemplate
    unfoldable pub build_read_key_with_template :
        KeyRequest → Text → ReadKeyTemplate → CacheState W → Result KeyError Text × CacheState W
    unfolding key_of_tags resolve_tag_names
    build_read_key_with_template r route t st =
        key_of_tags r route t st (resolve_tag_names r t.tag_specs)

    -- BuildReadKey
    unfoldable pub build_read_key :
        KeyRequest → Text → KeyConfig → CacheState W → Result KeyError Text × CacheState W
    unfolding build_read_key_with_template prepare_read_key_template
    build_read_key r route c st =
        build_read_key_with_template r route (prepare_read_key_template c) st
