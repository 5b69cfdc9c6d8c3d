-- ===== src/Permissions/Staleness.antt =====
-- A backfill never puts an older entry in the place of a newer one.
use projectbook_backend.Base.{
  ℕ, ◌≤◌, ◌≡◌, ◌≢◌, refl, sym, ap, ◌∙◌, Bool, true, false, Bool-cases, inl, inr, Option, none, some,
  List, [], ◌∷◌, arith,
}
use projectbook_backend.Text.{Text, text_eq, is_empty, trim_space}
use projectbook_backend.Text.Laws.{text_eq_iff, text_eq_self, is_empty_iff}
use projectbook_backend.Rbac.{lookup_text}
use projectbook_backend.Policy.Http.{Resolution}
use projectbook_backend.Permissions.{
  Entry, CacheMap, set_entry, entry_of, backfill_keys, canonical_key, is_newer, backfill_key,
  backfill_all, backfill, resolve_from_map, of_entry,
}

-- The project has an entry at least as new as the time.
abbrev pub HasSince : Text → ℕ → CacheMap → Type 0
HasSince k t m = (e : Entry) × (lookup_text k m ≡ some e) × (t ≤ e.updated_at_unix)

lookup_text-set_entry :
    (k : Text) (e : Entry) (m : CacheMap) → lookup_text k (set_entry k e m) ≡ some e
unfolding lookup_text set_entry
lookup_text-set_entry k e [] = ground (arith, text_eq_self k)
lookup_text-set_entry k e ((j, d) ∷ m) = ground (arith, text_eq_self k, lookup_text-set_entry k e m)

lookup_text-set_other :
    (j k : Text) (e : Entry) (m : CacheMap)
    → text_eq k j ≡ false
    → lookup_text j (set_entry k e m) ≡ lookup_text j m
unfolding lookup_text set_entry
lookup_text-set_other j k e [] h = ground arith
lookup_text-set_other j k e ((i, d) ∷ m) h = elim (Bool-cases (text_eq i k)) [
  | inl same ↦
      let here : text_eq i j ≡ false = ap (λ x. text_eq x j) ((text_eq_iff i k).0 same) ∙ h in
      ground (arith, same, here)
  | inr other ↦ ground (arith, other, lookup_text-set_other j k e m h)
]

not_newer :
    (o : Option Entry) (e : Entry) (res : Resolution)
    → o ≡ some e
    → is_newer o res ≡ false
    → e.updated_at_unix ≤ res.updated_at_unix
unfolding is_newer
not_newer none e res here older = cc
not_newer (some d) e res here older = ground arith

set_entry-HasSince :
    (res : Resolution) (k j : Text) (t : ℕ) (m : CacheMap)
    → is_newer (lookup_text k m) res ≡ false
    → HasSince j t m
    → HasSince j t (set_entry k (entry_of res) m)
unfolding entry_of
set_entry-HasSince res k j t m older (e, found, since) = elim (Bool-cases (text_eq k j)) [
  | inl same ↦
      let here : k ≡ j = (text_eq_iff k j).0 same in
      let late = not_newer (lookup_text k m) e res (ap (λ x. lookup_text x m) here ∙ found) older in
      (
        entry_of res,
        ap (λ x. lookup_text x (set_entry k (entry_of res) m)) (sym here)
            ∙ lookup_text-set_entry k (entry_of res) m,
        omega (arith, late, since),
      )
  | inr other ↦ (e, lookup_text-set_other j k (entry_of res) m other ∙ found, since)
]

backfill_key-HasSince :
    (res : Resolution) (key j : Text) (t : ℕ) (m : CacheMap) (changed : Bool)
    → HasSince j t m
    → HasSince j t (backfill_key res key (m, changed)).0
unfolding backfill_key
backfill_key-HasSince res key j t m changed since = elim (Bool-cases (is_empty (trim_space key))) [
  | inl blank ↦ rw blank since
  | inr filled ↦ elim (Bool-cases (is_newer (lookup_text (trim_space key) m) res)) [
    | inl newer ↦ rw (filled, newer) since
    | inr older ↦ rw (filled, older) (set_entry-HasSince res (trim_space key) j t m older since)
  ]
]

backfill_all-HasSince :
    (res : Resolution) (ks : List Text) (j : Text) (t : ℕ) (m : CacheMap) (changed : Bool)
    → HasSince j t m
    → HasSince j t (backfill_all res ks (m, changed)).0
unfolding backfill_all
backfill_all-HasSince res [] j t m changed since = since
backfill_all-HasSince res (k ∷ ks) j t m changed since =
    backfill_all-HasSince res ks j t (backfill_key res k (m, changed)).0
      (backfill_key res k (m, changed)).1 (backfill_key-HasSince res k j t m changed since)

-- A backfill keeps the cache from going back in time: a project that had an entry of some time or
-- later still has one afterwards, whatever the resolution.
pub backfill-HasSince :
    (project : Text) (res : Resolution) (m : CacheMap) (j : Text) (t : ℕ)
    → HasSince j t m
    → HasSince j t (backfill project res m).0
unfolding backfill
backfill-HasSince project res m j t since =
    backfill_all-HasSince res (backfill_keys project res) j t m false since

newer_entry :
    (o : Option Entry) (res : Resolution) (k : Text) (m : CacheMap)
    → lookup_text k m ≡ o
    → is_newer o res ≡ true
    → HasSince k res.updated_at_unix m
unfolding is_newer
newer_entry none res k m e h = cc
newer_entry (some d) res k m e h = (d, e, ground arith)

first_written :
    (res : Resolution) (key : Text) (m : CacheMap) (changed : Bool)
    → is_empty (trim_space key) ≡ false
    → HasSince (trim_space key) res.updated_at_unix (backfill_key res key (m, changed)).0
unfolding backfill_key entry_of
first_written res key m changed filled =
    elim (Bool-cases (is_newer (lookup_text (trim_space key) m) res)) [
      | inl newer ↦ rw (filled, newer) (newer_entry _ res (trim_space key) m refl newer)
      | inr older ↦
          rw (filled, older)
            (entry_of res, lookup_text-set_entry (trim_space key) (entry_of res) m, omega arith)
    ]

backfill-fresh :
    (project : Text) (res : Resolution) (m : CacheMap)
    → trim_space project ≢ []
    → HasSince (trim_space project) res.updated_at_unix (backfill project res m).0
unfolding backfill backfill_keys backfill_all
backfill-fresh project res m filled =
    let full : is_empty (trim_space project) ≡ false =
      ground (arith, is_empty_iff (trim_space project)) in
    backfill_all-HasSince res (canonical_key project res) (trim_space project) res.updated_at_unix
      (backfill_key res project (m, false)).0 (backfill_key res project (m, false)).1
      (first_written res project m false full)

of_entry-HasSince :
    (user j : Text) (t : ℕ) (o : Option Entry) (e : Entry)
    → o ≡ some e
    → t ≤ e.updated_at_unix
    → (r : Resolution) × (of_entry user j o ≡ some r) × (t ≤ r.updated_at_unix)
unfolding of_entry
of_entry-HasSince user j t none e here since = cc
of_entry-HasSince user j t (some d) e here since = (_, refl, ground arith)

resolve-HasSince :
    (user j : Text) (t : ℕ) (m : CacheMap)
    → HasSince j t m
    → (r : Resolution) × (resolve_from_map user j m ≡ some r) × (t ≤ r.updated_at_unix)
unfolding resolve_from_map
resolve-HasSince user j t m (e, found, since) =
    of_entry-HasSince user j t (lookup_text j m) e found since

-- After a backfill, a lookup of the project whose permissions were resolved finds an entry, and one
-- that is at least as new as the resolution.
pub resolve_from_map-backfill :
    (user project : Text) (res : Resolution) (m : CacheMap)
    → trim_space project ≢ []
    → (r : Resolution) × (resolve_from_map user (trim_space project) (backfill project res m).0
        ≡ some r)
      × (res.updated_at_unix ≤ r.updated_at_unix)
resolve_from_map-backfill user project res m filled =
    resolve-HasSince user (trim_space project) res.updated_at_unix (backfill project res m).0
      (backfill-fresh project res m filled)
