-- ===== src/Cache/Tests/OneCounter.antt =====
-- A Redis with one counter, as internal/core/cache/manager.go calls it, and the laws of its counters.
use mathlib.Core.Path.{subst}
use projectbook_backend.Base.{
  ℕ, suc, ◌+◌, ◌≤◌, ltb, ◌≡◌, refl, sym, ap, inl, inr, if◌then◌else◌, map, Bool, true, false, ◌&&◌,
  none, List, [], ◌∷◌, Result, ok, err, arith, Bool-cases,
}
use projectbook_backend.Text.{Text, codes, text_eq}
use projectbook_backend.Text.Laws.{text_eq_iff}
use projectbook_backend.Text.Decimal.{max_int}
use projectbook_backend.Cache.Store.{RedisClient}
use projectbook_backend.Cache.Versions.{counter_value}
use projectbook_backend.Cache.Counters.{CounterLaws, occurrences}

-- The key of the only counter.
abbrev counter_key : Text
counter_key = codes "cver:dev:project"

abbrev capped : ℕ → ℕ
capped n = if ltb max_int n then max_int else n

abbrev one_count : ℕ → Text → ℕ
one_count w k = if text_eq k counter_key then capped w else 0

abbrev count_once : List Text → ℕ → Result (Unit {0}) (Unit {0}) × ℕ
count_once [] w = (err tt, w)
count_once (k ∷ []) w =
    if text_eq k counter_key && ltb w max_int then (ok tt, suc w) else (err tt, w)
count_once (k ∷ j ∷ ks) w = (err tt, w)

abbrev pub one_counter : RedisClient ℕ
one_counter = record {
  mget = λ ks w. (ok (map (λ k. counter_value (one_count w k)) ks), w);
  exec_incr = count_once;
  get = λ k w. (ok none, w);
  set = λ k v ttl w. (ok tt, w);
}

pub capped-bound : (b : Bool) (w : ℕ) → (if b then capped w else 0) ≤ max_int
capped-bound true w = ground arith
capped-bound false w = omega arith

capped_grows : (b : Bool) (w : ℕ) → (if b then capped w else 0) ≤ (if b then capped (suc w) else 0)
capped_grows true w = ground arith
capped_grows false w = omega arith

capped_step :
    (b : Bool) (w : ℕ)
    → ltb w max_int ≡ true
    → (if b then capped (suc w) else 0) ≡ (if b then capped w else 0) + (if b then 1 else 0)
capped_step true w h = ground arith
capped_step false w h = omega arith

both_true : (a b : Bool) → a && b ≡ true → (a ≡ true) × (b ≡ true)
both_true true true h = (refl, refl)
both_true true false h = cc
both_true false b h = cc

one_more :
    (j : Text) (w : ℕ) (k : Text)
    → (text_eq j counter_key ≡ true) × (ltb w max_int ≡ true)
    → one_count (suc w) k ≡ one_count w k + (if text_eq k j then 1 else 0)
one_more j w k (same, below) =
    subst (λ x. one_count (suc w) k ≡ one_count w k + (if text_eq k x then 1 else 0))
      (sym ((text_eq_iff j counter_key).0 same)) (capped_step (text_eq k counter_key) w below)

refused :
    (w w' : ℕ) → (p : Result (Unit {0}) (Unit {0}) × ℕ) → p ≡ (err tt, w) → p ≡ (ok tt, w') → ⊥
refused w w' p q h = cc

pub counted_once :
    (ks : List Text) (w w' : ℕ) (k : Text)
    → count_once ks w ≡ (ok tt, w')
    → one_count w' k ≡ one_count w k + occurrences k ks
unfolding occurrences
counted_once [] w w' k h = cc
counted_once (j ∷ i ∷ ks) w w' k h = cc
counted_once (j ∷ []) w w' k h = elim (Bool-cases (text_eq j counter_key && ltb w max_int)) [
  | inl e ↦
      let same : (ok tt, suc w) ≡ (ok tt, w') = rw e at h in
      let after : suc w ≡ w' = ap (λ p. p.1) same in
      subst (λ n. one_count n k ≡ one_count w k + (if text_eq k j then 1 else 0)) after
        (one_more j w k (both_true (text_eq j counter_key) (ltb w max_int) e))
  | inr e ↦ absurd (refused w w' (err tt, w) refl (rw e at h))
]

pub grown_once :
    (ks : List Text) (w : ℕ) (k : Text) → one_count w k ≤ one_count (count_once ks w).1 k
grown_once [] w k = omega arith
grown_once (j ∷ i ∷ ks) w k = omega arith
grown_once (j ∷ []) w k = elim (Bool-cases (text_eq j counter_key && ltb w max_int)) [
  | inl e ↦ rw e (capped_grows (text_eq k counter_key) w)
  | inr e ↦ rw e (omega arith)
]

pub same_answer : {A : Type 0} (x : Result (Unit {0}) A) {a b : A} → x ≡ ok a → x ≡ ok b → a ≡ b
same_answer x p q = cc

unfoldable pub one_counter-CounterLaws : CounterLaws one_counter
one_counter-CounterLaws = record {
  count = one_count;
  count-bound = λ w k. capped-bound (text_eq k counter_key) w;
  mget-count = λ ks w w' vals h. same_answer (ok vals) refl (sym (ap (λ p. p.0) h));
  mget-keeps = λ ks w. refl;
  incr-grows = grown_once;
  incr-count = counted_once;
}
