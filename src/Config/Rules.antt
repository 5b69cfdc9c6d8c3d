-- ===== src/Config/Rules.antt =====
-- internal/core/config/config.go, Lint: a rule is a condition that is refused, and the error; and the
-- comparisons that rules are made of.
use Prim.Native.String.{String}
use projectbook_backend.Base.{
  ltb, ◌==◌, Bool, true, false, List, [], ◌∷◌, any, Result, ok, err, if◌then◌else◌,
}
use projectbook_backend.Text.{Text, codes, text_eq, is_empty, trim_space}
use projectbook_backend.Text.Decimal.{ℤ, pos, negsuc}
use projectbook_backend.Config.{Ratio, not_a_number, below_zero, unit_interval, above_one}

-- The message of an error; with the value that it names, or the variable.
pub data LintError : Type 0 where
  failed : String → LintError
  failed_at : String → Text → LintError
  invalid_variable : Text → LintError

abbrev pub LintRule : Type 0
LintRule = Bool × LintError

-- The early returns in order.
unfoldable pub first_failure : List LintRule → Result LintError (Unit {0})
first_failure [] = ok tt
first_failure ((refused, e) ∷ rules) =
    let rest = first_failure rules in if refused then err e else rest

unfoldable pub at_most_zero : ℤ → Bool
at_most_zero (pos n) = n == 0
at_most_zero (negsuc n) = true

unfoldable pub is_below_zero : ℤ → Bool
is_below_zero (pos n) = false
is_below_zero (negsuc n) = true

-- `a > b`
unfoldable pub greater : ℤ → ℤ → Bool
greater (pos a) (pos b) = ltb b a
greater (pos a) (negsuc b) = true
greater (negsuc a) (pos b) = false
greater (negsuc a) (negsuc b) = ltb a b

-- `r < 0 || r > 1`, which a NaN is not.
unfoldable pub is_outside_unit : Ratio → Bool
is_outside_unit not_a_number = false
is_outside_unit below_zero = true
is_outside_unit unit_interval = false
is_outside_unit above_one = true

abbrev pub is_blank : Text → Bool
is_blank s = is_empty (trim_space s)

unfoldable pub starts_with_slash : Text → Bool
starts_with_slash [] = false
starts_with_slash (c ∷ s) = c == 47

-- containsWildcard
unfoldable pub contains_wildcard : List Text → Bool
unfolding text_eq trim_space
contains_wildcard items = any (λ s. text_eq (trim_space s) (codes "*")) items
