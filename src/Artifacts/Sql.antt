-- ===== src/Artifacts/Sql.antt =====
-- The three-valued conditions of the UPDATE statements in internal/modules/artifacts/repo.go. NULL is
-- `none`; a row is updated only where the condition holds.
use projectbook_backend.Base.{Bool, true, false, Option, none, some, if◌then◌else◌}

pub data Truth : Type 0 where
  holds fails unknown : Truth

unfoldable pub sql_bool : Bool → Truth
sql_bool true = holds
sql_bool false = fails

unfoldable pub sql_or : Truth → Truth → Truth
sql_or holds q = holds
sql_or fails q = q
sql_or unknown holds = holds
sql_or unknown fails = unknown
sql_or unknown unknown = unknown

unfoldable pub sql_and : Truth → Truth → Truth
sql_and fails q = fails
sql_and holds q = q
sql_and unknown fails = fails
sql_and unknown holds = unknown
sql_and unknown unknown = unknown

unfoldable pub sql_not : Truth → Truth
sql_not holds = fails
sql_not fails = holds
sql_not unknown = unknown

unfoldable pub is_true : Truth → Bool
is_true holds = true
is_true fails = false
is_true unknown = false

module _ {ℓ} {A : Type ℓ} where
  -- `a = b`, from the equality of the type.
  unfoldable pub sql_eq : (A → A → Bool) → Option A → Option A → Truth
  unfolding sql_bool
  sql_eq eq (some a) (some b) = sql_bool (eq a b)
  sql_eq eq none b = unknown
  sql_eq eq (some a) none = unknown

  -- `a <> b`
  unfoldable pub sql_ne : (A → A → Bool) → Option A → Option A → Truth
  unfolding sql_eq sql_not
  sql_ne eq a b = sql_not (sql_eq eq a b)

  unfoldable pub is_not_null : Option A → Truth
  is_not_null none = fails
  is_not_null (some a) = holds

  unfoldable pub coalesce : Option A → A → A
  coalesce none d = d
  coalesce (some a) d = a

  -- CASE WHEN t THEN x ELSE y END
  unfoldable pub case_when : Truth → A → A → A
  unfolding is_true
  case_when t x y = if is_true t then x else y
