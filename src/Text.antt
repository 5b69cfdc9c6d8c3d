-- ===== src/Text.antt =====
-- Go strings and the functions of package strings that the program calls: TrimSpace, ToLower,
-- EqualFold, HasPrefix, Join. A text is the list of its bytes; white space and letter case are
-- those of ASCII.
pub mod Laws
pub mod Unique
pub mod Join
pub mod Decimal
pub mod Base64
use Prim.Native.Char.{code}
use Prim.Native.String
use Prim.Native.String.{String}
use projectbook_backend.Base.{
  ℕ, ◌+◌, ◌-◌, leb, ◌==◌, if◌then◌else◌, Bool, true, false, ◌&&◌, ◌||◌, List, [], ◌∷◌, ◌++◌,
}

abbrev pub Text : Type 0
Text = List ℕ

-- The bytes of a literal.
abbrev pub codes : String → Text
codes String.[] = []
codes (String.◌∷◌ c s) = code c ∷ codes s

-- `a == b` on strings.
unfoldable pub text_eq : Text → Text → Bool
text_eq [] [] = true
text_eq (a ∷ s) (b ∷ t) = a == b && text_eq s t
text_eq [] (b ∷ t) = false
text_eq (a ∷ s) [] = false

-- Tab, newline, vertical tab, form feed, carriage return, space.
unfoldable pub is_space : ℕ → Bool
is_space c = (leb 9 c && leb c 13) || c == 32

unfoldable pub trim_left : Text → Text
unfolding is_space
trim_left [] = []
trim_left (c ∷ s) = if is_space c then trim_left s else c ∷ s

-- A byte before a trimmed rest.
unfoldable pub keep : ℕ → Text → Text
unfolding is_space
keep c [] = if is_space c then [] else c ∷ []
keep c (d ∷ s) = c ∷ d ∷ s

unfoldable pub trim_right : Text → Text
unfolding keep
trim_right [] = []
trim_right (c ∷ s) = keep c (trim_right s)

-- strings.TrimSpace
unfoldable pub trim_space : Text → Text
unfolding trim_left trim_right
trim_space s = trim_left (trim_right s)

unfoldable pub lower_byte : ℕ → ℕ
lower_byte c = if leb 65 c && leb c 90 then c + 32 else c

-- strings.ToLower
unfoldable pub to_lower : Text → Text
unfolding lower_byte
to_lower [] = []
to_lower (c ∷ s) = lower_byte c ∷ to_lower s

unfoldable pub upper_byte : ℕ → ℕ
upper_byte c = if leb 97 c && leb c 122 then c - 32 else c

-- strings.ToUpper
unfoldable pub to_upper : Text → Text
unfolding upper_byte
to_upper [] = []
to_upper (c ∷ s) = upper_byte c ∷ to_upper s

-- strings.EqualFold
unfoldable pub equal_fold : Text → Text → Bool
unfolding to_lower text_eq
equal_fold s t = text_eq (to_lower s) (to_lower t)

-- `s == ""`
abbrev pub is_empty : Text → Bool
is_empty [] = true
is_empty (c ∷ s) = false

-- strings.HasPrefix(s, p)
unfoldable pub has_prefix : Text → Text → Bool
has_prefix s [] = true
has_prefix [] (b ∷ p) = false
has_prefix (a ∷ s) (b ∷ p) = a == b && has_prefix s p

-- strings.Contains(s, p)
unfoldable pub contains_text : Text → Text → Bool
unfolding has_prefix
contains_text [] p = is_empty p
contains_text (a ∷ s) p = has_prefix (a ∷ s) p || contains_text s p

-- Membership in a set of strings, the `map[string]struct{}` of Go.
unfoldable pub mem_text : Text → List Text → Bool
unfolding text_eq
mem_text s [] = false
mem_text s (t ∷ ts) = text_eq s t || mem_text s ts
