-- ===== src/Text.antt =====
-- JavaScript strings, as lists of UTF-16 code units, and the string operations of the language
-- that the sources use.
pub mod Equal
pub mod Trim
pub mod Split
pub mod Decimal
pub mod Sort
use mathlib.Core.Option
use Prim.Native.Char.{code}
use Prim.Native.String.{String}
use head_control.Common.{
  ℕ, zero, suc, Option, none, some, ◌+◌, Bool, true, false, ◌&&◌, ◌||◌, List, [], ◌∷◌, ◌++◌,
  reverse, leb, ◌==◌, if◌then◌else◌, length, all,
}

abbrev pub Text : Type 0
Text = List ℕ

-- The code units of a literal, all of which lie in the basic plane.
abbrev pub codes : String → Text
codes String.[] = []
codes (String.◌∷◌ c s) = code c ∷ codes s

-- `a === b`
unfoldable pub text_eq : Text → Text → Bool
text_eq [] [] = true
text_eq (a ∷ s) (b ∷ t) = a == b && text_eq s t
text_eq _ _ = false

-- `xs.includes(s)`
unfoldable pub includes : Text → List Text → Bool
includes s [] = false
includes s (x ∷ xs) = text_eq x s || includes s xs

-- What `\s` matches, which is what `trim` removes.
unfoldable pub is_space : ℕ → Bool
is_space c =
    (leb 9 c && leb c 13)
    || c == 32
    || c == 0xa0
    || c == 0x1680
    || (leb 0x2000 c && leb c 0x200a)
    || c == 0x2028
    || c == 0x2029
    || c == 0x202f
    || c == 0x205f
    || c == 0x3000
    || c == 0xfeff

unfoldable pub trim_start : Text → Text
trim_start [] = []
trim_start (c ∷ s) = let rest = trim_start s in if is_space c then rest else c ∷ s

-- `s.trim()`
unfoldable pub trim : Text → Text
unfolding trim_start is_space
trim s = reverse (trim_start (reverse (trim_start s)))

-- `s.startsWith(p)`
unfoldable pub starts_with : Text → Text → Bool
starts_with s [] = true
starts_with [] (b ∷ p) = false
starts_with (a ∷ s) (b ∷ p) = a == b && starts_with s p

-- `s.includes(p)` for texts
unfoldable pub contains : Text → Text → Bool
unfolding starts_with
contains [] p = starts_with [] p
contains (c ∷ s) p = starts_with (c ∷ s) p || contains s p

-- `s.includes(c)` for one code unit
unfoldable pub has_unit : ℕ → Text → Bool
has_unit c [] = false
has_unit c (x ∷ s) = x == c || has_unit c s

unfoldable pub attach : ℕ → List Text → List Text
attach c [] = (c ∷ []) ∷ []
attach c (p ∷ ps) = (c ∷ p) ∷ ps

-- `s.split(sep)` for a separator of one code unit
unfoldable pub split : ℕ → Text → List Text
unfolding attach
split sep [] = [] ∷ []
split sep (c ∷ s) = let rest = split sep s in if c == sep then [] ∷ rest else attach c rest

-- `xs.join(sep)`
unfoldable pub join : Text → List Text → Text
join sep [] = []
join sep (p ∷ []) = p
join sep (p ∷ q ∷ ps) = p ++ (sep ++ join sep (q ∷ ps))

unfoldable pub is_digit : ℕ → Bool
is_digit c = leb b'0' c && leb c b'9'

-- `/^\d{1,n}$/.test(s)`
unfoldable pub is_number : ℕ → Text → Bool
unfolding all is_digit
is_number n s = all is_digit s && (leb 1 (length s) && leb (length s) n)

-- `s.toLowerCase()` on the units below 128; the others keep their case here.
unfoldable pub lower : ℕ → ℕ
lower c = if leb b'A' c && leb c b'Z' then c + 32 else c

-- `s.indexOf(c)` and `s.lastIndexOf(c)` for one code unit; `none` is -1.
unfoldable pub index_of : ℕ → Text → Option ℕ
index_of c [] = none
index_of c (x ∷ s) = let rest = Option.map suc (index_of c s) in if x == c then some 0 else rest

unfoldable pub last_index_of : ℕ → Text → Option ℕ
last_index_of c [] = none
last_index_of c (x ∷ s) = elim (last_index_of c s) [
  | some i ↦ some (suc i)
  | none ↦ if x == c then some 0 else none
]

-- `s.slice(0, n)` and `s.slice(n)`
unfoldable pub take {ℓ} : {A : Type ℓ} → ℕ → List A → List A
take zero s = []
take (suc n) [] = []
take (suc n) (x ∷ s) = x ∷ take n s

unfoldable pub drop {ℓ} : {A : Type ℓ} → ℕ → List A → List A
drop zero s = s
drop (suc n) [] = []
drop (suc n) (x ∷ s) = drop n s
