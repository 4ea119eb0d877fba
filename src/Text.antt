-- ===== src/Text.antt =====
-- What the program uses of Go's strings, strconv and unicode packages. A text is the list of its
-- code points; Go's strings are bytes, and one that is not UTF-8 is not modelled.
pub mod Laws
pub mod Address
pub mod Table
pub mod Numbers
use Prim.Native.Char.{code}
use Prim.Native.String.{String}
use easywall.Prelude.{
  ℕ, ◌+◌, ◌-◌, ◌*◌, Bool, true, false, not, ◌&&◌, ◌||◌, Option, none, some, List, [], ◌∷◌, ltb, leb,
  ◌==◌, if◌then◌else◌, is_nil,
}

abbrev pub Text : Type 0
Text = List ℕ

abbrev pub codes : String → Text
codes String.[] = []
codes (String.◌∷◌ c s) = code c ∷ codes s

-- s == t
unfoldable pub same : Text → Text → Bool
same [] [] = true
same [] (d ∷ ds) = false
same (c ∷ cs) [] = false
same (c ∷ cs) (d ∷ ds) = c == d && same cs ds

-- Whether a list of texts, the keys of a Go map[string]bool, has an entry.
unfoldable pub contains : Text → List Text → Bool
contains x [] = false
contains x (y ∷ ys) = same x y || contains x ys

-- unicode.IsSpace
unfoldable pub is_space : ℕ → Bool
is_space c =
    (leb 9 c && leb c 13)
    || c == 32
    || c == 0x85
    || c == 0xa0
    || c == 0x1680
    || (leb 0x2000 c && leb c 0x200a)
    || c == 0x2028
    || c == 0x2029
    || c == 0x202f
    || c == 0x205f
    || c == 0x3000

trim_left : Text → Text
trim_left [] = []
trim_left (c ∷ cs) = if is_space c then trim_left cs else c ∷ cs

trim_right : Text → Text
trim_right [] = []
trim_right (c ∷ cs) = let r = trim_right cs in if is_nil r && is_space c then [] else c ∷ r

-- strings.TrimSpace
unfoldable pub trim_space : Text → Text
unfolding trim_left trim_right is_space
trim_space s = trim_right (trim_left s)

-- strings.HasPrefix
unfoldable pub has_prefix : Text → Text → Bool
has_prefix s [] = true
has_prefix [] (p ∷ ps) = false
has_prefix (c ∷ cs) (p ∷ ps) = c == p && has_prefix cs ps

abbrev with_first : ℕ → Option (Text × Text) → Option (Text × Text)
with_first c none = none
with_first c (some (a, b)) = some (c ∷ a, b)

-- strings.Cut at a separator of one character.
unfoldable pub cut : ℕ → Text → Option (Text × Text)
cut sep [] = none
cut sep (c ∷ cs) = let rest = with_first c (cut sep cs) in if c == sep then some ([], cs) else rest

abbrev has_char : ℕ → Text → Bool
has_char d [] = false
has_char d (e ∷ es) = d == e || has_char d es

-- strings.ContainsAny, which is IndexAny >= 0; `set` lists the characters.
unfoldable pub contains_any : Text → Text → Bool
contains_any [] set = false
contains_any (c ∷ cs) set = has_char c set || contains_any cs set

-- A Go int. `negsuc n` is -(n + 1).
pub data ℤ : Type 0 where
  pos : ℕ → ℤ
  negsuc : ℕ → ℤ

unfoldable pub is_digit : ℕ → Bool
is_digit c = leb b'0' c && leb c b'9'

unfoldable pub parse_digits : ℕ → Text → Option ℕ
unfolding is_digit
parse_digits acc [] = some acc
parse_digits acc (c ∷ cs) =
    let rest = parse_digits (acc * 10 + (c - b'0')) cs in if is_digit c then rest else none

-- The digits behind the sign: at least one, and a value that an int holds.
unsigned : ℕ → Text → Option ℕ
unfolding parse_digits
unsigned limit [] = none
unsigned limit (c ∷ cs) = elim (parse_digits 0 (c ∷ cs)) [
  | none ↦ none
  | some n ↦ if leb n limit then some n else none
]

abbrev pub max_int : ℕ
max_int = 9223372036854775807

abbrev negate : ℕ → ℤ
negate ℕ.zero = pos 0
negate (ℕ.suc n) = negsuc n

negative : Text → Option ℤ
unfolding unsigned
negative cs = elim (unsigned (max_int + 1) cs) [ none ↦ none | some n ↦ some (negate n) ]

positive : Text → Option ℤ
unfolding unsigned
positive cs = elim (unsigned max_int cs) [ none ↦ none | some n ↦ some (pos n) ]

-- strconv.Atoi, with its error dropped.
unfoldable pub atoi : Text → Option ℤ
unfolding positive negative
atoi [] = none
atoi (c ∷ cs) =
    if c == b'-' then negative cs else if c == b'+' then positive cs else positive (c ∷ cs)
