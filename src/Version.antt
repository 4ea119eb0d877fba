-- ===== src/Version.antt =====
-- internal/shared/version.go: version strings, their order, and the check for a newer release.
pub mod Order
pub mod Equal
use easywall.Prelude.{
  ℕ, suc, ◌+◌, Bool, true, false, ◌&&◌, ◌||◌, Option, none, some, List, [], ◌∷◌, ◌++◌, ltb, leb,
  ◌==◌, if◌then◌else◌, is_nil, length,
}
use easywall.Text.{Text, codes, same, trim_space, has_prefix, atoi, is_digit, ℤ, pos, negsuc}

-- The results -1, 0 and 1 of compareVersions.
pub data Sign : Type 0 where
  less equal more : Sign

-- strings.TrimPrefix(v, "v")
trim_v : Text → Text
trim_v [] = []
trim_v (c ∷ cs) = if c == b'v' then cs else c ∷ cs

abbrev ends_number : ℕ → Bool
ends_number c = c == b'-' || c == b'+'

-- What stands before the first of "-+", and what behind it.
before_mark : Text → Text
before_mark [] = []
before_mark (c ∷ cs) = let rest = before_mark cs in if ends_number c then [] else c ∷ rest

behind_mark : Text → Text
behind_mark [] = []
behind_mark (c ∷ cs) = let rest = behind_mark cs in if ends_number c then cs else rest

-- strings.Split(v, "."): the part that has begun, then the parts of the rest.
split_dots : Text → Text → List Text
split_dots part [] = part ∷ []
split_dots part (c ∷ cs) = elim (c == b'.') [
  | true ↦ part ∷ split_dots [] cs
  | false ↦ split_dots (part ++ (c ∷ [])) cs
]

abbrev non_negative : Option ℤ → Option ℕ
non_negative (some (pos n)) = some n
non_negative _ = none

numbers : List Text → Option (List ℕ)
numbers [] = some []
numbers (p ∷ ps) = elim (non_negative (atoi p)) [
  | none ↦ none
  | some n ↦ elim (numbers ps) [ none ↦ none | some ns ↦ some (n ∷ ns) ]
]

abbrev with_pre : Text → Option (List ℕ) → Option (List ℕ × Text)
with_pre pre none = none
with_pre pre (some ns) = some (ns, pre)

abbrev split_bare : Text → Option (List ℕ × Text)
split_bare v =
    if is_nil v then none else with_pre (behind_mark v) (numbers (split_dots [] (before_mark v)))

-- splitVersion; none is its false.
unfoldable pub split_version : Text → Option (List ℕ × Text)
unfolding trim_v before_mark behind_mark split_dots numbers
split_version v = split_bare (trim_v (trim_space v))

-- x against y, and what follows where they are the same.
abbrev pub then_by : ℕ → ℕ → Sign → Sign
then_by x y rest = if x == y then rest else if ltb x y then less else more

-- The loop over the numbers: one that is missing is 0.
unfoldable pub compare_numbers : List ℕ → List ℕ → Sign → Sign
compare_numbers [] [] rest = rest
compare_numbers (x ∷ xs) [] rest = then_by x 0 (compare_numbers xs [] rest)
compare_numbers [] (y ∷ ys) rest = then_by 0 y (compare_numbers [] ys rest)
compare_numbers (x ∷ xs) (y ∷ ys) rest = then_by x y (compare_numbers xs ys rest)

-- s < t on strings. The bytes of UTF-8 are ordered as the code points are.
unfoldable pub less_text : Text → Text → Bool
less_text s [] = false
less_text [] (d ∷ ds) = true
less_text (c ∷ cs) (d ∷ ds) = ltb c d || (c == d && less_text cs ds)

-- The switch behind the loop.
unfoldable pub compare_pre : Text → Text → Sign
compare_pre a b =
    if same a b
    then equal
    else if is_nil a
    then more
    else if is_nil b
    then less
    else if less_text a b
    then less
    else more

unfoldable pub compare_split : Option (List ℕ × Text) → Option (List ℕ × Text) → Sign
unfolding compare_numbers compare_pre
compare_split (some (an, apre)) (some (bn, bpre)) = compare_numbers an bn (compare_pre apre bpre)
compare_split _ _ = equal

unfoldable pub compare_versions : Text → Text → Sign
unfolding split_version compare_split
compare_versions a b = compare_split (split_version a) (split_version b)

-- The digits, or the lower-case hexadecimal digits, that a text begins with, and the rest.
abbrev is_hex : ℕ → Bool
is_hex c = is_digit c || (leb b'a' c && leb c b'f')

span : (ℕ → Bool) → Text → ℕ × Text
span p [] = (0, [])
span p (c ∷ cs) = let (n, rest) = span p cs in if p c then (n + 1, rest) else (0, c ∷ cs)

abbrev is_dirty_or_end : Text → Bool
is_dirty_or_end s = is_nil s || same s (codes "-dirty")

abbrev is_object : Text → Bool
is_object s = let (n, rest) = span is_hex s in leb 4 n && (leb n 40 && is_dirty_or_end rest)

abbrev is_dash_g : Text → Bool
is_dash_g (c ∷ (d ∷ rest)) = c == b'-' && (d == b'g' && is_object rest)
is_dash_g _ = false

abbrev is_describe : Text → Bool
is_describe [] = false
is_describe (c ∷ cs) = let (n, rest) = span is_digit cs in c == b'-' && (leb 1 n && is_dash_g rest)

-- Whether all of the text matches describeSuffix.
is_suffix : Text → Bool
unfolding span is_digit
is_suffix s = is_dirty_or_end s || is_describe s

-- ReleaseVersion: what stands before the leftmost match is kept, and the match runs to the end.
unfoldable pub release_version : Text → Text
unfolding is_suffix
release_version [] = []
release_version (c ∷ cs) =
    let rest = release_version cs in if is_suffix (c ∷ cs) then [] else c ∷ rest

abbrev is_more : Sign → Bool
is_more more = true
is_more _ = false

unfoldable pub is_newer : Text → Text → Bool
unfolding compare_versions release_version
is_newer latest current =
    if is_nil latest then false else is_more (compare_versions latest (release_version current))
