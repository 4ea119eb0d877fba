-- ===== src/Version/Order.antt =====
-- What compareVersions orders by: versions without the zeros at their end are one line, with a
-- pre-release below the release.
use easywall.Prelude.{ℕ, ◌≡◌, true, false, Option, none, some, List, [], ◌∷◌, refl, ap, arith}
use easywall.Text.{Text, same}
use easywall.Text.Laws.{same_iff}
use easywall.Version.{
  Sign, less, equal, more, split_version, then_by, compare_numbers, less_text, compare_pre,
  compare_split, compare_versions,
}

-- The answer to the question the other way round.
abbrev pub flip : Sign → Sign
flip less = more
flip equal = equal
flip more = less

less_text-flip : (s t : Text) → less_text s t ≡ true → less_text t s ≡ false
unfolding less_text
less_text-flip [] [] h = ground arith
less_text-flip [] (d ∷ ds) h = refl
less_text-flip (c ∷ cs) [] h = ground arith
less_text-flip (c ∷ cs) (d ∷ ds) h = ground (arith, less_text-flip cs ds)

less_text_total : (s t : Text) → same s t ≡ false → less_text s t ≡ false → less_text t s ≡ true
unfolding less_text same
less_text_total [] [] n h = ground arith
less_text_total [] (d ∷ ds) n h = ground arith
less_text_total (c ∷ cs) [] n h = refl
less_text_total (c ∷ cs) (d ∷ ds) n h = ground (arith, less_text_total cs ds)

less_text_trans :
    (s t u : Text) → less_text s t ≡ true → less_text t u ≡ true → less_text s u ≡ true
unfolding less_text
less_text_trans s [] u h k = ground arith
less_text_trans s (d ∷ ds) [] h k = ground arith
less_text_trans [] (d ∷ ds) (e ∷ es) h k = refl
less_text_trans (c ∷ cs) (d ∷ ds) (e ∷ es) h k = ground (arith, less_text_trans cs ds es)

-- At most: less or equal.
abbrev pub AtMost : Sign → Type 0
AtMost less = Unit
AtMost equal = Unit
AtMost more = ⊥

-- The comparison of pre-releases is one of a chain: reversed, it flips, and steps compose.
pub compare_pre-flip : (a b : Text) → compare_pre b a ≡ flip (compare_pre a b)
unfolding compare_pre
compare_pre-flip a b =
    ground (
      arith,
      same_iff a b,
      same_iff b a,
      less_text-flip a b,
      less_text-flip b a,
      less_text_total a b,
    )

-- How two steps compose.
abbrev pub Composes : Sign → Sign → Sign → Type 0
Composes less less r = r ≡ less
Composes less equal r = r ≡ less
Composes equal s r = r ≡ s
Composes more s r = Unit
Composes less more r = Unit

pub compare_pre-Composes :
    (a b c : Text) → Composes (compare_pre a b) (compare_pre b c) (compare_pre a c)
unfolding compare_pre
compare_pre-Composes a b c =
    ground
      (arith, same_iff a b, same_iff b c, same_iff a c, less_text_trans a b c, less_text-flip a b)

pub then_by-flip : (x y : ℕ) (r r' : Sign) → r' ≡ flip r → then_by y x r' ≡ flip (then_by x y r)
then_by-flip x y r r' e = ground arith

pub then_by-Composes :
    (x y z : ℕ) (r s t : Sign)
    → Composes r s t
    → Composes (then_by x y r) (then_by y z s) (then_by x z t)
then_by-Composes x y z r s t h = ground arith

compare_numbers-flip :
    (xs ys : List ℕ) (r r' : Sign)
    → r' ≡ flip r
    → compare_numbers ys xs r' ≡ flip (compare_numbers xs ys r)
unfolding compare_numbers
compare_numbers-flip [] [] r r' e = e
compare_numbers-flip (x ∷ xs) [] r r' e = then_by-flip x 0 _ _ (compare_numbers-flip xs [] r r' e)
compare_numbers-flip [] (y ∷ ys) r r' e = then_by-flip 0 y _ _ (compare_numbers-flip [] ys r r' e)
compare_numbers-flip (x ∷ xs) (y ∷ ys) r r' e =
    then_by-flip x y _ _ (compare_numbers-flip xs ys r r' e)

compare_numbers-Composes :
    (xs ys zs : List ℕ) (r s t : Sign)
    → Composes r s t
    → Composes (compare_numbers xs ys r) (compare_numbers ys zs s) (compare_numbers xs zs t)
unfolding compare_numbers
compare_numbers-Composes [] [] [] r s t h = h
compare_numbers-Composes [] [] (z ∷ zs) r s t h =
    then_by-Composes 0 0 z _ _ _ (compare_numbers-Composes [] [] zs r s t h)
compare_numbers-Composes [] (y ∷ ys) [] r s t h =
    then_by-Composes 0 y 0 _ _ _ (compare_numbers-Composes [] ys [] r s t h)
compare_numbers-Composes [] (y ∷ ys) (z ∷ zs) r s t h =
    then_by-Composes 0 y z _ _ _ (compare_numbers-Composes [] ys zs r s t h)
compare_numbers-Composes (x ∷ xs) [] [] r s t h =
    then_by-Composes x 0 0 _ _ _ (compare_numbers-Composes xs [] [] r s t h)
compare_numbers-Composes (x ∷ xs) [] (z ∷ zs) r s t h =
    then_by-Composes x 0 z _ _ _ (compare_numbers-Composes xs [] zs r s t h)
compare_numbers-Composes (x ∷ xs) (y ∷ ys) [] r s t h =
    then_by-Composes x y 0 _ _ _ (compare_numbers-Composes xs ys [] r s t h)
compare_numbers-Composes (x ∷ xs) (y ∷ ys) (z ∷ zs) r s t h =
    then_by-Composes x y z _ _ _ (compare_numbers-Composes xs ys zs r s t h)

compare_split-flip : (a b : Option (List ℕ × Text)) → compare_split b a ≡ flip (compare_split a b)
unfolding compare_split
compare_split-flip none none = refl
compare_split-flip none (some b) = refl
compare_split-flip (some a) none = refl
compare_split-flip (some (an, ap)) (some (bn, bp)) =
    compare_numbers-flip an bn (compare_pre ap bp) (compare_pre bp ap) (compare_pre-flip ap bp)

-- A text that splitVersion can read.
abbrev pub IsVersion : Text → Type 0
IsVersion v = (split : List ℕ × Text) × (split_version v ≡ some split)

-- compareVersions orders the strings that splitVersion can read: asked the other way round it
-- answers the other way round, and over three of them its answers compose, so that less, and
-- equal, are transitive, and an equal version can take the other's place.
pub compare_versions-Composes :
    (a b c : Text)
    → IsVersion a
    → IsVersion b
    → IsVersion c
    → (compare_versions b a ≡ flip (compare_versions a b))
      × Composes (compare_versions a b) (compare_versions b c) (compare_versions a c)
unfolding compare_versions
compare_versions-Composes a b c ((an, ap), ea) ((bn, bp), eb) ((cn, cp), ec) = (
  compare_split-flip (split_version a) (split_version b),
  rw (ea, eb, ec, compare_split)
      (compare_numbers-Composes an bn cn _ _ _ (compare_pre-Composes ap bp cp)),
)
