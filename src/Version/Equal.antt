-- ===== src/Version/Equal.antt =====
-- When compareVersions finds no difference.
use easywall.Prelude.{ℕ, suc, ◌≡◌, ◌↔◌, some, List, [], ◌∷◌, refl, ◌∙◌, sym, arith}
use easywall.Text.{Text}
use easywall.Text.Laws.{same_iff}
use easywall.Version.{
  Sign, equal, split_version, then_by, compare_numbers, compare_pre, compare_split,
  compare_versions,
}

-- The i-th number of a version, 0 where it has none.
abbrev pub number : List ℕ → ℕ → ℕ
number [] i = 0
number (x ∷ xs) ℕ.zero = x
number (x ∷ xs) (suc i) = number xs i

then_by-equal : (x y : ℕ) (r : Sign) → then_by x y r ≡ equal → (x ≡ y) × (r ≡ equal)
then_by-equal x y r h = ground arith

number-cons :
    (x y : ℕ) (xs ys : List ℕ)
    → x ≡ y
    → ((i : ℕ) → number xs i ≡ number ys i)
    → (i : ℕ) → number (x ∷ xs) i ≡ number (y ∷ ys) i
number-cons x y xs ys e h ℕ.zero = e
number-cons x y xs ys e h (suc i) = h i

number-padded :
    (xs : List ℕ)
    → ((i : ℕ) → number (0 ∷ []) i ≡ number xs i)
    → (i : ℕ) → number [] i ≡ number xs i
number-padded xs h ℕ.zero = h 0
number-padded xs h (suc i) = h (suc i)

compare_numbers-equal :
    (xs ys : List ℕ) (r : Sign)
    → compare_numbers xs ys r ≡ equal
    → ((i : ℕ) → number xs i ≡ number ys i) × (r ≡ equal)
unfolding compare_numbers
compare_numbers-equal [] [] r h = ((λ i. refl), h)
compare_numbers-equal (x ∷ xs) [] r h =
    let (e, k) = then_by-equal x 0 (compare_numbers xs [] r) h in
    let (same_rest, last) = compare_numbers-equal xs [] r k in
    (
      (λ i.
          sym (number-padded (x ∷ xs) (number-cons 0 x [] xs (sym e) (λ j. sym (same_rest j))) i)),
      last,
    )
compare_numbers-equal [] (y ∷ ys) r h =
    let (e, k) = then_by-equal 0 y (compare_numbers [] ys r) h in
    let (same_rest, last) = compare_numbers-equal [] ys r k in
    (number-padded (y ∷ ys) (number-cons 0 y [] ys e same_rest), last)
compare_numbers-equal (x ∷ xs) (y ∷ ys) r h =
    let (e, k) = then_by-equal x y (compare_numbers xs ys r) h in
    let (same_rest, last) = compare_numbers-equal xs ys r k in
    (number-cons x y xs ys e same_rest, last)

compare_numbers-padded :
    (xs ys : List ℕ) (r : Sign)
    → ((i : ℕ) → number xs i ≡ number ys i)
    → compare_numbers xs ys r ≡ r
unfolding compare_numbers
compare_numbers-padded [] [] r h = refl
compare_numbers-padded (x ∷ xs) [] r h =
    ground (arith, h 0, compare_numbers-padded xs [] r (λ i. h (suc i)))
compare_numbers-padded [] (y ∷ ys) r h =
    ground (arith, h 0, compare_numbers-padded [] ys r (λ i. h (suc i)))
compare_numbers-padded (x ∷ xs) (y ∷ ys) r h =
    ground (arith, h 0, compare_numbers-padded xs ys r (λ i. h (suc i)))

compare_pre-equal : (a b : Text) → (compare_pre a b ≡ equal) ↔ (a ≡ b)
unfolding compare_pre
compare_pre-equal a b = ground (arith, same_iff a b)

-- Two versions that splitVersion can read compare equal exactly if they have the same numbers,
-- where one that is missing counts as 0, and the same pre-release.
pub compare_versions-equal :
    (a b : Text) (an bn : List ℕ) (apre bpre : Text)
    → split_version a ≡ some (an, apre)
    → split_version b ≡ some (bn, bpre)
    → (compare_versions a b ≡ equal) ↔ (((i : ℕ) → number an i ≡ number bn i) × (apre ≡ bpre))
unfolding compare_versions
compare_versions-equal a b an bn apre bpre ea eb =
    rw (ea, eb, compare_split)
      ((
        λ h.
            let (numbers, pre) = compare_numbers-equal an bn (compare_pre apre bpre) h in
            (numbers, (compare_pre-equal apre bpre).0 pre),
        λ h.
            compare_numbers-padded an bn (compare_pre apre bpre) h.0
            ∙ (compare_pre-equal apre bpre).1 h.1,
      ))
