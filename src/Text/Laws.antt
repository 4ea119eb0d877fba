-- ===== src/Text/Laws.antt =====
-- Equality of texts, and membership in a list of texts.
use easywall.Prelude.{◌≡◌, ◌≢◌, refl, ◌↔◌, true, false, List, [], ◌∷◌, All, arith}
use easywall.Text.{Text, same, contains, is_space, trim_space, trim_left, trim_right}

pub same_eq : (s t : Text) → same s t ≡ true → s ≡ t
unfolding same
same_eq [] [] h = refl
same_eq [] (d ∷ ds) h = ground arith
same_eq (c ∷ cs) [] h = ground arith
same_eq (c ∷ cs) (d ∷ ds) h = ground (arith, same_eq cs ds)

pub same_refl : (s : Text) → same s s ≡ true
unfolding same
same_refl [] = refl
same_refl (c ∷ cs) = ground (arith, same_refl cs)

pub same_iff : (s t : Text) → (same s t ≡ true) ↔ (s ≡ t)
same_iff s t = (same_eq s t, λ e. rw e (same_refl t))

-- No entry of the list is the text.
abbrev pub Absent : Text → List Text → Type 0
Absent x ys = All (λ y. x ≢ y) ys

pub contains-Absent : (x : Text) (ys : List Text) → (contains x ys ≡ false) ↔ Absent x ys
unfolding contains
contains-Absent x [] = ((λ h. tt), (λ h. refl))
contains-Absent x (y ∷ ys) = ground (arith, same_iff x y, contains-Absent x ys)

trim_right-All : (s : Text) → All (λ c. is_space c ≡ false) s → trim_right s ≡ s
unfolding trim_right
trim_right-All [] h = refl
trim_right-All (c ∷ cs) h = ground (arith, trim_right-All cs h.1, h.0)

-- A text without white space is left as it is.
pub trim_space-All : (s : Text) → All (λ c. is_space c ≡ false) s → trim_space s ≡ s
unfolding trim_space trim_left
trim_space-All [] h = refl
trim_space-All (c ∷ cs) h = rw h.0 (trim_right-All (c ∷ cs) h)
