-- ===== src/Diff/Once.antt =====
-- The loop that visits each key once, against the first entry of each key.
use easywall.Prelude.{
  ◌≡◌, refl, ◌↔◌, Bool, true, false, Option, none, some, List, [], ◌∷◌, ◌++◌, inl, inr, arith,
  Bool-cases, if◌then◌else◌,
}
use easywall.Diff.{once_each, has_key}

module _ {ℓ κ} {A : Type ℓ} {K : Type κ} (eq : K → K → Bool) (key : A → K) where
  -- The first entry with a key.
  abbrev pub first : K → List A → Option A
  first k [] = none
  first k (x ∷ xs) = if eq (key x) k then some x else first k xs

pub append_nil_iff {ℓ} : {B : Type ℓ} (xs ys : List B) → ((xs ++ ys) ≡ []) ↔ ((xs ≡ []) × (ys ≡ []))
append_nil_iff [] ys = ((λ e. (refl, e)), (λ p. p.1))
append_nil_iff (x ∷ xs) ys = ((λ e. cc), (λ p. cc p.0))

module _ {ℓ κ μ} {A : Type ℓ} {K : Type κ} {B : Type μ} (eq : K → K → Bool) (key : A → K)
    (emit : A → List B) (eq_iff : (j k : K) → (eq j k ≡ true) ↔ (j ≡ k)) where
  -- Nothing comes of the first entry of any key that was not seen before.
  abbrev pub Silent : List K → List A → Type (ℓ ⊔ κ ⊔ μ)
  Silent seen xs =
      (k : K) (x : A) → has_key eq k seen ≡ false → first eq key k xs ≡ some x → emit x ≡ []

  pub once_each-Silent :
      (seen : List K) (xs : List A) → once_each eq key emit seen xs ≡ [] → Silent seen xs
  unfolding once_each
  once_each-Silent seen [] e k x u f = cc
  once_each-Silent seen (y ∷ ys) e k x u f = elim (Bool-cases (has_key eq (key y) seen)) [
    | inl used ↦
        let e' : once_each eq key emit seen ys ≡ [] = ground arith in
        elim (Bool-cases (eq (key y) k)) [
          | inl same ↦ let s = (eq_iff (key y) k).0 same in let v = rw s at used in cc
          | inr other ↦ once_each-Silent seen ys e' k x u (ground arith)
        ]
    | inr new ↦
        let both : (emit y ++ once_each eq key emit (key y ∷ seen) ys) ≡ [] = ground arith in
        let parts = (append_nil_iff (emit y) _).0 both in
        elim (Bool-cases (eq (key y) k)) [
          | inl same ↦ let s : y ≡ x = ground arith in rw s at parts.0
          | inr other ↦
              once_each-Silent (key y ∷ seen) ys parts.1 k x
                (ground (arith, eq_iff (key y) k, eq_iff k (key y))) (ground arith)
        ]
  ]

  pub Silent-once_each :
      (seen : List K) (xs : List A) → Silent seen xs → once_each eq key emit seen xs ≡ []
  unfolding once_each
  Silent-once_each seen [] s = refl
  Silent-once_each seen (y ∷ ys) s = elim (Bool-cases (has_key eq (key y) seen)) [
    | inl used ↦
        let rest = Silent-once_each seen ys (λ k x u f. s k x u (elim (Bool-cases (eq (key y) k)) [
          | inl same ↦ let e = (eq_iff (key y) k).0 same in let v = rw e at used in cc
          | inr other ↦ ground arith
        ])) in
        ground arith
    | inr new ↦
        let here = s (key y) y new (ground (arith, eq_iff (key y) (key y))) in
        let rest =
          Silent-once_each (key y ∷ seen) ys (λ k x u f.
            s k x (ground arith) (ground (arith, eq_iff (key y) k, eq_iff k (key y)))) in
        let both = (append_nil_iff (emit y) _).1 (here, rest) in ground arith
  ]
