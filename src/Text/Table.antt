-- ===== src/Text/Table.antt =====
-- A Go map whose keys are strings: what it holds under a key, if anything.
use easywall.Prelude.{Bool, Option, none, some, if◌then◌else◌, ◌≡◌, ◌≢◌, refl, arith}
use easywall.Text.{Text, same}
use easywall.Text.Laws.{same_refl, same_iff}

abbrev pub Table {ℓ} : Type ℓ → Type ℓ
Table A = Text → Option A

abbrev pub empty_table {ℓ} : {A : Type ℓ} → Table A
empty_table k = none

-- m[k] = a
unfoldable pub put {ℓ} : {A : Type ℓ} → Text → A → Table A → Table A
put k a m x = if same x k then some a else m x

-- delete(m, k)
unfoldable pub remove {ℓ} : {A : Type ℓ} → Text → Table A → Table A
remove k m x = if same x k then none else m x

abbrev pub kept {ℓ} : {A : Type ℓ} → (A → Bool) → Option A → Option A
kept stale none = none
kept stale (some a) = if stale a then none else some a

-- for k, a := range m { if stale(a) { delete(m, k) } }
unfoldable pub sweep {ℓ} : {A : Type ℓ} → (A → Bool) → Table A → Table A
sweep stale m x = kept stale (m x)

module _ {ℓ} {A : Type ℓ} where
  pub get-put : (k : Text) (a : A) (m : Table A) → put k a m k ≡ some a
  unfolding put
  get-put k a m = rw (same_refl k) refl

  pub get-put_other : (x k : Text) (a : A) (m : Table A) → x ≢ k → put k a m x ≡ m x
  unfolding put
  get-put_other x k a m h = ground (arith, same_iff x k)

  pub get-remove : (k : Text) (m : Table A) → remove k m k ≡ none
  unfolding remove
  get-remove k m = rw (same_refl k) refl

  pub get-remove_other : (x k : Text) (m : Table A) → x ≢ k → remove k m x ≡ m x
  unfolding remove
  get-remove_other x k m h = ground (arith, same_iff x k)
