-- ===== src/Diff/Delta.antt =====
-- internal/shared/diff.go: the rows of a preview, and the loops that visit each key once. A key,
-- and a text that fmt puts together from numbers, is kept as what it is made from.
use easywall.Prelude.{ℕ, Bool, false, ◌||◌, List, [], ◌∷◌, ◌++◌, if◌then◌else◌}
use easywall.Text.{Text, ℤ}
use easywall.Rules.{ForwardingRule}

pub data SetName : Type 0 where
  tcp udp blocklist allowlist feeds forwarding custom : SetName

pub data DeltaKind : Type 0 where
  added removed changed : DeltaKind

-- What stands in a field of a delta: a text, a redirect, a redirect's incoming side or a line's
-- number.
pub data Shown : Type 0 where
  nothing : Shown
  text : Text → Shown
  redirect : ForwardingRule → Shown
  incoming : ℤ × Text → Shown
  line : ℕ → Shown

pub record RuleDelta : Type 0 where
  pub set : SetName
  pub kind : DeltaKind
  pub key : Shown
  pub label : Shown
  pub before : Shown
  pub after : Shown

abbrev pub has_key {ℓ} : {K : Type ℓ} → (K → K → Bool) → K → List K → Bool
has_key eq k [] = false
has_key eq k (j ∷ js) = eq k j || has_key eq k js

-- The loops that visit each key once, at its first entry.
unfoldable pub once_each {ℓ κ μ} :
    {A : Type ℓ} {K : Type κ} {B : Type μ}
    → (K → K → Bool)
    → (A → K)
    → (A → List B)
    → List K
    → List A
    → List B
once_each eq key emit seen [] = []
once_each eq key emit seen (x ∷ xs) =
    let skipped = once_each eq key emit seen xs in
    let rest = once_each eq key emit (key x ∷ seen) xs in
    if has_key eq (key x) seen then skipped else emit x ++ rest

unfoldable pub removal : SetName → Shown → Shown → RuleDelta
removal set key label = record {
  set = set;
  kind = removed;
  key = key;
  label = label;
  before = nothing;
  after = nothing;
}

unfoldable pub addition : SetName → Shown → Shown → RuleDelta
addition set key label = record {
  set = set;
  kind = added;
  key = key;
  label = label;
  before = nothing;
  after = nothing;
}
