-- ===== src/Feeds/Ranges/Bits.antt =====
-- The addresses of a prefix are those between its first and its last.
use easywall.Prelude.{ℕ, suc, ◌+◌, ◌-◌, ◌*◌, ◌/◌, ◌≤◌, ◌<◌, ◌≡◌, ◌↔◌, true, false, refl, arith}
use easywall.Feeds.Prefixes.{Addr, Prefix, shr, shl, masked, holds_addr}
use easywall.Feeds.Ranges.{key, ones, last_addr, is_valid}

shl-double : (q k : ℕ) → shl (q * 2) k ≡ shl q k * 2
unfolding shl
shl-double q ℕ.zero = refl
shl-double q (suc k) = shl-double (q * 2) k

-- A number is q above its first bits exactly if it lies in q's block.
shr-shl : (x q k : ℕ) → (shr x k ≡ q) ↔ ((shl q k ≤ x) × (x ≤ shl q k + ones k))
unfolding shr shl ones
shr-shl x q ℕ.zero = (λ e. (omega (arith, e), omega (arith, e)), λ h. omega (arith, h.0, h.1))
shr-shl x q (suc k) =
    let half = shr-shl (x / 2) q k in
    let double = shl-double q k in
    (
      λ e. let (low, high) = half.0 e in (omega (arith, low, double), omega (arith, high, double)),
      λ h. half.1 (omega (arith, h.0, double), omega (arith, h.1, double)),
    )

ones_mono : (k l : ℕ) → k ≤ l → ones k ≤ ones l
unfolding ones
ones_mono ℕ.zero l h = omega arith
ones_mono (suc k) ℕ.zero h = omega (arith, h)
ones_mono (suc k) (suc l) h = omega (arith, ones_mono k l (omega (arith, h)))

ones_32 : ones 32 ≡ 4294967295
unfolding ones
ones_32 = refl

-- A prefix of a valid address, none of a zone.
abbrev pub IsPlain : Prefix → Type 0
IsPlain p = (is_valid p ≡ true) × (p.addr.six ≡ false → p.addr.value < 4294967296)

-- An address as packets have them.
abbrev pub IsAddr : Addr → Type 0
IsAddr a = (a.zone ≡ false) × (a.six ≡ false → a.value < 4294967296)

-- Between the first and the last address of a prefix.
abbrev pub Between : ℕ → Addr → Addr → Type 0
Between n from to = (key from ≤ n) × (n ≤ key to)

-- A prefix holds an address exactly if it lies between its first and its last.
pub holds_addr-Between :
    (p : Prefix) (a : Addr)
    → IsPlain p
    → IsAddr a
    → (holds_addr p a ≡ true) ↔ Between (key a) (masked p).addr (last_addr p)
unfolding holds_addr masked last_addr
holds_addr-Between p a v w =
    let in_four = shr-shl a.value (shr p.addr.value (32 - p.bits)) (32 - p.bits) in
    let in_six = shr-shl a.value (shr p.addr.value (128 - p.bits)) (128 - p.bits) in
    let (start, end) =
      (shr-shl p.addr.value (shr p.addr.value (32 - p.bits)) (32 - p.bits)).0 refl in
    let most = ones_mono (32 - p.bits) 32 (omega arith) in
    ground (arith, v, w, in_four, in_six, start, most, ones_32)
