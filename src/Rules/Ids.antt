-- ===== src/Rules/Ids.antt =====
-- internal/shared/ruleid.go: the ids of port rules. crypto/rand is a parameter: `source n` holds
-- the bytes of the n-th read. The redraw loop takes fuel.
pub mod Ensure
pub mod Walks
use easywall.Prelude.{
  ℕ, zero, suc, ◌+◌, ◌/◌, ◌%◌, Bool, true, false, not, ◌&&◌, ◌||◌, Option, none, some, List, [],
  ◌∷◌, leb, ◌==◌, if◌then◌else◌, is_nil, length, ◌>>=◌,
}
use easywall.Text.{Text, contains}
use easywall.Rules.{PortRule, Rules}

unfoldable pub is_hex : ℕ → Bool
is_hex c = (leb b'0' c && leb c b'9') || (leb b'a' c && leb c b'f')

unfoldable pub all_hex : Text → Bool
unfolding is_hex
all_hex [] = true
all_hex (c ∷ cs) = is_hex c && all_hex cs

-- ValidRuleID: the pattern ^[0-9a-f]{12}$.
unfoldable pub valid_rule_id : Text → Bool
unfolding all_hex
valid_rule_id id = length id == 12 && all_hex id

-- A digit of encoding/hex.
unfoldable pub hex_digit : ℕ → ℕ
hex_digit n = if leb n 9 then n + b'0' else n + 87

-- hex.EncodeToString
unfoldable pub hex_encode : List ℕ → Text
unfolding hex_digit
hex_encode [] = []
hex_encode (b ∷ bs) = hex_digit (b / 16) ∷ hex_digit (b % 16) ∷ hex_encode bs

-- NewRuleID, at the n-th read of the source.
unfoldable pub new_rule_id : (ℕ → List ℕ) → ℕ → Text
unfolding hex_encode
new_rule_id source n = hex_encode (source n)

-- NewRuleID until the id is not in use: the id and the number of the next read.
unfoldable pub draw : ℕ → (ℕ → List ℕ) → List Text → ℕ → Option (Text × ℕ)
draw zero source seen n = none
draw (suc fuel) source seen n =
    let again = draw fuel source seen (n + 1) in
    if contains (new_rule_id source n) seen then again else some (new_rule_id source n, n + 1)

-- What the walk over both lists carries.
pub record Walk : Type 0 where
  pub seen : List Text
  pub next : ℕ
  pub changed : Bool

-- Whether a rule has to get an id.
unfoldable pub needs_id : List Text → Text → Bool
needs_id seen id = is_nil id || (not (valid_rule_id id) || contains id seen)

-- The body of the loop of EnsureRuleIDs.
unfoldable pub ensure_rule : ℕ → (ℕ → List ℕ) → Walk → PortRule → Option (PortRule × Walk)
ensure_rule fuel source w r = elim (needs_id w.seen r.id) [
  | false ↦ some (r, record w { seen = r.id ∷ w.seen })
  | true ↦ draw fuel source w.seen w.next >>= λ d.
      some (record r { id = d.0 }, record { seen = d.0 ∷ w.seen; next = d.1; changed = true })
]

unfoldable pub ensure_list : ℕ → (ℕ → List ℕ) → Walk → List PortRule → Option (List PortRule × Walk)
ensure_list fuel source w [] = some ([], w)
ensure_list fuel source w (r ∷ rs) = do
  (r', w') ← ensure_rule fuel source w r
  (rs', w'') ← ensure_list fuel source w' rs
  some (r' ∷ rs', w'')

-- EnsureRuleIDs: TCP and UDP in one walk. The result holds the rules, and the walk's `changed`
-- is what the function reports.
unfoldable pub ensure_rule_ids : ℕ → (ℕ → List ℕ) → ℕ → Rules → Option (Rules × Walk)
ensure_rule_ids fuel source next r = do
  (tcp, w) ← ensure_list fuel source (record { seen = []; next = next; changed = false }) r.tcp
  (udp, w') ← ensure_list fuel source w r.udp
  some (record r { tcp = tcp; udp = udp }, w')
