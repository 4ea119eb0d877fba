-- ===== src/Text/Address.antt =====
-- net.ParseIP and net.ParseCIDR of Go's library, as far as the program reads them: whether a text
-- is an address, and how many bits its family has. Both parse with netip.ParseAddr and refuse a
-- zone.
use easywall.Prelude.{
  ℕ, zero, suc, ◌+◌, Bool, true, false, not, ◌&&◌, ◌||◌, Option, none, some, [], ◌∷◌, ltb, leb,
  ◌==◌, if◌then◌else◌, is_nil,
}
use easywall.Text.{Text, parse_digits, cut}

-- One field of a dotted address: no leading zero, at most 255.
octet : Text → Bool
unfolding parse_digits
octet [] = false
octet (c ∷ cs) = elim (parse_digits 0 (c ∷ cs)) [
  | none ↦ false
  | some n ↦ leb n 255 && (is_nil cs || not (c == b'0'))
]

-- `k` more fields behind a dot each.
dotted : ℕ → Text → Bool
unfolding octet cut
dotted zero s = octet s
dotted (suc k) s = elim (cut b'.' s) [ none ↦ false | some (a, r) ↦ octet a && dotted k r ]

unfoldable pub is_ipv4 : Text → Bool
unfolding dotted
is_ipv4 s = dotted 3 s

is_hex_digit : ℕ → Bool
is_hex_digit c =
    (leb b'0' c && leb c b'9') || (leb b'a' c && leb c b'f') || (leb b'A' c && leb c b'F')

-- The hexadecimal digits at the front, counted, and what follows them.
hex_span : Text → ℕ × Text
unfolding is_hex_digit
hex_span [] = (0, [])
hex_span (c ∷ cs) =
    let (n, rest) = hex_span cs in if is_hex_digit c then (n + 1, rest) else (0, c ∷ cs)

-- After the last field, with `k` of eight left: exactly an ellipsis fills the rest.
abbrev ends : ℕ → Bool → Bool
ends k ellipsis = if k == 0 then not ellipsis else ellipsis

-- What follows a field; `next` parses the fields behind a colon.
after_field : ℕ → Bool → Text → (Bool → Text → Bool) → Text → Bool
after_field k ellipsis whole next [] = ends k ellipsis
after_field k ellipsis whole next (c ∷ rest) =
    if c == b'.'
    then is_ipv4 whole && (if ellipsis then ltb 2 (k + 1) else k + 1 == 2)
    else if c == b':'
    then behind rest
    else false
  where
    behind : Text → Bool
    behind [] = false
    behind (d ∷ ds) =
        if d == b':'
        then not ellipsis && (if is_nil ds then ltb 0 k else next true ds)
        else next ellipsis (d ∷ ds)

-- The fields of an IPv6 address, `k` of eight left, behind an ellipsis or not.
fields : ℕ → Bool → Text → Bool
unfolding after_field hex_span is_ipv4
fields zero ellipsis s = is_nil s && not ellipsis
fields (suc k) ellipsis s =
    let (n, rest) = hex_span s in
    let tail = after_field k ellipsis s (λ e r. fields k e r) rest in
    if n == 0 || ltb 4 n then false else tail

unfoldable pub is_ipv6 : Text → Bool
unfolding fields
is_ipv6 (c ∷ d ∷ s) =
    if c == b':' && d == b':' then is_nil s || fields 8 true s else fields 8 false (c ∷ d ∷ s)
is_ipv6 s = fields 8 false s

-- netip.ParseAddr without a zone: the family's bits, chosen by the first dot or colon.
unfoldable pub parse_addr : Text → Option ℕ
unfolding is_ipv4 is_ipv6
parse_addr s = choose s
  where
    choose : Text → Option ℕ
    choose [] = none
    choose (c ∷ cs) =
        if c == b'.'
        then if is_ipv4 s then some 32 else none
        else if c == b':'
        then if is_ipv6 s then some 128 else none
        else choose cs

-- net.ParseIP, whether it is not nil.
unfoldable pub parse_ip : Text → Bool
unfolding parse_addr
parse_ip s = elim (parse_addr s) [ none ↦ false | some bits ↦ true ]

-- net.ParseCIDR, whether it has no error: the mask is digits, below 0xFFFFFF and within the family.
unfoldable pub parse_cidr : Text → Bool
unfolding parse_addr parse_digits cut
parse_cidr s = elim (cut b'/' s) [
  | none ↦ false
  | some (addr, mask) ↦ elim (parse_addr addr) [
    | none ↦ false
    | some bits ↦ elim (parse_digits 0 mask) [
      | none ↦ false
      | some n ↦ not (is_nil mask) && leb n bits
    ]
  ]
]
