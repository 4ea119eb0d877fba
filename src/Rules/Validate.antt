-- ===== src/Rules/Validate.antt =====
-- internal/shared/validate.go: what a storable rule set is. An error is a value that names the
-- entry; none is Go's nil.
pub mod Storable
pub mod Ports
pub mod Accepts
use easywall.Prelude.{
  ℕ, zero, suc, ◌+◌, Bool, true, false, not, ◌&&◌, ◌||◌, Option, none, some, List, [], ◌∷◌, ◌++◌,
  ltb, leb, ◌==◌, if◌then◌else◌, is_nil,
}
use easywall.Text.{
  Text, codes, same, contains, trim_space, has_prefix, cut, contains_any, ℤ, pos, negsuc, atoi,
}
use easywall.Text.Address.{parse_ip, parse_cidr}
use easywall.Rules.{PortRule, ForwardingRule, Rules, scope_host, scope_forwarded, scope_both}
use easywall.Rules.Feeds.{known_feed, is_country_feed}
use easywall.Rules.Ids.{valid_rule_id}

pub data PortError : Type 0 where
  port_required range_backwards : PortError
  not_a_port unknown_scope bad_source : Text → PortError

pub data Error : Type 0 where
  tcp_rule udp_rule : PortRule → PortError → Error
  malformed_id shared_id blocklist_entry allowlist_entry unknown_feed repeated_feed : Text → Error
  too_many_countries : ℕ → Error
  custom_rule : ℕ → Error
  forward_protocol : Text → Error
  forward_source forward_dest : ℤ → Error

-- The first error of two checks made in turn.
infixr 20 ◌then_check◌
abbrev pub ◌then_check◌ {ℓ} : {E : Type ℓ} → Option E → Option E → Option E
some e then_check rest = some e
none then_check rest = rest

abbrev pub require {ℓ} : {E : Type ℓ} → Bool → E → Option E
require true e = none
require false e = some e

-- The first error of a check made on every entry.
unfoldable pub check_all {ℓ κ} : {A : Type ℓ} {E : Type κ} → (A → Option E) → List A → Option E
check_all f [] = none
check_all f (x ∷ xs) = f x then_check check_all f xs

-- IsListComment
unfoldable pub is_list_comment : Text → Bool
unfolding trim_space has_prefix
is_list_comment entry = let t = trim_space entry in is_nil t || has_prefix t (codes "#")

-- ValidateIPOrCIDR, whether it returns nil.
unfoldable pub is_ip_or_cidr : Text → Bool
unfolding parse_ip parse_cidr
is_ip_or_cidr s = parse_ip s || parse_cidr s

in_port_range : ℤ → Option ℕ
in_port_range (pos n) = if ltb n 1 || ltb 65535 n then none else some n
in_port_range (negsuc n) = none

-- ParsePortNumber
unfoldable pub parse_port_number : Text → Option ℕ
unfolding in_port_range atoi
parse_port_number s = elim (atoi s) [ none ↦ none | some p ↦ in_port_range p ]

check_range : Text → Text → Option PortError
unfolding parse_port_number
check_range start end = elim (parse_port_number start) [
  | none ↦ some (not_a_port start)
  | some lo ↦ elim (parse_port_number end) [
    | none ↦ some (not_a_port end)
    | some hi ↦ require (not (ltb hi lo)) range_backwards
  ]
]

pub check_port : Text → Option PortError
unfolding check_range cut
check_port port = elim (cut b':' port) [
  | some (start, end) ↦ check_range start end
  | none ↦ elim (parse_port_number port) [ none ↦ some (not_a_port port) | some n ↦ none ]
]

unfoldable pub known_scope : Text → Bool
unfolding same
known_scope s = is_nil s || same s scope_host || same s scope_forwarded || same s scope_both

pub check_source : Text → Option PortError
unfolding is_list_comment is_ip_or_cidr
check_source src = require (is_list_comment src || is_ip_or_cidr (trim_space src)) (bad_source src)

-- validatePortRule
unfoldable pub validate_port_rule : PortRule → Option PortError
unfolding check_port known_scope check_source check_all
validate_port_rule r =
    require (not (is_nil r.port)) port_required
    then_check check_port r.port
    then_check require (known_scope r.scope) (unknown_scope r.scope)
    then_check check_all check_source r.sources

labelled : (PortError → Error) → Option PortError → Option Error
labelled f none = none
labelled f (some e) = some (f e)

check_tcp : PortRule → Option Error
unfolding labelled validate_port_rule
check_tcp r = labelled (tcp_rule r) (validate_port_rule r)

check_udp : PortRule → Option Error
unfolding labelled validate_port_rule
check_udp r = labelled (udp_rule r) (validate_port_rule r)

-- The loop over the ids; an empty id is passed over.
unfoldable pub check_ids : List Text → List PortRule → Option Error
check_ids seen [] = none
check_ids seen (r ∷ rs) =
    let rest = check_ids (r.id ∷ seen) rs in
    let skipped = check_ids seen rs in
    if is_nil r.id
    then skipped
    else require (valid_rule_id r.id) (malformed_id r.id)
      then_check require (not (contains r.id seen)) (shared_id r.id)
      then_check rest

-- An address list; the entry is validated as it stands, and not trimmed.
pub check_entry : (Text → Error) → Text → Option Error
unfolding is_list_comment is_ip_or_cidr
check_entry f ip = require (is_list_comment ip || is_ip_or_cidr ip) (f ip)

abbrev pub max_countries : ℕ
max_countries = 30

-- The loop over the feeds, and the limit behind it.
unfoldable pub check_feeds : List Text → ℕ → List Text → Option Error
check_feeds seen countries [] =
    require (not (ltb max_countries countries)) (too_many_countries countries)
check_feeds seen countries (id ∷ ids) =
    require (known_feed id) (unknown_feed id)
    then_check require (not (contains id seen)) (repeated_feed id)
    then_check check_feeds (id ∷ seen) (if is_country_feed id then countries + 1 else countries) ids

-- customRuleSeparators
abbrev pub custom_rule_separators : Text
custom_rule_separators = 10 ∷ 13 ∷ b';' ∷ []

-- validateCustomRule, whether it returns nil.
unfoldable pub is_one_statement : Text → Bool
unfolding contains_any
is_one_statement rule = not (contains_any rule custom_rule_separators)

-- The loop over the custom rules; `i` is the number of the first, from 1.
unfoldable pub check_custom : ℕ → List Text → Option Error
check_custom i [] = none
check_custom i (rule ∷ rules) =
    require (is_one_statement rule) (custom_rule i) then_check check_custom (i + 1) rules

unfoldable pub is_port : ℤ → Bool
is_port (pos n) = leb 1 n && leb n 65535
is_port (negsuc n) = false

check_forward : ForwardingRule → Option Error
unfolding is_port same
check_forward f =
    require (same f.protocol (codes "tcp") || same f.protocol (codes "udp"))
      (forward_protocol f.protocol)
    then_check require (is_port f.source_port) (forward_source f.source_port)
    then_check require (is_port f.dest_port) (forward_dest f.dest_port)

-- ValidateRules
unfoldable pub validate_rules : Rules → Option Error
unfolding check_all check_tcp check_udp check_ids check_entry check_feeds check_custom check_forward
validate_rules r =
    check_all check_tcp r.tcp
    then_check check_all check_udp r.udp
    then_check check_ids [] (r.tcp ++ r.udp)
    then_check check_all (check_entry blocklist_entry) r.blocklist
    then_check check_all (check_entry allowlist_entry) r.allowlist
    then_check check_feeds [] 0 r.feeds
    then_check check_custom 1 r.custom
    then_check check_all check_forward r.forwarding
