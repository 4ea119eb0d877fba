-- ===== src/Rules/Validate/Storable.antt =====
-- What ValidateRules accepts, described without its loops.
use easywall.Prelude.{
  ℕ, suc, ◌≤◌, ◌≡◌, ◌≢◌, ◌⊎◌, true, none, some, List, [], ◌∷◌, ◌++◌, All, if◌then◌else◌,
}
use easywall.Text.{Text, codes, trim_space, cut, ℤ, pos, negsuc, atoi}
use easywall.Text.Laws.{Absent}
use easywall.Rules.{PortRule, ForwardingRule, Rules, scope_host, scope_forwarded, scope_both}
use easywall.Rules.Feeds.{known_feed, is_country_feed}
use easywall.Rules.Ids.{valid_rule_id}
use easywall.Rules.Validate.{is_list_comment, is_ip_or_cidr, max_countries, is_one_statement}

-- A text that strconv.Atoi reads as a port.
abbrev pub IsPortNumber : Text → ℕ → Type 0
IsPortNumber s n = (atoi s ≡ some (pos n)) × (1 ≤ n) × (n ≤ 65535)

-- One port, or two around the first colon that do not fall.
abbrev pub IsPortText : Text → Type 0
IsPortText s =
    ((cut b':' s ≡ none) × ((n : ℕ) × IsPortNumber s n))
    ⊎ ((a b : Text) × (lo hi : ℕ) × (cut b':' s ≡ some (a, b))
        × IsPortNumber a lo
        × IsPortNumber b hi
        × (lo ≤ hi))

-- A comment, or an address or network once trimmed.
abbrev pub IsSource : Text → Type 0
IsSource s = (is_list_comment s ≡ true) ⊎ (is_ip_or_cidr (trim_space s) ≡ true)

-- A comment, or an address or network as it stands.
abbrev pub IsEntry : Text → Type 0
IsEntry s = (is_list_comment s ≡ true) ⊎ (is_ip_or_cidr s ≡ true)

abbrev pub IsScope : Text → Type 0
IsScope s = (s ≡ []) ⊎ (s ≡ scope_host) ⊎ (s ≡ scope_forwarded) ⊎ (s ≡ scope_both)

pub record IsPortRule (r : PortRule) : Type 0 where
  pub port : IsPortText r.port
  pub scope : IsScope r.scope
  pub sources : All IsSource r.sources

-- The ids that are there are well-formed and distinct.
abbrev pub DistinctIds : List Text → List PortRule → Type 0
DistinctIds seen [] = Unit {0}
DistinctIds seen (r ∷ rs) =
    ((r.id ≡ []) × DistinctIds seen rs)
    ⊎ ((r.id ≢ []) × (valid_rule_id r.id ≡ true) × Absent r.id seen × DistinctIds (r.id ∷ seen) rs)

abbrev pub DistinctFeeds : List Text → List Text → Type 0
DistinctFeeds seen [] = Unit {0}
DistinctFeeds seen (id ∷ ids) =
    (known_feed id ≡ true) × Absent id seen × DistinctFeeds (id ∷ seen) ids

abbrev pub countries : List Text → ℕ
countries [] = 0
countries (id ∷ ids) = if is_country_feed id then suc (countries ids) else countries ids

abbrev pub IsTransport : Text → Type 0
IsTransport p = (p ≡ codes "tcp") ⊎ (p ≡ codes "udp")

abbrev pub InPorts : ℤ → Type 0
InPorts (pos n) = (1 ≤ n) × (n ≤ 65535)
InPorts (negsuc n) = ⊥

pub record IsForward (f : ForwardingRule) : Type 0 where
  pub protocol : IsTransport f.protocol
  pub source_port : InPorts f.source_port
  pub dest_port : InPorts f.dest_port

pub record IsStorable (r : Rules) : Type 0 where
  pub tcp : All IsPortRule r.tcp
  pub udp : All IsPortRule r.udp
  pub ids : DistinctIds [] (r.tcp ++ r.udp)
  pub blocklist : All IsEntry r.blocklist
  pub allowlist : All IsEntry r.allowlist
  pub feeds : DistinctFeeds [] r.feeds
  pub few_countries : countries r.feeds ≤ max_countries
  pub custom : All (λ rule. is_one_statement rule ≡ true) r.custom
  pub forwarding : All IsForward r.forwarding
