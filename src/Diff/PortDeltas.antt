-- ===== src/Diff/PortDeltas.antt =====
-- internal/shared/diff.go: diffPorts. A Go map is a function into Option.
use easywall.Prelude.{
  Bool, false, not, ◌||◌, Option, none, some, List, [], ◌∷◌, ◌++◌, if◌then◌else◌, is_nil,
}
use easywall.Text.{Text, codes, same, trim_space}
use easywall.Rules.{PortRule, scope_host}
use easywall.Rules.Validate.{is_list_comment}
use easywall.Diff.Delta.{SetName, added, changed, nothing, text, RuleDelta, once_each, removal}

-- The entries joined by a space each, behind a description.
with_mark : Text → Text → Text
with_mark [] m = m
with_mark (c ∷ cs) m = (c ∷ cs) ++ (codes " " ++ m)

-- strings.Join of the sources that are not comments.
join_sources : List Text → Text
join_sources [] = []
join_sources (s ∷ ss) =
    let rest = join_sources ss in
    if is_list_comment s
    then rest
    else if is_nil rest
    then trim_space s
    else trim_space s ++ (codes ", " ++ rest)

has_sources : List Text → Bool
has_sources [] = false
has_sources (s ∷ ss) = not (is_list_comment s) || has_sources ss

with_sources : Text → Text → Text
with_sources [] from = from
with_sources (c ∷ cs) from = (c ∷ cs) ++ (codes " — " ++ from)

-- portDetail
unfoldable pub port_detail : PortRule → Text
unfolding with_mark with_sources join_sources has_sources
port_detail r =
    let ssh = if r.ssh then with_mark r.description (codes "(ssh)") else r.description in
    let scoped =
      if is_nil r.scope || same r.scope scope_host
      then ssh
      else with_mark ssh (codes "(" ++ (r.scope ++ codes ")")) in
    if has_sources r.sources
    then with_sources scoped (codes "from " ++ join_sources r.sources)
    else scoped

-- The assignment of the loop of indexPorts.
abbrev pub add_detail : (Text → Option Text) → PortRule → Text → Option Text
add_detail m r p =
    if same r.port p
    then elim (m r.port) [
      | none ↦ some (port_detail r)
      | some prev ↦ some (prev ++ (codes " | " ++ port_detail r))
    ]
    else m p

unfoldable pub index_from : (Text → Option Text) → List PortRule → Text → Option Text
index_from m [] = m
index_from m (r ∷ rs) = index_from (λ p. add_detail m r p) rs

-- indexPorts
unfoldable pub index_ports : List PortRule → Text → Option Text
unfolding index_from
index_ports rs = index_from (λ p. none) rs

-- Reading a Go map: an absent key gives the zero value.
abbrev pub shown_text : Option Text → Text
shown_text none = []
shown_text (some t) = t

-- The first loop of diffPorts at one rule.
unfoldable pub port_arrival :
    SetName → (Text → Option Text) → (Text → Option Text) → PortRule → List RuleDelta
port_arrival set cur next r =
    let now = text (shown_text (next r.port)) in
    elim (cur r.port) [
      | none ↦
          record {
            set = set;
            kind = added;
            key = text r.port;
            label = now;
            before = nothing;
            after = nothing;
          }
          ∷ []
      | some was ↦
          if same was (shown_text (next r.port))
          then []
          else record {
            set = set;
            kind = changed;
            key = text r.port;
            label = now;
            before = text was;
            after = now;
          }
            ∷ []
    ]

-- The second loop of diffPorts at one rule.
unfoldable pub port_removal :
    SetName → (Text → Option Text) → (Text → Option Text) → PortRule → List RuleDelta
unfolding removal
port_removal set cur next r = elim (next r.port) [
  | some d ↦ []
  | none ↦ removal set (text r.port) (text (shown_text (cur r.port))) ∷ []
]

-- diffPorts
unfoldable pub diff_ports : SetName → List PortRule → List PortRule → List RuleDelta
unfolding once_each port_arrival port_removal
diff_ports set current staged =
    once_each same (λ (r : PortRule). r.port)
      (port_arrival set (index_ports current) (index_ports staged)) [] staged
    ++ once_each same (λ (r : PortRule). r.port)
        (port_removal set (index_ports current) (index_ports staged)) [] current
