-- ===== src/Diff/SetDeltas.antt =====
-- internal/shared/diff.go: diffList, diffFeeds, diffForwarding and diffCustom. A Go map is a
-- function into Option.
use easywall.Prelude.{
  ℕ, ◌+◌, Bool, false, ◌&&◌, ◌||◌, Option, none, some, List, [], ◌∷◌, ◌++◌, ◌==◌, if◌then◌else◌,
  map,
}
use easywall.Text.{Text, same, contains, trim_space, ℤ, pos, negsuc}
use easywall.Rules.{ForwardingRule}
use easywall.Rules.Feeds.{feed_display_name}
use easywall.Rules.Validate.{is_list_comment}
use easywall.Diff.Delta.{
  SetName, feeds, forwarding, custom, changed, nothing, text, redirect, incoming, line, RuleDelta,
  once_each, removal, addition,
}

-- listEntries
unfoldable pub list_entries : List Text → List Text → List Text
list_entries seen [] = []
list_entries seen (l ∷ ls) =
    let skipped = list_entries seen ls in
    let rest = list_entries (trim_space l ∷ seen) ls in
    if is_list_comment l || contains (trim_space l) seen then skipped else trim_space l ∷ rest

-- The entries that are not among the others, each as a delta.
unfoldable pub missing_entries : (Text → RuleDelta) → List Text → List Text → List RuleDelta
missing_entries f others [] = []
missing_entries f others (e ∷ es) =
    if contains e others then missing_entries f others es else f e ∷ missing_entries f others es

-- diffList.
unfoldable pub diff_list : SetName → List Text → List Text → List RuleDelta
unfolding addition removal missing_entries list_entries
diff_list set current staged =
    let cur = list_entries [] current in
    let next = list_entries [] staged in
    missing_entries (λ e. addition set (text e) nothing) cur next
    ++ missing_entries (λ e. removal set (text e) nothing) next cur

-- The label of a feed's delta: its display name where that is not the id.
with_feed_label : RuleDelta → RuleDelta
unfolding feed_display_name same
with_feed_label d = elim d.key [
  | text id ↦
      if same (feed_display_name id) id then d else record d { label = text (feed_display_name id) }
  | nothing ↦ d
  | redirect r ↦ d
  | incoming i ↦ d
  | line i ↦ d
]

-- diffFeeds
unfoldable pub diff_feeds : List Text → List Text → List RuleDelta
unfolding diff_list with_feed_label
diff_feeds current staged = map with_feed_label (diff_list feeds current staged)

-- forwardID: its text is the number, a slash and the protocol, which the number cannot hold.
abbrev pub forward_id : ForwardingRule → ℤ × Text
forward_id r = (r.source_port, r.protocol)

unfoldable pub same_int : ℤ → ℤ → Bool
same_int (pos a) (pos b) = a == b
same_int (negsuc a) (negsuc b) = a == b
same_int _ _ = false

unfoldable pub same_id : ℤ × Text → ℤ × Text → Bool
unfolding same_int same
same_id (p, s) (q, t) = same_int p q && same s t

-- indexForwards: the first rule of each id.
unfoldable pub index_forwards : List ForwardingRule → ℤ × Text → Option ForwardingRule
index_forwards [] id = none
index_forwards (r ∷ rs) id = if same_id (forward_id r) id then some r else index_forwards rs id

-- The two loops of diffForwarding at one rule.
unfoldable pub forward_arrival :
    (ℤ × Text → Option ForwardingRule) → ForwardingRule → List RuleDelta
unfolding addition same_int
forward_arrival cur r = elim (cur (forward_id r)) [
  | none ↦ addition forwarding (redirect r) nothing ∷ []
  | some was ↦
      if same_int was.dest_port r.dest_port
      then []
      else record {
        set = forwarding;
        kind = changed;
        key = incoming (forward_id r);
        label = nothing;
        before = redirect was;
        after = redirect r;
      }
        ∷ []
]

unfoldable pub forward_removal :
    (ℤ × Text → Option ForwardingRule) → ForwardingRule → List RuleDelta
unfolding removal
forward_removal next r = elim (next (forward_id r)) [
  | some was ↦ []
  | none ↦ removal forwarding (redirect r) nothing ∷ []
]

-- diffForwarding
unfoldable pub diff_forwarding : List ForwardingRule → List ForwardingRule → List RuleDelta
unfolding once_each forward_arrival forward_removal
diff_forwarding current staged =
    once_each same_id forward_id (forward_arrival (index_forwards current)) [] staged
    ++ once_each same_id forward_id (forward_removal (index_forwards staged)) [] current

-- customLines
unfoldable pub custom_lines : List Text → List Text
custom_lines [] = []
custom_lines (l ∷ ls) =
    if is_list_comment l then custom_lines ls else trim_space l ∷ custom_lines ls

-- The two loops of diffCustom, over the lines from number `i` on.
unfoldable pub diff_lines : ℕ → List Text → List Text → List RuleDelta
unfolding addition removal same
diff_lines i [] [] = []
diff_lines i (c ∷ cs) [] = removal custom (line i) (text c) ∷ diff_lines (i + 1) cs []
diff_lines i [] (n ∷ ns) = addition custom (line i) (text n) ∷ diff_lines (i + 1) [] ns
diff_lines i (c ∷ cs) (n ∷ ns) =
    if same c n
    then diff_lines (i + 1) cs ns
    else record {
      set = custom;
      kind = changed;
      key = line i;
      label = nothing;
      before = text c;
      after = text n;
    }
      ∷ diff_lines (i + 1) cs ns

-- diffCustom
unfoldable pub diff_custom : List Text → List Text → List RuleDelta
unfolding diff_lines custom_lines
diff_custom current staged = diff_lines 1 (custom_lines current) (custom_lines staged)
