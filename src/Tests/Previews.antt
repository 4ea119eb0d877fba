-- ===== src/Tests/Previews.antt =====
-- Previews of internal/shared/diff.go.
use easywall.Prelude.{◌≡◌, ◌↔◌, refl, [], ◌∷◌}
use easywall.Text.{codes}
use easywall.Rules.Validate.{is_list_comment}
use easywall.Rules.{no_rules}
use easywall.Diff.{custom, added, line, nothing, text, diff_rules, diff_custom}
use easywall.Diff.Pending.{SameRules, diff_rules-SameRules}
use easywall.Tests.Samples.{sample_rules}

diff_rules-SameRules_example :
    (diff_rules no_rules sample_rules ≡ []) ↔ SameRules no_rules sample_rules
diff_rules-SameRules_example = diff_rules-SameRules no_rules sample_rules

-- A comment is no rule: the line that the preview names counts the list without its comments.
custom_rule_behind_comment :
    diff_custom [] (codes "# trace" ∷ codes "-A INPUT -j LOG" ∷ [])
    ≡ record {
      set = custom;
      kind = added;
      key = line 1;
      label = text (codes "-A INPUT -j LOG");
      before = nothing;
      after = nothing;
    }
      ∷ []
unfolding diff_custom is_list_comment
custom_rule_behind_comment = refl
