-- ===== src/Rules/Renamed.antt =====
-- internal/shared/renamed.go: a rule set in JSON, whose two lists may have the names they had until
-- 2.23. encoding/json is a parameter.
use easywall.Prelude.{Option, none, some, List, ◌>>=◌}
use easywall.Text.{Text}
use easywall.Rules.{Rules}

-- What json.Unmarshal finds for the struct of UnmarshalJSON: the fields of the rule set that the
-- struct does not take over, and the two lists under either name, where the document has them.
pub record Document : Type 0 where
  pub plain : Rules
  pub blocklist : Option (List Text)
  pub allowlist : Option (List Text)
  pub old_block : Option (List Text)
  pub old_allow : Option (List Text)

-- json.MarshalIndent of a rule set, and json.Unmarshal into that struct, which begins with a rule
-- set in it.
pub record Json : Type 0 where
  pub marshal_indent : Rules → Option Text
  pub unmarshal : Text → Rules → Option Document

-- eitherSpelling
unfoldable pub either_spelling :
    Option (List Text) → Option (List Text) → List Text → Option (List Text)
either_spelling (some cur) (some legacy) keep = none
either_spelling (some cur) none keep = some cur
either_spelling none (some legacy) keep = some legacy
either_spelling none none keep = some keep

unfoldable pub read_document : Document → Rules → Option Rules
unfolding either_spelling
read_document v r = either_spelling v.blocklist v.old_block r.blocklist >>= λ block.
    either_spelling v.allowlist v.old_allow r.allowlist >>= λ allow.
    some (record v.plain { blocklist = block; allowlist = allow })

-- UnmarshalJSON
unfoldable pub unmarshal_json : Json → Text → Rules → Option Rules
unfolding read_document
unmarshal_json json text r = json.unmarshal text r >>= λ v. read_document v r
