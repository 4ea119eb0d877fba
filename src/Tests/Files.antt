-- ===== src/Tests/Files.antt =====
-- rules.json under the calls of internal/core/rules.go.
use easywall.Prelude.{
  ◌≡◌, refl, inl, inr, ◌↔◌, ◌&&◌, if◌then◌else◌, arith, true, false, none, some, [], ◌∷◌, List,
}
use easywall.Text.{Text, codes, same}
use easywall.Store.{
  Io, Store, Payload, empty_state, backup_current, promote_staged, rollback, undecodable,
}
use easywall.Store.Invariant.{Op, saves, imports, backups, promotes, rollbacks}
use easywall.Store.History.{AllStorable, run, run_new-AllStorable}
use easywall.Store.Cycle.{good, rollback-promote_staged}
use easywall.Rules.{no_rules}
use easywall.Rules.Renamed.{Document, Json}
use easywall.Store.Import.{import_rules, import_rules-IsDocument, import_rules_ambiguous}
use easywall.Tests.Source.{numbered, numbered-IsSource}
use easywall.Tests.Samples.{
  ssh_rule, web_rule, sample_rules, sample_store, sample_rules-IsStorable, sample_rules-IdsOk,
  copied_rules,
}

abbrev tcp_payload : Payload
tcp_payload = record {
  as_ports = some (web_rule ∷ ssh_rule ∷ []);
  as_texts = none;
  as_forwards = none;
}

abbrev unwritable : Io
unwritable = record { reads = true; writes = false }

abbrev calls : List (Io × Op)
calls =
    (good, saves (codes "tcp") tcp_payload)
    ∷ (good, backups)
    ∷ (good, promotes)
    ∷ (good, imports (some copied_rules))
    ∷ (unwritable, rollbacks)
    ∷ (good, rollbacks)
    ∷ []

run_new-AllStorable_example :
    (t : Store) × (run 8 numbered calls (record { file = empty_state; next = 0 }) ≡ some t)
    × AllStorable t.file
run_new-AllStorable_example =
    run_new-AllStorable 8 numbered 2 numbered-IsSource (omega arith) calls 0
      (omega arith, (tt, (tt, ((omega arith, omega arith), (tt, (tt, tt))))))

rollback-promote_staged_example :
    let (p, e) = promote_staged good (backup_current good sample_store).0 in
    let (t, e') = rollback unwritable p in
    (e ≡ none)
    × (p.file ≡ record sample_store.file {
      current = sample_store.file.staged;
      backup = sample_store.file.current;
    })
    × ((e' ≡ none) ↔ ((unwritable.reads ≡ true) × (unwritable.writes ≡ true)))
    × (t.file ≡ (
        if unwritable.reads && unwritable.writes
        then record sample_store.file { backup = sample_store.file.current }
        else p.file))
rollback-promote_staged_example = rollback-promote_staged sample_store unwritable

-- Two documents of the sample, and one that names the blocklist both ways.
abbrev today : Document
today = record {
  plain = record sample_rules { blocklist = []; allowlist = [] };
  blocklist = some sample_rules.blocklist;
  allowlist = some sample_rules.allowlist;
  old_block = none;
  old_allow = none;
}

abbrev before : Document
before = record today {
  blocklist = none;
  allowlist = none;
  old_block = some sample_rules.blocklist;
  old_allow = some sample_rules.allowlist;
}

abbrev doubled : Document
doubled = record today { old_block = some [] }

abbrev json : Json
json = record {
  marshal_indent = λ r. some (codes "2.23");
  unmarshal = λ text r.
      if same text (codes "2.23")
      then some today
      else if same text (codes "2.22")
      then some before
      else if same text (codes "both")
      then some doubled
      else none;
}

before_read : json.unmarshal (codes "2.22") no_rules ≡ some before
unfolding same
before_read = refl

doubled_read : json.unmarshal (codes "both") no_rules ≡ some doubled
unfolding same
doubled_read = refl

import_rules-IsDocument_example :
    import_rules 8 numbered json good (codes "2.22") sample_store
    ≡ some (record sample_store { file = record sample_store.file { staged = sample_rules } }, none)
import_rules-IsDocument_example =
    import_rules-IsDocument 8 numbered json (codes "2.22") sample_rules before sample_store
      before_read
      (record { plain = refl; block = inr (inl (refl, refl)); allow = inr (inl (refl, refl)) })
      sample_rules-IsStorable sample_rules-IdsOk

-- Naming a list both ways is refused.
doubled_refused :
    import_rules 8 numbered json good (codes "both") sample_store
    ≡ some (sample_store, some undecodable)
doubled_refused =
    import_rules_ambiguous 8 numbered json good (codes "both") doubled sample_store
      sample_rules.blocklist [] doubled_read (inl (refl, refl))
