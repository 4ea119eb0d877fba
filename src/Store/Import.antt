-- ===== src/Store/Import.antt =====
-- ExportStaged and ImportRules of internal/core/rules.go, and the rule sets in JSON between them.
use easywall.Prelude.{ℕ, ◌≡◌, ◌⊎◌, inl, inr, refl, Option, none, some, List, [], ◌++◌, ◌>>=◌, arith}
use easywall.Text.{Text}
use easywall.Rules.{Rules, no_rules}
use easywall.Rules.Renamed.{Document, Json, either_spelling, read_document, unmarshal_json}
use easywall.Rules.Ids.Ensure.{IdsOk}
use easywall.Rules.Ids.Walks.{ensure_rule_ids_idem}
use easywall.Rules.Validate.Storable.{IsStorable}
use easywall.Rules.Validate.Accepts.{validate_rules-IsStorable}
use easywall.Store.{
  Io, Error, undecodable, Store, get_state, rewrite, import_checked, import_decoded,
}
use easywall.Store.Cycle.{good}

-- ExportStaged
unfoldable pub export_staged : Json → Io → Store → Option Text
unfolding get_state
export_staged json io s = get_state io s >>= λ state. json.marshal_indent state.staged

-- ImportRules, of which import_decoded is what follows the decoding.
unfoldable pub import_rules :
    ℕ → (ℕ → List ℕ) → Json → Io → Text → Store → Option (Store × Option Error)
unfolding import_decoded unmarshal_json
import_rules fuel source json io text s =
    import_decoded fuel source io (unmarshal_json json text no_rules) s

-- A document has a list under one of its two names, or under none if it is empty: Go writes a slice
-- that is nil as null.
abbrev pub Spelled : Option (List Text) → Option (List Text) → List Text → Type 0
Spelled cur legacy xs =
    ((cur ≡ some xs) × (legacy ≡ none))
    ⊎ ((cur ≡ none) × (legacy ≡ some xs))
    ⊎ ((cur ≡ none) × (legacy ≡ none) × (xs ≡ []))

-- The document of a rule set, in the names of before 2.23 or in those of today.
pub record IsDocument (r : Rules) (v : Document) : Type 0 where
  pub plain : v.plain ≡ record r { blocklist = []; allowlist = [] }
  pub block : Spelled v.blocklist v.old_block r.blocklist
  pub allow : Spelled v.allowlist v.old_allow r.allowlist

-- What json.MarshalIndent writes for the rule set, json.Unmarshal reads as a document of it.
abbrev pub IsWritten : Json → Rules → Type 0
IsWritten json r =
    (text : Text) × (v : Document) × (json.marshal_indent r ≡ some text)
    × (json.unmarshal text no_rules ≡ some v)
    × IsDocument r v

either_spelling-Spelled :
    (cur legacy : Option (List Text)) (xs : List Text)
    → Spelled cur legacy xs
    → either_spelling cur legacy [] ≡ some xs
unfolding either_spelling
either_spelling-Spelled cur legacy xs (inl (e, f)) = rw (e, f, either_spelling) refl
either_spelling-Spelled cur legacy xs (inr (inl (e, f))) = rw (e, f, either_spelling) refl
either_spelling-Spelled cur legacy xs (inr (inr (e, f, g))) = rw (e, f, g, either_spelling) refl

read_document-IsDocument :
    (r : Rules) (v : Document) → IsDocument r v → read_document v no_rules ≡ some r
unfolding read_document
read_document-IsDocument r v d =
    let b = either_spelling-Spelled v.blocklist v.old_block r.blocklist d.block in
    let a = either_spelling-Spelled v.allowlist v.old_allow r.allowlist d.allow in
    rw (b, a, d.plain, read_document) refl

-- Take a document of a rule set that is storable and whose ids are well-formed and distinct, with
-- each of the two lists under its name of today, under the one it had until 2.23, or left out where
-- it is empty. Importing it, with a file that can be read and written, replaces the staged set by
-- exactly that rule set and nothing else, and redraws no id.
pub import_rules-IsDocument :
    (fuel : ℕ) (source : ℕ → List ℕ) (json : Json) (text : Text) (r : Rules) (v : Document)
    (s : Store)
    → json.unmarshal text no_rules ≡ some v
    → IsDocument r v
    → IsStorable r
    → IdsOk [] (r.tcp ++ r.udp)
    → import_rules fuel source json good text s
      ≡ some (record s { file = record s.file { staged = r } }, none)
unfolding import_rules unmarshal_json import_decoded rewrite
import_rules-IsDocument fuel source json text r v s u d k i =
    let (w, e, n, c) = ensure_rule_ids_idem fuel source s.next r i in
    let p = (validate_rules-IsStorable r).1 k in
    let q = read_document-IsDocument r v d in
    rw (u, unmarshal_json) (rw (q, import_decoded) (rw e (rw n (rw (p, import_checked) refl))))

-- A document that names one of the two lists both ways is refused: the import changes nothing and
-- says that the data cannot be decoded.
pub import_rules_ambiguous :
    (fuel : ℕ) (source : ℕ → List ℕ) (json : Json) (io : Io) (text : Text) (v : Document)
    (s : Store) (xs ys : List Text)
    → json.unmarshal text no_rules ≡ some v
    → ((v.blocklist ≡ some xs) × (v.old_block ≡ some ys))
      ⊎ ((v.allowlist ≡ some xs) × (v.old_allow ≡ some ys))
    → import_rules fuel source json io text s ≡ some (s, some undecodable)
unfolding import_rules unmarshal_json import_decoded read_document either_spelling
import_rules_ambiguous fuel source json io text v s xs ys u h = ground (arith, u, h)
