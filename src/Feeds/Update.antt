-- ===== src/Feeds/Update.antt =====
-- Firewall.UpdateFeed of internal/core/feeds.go, with every early return. What the panic marker, the
-- rules file, the kernel and the disk answer are fields of the environment. The audit log gets the
-- refusals and the changes; a journal line is left out.
pub mod Routable
pub mod Shrink
pub mod Accepts
use easywall.Prelude.{
  ℕ, ◌+◌, ◌-◌, ◌*◌, Bool, true, false, not, ◌&&◌, ◌||◌, Option, none, some, List, [], ◌∷◌, ◌++◌,
  ltb, leb, ◌==◌, if◌then◌else◌, is_nil, length,
}
use easywall.Text.{Text, contains}
use easywall.Text.Table
use easywall.Text.Table.{Table}
use easywall.Rules.{RulesState}
use easywall.Rules.Feeds.{known_feed, is_country_feed}
use easywall.Feeds.Prefixes.{Prefix}
use easywall.Feeds.Entries.{Netip, Refusal, Checked, refused, accepted, validate_feed_entries}
use easywall.Feeds.Store
use easywall.Feeds.Store.{StoredFeed, FeedStore, find, same_prefixes}

-- shrinkWatch. `seen` 0 is a watch that is not there.
pub record ShrinkWatch : Type 0 where
  pub since : ℕ
  pub seen : ℕ

abbrev pub shrink_accept_after : ℕ
shrink_accept_after = 86400000000000

abbrev pub shrink_accept_seen : ℕ
shrink_accept_seen = 3

-- shrinks; FeedShrinkPercent is 70.
unfoldable pub shrinks : ℕ → ℕ → Bool
shrinks before after = ltb (after * 100) (before * 70)

pub data Event : Type 0 where
  feed_refused feed_updated feed_shrink_accepted : Event

pub data Error : Type 0 where
  panic_engaged apply_in_progress not_a_feed no_rules not_switched_on not_loaded : Error
  nothing_to_confirm not_routable shrank kernel_refused not_stored : Error
  invalid : Refusal → Error

-- The store, the sets in the kernel (the prefixes whose ranges were loaded), the watches of lists
-- that shrink, and the audit log, newest first.
pub record World : Type 0 where
  pub store : FeedStore
  pub kernel : Table (List Prefix)
  pub shrink : Table ShrinkWatch
  pub audit : List (Event × Text)

pub record Env : Type 0 where
  pub netip : Netip
  pub panic_first : Bool
  pub slot_free : Bool
  pub panic_second : Bool
  pub state : Option RulesState
  pub loads : Bool
  pub now : ℕ
  pub kernel_loads : Bool
  pub panic_third : Bool
  pub writable : Bool

pub record Payload : Type 0 where
  pub id : Text
  pub not_modified : Bool
  pub entries : List Text

pub record Result : Type 0 where
  pub before : ℕ
  pub after : ℕ
  pub dropped : ℕ
  pub changed : Bool
  pub loaded : Bool

abbrev pub Answer : Type 0
Answer = World × Option Result × Option Error

abbrev fail : Error → World → Answer
fail e w = (w, none, some e)

abbrev pub audited : Event → Text → World → World
audited e id w = record w { audit = (e, id) ∷ w.audit }

-- feedIDs, with an id that stands in two sets in both places.
unfoldable pub feed_ids : RulesState → List Text
feed_ids state = state.current.feeds ++ (state.staged.feeds ++ state.backup.feeds)

abbrev pub stored_of : Option StoredFeed → StoredFeed
stored_of none = record { prefixes = []; entries = 0; dropped = 0; changed_at = 0; checked_at = 0 }
stored_of (some f) = f

abbrev pub is_some : Option StoredFeed → Bool
is_some none = false
is_some (some f) = true

-- Steps 7 and 9: the file, the watch and the log. `taken` is whether a shrink was accepted.
unfoldable pub store_copy : Env → Text → RulesState → StoredFeed → Result → Bool → World → Answer
store_copy e id state next res taken w =
    let (s, failed) = Store.put e.writable id next (feed_ids state) w.store in
    if failed then (w, some res, some not_stored) else (
      let w1 = record w { store = s; shrink = Table.remove id w.shrink } in
          let w2 = if taken then audited feed_shrink_accepted id w1 else w1 in
          if res.changed then audited feed_updated id w2 else w2,
      some res,
      none,
    )

-- Step 8: the kernel before the file, for a feed that is in force.
unfoldable pub load_copy :
    Env → Text → Bool → RulesState → StoredFeed → Result → Bool → World → Answer
unfolding store_copy
load_copy e id in_current state next res taken w =
    if not in_current
    then store_copy e id state next res taken w
    else if e.kernel_loads
    then store_copy e id state next (record res { loaded = true }) taken
        (record w { kernel = Table.put id next.prefixes w.kernel })
    else if e.panic_third
    then fail panic_engaged w
    else fail kernel_refused (audited feed_refused id w)

-- The copy that is stored next, and what the answer says of it.
abbrev pub next_copy : ℕ → Option StoredFeed → List Prefix → ℕ → StoredFeed
next_copy now had kept dropped = record {
  prefixes = kept;
  entries = length kept;
  dropped = dropped;
  changed_at =
      if not (is_some had) || not (same_prefixes (stored_of had).prefixes kept)
      then now
      else (stored_of had).changed_at;
  checked_at = now;
}

abbrev pub next_result : Option StoredFeed → List Prefix → ℕ → Result
next_result had kept dropped = record {
  before = (stored_of had).entries;
  after = length kept;
  dropped = dropped;
  changed = not (is_some had) || not (same_prefixes (stored_of had).prefixes kept);
  loaded = false;
}

-- One more refusal of a list that shrank.
abbrev pub watched : ℕ → Option ShrinkWatch → ShrinkWatch
watched now none = record { since = now; seen = 1 }
watched now (some s) = record { since = if s.seen == 0 then now else s.since; seen = s.seen + 1 }

-- Whether the guard against a list that shrank is for this version.
abbrev pub is_guarded : Text → Bool → Option StoredFeed → List Prefix → Bool
is_guarded id in_current had kept =
    is_some had
    && (in_current && (not (is_country_feed id) && shrinks (stored_of had).entries (length kept)))

abbrev pub too_soon : ℕ → ShrinkWatch → Bool
too_soon now watch =
    ltb watch.seen shrink_accept_seen || ltb (now - watch.since) shrink_accept_after

-- Step 6.
unfoldable pub guard_shrink :
    Env → Text → Bool → RulesState → Option StoredFeed → List Prefix → ℕ → World → Answer
unfolding load_copy shrinks
guard_shrink e id in_current state had kept dropped w =
    let watch = watched e.now (w.shrink id) in
    let next = next_copy e.now had kept dropped in
    let res = next_result had kept dropped in
    if is_guarded id in_current had kept
    then (if too_soon e.now watch
        then fail shrank
            (audited feed_refused id (record w { shrink = Table.put id watch w.shrink }))
        else load_copy e id in_current state next res true w)
    else load_copy e id in_current state next res false w

-- Steps 3 to 5, reported.
unfoldable pub take_entries :
    Env → Text → Bool → RulesState → Option StoredFeed → Checked → World → Answer
unfolding guard_shrink
take_entries e id in_current state had (refused why) w =
    fail (invalid why) (audited feed_refused id w)
take_entries e id in_current state had (accepted kept dropped) w =
    if is_nil kept
    then fail not_routable (audited feed_refused id w)
    else guard_shrink e id in_current state had kept dropped w

-- A 304.
unfoldable pub confirm_copy : Env → Text → RulesState → Option StoredFeed → World → Answer
confirm_copy e id state none w = fail nothing_to_confirm w
confirm_copy e id state (some f) w =
    let res : Result = record {
      before = f.entries;
      after = f.entries;
      dropped = f.dropped;
      changed = false;
      loaded = false;
    } in
    let (s, failed) =
      Store.put e.writable id (record f { checked_at = e.now }) (feed_ids state) w.store in
    (
      record w { store = s; shrink = Table.remove id w.shrink },
      some res,
      if failed then some not_stored else none,
    )

-- Step 2 and what follows, under the apply slot and with what the rules file says.
unfoldable pub update_under_slot : Env → Payload → Option RulesState → World → Answer
unfolding take_entries confirm_copy
update_under_slot e p none w = fail no_rules w
update_under_slot e p (some state) w =
    let in_current = contains p.id state.current.feeds in
    if not in_current && not (contains p.id state.staged.feeds)
    then fail not_switched_on w
    else if not e.loads
    then fail not_loaded w
    else if p.not_modified
    then confirm_copy e p.id state (find p.id w.store.feeds) w
    else take_entries e p.id in_current state (find p.id w.store.feeds)
        (validate_feed_entries e.netip p.id p.entries) w

-- UpdateFeed.
unfoldable pub update_feed : Env → Payload → World → Answer
unfolding update_under_slot
update_feed e p w =
    if e.panic_first
    then fail panic_engaged w
    else if not e.slot_free
    then fail apply_in_progress w
    else if e.panic_second
    then fail panic_engaged w
    else if not (known_feed p.id)
    then fail not_a_feed (audited feed_refused [] w)
    else update_under_slot e p e.state w
