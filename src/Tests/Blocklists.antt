-- ===== src/Tests/Blocklists.antt =====
-- Feeds of internal/core/feeds.go.
use easywall.Prelude.{
  arith, ℕ, ◌+◌, ◌≡◌, ◌↔◌, refl, true, false, Option, none, some, List, [], ◌∷◌, if◌then◌else◌,
}
use easywall.Text.{Text, codes, same, trim_space}
use easywall.Text.Table
use easywall.Text.Table.{empty_table}
use easywall.Rules.{RulesState, no_rules}
use easywall.Rules.Feeds.{known_feed, is_country_feed}
use easywall.Feeds.Prefixes.{Addr, Prefix, is_global, entirely_non_global}
use easywall.Feeds.Entries.{Netip, accepted, refused, too_broad, validate_feed_entries}
use easywall.Feeds.Ranges.{key, merge_ranges, overlaps_any}
use easywall.Feeds.Ranges.Merged.{Apart, InSome, Held, only_addr, merge_ranges-Held}
use easywall.Feeds.Store
use easywall.Feeds.Store.{StoredFeed, find}
use easywall.Feeds.Update.{World, Env, Payload, Result, shrank, shrinks, feed_ids, update_feed}
use easywall.Feeds.Update.Routable.{AllKept, Leaves, update_feed-Leaves}
use easywall.Feeds.Update.Shrink.Accepted.{run, ADayOfRefusals, update_feed-ADayOfRefusals}

abbrev net : ℕ → ℕ → Prefix
net value bits = record { addr = record { six = false; value = value; zone = false }; bits = bits }

-- "a" is 8.8.8.0/24, "b" is 9.9.0.0/16, "l" is 10.0.0.0/8, and "w" is 100.0.0.0/4.
abbrev sample_prefix : Text → Option Prefix
sample_prefix s =
    if same s (codes "a")
    then some (net 134744064 24)
    else if same s (codes "b")
    then some (net 151584768 16)
    else if same s (codes "l")
    then some (net 167772160 8)
    else if same s (codes "w")
    then some (net 1610612736 4)
    else none

abbrev netip : Netip
netip = record { parse_addr = λ s. none; parse_prefix = sample_prefix }

abbrev own : Text
own = codes "own-1"

abbrev lines : List Text
lines = codes "b" ∷ (codes "l" ∷ (codes "a" ∷ (codes "a" ∷ [])))

-- The local network is dropped, and the rest is sorted and kept once.
lines_checked :
    validate_feed_entries netip own lines ≡ accepted (net 134744064 24 ∷ (net 151584768 16 ∷ [])) 1
unfolding validate_feed_entries same trim_space entirely_non_global is_country_feed is_global
lines_checked = refl

-- One that is broader than /8 refuses the update.
wide_refused :
    validate_feed_entries netip own (codes "w" ∷ []) ≡ refused (too_broad (net 1610612736 4))
unfolding validate_feed_entries same trim_space entirely_non_global is_country_feed
wide_refused = refl

abbrev enabled : RulesState
enabled = record {
  current = record no_rules { feeds = own ∷ [] };
  staged = record no_rules { feeds = own ∷ [] };
  backup = no_rules;
}

abbrev at_hour : ℕ → Env
at_hour h = record {
  netip = netip;
  panic_first = false;
  slot_free = true;
  panic_second = false;
  state = some enabled;
  loads = true;
  now = h;
  kernel_loads = true;
  panic_third = false;
  writable = true;
}

abbrev sends : List Text → Payload
sends entries = record { id = own; not_modified = false; entries = entries }

abbrev fresh_start : World
fresh_start = record {
  store = record { feeds = []; file = [] };
  kernel = empty_table;
  shrink = empty_table;
  audit = [];
}

fresh_start-AllKept : AllKept fresh_start
fresh_start-AllKept = (tt, tt, λ id. tt)

update_feed-Leaves_example : Leaves fresh_start (update_feed (at_hour 10) (sends lines) fresh_start)
update_feed-Leaves_example =
    update_feed-Leaves (at_hour 10) (sends lines) fresh_start fresh_start-AllKept

-- Two entries, then one, three times: the third, more than a day after the first, is taken.
abbrev day : ℕ
day = 86400000000000

abbrev updates : List (Env × Payload)
updates =
    (at_hour 10, sends lines)
    ∷ ((at_hour 20, sends (codes "a" ∷ [])) ∷ ((at_hour 30, sends (codes "a" ∷ [])) ∷ []))

abbrev taken : Env
taken = at_hour (day + 40)

abbrev two_entries : StoredFeed
two_entries = record {
  prefixes = net 134744064 24 ∷ (net 151584768 16 ∷ []);
  entries = 2;
  dropped = 1;
  changed_at = 10;
  checked_at = 10;
}

abbrev shorter : Result
shorter = record { before = 2; after = 1; dropped = 0; changed = true; loaded = true }

copy_before : find own (run own updates (fresh_start, [])).0.store.feeds ≡ some two_entries
unfolding run update_feed known_feed validate_feed_entries trim_space entirely_non_global
    is_country_feed is_global find Store.put feed_ids Table.remove Table.put
copy_before = refl

third_time_it_is_answered :
    (update_feed taken (sends (codes "a" ∷ [])) (run own updates (fresh_start, [])).0).1
    ≡ some shorter
unfolding run update_feed known_feed validate_feed_entries trim_space entirely_non_global
    is_country_feed is_global find Store.put feed_ids Table.remove Table.put
third_time_it_is_answered = refl

no_error :
    (update_feed taken (sends (codes "a" ∷ [])) (run own updates (fresh_start, [])).0).2 ≡ none
unfolding run update_feed known_feed validate_feed_entries trim_space entirely_non_global
    is_country_feed is_global find Store.put feed_ids Table.remove Table.put
no_error = refl

update_feed-ADayOfRefusals_example : ADayOfRefusals (day + 40) (run own updates (fresh_start, [])).1
unfolding is_country_feed same shrinks
update_feed-ADayOfRefusals_example =
    update_feed-ADayOfRefusals updates taken (sends (codes "a" ∷ [])) fresh_start enabled
      two_entries shorter refl refl refl copy_before refl third_time_it_is_answered no_error refl

-- Right after the second refusal it is not taken.
still_refused :
    (update_feed (at_hour 40) (sends (codes "a" ∷ [])) (run own updates (fresh_start, [])).0).2
    ≡ some shrank
unfolding run update_feed known_feed validate_feed_entries trim_space entirely_non_global
    is_country_feed is_global find Store.put feed_ids Table.remove Table.put
still_refused = refl

abbrev resolver : Addr
resolver = record { six = false; value = 134744072; zone = false }

-- Two neighbours, and a prefix within one of them.
abbrev neighbours : List Prefix
neighbours = net 134744320 24 ∷ (net 134744064 24 ∷ (net 134744072 32 ∷ []))

merge_ranges-Held_example :
    Apart (merge_ranges neighbours)
    × (InSome (key resolver) (merge_ranges neighbours) ↔ Held resolver neighbours)
    × ((overlaps_any (merge_ranges neighbours) (only_addr resolver) ≡ true)
        ↔ Held resolver neighbours)
merge_ranges-Held_example =
    merge_ranges-Held resolver neighbours (refl, λ e. omega arith)
      ((refl, λ e. omega arith), ((refl, λ e. omega arith), ((refl, λ e. omega arith), tt)))

-- They become one range.
merged_to_one :
    merge_ranges neighbours
    ≡ record { from = (net 134744064 24).addr; to = (net 134744575 32).addr } ∷ []
unfolding merge_ranges
merged_to_one = refl
