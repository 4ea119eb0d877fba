-- ===== src/Feeds/Store.antt =====
-- FeedStore of internal/core/feedstore.go, once it is loaded: feeds.json and the cache of it. A
-- record holds its prefixes where the file has their strings.
pub mod Kept
use easywall.Prelude.{
  ℕ, Bool, true, false, ◌&&◌, Option, none, some, List, [], ◌∷◌, ◌==◌, if◌then◌else◌,
}
use easywall.Text.{Text, same, contains}
use easywall.Feeds.Prefixes.{Prefix}
use easywall.Feeds.Entries.{same_prefix}

pub record StoredFeed : Type 0 where
  pub prefixes : List Prefix
  pub entries : ℕ
  pub dropped : ℕ
  pub changed_at : ℕ
  pub checked_at : ℕ

-- A map from ids to records.
abbrev pub Copies : Type 0
Copies = List (Text × StoredFeed)

pub record FeedStore : Type 0 where
  pub feeds : Copies  -- the cache
  pub file : Copies

-- Get
unfoldable pub find : Text → Copies → Option StoredFeed
find id [] = none
find id ((k, f) ∷ rest) = let later = find id rest in if same id k then some f else later

unfoldable pub set : Text → StoredFeed → Copies → Copies
set id f [] = (id, f) ∷ []
set id f ((k, g) ∷ rest) =
    let later = set id f rest in if same id k then (k, f) ∷ rest else (k, g) ∷ later

-- maps.DeleteFunc of the ids that are not in keep.
unfoldable pub only : List Text → Copies → Copies
only keep [] = []
only keep ((k, f) ∷ rest) =
    let later = only keep rest in if contains k keep then (k, f) ∷ later else later

abbrev pub same_prefixes : List Prefix → List Prefix → Bool
same_prefixes [] [] = true
same_prefixes [] (q ∷ qs) = false
same_prefixes (p ∷ ps) [] = false
same_prefixes (p ∷ ps) (q ∷ qs) = same_prefix p q && same_prefixes ps qs

abbrev pub all_kept : List Text → Copies → Bool
all_kept keep [] = true
all_kept keep ((k, f) ∷ rest) = contains k keep && all_kept keep rest

-- Whether only CheckedAt would change.
abbrev pub only_checked : StoredFeed → Option StoredFeed → Bool
only_checked f none = false
only_checked f (some c) =
    c.entries == f.entries
    && (c.dropped == f.dropped
        && (c.changed_at == f.changed_at && same_prefixes c.prefixes f.prefixes))

abbrev pub checked_now : ℕ → Option StoredFeed → StoredFeed → StoredFeed
checked_now at none f = f
checked_now at (some c) f = record c { checked_at = at }

-- Put, and whether there was an error; `writable` is whether the file could be replaced.
unfoldable pub put : Bool → Text → StoredFeed → List Text → FeedStore → FeedStore × Bool
unfolding find set only
put writable id f keep s =
    if only_checked f (find id s.feeds) && all_kept keep s.feeds
    then (record s { feeds = set id (checked_now f.checked_at (find id s.feeds) f) s.feeds }, false)
    else if writable
    then (
      record { feeds = only keep (set id f s.feeds); file = only keep (set id f s.feeds) },
      false,
    )
    else (s, true)
