-- ===== src/Feeds/Store/Kept.antt =====
-- The copies of feeds.json keep prefixes that may be stored.
use easywall.Prelude.{ℕ, Bool, ◌&&◌, Option, none, some, List, [], ◌∷◌, All, if-elim, subst, sym}
use easywall.Text.{Text, same, contains}
use easywall.Text.Laws.{same_eq}
use easywall.Feeds.Prefixes.{Prefix}
use easywall.Feeds.Entries.{feed_max_bits}
use easywall.Feeds.Entries.Kept.{IsKept}
use easywall.Feeds.Store
use easywall.Feeds.Store.{
  StoredFeed, Copies, FeedStore, find, set, only, only_checked, all_kept, checked_now,
}

-- The prefixes may be stored for this feed.
abbrev pub AreKept : Text → List Prefix → Type 0
AreKept id ps = All (IsKept (feed_max_bits id)) ps

abbrev pub CopiesKept : Copies → Type 0
CopiesKept cs = All (λ c. AreKept c.0 c.1.prefixes) cs

set-CopiesKept :
    (id : Text) (f : StoredFeed) (cs : Copies)
    → AreKept id f.prefixes
    → CopiesKept cs
    → CopiesKept (set id f cs)
unfolding set
set-CopiesKept id f [] h a = (h, tt)
set-CopiesKept id f ((k, g) ∷ rest) h a =
    if-elim CopiesKept (same id k) _ _
      (λ b. (subst (λ j. AreKept j f.prefixes) (same_eq id k b) h, a.1))
      (λ b. (a.0, set-CopiesKept id f rest h a.1))

only-CopiesKept : (keep : List Text) (cs : Copies) → CopiesKept cs → CopiesKept (only keep cs)
unfolding only
only-CopiesKept keep [] a = tt
only-CopiesKept keep ((k, f) ∷ rest) a =
    if-elim CopiesKept (contains k keep) _ _ (λ b. (a.0, only-CopiesKept keep rest a.1))
      (λ b. only-CopiesKept keep rest a.1)

unfoldable pub FoundKept : Text → Option StoredFeed → Type 0
FoundKept id none = Unit {0}
FoundKept id (some f) = AreKept id f.prefixes

pub find-FoundKept : (id : Text) (cs : Copies) → CopiesKept cs → FoundKept id (find id cs)
unfolding find FoundKept
find-FoundKept id [] a = tt
find-FoundKept id ((k, g) ∷ rest) a =
    if-elim {A = Option StoredFeed} (FoundKept id) (same id k) _ _
      (λ b. subst (λ j. AreKept j g.prefixes) (sym (same_eq id k b)) a.0)
      (λ b. find-FoundKept id rest a.1)

abbrev pub StoreKept : FeedStore → Type 0
StoreKept s = CopiesKept s.feeds × CopiesKept s.file

checked_now-AreKept :
    (id : Text) (at : ℕ) (had : Option StoredFeed) (f : StoredFeed)
    → FoundKept id had
    → AreKept id f.prefixes
    → AreKept id (checked_now at had f).prefixes
unfolding FoundKept
checked_now-AreKept id at none f h a = a
checked_now-AreKept id at (some c) f h a = h

pub put-StoreKept :
    (writable : Bool) (id : Text) (f : StoredFeed) (keep : List Text) (s : FeedStore)
    → AreKept id f.prefixes
    → StoreKept s
    → StoreKept (Store.put writable id f keep s).0
unfolding Store.put
put-StoreKept writable id f keep s h k =
    let old = find-FoundKept id s.feeds k.0 in
    let checked = checked_now-AreKept id f.checked_at (find id s.feeds) f old h in
    let next = only-CopiesKept keep (set id f s.feeds) (set-CopiesKept id f s.feeds h k.0) in
    if-elim {A = FeedStore × Bool} (λ r. StoreKept r.0)
      (only_checked f (find id s.feeds) && all_kept keep s.feeds) _ _
      (λ b. (set-CopiesKept id _ s.feeds checked k.0, k.1))
      (λ b.
        if-elim {A = FeedStore × Bool} (λ r. StoreKept r.0) writable _ _ (λ c. (next, next))
          (λ c. k))
