-- ===== src/Feeds/Update/Accepts.antt =====
-- An update that nothing stands against reaches the kernel and the store.
use easywall.Prelude.{
  ℕ, ◌≡◌, Bool, true, false, ◌&&◌, Option, none, some, List, [], ◌∷◌, ◌++◌, if◌then◌else◌, if-elim,
  refl, subst, sym, arith, is_nil, ◌∙◌,
}
use easywall.Text.{Text, same, contains}
use easywall.Text.Laws.{same_refl, same_iff}
use easywall.Text.Table
use easywall.Text.Table.{get-put}
use easywall.Rules.{RulesState}
use easywall.Rules.Feeds.{known_feed}
use easywall.Feeds.Prefixes.{Prefix}
use easywall.Feeds.Entries.{accepted, validate_feed_entries}
use easywall.Feeds.Store
use easywall.Feeds.Store.{
  StoredFeed, Copies, FeedStore, find, set, only, only_checked, all_kept, checked_now,
  same_prefixes,
}
use easywall.Feeds.Update.{
  World, Env, Event, Payload, Result, Answer, feed_ids, is_guarded, next_copy, next_result, audited,
  feed_updated, feed_shrink_accepted, store_copy, load_copy, guard_shrink, take_entries,
  update_under_slot, update_feed,
}

-- A copy with these prefixes.
abbrev pub HasPrefixes : List Prefix → Option StoredFeed → Type 0
HasPrefixes ps none = ⊥
HasPrefixes ps (some f) = same_prefixes f.prefixes ps ≡ true

same_prefixes_refl : (ps : List Prefix) → same_prefixes ps ps ≡ true
same_prefixes_refl [] = refl
same_prefixes_refl (p ∷ ps) = ground (arith, same_prefixes_refl ps)

find-set : (id : Text) (f : StoredFeed) (cs : Copies) → find id (set id f cs) ≡ some f
unfolding find set
find-set id f [] = rw (same_refl id) refl
find-set id f ((k, g) ∷ rest) =
    if-elim {A = Copies} (λ cs. find id cs ≡ some f) (same id k) _ _ (λ b. rw b refl)
      (λ b. rw b (find-set id f rest))

find-only :
    (id : Text) (keep : List Text) (cs : Copies)
    → contains id keep ≡ true
    → find id (only keep cs) ≡ find id cs
unfolding find only
find-only id keep [] h = refl
find-only id keep ((k, f) ∷ rest) h = ground (arith, h, find-only id keep rest h, same_iff id k)

checked_now-HasPrefixes :
    (at : ℕ) (had : Option StoredFeed) (f : StoredFeed)
    → only_checked f had ≡ true
    → HasPrefixes f.prefixes (some (checked_now at had f))
checked_now-HasPrefixes at none f h = ground (arith, h)
checked_now-HasPrefixes at (some c) f h = ground (arith, h)

-- A put that can write succeeds, and its copy is found.
abbrev Stores : Text → List Prefix → FeedStore × Bool → Type 0
Stores id ps r = (r.1 ≡ false) × HasPrefixes ps (find id r.0.feeds)

put-Stores :
    (id : Text) (f : StoredFeed) (keep : List Text) (s : FeedStore)
    → contains id keep ≡ true
    → Stores id f.prefixes (Store.put true id f keep s)
unfolding Store.put
put-Stores id f keep s h =
    if-elim {A = FeedStore × Bool} (Stores id f.prefixes)
      (only_checked f (find id s.feeds) && all_kept keep s.feeds) _ _
      (λ b.
        let checked =
          checked_now-HasPrefixes f.checked_at (find id s.feeds) f (ground (arith, b)) in
        (refl, subst (HasPrefixes f.prefixes) (sym (find-set id _ s.feeds)) checked))
      (λ b. (
        refl,
        subst (HasPrefixes f.prefixes)
            (sym (find-only id keep (set id f s.feeds) h ∙ find-set id f s.feeds))
            (same_prefixes_refl f.prefixes),
      ))

contains-append :
    (x : Text) (xs ys : List Text) → contains x xs ≡ true → contains x (xs ++ ys) ≡ true
unfolding contains
contains-append x [] ys h = ground (arith, h)
contains-append x (y ∷ xs) ys h = ground (arith, h, contains-append x xs ys)

-- This list in the kernel's set and in the store.
abbrev pub Holds : Text → List Prefix → World → Type 0
Holds id ps w = (w.kernel id ≡ some ps) × HasPrefixes ps (find id w.store.feeds)

-- No error, and the list is held.
abbrev pub Takes : Text → List Prefix → Answer → Type 0
Takes id ps (w, r, err) = (err ≡ none) × Holds id ps w

audited-Holds :
    (b : Bool) (event : Event) (id : Text) (ps : List Prefix) (w : World)
    → Holds id ps w
    → Holds id ps (if b then audited event id w else w)
audited-Holds true event id ps w h = h
audited-Holds false event id ps w h = h

store_copy-Takes :
    (e : Env) (id : Text) (state : RulesState) (next : StoredFeed) (res : Result) (taken : Bool)
    (w : World)
    → e.writable ≡ true
    → contains id state.current.feeds ≡ true
    → w.kernel id ≡ some next.prefixes
    → Takes id next.prefixes (store_copy e id state next res taken w)
unfolding store_copy feed_ids
store_copy-Takes e id state next res taken w h c k =
    let keep = state.current.feeds ++ (state.staged.feeds ++ state.backup.feeds) in
    let stored : Stores id next.prefixes (Store.put e.writable id next keep w.store) =
      subst (λ b. Stores id next.prefixes (Store.put b id next keep w.store)) (sym h)
        (put-Stores id next keep w.store (contains-append id state.current.feeds _ c)) in
    let w1 : World = record w {
      store = (Store.put e.writable id next keep w.store).0;
      shrink = Table.remove id w.shrink;
    } in
    if-elim {A = Answer} (Takes id next.prefixes) (Store.put e.writable id next keep w.store).1 _ _
      (λ b. ground (arith, b, stored.0))
      (λ b. (
        refl,
        audited-Holds res.changed feed_updated id next.prefixes
            (if taken then audited feed_shrink_accepted id w1 else w1)
            (audited-Holds taken feed_shrink_accepted id next.prefixes w1 (k, stored.1)),
      ))

load_copy-Takes :
    (e : Env) (id : Text) (state : RulesState) (next : StoredFeed) (res : Result) (taken : Bool)
    (w : World)
    → e.kernel_loads ≡ true
    → e.writable ≡ true
    → contains id state.current.feeds ≡ true
    → Takes id next.prefixes (load_copy e id true state next res taken w)
unfolding load_copy
load_copy-Takes e id state next res taken w l h c =
    if-elim {A = Answer} (Takes id next.prefixes) e.kernel_loads _ _
      (λ b.
        store_copy-Takes e id state next _ taken
          (record w { kernel = Table.put id next.prefixes w.kernel }) h c
          (get-put id next.prefixes w.kernel))
      (λ b. ground (arith, b, l))

guard_shrink-Takes :
    (e : Env) (id : Text) (state : RulesState) (had : Option StoredFeed) (kept : List Prefix)
    (dropped : ℕ) (w : World)
    → is_guarded id true had kept ≡ false
    → e.kernel_loads ≡ true
    → e.writable ≡ true
    → contains id state.current.feeds ≡ true
    → Takes id kept (guard_shrink e id true state had kept dropped w)
unfolding guard_shrink
guard_shrink-Takes e id state had kept dropped w g l h c =
    if-elim {A = Answer} (Takes id kept) (is_guarded id true had kept) _ _
      (λ b. ground (arith, b, g))
      (λ b.
        load_copy-Takes e id state (next_copy e.now had kept dropped) (next_result had kept dropped)
          false w l h c)

take_entries-Takes :
    (e : Env) (id : Text) (state : RulesState) (had : Option StoredFeed) (kept : List Prefix)
    (dropped : ℕ) (w : World)
    → is_nil kept ≡ false
    → is_guarded id true had kept ≡ false
    → e.kernel_loads ≡ true
    → e.writable ≡ true
    → contains id state.current.feeds ≡ true
    → Takes id kept (take_entries e id true state had (accepted kept dropped) w)
unfolding take_entries
take_entries-Takes e id state had kept dropped w n g l h c =
    if-elim {A = Answer} (Takes id kept) (is_nil kept) _ _ (λ b. ground (arith, b, n))
      (λ b. guard_shrink-Takes e id state had kept dropped w g l h c)

-- For a known feed that the rules file has in force, with the panic marker away, the slot free, the
-- table loaded, and a kernel and a disk that answer: if the check of the entries keeps a list that is
-- not empty and is no guarded shrink of the stored copy, the update answers no error, the kernel's
-- set is that list, and the store has a copy with the same prefixes.
pub update_feed-Takes :
    (e : Env) (p : Payload) (state : RulesState) (kept : List Prefix) (dropped : ℕ) (w : World)
    → e.panic_first ≡ false
    → e.slot_free ≡ true
    → e.panic_second ≡ false
    → known_feed p.id ≡ true
    → e.state ≡ some state
    → contains p.id state.current.feeds ≡ true
    → e.loads ≡ true
    → p.not_modified ≡ false
    → validate_feed_entries e.netip p.id p.entries ≡ accepted kept dropped
    → is_nil kept ≡ false
    → is_guarded p.id true (find p.id w.store.feeds) kept ≡ false
    → e.kernel_loads ≡ true
    → e.writable ≡ true
    → Takes p.id kept (update_feed e p w)
unfolding update_feed update_under_slot
update_feed-Takes e p state kept dropped w p1 s p2 known st c lo fresh v n g kl wr =
    let step =
      take_entries-Takes e p.id state (find p.id w.store.feeds) kept dropped w n g kl wr c in
    rw (p1, s, p2, known, st, c, lo, fresh, v) step
