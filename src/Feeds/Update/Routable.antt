-- ===== src/Feeds/Update/Routable.antt =====
-- Whatever the web process sends, the kernel's sets and feeds.json hold prefixes that the core may
-- store, and a refusal leaves both as they were.
use easywall.Prelude.{
  ℕ, ◌≡◌, Bool, true, false, not, ◌&&◌, Option, none, some, List, if◌then◌else◌, if-elim, refl,
  subst, sym, arith, is_nil,
}
use easywall.Text.{Text, same, contains}
use easywall.Text.Laws.{same_eq}
use easywall.Text.Table
use easywall.Text.Table.{Table}
use easywall.Rules.{RulesState}
use easywall.Rules.Feeds.{known_feed}
use easywall.Feeds.Prefixes.{Prefix}
use easywall.Feeds.Entries.{Checked, refused, accepted, validate_feed_entries}
use easywall.Feeds.Entries.Kept.{validate_feed_entries-IsKept}
use easywall.Feeds.Store
use easywall.Feeds.Store.{
  StoredFeed, Copies, FeedStore, find, set, only, only_checked, all_kept, checked_now,
}
use easywall.Feeds.Update.{
  World, Env, Payload, Result, Answer, Event, feed_updated, feed_shrink_accepted, audited, feed_ids,
  next_copy, next_result, is_guarded, too_soon, watched, store_copy, load_copy, guard_shrink,
  take_entries, confirm_copy, update_under_slot, update_feed,
}
use easywall.Feeds.Store.Kept.{AreKept, CopiesKept, FoundKept, find-FoundKept, put-StoreKept}

abbrev KeptIn : Text → Option (List Prefix) → Type 0
KeptIn id none = Unit {0}
KeptIn id (some ps) = AreKept id ps

-- The cache, the file and the kernel hold only what may be stored.
abbrev pub AllKept : World → Type 0
AllKept w =
    CopiesKept w.store.feeds × CopiesKept w.store.file × ((id : Text) → KeptIn id (w.kernel id))

-- What an update leaves: an answer without a result has changed neither the store nor the kernel.
abbrev pub Leaves : World → Answer → Type 0
Leaves w (w', r, err) = AllKept w' × (r ≡ none → (w'.store ≡ w.store) × (w'.kernel ≡ w.kernel))

-- The kernel's sets, after one of them was replaced.
put-KeptIn :
    (id : Text) (ps : List Prefix) (kernel : Table (List Prefix))
    → AreKept id ps
    → ((j : Text) → KeptIn j (kernel j))
    → (j : Text) → KeptIn j (Table.put id ps kernel j)
unfolding Table.put
put-KeptIn id ps kernel h k j =
    if-elim {A = Option (List Prefix)} (KeptIn j) (same j id) _ _
      (λ b. subst (λ i. AreKept i ps) (sym (same_eq j id b)) h) (λ b. k j)

-- Lines of the audit log change nothing of it.
audited-AllKept :
    (taken : Bool) (event : Event) (id : Text) (w : World)
    → AllKept w
    → AllKept (if taken then audited event id w else w)
audited-AllKept true event id w k = k
audited-AllKept false event id w k = k

store_copy-Leaves :
    (e : Env) (id : Text) (state : RulesState) (next : StoredFeed) (res : Result) (taken : Bool)
    (start w : World)
    → AreKept id next.prefixes
    → AllKept w
    → Leaves start (store_copy e id state next res taken w)
unfolding store_copy
store_copy-Leaves e id state next res taken start w h k =
    let written = Store.put e.writable id next (feed_ids state) w.store in
    let kept = put-StoreKept e.writable id next (feed_ids state) w.store h (k.0, k.1) in
    let w1 : World = record w { store = written.0; shrink = Table.remove id w.shrink } in
    if-elim {A = Answer} (Leaves start) written.1 _ _ (λ b. (k, λ n. ground (arith, n)))
      (λ b. (
        audited-AllKept res.changed feed_updated id
            (if taken then audited feed_shrink_accepted id w1 else w1)
            (audited-AllKept taken feed_shrink_accepted id w1 (kept.0, kept.1, k.2)),
        λ n. ground (arith, n),
      ))

load_copy-Leaves :
    (e : Env) (id : Text) (in_current : Bool) (state : RulesState) (next : StoredFeed)
    (res : Result) (taken : Bool) (w : World)
    → AreKept id next.prefixes
    → AllKept w
    → Leaves w (load_copy e id in_current state next res taken w)
unfolding load_copy
load_copy-Leaves e id in_current state next res taken w h k =
    if-elim {A = Answer} (Leaves w) (not in_current) _ _
      (λ b. store_copy-Leaves e id state next res taken w w h k)
      (λ b.
        if-elim {A = Answer} (Leaves w) e.kernel_loads _ _
          (λ c.
            store_copy-Leaves e id state next _ taken w
              (record w { kernel = Table.put id next.prefixes w.kernel }) h
              (k.0, k.1, put-KeptIn id next.prefixes w.kernel h k.2))
          (λ c.
            if-elim {A = Answer} (Leaves w) e.panic_third _ _ (λ d. (k, λ n. (refl, refl)))
              (λ d. (k, λ n. (refl, refl)))))

guard_shrink-Leaves :
    (e : Env) (id : Text) (in_current : Bool) (state : RulesState) (had : Option StoredFeed)
    (kept : List Prefix) (dropped : ℕ) (w : World)
    → AreKept id kept
    → AllKept w
    → Leaves w (guard_shrink e id in_current state had kept dropped w)
unfolding guard_shrink
guard_shrink-Leaves e id in_current state had kept dropped w h k =
    if-elim {A = Answer} (Leaves w) (is_guarded id in_current had kept) _ _
      (λ b.
        if-elim {A = Answer} (Leaves w) (too_soon e.now (watched e.now (w.shrink id))) _ _
          (λ c. (k, λ n. (refl, refl)))
          (λ c.
            load_copy-Leaves e id in_current state (next_copy e.now had kept dropped)
              (next_result had kept dropped) true w h k))
      (λ b.
        load_copy-Leaves e id in_current state (next_copy e.now had kept dropped)
          (next_result had kept dropped) false w h k)

take_entries-Leaves :
    (e : Env) (id : Text) (in_current : Bool) (state : RulesState) (had : Option StoredFeed)
    (checked : Checked) (w : World)
    → ((kept : List Prefix) → (dropped : ℕ) → checked ≡ accepted kept dropped → AreKept id kept)
    → AllKept w
    → Leaves w (take_entries e id in_current state had checked w)
unfolding take_entries
take_entries-Leaves e id in_current state had (refused why) w h k = (k, λ n. (refl, refl))
take_entries-Leaves e id in_current state had (accepted kept dropped) w h k =
    if-elim {A = Answer} (Leaves w) (is_nil kept) _ _ (λ b. (k, λ n. (refl, refl)))
      (λ b. guard_shrink-Leaves e id in_current state had kept dropped w (h kept dropped refl) k)

confirm_copy-Leaves :
    (e : Env) (id : Text) (state : RulesState) (had : Option StoredFeed) (w : World)
    → FoundKept id had
    → AllKept w
    → Leaves w (confirm_copy e id state had w)
unfolding confirm_copy FoundKept
confirm_copy-Leaves e id state none w h k = (k, λ n. (refl, refl))
confirm_copy-Leaves e id state (some f) w h k =
    let next : StoredFeed = record f { checked_at = e.now } in
    let kept = put-StoreKept e.writable id next (feed_ids state) w.store h (k.0, k.1) in
    ((kept.0, kept.1, k.2), λ n. ground (arith, n))

validated-AreKept :
    (e : Env) (p : Payload) (kept : List Prefix) (dropped : ℕ)
    → validate_feed_entries e.netip p.id p.entries ≡ accepted kept dropped
    → AreKept p.id kept
validated-AreKept e p kept dropped v =
    let (all, _, _) = validate_feed_entries-IsKept e.netip p.id p.entries kept dropped v in all

under_slot-Leaves :
    (e : Env) (p : Payload) (state : Option RulesState) (w : World)
    → AllKept w
    → Leaves w (update_under_slot e p state w)
unfolding update_under_slot
under_slot-Leaves e p none w k = (k, λ n. (refl, refl))
under_slot-Leaves e p (some state) w k =
    let in_current = contains p.id state.current.feeds in
    if-elim {A = Answer} (Leaves w) (not in_current && not (contains p.id state.staged.feeds)) _ _
      (λ b. (k, λ n. (refl, refl)))
      (λ b.
        if-elim {A = Answer} (Leaves w) (not e.loads) _ _ (λ c. (k, λ n. (refl, refl)))
          (λ c.
            if-elim {A = Answer} (Leaves w) p.not_modified _ _
              (λ d.
                confirm_copy-Leaves e p.id state (find p.id w.store.feeds) w
                  (find-FoundKept p.id w.store.feeds k.0) k)
              (λ d.
                take_entries-Leaves e p.id in_current state (find p.id w.store.feeds) _ w
                  (validated-AreKept e p) k)))

-- No feed can block the local network, whatever the web process sends. If the cache of feeds.json,
-- the file and the kernel's sets hold only prefixes that are no broader than their feed's limit
-- and hold routable addresses alone, they still do after any UpdateFeed, whatever fails; and one
-- that answers without a result has changed neither the store nor the kernel.
pub update_feed-Leaves :
    (e : Env) (p : Payload) (w : World) → AllKept w → Leaves w (update_feed e p w)
unfolding update_feed
update_feed-Leaves e p w k =
    if-elim {A = Answer} (Leaves w) e.panic_first _ _ (λ b. (k, λ n. (refl, refl)))
      (λ b.
        if-elim {A = Answer} (Leaves w) (not e.slot_free) _ _ (λ c. (k, λ n. (refl, refl)))
          (λ c.
            if-elim {A = Answer} (Leaves w) e.panic_second _ _ (λ d. (k, λ n. (refl, refl)))
              (λ d.
                if-elim {A = Answer} (Leaves w) (not (known_feed p.id)) _ _
                  (λ g. (k, λ n. (refl, refl))) (λ g. under_slot-Leaves e p e.state w k))))
