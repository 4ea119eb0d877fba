-- ===== src/Feeds/Update/Shrink/Accepted.antt =====
-- When a shorter list is taken: what the answers before it were.
use easywall.Prelude.{
  ℕ, ◌+◌, ◌≤◌, ◌≡◌, ◌≢◌, Bool, true, false, not, ◌&&◌, Option, none, some, List, [], ◌∷◌,
  if◌then◌else◌, if-elim, refl, subst, sym, arith, is_nil, length,
}
use easywall.Text.{Text, same, contains}
use easywall.Text.Laws.{same_iff, same_eq}
use easywall.Rules.{RulesState}
use easywall.Rules.Feeds.{known_feed, is_country_feed}
use easywall.Feeds.Prefixes.{Prefix}
use easywall.Feeds.Entries.{Checked, refused, accepted, validate_feed_entries}
use easywall.Feeds.Store
use easywall.Feeds.Store.{StoredFeed, find}
use easywall.Feeds.Update.{
  World, Env, Payload, Result, Error, Answer, ShrinkWatch, shrink_accept_after, shrinks, feed_ids,
  watched, is_guarded, too_soon, next_copy, next_result, store_copy, load_copy, guard_shrink,
  take_entries, confirm_copy, update_under_slot, update_feed,
}
use easywall.Feeds.Update.Shrink.{Agrees, Tracks, note, refusal, update_feed-Tracks}

-- Updates of any feeds, and the refusals of x among them.
unfoldable pub run : Text → List (Env × Payload) → World × List ℕ → World × List ℕ
run x [] s = s
run x ((e, p) ∷ us) (w, rs) =
    let a = update_feed e p w in run x us (a.0, if same p.id x then note e.now a.2 rs else rs)

step-Agrees :
    (x : Text) (rs : List ℕ) (e : Env) (p : Payload) (w : World)
    → Agrees (w.shrink x) rs
    → Agrees
        ((update_feed e p w).0.shrink x)
        (if same p.id x then note e.now (update_feed e p w).2 rs else rs)
unfolding Tracks
step-Agrees x rs e p w h =
    let tracks = update_feed-Tracks x rs e p w h in
    if-elim (Agrees ((update_feed e p w).0.shrink x)) (same p.id x) _ _
      (λ b. tracks.0 (same_eq p.id x b))
      (λ b.
        let others : x ≢ p.id = ground (arith, b, same_iff p.id x) in
        subst (λ s. Agrees s rs) (sym (tracks.1 others)) h)

run-Agrees :
    (x : Text) (us : List (Env × Payload)) (w : World) (rs : List ℕ)
    → Agrees (w.shrink x) rs
    → Agrees ((run x us (w, rs)).0.shrink x) (run x us (w, rs)).1
unfolding run
run-Agrees x [] w rs h = h
run-Agrees x ((e, p) ∷ us) w rs h =
    run-Agrees x us (update_feed e p w).0 _ (step-Agrees x rs e p w h)

-- Two refusals in a row, and the first of the run of them a day ago.
abbrev pub ADayOfRefusals : ℕ → List ℕ → Type 0
ADayOfRefusals now rs =
    (k : ℕ) × (since : ℕ) × (2 ≤ k)
    × (refusal k rs ≡ some since)
    × (since + shrink_accept_after ≤ now)

watch_facts :
    (now : ℕ) (s : ShrinkWatch) (rs : List ℕ)
    → Agrees (some s) rs
    → too_soon now (watched now (some s)) ≡ false
    → (2 ≤ s.seen) × (s.since + shrink_accept_after ≤ now) × (refusal s.seen rs ≡ some s.since)
watch_facts now s rs h t = ground (arith, h, t)

too_soon-ADay :
    (now : ℕ) (watch : Option ShrinkWatch) (rs : List ℕ)
    → Agrees watch rs
    → too_soon now (watched now watch) ≡ false
    → ADayOfRefusals now rs
too_soon-ADay now none rs h t = ground (arith, t)
too_soon-ADay now (some s) rs h t =
    let (many, far, last) = watch_facts now s rs h t in (s.seen, s.since, many, last, far)

AfterIs : ℕ → Answer → Type 0
AfterIs n a = (r : Result) → a.1 ≡ some r → r.after ≡ n

-- A success that leaves less than 70 % of the old count comes after such refusals.
Short : ℕ → ℕ → List ℕ → Answer → Type 0
Short old now rs a =
    (r : Result) → a.1 ≡ some r → a.2 ≡ none → shrinks old r.after ≡ true → ADayOfRefusals now rs

none-AfterIs : (n : ℕ) (w : World) (err : Option Error) → AfterIs n (w, none, err)
unfolding AfterIs
none-AfterIs n w err r q = ground (arith, q)

some-AfterIs :
    (n : ℕ) (w : World) (err : Option Error) (res : Result)
    → res.after ≡ n
    → AfterIs n (w, some res, err)
unfolding AfterIs
some-AfterIs n w err res h r q = ground (arith, q, h)

module _ (e : Env) (id : Text) (state : RulesState) (next : StoredFeed) (taken : Bool) (n : ℕ) where
  store_copy-AfterIs :
      (res : Result) (w : World)
      → res.after ≡ n
      → AfterIs n (store_copy e id state next res taken w)
  unfolding store_copy
  store_copy-AfterIs res w h =
      if-elim {A = Answer} (AfterIs n) (Store.put e.writable id next (feed_ids state) w.store).1 _ _
        (λ b. some-AfterIs n _ _ res h) (λ b. some-AfterIs n _ _ res h)

  load_copy-AfterIs :
      (in_current : Bool) (res : Result) (w : World)
      → res.after ≡ n
      → AfterIs n (load_copy e id in_current state next res taken w)
  unfolding load_copy
  load_copy-AfterIs in_current res w h =
      if-elim {A = Answer} (AfterIs n) (not in_current) _ _ (λ b. store_copy-AfterIs res w h)
        (λ b.
          if-elim {A = Answer} (AfterIs n) e.kernel_loads _ _
            (λ c. store_copy-AfterIs (record res { loaded = true }) _ h)
            (λ c.
              if-elim {A = Answer} (AfterIs n) e.panic_third _ _ (λ d. none-AfterIs n _ _)
                (λ d. none-AfterIs n _ _)))

module _ (e : Env) (p : Payload) (w : World) (state : RulesState) (old : StoredFeed)
    (rs : List ℕ) where
  none-Short : (v : World) (err : Option Error) → Short old.entries e.now rs (v, none, err)
  unfolding Short
  none-Short v err r q k s = ground (arith, q)

  guard_shrink-Short :
      (kept : List Prefix) (dropped : ℕ)
      → is_country_feed p.id ≡ false
      → Agrees (w.shrink p.id) rs
      → Short old.entries e.now rs (guard_shrink e p.id true state (some old) kept dropped w)
  unfolding guard_shrink Short AfterIs
  guard_shrink-Short kept dropped c h =
      let watch = watched e.now (w.shrink p.id) in
      if-elim {A = Answer} (Short old.entries e.now rs) (is_guarded p.id true (some old) kept) _ _
        (λ b.
          if-elim {A = Answer} (Short old.entries e.now rs) (too_soon e.now watch) _ _
            (λ t r q k s. ground (arith, q))
            (λ t r q k s. too_soon-ADay e.now (w.shrink p.id) rs h t))
        (λ b r q k s.
          let len =
            load_copy-AfterIs e p.id state (next_copy e.now (some old) kept dropped) false
              (length kept) true (next_result (some old) kept dropped) w refl r q in
          ground (arith, b, c, subst (λ n. shrinks old.entries n ≡ true) len s))

  take_entries-Short :
      (checked : Checked)
      → is_country_feed p.id ≡ false
      → Agrees (w.shrink p.id) rs
      → Short old.entries e.now rs (take_entries e p.id true state (some old) checked w)
  unfolding take_entries
  take_entries-Short (refused why) c h = none-Short _ _
  take_entries-Short (accepted kept dropped) c h =
      if-elim {A = Answer} (Short old.entries e.now rs) (is_nil kept) _ _ (λ b. none-Short _ _)
        (λ b. guard_shrink-Short kept dropped c h)

  confirm_copy-Short : Short old.entries e.now rs (confirm_copy e p.id state (some old) w)
  unfolding confirm_copy Short shrinks
  confirm_copy-Short r q k s = ground (arith, q, s)

  under_slot-Short :
      contains p.id state.current.feeds ≡ true
      → find p.id w.store.feeds ≡ some old
      → is_country_feed p.id ≡ false
      → Agrees (w.shrink p.id) rs
      → Short old.entries e.now rs (update_under_slot e p (some state) w)
  unfolding update_under_slot
  under_slot-Short i f c h =
      if-elim {A = Answer} (Short old.entries e.now rs)
        (not (contains p.id state.current.feeds) && not (contains p.id state.staged.feeds)) _ _
        (λ b. none-Short _ _)
        (λ b.
          if-elim {A = Answer} (Short old.entries e.now rs) (not e.loads) _ _ (λ d. none-Short _ _)
            (λ d.
              if-elim {A = Answer} (Short old.entries e.now rs) p.not_modified _ _
                (λ g.
                  subst (λ o. Short old.entries e.now rs (confirm_copy e p.id state o w)) (sym f)
                    confirm_copy-Short)
                (λ g.
                  let checked = validate_feed_entries e.netip p.id p.entries in
                  subst
                    (λ b.
                      Short old.entries e.now rs
                        (take_entries e p.id b state (find p.id w.store.feeds) checked w))
                    (sym i)
                    (subst
                      (λ o. Short old.entries e.now rs (take_entries e p.id true state o checked w))
                      (sym f) (take_entries-Short checked c h)))))

  update_feed-Short :
      e.state ≡ some state
      → contains p.id state.current.feeds ≡ true
      → find p.id w.store.feeds ≡ some old
      → is_country_feed p.id ≡ false
      → Agrees (w.shrink p.id) rs
      → Short old.entries e.now rs (update_feed e p w)
  unfolding update_feed
  update_feed-Short st i f c h =
      if-elim {A = Answer} (Short old.entries e.now rs) e.panic_first _ _ (λ b. none-Short _ _)
        (λ b.
          if-elim {A = Answer} (Short old.entries e.now rs) (not e.slot_free) _ _
            (λ d. none-Short _ _)
            (λ d.
              if-elim {A = Answer} (Short old.entries e.now rs) e.panic_second _ _
                (λ g. none-Short _ _)
                (λ g.
                  if-elim {A = Answer} (Short old.entries e.now rs) (not (known_feed p.id)) _ _
                    (λ j. none-Short _ _)
                    (λ j.
                      subst (λ s. Short old.entries e.now rs (update_under_slot e p s w)) (sym st)
                        (under_slot-Short i f c h)))))

-- A truncated download does not replace a live list. After any updates of any feeds, from a start
-- without a watch on it: if a list that is in force, with a stored copy, and not a country's, is
-- updated without an error and to fewer than 70 % of the entries that are stored, then it was
-- refused as a shrink at least twice since its last update that succeeded, and the first of these
-- refusals that the watch counts was at least 24 hours ago.
pub update_feed-ADayOfRefusals :
    (us : List (Env × Payload)) (e : Env) (p : Payload) (start : World) (state : RulesState)
    (old : StoredFeed) (r : Result)
    → start.shrink p.id ≡ none
    → e.state ≡ some state
    → contains p.id state.current.feeds ≡ true
    → find p.id (run p.id us (start, [])).0.store.feeds ≡ some old
    → is_country_feed p.id ≡ false
    → (update_feed e p (run p.id us (start, [])).0).1 ≡ some r
    → (update_feed e p (run p.id us (start, [])).0).2 ≡ none
    → shrinks old.entries r.after ≡ true
    → ADayOfRefusals e.now (run p.id us (start, [])).1
unfolding Short
update_feed-ADayOfRefusals us e p start state old r n st i f c q k s =
    let w = (run p.id us (start, [])).0 in
    let rs = (run p.id us (start, [])).1 in
    let fresh : Agrees (start.shrink p.id) [] = subst (λ o. Agrees o []) (sym n) tt in
    update_feed-Short e p w state old rs st i f c (run-Agrees p.id us start [] fresh) r q k s
