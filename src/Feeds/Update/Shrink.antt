-- ===== src/Feeds/Update/Shrink.antt =====
-- A list in force is replaced by one that is much shorter only after a day of refusals.
pub mod Accepted
use easywall.Prelude.{
  ℕ, ◌+◌, ◌-◌, ◌*◌, ◌≤◌, ◌≡◌, ◌≢◌, ◌⊎◌, inl, inr, Bool, true, false, not, ◌&&◌, ◌||◌, Option, none,
  some, List, [], ◌∷◌, if◌then◌else◌, if-elim, refl, subst, sym, arith, is_nil, length, ltb, leb,
  ◌==◌, Bool-cases, ap, ◌∙◌,
}
use easywall.Text.{Text, contains}
use easywall.Text.Table
use easywall.Text.Table.{Table, get-put, get-put_other, get-remove, get-remove_other}
use easywall.Rules.{RulesState}
use easywall.Rules.Feeds.{known_feed, is_country_feed}
use easywall.Feeds.Prefixes.{Prefix}
use easywall.Feeds.Entries.{Checked, refused, accepted, validate_feed_entries}
use easywall.Feeds.Store
use easywall.Feeds.Store.{StoredFeed, find}
use easywall.Feeds.Update.{
  World, Env, Payload, Result, Error, shrank, not_stored, Answer, ShrinkWatch, shrink_accept_after,
  shrinks, Event, feed_refused, feed_updated, feed_shrink_accepted, audited, feed_ids, watched,
  is_guarded, too_soon, next_copy, next_result, store_copy, load_copy, guard_shrink, take_entries,
  confirm_copy, update_under_slot, update_feed,
}

-- The instants at which a feed was refused as a shrink, the latest first, since its last update
-- that succeeded.
abbrev pub note : ℕ → Option Error → List ℕ → List ℕ
note now none rs = []
note now (some shrank) rs = now ∷ rs
note now (some _) rs = rs

-- The k-th refusal from the latest, which is the first.
unfoldable pub refusal : ℕ → List ℕ → Option ℕ
refusal k [] = none
refusal k (r ∷ rs) = if k == 1 then some r else refusal (k - 1) rs

-- What a watch says has happened.
abbrev pub Agrees : Option ShrinkWatch → List ℕ → Type 0
Agrees none rs = Unit
Agrees (some s) rs = (s.seen ≡ 0) ⊎ (refusal s.seen rs ≡ some s.since)

watched-Agrees :
    (now : ℕ) (watch : Option ShrinkWatch) (rs : List ℕ)
    → Agrees watch rs
    → Agrees (some (watched now watch)) (now ∷ rs)
unfolding refusal
watched-Agrees now none rs h = inr refl
watched-Agrees now (some s) rs h = elim (Bool-cases (s.seen == 0)) [
  | inl z ↦ ground (arith, z)
  | inr z ↦
      let back : s.seen ≡ s.seen + 1 - 1 = omega arith in
      let earlier : refusal s.seen rs ≡ some s.since = ground (arith, h, z) in
      ground (arith, z, subst (λ k. refusal k rs ≡ some s.since) back earlier)
]

audited-shrink :
    (b : Bool) (event : Event) (id : Text) (w : World)
    → (if b then audited event id w else w).shrink ≡ w.shrink
audited-shrink true event id w = refl
audited-shrink false event id w = refl

-- What an update of a feed makes of the watch of x.
pub Tracks : Text → List ℕ → Env → Text → World → Answer → Type 0
Tracks x rs e id w a =
    (id ≡ x → Agrees (a.0.shrink x) (note e.now a.2 rs)) × (x ≢ id → a.0.shrink x ≡ w.shrink x)

module _ (x : Text) (rs : List ℕ) (e : Env) (id : Text) (w : World) where
  -- The watch is left alone, and the refusal is not one of a shrink.
  same-Tracks :
      (a : Answer)
      → a.0.shrink ≡ w.shrink
      → note e.now a.2 rs ≡ rs
      → Agrees (w.shrink x) rs
      → Tracks x rs e id w a
  unfolding Tracks
  same-Tracks a s n h = (
    λ q.
        subst (λ t. Agrees (t x) (note e.now a.2 rs)) (sym s)
          (subst (Agrees (w.shrink x)) (sym n) h),
    λ q. ap (λ t. t x) s,
  )

  -- The watch is over.
  over-Tracks : (a : Answer) → a.0.shrink ≡ Table.remove id w.shrink → Tracks x rs e id w a
  unfolding Tracks
  over-Tracks a s = (
    λ q. rw s (
        subst (λ i. Agrees (Table.remove i w.shrink x) (note e.now a.2 rs)) (sym q)
          (rw (get-remove x w.shrink) tt)),
    λ q. rw s (get-remove_other x id w.shrink q),
  )

  -- One more refusal.
  shrank-Tracks :
      (v : World)
      → v.shrink ≡ Table.put id (watched e.now (w.shrink id)) w.shrink
      → Agrees (w.shrink x) rs
      → Tracks x rs e id w (v, none, some shrank)
  unfolding Tracks
  shrank-Tracks v s h = (
    λ q. rw s (
        subst (λ i. Agrees (Table.put i (watched e.now (w.shrink i)) w.shrink x) (e.now ∷ rs))
          (sym q)
          (rw (get-put x (watched e.now (w.shrink x)) w.shrink)
            (watched-Agrees e.now (w.shrink x) rs h))),
    λ q. rw s (get-put_other x id (watched e.now (w.shrink id)) w.shrink q),
  )

  store_copy-Tracks :
      (state : RulesState) (next : StoredFeed) (res : Result) (taken : Bool) (v : World)
      → v.shrink ≡ w.shrink
      → Agrees (w.shrink x) rs
      → Tracks x rs e id w (store_copy e id state next res taken v)
  unfolding store_copy
  store_copy-Tracks state next res taken v s h =
      let written = Store.put e.writable id next (feed_ids state) v.store in
      let v1 : World = record v { store = written.0; shrink = Table.remove id v.shrink } in
      if-elim {A = Answer} (Tracks x rs e id w) written.1 _ _
        (λ b. same-Tracks (v, some res, some not_stored) s refl h)
        (λ b. over-Tracks _ (
          audited-shrink res.changed feed_updated id _
          ∙ audited-shrink taken feed_shrink_accepted id v1
          ∙ ap (Table.remove id) s))

  load_copy-Tracks :
      (in_current : Bool) (state : RulesState) (next : StoredFeed) (res : Result) (taken : Bool)
      → Agrees (w.shrink x) rs
      → Tracks x rs e id w (load_copy e id in_current state next res taken w)
  unfolding load_copy
  load_copy-Tracks in_current state next res taken h =
      if-elim {A = Answer} (Tracks x rs e id w) (not in_current) _ _
        (λ b. store_copy-Tracks state next res taken w refl h)
        (λ b.
          if-elim {A = Answer} (Tracks x rs e id w) e.kernel_loads _ _
            (λ c.
              store_copy-Tracks state next _ taken
                (record w { kernel = Table.put id next.prefixes w.kernel }) refl h)
            (λ c.
              if-elim {A = Answer} (Tracks x rs e id w) e.panic_third _ _
                (λ d. same-Tracks _ refl refl h) (λ d. same-Tracks _ refl refl h)))

  guard_shrink-Tracks :
      (in_current : Bool) (state : RulesState) (had : Option StoredFeed) (kept : List Prefix)
      (dropped : ℕ)
      → Agrees (w.shrink x) rs
      → Tracks x rs e id w (guard_shrink e id in_current state had kept dropped w)
  unfolding guard_shrink
  guard_shrink-Tracks in_current state had kept dropped h =
      if-elim {A = Answer} (Tracks x rs e id w) (is_guarded id in_current had kept) _ _
        (λ b.
          if-elim {A = Answer} (Tracks x rs e id w) (too_soon e.now (watched e.now (w.shrink id))) _
            _ (λ c. shrank-Tracks _ refl h)
            (λ c.
              load_copy-Tracks in_current state (next_copy e.now had kept dropped)
                (next_result had kept dropped) true h))
        (λ b.
          load_copy-Tracks in_current state (next_copy e.now had kept dropped)
            (next_result had kept dropped) false h)

  take_entries-Tracks :
      (in_current : Bool) (state : RulesState) (had : Option StoredFeed) (checked : Checked)
      → Agrees (w.shrink x) rs
      → Tracks x rs e id w (take_entries e id in_current state had checked w)
  unfolding take_entries
  take_entries-Tracks in_current state had (refused why) h = same-Tracks _ refl refl h
  take_entries-Tracks in_current state had (accepted kept dropped) h =
      if-elim {A = Answer} (Tracks x rs e id w) (is_nil kept) _ _ (λ b. same-Tracks _ refl refl h)
        (λ b. guard_shrink-Tracks in_current state had kept dropped h)

  confirm_copy-Tracks :
      (state : RulesState) (had : Option StoredFeed)
      → Agrees (w.shrink x) rs
      → Tracks x rs e id w (confirm_copy e id state had w)
  unfolding confirm_copy
  confirm_copy-Tracks state none h = same-Tracks _ refl refl h
  confirm_copy-Tracks state (some f) h = over-Tracks _ refl

module _ (x : Text) (rs : List ℕ) (e : Env) (p : Payload) (w : World) where
  under_slot-Tracks :
      (state : Option RulesState)
      → Agrees (w.shrink x) rs
      → Tracks x rs e p.id w (update_under_slot e p state w)
  unfolding update_under_slot
  under_slot-Tracks none h = same-Tracks x rs e p.id w _ refl refl h
  under_slot-Tracks (some state) h =
      let in_current = contains p.id state.current.feeds in
      if-elim {A = Answer} (Tracks x rs e p.id w)
        (not in_current && not (contains p.id state.staged.feeds)) _ _
        (λ b. same-Tracks x rs e p.id w _ refl refl h)
        (λ b.
          if-elim {A = Answer} (Tracks x rs e p.id w) (not e.loads) _ _
            (λ c. same-Tracks x rs e p.id w _ refl refl h)
            (λ c.
              if-elim {A = Answer} (Tracks x rs e p.id w) p.not_modified _ _
                (λ d. confirm_copy-Tracks x rs e p.id w state (find p.id w.store.feeds) h)
                (λ d.
                  take_entries-Tracks x rs e p.id w in_current state (find p.id w.store.feeds) _
                    h)))

  pub update_feed-Tracks : Agrees (w.shrink x) rs → Tracks x rs e p.id w (update_feed e p w)
  unfolding update_feed
  update_feed-Tracks h =
      if-elim {A = Answer} (Tracks x rs e p.id w) e.panic_first _ _
        (λ b. same-Tracks x rs e p.id w _ refl refl h)
        (λ b.
          if-elim {A = Answer} (Tracks x rs e p.id w) (not e.slot_free) _ _
            (λ c. same-Tracks x rs e p.id w _ refl refl h)
            (λ c.
              if-elim {A = Answer} (Tracks x rs e p.id w) e.panic_second _ _
                (λ d. same-Tracks x rs e p.id w _ refl refl h)
                (λ d.
                  if-elim {A = Answer} (Tracks x rs e p.id w) (not (known_feed p.id)) _ _
                    (λ g. same-Tracks x rs e p.id w _ refl refl h)
                    (λ g. under_slot-Tracks e.state h))))
