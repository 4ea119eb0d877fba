-- ===== src/Nftables/Reading.antt =====
-- How the matches read a packet, and what it takes for the walk through a chain to accept.
use easywall.Prelude.{
  ℕ, zero, suc, ◌≡◌, refl, Bool, true, false, ◌&&◌, ◌||◌, subst, Option, none, some, List, [], ◌∷◌,
  ◌++◌, All, arith, if-elim, if◌then◌else◌, sym, ◌∙◌,
}
use easywall.Text.{Text, same}
use easywall.Text.Laws.{same_iff}
use easywall.Nftables.{
  Bytes, Expr, Op, Kind, Rule, accept, drop, back, jump, forward_chain, input_chain,
}
use easywall.Nftables.Net.{and_bytes}
use easywall.Nftables.Netfilter.{
  Netfilter, Outcome, accepted, dropped, through, test, when_loaded, kind_of, on_kind, walk,
}

-- The verdict of a rule stands at its end.
pub kind_of-append :
    (xs : List Expr) (y : Expr) (ys : List Expr) → kind_of (xs ++ (y ∷ ys)) ≡ kind_of (y ∷ ys)
unfolding kind_of
kind_of-append [] y ys = refl
kind_of-append (x ∷ []) y ys = refl
kind_of-append (x ∷ x' ∷ xs) y ys = kind_of-append (x' ∷ xs) y ys

pub kind_of-append_twice :
    (xs zs : List Expr) (y : Expr) (ys : List Expr)
    → kind_of (xs ++ (zs ++ (y ∷ ys))) ≡ kind_of (y ∷ ys)
kind_of-append_twice xs [] y ys = kind_of-append xs y ys
kind_of-append_twice xs (z ∷ zs) y ys =
    kind_of-append xs z (zs ++ (y ∷ ys)) ∙ kind_of-append (z ∷ zs) y ys

-- The chains at the hooks of packets that come in and that are passed on.
abbrev pub is_base : Text → Bool
is_base c = same c forward_chain || same c input_chain

module _ {Packet : Type 0} (nf : Netfilter Packet) (p : Packet) where
  -- A load compared, as it is or under a mask.
  abbrev pub reads : Expr → Op → Bytes → Bool
  reads e op d = when_loaded (nf.value p e) (λ v. test op v d)

  abbrev pub reads_masked : Expr → Bytes → Op → Bytes → Bool
  reads_masked e m op d = when_loaded (nf.value p e) (λ v. test op (and_bytes v m) d)

  -- What a rule of the table must satisfy for `b` to hold of every packet that is accepted outside
  -- the forward chain: it accepts in a base chain alone, outside the forward chain a match of an
  -- accept gives b, and no jump leads into a base chain.
  abbrev pub OnKind : Bool → Option Kind → Rule → Type 0
  OnKind b none r = Unit {0}
  OnKind b (some drop) r = Unit {0}
  OnKind b (some back) r = Unit {0}
  OnKind b (some (jump t)) r = is_base t ≡ false
  OnKind b (some accept) r =
      (is_base r.chain ≡ true)
      × (same r.chain forward_chain ≡ false → nf.runs p [] r.exprs ≡ true → b ≡ true)

  abbrev pub Safe : Bool → Rule → Type 0
  Safe b r = OnKind b (kind_of r.exprs) r

  -- What walking through chain `c` needs for a match of its accepts to give `b'`.
  abbrev pub Leads : Bool → Bool → Text → Type 0
  Leads b b' c = is_base c ≡ true → (same c forward_chain ≡ false) × (b ≡ true → b' ≡ true)

  on_kind-Safe :
      (b b' : Bool) (k : Option Kind) (r : Rule) (rest : Outcome) (enter : Text → Outcome)
      → OnKind b k r
      → Leads b b' r.chain
      → nf.runs p [] r.exprs ≡ true
      → (rest ≡ accepted → b' ≡ true)
      → ((t : Text) → is_base t ≡ false → enter t ≡ accepted → b' ≡ true)
      → on_kind k rest enter ≡ accepted
      → b' ≡ true
  on_kind-Safe b b' none r rest enter k f m h g e = h e
  on_kind-Safe b b' (some accept) r rest enter k f m h g e =
      let (away, lead) = f k.0 in lead (k.1 away m)
  on_kind-Safe b b' (some drop) r rest enter k f m h g e = cc e
  on_kind-Safe b b' (some back) r rest enter k f m h g e = cc e
  on_kind-Safe b b' (some (jump t)) r rest enter k f m h g e =
      elim (enter t)
          as (λ o.
            (o ≡ accepted → b' ≡ true)
            → elim o as (λ o. Outcome) [ accepted ↦ accepted | dropped ↦ dropped | through ↦ rest ]
              ≡ accepted
            → b' ≡ true) [
              | accepted ↦ λ g' e'. g' refl
              | dropped ↦ λ g' e'. cc e'
              | through ↦ λ g' e'. h e'
            ]
        (g t k) e

  -- One rule of the walk through chain `c`: it is passed by, or it has its say.
  step-Safe :
      (b b' : Bool) (c : Text) (r : Rule) (rest : Outcome) (enter : Text → Outcome)
      → Safe b r
      → Leads b b' c
      → (rest ≡ accepted → b' ≡ true)
      → ((t : Text) → is_base t ≡ false → enter t ≡ accepted → b' ≡ true)
      → (if same r.chain c && nf.runs p [] r.exprs
          then on_kind (kind_of r.exprs) rest enter
          else rest)
        ≡ accepted
      → b' ≡ true
  step-Safe b b' c r rest enter s f h g =
      if-elim {A = Outcome} (λ o. o ≡ accepted → b' ≡ true) (same r.chain c && nf.runs p [] r.exprs)
        _ _
        (λ m.
          let e : r.chain ≡ c = (same_iff r.chain c).0 (ground (arith, m)) in
          on_kind-Safe b b' (kind_of r.exprs) r rest enter s (subst (Leads b b') (sym e) f)
            (ground (arith, m)) h g)
        (λ m. h)

  pub walk-Safe :
      (b b' : Bool) (n : ℕ) (table : List Rule) (c : Text) (rs : List Rule)
      → All (Safe b) table
      → All (Safe b) rs
      → Leads b b' c
      → walk nf n table c rs p ≡ accepted
      → b' ≡ true
  unfolding walk
  walk-Safe b b' n table c [] t s f h = cc h
  walk-Safe b b' zero table c (r ∷ rs) t s f h =
      step-Safe b b' c r (walk nf zero table c rs p) (λ t. dropped) s.0 f
        (λ e. walk-Safe b b' zero table c rs t s.1 f e) (λ t f e. cc e) h
  walk-Safe b b' (suc n) table c (r ∷ rs) t s f h =
      step-Safe b b' c r (walk nf (suc n) table c rs p) (λ u. walk nf n table u table p) s.0 f
        (λ e. walk-Safe b b' (suc n) table c rs t s.1 f e)
        (λ u g e. walk-Safe b b' n table u table t t (λ i. cc (g, i)) e) h

  -- The same for the first rules of a chain, of which less may be accepted than of the whole table:
  -- a chain that is jumped to never accepts.
  pub walk-append-Safe :
      (b b' : Bool) (n : ℕ) (table : List Rule) (c : Text) (rs more : List Rule)
      → All (Safe b) table
      → All (Safe b') rs
      → same c forward_chain ≡ false
      → (walk nf n table c more p ≡ accepted → b' ≡ true)
      → walk nf n table c (rs ++ more) p ≡ accepted
      → b' ≡ true
  unfolding walk
  walk-append-Safe b b' n table c [] more t s f h = h
  walk-append-Safe b b' zero table c (r ∷ rs) more t s f h =
      step-Safe b' b' c r (walk nf zero table c (rs ++ more) p) (λ t. dropped) s.0
        (λ i. (f, λ e. e)) (λ e. walk-append-Safe b b' zero table c rs more t s.1 f h e)
        (λ t f e. cc e)
  walk-append-Safe b b' (suc n) table c (r ∷ rs) more t s f h =
      step-Safe b' b' c r (walk nf (suc n) table c (rs ++ more) p) (λ u. walk nf n table u table p)
        s.0 (λ i. (f, λ e. e)) (λ e. walk-append-Safe b b' (suc n) table c rs more t s.1 f h e)
        (λ u g e. walk-Safe b b' n table u table t t (λ i. cc (g, i)) e)

  -- A drop that matches ends the walk.
  pub walk-drop :
      (n : ℕ) (table : List Rule) (c : Text) (r : Rule) (more : List Rule)
      → same r.chain c ≡ true
      → nf.runs p [] r.exprs ≡ true
      → kind_of r.exprs ≡ some drop
      → walk nf n table c (r ∷ more) p ≡ dropped
  unfolding walk
  walk-drop zero table c r more f m k = rw (f, m, k) refl
  walk-drop (suc n) table c r more f m k = rw (f, m, k) refl
