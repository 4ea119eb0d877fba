-- ===== src/Nftables/Quiet.antt =====
-- The parts from which the rules that accept nothing are built: they are safe whatever is to hold of
-- an accepted packet.
pub mod Filters
pub mod Drops
pub mod ForwardAccepts
pub mod Forward
pub mod Modules
use easywall.Prelude.{
  ◌∙◌, ℕ, ◌≡◌, refl, sym, subst, Bool, true, false, ◌&&◌, Option, none, some, List, [], ◌∷◌, ◌++◌,
  All, All-append, arith, if-elim, if◌then◌else◌, not,
}
use easywall.Text.{Text, codes, same, ℤ, pos}
use easywall.Rules.{PortRule, Rules}
use easywall.Nftables.{
  Bytes, Expr, Op, Kind, Rule, rule, verdict, accept, drop, back, jump, counter, forward_chain,
  dynset, payload, LogSpec, LogSink, log_exprs, add_logged, add_filtered, network, Limit, update,
}
use easywall.Nftables.Net.{Netlib}
use easywall.Nftables.Match.{
  family_is, protocol_is, build_port_exprs, ipv4_source_match, entry_match,
}
use easywall.Nftables.Accepts.{on_match, add_blocklist_rule, state_has}
use easywall.Nftables.Filters.{
  AddrFamily, PerSourceRate, ipv4_family, ipv6_family, family_suffix, add_over_rate_chain,
  limit_family, add_per_source_rate_limit,
}
use easywall.Nftables.Netfilter.{Netfilter, kind_of}
use easywall.Nftables.Reading.{is_base, kind_of-append, OnKind, Safe}

-- A verdict that accepts nothing, at once or in the forward chain.
abbrev pub IsQuiet : Kind → Type 0
IsQuiet accept = ⊥
IsQuiet drop = Unit {0}
IsQuiet back = Unit {0}
IsQuiet (jump t) = is_base t ≡ false

module _ {Packet : Type 0} (nf : Netfilter Packet) (p : Packet) (b : Bool) where
  abbrev pub AllSafe : List Rule → Type 0
  AllSafe rs = All (Safe nf p b) rs

  OnKind-IsQuiet : (k : Kind) (r : Rule) → IsQuiet k → OnKind nf p b (some k) r
  OnKind-IsQuiet accept r q = absurd q
  OnKind-IsQuiet drop r q = tt
  OnKind-IsQuiet back r q = tt
  OnKind-IsQuiet (jump t) r q = q

  pub quiet : (k : Kind) (r : Rule) → kind_of r.exprs ≡ some k → IsQuiet k → Safe nf p b r
  quiet k r e q = subst (λ o. OnKind nf p b o r) (sym e) (OnKind-IsQuiet k r q)

  -- A rule that ends with a quiet verdict, or with a log.
  pub quiet_end :
      (k : Kind) (c : Text) (xs : List Expr)
      → IsQuiet k
      → Safe nf p b (rule c (xs ++ (verdict k ∷ [])))
  unfolding kind_of
  quiet_end k c xs q =
      quiet k (rule c (xs ++ (verdict k ∷ []))) (kind_of-append xs (verdict k) []) q

  pub quiet_tail :
      (k : Kind) (c : Text) (xs : List Expr) (y : Expr) (ys : List Expr)
      → kind_of (y ∷ ys) ≡ some k
      → IsQuiet k
      → Safe nf p b (rule c (xs ++ (y ∷ ys)))
  quiet_tail k c xs y ys e q = quiet k (rule c (xs ++ (y ∷ ys))) (kind_of-append xs y ys ∙ e) q

  pub log_end :
      (c : Text) (xs : List Expr) (prefix : Text) (n : ℤ) (sink : LogSink)
      → Safe nf p b (rule c (xs ++ log_exprs prefix n sink))
  unfolding log_exprs kind_of
  log_end c xs prefix n sink =
      subst (λ o. OnKind nf p b o (rule c (xs ++ log_exprs prefix n sink)))
        (sym (kind_of-append xs _ _)) tt

  pub when-AllSafe : (on : Bool) (rs : List Rule) → AllSafe rs → AllSafe (if on then rs else [])
  when-AllSafe true rs s = s
  when-AllSafe false rs s = tt

  pub add_logged-AllSafe :
      (c : Text) (match : List Expr) (lg : LogSpec) (sink : LogSink) (tag : Option Text) (y : Expr)
      (ys : List Expr) (k : Kind)
      → kind_of (y ∷ ys) ≡ some k
      → IsQuiet k
      → AllSafe (add_logged c match lg sink tag (y ∷ ys))
  unfolding add_logged
  add_logged-AllSafe c match lg sink tag y ys k e q =
      let acted : Rule = record { chain = c; exprs = match ++ (y ∷ ys); tag = tag } in
      let s = quiet k acted (kind_of-append match y ys ∙ e) q in
      if-elim {A = List Rule} AllSafe lg.enabled _ _
        (λ on. (log_end c match lg.prefix lg.per_minute sink, (s, tt))) (λ off. (s, tt))

  pub add_filtered-AllSafe :
      (c : Text) (match : List Expr) (lg : LogSpec) (sink : LogSink)
      → AllSafe (add_filtered c match (verdict drop) lg sink)
  unfolding add_filtered kind_of
  add_filtered-AllSafe c match lg sink =
      add_logged-AllSafe c match lg sink none (verdict drop) [] drop refl tt

  pub add_over_rate_chain-AllSafe :
      (name : Text) (lg : LogSpec) (sink : LogSink) → AllSafe (add_over_rate_chain name lg sink)
  unfolding add_over_rate_chain kind_of
  add_over_rate_chain-AllSafe name lg sink =
      All-append (Safe nf p b) _ _
        (when-AllSafe lg.enabled _ (log_end name [] lg.prefix lg.per_minute sink, tt)) (tt, tt)

  limit_family-AllSafe :
      (net : Netlib) (c : Text) (match : AddrFamily → List Expr) (r : PerSourceRate) (target : Text)
      (f : AddrFamily)
      → is_base target ≡ false
      → AllSafe (limit_family net c match r target f)
  unfolding limit_family kind_of
  limit_family-AllSafe net c match r target f q =
      let set = r.set_prefix ++ (codes "-" ++ family_suffix f) in
      let over : Limit = record { rate = r.rate; over = true; unit = r.unit; burst = r.burst } in
      let metered = dynset 1 set (update over r.timeout) ∷ verdict (jump target) ∷ [] in
      when-AllSafe (net.adds_set set) _ (
        quiet_tail (jump target) c (family_is f.nfproto ++ match f)
            (payload network 1 f.offset f.key_len) metered refl q,
        tt,
      )

  pub add_per_source_rate_limit-AllSafe :
      (net : Netlib) (c : Text) (match : AddrFamily → List Expr) (r : PerSourceRate) (target : Text)
      → is_base target ≡ false
      → AllSafe (add_per_source_rate_limit net c match r target)
  unfolding add_per_source_rate_limit
  add_per_source_rate_limit-AllSafe net c match r target q =
      All-append (Safe nf p b) _ _ (limit_family-AllSafe net c match r target ipv4_family q)
        (limit_family-AllSafe net c match r target ipv6_family q)

  pub on_match-AllSafe :
      (c : Text) (m : Option (List Expr)) (k : Kind) → IsQuiet k → AllSafe (on_match c m k)
  on_match-AllSafe c none k q = tt
  on_match-AllSafe c (some match) k q = (quiet_end k c match q, tt)
