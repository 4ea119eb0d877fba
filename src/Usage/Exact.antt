-- ===== src/Usage/Exact.antt =====
-- Where nothing fails and nothing comes between the parts of an apply, a collect books the traffic.
use easywall.Prelude.{
  ℕ, ◌+◌, ◌-◌, ◌≤◌, ◌<◌, ◌≡◌, Bool, true, false, Option, none, some, List, [], ◌∷◌, if◌then◌else◌,
  if-elim, sym, arith, All,
}
use easywall.Text.{Text, same}
use easywall.Text.Table.{Table, empty_table}
use easywall.Usage.{
  RuleUsage, RuleCounter, File, missing, unreadable, unparsable, holds, no_usage, read, book,
  booked, collected, collect, reset_baselines, rebased, entry_or_new, is_reserved_rule_id, modulus,
}
use easywall.Usage.Traffic.{
  Move, arrives, ticks, applies, resets, flushes, loses_file, World, counted, arrived, new_table,
  step, run, recorded,
}

-- Nothing fails, the rule stays in the stored sets, nobody else touches table or file, and nothing
-- comes between an apply's collect, its table and its reset.
abbrev pub Succeeds : Text → Move → Type 0
Succeeds x (arrives id p b) = p ≡ 0 → b ≡ 0
Succeeds x (ticks now writable live) = (writable ≡ true) × (live x ≡ true)
Succeeds x (applies now writable live placed resettable) =
    (writable ≡ true) × (live x ≡ true) × (resettable ≡ true)
Succeeds x (resets writable) = ⊥
Succeeds x (flushes placed) = ⊥
Succeeds x (loses_file gone) = ⊥

-- What is booked, and what the kernel has counted since, is what has arrived.
abbrev Exact : Option RuleCounter → RuleUsage → ℕ → ℕ → Type 0
Exact none e p b = (e.packets ≡ p) × (e.bytes ≡ b)
Exact (some c) e p b =
    (e.kernel_packets ≤ c.packets)
    × (e.kernel_bytes ≤ c.bytes)
    × (e.packets + (c.packets - e.kernel_packets) ≡ p)
    × (e.bytes + (c.bytes - e.kernel_bytes) ≡ b)
    × (c.packets ≡ e.kernel_packets → c.bytes ≡ e.kernel_bytes)

-- Nothing has arrived since the last collect.
abbrev Settled : Option RuleCounter → RuleUsage → ℕ → ℕ → Type 0
Settled k e p b = Exact k e p b × (e.packets ≡ p) × (e.bytes ≡ b)

book-Settled :
    (now p b : ℕ) (c : RuleCounter) (e : RuleUsage)
    → p < modulus
    → b < modulus
    → Exact (some c) e p b
    → Settled (some c) (book now c e) p b
unfolding book
book-Settled now p b c e hp hb h = ground arith

booked-Settled :
    (now p b : ℕ) (k : Option RuleCounter) (entry : Option RuleUsage)
    → p < modulus
    → b < modulus
    → Exact k (entry_or_new entry) p b
    → Settled k (entry_or_new (booked now k true entry)) p b
unfolding booked
booked-Settled now p b none entry hp hb h = (h, h.0, h.1)
booked-Settled now p b (some c) entry hp hb h = book-Settled now p b c (entry_or_new entry) hp hb h

counted-Exact :
    (x id : Text) (n m p b : ℕ) (k : Option RuleCounter) (e : RuleUsage)
    → (n ≡ 0 → m ≡ 0)
    → Exact k e p b
    → Exact
        (counted x id n m k)
        e
        (p + (if same x id then arrived n k else 0))
        (b + (if same x id then arrived m k else 0))
counted-Exact x id n m p b none e z h = ground (arith, h)
counted-Exact x id n m p b (some c) e z h = ground (arith, h, z)

-- The file can be read.
abbrev pub IsReadable : File → Type 0
IsReadable unreadable = ⊥
IsReadable _ = Unit

module _ (x : Text) (p b : ℕ) where
  ExactIn : Option RuleCounter → File → Type 0
  ExactIn k file = IsReadable file × Exact k (recorded file x) p b

  SettledIn : Option RuleCounter → File → Type 0
  SettledIn k file = IsReadable file × Settled k (recorded file x) p b

collected-Settled :
    (x : Text) (now p b : ℕ) (kernel : Table RuleCounter) (live : Text → Bool)
    (usage : Table RuleUsage)
    → p < modulus
    → b < modulus
    → is_reserved_rule_id x ≡ false
    → live x ≡ true
    → Exact (kernel x) (entry_or_new (usage x)) p b
    → Settled (kernel x) (entry_or_new (collected now kernel live usage x)) p b
unfolding collected
collected-Settled x now p b kernel live usage hp hb r l h =
    rw (r, l) (booked-Settled now p b (kernel x) (usage x) hp hb h)

collect-Settled :
    (x : Text) (now p b : ℕ) (kernel : Table RuleCounter) (live : Text → Bool) (file : File)
    → p < modulus
    → b < modulus
    → is_reserved_rule_id x ≡ false
    → live x ≡ true
    → ExactIn x p b (kernel x) file
    → SettledIn x p b (kernel x) (collect now true kernel live file).0
unfolding collect ExactIn SettledIn recorded read
collect-Settled x now p b kernel live missing hp hb r l h =
    (tt, collected-Settled x now p b kernel live empty_table hp hb r l h.1)
collect-Settled x now p b kernel live unreadable hp hb r l h = absurd h.0
collect-Settled x now p b kernel live unparsable hp hb r l h =
    (tt, collected-Settled x now p b kernel live empty_table hp hb r l h.1)
collect-Settled x now p b kernel live (holds usage) hp hb r l h =
    (tt, collected-Settled x now p b kernel live usage hp hb r l h.1)

new_table-Exact :
    (x : Text) (p b : ℕ) (placed : Text → Bool) (o : Option RuleUsage)
    → ((entry_or_new o).packets ≡ p) × ((entry_or_new o).bytes ≡ b)
    → Exact (new_table placed x) (entry_or_new (rebased o)) p b
new_table-Exact x p b placed none h =
    if-elim {A = Option RuleCounter} (λ k. Exact k no_usage p b) (placed x) _ _
      (λ q. ground (arith, h)) (λ q. h)
new_table-Exact x p b placed (some e) h =
    if-elim {A = Option RuleCounter} (λ k. Exact k (entry_or_new (rebased (some e))) p b) (placed x)
      _ _ (λ q. ground (arith, h)) (λ q. h)

reset-Exact :
    (x : Text) (p b : ℕ) (k : Option RuleCounter) (placed : Text → Bool) (file : File)
    → SettledIn x p b k file
    → ExactIn x p b (new_table placed x) (reset_baselines true file).0
unfolding reset_baselines ExactIn SettledIn recorded read
reset-Exact x p b k placed missing h = (tt, new_table-Exact x p b placed none (h.1.1, h.1.2))
reset-Exact x p b k placed unreadable h = absurd h.0
reset-Exact x p b k placed unparsable h = (tt, new_table-Exact x p b placed none (h.1.1, h.1.2))
reset-Exact x p b k placed (holds usage) h =
    (tt, new_table-Exact x p b placed (usage x) (h.1.1, h.1.2))

IsExact : Text → World → Type 0
IsExact x w = ExactIn x w.packets w.bytes (w.kernel x) w.file

step-IsExact :
    (x : Text) (m : Move) (w : World)
    → is_reserved_rule_id x ≡ false
    → w.packets < modulus
    → w.bytes < modulus
    → Succeeds x m
    → IsExact x w
    → IsExact x (step x m w)
unfolding step IsExact ExactIn SettledIn
step-IsExact x (arrives id p b) w r hp hb s h =
    (h.0, counted-Exact x id p b w.packets w.bytes (w.kernel x) (recorded w.file x) s h.1)
step-IsExact x (ticks now writable live) w r hp hb s h = rw s.0 (
    let (readable, settled) =
      collect-Settled x now w.packets w.bytes w.kernel live w.file hp hb r s.1 h in
    (readable, settled.0))
step-IsExact x (applies now writable live placed resettable) w r hp hb s h =
    rw (s.0, s.2)
      (reset-Exact x w.packets w.bytes (w.kernel x) placed (collect now true w.kernel live w.file).0
        (collect-Settled x now w.packets w.bytes w.kernel live w.file hp hb r s.1 h))
step-IsExact x (resets writable) w r hp hb s h = absurd s
step-IsExact x (flushes placed) w r hp hb s h = absurd s
step-IsExact x (loses_file gone) w r hp hb s h = absurd s

run_grows :
    (x : Text) (ms : List Move) (w : World)
    → All (Succeeds x) ms
    → (w.packets ≤ (run x ms w).packets) × (w.bytes ≤ (run x ms w).bytes)
unfolding run step
run_grows x [] w s = (omega arith, omega arith)
run_grows x (arrives id p b ∷ ms) w s =
    let (more_packets, more_bytes) = run_grows x ms (step x (arrives id p b) w) s.1 in
    (omega (arith, more_packets), omega (arith, more_bytes))
run_grows x (ticks now writable live ∷ ms) w s =
    run_grows x ms (step x (ticks now writable live) w) s.1
run_grows x (applies now writable live placed resettable ∷ ms) w s =
    run_grows x ms (step x (applies now writable live placed resettable) w) s.1
run_grows x (resets writable ∷ ms) w s = absurd s.0
run_grows x (flushes placed ∷ ms) w s = absurd s.0
run_grows x (loses_file gone ∷ ms) w s = absurd s.0

run-IsExact :
    (x : Text) (ms : List Move) (w : World)
    → is_reserved_rule_id x ≡ false
    → All (Succeeds x) ms
    → (run x ms w).packets < modulus
    → (run x ms w).bytes < modulus
    → IsExact x w
    → IsExact x (run x ms w)
unfolding run
run-IsExact x [] w r s hp hb h = h
run-IsExact x (m ∷ ms) w r s hp hb h =
    let (grows_packets, grows_bytes) = run_grows x (m ∷ ms) w s in
    run-IsExact x ms (step x m w) r s.1 hp hb (
      step-IsExact x m w r (omega (arith, grows_packets, hp)) (omega (arith, grows_bytes, hb)) s.0
        h)

start-IsExact :
    (x : Text) (p b : ℕ) (k : Option RuleCounter) (file : File)
    → file ≡ missing
    → k ≡ none
    → p ≡ 0
    → b ≡ 0
    → ExactIn x p b k file
unfolding ExactIn recorded read
start-IsExact x p b k file f e hp hb = rw (f, e) (tt, (sym hp, sym hb))

-- For a rule whose id is not one of easywall's own, on a host without a record, without the rule and
-- without traffic at first: take a history of packets, collects and applies at which nothing fails,
-- which keep the rule in the stored sets, in which no packet and no collect comes between an apply's
-- own collect, its new table and its reset, and over which fewer than 2 ^ 64 packets and bytes
-- arrive at the rule. Then a collect that succeeds records exactly the packets and bytes that have
-- arrived at the rule while a table had it.
pub collect-recorded :
    (x : Text) (ms : List Move) (w : World) (now : ℕ) (live : Text → Bool)
    → is_reserved_rule_id x ≡ false
    → w.file ≡ missing
    → w.kernel x ≡ none
    → w.packets ≡ 0
    → w.bytes ≡ 0
    → All (Succeeds x) ms
    → live x ≡ true
    → (run x ms w).packets < modulus
    → (run x ms w).bytes < modulus
    → ((recorded (collect now true (run x ms w).kernel live (run x ms w).file).0 x).packets
        ≡ (run x ms w).packets)
      × ((recorded (collect now true (run x ms w).kernel live (run x ms w).file).0 x).bytes
          ≡ (run x ms w).bytes)
unfolding IsExact SettledIn
collect-recorded x ms w now live r f k zp zb s l hp hb =
    let start = start-IsExact x w.packets w.bytes (w.kernel x) w.file f k zp zb in
    let (readable, settled) =
      collect-Settled x now _ _ (run x ms w).kernel live (run x ms w).file hp hb r l
        (run-IsExact x ms w r s hp hb start) in
    (settled.1, settled.2)
