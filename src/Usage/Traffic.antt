-- ===== src/Usage/Traffic.antt =====
-- The record against the traffic of one rule: histories of what arrives and of what is booked.
use easywall.Prelude.{ℕ, ◌+◌, Bool, Option, none, some, List, [], ◌∷◌, if◌then◌else◌}
use easywall.Text.{Text, same}
use easywall.Text.Table.{Table}
use easywall.Usage.{
  RuleUsage, RuleCounter, File, missing, unparsable, no_usage, read, collect, reset_baselines,
  entry_or_new,
}

pub data Move : Type 0 where
  -- packets and bytes, at the rule with this id
  arrives : Text → ℕ → ℕ → Move
  -- a collect: the clock, whether the file can be written, and which ids are live
  ticks : ℕ → Bool → (Text → Bool) → Move
  -- an apply that nothing comes between: a collect, the new table with these rules, and a reset
  applies : ℕ → Bool → (Text → Bool) → (Text → Bool) → Bool → Move
  -- a reset by itself: that of an apply which a collect or a packet comes between
  resets : Bool → Move
  -- a new table by itself: that of such an apply, or one that is written behind the core's back
  flushes : (Text → Bool) → Move
  -- the file is gone, or does not parse any more
  loses_file : Bool → Move

-- The kernel's counters, usage.json, what has arrived at the rule in question while a table had it,
-- and what its counter held at the resets that came by themselves.
pub record World : Type 0 where
  pub kernel : Table RuleCounter
  pub file : File
  pub packets : ℕ
  pub bytes : ℕ
  pub held_packets : ℕ
  pub held_bytes : ℕ

abbrev pub counted : Text → Text → ℕ → ℕ → Option RuleCounter → Option RuleCounter
counted x id p b none = none
counted x id p b (some c) =
    if same x id then some (record { packets = c.packets + p; bytes = c.bytes + b }) else some c

abbrev pub arrived : ℕ → Option RuleCounter → ℕ
arrived n none = 0
arrived n (some c) = n

abbrev pub counter_of : Option RuleCounter → RuleCounter
counter_of none = record { packets = 0; bytes = 0 }
counter_of (some c) = c

-- A new table counts from zero.
abbrev pub new_table : (Text → Bool) → Table RuleCounter
new_table placed id = if placed id then some (record { packets = 0; bytes = 0 }) else none

unfoldable pub step : Text → Move → World → World
step x (arrives id p b) w = record w {
  kernel = λ y. counted y id p b (w.kernel y);
  packets = w.packets + (if same x id then arrived p (w.kernel x) else 0);
  bytes = w.bytes + (if same x id then arrived b (w.kernel x) else 0);
}
step x (ticks now writable live) w = record w {
  file = (collect now writable w.kernel live w.file).0;
}
step x (applies now writable live placed resettable) w = record w {
  kernel = new_table placed;
  file = (reset_baselines resettable (collect now writable w.kernel live w.file).0).0;
}
step x (resets writable) w = record w {
  file = (reset_baselines writable w.file).0;
  held_packets = w.held_packets + (counter_of (w.kernel x)).packets;
  held_bytes = w.held_bytes + (counter_of (w.kernel x)).bytes;
}
step x (flushes placed) w = record w { kernel = new_table placed }
step x (loses_file gone) w = record w { file = if gone then missing else unparsable }

unfoldable pub run : Text → List Move → World → World
unfolding step
run x [] w = w
run x (m ∷ ms) w = run x ms (step x m w)

abbrev pub recorded_in : Option (Table RuleUsage) → Text → RuleUsage
recorded_in none x = no_usage
recorded_in (some usage) x = entry_or_new (usage x)

-- What usage.json records for an id: nothing where there is no record.
unfoldable pub recorded : File → Text → RuleUsage
recorded file x = recorded_in (read file) x
