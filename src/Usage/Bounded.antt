-- ===== src/Usage/Bounded.antt =====
-- What is booked never exceeds what has arrived, and what a reset by itself books again.
use easywall.Prelude.{ℕ, ◌+◌, ◌≤◌, Option, none, some}
use easywall.Text.{Text}
use easywall.Text.Table.{Table}
use easywall.Usage.{RuleUsage, RuleCounter, File, no_usage, booked, delta}
use easywall.Usage.Traffic.{World, recorded}

-- One of the two counts: what is booked, and what the next collect would book, have arrived.
abbrev Fits : ℕ → ℕ → ℕ → ℕ → Type 0
Fits booked baseline now total = (booked + delta now baseline ≤ total) × (now ≤ total)

abbrev Within : Option RuleCounter → RuleUsage → ℕ → ℕ → Type 0
Within none e p b = (e.packets ≤ p) × (e.bytes ≤ b)
Within (some c) e p b =
    Fits e.packets e.kernel_packets c.packets p × Fits e.bytes e.kernel_bytes c.bytes b

module _ (x : Text) (p b : ℕ) (k : Option RuleCounter) where
  -- The rule's entry in the file, and an entry that starts anew, book no more than has arrived.
  Bounded : File → Type 0
  Bounded file = Within k (recorded file x) p b × Within k no_usage p b

abbrev Covered : RuleUsage → ℕ → ℕ → Type 0
Covered e p b = (e.packets ≤ p) × (e.bytes ≤ b)

-- What may be booked for the rule: what has arrived, and what resets by themselves book again.
abbrev packets_due : World → ℕ
packets_due w = w.packets + w.held_packets

abbrev bytes_due : World → ℕ
bytes_due w = w.bytes + w.held_bytes

-- The invariant of a history.
IsBounded : Text → World → Type 0
IsBounded x w = Bounded x (packets_due w) (bytes_due w) (w.kernel x) w.file
