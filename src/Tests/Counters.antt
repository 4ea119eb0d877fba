-- ===== src/Tests/Counters.antt =====
-- Port counters of internal/core/usage.go.
use easywall.Prelude.{◌≡◌, refl, Bool, true, false, List, [], ◌∷◌, arith}
use easywall.Text.{Text, codes, same, has_prefix}
use easywall.Text.Table.{empty_table}
use easywall.Usage.{missing, collect, book, is_reserved_rule_id, read, reset_baselines, collected}
use easywall.Usage.Traffic.{
  Move, arrives, ticks, applies, resets, flushes, loses_file, World, run, recorded,
}
use easywall.Usage.Exact.{collect-recorded}

abbrev web : Text
web = codes "web"

abbrev always : Text → Bool
always id = true

abbrev fresh_host : World
fresh_host = record {
  kernel = empty_table;
  file = missing;
  packets = 0;
  bytes = 0;
  held_packets = 0;
  held_bytes = 0;
}

-- Traffic over two applies.
abbrev smooth : List Move
smooth =
    applies 10 true always always true
    ∷ (arrives web 3 120
        ∷ (ticks 20 true always
            ∷ (arrives web 2 80 ∷ (applies 30 true always always true ∷ (arrives web 1 40 ∷ [])))))

collect-recorded_example :
    ((recorded
        (collect 40 true
          (run web smooth fresh_host).kernel
          always
          (run web smooth fresh_host).file).0
        web).packets
      ≡ (run web smooth fresh_host).packets)
    × ((recorded
          (collect 40 true
            (run web smooth fresh_host).kernel
            always
            (run web smooth fresh_host).file).0
          web).bytes
        ≡ (run web smooth fresh_host).bytes)
unfolding is_reserved_rule_id has_prefix run same
collect-recorded_example =
    collect-recorded web smooth fresh_host 40 always refl refl refl refl refl
      (
        (refl, refl, refl),
        (
          (λ z. ground arith),
          ((refl, refl), ((λ z. ground arith), ((refl, refl, refl), ((λ z. ground arith), tt)))),
        ),
      )
      refl (omega arith) (omega arith)

-- A collect between an apply's table and its reset: two packets are booked twice.
abbrev straddled : List Move
straddled =
    flushes always
    ∷ (arrives web 2 80 ∷ (ticks 20 true always ∷ (resets true ∷ (ticks 30 true always ∷ []))))

two_booked_twice :
    ((recorded (run web straddled fresh_host).file web).packets ≡ 4)
    × ((run web straddled fresh_host).packets ≡ 2)
    × ((run web straddled fresh_host).held_packets ≡ 2)
unfolding recorded run read reset_baselines collect collected is_reserved_rule_id has_prefix same
    book
two_booked_twice = (refl, refl, refl)

-- Traffic over a flush and a file that cannot be written.
abbrev rough : List Move
rough =
    flushes always
    ∷ (arrives web 3 120
        ∷ (ticks 20 true always
            ∷ (flushes always
                ∷ (arrives web 4 90
                    ∷ (ticks 30 false always ∷ (loses_file true ∷ (ticks 40 true always ∷ [])))))))

-- What the two histories record.
all_five_booked : (recorded (run web smooth fresh_host).file web).packets ≡ 5
unfolding recorded run read reset_baselines collect collected is_reserved_rule_id has_prefix same
    book
all_five_booked = refl

four_of_seven_booked : (recorded (run web rough fresh_host).file web).packets ≡ 4
unfolding recorded run read reset_baselines collect collected is_reserved_rule_id has_prefix same
    book
four_of_seven_booked = refl
