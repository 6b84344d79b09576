-- ===== src/Capture/Rate/Tests.antt =====
-- The rate check of netlink/netlink.c with a limit of 3 in 100 ticks.
use modules.Common.{ℕ, ◌≤◌, ◌≡◌, refl, true, false, List, [], ◌∷◌, arith}
use modules.Capture.Rate.{Rate, cap_rate_check, checks}
use modules.Capture.Rate.Window.{passed, checks_any_second}

abbrev three_packets : Rate
three_packets = record { cap_rate_limit = 3; last_check = 1000; packets = 0 }

abbrev some_times : List ℕ
some_times = 1010 ∷ 1020 ∷ 1030 ∷ 1040 ∷ []

third_refused : (checks 100 some_times three_packets).0 ≡ true ∷ true ∷ false ∷ false ∷ []
unfolding checks cap_rate_check
third_refused = refl

no_limit :
    (cap_rate_check 100 5000 (record { cap_rate_limit = 0; last_check = 0; packets = 9 })).0 ≡ true
unfolding cap_rate_check
no_limit = refl

abbrev late_times : List ℕ
late_times = 2000 ∷ 2000 ∷ 2000 ∷ 2050 ∷ 2050 ∷ 2100 ∷ []

checks_any_second_example : passed (checks 100 late_times three_packets).0 ≤ 5
checks_any_second_example =
    checks_any_second 100 2000 2100 late_times three_packets (omega arith) (omega arith)
      (omega arith) (omega arith) (omega arith) (ground arith)
