-- ===== src/Capture/Rate.antt =====
-- cap_rate_check of netlink/netlink.c, with its static variables as a record.
-- `packets` is compared as unsigned, so it is kept as a 32-bit pattern; jiffies and last_check are
-- unsigned longs of 64 bits. The clock and HZ are arguments.
pub mod Window
mod Tests
use modules.Common.{
  ℕ, ◌+◌, ◌-◌, ◌%◌, ◌^◌, Bool, true, false, ltb, ◌==◌, if◌then◌else◌, List, [], ◌∷◌,
}

pub record Rate : Type 0 where
  pub cap_rate_limit : ℕ
  pub last_check : ℕ
  pub packets : ℕ

unfoldable pub cap_rate_check : (hz now : ℕ) → Rate → Bool × Rate
cap_rate_check hz now r =
    let counted = (r.packets + 1) % 2 ^ 32 in
    let elapsed = (now + 2 ^ 64 - r.last_check) % 2 ^ 64 in
    if r.cap_rate_limit == 0
    then (true, r)
    else if ltb counted r.cap_rate_limit
    then (true, record r { packets = counted })
    else if ltb hz elapsed
    then (true, record r { last_check = now; packets = 0 })
    else (false, record r { packets = counted })

-- The answers to calls at the given times.
pub checks : ℕ → List ℕ → Rate → List Bool × Rate
checks hz [] r = ([], r)
checks hz (now ∷ nows) r =
    let (answer, r') = cap_rate_check hz now r in
    let (answers, end) = checks hz nows r' in (answer ∷ answers, end)
