-- ===== src/Capture/Rate/Window.antt =====
-- The packets that cap_rate_check of netlink/netlink.c lets through over time.
use Prim.Native.Nat.{min}
use modules.Common.{
  ℕ, zero, suc, ◌+◌, ◌-◌, ◌%◌, ◌^◌, ◌≤◌, ◌<◌, ◌≡◌, refl, Bool, false, List, [], ◌∷◌, arith, length,
  replicate, length-replicate, if◌then◌else◌,
}
use modules.Capture.Rate.{Rate, cap_rate_check, checks}

-- The number of packets let through.
abbrev pub passed : List Bool → ℕ
passed [] = 0
passed (b ∷ bs) = let rest = passed bs in if b then suc rest else rest

-- Times in ascending order from `lo` to `hi`.
abbrev pub Within : (lo hi : ℕ) → List ℕ → Type 0
Within lo hi [] = Unit
Within lo hi (t ∷ ts) = (lo ≤ t) × (t ≤ hi) × Within t hi ts

-- Within HZ ticks of the last reset a positive limit lets through `limit - 1` packets, less those
-- counted before, and no more.
pub checks_window :
    (hz lo : ℕ) (nows : List ℕ) (r : Rate)
    → 0 < r.cap_rate_limit
    → r.packets + length nows < 2 ^ 32
    → r.last_check ≤ lo
    → r.last_check + hz < 2 ^ 64
    → Within lo (r.last_check + hz) nows
    → passed (checks hz nows r).0 ≡ min (length nows) (r.cap_rate_limit - 1 - r.packets)
unfolding checks cap_rate_check
checks_window hz lo [] r pos few from fits w = omega arith
checks_window hz lo (now ∷ nows) r pos few from fits w =
    ground (arith, checks_window hz now nows (record r { packets = (r.packets + 1) % 2 ^ 32 }))

-- With the limit reached, a call within the window is refused, and counted.
pub cap_rate_check-over :
    (hz now : ℕ) (r : Rate)
    → 0 < r.cap_rate_limit
    → r.cap_rate_limit ≤ r.packets + 1
    → r.packets + 1 < 2 ^ 32
    → r.last_check ≤ now
    → now ≤ r.last_check + hz
    → now < 2 ^ 64
    → cap_rate_check hz now r ≡ (false, record r { packets = r.packets + 1 })
unfolding cap_rate_check
cap_rate_check-over hz now r positive reached few from to fits = ground arith

Within-mono : (lo hi hi' : ℕ) (ts : List ℕ) → hi ≤ hi' → Within lo hi ts → Within lo hi' ts
Within-mono lo hi hi' [] h w = w
Within-mono lo hi hi' (t ∷ ts) h w = (w.0, omega arith, Within-mono t hi hi' ts h w.2)

-- For calls with times in ascending order within HZ ticks, none before the last reset, where the packets
-- counted with these calls stay below 2^32 and the times with HZ below 2^64, a positive limit lets
-- through at most twice its number of packets, less one, and less those counted before while they are
-- below the limit.
pub checks_any_second :
    (hz lo hi : ℕ) (nows : List ℕ) (r : Rate)
    → 0 < r.cap_rate_limit
    → r.packets + length nows < 2 ^ 32
    → r.last_check ≤ lo
    → hi ≤ lo + hz
    → hi + hz < 2 ^ 64
    → Within lo hi nows
    → passed (checks hz nows r).0 ≤ r.cap_rate_limit - 1 - r.packets + r.cap_rate_limit
unfolding checks cap_rate_check
checks_any_second hz lo hi [] r pos few from span fits w = omega arith
checks_any_second hz lo hi (now ∷ nows) r pos few from span fits w =
    let later : Within now (now + hz) nows = Within-mono now hi (now + hz) nows (omega arith) w.2 in
    ground (
      arith,
      checks_any_second hz now hi nows (record r { packets = (r.packets + 1) % 2 ^ 32 }),
      checks_window hz now nows (record r { last_check = now; packets = 0 }),
      later,
    )

Within-replicate : (t hi n : ℕ) → t ≤ hi → Within t hi (replicate n t)
Within-replicate t hi zero h = tt
Within-replicate t hi (suc n) h = (omega arith, h, Within-replicate t hi n h)

-- More than HZ ticks after the last reset a burst of calls at one time is let through whole, up to
-- twice the limit, less one, and less the packets counted before.
pub checks_burst :
    (hz now n : ℕ) (r : Rate)
    → r.packets < r.cap_rate_limit
    → r.packets + n < 2 ^ 32
    → r.last_check + hz < now
    → now + hz < 2 ^ 64
    → n ≤ r.cap_rate_limit - 1 - r.packets + r.cap_rate_limit
    → passed (checks hz (replicate n now) r).0 ≡ n
unfolding checks cap_rate_check
checks_burst hz now zero r under few late fits le = refl
checks_burst hz now (suc n) r under few late fits le = ground (
  arith,
  checks_burst hz now n (record r { packets = (r.packets + 1) % 2 ^ 32 }),
  checks_window hz now (replicate n now) (record r { last_check = now; packets = 0 }),
  Within-replicate now (now + hz) n,
  length-replicate n now,
)
