-- ===== src/Kprobe/Tests.antt =====
-- kprobe/kprobe.c where the registration of one probe fails.
use modules.Common.{◌≡◌, ◌⊎◌, true, false, [], ◌∷◌, ℤ, pos, negsuc, is_neg, ◌==◌, if◌then◌else◌}
use modules.Kprobe.{Probe, kp, kp0, debug_kprobe, debug_jprobe, kprobes, kprobe_init}
use modules.Kprobe.Rollback.{any_fails, kprobe_init_lem}

-- The second probe of each array cannot be registered.
abbrev second_fails : Probe → ℤ
second_fails kp = pos 0
second_fails kp0 = pos 0
second_fails (debug_kprobe i) = negsuc i
second_fails (debug_jprobe i) = if i == 1 then negsuc 21 else pos 0

kprobe_init_lem_example :
    let (ret, reg) = kprobe_init second_fails [] in
    ((any_fails second_fails (kp ∷ kp0 ∷ kprobes) ≡ false)
      × (ret ≡ pos 0)
      × (reg ≡ debug_kprobe 1 ∷ debug_kprobe 0 ∷ kp0 ∷ kp ∷ []))
    ⊎ ((is_neg (second_fails kp) ≡ true) × (ret ≡ pos 0) × (reg ≡ []))
    ⊎ ((is_neg (second_fails kp) ≡ false)
        × (is_neg (second_fails kp0) ≡ true)
        × (ret ≡ pos 0)
        × (reg ≡ kp ∷ []))
    ⊎ ((is_neg (second_fails kp) ≡ false)
        × (is_neg (second_fails kp0) ≡ false)
        × (any_fails second_fails kprobes ≡ true)
        × (is_neg ret ≡ true)
        × (reg ≡ kp0 ∷ kp ∷ []))
kprobe_init_lem_example = kprobe_init_lem second_fails
