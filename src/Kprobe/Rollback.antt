-- ===== src/Kprobe/Rollback.antt =====
-- What stays registered when a registration of kprobe/kprobe.c fails.
use modules.Common.{
  ◌≡◌, refl, ◌⊎◌, Bool, true, false, ◌||◌, List, [], ◌∷◌, ℤ, pos, negsuc, is_neg, arith, All,
}
use modules.Kprobe.{
  Probe, kp, kp0, debug_kprobe, unregister, unregister_all, kprobes, jprobes, kprobe_init,
  jprobe_init, probe_init, probe_exit,
}

-- Whether one of the registrations fails.
abbrev pub any_fails : (Probe → ℤ) → List Probe → Bool
any_fails register [] = false
any_fails register (p ∷ ps) = is_neg (register p) || any_fails register ps

-- The four ways of `kprobe_init` on a module that has nothing registered: it registers the two
-- single probes and the array and returns 0; or kp fails and nothing stays; or kp0 fails and kp
-- stays; or one of the array fails, those before it are taken back, and kp and kp0 stay. In the
-- last three the result is negative.
pub kprobe_init_lem :
    (register : Probe → ℤ)
    → let (ret, reg) = kprobe_init register [] in
      ((any_fails register (kp ∷ kp0 ∷ kprobes) ≡ false)
        × (ret ≡ pos 0)
        × (reg ≡ debug_kprobe 1 ∷ debug_kprobe 0 ∷ kp0 ∷ kp ∷ []))
      ⊎ ((is_neg (register kp) ≡ true) × (ret ≡ register kp) × (reg ≡ []))
      ⊎ ((is_neg (register kp) ≡ false)
          × (is_neg (register kp0) ≡ true)
          × (ret ≡ register kp0)
          × (reg ≡ kp ∷ []))
      ⊎ ((is_neg (register kp) ≡ false)
          × (is_neg (register kp0) ≡ false)
          × (any_fails register kprobes ≡ true)
          × (is_neg ret ≡ true)
          × (reg ≡ kp0 ∷ kp ∷ []))
unfolding kprobe_init
kprobe_init_lem register = ground arith

-- `jprobe_init` registers its whole array and returns 0, or returns -1 and leaves what was
-- registered as it was, if no jprobe was registered.
pub jprobe_init_lem :
    (register : Probe → ℤ) (wext : Bool) (reg : List Probe)
    → All (λ p. unregister p reg ≡ reg) (jprobes wext)
    → let (ret, reg') = jprobe_init register wext reg in
      ((any_fails register (jprobes wext) ≡ false)
        × (ret ≡ pos 0)
        × (unregister_all (jprobes wext) reg' ≡ reg))
      ⊎ ((any_fails register (jprobes wext) ≡ true) × (ret ≡ negsuc 0) × (reg' ≡ reg))
unfolding jprobe_init
jprobe_init_lem register true reg none_yet = ground (arith, none_yet)
jprobe_init_lem register false reg none_yet = ground (arith, none_yet)

-- `probe_init` returns 0 whichever registrations fail, and after `probe_exit` nothing is
-- registered.
pub probe_exit_lem :
    (register : Probe → ℤ) (wext : Bool)
    → let (ret, reg) = probe_init register wext [] in (ret ≡ pos 0) × (probe_exit wext reg ≡ [])
unfolding probe_init probe_exit
probe_exit_lem register true = (refl, ground arith)
probe_exit_lem register false = (refl, ground arith)
