-- ===== src/Kprobe.antt =====
-- The probe module kprobe/kprobe.c: which probes are registered, and what is taken back when a
-- registration fails.
pub mod Rollback
pub mod Handlers
mod Tests
use modules.Common.{
  ℕ, suc, ◌+◌, Bool, true, false, List, [], ◌∷◌, ◌++◌, ℤ, pos, negsuc, is_neg, ◌==◌, if◌then◌else◌,
}

-- The static probes: kp, kp0, and those of the two arrays by their index.
pub data Probe : Type 0 where
  kp kp0 : Probe
  debug_kprobe debug_jprobe : ℕ → Probe

abbrev pub same_probe : Probe → Probe → Bool
same_probe kp kp = true
same_probe kp0 kp0 = true
same_probe (debug_kprobe i) (debug_kprobe j) = i == j
same_probe (debug_jprobe i) (debug_jprobe j) = i == j
same_probe _ _ = false

-- `unregister_kprobe` and `unregister_jprobe`, on the probes that are registered.
abbrev pub unregister : Probe → List Probe → List Probe
unregister p [] = []
unregister p (q ∷ qs) = let rest = unregister p qs in if same_probe p q then rest else q ∷ rest

abbrev pub unregister_all : List Probe → List Probe → List Probe
unregister_all [] reg = reg
unregister_all (p ∷ ps) reg = unregister_all ps (unregister p reg)

-- The array debug_kprobe, and debug_jprobe, which is longer where KCONFIG_WEXT_ENABLED is defined.
abbrev pub kprobes : List Probe
kprobes = debug_kprobe 0 ∷ debug_kprobe 1 ∷ []

abbrev pub jprobes : (wext : Bool) → List Probe
jprobes true = debug_jprobe 0 ∷ debug_jprobe 1 ∷ debug_jprobe 2 ∷ debug_jprobe 3 ∷ []
jprobes false = debug_jprobe 0 ∷ debug_jprobe 1 ∷ []

-- `register_kprobe` and `register_jprobe` answer with a number for each probe.
module _ (register : Probe → ℤ) where
  -- A loop over an array, with the probes before the index, which `bad:` takes back: the answer of
  -- the last call, which is negative if it failed.
  pub register_loop : (before rest : List Probe) → (ret : ℤ) → List Probe → ℤ × List Probe
  register_loop before [] ret reg = (ret, reg)
  register_loop before (p ∷ ps) ret reg =
      let done = register_loop (before ++ p ∷ []) ps (register p) (p ∷ reg) in
      if is_neg (register p) then (register p, unregister_all before reg) else done

  -- The loop's result, and 0 where it went through.
  pub after_loop : ℤ × List Probe → ℤ × List Probe
  after_loop (ret, reg) = if is_neg ret then (ret, reg) else (pos 0, reg)

  unfoldable pub kprobe_init : List Probe → ℤ × List Probe
  unfolding register_loop after_loop
  kprobe_init reg =
      if is_neg (register kp)
      then (register kp, reg)
      else if is_neg (register kp0)
      then (register kp0, kp ∷ reg)
      else after_loop (register_loop [] kprobes (pos 0) (kp0 ∷ kp ∷ reg))

  pub after_jprobes : ℤ × List Probe → ℤ × List Probe
  after_jprobes (ret, reg) = if is_neg ret then (negsuc 0, reg) else (pos 0, reg)

  unfoldable pub jprobe_init : (wext : Bool) → List Probe → ℤ × List Probe
  unfolding register_loop after_jprobes
  jprobe_init wext reg = after_jprobes (register_loop [] (jprobes wext) (pos 0) reg)

  -- The results of the two are not looked at.
  unfoldable pub probe_init : (wext : Bool) → List Probe → ℤ × List Probe
  unfolding kprobe_init jprobe_init
  probe_init wext reg = (pos 0, (jprobe_init wext (kprobe_init reg).1).1)

unfoldable pub kprobe_exit : List Probe → List Probe
kprobe_exit reg = unregister_all kprobes (unregister kp0 (unregister kp reg))

unfoldable pub jprobe_exit : (wext : Bool) → List Probe → List Probe
jprobe_exit wext reg = unregister_all (jprobes wext) reg

unfoldable pub probe_exit : (wext : Bool) → List Probe → List Probe
unfolding kprobe_exit jprobe_exit
probe_exit wext reg = jprobe_exit wext (kprobe_exit reg)
