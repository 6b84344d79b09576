-- ===== src/Kprobe/Handlers.antt =====
-- What the probes of kprobe/kprobe.c do when they are hit.
use modules.Common.{
  ℕ, ◌+◌, ◌≡◌, ◌≢◌, refl, ap, sym, ℕ_discrete, ◌⊎◌, inl, inr, Bool, ◌||◌, Option, none, some, List,
  [], ◌∷◌, ◌++◌, ℤ, pos, ◌==◌, if◌then◌else◌, length, All, Outcome, done, oops, arith,
}

-- The lines that ioctl_private_call_jentry prints: for the command, for each private argument, and
-- for the argument at which it stops.
pub data Line : Type 0 where
  called : (cmd num_private_args : ℕ) → Line
  argument : (i cmd : ℕ) → Line
  break : (i cmd : ℕ) → Line

-- The private commands that are looked at.
abbrev pub is_private : ℕ → Bool
is_private cmd = cmd == 0x8be1 || cmd == 0x8be0 || cmd == 0x8be2

-- The two loops, from an index on; the arguments are given by their commands.
abbrev pub list_args : (i : ℕ) → List ℕ → List Line
list_args i [] = []
list_args i (arg ∷ args) = argument i arg ∷ list_args (i + 1) args

pub find_arg : (cmd i : ℕ) → List ℕ → List Line
find_arg cmd i [] = []
find_arg cmd i (arg ∷ args) =
    let rest = find_arg cmd (i + 1) args in if cmd == arg then break i arg ∷ [] else rest

-- `wireless_handlers` may be NULL, and is not tested.
unfoldable pub ioctl_private_call_jentry :
    (wireless_handlers : Option (List ℕ)) → (cmd : ℕ) → Outcome (List Line)
unfolding find_arg
ioctl_private_call_jentry none cmd = if is_private cmd then oops else done []
ioctl_private_call_jentry (some args) cmd =
    if is_private cmd
    then done (
        (called cmd (length args) ∷ list_args 0 args)
        ++ called cmd (length args) ∷ find_arg cmd 0 args)
    else done []

-- Whether a line is printed.
abbrev pub wext_handle_ioctl_jentry : (cmd : ℕ) → Bool
wext_handle_ioctl_jentry cmd = is_private cmd

abbrev pub handle_fasteoi_irq_jentry : (irq : ℕ) → Bool
handle_fasteoi_irq_jentry irq = irq == 16

-- The results of the kprobes' handlers, which print a line each.
abbrev pub handler_pre : ℤ
handler_pre = pos 0

abbrev pub handler_fault : ℤ
handler_fault = pos 0

-- The second loop stops at the first argument with the command, or finds none.
find_arg_lem :
    (cmd i : ℕ) (args : List ℕ)
    → (All (λ arg. cmd ≢ arg) args × (find_arg cmd i args ≡ []))
      ⊎ ((before after : List ℕ) × (args ≡ before ++ cmd ∷ after)
          × All (λ arg. cmd ≢ arg) before
          × (find_arg cmd i args ≡ break (i + length before) cmd ∷ []))
unfolding find_arg
find_arg_lem cmd i [] = inl (tt, refl)
find_arg_lem cmd i (arg ∷ args) = elim (ℕ_discrete cmd arg) [
  | yes same ↦ inr ([], args, ap (λ c. c ∷ args) (sym same), tt, ground (arith, same))
  | no other ↦ elim (find_arg_lem cmd (i + 1) args) [
    | inl (others, none_found) ↦ inl ((other, others), ground (arith, other, none_found))
    | inr (before, after, split, others, found) ↦ inr (
      arg ∷ before,
      after,
      ap (λ xs. arg ∷ xs) split,
      (other, others),
      ground (arith, other, found),
    )
  ]
]
