-- ===== src/Netctrl/App/Args.antt =====
-- The command line of netctrl/app.c: which request it makes, and when it only prints the usage.
use modules.Common.{
  ℕ, ◌≡◌, refl, ◌⊎◌, inl, inr, Bool, true, false, not, ◌||◌, Option, none, some, List, [], ◌∷◌, ℤ,
  pos, negsuc, ◌==◌, leb, if◌then◌else◌, atoi, done, oops, arith, Bool-cases, ◌≢◌, strncpy, le32,
  Outcome-cases, length,
}
use modules.Netctrl.Kernel.{netctrl_auth_ip, netctrl_auth_port, netctrl_auth_id}
use modules.Netctrl.App.{
  Syscmd, int, str, Sockets, Message, auth_kernel_config_cmd, syscmd_proc, parse_option,
  syscmd_parse_args, usage, ran, zero_cmd, main, GetoptLong, short_options, long_options,
}

-- An option that is none of -d, -p and -i, or that has no argument.
abbrev pub is_bad : ℕ × Option (List ℕ) → Bool
is_bad (c, none) = true
is_bad (c, some optarg) = not (c == b'd' || c == b'p' || c == b'i')

abbrev pub any_bad : List (ℕ × Option (List ℕ)) → Bool
any_bad [] = false
any_bad (o ∷ os) = is_bad o || any_bad os

-- The command of one option, and that of the last option.
abbrev pub command_of : ℕ → List ℕ → Syscmd
command_of c optarg =
    if c == b'd'
    then record { type = netctrl_auth_id; value = int (atoi optarg) }
    else if c == b'p'
    then record { type = netctrl_auth_port; value = int (atoi optarg) }
    else record { type = netctrl_auth_ip; value = str optarg }

abbrev pub last_command : List (ℕ × Option (List ℕ)) → Syscmd → Syscmd
last_command [] cmd = cmd
last_command ((c, none) ∷ os) cmd = cmd
last_command ((c, some optarg) ∷ os) cmd = last_command os (command_of c optarg)

parse_args-cons :
    (c : ℕ) (optarg : List ℕ) (os : List (ℕ × Option (List ℕ))) (cmd : Syscmd) (ret : ℤ)
    → syscmd_parse_args ((c, some optarg) ∷ os) cmd ret
      ≡ syscmd_parse_args os (parse_option c optarg cmd ret).0 (parse_option c optarg cmd ret).1
unfolding syscmd_parse_args
parse_args-cons c optarg os cmd ret = refl

parse_option-negsuc :
    (c : ℕ) (optarg : List ℕ) (cmd : Syscmd) → (parse_option c optarg cmd (negsuc 0)).1 ≡ negsuc 0
unfolding parse_option
parse_option-negsuc c optarg cmd = ground arith

-- Once an option is bad the result stays -1.
parse_args-negsuc :
    (os : List (ℕ × Option (List ℕ))) (cmd : Syscmd)
    → (syscmd_parse_args os cmd (negsuc 0)).1 ≡ negsuc 0
unfolding syscmd_parse_args
parse_args-negsuc [] cmd = refl
parse_args-negsuc ((c, none) ∷ os) cmd = refl
parse_args-negsuc ((c, some optarg) ∷ os) cmd =
    rw (parse_args-cons, parse_option-negsuc)
      (parse_args-negsuc os (parse_option c optarg cmd (negsuc 0)).0)

parse_option-bad :
    (c : ℕ) (optarg : List ℕ) (cmd : Syscmd) (ret : ℤ)
    → is_bad (c, some optarg) ≡ true
    → (parse_option c optarg cmd ret).1 ≡ negsuc 0
unfolding parse_option
parse_option-bad c optarg cmd ret bad = ground (arith, bad)

parse_option-good :
    (c : ℕ) (optarg : List ℕ) (cmd : Syscmd) (ret : ℤ)
    → is_bad (c, some optarg) ≡ false
    → parse_option c optarg cmd ret ≡ (command_of c optarg, ret)
unfolding parse_option
parse_option-good c optarg cmd ret good = ground (arith, good)

-- A command line with a bad option gives -1; one with none gives the command of its last option.
pub syscmd_parse_args_lem :
    (os : List (ℕ × Option (List ℕ))) (cmd : Syscmd) (ret : ℤ)
    → ((any_bad os ≡ true) × ((syscmd_parse_args os cmd ret).1 ≡ negsuc 0))
      ⊎ ((any_bad os ≡ false) × (syscmd_parse_args os cmd ret ≡ (last_command os cmd, ret)))
unfolding syscmd_parse_args
syscmd_parse_args_lem [] cmd ret = inr (refl, refl)
syscmd_parse_args_lem ((c, none) ∷ os) cmd ret = inl (refl, refl)
syscmd_parse_args_lem ((c, some optarg) ∷ os) cmd ret =
    elim (Bool-cases (is_bad (c, some optarg))) [
      | inl bad ↦ inl (
        rw bad,
        rw (parse_args-cons, parse_option-bad c optarg cmd ret bad)
            (parse_args-negsuc os (parse_option c optarg cmd ret).0),
      )
      | inr good ↦
          rw (good, parse_args-cons, parse_option-good c optarg cmd ret good)
            (syscmd_parse_args_lem os (command_of c optarg) ret)
    ]

-- The member of the union that is written goes with the type.
abbrev Fits : Syscmd → Type 0
Fits cmd =
    ((s : List ℕ) × (cmd.type ≡ netctrl_auth_ip) × (cmd.value ≡ str s))
    ⊎ ((n : ℕ) × (cmd.type ≢ netctrl_auth_ip) × (cmd.value ≡ int n))

command_of-Fits : (c : ℕ) (optarg : List ℕ) → Fits (command_of c optarg)
command_of-Fits c optarg = elim (Bool-cases (c == b'd')) [
  | inl d ↦ rw d (inr (_, omega arith, refl))
  | inr not_d ↦ elim (Bool-cases (c == b'p')) [
    | inl p ↦ rw (not_d, p) (inr (_, omega arith, refl))
    | inr not_p ↦ rw (not_d, not_p) (inl (_, refl, refl))
  ]
]

last_command-Fits :
    (os : List (ℕ × Option (List ℕ))) (cmd : Syscmd) → Fits cmd → Fits (last_command os cmd)
last_command-Fits [] cmd f = f
last_command-Fits ((c, none) ∷ os) cmd f = f
last_command-Fits ((c, some optarg) ∷ os) cmd f =
    last_command-Fits os (command_of c optarg) (command_of-Fits c optarg)

config_cmd-returns :
    (nlmsg_length : ℕ → ℕ) (env : Sockets) (msg_ok : Bool) (operation : ℕ) (buf : List ℕ) (n : ℕ)
    → env.calloc_ok ≡ true
    → auth_kernel_config_cmd nlmsg_length env msg_ok operation buf n ≢ oops
unfolding auth_kernel_config_cmd
config_cmd-returns nlmsg_length env msg_ok operation buf n ok = ground (arith, ok)

proc-returns :
    (nlmsg_length : ℕ → ℕ) (env : Sockets) (msg_ok : Bool) (cmd : Syscmd)
    → env.calloc_ok ≡ true
    → Fits cmd
    → syscmd_proc nlmsg_length env msg_ok cmd ≢ oops
unfolding syscmd_proc
proc-returns nlmsg_length env msg_ok cmd ok (inl (s, t, v)) =
    ground
      (arith, config_cmd-returns nlmsg_length env msg_ok netctrl_auth_ip (strncpy s 32) 32 ok, t, v)
proc-returns nlmsg_length env msg_ok cmd ok (inr (n, t, v)) =
    ground (arith, config_cmd-returns nlmsg_length env msg_ok cmd.type (le32 n) 4 ok, t, v)

-- With memory for its messages the program faults on no command line. It prints the usage and
-- sends nothing when there are no arguments or an option is bad, and otherwise does the command of
-- the last option.
pub main_lem :
    (nlmsg_length : ℕ → ℕ) (env : Sockets) (msg_ok : Bool) (getopt_long : GetoptLong)
    (argv : List (List ℕ))
    → env.calloc_ok ≡ true
    → let o = main nlmsg_length env msg_ok getopt_long argv in
      let os = getopt_long argv short_options long_options in
      (((leb (length argv) 1 || any_bad os) ≡ true) × (o ≡ done usage))
      ⊎ ((ret : ℤ) × (message : Option Message) × ((leb (length argv) 1 || any_bad os) ≡ false)
          × (syscmd_proc nlmsg_length env msg_ok (last_command os zero_cmd) ≡ done (ret, message))
          × (o ≡ done (ran message)))
unfolding main
main_lem nlmsg_length env msg_ok getopt_long argv ok =
    let os = getopt_long argv short_options long_options in
    elim (Bool-cases (leb (length argv) 1)) [
      | inl alone ↦ inl (rw alone, rw alone)
      | inr args ↦ elim (syscmd_parse_args_lem os zero_cmd (pos 0)) [
        | inl (bad, gives) ↦ inl (rw (args, bad), rw (args, gives))
        | inr (good, gives) ↦
            let cmd = last_command os zero_cmd in
            let fits = last_command-Fits os zero_cmd (inr (0, omega arith, refl)) in
            elim (Outcome-cases (syscmd_proc nlmsg_length env msg_ok cmd)) [
              | inl faults ↦ absurd (proc-returns nlmsg_length env msg_ok cmd ok fits faults)
              | inr ((ret, message), runs) ↦
                  inr (ret, message, rw (args, good), runs, rw (args, gives, runs))
            ]
      ]
    ]
