-- ===== src/Netctrl/App.antt =====
-- The user program netctrl/app.c.
-- `getopt_long` and the answers of the allocator and the socket calls are arguments. `free` and
-- `close` have no effect on these.
pub mod Args
use modules.Common.{
  ℕ, zero, suc, ◌+◌, ◌-◌, ◌*◌, ◌%◌, ◌^◌, Bool, true, false, Option, none, some, List, [], ◌∷◌, ◌++◌,
  ℤ, pos, negsuc, is_neg, is_nonzero, ◌==◌, leb, if◌then◌else◌, take, length, codes, strncpy, le16,
  le32, atoi, Outcome, done, oops, ◌>>=◌,
}
use modules.Nlmsg.{Nlmsghdr}
use modules.Netctrl.Kernel.{netctrl_auth_ip, netctrl_auth_port, netctrl_auth_id}

abbrev pub max_msgsize : ℕ
max_msgsize = 2048

-- The union of struct syscmd, by the member that was written last: an int as its 32-bit pattern, or
-- a string.
pub data Value : Type 0 where
  int : ℕ → Value
  str : List ℕ → Value

pub record Syscmd : Type 0 where
  pub type : ℕ
  pub value : Value

-- What the sockets answer: `socket` and `bind` succeed or give a negative number, `calloc` of the
-- message may fail, and `sendmsg` gives its result.
pub record Sockets : Type 0 where
  pub getpid : ℕ
  pub socket_ok : Bool
  pub bind_result : ℤ
  pub calloc_ok : Bool
  pub sendmsg_result : ℤ

-- A message that was handed to `sendmsg`.
abbrev pub Message : Type 0
Message = Nlmsghdr × List ℕ

-- The first two bytes of the buffer are `msg_type`.
abbrev pub type_of : List ℕ → ℕ
type_of (a ∷ b ∷ rest) = a + 256 * b
type_of _ = 0

-- `nlmsg_length` is NLMSG_LENGTH of the kernel's headers. The copy goes through the result of
-- `calloc`, which is not looked at.
unfoldable pub send_msg_to_kernel :
    (nlmsg_length : ℕ → ℕ) → Sockets → List ℕ → (buflen : ℕ) → Outcome (ℤ × Option Message)
send_msg_to_kernel nlmsg_length env buf buflen =
    let nlhdr : Nlmsghdr = record {
      nlmsg_len = nlmsg_length buflen;
      nlmsg_type = type_of buf;
      nlmsg_flags = 0;
      nlmsg_seq = 0;
      nlmsg_pid = env.getpid;
    } in
    if leb max_msgsize buflen
    then done (negsuc 0, none)
    else if env.socket_ok
    then if is_neg env.bind_result
      then done (env.bind_result, none)
      else if env.calloc_ok
      then done (env.sendmsg_result, some (nlhdr, take buflen buf))
      else oops
    else done (negsuc 0, none)

-- The bytes of struct msg_buf with its data.
abbrev pub msg_buf : (operation : ℕ) → List ℕ → (buflen : ℕ) → List ℕ
msg_buf operation buf buflen =
    le16 (operation % 2 ^ 16) ++ le16 (buflen % 2 ^ 16) ++ take buflen buf

abbrev pub sent_by : Outcome (ℤ × Option Message) → Outcome (ℤ × Option Message)
sent_by oops = oops
sent_by (done (ret, message)) = done (pos 0, message)

-- It returns 0 also where the message could not be sent.
unfoldable pub auth_kernel_config_cmd :
    (nlmsg_length : ℕ → ℕ)
    → Sockets
    → (msg_ok : Bool) → (operation : ℕ) → List ℕ
    → (buflen : ℕ) → Outcome (ℤ × Option Message)
unfolding send_msg_to_kernel
auth_kernel_config_cmd nlmsg_length env msg_ok operation buf buflen =
    if msg_ok
    then sent_by (send_msg_to_kernel nlmsg_length env (msg_buf operation buf buflen) (4 + buflen))
    else done (negsuc 0, none)

module _ (nlmsg_length : ℕ → ℕ) (env : Sockets) (msg_ok : Bool) where
  -- The three commands read the member of the union that their type goes with.
  pub set_auth_int : ℕ → Value → Outcome (ℤ × Option Message)
  set_auth_int type (int value) = auth_kernel_config_cmd nlmsg_length env msg_ok type (le32 value) 4
  set_auth_int type (str string) = oops

  pub set_auth_str : ℕ → Value → Outcome (ℤ × Option Message)
  set_auth_str type (int value) = oops
  set_auth_str type (str string) =
      auth_kernel_config_cmd nlmsg_length env msg_ok type (strncpy string 32) 32

  unfoldable pub syscmd_set_auth_port : Syscmd → Outcome (ℤ × Option Message)
  unfolding set_auth_int
  syscmd_set_auth_port cmd = set_auth_int cmd.type cmd.value

  unfoldable pub syscmd_set_auth_ip : Syscmd → Outcome (ℤ × Option Message)
  unfolding set_auth_str
  syscmd_set_auth_ip cmd = set_auth_str cmd.type cmd.value

  unfoldable pub syscmd_set_auth_id : Syscmd → Outcome (ℤ × Option Message)
  unfolding set_auth_int
  syscmd_set_auth_id cmd = set_auth_int cmd.type cmd.value

  -- It returns 0; the message that was sent, if one was.
  unfoldable pub syscmd_proc : Syscmd → Outcome (ℤ × Option Message)
  unfolding syscmd_set_auth_port syscmd_set_auth_ip syscmd_set_auth_id
  syscmd_proc cmd =
      if cmd.type == netctrl_auth_ip
      then sent_by (syscmd_set_auth_ip cmd)
      else if cmd.type == netctrl_auth_port
      then sent_by (syscmd_set_auth_port cmd)
      else if cmd.type == netctrl_auth_id
      then sent_by (syscmd_set_auth_id cmd)
      else done (pos 0, none)

-- One result of `getopt_long`: the command and the new `ret`.
pub parse_option : ℕ → List ℕ → Syscmd → (ret : ℤ) → Syscmd × ℤ
parse_option c optarg cmd ret =
    if c == b'h'
    then (cmd, negsuc 0)
    else if c == b'd'
    then (record { type = netctrl_auth_id; value = int (atoi optarg) }, ret)
    else if c == b'p'
    then (record { type = netctrl_auth_port; value = int (atoi optarg) }, ret)
    else if c == b'i'
    then (record { type = netctrl_auth_ip; value = str optarg }, ret)
    else (cmd, negsuc 0)

-- The loop of `syscmd_parse_args`; an option with no argument ends it.
unfoldable pub syscmd_parse_args : List (ℕ × Option (List ℕ)) → Syscmd → (ret : ℤ) → Syscmd × ℤ
unfolding parse_option
syscmd_parse_args [] cmd ret = (cmd, ret)
syscmd_parse_args ((c, none) ∷ rest) cmd ret = (cmd, negsuc 0)
syscmd_parse_args ((c, some optarg) ∷ rest) cmd ret =
    let (cmd', ret') = parse_option c optarg cmd ret in syscmd_parse_args rest cmd' ret'

-- What a run of `main` does: whether it prints the usage, and the message that it sends.
pub data Ran : Type 0 where
  usage : Ran
  ran : Option Message → Ran

abbrev pub ran_by : Outcome (ℤ × Option Message) → Outcome Ran
ran_by oops = oops
ran_by (done (ret, message)) = done (ran message)

-- struct option; `flag` is NULL in each.
pub record LongOption : Type 0 where
  pub name : List ℕ
  pub has_arg : ℕ
  pub val : ℕ

-- The table up to its entry with the name NULL.
abbrev pub long_options : List LongOption
long_options =
    record { name = codes "ip"; has_arg = 1; val = b'i' }
    ∷ record { name = codes "id"; has_arg = 1; val = b'd' }
    ∷ record { name = codes "help"; has_arg = 0; val = b'h' }
    ∷ record { name = codes "port"; has_arg = 1; val = b'p' }
    ∷ []

abbrev pub short_options : List ℕ
short_options = codes "hi:p:d:"

-- The results of `getopt_long` on a command line up to -1, each with the `optarg` of the time, by the
-- two tables that it is given.
abbrev pub GetoptLong : Type 0
GetoptLong = List (List ℕ) → List ℕ → List LongOption → List (ℕ × Option (List ℕ))

-- g_sys_cmd at the start of the program.
abbrev pub zero_cmd : Syscmd
zero_cmd = record { type = 0; value = int 0 }

unfoldable pub main :
    (nlmsg_length : ℕ → ℕ)
    → Sockets
    → (msg_ok : Bool) → GetoptLong
    → (argv : List (List ℕ)) → Outcome Ran
main nlmsg_length env msg_ok getopt_long argv =
    let options = getopt_long argv short_options long_options in
    let (cmd, ret) = syscmd_parse_args options zero_cmd (pos 0) in
    if leb (length argv) 1
    then done usage
    else if is_nonzero ret
    then done usage
    else ran_by (syscmd_proc nlmsg_length env msg_ok cmd)
