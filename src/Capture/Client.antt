-- ===== src/Capture/Client.antt =====
-- The user program netlink/user_client.c: what it sends and how often it receives.
-- Its calls are recorded; whether `socket`, `bind` and `malloc` succeed are arguments, as is
-- NLMSG_SPACE of the kernel's headers.
pub mod Exchange
pub mod Receiving
pub mod Wire
use modules.Common.{
  ℕ, zero, suc, ◌+◌, ◌-◌, Bool, true, false, Option, none, some, List, [], ◌∷◌, ◌++◌, ℤ, pos,
  negsuc, take, replicate, length, is_nonzero, codes, strncpy, ◌==◌, if◌then◌else◌,
}
use modules.Nlmsg.{Nlmsghdr}

-- The message types of this program, which differ from those of the module in the third.
abbrev pub cap_add : ℕ
cap_add = 0

abbrev pub cap_del : ℕ
cap_del = 1

abbrev pub cap_get_packet : ℕ
cap_get_packet = 2

abbrev pub max_payload : ℕ
max_payload = 1600

-- The calls of the program. `exited` is `exit(-1)`.
pub data Call : Type 0 where
  sendmsg : Nlmsghdr → List ℕ → Call
  recvmsg exited : Call

-- Calls, and whether the program goes on after them.
abbrev pub Calls : Type 0
Calls = List Call × Bool

infixl 5 ◌>>◌
abbrev pub ◌>>◌ : Calls → Calls → Calls
m >> k = if m.1 then (m.0 ++ k.0, k.1) else m

unfoldable pub netlink_init : (socket_ok bind_ok : Bool) → Calls
netlink_init socket_ok bind_ok =
    if socket_ok then if bind_ok then ([], true) else (exited ∷ [], false) else (exited ∷ [], false)

-- `seq` is what `malloc` left in nlmsg_seq, which is not set. NLMSG_SPACE(MAX_PAYLOAD) is the length in any case, whatever `len` is.
unfoldable pub send_to_kernel :
    (nlmsg_space : ℕ → ℕ) → (getpid seq : ℕ) → (malloc_ok : Bool) → List ℕ → (len type : ℕ) → Calls
send_to_kernel nlmsg_space getpid seq malloc_ok bytes len type =
    let nlh : Nlmsghdr = record {
      nlmsg_len = nlmsg_space max_payload;
      nlmsg_type = type;
      nlmsg_flags = 0;
      nlmsg_seq = seq;
      nlmsg_pid = getpid;
    } in
    if malloc_ok then (sendmsg nlh (strncpy bytes len) ∷ [], true) else (exited ∷ [], false)

-- `time--` on an `int`; the overflow below -2^31, which C leaves undefined, is not modelled.
abbrev pub pred_ℤ : ℤ → ℤ
pred_ℤ (pos zero) = negsuc 0
pred_ℤ (pos (suc n)) = pos n
pred_ℤ (negsuc n) = negsuc (suc n)

abbrev received : Option (List Call) → Option (List Call)
received none = none
received (some calls) = some (recvmsg ∷ calls)

-- The loop of `main`, on fuel: `none` when it has not ended after that many rounds.
unfoldable pub receive_times : ℕ → ℤ → Option (List Call)
receive_times zero time = none
receive_times (suc fuel) time =
    let rest = receive_times fuel (pred_ℤ time) in
    if is_nonzero (pred_ℤ time) then received rest else some (recvmsg ∷ [])

abbrev pub looped : Option (List Call) → Calls → Option (List Call)
looped none last = none
looped (some calls) last = some ((calls, true) >> last).0

-- "hello, netlink world" and "Bye, netlink world"; both are sent with the length of the first.
abbrev pub hello : List ℕ
hello = codes "hello, netlink world"

abbrev pub bye : List ℕ
bye = codes "Bye, netlink world"

abbrev pub begin : Calls → Option (List Call) → Calls → Option (List Call)
begin first loop last =
    if first.1
    then elim (looped loop last) [ none ↦ none | some l ↦ some (first.0 ++ l) ]
    else some first.0

-- `time` is `atoi(argv[1])`; the Booleans say which of the calls succeed.
unfoldable pub main :
    (nlmsg_space : ℕ → ℕ)
    → (getpid seq seq' : ℕ) → (socket_ok bind_ok malloc_ok : Bool) → (fuel : ℕ) → ℤ
    → Option (List Call)
unfolding netlink_init send_to_kernel
main nlmsg_space getpid seq seq' socket_ok bind_ok malloc_ok fuel time =
    let len = length hello + 1 in
    let first =
      netlink_init socket_ok bind_ok
      >> send_to_kernel nlmsg_space getpid seq malloc_ok hello len cap_add in
    begin first (receive_times fuel time)
      (send_to_kernel nlmsg_space getpid seq' malloc_ok bye len cap_del)
