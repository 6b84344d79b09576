-- ===== src/Netctrl/Kernel.antt =====
-- The kernel module netctrl/netctrl.c with the types of netctrl/netctrl.h.
-- What it prints of an accepted command is its effect, and is recorded. A read outside an
-- allocation is a fault. The hooks of the module accept every packet and have no state.
pub mod Receive
pub mod Lines
pub mod Messages
pub mod Start
use modules.Common.{
  ℕ, zero, suc, ◌+◌, ◌-◌, ◌%◌, ◌^◌, Bool, true, false, Option, none, some, List, [], ◌∷◌, ◌++◌, ℤ,
  pos, negsuc, neg_einval, neg_enomem, is_nonzero, ◌==◌, if◌then◌else◌, drop, codes, c_string,
  u16_at, u32_at, Outcome, done, oops, ◌>>=◌,
}
use modules.Nlmsg.{Nlmsghdr, NlmsgApi, receive_loop}

-- enum NETCTRL_TYPE
abbrev pub netctrl_auth_ip : ℕ
netctrl_auth_ip = 1

abbrev pub netctrl_auth_port : ℕ
netctrl_auth_port = 2

abbrev pub netctrl_auth_id : ℕ
netctrl_auth_id = 3

-- What the three handlers print: the string of an address, and an `int` by its 32-bit pattern.
pub data Printed : Type 0 where
  ip : List ℕ → Printed
  port id : ℕ → Printed

-- NF_ACCEPT and the constants of the hook table, of the kernel's headers.
abbrev pub nf_accept : ℕ
nf_accept = 1

-- The hook functions of the module.
pub data Hook : Type 0 where
  bridge_hook_pre_routing netctrl_hook_local_out netctrl_hook_pre_routing
        netctrl_hook_post_routing :
      Hook

unfoldable pub hook_verdict : Hook → ℕ
hook_verdict bridge_hook_pre_routing = nf_accept
hook_verdict netctrl_hook_local_out = nf_accept
hook_verdict netctrl_hook_pre_routing = nf_accept
hook_verdict netctrl_hook_post_routing = nf_accept

-- The array netctrl_hooks: the function, the protocol family and the hook number.
pub data Family : Type 0 where
  pf_bridge pf_inet : Family

pub data HookNum : Type 0 where
  br_pre_routing inet_local_out inet_pre_routing inet_post_routing : HookNum

abbrev pub NfHookOps : Type 0
NfHookOps = Hook × Family × HookNum

abbrev pub netctrl_hooks : List NfHookOps
netctrl_hooks =
    (bridge_hook_pre_routing, pf_bridge, br_pre_routing)
    ∷ (netctrl_hook_local_out, pf_inet, inet_local_out)
    ∷ (netctrl_hook_pre_routing, pf_inet, inet_pre_routing)
    ∷ (netctrl_hook_post_routing, pf_inet, inet_post_routing)
    ∷ []

-- `netctrl_sock` says whether the pointer is other than NULL. `bytes_live` counts what the module
-- has allocated for messages and not freed.
pub record Netctrl : Type 0 where
  pub netctrl_sock : Bool
  pub registered : List NfHookOps
  pub bytes_live : ℕ
  pub log : List Printed
  pub acks : List (Nlmsghdr × ℤ)

-- `nf_register_hooks` answers `err`, and has registered the hooks when that is 0.
unfoldable pub netctrl_hooks_init : ℤ → Netctrl → ℤ × Netctrl
netctrl_hooks_init err s =
    if is_nonzero err then (err, s) else (err, record s { registered = netctrl_hooks })

-- The result of `netctrl_hooks_init` is not looked at.
unfoldable pub netctrl_init : (created : Bool) → ℤ → Netctrl → ℤ × Netctrl
unfolding netctrl_hooks_init
netctrl_init created err s =
    if created
    then (pos 0, (netctrl_hooks_init err (record s { netctrl_sock = true })).1)
    else (neg_enomem, record s { netctrl_sock = false })

unfoldable pub netctrl_exit : Netctrl → Netctrl
netctrl_exit s = record s { netctrl_sock = false; registered = [] }

unfoldable pub type2string : ℕ → List ℕ
type2string cmdtype =
    if cmdtype == netctrl_auth_ip
    then codes "NETCTRL_AUTH_IP"
    else if cmdtype == netctrl_auth_port
    then codes "NETCTRL_AUTH_PORT"
    else if cmdtype == netctrl_auth_id
    then codes "NETCTRL_AUTH_ID"
    else codes "unknown msg type"

unfoldable pub netctrl_netlink_ok : ℕ → ℤ
netctrl_netlink_ok msg_type =
    if msg_type == netctrl_auth_ip
    then pos 0
    else if msg_type == netctrl_auth_port
    then pos 0
    else if msg_type == netctrl_auth_id
    then pos 0
    else neg_einval

-- A line is printed; each handler returns 0.
pub print : Printed → Netctrl → Outcome (ℤ × Netctrl)
print line s = done (pos 0, record s { log = s.log ++ line ∷ [] })

-- `%s` reads to the first NUL, and `%d` reads an int.
unfoldable pub handle_auth_ip : Option (List ℕ) → Netctrl → Outcome (ℤ × Netctrl)
unfolding print
handle_auth_ip none s = oops
handle_auth_ip (some string) s = print (ip string) s

unfoldable pub handle_auth_port : Option ℕ → Netctrl → Outcome (ℤ × Netctrl)
unfolding print
handle_auth_port none s = oops
handle_auth_port (some value) s = print (port value) s

unfoldable pub handle_auth_id : Option ℕ → Netctrl → Outcome (ℤ × Netctrl)
unfolding print
handle_auth_id none s = oops
handle_auth_id (some value) s = print (id value) s

-- The switch of `netctrl_proc_msg` on `buf->msg_type`; `buf->data` is behind the first 4 bytes. The
-- third case falls through into the empty `default`.
pub switch_type : List ℕ → Option ℕ → Netctrl → Outcome (ℤ × Netctrl)
unfolding handle_auth_ip handle_auth_port handle_auth_id
switch_type buf none s = oops
switch_type buf (some msg_type) s =
    if msg_type == netctrl_auth_ip
    then handle_auth_ip (c_string (drop 4 buf)) s
    else if msg_type == netctrl_auth_port
    then handle_auth_port (u32_at (drop 4 buf)) s
    else if msg_type == netctrl_auth_id
    then handle_auth_id (u32_at (drop 4 buf)) s
    else done (pos 0, s)

unfoldable pub netctrl_proc_msg : Option (List ℕ) → Netctrl → Outcome (ℤ × Netctrl)
unfolding switch_type
netctrl_proc_msg none s = done (negsuc 0, s)
netctrl_proc_msg (some buf) s = switch_type buf (u16_at buf) s

-- The first `n` bytes of a memory, from `i` on.
unfoldable pub bytes_of : (ℕ → ℕ) → (i n : ℕ) → List ℕ
bytes_of at i zero = []
bytes_of at i (suc n) = at i ∷ bytes_of at (suc i) n

-- NLMSG_SPACE(0) and NLMSG_ALIGNTO of the kernel's headers.
pub record NlmsgSizes : Type 0 where
  pub nlmsg_space_zero : ℕ
  pub nlmsg_alignto : ℕ

-- `nlmsg_len - NLMSG_SPACE(0) + NLMSG_ALIGNTO`, which is unsigned arithmetic.
unfoldable pub datalen : NlmsgSizes → ℕ → ℕ
datalen sizes nlmsg_len =
    (nlmsg_len + 2 ^ 32 - sizes.nlmsg_space_zero + sizes.nlmsg_alignto) % 2 ^ 32

-- What `netctrl_receive_msg` returns is 0 after `netctrl_proc_msg`, whatever that returned; the
-- copy of the message is not freed.
pub returned : Outcome (ℤ × Netctrl) → Outcome (ℤ × Netctrl)
returned oops = oops
returned (done (err, s)) = done (pos 0, s)

pub process :
    NlmsgSizes → (kzalloc_ok : Bool) → Nlmsghdr → (ℕ → ℕ) → Netctrl → Outcome (ℤ × Netctrl)
unfolding returned netctrl_proc_msg
process sizes kzalloc_ok nlh at s =
    let n = datalen sizes nlh.nlmsg_len in
    let s' = record s { bytes_live = s.bytes_live + n } in
    if kzalloc_ok
    then returned (netctrl_proc_msg (some (bytes_of at 0 n)) s')
    else done (neg_enomem, s)

unfoldable pub netctrl_receive_msg :
    NlmsgSizes → (kzalloc_ok : Bool) → Nlmsghdr → (ℕ → ℕ) → Netctrl → Outcome (ℤ × Netctrl)
unfolding netctrl_netlink_ok process
netctrl_receive_msg sizes kzalloc_ok nlh at s =
    let err = netctrl_netlink_ok nlh.nlmsg_type in
    if is_nonzero err then done (err, s) else process sizes kzalloc_ok nlh at s

-- The loop goes on over the module's state, and stops at a fault.
module _ {Ptr : Type 0} (api : NlmsgApi Ptr) (sizes : NlmsgSizes) (kzalloc_ok : Bool) where
  abbrev pub shared : Outcome (ℤ × Netctrl) → ℤ × Outcome Netctrl
  shared oops = (pos 0, oops)
  shared (done (err, s)) = (err, done s)

  abbrev pub receive_at : Ptr → Outcome Netctrl → ℤ × Outcome Netctrl
  receive_at p oops = (pos 0, oops)
  receive_at p (done s) =
      shared (netctrl_receive_msg sizes kzalloc_ok (api.header p) (api.nlmsg_data p) s)

  abbrev pub ack_at : Ptr → ℤ → Outcome Netctrl → Outcome Netctrl
  ack_at p err oops = oops
  ack_at p err (done s) = done (record s { acks = s.acks ++ (api.header p, err) ∷ [] })

  -- The fuel is one more than the length of the buffer. The function returns 0.
  unfoldable pub netctrl_receive_skb : (nlh : Ptr) → (len : ℕ) → Netctrl → Option (Outcome Netctrl)
  netctrl_receive_skb nlh len s =
      receive_loop api receive_at ack_at (suc len) nlh (pos len) (done s)
