-- ===== src/Capture/State.antt =====
-- The static variables of netlink/netlink.c, and app_init, app_exit and the functions they call.
-- `sent` records the calls of netlink_unicast, `acks` those of netlink_ack, and
-- `backlog_wakeups` counts the calls of `wake_up(&cap_backlog_wait)`, for which nothing waits.
use modules.Common.{
  ℕ, ◌+◌, ◌-◌, Bool, true, false, Option, none, some, List, [], ℤ, pos, negsuc, neg_enomem,
  if◌then◌else◌, replicate,
}
use modules.Nlmsg.{Nlmsghdr, SkBuff}
use modules.Capture.Users.{Users, empty_entry, usertab_init}
use modules.Capture.Buffers.{Pool}
use modules.Capture.Rate.{Rate}

-- NF_ACCEPT, NLMSG_DONE, NLM_F_MULTI, PF_INET and NF_IP_PRI_FIRST of the kernel's headers. The
-- priority is INT_MIN, as a 32-bit pattern.
abbrev pub nf_accept : ℕ
nf_accept = 1

abbrev pub nlmsg_done : ℕ
nlmsg_done = 3

abbrev pub nlm_f_multi : ℕ
nlm_f_multi = 2

abbrev pf_inet : ℕ
pf_inet = 2

abbrev nf_ip_pri_first : ℕ
nf_ip_pri_first = 0x8000_0000

abbrev nf_ip_local_out : ℕ
nf_ip_local_out = 3

-- The two hook functions of the module.
pub data Hook : Type 0 where
  hook_func_queue hook_func : Hook

-- struct nf_hook_ops
pub record NfHookOps : Type 0 where
  pub hook : Hook
  pub hooknum : ℕ
  pub pf : ℕ
  pub priority : ℕ

-- `nfhk` is `some` while the hook is registered; `cap_sock`, `kcapd_task` and `capcache` say
-- whether the pointer is other than NULL.
pub record CapState : Type 0 where
  pub cap_sock : Bool
  pub cap_nlk_portid : ℕ
  pub nfhk : Option NfHookOps
  pub users : Users
  pub pool : Pool
  pub cap_skb_queue : List SkBuff
  pub kcapd_task : Bool
  pub rate : Rate
  pub cap_backlog_limit : ℕ
  pub capcache : Bool
  pub caches_live : ℕ
  pub backlog_wakeups : ℕ
  pub sent : List (SkBuff × ℕ)
  pub acks : List (Nlmsghdr × ℤ)

-- The static variables before the module is loaded.
abbrev pub not_loaded : CapState
not_loaded = record {
  cap_sock = false;
  cap_nlk_portid = 0;
  nfhk = none;
  users = record { usrcnt = 0; usrtab = replicate 32 empty_entry };
  pool = record { cap_freelist_count = 0; cap_freelist = []; bufs_live = 0; skbs_live = 0 };
  cap_skb_queue = [];
  kcapd_task = false;
  rate = record { cap_rate_limit = 0; last_check = 0; packets = 0 };
  cap_backlog_limit = 64;
  capcache = false;
  caches_live = 0;
  backlog_wakeups = 0;
  sent = [];
  acks = [];
}

-- `nf_register_hook` registers the hook when `registers`; its result is not looked at. The function
-- returns 0.
unfoldable pub cap_hook_init : (registers : Bool) → CapState → CapState
cap_hook_init registers s =
    let ops : NfHookOps = record {
      hook = hook_func_queue;
      hooknum = nf_ip_local_out;
      pf = pf_inet;
      priority = nf_ip_pri_first;
    } in
    record s { nfhk = if registers then some ops else s.nfhk }

-- `netlink_kernel_create` gives a socket when `created`.
unfoldable pub app_init : (created registers : Bool) → CapState → ℤ × CapState
unfolding cap_hook_init
app_init created registers s =
    if created
    then (
      pos 0,
      record (cap_hook_init registers
          (record s { cap_sock = true; users = usertab_init s.users })) {
            cap_skb_queue = [];
            cap_nlk_portid = 0;
          },
    )
    else (neg_enomem, record s { cap_sock = false })

unfoldable pub app_exit : CapState → CapState
app_exit s = record s { cap_sock = false; nfhk = none }

unfoldable pub cap_kmem_cache_init : (created : Bool) → CapState → ℤ × CapState
cap_kmem_cache_init created s =
    if created
    then (pos 0, record s { capcache = true; caches_live = s.caches_live + 1 })
    else (negsuc 0, record s { capcache = false })

unfoldable pub cap_kmem_cache_fini : CapState → ℤ × CapState
cap_kmem_cache_fini s =
    if s.capcache then (pos 0, record s { caches_live = s.caches_live - 1 }) else (pos 0, s)
