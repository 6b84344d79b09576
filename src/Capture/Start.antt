-- ===== src/Capture/Start.antt =====
-- The start and the stop of the module netlink/netlink.c.
use modules.Common.{
  ℕ, ◌≡◌, refl, ◌⊎◌, inl, inr, Bool, true, false, none, some, [], length, pos, neg_enomem, done,
  if◌then◌else◌,
}
use modules.Nlmsg.{Packet, SkbApi}
use modules.Capture.Users.{max_tab_size}
use modules.Capture.Users.Count
use modules.Capture.Users.Count.{usertab_init-IsValid}
use modules.Capture.State.{CapState, NfHookOps, Hook, app_init, app_exit, nf_accept}
use modules.Capture.Hooks.{hook_func_queue}

-- Without a socket `app_init` returns -ENOMEM and changes nothing else. With one it returns 0, on
-- a table of 32 entries and a counter of 0: the table is valid, the queue empty, and the hook
-- function registered if the kernel took it; it accepts every packet and does nothing until a user
-- registers.
-- `app_exit` then takes the hook away.
app_init_lem :
    (created registers : Bool) (s : CapState) (api : SkbApi) (kmalloc_ok : Bool) (hz now : ℕ)
    (pkt : Packet)
    → length s.users.usrtab ≡ max_tab_size
    → s.users.usrcnt ≡ 0
    → let (ret, s') = app_init created registers s in
      ((created ≡ false) × (ret ≡ neg_enomem) × (s' ≡ record s { cap_sock = false }))
      ⊎ ((created ≡ true)
          × (ret ≡ pos 0)
          × Count.IsValid s'.users
          × (s'.cap_skb_queue ≡ [])
          × ((ops : NfHookOps) × (s'.nfhk ≡ (if registers then some ops else s.nfhk))
              × (ops.hook ≡ Hook.hook_func_queue))
          × (hook_func_queue api kmalloc_ok hz now pkt s' ≡ done (nf_accept, s'))
          × ((app_exit s').nfhk ≡ none))
unfolding app_init app_exit hook_func_queue
app_init_lem false registers s api kmalloc_ok hz now pkt size none_yet = inl (refl, refl, refl)
app_init_lem true registers s api kmalloc_ok hz now pkt size none_yet =
    inr (refl, refl, usertab_init-IsValid s.users size none_yet, refl, (_, refl, refl), refl, refl)
