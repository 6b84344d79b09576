-- ===== src/Netctrl/Kernel/Start.antt =====
-- The start and the stop of the module netctrl/netctrl.c.
use modules.Common.{
  ◌≡◌, ◌⊎◌, Bool, true, false, List, [], ℤ, pos, neg_enomem, is_nonzero, All, if◌then◌else◌, arith,
}
use modules.Netctrl.Kernel.{
  Netctrl, NfHookOps, nf_accept, hook_verdict, netctrl_hooks, netctrl_init, netctrl_exit,
}

abbrev pub AllAccept : List NfHookOps → Type 0
AllAccept ops = All (λ o. hook_verdict o.0 ≡ nf_accept) ops

-- Started with no hook registered, `netctrl_init` returns -ENOMEM without a socket, and no hook is
-- registered. With one it returns 0, also where the hooks cannot be registered; they are
-- registered exactly when the kernel's answer is 0, and each of them accepts every packet.
-- `netctrl_exit` leaves none.
pub netctrl_init_lem :
    (created : Bool) (err : ℤ) (s : Netctrl)
    → s.registered ≡ []
    → let (ret, s') = netctrl_init created err s in
      AllAccept s'.registered
      × ((netctrl_exit s').registered ≡ [])
      × (((created ≡ false) × (ret ≡ neg_enomem) × (s'.registered ≡ []))
          ⊎ ((created ≡ true)
              × (ret ≡ pos 0)
              × (s'.registered ≡ (if is_nonzero err then [] else netctrl_hooks))))
unfolding netctrl_init netctrl_exit hook_verdict
netctrl_init_lem created err s none_yet = ground (arith, none_yet)
