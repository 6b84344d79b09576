-- ===== src/Nic/Device.antt =====
-- nic/nic.c: a device for Ethernet with no functions, an interrupt and three netfilter hooks.
pub mod Life
use modules.Common.{
  ℕ, suc, ◌+◌, Bool, true, false, not, Option, none, some, List, [], ◌∷◌, ◌++◌, ℤ, pos, negsuc,
  neg_enomem, codes, take, length, replicate, is_nonzero, if◌then◌else◌,
}

-- NF_ACCEPT, PF_INET, and the hook numbers of IPv4.
abbrev pub nf_accept : ℕ
nf_accept = 1

abbrev pub pf_inet : ℕ
pf_inet = 2

abbrev pub nf_inet_pre_routing : ℕ
nf_inet_pre_routing = 0

abbrev pub nf_inet_local_out : ℕ
nf_inet_local_out = 3

abbrev pub nf_inet_post_routing : ℕ
nf_inet_post_routing = 4

-- The functions of the module that netfilter calls, and struct nf_hook_ops.
pub data HookFn : Type 0 where
  nic_hook_local_out : HookFn
  nic_hook_pre_routing : HookFn
  nic_hook_post_routing : HookFn

pub record NfHookOps : Type 0 where
  pub hook : HookFn
  pub pf : ℕ
  pub hooknum : ℕ

abbrev pub nic_hooks : List NfHookOps
nic_hooks =
    record { hook = nic_hook_local_out; pf = pf_inet; hooknum = nf_inet_local_out }
    ∷ record { hook = nic_hook_pre_routing; pf = pf_inet; hooknum = nf_inet_pre_routing }
    ∷ record { hook = nic_hook_post_routing; pf = pf_inet; hooknum = nf_inet_post_routing }
    ∷ []

-- The verdict on a packet, with the length and the bytes that are printed of it. `bytes` is the memory
-- from `skb->data` on, of which `len` bytes are the packet's: `local_out` prints twelve in any case.
abbrev pub run_hook : HookFn → (len : ℕ) → (bytes : List ℕ) → ℕ × Option (ℕ × List ℕ)
run_hook nic_hook_local_out len bytes = (nf_accept, some (len, take 12 bytes))
run_hook nic_hook_pre_routing len bytes = (nf_accept, none)
run_hook nic_hook_post_routing len bytes = (nf_accept, none)

-- struct net_device and its private part, as far as the module sets them. `private_dev` says that
-- `pri->dev` points to the device itself, `netdev_ops` that the operations are the module's.
pub record EtherDevice : Type 0 where
  pub name : List ℕ
  pub dev_addr : List ℕ
  pub private_dev : Bool
  pub netdev_ops : Bool

-- What the kernel answers: whether "nic" is there, whether `alloc_etherdev` has memory, and the
-- results of `register_netdev`, `request_irq` and `nf_register_hooks`.
pub record KernelAnswers : Type 0 where
  pub found : Bool
  pub alloc_etherdev : Option EtherDevice
  pub register_netdev : ℤ
  pub request_irq : ℤ
  pub nf_register_hooks : ℤ

-- `nic_netdev`; what the module holds: devices that have memory, a registration, the interrupt and
-- hooks; and how many things were given back that it did not hold.
pub record NicModule : Type 0 where
  pub nic_netdev : Option EtherDevice
  pub allocated : ℕ
  pub registered : Bool
  pub irq_held : Bool
  pub hooks : List NfHookOps
  pub stray : ℕ

-- The result, and what is registered afterwards.
abbrev pub nic_hooks_init : (err : ℤ) → NicModule → ℤ × NicModule
nic_hooks_init err m = (err, record m { hooks = if is_nonzero err then m.hooks else nic_hooks })

-- The stores to a device that was just allocated, before `ether_setup` of the kernel and after it.
abbrev pub with_name : EtherDevice → EtherDevice
with_name dev = record dev {
  name = codes "nic" ++ replicate 13 0;
  dev_addr = 0 ∷ 1 ∷ 2 ∷ 3 ∷ 4 ∷ 5 ∷ [];
  private_dev = true;
}

abbrev pub set_up : (EtherDevice → EtherDevice) → EtherDevice → EtherDevice
set_up ether_setup dev = record (ether_setup (with_name dev)) { netdev_ops = true }

-- From the allocation on.
abbrev pub with_device :
    (EtherDevice → EtherDevice) → KernelAnswers → Option EtherDevice → NicModule → ℤ × NicModule
with_device ether_setup kernel none m = (neg_enomem, m)
with_device ether_setup kernel (some dev) m =
    let held : NicModule = record m {
      nic_netdev = some (set_up ether_setup dev);
      allocated = suc m.allocated;
      registered = not (is_nonzero kernel.register_netdev);
      irq_held = not (is_nonzero kernel.request_irq);
    } in
    (pos 0, (nic_hooks_init kernel.nf_register_hooks held).1)

unfoldable pub nic_init : (EtherDevice → EtherDevice) → KernelAnswers → NicModule → ℤ × NicModule
nic_init ether_setup kernel m =
    if kernel.found then (pos 0, m) else with_device ether_setup kernel kernel.alloc_etherdev m

-- One more where something is given back that is not held.
abbrev pub give_back : Bool → ℕ
give_back held = if held then 0 else 1

abbrev pub any_hook : List NfHookOps → Bool
any_hook [] = false
any_hook (h ∷ hs) = true

unfoldable pub nic_fini : NicModule → NicModule
nic_fini m = elim m.nic_netdev [
  | none ↦ m
  | some dev ↦ record m {
    nic_netdev = none;
    registered = false;
    irq_held = false;
    hooks = [];
    stray = m.stray + give_back m.registered + give_back m.irq_held + give_back (any_hook m.hooks);
  }
]
