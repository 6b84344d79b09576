-- ===== src/Nic/Device/Life.antt =====
-- The life of the device of nic/nic.c.
use modules.Common.{
  ◌+◌, ◌≡◌, refl, ◌⊎◌, inl, inr, Bool, true, false, none, some, [], ◌∷◌, ◌++◌, pos, neg_enomem, not,
  ap, codes, replicate, is_nonzero, if◌then◌else◌, arith, Option-cases, Bool-cases,
}
use modules.Nic.Device.{
  EtherDevice, KernelAnswers, NicModule, nic_hooks, set_up, with_device, nic_init, nic_fini,
  give_back, any_hook, with_name,
}

abbrev pub not_loaded : NicModule
not_loaded = record {
  nic_netdev = none;
  allocated = 0;
  registered = false;
  irq_held = false;
  hooks = [];
  stray = 0;
}

-- What is counted for a thing whose request had this answer.
give_back-not : (failed : Bool) → give_back (not failed) ≡ (if failed then 1 else 0)
give_back-not true = refl
give_back-not false = refl

give_back-any_hook :
    (failed : Bool)
    → give_back (any_hook (if failed then [] else nic_hooks)) ≡ (if failed then 1 else 0)
give_back-any_hook true = refl
give_back-any_hook false = refl

made_lem :
    (ether_setup : EtherDevice → EtherDevice) (kernel : KernelAnswers) (dev : EtherDevice)
    → nic_fini (with_device ether_setup kernel (some dev) not_loaded).1 ≡ record not_loaded {
      allocated = 1;
      stray =
          (if is_nonzero kernel.register_netdev then 1 else 0)
          + (if is_nonzero kernel.request_irq then 1 else 0)
          + (if is_nonzero kernel.nf_register_hooks then 1 else 0);
    }
unfolding nic_fini
made_lem ether_setup kernel dev =
    ap (λ n. record not_loaded { allocated = 1; stray = n })
      (omega (
        arith,
        give_back-not (is_nonzero kernel.register_netdev),
        give_back-not (is_nonzero kernel.request_irq),
        give_back-any_hook (is_nonzero kernel.nf_register_hooks),
      ))

-- Loading and unloading the module from nothing, where `ether_setup` leaves the name and the
-- address of a device. A device "nic" that is found, or no memory for one, changes nothing, and
-- gives 0 or -ENOMEM. Otherwise the result is 0 whatever fails; the device has its name and the
-- address 0 to 5, and the hooks are registered if the kernel took them. Unloading then leaves
-- nothing but the memory of the device, and gives back one thing that was not held for each of the
-- three calls that failed.
pub nic_life :
    (ether_setup : EtherDevice → EtherDevice) (kernel : KernelAnswers)
    → ((dev : EtherDevice)
        → ((ether_setup dev).name ≡ dev.name) × ((ether_setup dev).dev_addr ≡ dev.dev_addr))
    → let (ret, m) = nic_init ether_setup kernel not_loaded in
      let gone = nic_fini m in
      ((kernel.found ≡ true) × (ret ≡ pos 0) × (m ≡ not_loaded) × (gone ≡ not_loaded))
      ⊎ ((kernel.found ≡ false)
          × (kernel.alloc_etherdev ≡ none)
          × (ret ≡ neg_enomem)
          × (m ≡ not_loaded)
          × (gone ≡ not_loaded))
      ⊎ ((dev : EtherDevice) × (m.nic_netdev ≡ some dev)
          × (ret ≡ pos 0)
          × (dev.name ≡ codes "nic" ++ replicate 13 0)
          × (dev.dev_addr ≡ 0 ∷ 1 ∷ 2 ∷ 3 ∷ 4 ∷ 5 ∷ [])
          × (m.hooks ≡ (if is_nonzero kernel.nf_register_hooks then [] else nic_hooks))
          × (gone ≡ record not_loaded {
            allocated = 1;
            stray =
                (if is_nonzero kernel.register_netdev then 1 else 0)
                + (if is_nonzero kernel.request_irq then 1 else 0)
                + (if is_nonzero kernel.nf_register_hooks then 1 else 0);
          }))
unfolding nic_init nic_fini
nic_life ether_setup kernel keeps = elim (Bool-cases kernel.found) [
  | inl found ↦ inl (found, rw found refl, rw found refl, rw found refl)
  | inr new ↦ elim (Option-cases kernel.alloc_etherdev) [
    | inl missing ↦
        inr (
          inl
            (new, missing, rw (new, missing) refl, rw (new, missing) refl, rw (new, missing) refl))
    | inr (dev, given) ↦
        let kept = keeps (with_name dev) in
        inr (
          inr (
            set_up ether_setup dev,
            rw (new, given) refl,
            rw (new, given) refl,
            kept.0,
            kept.1,
            rw (new, given) refl,
            rw (new, given) (made_lem ether_setup kernel dev),
          ))
  ]
]
