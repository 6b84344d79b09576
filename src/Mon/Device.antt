-- ===== src/Mon/Device.antt =====
-- The device of mon/mon.c: how it is made, and how it goes.
use modules.Common.{
  ℕ, suc, ◌+◌, ◌-◌, ◌≡◌, refl, ap₂, ◌*◌, ◌⊎◌, inl, inr, Bool, true, false, not, Option, none, some,
  List, [], ◌∷◌, ◌++◌, ℤ, pos, is_nonzero, codes, replicate, if◌then◌else◌, arith, Bool-cases,
  Option-cases,
}

-- struct net_device, as far as the module sets it. `private_dev` says that `pri->dev` is the device
-- itself, `destructor` that it is free_netdev, `mon_ops` that the operations are the module's, and
-- `wireless_handlers` that they are iw_handler_def_mon.
pub record MonDevice : Type 0 where
  pub name : List ℕ
  pub dev_addr : List ℕ
  pub broadcast : List ℕ
  pub private_dev : Bool
  pub destructor : Bool
  pub mon_ops : Bool
  pub wireless_handlers : Bool
  pub mtu : ℕ
  pub hard_header_len : ℕ
  pub addr_len : ℕ
  pub tx_queue_len : ℕ
  pub flags : ℕ
  pub type : ℕ

-- IFF_BROADCAST | IFF_MULTICAST, and ARPHRD_IEEE80211_PRISM.
abbrev pub broadcast_multicast : ℕ
broadcast_multicast = 0x2 + 0x1000

abbrev pub arphrd_ieee80211_prism : ℕ
arphrd_ieee80211_prism = 802

-- `dev_mon`; how many devices have memory; whether the device is registered, and whether the
-- interrupt is held. `stray` counts the calls of unregister_netdev and free_irq for what is not held.
pub record DevMon : Type 0 where
  pub dev_mon : Option MonDevice
  pub allocated : ℕ
  pub registered : Bool
  pub irq_held : Bool
  pub stray : ℕ

-- The stores to a device that was just allocated, before `ether_setup` of the kernel and after it.
abbrev pub addressed : MonDevice → MonDevice
addressed dev = record dev {
  private_dev = true;
  name = codes "mon" ++ replicate 13 0;
  dev_addr = 0 ∷ 1 ∷ 2 ∷ 3 ∷ 4 ∷ 5 ∷ [];
}

abbrev pub as_monitor : MonDevice → MonDevice
as_monitor dev = record dev {
  destructor = true;
  mon_ops = true;
  mtu = 16 * 1024 + 20 + 20 + 12;
  hard_header_len = 14;
  addr_len = 6;
  tx_queue_len = 0;
  flags = broadcast_multicast;
  type = arphrd_ieee80211_prism;
  wireless_handlers = true;
  broadcast = replicate 6 0xff;
}

-- `found` says whether there is a device of this name, and `alloc_etherdev` gives the memory for one;
-- `register_rc` and `irq_rc` are the answers of `register_netdev`, which is not looked at, and of
-- `request_irq`, which is only printed.
abbrev pub with_memory :
    (MonDevice → MonDevice) → Option MonDevice → (register_rc irq_rc : ℤ) → DevMon → DevMon
with_memory ether_setup none register_rc irq_rc d = d
with_memory ether_setup (some dev) register_rc irq_rc d = record d {
  dev_mon = some (as_monitor (ether_setup (addressed dev)));
  allocated = suc d.allocated;
  registered = not (is_nonzero register_rc);
  irq_held = not (is_nonzero irq_rc);
}

unfoldable pub create_dev_mon :
    (MonDevice → MonDevice)
    → (found : Bool) → (alloc_etherdev : Option MonDevice) → (register_rc irq_rc : ℤ) → DevMon
    → ℤ × DevMon
create_dev_mon ether_setup found alloc_etherdev register_rc irq_rc d =
    (pos 0, if found then d else with_memory ether_setup alloc_etherdev register_rc irq_rc d)

abbrev pub stray_unless : Bool → ℕ
stray_unless held = if held then 0 else 1

-- `unregister_netdev` runs the destructor of a device that is registered, which frees its memory.
unfoldable pub delete_dev_mon : DevMon → DevMon
delete_dev_mon d = elim d.dev_mon [
  | none ↦ d
  | some dev ↦ record {
    dev_mon = none;
    allocated = if d.registered then d.allocated - 1 else d.allocated;
    registered = false;
    irq_held = false;
    stray = d.stray + stray_unless d.registered + stray_unless d.irq_held;
  }
]

abbrev pub no_device : DevMon
no_device = record {
  dev_mon = none;
  allocated = 0;
  registered = false;
  irq_held = false;
  stray = 0;
}

-- What is left of a device whose registration and interrupt had these answers.
left_lem :
    (failed busy : Bool)
    → (if not failed then 1 - 1 else 1) ≡ (if failed then 1 else 0)
      × (0 + stray_unless (not failed) + stray_unless (not busy)
          ≡ (if failed then 1 else 0) + (if busy then 1 else 0))
left_lem failed busy = ground (arith, Bool-cases failed, Bool-cases busy)

-- From no device and back, where `ether_setup` leaves the name and the address of a device:
-- `create_dev_mon` returns 0 whatever fails. A device that is found, or no memory for one, changes
-- nothing. Otherwise the device is named mon and has the address 0 to 5 and the type of a monitor, and
-- `delete_dev_mon` leaves nothing but, if it was not registered, its memory; one thing that was not
-- held is given back for each of the two calls that failed.
pub create_delete :
    (ether_setup : MonDevice → MonDevice) (found : Bool) (alloc_etherdev : Option MonDevice)
    (register_rc irq_rc : ℤ)
    → ((dev : MonDevice)
        → ((ether_setup dev).name ≡ dev.name) × ((ether_setup dev).dev_addr ≡ dev.dev_addr))
    → let (ret, d) = create_dev_mon ether_setup found alloc_etherdev register_rc irq_rc no_device in
      let gone = delete_dev_mon d in
      (ret ≡ pos 0)
      × (((d ≡ no_device) × (gone ≡ no_device) × ((found ≡ true) ⊎ (alloc_etherdev ≡ none)))
          ⊎ ((dev : MonDevice) × (d.dev_mon ≡ some dev)
              × (dev.name ≡ codes "mon" ++ replicate 13 0)
              × (dev.dev_addr ≡ 0 ∷ 1 ∷ 2 ∷ 3 ∷ 4 ∷ 5 ∷ [])
              × (dev.type ≡ arphrd_ieee80211_prism)
              × (gone ≡ record no_device {
                allocated = if is_nonzero register_rc then 1 else 0;
                stray =
                    (if is_nonzero register_rc then 1 else 0)
                    + (if is_nonzero irq_rc then 1 else 0);
              })))
unfolding create_dev_mon delete_dev_mon
create_delete ether_setup found alloc_etherdev register_rc irq_rc keeps = elim (Bool-cases found) [
  | inl there ↦ (refl, inl (rw there refl, rw there refl, inl there))
  | inr new ↦ elim (Option-cases alloc_etherdev) [
    | inl missing ↦ (refl, inl (rw (new, missing) refl, rw (new, missing) refl, inr missing))
    | inr (dev, given) ↦
        let kept = keeps (addressed dev) in
        let left = left_lem (is_nonzero register_rc) (is_nonzero irq_rc) in
        (
          refl,
          inr (
            as_monitor (ether_setup (addressed dev)),
            rw (new, given) refl,
            kept.0,
            kept.1,
            refl,
            rw (new, given)
                (ap₂ (λ n m. record no_device { allocated = n; stray = m }) left.0 left.1),
          ),
        )
  ]
]
