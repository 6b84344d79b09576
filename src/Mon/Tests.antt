-- ===== src/Mon/Tests.antt =====
-- The ioctls and the device of mon/mon.c.
use modules.Common.{
  ℕ, ◌+◌, ◌≤◌, ◌≡◌, refl, ◌⊎◌, true, false, none, some, negsuc, List, [], ◌∷◌, ◌++◌, pos, length,
  replicate, codes, done, oops, arith,
}
use modules.Mon.{Mon, Reply, ioctl_mon_get_lover, ioctl_char128_mon}
use modules.Mon.Device.{
  MonDevice, create_dev_mon, delete_dev_mon, no_device, arphrd_ieee80211_prism, create_delete,
}
use modules.Mon.Ioctl.{ioctl_char128_mon_lem}

abbrev fresh : Mon
fresh = record { g_maxsta = 1; g_lover = replicate 32 0 }

abbrev long_bytes : List ℕ
long_bytes = replicate 40 b'x'

ioctl_char128_mon_lem_example :
    let o = ioctl_char128_mon true 0 2 ioctl_mon_get_lover long_bytes 40 fresh in
    (o ≡ oops)
    ⊎ ((reply : Reply) × (m' : Mon) × (o ≡ done (reply, m'))
        × (reply.length ≤ 128)
        × (length reply.written ≤ reply.length)
        × (length m'.g_lover ≡ 32))
ioctl_char128_mon_lem_example =
    ioctl_char128_mon_lem true 0 2 ioctl_mon_get_lover long_bytes 40 fresh (omega arith) refl

-- The kernel has memory, takes the device and refuses the interrupt.
abbrev blank : MonDevice
blank = record {
  name = replicate 16 0;
  dev_addr = replicate 6 0;
  broadcast = replicate 6 0;
  private_dev = false;
  destructor = false;
  mon_ops = false;
  wireless_handlers = false;
  mtu = 1500;
  hard_header_len = 0;
  addr_len = 0;
  tx_queue_len = 0;
  flags = 0;
  type = 1;
}

create_delete_example :
    let (ret, d) = create_dev_mon (λ dev. dev) false (some blank) (pos 0) (negsuc 15) no_device in
    let gone = delete_dev_mon d in
    (ret ≡ pos 0)
    × (((d ≡ no_device) × (gone ≡ no_device) × ((false ≡ true) ⊎ (some blank ≡ none)))
        ⊎ ((dev : MonDevice) × (d.dev_mon ≡ some dev)
            × (dev.name ≡ codes "mon" ++ replicate 13 0)
            × (dev.dev_addr ≡ 0 ∷ 1 ∷ 2 ∷ 3 ∷ 4 ∷ 5 ∷ [])
            × (dev.type ≡ arphrd_ieee80211_prism)
            × (gone ≡ record no_device { allocated = 0; stray = 0 + 1 })))
create_delete_example =
    create_delete (λ dev. dev) false (some blank) (pos 0) (negsuc 15) (λ dev. (refl, refl))
