-- ===== src/Nic/Tests.antt =====
-- The network examples with a kernel that always has memory.
use modules.Common.{
  Outcome, ◌>>=◌, ℕ, ◌+◌, ◌-◌, ◌*◌, ◌%◌, ◌^◌, ◌≤◌, ◌≡◌, refl, ◌⊎◌, true, false, none, some, List,
  [], ◌∷◌, ◌++◌, ℤ, pos, negsuc, neg_enomem, codes, length, replicate, leb, is_neg, if◌then◌else◌,
  done, oops, arith,
}
use modules.Nic.Skb.{Skb, NetDevice, SkbApi, Documented, listed, be16}
use modules.Nic.Packet.{Checksums, Sender}
use modules.Nic.Garp.{Announcer, garp_init}
use modules.Nic.Tcp.Frame.{IsTcpPacket, skbinit-IsTcpPacket}
use modules.Nic.Udp.Frame.{IsUdpPacket, skbinit-IsUdpPacket}
use modules.Nic.Garp.Announce.{IsEthernet}
use modules.Nic.Garp.Send.{Announces, garp_init-Announces}
use modules.Nic.Device.{EtherDevice, KernelAnswers, nic_init, nic_fini, nic_hooks}
use modules.Nic.Device.Life.{not_loaded, nic_life}
use modules.Nic.Tcp
use modules.Nic.Udp

abbrev zeros : ℕ → ℕ
zeros i = 0

-- New memory holds zeros.
abbrev roomy : SkbApi
roomy = record {
  alloc_skb = λ size. some (record { headroom = 0; bytes = []; tailroom = size });
  skb_reserve = λ skb n. record skb { headroom = skb.headroom + n; tailroom = skb.tailroom - n };
  skb_put = λ skb n.
      if leb n skb.tailroom
      then some (record skb { bytes = skb.bytes ++ listed n zeros; tailroom = skb.tailroom - n })
      else none;
  skb_push = λ skb n.
      if leb n skb.headroom
      then some (record skb { bytes = listed n zeros ++ skb.bytes; headroom = skb.headroom - n })
      else none;
  eth_header = λ type daddr saddr skb. (
    pos 14,
    record skb {
      bytes = (daddr ++ (saddr ++ be16 type)) ++ skb.bytes;
      headroom = skb.headroom - 14;
    },
  );
}

roomy-allocates :
    (size : ℕ) (skb : Skb)
    → roomy.alloc_skb size ≡ some skb
    → (skb.bytes ≡ []) × (size ≤ skb.tailroom)
roomy-allocates size skb h = ground (arith, h)

roomy-Documented : Documented roomy
roomy-Documented = record {
  allocates = roomy-allocates;
  reserves = λ skb n room. (refl, refl, refl);
  puts = λ skb n room. (zeros, ground (arith, room));
  pushes = λ skb n room. (zeros, ground (arith, room));
  heads = λ type daddr saddr skb room d s. refl;
}

abbrev eth0 : NetDevice
eth0 = record {
  reserved_space = 16;
  needed_tailroom = 0;
  addr_len = 6;
  hw_type = 1;
  dev_addr = 1 ∷ 2 ∷ 3 ∷ 4 ∷ 5 ∷ 6 ∷ [];
  broadcast = replicate 6 255;
}

eth0-IsEthernet : IsEthernet eth0
eth0-IsEthernet = record {
  addr_len = refl;
  dev_addr = refl;
  broadcast = refl;
  hw_type = omega arith;
  reserved_space = omega arith;
}

abbrev sums : Checksums
sums = record {
  skb_checksum = λ bytes. length bytes;
  ip_fast_csum = λ bytes. length bytes;
  csum_tcpudp_magic = λ saddr daddr len proto csum. len + proto + csum;
}

abbrev quiet : Sender
quiet = record { seq = 7; ack_seq = 0; dev_refs = 0; sent = [] }

abbrev accepts : List ℕ → ℤ
accepts frame = pos 0

-- eth0 has room for the Ethernet header.
eth0-reserved : (dev : NetDevice) → some eth0 ≡ some dev → 14 ≤ dev.reserved_space
eth0-reserved dev e = ground (arith, e)

skbinit-IsTcpPacket_example :
    let run : Outcome (ℤ × Sender) =
      Tcp.skbinit roomy sums accepts (some eth0) quiet >>= λ r. done (r.0, Tcp.skbexit r.1) in
    ((some eth0 ≡ none) × (run ≡ done (pos 0, quiet)))
    ⊎ ((dev : NetDevice) × (some eth0 ≡ some dev)
        × (let alloc = roomy.alloc_skb (38 + dev.reserved_space + 20 + 20 + dev.needed_tailroom) in
            (alloc ≡ none × (run ≡ done (pos 0, record quiet { dev_refs = 0 + 1 })))
            ⊎ ((frame : List ℕ) × IsTcpPacket sums 7 0 frame
                × (run ≡ (
                    if is_neg (accepts frame)
                    then oops
                    else done (
                      pos 0,
                      record quiet { seq = (7 + 1) % 2 ^ 64; sent = [] ++ frame ∷ [] },
                    ))))))
skbinit-IsTcpPacket_example =
    skbinit-IsTcpPacket roomy sums accepts (some eth0) quiet roomy-Documented eth0-reserved

skbinit-IsUdpPacket_example :
    let run : Outcome (ℤ × Sender) =
      Udp.skbinit roomy sums accepts (some eth0) quiet >>= λ r. done (r.0, Udp.skbexit r.1) in
    ((some eth0 ≡ none) × (run ≡ done (pos 0, quiet)))
    ⊎ ((dev : NetDevice) × (some eth0 ≡ some dev)
        × (let alloc = roomy.alloc_skb (38 + dev.reserved_space + 20 + 8 + dev.needed_tailroom) in
            (alloc ≡ none × (run ≡ done (pos 0, record quiet { dev_refs = 0 + 1 })))
            ⊎ ((frame : List ℕ) × IsUdpPacket sums frame
                × (run ≡ (
                    if is_neg (accepts frame)
                    then oops
                    else done (pos 0, record quiet { sent = [] ++ frame ∷ [] }))))))
skbinit-IsUdpPacket_example =
    skbinit-IsUdpPacket roomy sums accepts (some eth0) quiet roomy-Documented eth0-reserved

-- Two addresses.
abbrev ifa_list : List (List ℕ)
ifa_list = (10 ∷ 0 ∷ 0 ∷ 1 ∷ []) ∷ (10 ∷ 0 ∷ 0 ∷ 2 ∷ []) ∷ []

abbrev silent : Announcer
silent = record { calls = 0; dev_refs = 0; sent = [] }

garp_init-Announces_example :
    (frames : List (List ℕ)) × (garp_init
        (λ call. roomy)
        (λ call frame. pos 0)
        28
        (some (eth0, some ifa_list))
        silent
      ≡ done (pos 0, record silent { calls = 3 * 2 + 0; sent = [] ++ frames }))
    × Announces (λ call. roomy) eth0 0 (ifa_list ++ (ifa_list ++ ifa_list)) frames
garp_init-Announces_example =
    garp_init-Announces (λ call. roomy) (λ call frame. pos 0) eth0 ifa_list
      (λ call. roomy-Documented) (λ call frame. refl) eth0-IsEthernet (refl, (refl, tt)) silent

-- A kernel that refuses the interrupt.
abbrev blank : EtherDevice
blank = record {
  name = replicate 16 0;
  dev_addr = replicate 6 0;
  private_dev = false;
  netdev_ops = false;
}

abbrev kernel : KernelAnswers
kernel = record {
  found = false;
  alloc_etherdev = some blank;
  register_netdev = pos 0;
  request_irq = negsuc 15;
  nf_register_hooks = pos 0;
}

nic_life_example :
    let (ret, m) = nic_init (λ dev. dev) kernel not_loaded in
    let gone = nic_fini m in
    ((false ≡ true) × (ret ≡ pos 0) × (m ≡ not_loaded) × (gone ≡ not_loaded))
    ⊎ ((false ≡ false)
        × (some blank ≡ none)
        × (ret ≡ neg_enomem)
        × (m ≡ not_loaded)
        × (gone ≡ not_loaded))
    ⊎ ((dev : EtherDevice) × (m.nic_netdev ≡ some dev)
        × (ret ≡ pos 0)
        × (dev.name ≡ codes "nic" ++ replicate 13 0)
        × (dev.dev_addr ≡ 0 ∷ 1 ∷ 2 ∷ 3 ∷ 4 ∷ 5 ∷ [])
        × (m.hooks ≡ nic_hooks)
        × (gone ≡ record not_loaded { allocated = 1; stray = 0 + 1 + 0 }))
nic_life_example = nic_life (λ dev. dev) kernel (λ dev. (refl, refl))
