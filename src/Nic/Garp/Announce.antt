-- ===== src/Nic/Garp/Announce.antt =====
-- The packets that nic/garp.c makes.
use modules.Common.{
  ℕ, zero, suc, ◌+◌, ◌-◌, ◌*◌, ◌/◌, ◌%◌, ◌≤◌, ◌≡◌, refl, ap, ◌∙◌, ◌⊎◌, inl, inr, none, some, List,
  [], ◌∷◌, ◌++◌, pos, length, replicate, done, arith, Option-cases, get_or, length-append,
  take-append, drop-append,
}
use modules.Nic.Skb.{Skb, NetDevice, SkbApi, Documented, listed, be16}
use modules.Nic.Parse.{EtherFrame, Arp, parse_ether, parse_arp, number_at}
use modules.Nic.Garp.{eth_p_arp, arpop_request, fill_arphdr, fill_garp, create_with, garp_create}

-- A gratuitous request: it asks all for the address that its sender says it has.
pub record IsAnnouncement (dev : NetDevice) (ifa frame : List ℕ) : Type 0 where
  pub ether : EtherFrame
  pub arp : Arp
  pub ether_found : parse_ether frame ≡ some ether
  pub arp_found : parse_arp ether.body ≡ some arp
  pub to_all : ether.destination ≡ dev.broadcast
  pub macs : (ether.source ≡ dev.dev_addr) × (arp.sender_hw ≡ dev.dev_addr)
  pub types : (ether.ether_type ≡ eth_p_arp) × (arp.operation ≡ arpop_request)
  pub hardware : number_at 0 ether.body ≡ dev.hw_type
  pub addresses : (arp.sender_ip ≡ ifa) × (arp.target_ip ≡ ifa)
  pub unknown : arp.target_hw ≡ replicate 6 0

-- An Ethernet device, and an address of IPv4.
pub record IsEthernet (dev : NetDevice) : Type 0 where
  pub addr_len : dev.addr_len ≡ 6
  pub dev_addr : length dev.dev_addr ≡ 6
  pub broadcast : length dev.broadcast ≡ 6
  pub hw_type : dev.hw_type ≤ 65535
  pub reserved_space : 14 ≤ dev.reserved_space

-- A list of a known length, written out.
listed-get_or : (n : ℕ) (xs : List ℕ) → length xs ≡ n → xs ≡ listed n (λ i. get_or xs i 0)
listed-get_or zero [] h = refl
listed-get_or zero (x ∷ xs) h = absurd (ground (arith, h))
listed-get_or (suc n) [] h = absurd (ground (arith, h))
listed-get_or (suc n) (x ∷ xs) h = ap (λ rest. x ∷ rest) (listed-get_or n xs (omega (arith, h)))

-- The device with its numbers written out.
abbrev device : (reserved tail type : ℕ) → (mac all : ℕ → ℕ) → NetDevice
device reserved tail type mac all = record {
  reserved_space = reserved;
  needed_tailroom = tail;
  addr_len = 6;
  hw_type = type;
  dev_addr = listed 6 mac;
  broadcast = listed 6 all;
}

-- The bytes of the packet.
abbrev announcement : NetDevice → (ifa : List ℕ) → List ℕ → List ℕ
announcement dev ifa arp =
    (dev.broadcast ++ (dev.dev_addr ++ be16 eth_p_arp))
    ++ fill_arphdr dev ifa ifa dev.dev_addr none arp

high_lem : (n : ℕ) → n ≤ 65535 → n / 256 % 256 * 256 + n % 256 ≡ n
high_lem n h = omega (arith, h)

device-IsAnnouncement :
    (reserved tail type : ℕ) (mac all ip a : ℕ → ℕ)
    → type ≤ 65535
    → IsAnnouncement
        (device reserved tail type mac all)
        (listed 4 ip)
        (announcement (device reserved tail type mac all) (listed 4 ip) (listed 28 a))
device-IsAnnouncement reserved tail type mac all ip a small =
    let dev = device reserved tail type mac all in
    record {
      ether = record {
        destination = listed 6 all;
        source = listed 6 mac;
        ether_type = eth_p_arp;
        body = fill_arphdr dev (listed 4 ip) (listed 4 ip) (listed 6 mac) none (listed 28 a);
      };
      arp = record {
        operation = arpop_request;
        sender_hw = listed 6 mac;
        sender_ip = listed 4 ip;
        target_hw = replicate 6 0;
        target_ip = listed 4 ip;
      };
      ether_found = refl;
      arp_found = refl;
      to_all = refl;
      macs = (refl, refl);
      types = (refl, refl);
      hardware = high_lem type small;
      addresses = (refl, refl);
      unknown = refl;
    }

-- The same for a device and an address that are so by equations.
written-IsAnnouncement :
    (reserved tail n type : ℕ) (macs alls ifa : List ℕ) (mac all ip a : ℕ → ℕ)
    → type ≤ 65535
    → n ≡ 6
    → macs ≡ listed 6 mac
    → alls ≡ listed 6 all
    → ifa ≡ listed 4 ip
    → let dev : NetDevice = record {
      reserved_space = reserved;
      needed_tailroom = tail;
      addr_len = n;
      hw_type = type;
      dev_addr = macs;
      broadcast = alls;
    } in
      IsAnnouncement dev ifa (announcement dev ifa (listed 28 a))
written-IsAnnouncement reserved tail n type macs alls ifa mac all ip a small len m b i =
    rw (len, m, b, i) (device-IsAnnouncement reserved tail type mac all ip a small)

announcement-IsAnnouncement :
    (dev : NetDevice) (ifa : List ℕ) (a : ℕ → ℕ)
    → IsEthernet dev
    → length ifa ≡ 4
    → IsAnnouncement dev ifa (announcement dev ifa (listed 28 a))
announcement-IsAnnouncement dev ifa a e four =
    written-IsAnnouncement dev.reserved_space dev.needed_tailroom dev.addr_len dev.hw_type
      dev.dev_addr dev.broadcast ifa (λ i. get_or dev.dev_addr i 0) (λ i. get_or dev.broadcast i 0)
      (λ i. get_or ifa i 0) a e.hw_type e.addr_len (listed-get_or 6 dev.dev_addr e.dev_addr)
      (listed-get_or 6 dev.broadcast e.broadcast) (listed-get_or 4 ifa four)

-- What `fill_garp` makes of a buffer of 28 bytes, given what the kernel's functions give.
fill_garp-runs :
    (api : SkbApi) (dev : NetDevice) (ifa : List ℕ) (h t : ℕ) (a : ℕ → ℕ)
    → let s : (List ℕ → ℕ → ℕ → Skb) =
        λ bytes front back. record { headroom = front; bytes = bytes; tailroom = back } in
      let eh = dev.broadcast ++ (dev.dev_addr ++ be16 eth_p_arp) in
      length eh ≡ 14
      → api.skb_put (s [] h t) 28 ≡ some (s (listed 28 a) h (t - 28))
      → api.eth_header eth_p_arp dev.broadcast dev.dev_addr (s (listed 28 a) h (t - 28))
        ≡ (pos 14, s (eh ++ listed 28 a) (h - 14) (t - 28))
      → length (eh ++ listed 28 a) ≡ 42
      → fill_garp api 28 ifa dev ifa none (some dev.dev_addr) none (s [] h t)
        ≡ done (
            some
              (s (eh ++ fill_arphdr dev ifa ifa dev.dev_addr none (listed 28 a)) (h - 14) (t - 28)))
unfolding fill_garp
fill_garp-runs api dev ifa h t a fourteen put head long =
    let eh = dev.broadcast ++ (dev.dev_addr ++ be16 eth_p_arp) in
    rw
      (
        put,
        head,
        long,
        take-append 14 eh (listed 28 a) fourteen,
        drop-append 14 eh (listed 28 a) fourteen,
      )
      refl

head-length :
    (dev : NetDevice)
    → IsEthernet dev
    → length (dev.broadcast ++ (dev.dev_addr ++ be16 eth_p_arp)) ≡ 14
head-length dev e =
    rw (listed-get_or 6 dev.broadcast e.broadcast, listed-get_or 6 dev.dev_addr e.dev_addr) refl

fill_garp-empty :
    (api : SkbApi) (dev : NetDevice) (ifa : List ℕ) (h t : ℕ)
    → Documented api
    → IsEthernet dev
    → length ifa ≡ 4
    → 14 ≤ h
    → 28 ≤ t
    → (skb : Skb) × (fill_garp api 28 ifa dev ifa none
          (some dev.dev_addr)
          none
          (record { headroom = h; bytes = []; tailroom = t })
        ≡ done (some skb))
      × IsAnnouncement dev ifa skb.bytes
fill_garp-empty api dev ifa h t d e four front back =
    let (a, put) = d.puts (record { headroom = h; bytes = []; tailroom = t }) 28 back in
    let fourteen = head-length dev e in
    (
      _,
      fill_garp-runs api dev ifa h t a fourteen put
          (d.heads eth_p_arp dev.broadcast dev.dev_addr
            (record { headroom = h; bytes = listed 28 a; tailroom = t - 28 }) front e.broadcast
            e.dev_addr)
          (length-append (dev.broadcast ++ (dev.dev_addr ++ be16 eth_p_arp)) (listed 28 a)
            ∙ ap (λ n. n + 28) fourteen),
      announcement-IsAnnouncement dev ifa a e four,
    )

-- The call of `garp_create` that the loop makes gives NULL only without memory.
pub garp_create_lem :
    (api : SkbApi) (dev : NetDevice) (ifa : List ℕ)
    → Documented api
    → IsEthernet dev
    → length ifa ≡ 4
    → let create = garp_create api 28 ifa dev ifa none (some dev.dev_addr) none in
      let alloc = api.alloc_skb (28 + dev.reserved_space + dev.needed_tailroom) in
      (alloc ≡ none × (create ≡ done none))
      ⊎ ((skb : Skb) × (create ≡ done (some skb)) × IsAnnouncement dev ifa skb.bytes)
unfolding garp_create create_with
garp_create_lem api dev ifa d e four =
    elim (Option-cases (api.alloc_skb (28 + dev.reserved_space + dev.needed_tailroom))) [
      | inl missing ↦ inl (missing, rw missing refl)
      | inr (skb, given) ↦
          let (empty, big) = d.allocates _ skb given in
          let (bytes, front, back) = d.reserves skb dev.reserved_space (omega (arith, big)) in
          let room = api.skb_reserve skb dev.reserved_space in
          let (full, runs, good) =
            fill_garp-empty api dev ifa room.headroom room.tailroom d e four
              (omega (arith, front, e.reserved_space)) (omega (arith, back, big)) in
          inr (
            full,
            rw given (
                ap
                  (λ old.
                    fill_garp api 28 ifa dev ifa none (some dev.dev_addr) none
                      (record room { bytes = old }))
                  (bytes ∙ empty)
                ∙ runs),
            good,
          )
    ]
