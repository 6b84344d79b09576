-- ===== src/Nic/Garp.antt =====
-- nic/garp.c: ARP requests that announce each address of eth0, three times.
pub mod Announce
pub mod Send
use modules.Common.{
  ℕ, suc, ◌+◌, ◌-◌, ◌*◌, ◌/◌, ◌%◌, ◌≡◌, Option, none, some, List, [], ◌∷◌, ◌++◌, ℤ, pos, negsuc,
  set, take, drop, length, replicate, is_neg, if◌then◌else◌, Outcome, done, oops, ◌>>=◌,
}
use modules.Nic.Skb.{Skb, NetDevice, SkbApi, copy_to, be16, or_oops}
use modules.Nic.Packet.{eth_p_ip}

-- The calls of `garp_send` so far, the references to eth0 that are held, and the packets sent.
pub record Announcer : Type 0 where
  pub calls : ℕ
  pub dev_refs : ℕ
  pub sent : List (List ℕ)

abbrev pub eth_p_arp : ℕ
eth_p_arp = 0x0806

abbrev pub arpop_request : ℕ
arpop_request = 1

-- A pointer that may be NULL, with what is taken for it then.
abbrev pub or_else : Option (List ℕ) → List ℕ → List ℕ
or_else none given = given
or_else (some bytes) given = bytes

-- The stores to struct arphdr and behind it.
abbrev pub fill_arphdr :
    NetDevice → (dest_ip src_ip src_hw : List ℕ) → Option (List ℕ) → List ℕ → List ℕ
fill_arphdr dev dest_ip src_ip src_hw target_hw arp =
    let n = dev.addr_len in
    let typed = copy_to 2 (be16 eth_p_ip) (copy_to 0 (be16 dev.hw_type) arp) in
    let requested = copy_to 6 (be16 arpop_request) (set (set typed 4 (n % 256)) 5 4) in
    let sender = copy_to (8 + n) src_ip (copy_to 8 (take n src_hw) requested) in
    let target = copy_to (8 + n + 4) (take n (or_else target_hw (replicate n 0))) sender in
    copy_to (8 + n + 4 + n) dest_ip target

-- The buffer, or NULL for one that is freed after an error.
abbrev pub kept : (ret : ℤ) → Skb → Option Skb
kept ret skb = if is_neg ret then none else some skb

-- `arp_hdr_len dev` is a function of the kernel's, here its value. The Ethernet header is put in front
-- of the bytes that `arp` points to.
pub fill_garp :
    SkbApi
    → (arp_hdr_len : ℕ) → (dest_ip : List ℕ) → NetDevice
    → (src_ip : List ℕ) → (dest_hw src_hw target_hw : Option (List ℕ)) → Skb
    → Outcome (Option Skb)
fill_garp api arp_hdr_len dest_ip dev src_ip dest_hw src_hw target_hw skb = do
  arp ← or_oops (api.skb_put skb arp_hdr_len)
  let src = or_else src_hw dev.dev_addr
  let headed = api.eth_header eth_p_arp (or_else dest_hw dev.broadcast) src arp
  let framed = headed.1
  let head = length framed.bytes - length arp.bytes
  let filled = fill_arphdr dev dest_ip src_ip src target_hw (drop head framed.bytes)
  done (kept headed.0 (record framed { bytes = take head framed.bytes ++ filled }))

-- `none` for the result NULL.
pub create_with :
    SkbApi
    → (arp_hdr_len : ℕ) → (dest_ip : List ℕ) → NetDevice
    → (src_ip : List ℕ) → (dest_hw src_hw target_hw : Option (List ℕ)) → Option Skb
    → Outcome (Option Skb)
create_with api arp_hdr_len dest_ip dev src_ip dest_hw src_hw target_hw none = done none
create_with api arp_hdr_len dest_ip dev src_ip dest_hw src_hw target_hw (some skb) =
    fill_garp api arp_hdr_len dest_ip dev src_ip dest_hw src_hw target_hw
      (api.skb_reserve skb dev.reserved_space)

unfoldable pub garp_create :
    SkbApi
    → (arp_hdr_len : ℕ) → (dest_ip : List ℕ) → NetDevice
    → (src_ip : List ℕ) → (dest_hw src_hw target_hw : Option (List ℕ)) → Outcome (Option Skb)
unfolding create_with
garp_create api arp_hdr_len dest_ip dev src_ip dest_hw src_hw target_hw =
    create_with api arp_hdr_len dest_ip dev src_ip dest_hw src_hw target_hw
      (api.alloc_skb (arp_hdr_len + dev.reserved_space + dev.needed_tailroom))

-- `dev_queue_xmit`, at the call of this number.
abbrev pub garp_xmit : (ℕ → List ℕ → ℤ) → (call : ℕ) → Skb → ℤ
garp_xmit dev_queue_xmit call skb = dev_queue_xmit call skb.bytes

-- `dev_queue_xmit` takes the buffer in any case, so that `kfree_skb` after it frees it twice.
pub xmit_or_free : (ℕ → List ℕ → ℤ) → Option Skb → Announcer → Outcome Announcer
xmit_or_free dev_queue_xmit none w = done (record w { calls = suc w.calls })
xmit_or_free dev_queue_xmit (some skb) w =
    if is_neg (garp_xmit dev_queue_xmit w.calls skb)
    then oops
    else done (record w { calls = suc w.calls; sent = w.sent ++ skb.bytes ∷ [] })

pub garp_send :
    (ℕ → SkbApi)
    → (ℕ → List ℕ → ℤ)
    → (arp_hdr_len : ℕ) → (dest_ip : List ℕ) → NetDevice
    → (src_ip : List ℕ) → (dest_hw src_hw target_hw : Option (List ℕ)) → Announcer
    → Outcome Announcer
unfolding garp_create xmit_or_free
garp_send apis dev_queue_xmit arp_hdr_len dest_ip dev src_ip dest_hw src_hw target_hw w = do
  skb ← garp_create (apis w.calls) arp_hdr_len dest_ip dev src_ip dest_hw src_hw target_hw
  xmit_or_free dev_queue_xmit skb w

module _ (apis : ℕ → SkbApi) (dev_queue_xmit : ℕ → List ℕ → ℤ) (arp_hdr_len : ℕ) where
  -- The loop over `ifa_list`: `ifa_local` of each.
  pub announce_all : NetDevice → List (List ℕ) → Announcer → Outcome Announcer
  unfolding garp_send
  announce_all dev [] w = done w
  announce_all dev (ifa ∷ ifa_list) w = do
    next ← garp_send apis dev_queue_xmit arp_hdr_len ifa dev ifa none (some dev.dev_addr) none w
    announce_all dev ifa_list next

  -- `__in_dev_get_rtnl dev` is NULL for a device with no IPv4, and is not tested.
  pub garp_send_gratuitous_arp :
      NetDevice → (in_dev : Option (List (List ℕ))) → Announcer → Outcome Announcer
  unfolding announce_all
  garp_send_gratuitous_arp dev none w = oops
  garp_send_gratuitous_arp dev (some ifa_list) w = announce_all dev ifa_list w

  -- `dev_get_by_name` is the device eth0, with what it has of IPv4.
  unfoldable pub garp_init :
      Option (NetDevice × Option (List (List ℕ))) → Announcer → Outcome (ℤ × Announcer)
  unfolding garp_send_gratuitous_arp
  garp_init none w = done (negsuc 0, w)
  garp_init (some (dev, in_dev)) w = do
    w₁ ← garp_send_gratuitous_arp dev in_dev (record w { dev_refs = w.dev_refs + 1 })
    w₂ ← garp_send_gratuitous_arp dev in_dev w₁
    w₃ ← garp_send_gratuitous_arp dev in_dev w₂
    done (pos 0, record w₃ { dev_refs = w₃.dev_refs - 1 })
