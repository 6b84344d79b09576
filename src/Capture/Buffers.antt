-- ===== src/Capture/Buffers.antt =====
-- The capture buffers of netlink/netlink.c and their free list.
-- `bufs_live` and `skbs_live` count what the module has allocated and not released or handed over.
-- `cap_freelist_count` goes down only where the list has an element, so it is a plain number.
-- The spin lock makes each update of the list one step.
pub mod Account
pub mod Alloc
mod Tests
use modules.Common.{
  ℕ, suc, ◌+◌, ◌-◌, Bool, true, false, Option, none, some, List, [], ◌∷◌, leb, if◌then◌else◌, take,
  length, Outcome, done, oops, ◌>>=◌,
}
use modules.Nlmsg.{SkBuff, Packet, SkbApi}

-- struct cap_buffer; `cb_data` is its `data` pointer.
pub record CapBuffer : Type 0 where
  pub skb : Option SkBuff
  pub cb_data : ℕ
  pub gfp_mask : ℕ

pub record Pool : Type 0 where
  pub cap_freelist_count : ℕ
  pub cap_freelist : List CapBuffer
  pub bufs_live : ℕ
  pub skbs_live : ℕ

abbrev pub cap_maxfree : ℕ
cap_maxfree = 1024

abbrev pub max_skb_bufsize : ℕ
max_skb_bufsize = 2000

-- The test in front of `kfree_skb(cb->skb)` is `!cb`: with no buffer it reads through NULL, and
-- with a buffer it releases no skb.
unfoldable pub cap_buffer_free : Option CapBuffer → Pool → Outcome Pool
cap_buffer_free none p = oops
cap_buffer_free (some cb) p = done (
    if leb cap_maxfree p.cap_freelist_count
    then record p { bufs_live = p.bufs_live - 1 }
    else record p {
      cap_freelist_count = p.cap_freelist_count + 1;
      cap_freelist = cb ∷ p.cap_freelist;
    })

abbrev pub zeroed : CapBuffer
zeroed = record { skb = none; cb_data = 0; gfp_mask = 0 }

-- The first part of `cap_buffer_alloc`: a buffer from the free list, or from `kmalloc`, which
-- gives one when `kmalloc_ok`.
unfoldable pub obtain : Bool → List CapBuffer → Pool → Option CapBuffer × Pool
obtain kmalloc_ok (cb ∷ rest) p =
    (some cb, record p { cap_freelist = rest; cap_freelist_count = p.cap_freelist_count - 1 })
obtain true [] p = (some zeroed, record p { bufs_live = p.bufs_live + 1 })
obtain false [] p = (none, p)

-- `err:`, where the buffer is given back and NULL is returned.
unfoldable pub give_up : Option CapBuffer → Pool → Outcome (Option CapBuffer × Pool)
unfolding cap_buffer_free
give_up cb p = do p' ← cap_buffer_free cb p; done (none, p')

-- `memcpy(pdata, skb->data, skb->len)` into the message of the buffer.
abbrev pub filled : CapBuffer → SkBuff → Packet → CapBuffer
filled cb msg pkt = record cb { skb = some (record msg { payload = take pkt.len pkt.bytes }) }

-- What follows `nlmsg_put`: the payload is copied, or the skb is freed.
unfoldable pub put : Option SkBuff → CapBuffer → Packet → Pool → Outcome (Option CapBuffer × Pool)
unfolding give_up
put none cb pkt p =
    give_up (some (record cb { skb = none })) (record p { skbs_live = p.skbs_live - 1 })
put (some msg) cb pkt p = done (some (filled cb msg pkt), p)

-- What follows `nlmsg_new`.
unfoldable pub attach :
    SkbApi
    → (portid type : ℕ) → Option SkBuff
    → CapBuffer
    → Packet
    → Pool
    → Outcome (Option CapBuffer × Pool)
unfolding give_up put
attach api portid type none cb pkt p = give_up (some (record cb { skb = none })) p
attach api portid type (some skb) cb pkt p =
    put (api.nlmsg_put skb portid 0 type pkt.len 0) cb pkt
      (record p { skbs_live = p.skbs_live + 1 })

-- What follows the choice of a buffer.
unfoldable pub prepare :
    SkbApi
    → (portid type cb_data gfp_mask : ℕ) → Option CapBuffer
    → Packet
    → Pool
    → Outcome (Option CapBuffer × Pool)
unfolding give_up attach
prepare api portid type cb_data gfp_mask none pkt p = give_up none p
prepare api portid type cb_data gfp_mask (some cb) pkt p =
    attach api portid type (api.nlmsg_new max_skb_bufsize)
      (record cb { cb_data = cb_data; gfp_mask = gfp_mask }) pkt p

-- `portid` is the module's `cap_nlk_portid`.
unfoldable pub cap_buffer_alloc :
    SkbApi
    → (kmalloc_ok : Bool) → (portid : ℕ) → Packet
    → (cb_data gfp_mask type : ℕ) → Pool
    → Outcome (Option CapBuffer × Pool)
unfolding obtain prepare
cap_buffer_alloc api kmalloc_ok portid pkt cb_data gfp_mask type p =
    let (cb, p') = obtain kmalloc_ok p.cap_freelist p in
    prepare api portid type cb_data gfp_mask cb pkt p'
