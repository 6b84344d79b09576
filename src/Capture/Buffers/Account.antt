-- ===== src/Capture/Buffers/Account.antt =====
-- The free list and the allocation counts of the capture buffers of netlink/netlink.c.
use modules.Common.{ℕ, ◌+◌, ◌-◌, ◌≤◌, ◌<◌, ◌≡◌, refl, some, arith, length, done}
use modules.Capture.Buffers.{CapBuffer, Pool, cap_maxfree, cap_buffer_free}

-- The counter is the length of the free list, which is at most 1024, and its buffers are among
-- those allocated.
pub record IsValid (p : Pool) : Type 0 where
  pub counted : p.cap_freelist_count ≡ length p.cap_freelist
  pub capped : p.cap_freelist_count ≤ cap_maxfree
  pub owned : p.cap_freelist_count ≤ p.bufs_live

-- The buffers that are allocated and not on the free list.
abbrev pub in_use : Pool → ℕ
in_use p = p.bufs_live - p.cap_freelist_count

-- Freeing a buffer in use puts it on the free list or releases it: one buffer fewer is in use, and
-- no skb is released, also if the buffer still has one.
pub cap_buffer_free-IsValid :
    (cb : CapBuffer) (p : Pool)
    → IsValid p
    → 0 < in_use p
    → (p' : Pool) × (cap_buffer_free (some cb) p ≡ done p')
      × IsValid p'
      × (in_use p' + 1 ≡ in_use p)
      × (p'.skbs_live ≡ p.skbs_live)
unfolding cap_buffer_free
cap_buffer_free-IsValid cb p v used = (_, refl, ground arith, ground arith, ground arith)
