-- ===== src/Capture/Buffers/Tests.antt =====
-- The capture buffers of netlink/netlink.c on small pools.
use modules.Common.{◌≡◌, refl, ◌⊎◌, false, none, [], ◌∷◌, done, oops, arith}
use modules.Nlmsg.{Packet}
use modules.Nlmsg.Samples.{ample_skbs, no_skbs}
use modules.Capture.Buffers.{Pool, zeroed, cap_buffer_alloc}
use modules.Capture.Buffers.Account.{IsValid}
use modules.Capture.Buffers.Alloc.{Gives, cap_buffer_alloc_lem}

-- One buffer on the free list, and one in use.
abbrev small_pool : Pool
small_pool = record {
  cap_freelist_count = 1;
  cap_freelist = zeroed ∷ [];
  bufs_live = 2;
  skbs_live = 0;
}

abbrev empty_pool : Pool
empty_pool = record { cap_freelist_count = 0; cap_freelist = []; bufs_live = 0; skbs_live = 0 }

small_pool-IsValid : IsValid small_pool
small_pool-IsValid = record { counted = refl; capped = omega arith; owned = omega arith }

abbrev some_packet : Packet
some_packet = record { len = 2; bytes = 69 ∷ 0 ∷ 99 ∷ [] }

out_of_memory : cap_buffer_alloc ample_skbs false 5 some_packet 0 0 3 empty_pool ≡ oops
unfolding cap_buffer_alloc
out_of_memory = refl

given_back : cap_buffer_alloc no_skbs false 5 some_packet 0 0 3 small_pool ≡ done (none, small_pool)
unfolding cap_buffer_alloc
given_back = refl

cap_buffer_alloc_lem_example :
    ((small_pool.cap_freelist ≡ [])
      × (false ≡ false)
      × (cap_buffer_alloc ample_skbs false 5 some_packet 0 0 3 small_pool ≡ oops))
    ⊎ Gives ample_skbs 5 3 some_packet 0 0 small_pool
        (cap_buffer_alloc ample_skbs false 5 some_packet 0 0 3 small_pool)
cap_buffer_alloc_lem_example =
    cap_buffer_alloc_lem ample_skbs 5 3 some_packet 0 0 false small_pool small_pool-IsValid
