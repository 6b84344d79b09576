-- ===== src/Capture/Overlap/LoadedTests.antt =====
-- The first of two processors captures a packet with netlink/netlink.c as it is loaded.
use modules.Common.{length, map, ◌++◌, ◌+◌, ◌≤◌, ◌<◌, ◌≡◌, refl, true, none, some, [], ◌∷◌, done}
use modules.Nlmsg.Samples.{ample_skbs}
use modules.Capture.Samples.{some_packet}
use modules.Capture.Buffers.{Pool, zeroed, max_skb_bufsize, obtain, attach, put, cap_buffer_free}
use modules.Capture.State.{not_loaded, app_init, nlmsg_done}
use modules.Capture.Hooks.{gfp_kernel}
use modules.Capture.Buffers.Account.{in_use}
use modules.Capture.Overlap.Counts.{holds, carries, in_hand, total}
use modules.Capture.Overlap.Progress.{left, Does, app_init-left}
use modules.Capture.Overlap.Lifetime.{on_processors, app_init-Overlap}
use modules.Capture.Overlap.{
  outside, filled, HookAt, Step, Smp, lengthened, obtains, fills, passes, queues, frees, port,
  Overlap, start, step,
}
use modules.Capture.Overlap.Samples.{s₀, message, full, second_passes}

abbrev made : Pool
made = record { cap_freelist_count = 0; cap_freelist = []; bufs_live = 1; skbs_live = 0 }

abbrev given_back : Pool
given_back = record {
  cap_freelist_count = 1;
  cap_freelist = record full { skb = none } ∷ [];
  bufs_live = 1;
  skbs_live = 1;
}

abbrev captured_one : Smp
captured_one = record s₀ {
  pool = given_back;
  cap_skb_queue = lengthened message ∷ [];
  enqueued = lengthened message ∷ [];
}

loaded_obtains : obtain true [] not_loaded.pool ≡ (some zeroed, made)
unfolding obtain
loaded_obtains = refl

loaded_fills :
    attach ample_skbs 7 nlmsg_done
      (ample_skbs.nlmsg_new max_skb_bufsize)
      (record zeroed { cb_data = 0; gfp_mask = gfp_kernel })
      some_packet
      made
    ≡ done (some full, record made { skbs_live = 1 })
unfolding attach put
loaded_fills = refl

loaded_frees :
    cap_buffer_free (some (record full { skb = none })) (record made { skbs_live = 1 })
    ≡ done given_back
unfolding cap_buffer_free
loaded_frees = refl

-- The call with its message in the buffer, and its end.
abbrev one_filled : Smp
one_filled = record s₀ { pool = record made { skbs_live = 1 }; cpus = filled full ∷ outside ∷ [] }

one_filled-Overlap : Overlap (on_processors 2 (app_init true true not_loaded).1) one_filled
unfolding app_init
one_filled-Overlap =
    step
      (step (step start (port 7)) (
        obtains [] (outside ∷ []) true some_packet zeroed made refl (λ e. absurd (cc))
          loaded_obtains))
      (fills [] (outside ∷ []) ample_skbs some_packet zeroed full (record made { skbs_live = 1 })
        refl loaded_fills)

captured_one-Overlap : Overlap (on_processors 2 (app_init true true not_loaded).1) captured_one
captured_one-Overlap =
    step
      (step
        (step one_filled-Overlap (passes [] (outside ∷ []) 100 5 full s₀.rate refl second_passes))
        (queues [] (outside ∷ []) full message refl refl))
      (frees [] (outside ∷ []) (record full { skb = none }) given_back refl loaded_frees)

app_init-left_example :
    (3 ≤ 4)
    × ((t : Smp) × (at' : HookAt) × Step one_filled t
        × Does ample_skbs 100 5 one_filled t (filled full) at'
        × (t.cpus ≡ at' ∷ outside ∷ [])
        × (left at' < 3))
app_init-left_example =
    app_init-left 2 true one_filled [] (filled full) (outside ∷ []) ample_skbs 100 5
      one_filled-Overlap refl (λ e. absurd (cc))

app_init-Overlap_example :
    (captured_one.lost ≡ 0)
    × (in_use captured_one.pool ≡ total holds captured_one.cpus)
    × (in_use captured_one.pool ≤ 2)
    × (captured_one.pool.skbs_live
        ≡ total carries captured_one.cpus
          + length captured_one.cap_skb_queue
          + length (in_hand captured_one.kcapd)
          + captured_one.refused)
    × (captured_one.enqueued
        ≡ map (λ m. m.0) captured_one.sent
          ++ (in_hand captured_one.kcapd ++ captured_one.cap_skb_queue))
app_init-Overlap_example = app_init-Overlap 2 true captured_one captured_one-Overlap
