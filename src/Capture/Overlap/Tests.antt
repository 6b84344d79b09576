-- ===== src/Capture/Overlap/Tests.antt =====
-- Two calls of the hook of netlink/netlink.c that overlap: the second one's message is on the queue,
-- and kcapd has taken it and was refused, before the first one has made its own.
use modules.Common.{◌+◌, ◌≤◌, ◌≡◌, refl, true, none, some, [], ◌∷◌, done, pos, neg_econnrefused}
use modules.Nlmsg.Samples.{ample_skbs}
use modules.Capture.Samples.{some_packet, two_users, two_users-pool}
use modules.Capture.Buffers.{
  Pool, zeroed, cap_maxfree, max_skb_bufsize, obtain, attach, put, prepare, cap_buffer_alloc,
  cap_buffer_free,
}
use modules.Capture.Rate.{cap_rate_check}
use modules.Capture.State.{CapState, nlmsg_done, nf_accept}
use modules.Capture.Hooks.{gfp_kernel, enqueue, capture, hook_func_queue}
use modules.Capture.Daemon.{kcapd_send_reply, round}
use modules.Capture.Overlap.{
  outside, obtained, queued, Smp, lengthened, obtains, fills, passes, queues, takes, refuses,
  forgets, Overlap, start, step,
}
use modules.Capture.Overlap.Accounts.{IsAccounted, Overlap-IsAccounted}
use modules.Capture.Overlap.Samples.{s₀, message, full, second_passes}

abbrev one_left : Pool
one_left = record (s₀.pool) { cap_freelist = zeroed ∷ []; cap_freelist_count = 1 }

abbrev none_left : Pool
none_left = record (s₀.pool) { cap_freelist = []; cap_freelist_count = 0 }

abbrev with_skb : Pool
with_skb = record none_left { skbs_live = 1 }

first_obtains : obtain true s₀.pool.cap_freelist s₀.pool ≡ (some zeroed, one_left)
unfolding obtain
first_obtains = refl

second_obtains : obtain true one_left.cap_freelist one_left ≡ (some zeroed, none_left)
unfolding obtain
second_obtains = refl

second_fills :
    attach ample_skbs 7 nlmsg_done
      (ample_skbs.nlmsg_new max_skb_bufsize)
      (record zeroed { cb_data = 0; gfp_mask = gfp_kernel })
      some_packet
      none_left
    ≡ done (some full, with_skb)
unfolding attach put
second_fills = refl

abbrev s₈ : Smp
s₈ = record s₀ {
  cap_nlk_portid = 0;
  sent = (lengthened message, 7) ∷ [];
  refused = 1;
  pool = with_skb;
  cpus = obtained zeroed some_packet ∷ queued (record full { skb = none }) ∷ [];
  enqueued = lengthened message ∷ [];
  taken = lengthened message ∷ [];
}

s₈-Overlap : Overlap s₀ s₈
s₈-Overlap =
    step
      (step
        (step
          (step
            (step
              (step
                (step
                  (step start (
                    obtains [] (outside ∷ []) true some_packet zeroed one_left refl
                      (λ e. absurd (cc)) first_obtains))
                  (obtains (obtained zeroed some_packet ∷ []) [] true some_packet zeroed none_left
                    refl (λ e. absurd (cc)) second_obtains))
                (fills (obtained zeroed some_packet ∷ []) [] ample_skbs some_packet zeroed full
                  with_skb refl second_fills))
              (passes (obtained zeroed some_packet ∷ []) [] 100 5 full s₀.rate refl second_passes))
            (queues (obtained zeroed some_packet ∷ []) [] full message refl refl))
          (takes (lengthened message) [] refl refl))
        (refuses (λ skb pid. neg_econnrefused) (lengthened message) refl refl refl))
      (forgets refl)

s₀-IsAccounted : IsAccounted 2 s₀
s₀-IsAccounted = record {
  valid = two_users-pool;
  used = refl;
  messages = refl;
  ordered = refl;
  given = refl;
  processors = refl;
}

Overlap-IsAccounted_example : IsAccounted 2 s₈ × (s₈.pool.bufs_live ≤ cap_maxfree + 2 + s₈.lost)
Overlap-IsAccounted_example = Overlap-IsAccounted 2 s₀ s₈ s₀-IsAccounted s₈-Overlap

-- A call that puts its message on the queue.
abbrev one_captured : CapState
one_captured = record two_users {
  pool = record (two_users.pool) {
    cap_freelist = record full { skb = none } ∷ zeroed ∷ [];
    skbs_live = 1;
  };
  rate = record (two_users.rate) { packets = 1 };
  cap_skb_queue = lengthened message ∷ [];
}

call_returns :
    hook_func_queue ample_skbs true 100 1050 some_packet two_users ≡ done (nf_accept, one_captured)
unfolding hook_func_queue cap_buffer_alloc obtain prepare attach put capture enqueue cap_buffer_free
    cap_rate_check
call_returns = refl

-- The message is then sent.
abbrev one_sent : CapState
one_sent = record one_captured {
  pool = record (one_captured.pool) { skbs_live = 0 };
  cap_skb_queue = [];
  backlog_wakeups = 1;
  sent = (lengthened message, 7) ∷ [];
}

round_returns : round (λ skb pid. pos 0) one_captured.cap_skb_queue one_captured ≡ done one_sent
unfolding round kcapd_send_reply
round_returns = refl
