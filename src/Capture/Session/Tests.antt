-- ===== src/Capture/Session/Tests.antt =====
-- A short run of netlink/netlink.c: a packet is seen and delivered, and a user leaves.
use modules.Common.{ℕ, refl, true, none, [], ◌∷◌, pos, replicate, IsSubsequence}
use modules.Nlmsg.{SkBuff, receive_loop}
use modules.Nlmsg.Samples.{header_of, bare_nlmsgs, bare_nlmsgs-Progress, ample_skbs}
use modules.Capture.Users.{empty_entry, user_leave}
use modules.Capture.Buffers.{zeroed, cap_buffer_alloc, cap_buffer_free}
use modules.Capture.Rate.{cap_rate_check}
use modules.Capture.State.{CapState}
use modules.Capture.Hooks.{gfp_kernel, hook_func_queue}
use modules.Capture.Daemon.{round, kcapd_send_reply}
use modules.Capture.Receive.{cap_receive_skb, cap_receive_msg}
use modules.Capture.Session.{Run, start, packet, deliver, receive}
use modules.Capture.Session.Order.{payloads, Run-order}
use modules.Capture.Samples.{two_users, two_users-pool, some_packet, entry_of}

-- The message of the packet, as it is queued.
abbrev queued_skb : SkBuff
queued_skb = record {
  len = 18;
  nlh = record { nlmsg_len = 18; nlmsg_type = 3; nlmsg_flags = 0; nlmsg_seq = 0; nlmsg_pid = 7 };
  payload = 69 ∷ 0 ∷ [];
}

-- The state at the end of the run.
abbrev end_state : CapState
end_state = record two_users {
  cap_nlk_portid = 0;
  users = record {
    usrcnt = 1;
    usrtab = empty_entry ∷ empty_entry ∷ entry_of 9 ∷ replicate 29 empty_entry;
  };
  pool = record (two_users.pool) {
    cap_freelist = record { skb = none; cb_data = 0; gfp_mask = gfp_kernel } ∷ zeroed ∷ [];
  };
  rate = record (two_users.rate) { packets = 1 };
  backlog_wakeups = 1;
  sent = (queued_skb, 7) ∷ [];
}

a_run : Run ℕ two_users ((69 ∷ 0 ∷ []) ∷ []) end_state
unfolding hook_func_queue round cap_receive_skb kcapd_send_reply cap_receive_msg receive_loop
    cap_buffer_alloc cap_buffer_free cap_rate_check user_leave
a_run =
    receive (bare_nlmsgs (λ p. header_of 1 7)) (λ p. none) 0 16
      (bare_nlmsgs-Progress (λ p. header_of 1 7))
      (deliver (λ skb pid. pos 18) (packet ample_skbs true 100 1000 1 some_packet start refl) refl)
      refl

Run-order_example : IsSubsequence ((69 ∷ 0 ∷ []) ∷ []) (payloads end_state)
Run-order_example = Run-order two_users two_users-pool a_run
