-- ===== src/Capture/Daemon.antt =====
-- The thread kcapd of netlink/netlink.c: kcapd_send_reply and the rounds of kcapd_thread.
pub mod Drain
mod Tests
use modules.Common.{
  ℕ, ◌+◌, ◌-◌, Bool, true, false, List, [], ◌∷◌, ◌++◌, ℤ, is_neg, eq_ℤ, neg_econnrefused, length,
  leb, if◌then◌else◌, Outcome, done, oops, ◌>>=◌,
}
use modules.Nlmsg.{SkBuff}
use modules.Capture.Buffers.{Pool}
use modules.Capture.State.{CapState}

-- The skbs that the module holds a reference to.
abbrev pub with_skbs : ℕ → CapState → CapState
with_skbs live s = record s { pool = record (s.pool) { skbs_live = live } }

-- `netlink_unicast` gives up a reference in any case. `BUG_ON` stops the kernel on an error other
-- than a refused connection; the reference taken for that case is not given back.
unfoldable pub kcapd_send_reply : (SkBuff → ℕ → ℤ) → SkBuff → CapState → Outcome CapState
kcapd_send_reply netlink_unicast skb s =
    let got = with_skbs (s.pool.skbs_live + 1) s in
    let err = netlink_unicast skb got.cap_nlk_portid in
    let told = record (with_skbs (got.pool.skbs_live - 1) got) {
      sent = got.sent ++ (skb, got.cap_nlk_portid) ∷ [];
    } in
    if is_neg err
    then if eq_ℤ err neg_econnrefused then done (record told { cap_nlk_portid = 0 }) else oops
    else done (with_skbs (told.pool.skbs_live - 1) told)

-- `wake_up(&cap_backlog_wait)` when few enough messages are left.
abbrev pub wake_backlog : CapState → CapState
wake_backlog s = record s {
  backlog_wakeups =
      if leb (length s.cap_skb_queue) s.cap_backlog_limit
      then s.backlog_wakeups + 1
      else s.backlog_wakeups;
}

-- One round of the loop, given what the queue holds: on an empty queue the thread waits.
unfoldable pub round : (SkBuff → ℕ → ℤ) → List SkBuff → CapState → Outcome CapState
unfolding kcapd_send_reply
round netlink_unicast [] s = done s
round netlink_unicast (skb ∷ rest) s =
    kcapd_send_reply netlink_unicast skb (wake_backlog (record s { cap_skb_queue = rest }))

-- The loop: a round for each element of the list, with the answers of that round, until
-- `kthread_should_stop()` at its end.
unfoldable pub kcapd_thread : List (SkBuff → ℕ → ℤ) → CapState → Outcome CapState
unfolding round
kcapd_thread [] s = done s
kcapd_thread (netlink_unicast ∷ rounds) s =
    round netlink_unicast s.cap_skb_queue s >>= λ s'. kcapd_thread rounds s'
