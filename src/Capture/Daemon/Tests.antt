-- ===== src/Capture/Daemon/Tests.antt =====
-- The thread of netlink/netlink.c on a queue of two messages.
use modules.Common.{ℕ, [], ◌∷◌, ℤ, neg_econnrefused}
use modules.Nlmsg.{SkBuff}
use modules.Capture.Daemon.{round}
use modules.Capture.Daemon.Drain.{Sent, round_lem}
use modules.Capture.Samples.{some_skb, two_waiting}

abbrev refuses : SkBuff → ℕ → ℤ
refuses skb pid = neg_econnrefused

round_lem_example :
    Sent neg_econnrefused some_skb two_waiting
      (some_skb ∷ [])
      (round refuses (some_skb ∷ some_skb ∷ []) two_waiting)
round_lem_example = round_lem refuses some_skb (some_skb ∷ []) two_waiting
