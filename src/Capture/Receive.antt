-- ===== src/Capture/Receive.antt =====
-- The receiving side of netlink/netlink.c: cap_netlink_ok, cap_receive_msg, cap_receive_skb and
-- cap_receive, which runs it under a mutex.
pub mod Single
pub mod Messages
mod Tests
use modules.Common.{
  ℕ, suc, ◌+◌, Bool, true, false, Option, none, some, List, [], ◌∷◌, ◌++◌, ℤ, pos, pos_part,
  neg_einval, is_nonzero, ◌==◌, if◌then◌else◌,
}
use modules.Nlmsg.{Nlmsghdr, NlmsgApi, receive_loop}
use modules.Capture.Users.{Users, user_join, user_leave}
use modules.Capture.State.{CapState}

-- The message types; CAP_PACKET stands between the second and the third.
abbrev pub cap_add : ℕ
cap_add = 0

abbrev pub cap_del : ℕ
cap_del = 1

abbrev pub cap_packet : ℕ
cap_packet = 2

abbrev pub cap_get_packet : ℕ
cap_get_packet = 3

unfoldable pub cap_netlink_ok : ℕ → ℤ
cap_netlink_ok msg_type =
    if msg_type == cap_add
    then pos 0
    else if msg_type == cap_del
    then pos 0
    else if msg_type == cap_get_packet
    then pos 0
    else neg_einval

-- The thread is started if there is none: `kthread_run` gives `none` for a task, or its error.
pub start_kcapd : Option ℤ → CapState → Option ℤ × CapState
start_kcapd none s = (none, record s { kcapd_task = true })
start_kcapd (some err) s = (some err, s)

pub ensure_kcapd : Option ℤ → CapState → Option ℤ × CapState
unfolding start_kcapd
ensure_kcapd kthread_run s = if s.kcapd_task then (none, s) else start_kcapd kthread_run s

-- The `switch` on the type. Its `default` sets a variable that is not returned.
pub handle : (msg_type pid : ℕ) → CapState → CapState
handle msg_type pid s =
    if msg_type == cap_add
    then record s { cap_nlk_portid = pid; users = (user_join pid s.users).0 }
    else if msg_type == cap_del
    then record s { cap_nlk_portid = 0; users = (user_leave pid s.users).0 }
    else s

-- What follows the start of the thread.
pub dispatch : Nlmsghdr → Option ℤ × CapState → ℤ × CapState
unfolding handle
dispatch nlh (some err, s) = (err, s)
dispatch nlh (none, s) = (pos 0, handle nlh.nlmsg_type nlh.nlmsg_pid s)

unfoldable pub cap_receive_msg : (kthread_run : Option ℤ) → Nlmsghdr → CapState → ℤ × CapState
unfolding cap_netlink_ok ensure_kcapd dispatch
cap_receive_msg kthread_run nlh s =
    let err = cap_netlink_ok nlh.nlmsg_type in
    if is_nonzero err then (err, s) else dispatch nlh (ensure_kcapd kthread_run s)

-- `netlink_ack(skb, nlh, err)`
abbrev pub netlink_ack : Nlmsghdr → ℤ → CapState → CapState
netlink_ack nlh err s = record s { acks = s.acks ++ (nlh, err) ∷ [] }

-- `kthread_run` has the answer to the message that asks for the thread.
module _ {Ptr : Type 0} (api : NlmsgApi Ptr) (kthread_run : Ptr → Option ℤ) where
  abbrev pub receive_at : Ptr → CapState → ℤ × CapState
  receive_at p s = cap_receive_msg (kthread_run p) (api.header p) s

  abbrev pub ack_at : Ptr → ℤ → CapState → CapState
  ack_at p err s = netlink_ack (api.header p) err s

  -- The fuel is one more than the length of the buffer. The function returns 0.
  unfoldable pub cap_receive_skb : (nlh : Ptr) → (len : ℕ) → CapState → Option CapState
  cap_receive_skb nlh len s = receive_loop api receive_at ack_at (suc len) nlh (pos len) s
