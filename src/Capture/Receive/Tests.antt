-- ===== src/Capture/Receive/Tests.antt =====
-- The receiving side of netlink/netlink.c on buffers of bare messages.
use modules.Common.{
  ℕ, ℤ, Option, some, neg_enomem, false, ◌≡◌, refl, none, some, [], pos, neg_einval, ◌==◌,
  if◌then◌else◌,
}
use modules.Nlmsg.{Nlmsghdr}
use modules.Nlmsg.Walk.{messages}
use modules.Nlmsg.Samples.{header_of, bare_nlmsgs, bare_nlmsgs-Progress}
use modules.Capture.State.{CapState}
use modules.Capture.Receive.{cap_netlink_ok, cap_receive_skb}
use modules.Capture.Receive.Messages.{
  answers, last_task, last_user, last_users, cap_receive_skb_lem,
}
use modules.Capture.Samples.{two_users}

client_type_refused : cap_netlink_ok 2 ≡ neg_einval
unfolding cap_netlink_ok
client_type_refused = refl

-- The process 9 asks for the thread, which cannot be started, a message of an unknown type follows, and
-- the process 8 asks again, and is answered: it starts the thread.
abbrev three_messages : ℕ → Nlmsghdr
three_messages p =
    if p == 0 then header_of 0 9 else if p == 16 then header_of 2 8 else header_of 0 8

abbrev fails_first : ℕ → Option ℤ
fails_first p = if p == 0 then some neg_enomem else none

abbrev no_thread : CapState
no_thread = record two_users { kcapd_task = false }

cap_receive_skb_lem_example :
    let api = bare_nlmsgs three_messages in
    let ps = messages api 49 0 (pos 48) in
    (s' : CapState) × (cap_receive_skb api fails_first 0 48 no_thread ≡ some s')
    × (s'.acks ≡ answers api fails_first ps false)
    × (s'.kcapd_task ≡ last_task api fails_first ps false)
    × (s'.cap_nlk_portid ≡ last_user api fails_first ps false 7)
    × (s'.users ≡ last_users api fails_first ps false two_users.users)
    × (s'.cap_skb_queue ≡ [])
    × (s'.pool ≡ two_users.pool)
    × (s'.rate ≡ two_users.rate)
    × (s'.sent ≡ [])
cap_receive_skb_lem_example =
    cap_receive_skb_lem (bare_nlmsgs three_messages) fails_first 0 48 no_thread
      (bare_nlmsgs-Progress three_messages)

the_thread_runs :
    last_user
      (bare_nlmsgs three_messages)
      fails_first
      (messages (bare_nlmsgs three_messages) 49 0 (pos 48))
      false
      7
    ≡ 8
unfolding last_user messages
the_thread_runs = refl
