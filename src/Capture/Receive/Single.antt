-- ===== src/Capture/Receive/Single.antt =====
-- One message in netlink/netlink.c: its answer, and what it does to the thread, the user and the table.
use modules.Common.{
  Option, true, false, ◌⊎◌, inl, inr, Bool-cases, ℕ, ◌≡◌, refl, Bool, is_nonzero, ◌||◌, none, some,
  List, [], ◌∷◌, ◌++◌, append-nil, arith, ℤ, pos, neg_einval, ◌==◌, if◌then◌else◌,
}
use modules.Nlmsg.{Nlmsghdr, NlmsgApi, receive_one}
use modules.Capture.Users.{Users, user_join, user_leave}
use modules.Capture.State.{CapState}
use modules.Capture.Receive.{
  cap_add, cap_del, cap_get_packet, handle, cap_receive_msg, receive_at, ack_at,
}

-- The three message types that the module knows.
abbrev pub is_known : ℕ → Bool
is_known type = type == cap_add || type == cap_del || type == cap_get_packet

-- The result of a message, and whether the thread runs afterwards, by whether it ran before and whether
-- it can be started.
abbrev pub started : (kthread_run : Option ℤ) → (task : Bool) → ℤ × Bool
started kthread_run true = (pos 0, true)
started none false = (pos 0, true)
started (some err) false = (err, false)

abbrev pub result : Nlmsghdr → (kthread_run : Option ℤ) → (task : Bool) → ℤ × Bool
result nlh kthread_run task =
    if is_known nlh.nlmsg_type then started kthread_run task else (neg_einval, task)

-- The answer that a message gets: its error, or 0 if it wants an answer.
abbrev pub answer : Nlmsghdr → ℤ → Bool → List (Nlmsghdr × ℤ)
answer nlh err wants = if is_nonzero err || wants then (nlh, err) ∷ [] else []

-- The user after a message: that of the last CAP_ADD, unless a CAP_DEL came later.
abbrev pub user_after : Nlmsghdr → ℕ → ℕ
user_after nlh portid =
    if nlh.nlmsg_type == cap_add
    then nlh.nlmsg_pid
    else if nlh.nlmsg_type == cap_del
    then 0
    else portid

-- The table after a message of a known type.
abbrev pub users_after : Nlmsghdr → Users → Users
users_after nlh us =
    if nlh.nlmsg_type == cap_add
    then (user_join nlh.nlmsg_pid us).0
    else if nlh.nlmsg_type == cap_del
    then (user_leave nlh.nlmsg_pid us).0
    else us

-- Every path of `cap_receive_msg`: an unknown type is refused with -EINVAL, and where there is no
-- thread and none can be started the error of that is returned, both with nothing changed.
-- Otherwise the function returns 0, the thread runs, and the user and the table are those after the
-- message.
pub cap_receive_msg_lem :
    (kthread_run : Option ℤ) (nlh : Nlmsghdr) (s : CapState)
    → let o = cap_receive_msg kthread_run nlh s in
      ((is_known nlh.nlmsg_type ≡ false) × (o ≡ (neg_einval, s)))
      ⊎ ((err : ℤ) × (is_known nlh.nlmsg_type ≡ true)
          × (s.kcapd_task ≡ false)
          × (kthread_run ≡ some err)
          × (o ≡ (err, s)))
      ⊎ ((is_known nlh.nlmsg_type ≡ true)
          × ((s.kcapd_task ≡ true) ⊎ (kthread_run ≡ none))
          × (o ≡ (
            pos 0,
            record s {
              kcapd_task = true;
              cap_nlk_portid = user_after nlh s.cap_nlk_portid;
              users = users_after nlh s.users;
            },
          )))
unfolding cap_receive_msg handle
cap_receive_msg_lem none nlh s = ground arith
cap_receive_msg_lem (some err) nlh s = elim (Bool-cases s.kcapd_task) [
  | inl runs ↦ ground (arith, runs)
  | inr none_yet ↦ elim (Bool-cases (is_known nlh.nlmsg_type)) [
    | inl known ↦ inr (inl (err, known, none_yet, refl, ground (arith, known, none_yet)))
    | inr unknown ↦ inl (unknown, ground (arith, unknown))
  ]
]

-- What one message does.
pub record Received (nlh : Nlmsghdr) (kthread_run : Option ℤ) (wants : Bool) (s s' : CapState)
    : Type 0 where
  pub acks : s'.acks ≡ s.acks ++ answer nlh (result nlh kthread_run s.kcapd_task).0 wants
  pub task : s'.kcapd_task ≡ (result nlh kthread_run s.kcapd_task).1
  pub user :
      s'.cap_nlk_portid
      ≡ (if s'.kcapd_task then user_after nlh s.cap_nlk_portid else s.cap_nlk_portid)
  pub users : s'.users ≡ (if s'.kcapd_task then users_after nlh s.users else s.users)
  pub queue : s'.cap_skb_queue ≡ s.cap_skb_queue
  pub pool : s'.pool ≡ s.pool
  pub rate : s'.rate ≡ s.rate
  pub sent : s'.sent ≡ s.sent

pub receive_msg-Received :
    {Ptr : Type 0} (api : NlmsgApi Ptr) (kthread_run : Ptr → Option ℤ) (p : Ptr) (s : CapState)
    (run : Option ℤ)
    → kthread_run p ≡ run
    → Received
        (api.header p)
        run
        (api.wants_ack p)
        s
        (receive_one api (receive_at api kthread_run) (ack_at api kthread_run) p s)
unfolding receive_one cap_receive_msg handle
receive_msg-Received api kthread_run p s none e = ground (arith, e, append-nil s.acks)
receive_msg-Received api kthread_run p s (some err) e = ground (arith, e, append-nil s.acks)
