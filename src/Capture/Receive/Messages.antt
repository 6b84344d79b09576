-- ===== src/Capture/Receive/Messages.antt =====
-- A whole buffer of messages in netlink/netlink.c: who is answered, who is the user afterwards.
use modules.Common.{
  Option, true, false, ◌⊎◌, inl, inr, Bool-cases, ℕ, suc, ◌≡◌, ◌≢◌, refl, Bool, ap₂, some, List, [],
  ◌∷◌, ◌++◌, append_assoc, append-nil, arith, ℤ, pos, All, if◌then◌else◌, sym, ap, ◌∙◌,
}
use modules.Nlmsg.{Nlmsghdr, NlmsgApi, Progress, receive_one}
use modules.Nlmsg.Walk.{messages, each, receive_loop_lem}
use modules.Capture.Users.Count
use modules.Capture.Users.Count.{user_join-IsValid, user_leave-IsValid}
use modules.Capture.Users.{Users}
use modules.Capture.State.{CapState}
use modules.Capture.Receive.{receive_at, ack_at, cap_receive_skb}
use modules.Capture.Receive.Single.{
  is_known, result, answer, user_after, users_after, receive_msg-Received,
}

module _ {Ptr : Type 0} (api : NlmsgApi Ptr) (kthread_run : Ptr → Option ℤ) where
  abbrev step : Ptr → CapState → CapState
  step p s = receive_one api (receive_at api kthread_run) (ack_at api kthread_run) p s

  abbrev result_of : Ptr → (task : Bool) → ℤ × Bool
  result_of p task = result (api.header p) (kthread_run p) task

  -- The answers to a list of messages, and whether the thread runs, the user and the table after it.
  pub answers : List Ptr → (task : Bool) → List (Nlmsghdr × ℤ)
  answers [] task = []
  answers (p ∷ ps) task =
      answer (api.header p) (result_of p task).0 (api.wants_ack p)
      ++ answers ps (result_of p task).1

  pub last_task : List Ptr → (task : Bool) → Bool
  last_task [] task = task
  last_task (p ∷ ps) task = last_task ps (result_of p task).1

  unfoldable pub last_user : List Ptr → (task : Bool) → ℕ → ℕ
  last_user [] task portid = portid
  last_user (p ∷ ps) task portid =
      let task' = (result_of p task).1 in
      last_user ps task' (if task' then user_after (api.header p) portid else portid)

  pub last_users : List Ptr → (task : Bool) → Users → Users
  last_users [] task us = us
  last_users (p ∷ ps) task us =
      let task' = (result_of p task).1 in
      last_users ps task' (if task' then users_after (api.header p) us else us)

  -- The counter of the table stays right if no message has the pid 0.
  last_users-IsValid :
      (ps : List Ptr) (task : Bool) (us : Users)
      → All (λ p. (api.header p).nlmsg_pid ≢ 0) ps
      → Count.IsValid us
      → Count.IsValid (last_users ps task us)
  unfolding last_users
  last_users-IsValid [] task us n v = v
  last_users-IsValid (p ∷ ps) task us n v =
      let nlh = api.header p in
      let after : Count.IsValid (users_after nlh us) = ground (
        arith,
        user_join-IsValid nlh.nlmsg_pid us n.0 v,
        user_leave-IsValid nlh.nlmsg_pid us n.0 v,
      ) in
      elim (Bool-cases (result_of p task).1) [
        | inl runs ↦ rw runs (last_users-IsValid ps true (users_after nlh us) n.1 after)
        | inr off ↦ rw off (last_users-IsValid ps false us n.1 v)
      ]

  record AllReceived (ps : List Ptr) (s s' : CapState) : Type 0 where
    acks : s'.acks ≡ s.acks ++ answers ps s.kcapd_task
    task : s'.kcapd_task ≡ last_task ps s.kcapd_task
    user : s'.cap_nlk_portid ≡ last_user ps s.kcapd_task s.cap_nlk_portid
    users : s'.users ≡ last_users ps s.kcapd_task s.users
    queue : s'.cap_skb_queue ≡ s.cap_skb_queue
    pool : s'.pool ≡ s.pool
    rate : s'.rate ≡ s.rate
    sent : s'.sent ≡ s.sent

  each-AllReceived : (ps : List Ptr) (s : CapState) → AllReceived ps s (each step ps s)
  unfolding each answers last_task last_user last_users
  each-AllReceived [] s = record {
    acks = sym (append-nil s.acks);
    task = refl;
    user = refl;
    users = refl;
    queue = refl;
    pool = refl;
    rate = refl;
    sent = refl;
  }
  each-AllReceived (p ∷ ps) s =
      let one = receive_msg-Received api kthread_run p s (kthread_run p) refl in
      let t = step p s in
      let rest = each-AllReceived ps t in
      let task' = (result_of p s.kcapd_task).1 in
      record {
        acks =
            rest.acks
            ∙ ap₂ (λ x b. x ++ answers ps b) one.acks one.task
            ∙ append_assoc s.acks
                (answer (api.header p) (result_of p s.kcapd_task).0 (api.wants_ack p))
                (answers ps task');
        task = rest.task ∙ ap (last_task ps) one.task;
        user =
            rest.user
            ∙ ap (last_user ps t.kcapd_task) one.user
            ∙ ap
                (λ b.
                  last_user ps b
                    (if b then user_after (api.header p) s.cap_nlk_portid else s.cap_nlk_portid))
                one.task;
        users =
            rest.users
            ∙ ap (last_users ps t.kcapd_task) one.users
            ∙ ap (λ b. last_users ps b (if b then users_after (api.header p) s.users else s.users))
                one.task;
        queue = rest.queue ∙ one.queue;
        pool = rest.pool ∙ one.pool;
        rate = rest.rate ∙ one.rate;
        sent = rest.sent ∙ one.sent;
      }

  -- The messages start the thread or leave it and the user as they are.
  last_task-on : (ps : List Ptr) → last_task ps true ≡ true
  unfolding last_task
  last_task-on [] = refl
  last_task-on (p ∷ ps) = elim (Bool-cases (is_known (api.header p).nlmsg_type)) [
    | inl known ↦ rw known (last_task-on ps)
    | inr unknown ↦ rw unknown (last_task-on ps)
  ]

  last_task_lem :
      (ps : List Ptr) (task : Bool) (portid : ℕ)
      → (last_task ps task ≡ true)
        ⊎ ((last_task ps task ≡ task) × (last_user ps task portid ≡ portid))
  unfolding last_task last_user
  last_task_lem ps true portid = inl (last_task-on ps)
  last_task_lem [] false portid = inr (refl, refl)
  last_task_lem (p ∷ ps) false portid = elim (Bool-cases (result_of p false).1) [
    | inl runs ↦ inl (rw runs (last_task-on ps))
    | inr off ↦ rw off (last_task_lem ps false portid)
  ]

  -- The messages leave what is queued and sent, the pool and the counter of packets alone, and the
  -- user is that of the last one that sets it.
  pub cap_receive_skb-mail :
      (nlh : Ptr) (len : ℕ) (s s' : CapState)
      → Progress api
      → cap_receive_skb api kthread_run nlh len s ≡ some s'
      → (s'.sent ≡ s.sent)
        × (s'.cap_skb_queue ≡ s.cap_skb_queue)
        × (s'.pool ≡ s.pool)
        × (s'.rate ≡ s.rate)
        × (s'.cap_nlk_portid
            ≡ last_user (messages api (suc len) nlh (pos len)) s.kcapd_task s.cap_nlk_portid)
  unfolding cap_receive_skb
  cap_receive_skb-mail nlh len s s' law runs =
      let ps = messages api (suc len) nlh (pos len) in
      let r = each-AllReceived ps s in
      let same : s' ≡ each step ps s = cc (
        receive_loop_lem api (receive_at api kthread_run) (ack_at api kthread_run) law (suc len) nlh
          (pos len) s (omega arith)) in
      rw same (r.sent, r.queue, r.pool, r.rate, r.user)

  -- The thread runs afterwards, or it is as it was and so is the user.
  pub cap_receive_skb-task :
      (nlh : Ptr) (len : ℕ) (s s' : CapState)
      → Progress api
      → cap_receive_skb api kthread_run nlh len s ≡ some s'
      → (s'.kcapd_task ≡ true)
        ⊎ ((s'.kcapd_task ≡ s.kcapd_task) × (s'.cap_nlk_portid ≡ s.cap_nlk_portid))
  unfolding cap_receive_skb
  cap_receive_skb-task nlh len s s' law runs =
      let ps = messages api (suc len) nlh (pos len) in
      let same : s' ≡ each step ps s = cc (
        receive_loop_lem api (receive_at api kthread_run) (ack_at api kthread_run) law (suc len) nlh
          (pos len) s (omega arith)) in
      let r = each-AllReceived ps s in
      elim (last_task_lem ps s.kcapd_task s.cap_nlk_portid) [
        | inl runs ↦ inl (rw same (r.task ∙ runs))
        | inr (as_was, user) ↦ inr (rw same (r.task ∙ as_was), rw same (r.user ∙ user))
      ]

  -- `cap_receive_skb` ends on every buffer, if the kernel's `nlmsg_next` makes progress, whether the
  -- thread runs or not and whatever `kthread_run` answers to each message. Each message is answered, in
  -- order: by -EINVAL if its type is unknown, by the error of `kthread_run` where that fails, and
  -- otherwise by 0 if it wants an answer. The thread runs afterwards if it ran or a message started it.
  -- The user and the table are those after the messages of a known type that met a running thread,
  -- in order: CAP_ADD sets the user and joins, CAP_DEL clears it and leaves. The queue, the pool, the
  -- rate and what was sent stay as they were.
  pub cap_receive_skb_lem :
      (nlh : Ptr) (len : ℕ) (s : CapState)
      → Progress api
      → let ps = messages api (suc len) nlh (pos len) in
        (s' : CapState) × (cap_receive_skb api kthread_run nlh len s ≡ some s')
        × (s'.acks ≡ s.acks ++ answers ps s.kcapd_task)
        × (s'.kcapd_task ≡ last_task ps s.kcapd_task)
        × (s'.cap_nlk_portid ≡ last_user ps s.kcapd_task s.cap_nlk_portid)
        × (s'.users ≡ last_users ps s.kcapd_task s.users)
        × (s'.cap_skb_queue ≡ s.cap_skb_queue)
        × (s'.pool ≡ s.pool)
        × (s'.rate ≡ s.rate)
        × (s'.sent ≡ s.sent)
  unfolding cap_receive_skb
  cap_receive_skb_lem nlh len s law =
      let ps = messages api (suc len) nlh (pos len) in
      let r = each-AllReceived ps s in
      (
        each step ps s,
        receive_loop_lem api (receive_at api kthread_run) (ack_at api kthread_run) law (suc len) nlh
            (pos len) s (omega arith),
        r.acks,
        r.task,
        r.user,
        r.users,
        r.queue,
        r.pool,
        r.rate,
        r.sent,
      )
