-- ===== src/Capture/Session/Recipients.antt =====
-- To whom netlink/netlink.c sends the packets that it captures.
use modules.Common.{
  ℕ, Bool, true, false, Option, suc, ℤ, ◌≡◌, refl, sym, subst, ◌⊎◌, inl, inr, List, [], ◌∷◌, ◌++◌,
  pos, ◌==◌, if◌then◌else◌, All, done, Bool-cases,
}
use modules.Nlmsg.{Nlmsghdr, SkBuff, NlmsgApi}
use modules.Nlmsg.Walk.{messages}
use modules.Capture.Buffers.Account
use modules.Capture.State.{CapState}
use modules.Capture.Hooks.Queueing.{Frame, hook_func_queue_lem}
use modules.Capture.Daemon.{round}
use modules.Capture.Daemon.Drain.{taken, refused, stopped, round-nil, round_lem}
use modules.Capture.Receive.{cap_add, cap_del}
use modules.Capture.Receive.Single.{result, user_after}
use modules.Capture.Receive.Messages.{last_user, cap_receive_skb-mail}
use modules.Capture.Session.{Run, start, packet, deliver, receive}
use modules.Capture.Session.Order.{Run-pool}

abbrev pub In : ℕ → List ℕ → Type 0
In x [] = ⊥
In x (y ∷ ys) = (x ≡ y) ⊎ In x ys

In-append_left : (x : ℕ) (xs ys : List ℕ) → In x xs → In x (xs ++ ys)
In-append_left x [] ys i = elim i [ ]
In-append_left x (y ∷ xs) ys (inl e) = inl e
In-append_left x (y ∷ xs) ys (inr i) = inr (In-append_left x xs ys i)

In-append_right : (x : ℕ) (xs ys : List ℕ) → In x ys → In x (xs ++ ys)
In-append_right x [] ys i = i
In-append_right x (y ∷ xs) ys i = inr (In-append_right x xs ys i)

-- 0, or one of those that asked.
abbrev pub Asked : List ℕ → ℕ → Type 0
Asked pids pid = (pid ≡ 0) ⊎ In pid pids

Asked-append : (pids more : List ℕ) (pid : ℕ) → Asked pids pid → Asked (pids ++ more) pid
Asked-append pids more pid (inl e) = inl e
Asked-append pids more pid (inr i) = inr (In-append_left pid pids more i)

Asked-more : (pids more : List ℕ) (pid : ℕ) → Asked more pid → Asked (pids ++ more) pid
Asked-more pids more pid (inl e) = inl e
Asked-more pids more pid (inr i) = inr (In-append_right pid pids more i)

All-Asked :
    (pids more : List ℕ) (sent : List (SkBuff × ℕ))
    → All (λ m. Asked pids m.1) sent
    → All (λ m. Asked (pids ++ more) m.1) sent
All-Asked pids more [] h = tt
All-Asked pids more (m ∷ sent) h = (Asked-append pids more m.1 h.0, All-Asked pids more sent h.1)

All-last :
    (pids : List ℕ) (sent : List (SkBuff × ℕ)) (m : SkBuff × ℕ)
    → All (λ m. Asked pids m.1) sent
    → Asked pids m.1
    → All (λ m. Asked pids m.1) (sent ++ m ∷ [])
All-last pids [] m h a = (a, tt)
All-last pids (x ∷ sent) m h a = (h.0, All-last pids sent m h.1 a)

-- The pids in the CAP_ADD messages of a buffer, and of a run.
abbrev pub added : Nlmsghdr → List ℕ → List ℕ
added nlh rest = if nlh.nlmsg_type == cap_add then nlh.nlmsg_pid ∷ rest else rest

pub pids_added : {Ptr : Type 0} → NlmsgApi Ptr → List Ptr → List ℕ
pids_added api [] = []
pids_added api (p ∷ ps) = added (api.header p) (pids_added api ps)

pub adders :
    {Ptr : Type 0} {s : CapState} {seen : List (List ℕ)} {s' : CapState}
    → Run Ptr s seen s'
    → List ℕ
unfolding pids_added
adders start = []
adders (packet api kmalloc_ok hz now verdict pkt r runs) = adders r
adders (deliver netlink_unicast r runs) = adders r
adders (receive api kthread_run nlh len law r runs) =
    adders r ++ pids_added api (messages api (suc len) nlh (pos len))

user_after-Asked :
    (nlh : Nlmsghdr) (rest : List ℕ) (portid : ℕ)
    → (user_after nlh portid ≡ portid) ⊎ Asked (added nlh rest) (user_after nlh portid)
user_after-Asked nlh rest portid = elim (Bool-cases (nlh.nlmsg_type == cap_add)) [
  | inl joins ↦ rw joins (inr (inr (inl refl)))
  | inr other ↦ elim (Bool-cases (nlh.nlmsg_type == cap_del)) [
    | inl leaves ↦ rw (other, leaves) (inr (inl refl))
    | inr neither ↦ rw (other, neither) (inl refl)
  ]
]

added-Asked :
    (nlh : Nlmsghdr) (rest : List ℕ) (pid : ℕ) → Asked rest pid → Asked (added nlh rest) pid
added-Asked nlh rest pid (inl none) = inl none
added-Asked nlh rest pid (inr i) = elim (Bool-cases (nlh.nlmsg_type == cap_add)) [
  | inl joins ↦ rw joins (inr (inr i))
  | inr other ↦ rw other (inr i)
]

last_user-Asked :
    {Ptr : Type 0} (api : NlmsgApi Ptr) (kthread_run : Ptr → Option ℤ) (ps : List Ptr) (task : Bool)
    (portid : ℕ)
    → let user = last_user api kthread_run ps task portid in
      (user ≡ portid) ⊎ Asked (pids_added api ps) user
unfolding last_user pids_added
last_user-Asked api kthread_run [] task portid = inl refl
last_user-Asked api kthread_run (p ∷ ps) task portid =
    let nlh = api.header p in
    let rest = pids_added api ps in
    elim (Bool-cases (result nlh (kthread_run p) task).1) [
      | inl runs ↦ rw runs (elim (last_user-Asked api kthread_run ps true (user_after nlh portid)) [
        | inl same ↦
            subst (λ q. (q ≡ portid) ⊎ Asked (added nlh rest) q) (sym same)
              (user_after-Asked nlh rest portid)
        | inr asked ↦
            inr (
              added-Asked nlh rest (last_user api kthread_run ps true (user_after nlh portid))
                asked)
      ])
      | inr off ↦ rw off (elim (last_user-Asked api kthread_run ps false portid) [
        | inl same ↦ inl same
        | inr asked ↦ inr (added-Asked nlh rest (last_user api kthread_run ps false portid) asked)
      ])
    ]

-- What holds all along: the user asked, and so did those who were sent to.
record IsAsked (pids : List ℕ) (s : CapState) : Type 0 where
  user : Asked pids s.cap_nlk_portid
  recipients : All (λ m. Asked pids m.1) s.sent

packet-IsAsked : (pids : List ℕ) (t u : CapState) → Frame t u → IsAsked pids t → IsAsked pids u
packet-IsAsked pids t u f a = record {
  user = subst (Asked pids) (sym f.portid) a.user;
  recipients = subst (All (λ m. Asked pids m.1)) (sym f.sent) a.recipients;
}

round-IsAsked :
    (pids : List ℕ) (netlink_unicast : SkBuff → ℕ → ℤ) (queue : List SkBuff) (t u : CapState)
    → round netlink_unicast queue t ≡ done u
    → IsAsked pids t
    → IsAsked pids u
round-IsAsked pids netlink_unicast [] t u runs a =
    let same : t ≡ u = cc (round-nil netlink_unicast t) in subst (IsAsked pids) same a
round-IsAsked pids netlink_unicast (skb ∷ rest) t u runs a =
    let all = All-last pids t.sent (skb, t.cap_nlk_portid) a.recipients a.user in
    elim (round_lem netlink_unicast skb rest t) [
      | taken s' eq ok queue user sends pool ↦
          let same : s' ≡ u = cc in
          subst (IsAsked pids) same (record {
            user = subst (Asked pids) (sym user) a.user;
            recipients = subst (All (λ m. Asked pids m.1)) (sym sends) all;
          })
      | refused s' eq fails refuses queue user sends pool ↦
          let same : s' ≡ u = cc in
          subst (IsAsked pids) same (record {
            user = inl user;
            recipients = subst (All (λ m. Asked pids m.1)) (sym sends) all;
          })
      | stopped eq fails worse ↦ absurd (cc)
    ]

Run-IsAsked :
    {Ptr : Type 0} (s : CapState) {seen : List (List ℕ)} {s' : CapState}
    → Account.IsValid s.pool
    → IsAsked [] s
    → (r : Run Ptr s seen s') → IsAsked (adders r) s'
unfolding adders
Run-IsAsked s v a start = a
Run-IsAsked s v a (packet {seen} {t} {u} api kmalloc_ok hz now verdict pkt r runs) =
    elim (hook_func_queue_lem api hz now pkt kmalloc_ok t (Run-pool s v r)) [
      | inl (on, empty, fails, faults) ↦ absurd (cc)
      | inr (u', eq, valid, frame, how) ↦
          let same : u' ≡ u = cc in
          subst (IsAsked (adders r)) same
            (packet-IsAsked (adders r) t u' frame (Run-IsAsked s v a r))
    ]
Run-IsAsked s v a (deliver {seen} {t} {u} netlink_unicast r runs) =
    round-IsAsked (adders r) netlink_unicast t.cap_skb_queue t u runs (Run-IsAsked s v a r)
Run-IsAsked s v a (receive {seen} {t} {u} api kthread_run nlh len law r runs) =
    let (sent, _, _, _, user) = cap_receive_skb-mail api kthread_run nlh len t u law runs in
    let ps = messages api (suc len) nlh (pos len) in
    let more = pids_added api ps in
    let before = Run-IsAsked s v a r in
    let last : Asked (adders r ++ more)
        (last_user api kthread_run ps t.kcapd_task t.cap_nlk_portid) =
      elim (last_user-Asked api kthread_run ps t.kcapd_task t.cap_nlk_portid) [
        | inl same ↦
            subst (Asked (adders r ++ more)) (sym same)
              (Asked-append (adders r) more t.cap_nlk_portid before.user)
        | inr asked ↦
            Asked-more (adders r) more (last_user api kthread_run ps t.kcapd_task t.cap_nlk_portid)
              asked
      ] in
    record {
      user = subst (Asked (adders r ++ more)) (sym user) last;
      recipients =
          subst (All (λ m. Asked (adders r ++ more) m.1)) (sym sent)
            (All-Asked (adders r) more t.sent before.recipients);
    }

-- Over any run of calls from a state with no user in which nothing was sent, each captured packet was
-- sent to 0 or to a pid that a CAP_ADD message of the run named, and so is the user.
pub Run-Asked :
    {Ptr : Type 0} (s : CapState) {seen : List (List ℕ)} {s' : CapState}
    → Account.IsValid s.pool
    → s.cap_nlk_portid ≡ 0
    → s.sent ≡ []
    → (r : Run Ptr s seen s')
    → All (λ m. Asked (adders r) m.1) s'.sent × Asked (adders r) s'.cap_nlk_portid
Run-Asked s v none_yet nothing r =
    let a =
      Run-IsAsked s v
        (record {
          user = inl none_yet;
          recipients = subst (All (λ m. Asked [] m.1)) (sym nothing) tt;
        })
        r in
    (a.recipients, a.user)
