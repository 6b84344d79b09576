-- ===== src/Capture/Session/Delivery.antt =====
-- From the packets that the hook of netlink/netlink.c sees to what netlink/user_client.c shows of
-- them.
use modules.Common.{
  ℕ, ◌+◌, ◌≤◌, ◌≡◌, ◌≢◌, refl, sym, ap, ap₂, subst, ◌∙◌, inl, inr, true, some, List, [], ◌∷◌, ◌++◌,
  map, append_assoc, append-nil, length, All, ℤ, arith, Outcome, done, ◌>>=◌,
}
use modules.Nlmsg.{SkBuff, Packet, SkbApi}
use modules.Capture.Buffers.{max_skb_bufsize}
use modules.Capture.Buffers.Account
use modules.Capture.Buffers.Account.{in_use}
use modules.Capture.Rate.{Rate, cap_rate_check}
use modules.Capture.State.{CapState, nf_accept, nlmsg_done}
use modules.Capture.Hooks.{hook_func_queue}
use modules.Capture.Hooks.Queueing.{idle, unallocated, limited, queued, hook_func_queue_lem}
use modules.Capture.Daemon.{kcapd_thread}
use modules.Capture.Daemon.Drain.{AllTaken, kcapd_thread_drains}
use modules.Capture.Client.{max_payload}
use modules.Capture.Client.Wire.{Wire, IsWire, IsSkbApi, shown, expected, shown_lem}

-- A call of the hook.
pub record HookCall : Type 0 where
  pub api : SkbApi
  pub hz : ℕ
  pub now : ℕ
  pub pkt : Packet

-- The packet is in one piece and fits the user program's buffer, and there is memory for its message.
pub record Succeeds (w : Wire) (portid : ℕ) (c : HookCall) : Type 0 where
  pub documented : IsSkbApi w c.api
  pub fresh : SkBuff
  pub msg : SkBuff
  pub made : c.api.nlmsg_new max_skb_bufsize ≡ some fresh
  pub put : c.api.nlmsg_put fresh portid 0 nlmsg_done c.pkt.len 0 ≡ some msg
  pub whole : c.pkt.len ≤ length c.pkt.bytes
  pub fits : c.pkt.len ≤ max_payload

-- The calls one after another, with memory for the buffers.
pub run_hooks : List HookCall → CapState → Outcome CapState
run_hooks [] s = done s
run_hooks (c ∷ cs) s = hook_func_queue c.api true c.hz c.now c.pkt s >>= λ r. run_hooks cs r.1

-- Without a limit every call passes, and nothing is counted.
check-off : (hz now : ℕ) (r : Rate) → r.cap_rate_limit ≡ 0 → cap_rate_check hz now r ≡ (true, r)
unfolding cap_rate_check
check-off hz now r off = ground arith

module _ (w : Wire) (laws : IsWire w) where
  -- After the calls, the messages that they made wait behind what waited before.
  pub record Captured (cs : List HookCall) (s t : CapState) (skbs : List SkBuff) : Type 0 where
    pub valid : Account.IsValid t.pool
    pub used : in_use t.pool ≡ in_use s.pool
    pub live : t.pool.skbs_live ≡ s.pool.skbs_live + length cs
    pub count : length skbs ≡ length cs
    pub port : t.cap_nlk_portid ≡ s.cap_nlk_portid
    pub unlimited : t.rate.cap_rate_limit ≡ 0
    pub queue : t.cap_skb_queue ≡ s.cap_skb_queue ++ skbs
    pub sent : t.sent ≡ s.sent
    pub table : t.users ≡ s.users
    pub shows : map (shown w) skbs ≡ map (λ c. expected w c.pkt) cs

  -- After one call.
  record OneMore (c : HookCall) (s t : CapState) (skb : SkBuff) : Type 0 where
    valid : Account.IsValid t.pool
    used : in_use t.pool ≡ in_use s.pool
    live : t.pool.skbs_live ≡ s.pool.skbs_live + 1
    port : t.cap_nlk_portid ≡ s.cap_nlk_portid
    unlimited : t.rate.cap_rate_limit ≡ 0
    queue : t.cap_skb_queue ≡ s.cap_skb_queue ++ skb ∷ []
    sent : t.sent ≡ s.sent
    table : t.users ≡ s.users
    first : shown w skb ≡ expected w c.pkt

  hook_captures :
      (c : HookCall) (s : CapState)
      → Account.IsValid s.pool
      → s.cap_nlk_portid ≢ 0
      → s.rate.cap_rate_limit ≡ 0
      → Succeeds w s.cap_nlk_portid c
      → (t : CapState) × (skb : SkBuff) × (hook_func_queue c.api true c.hz c.now c.pkt s
          ≡ done (nf_accept, t))
        × OneMore c s t skb
  hook_captures c s v on off ok =
      let pass = check-off c.hz c.now s.rate off in
      elim (hook_func_queue_lem c.api c.hz c.now c.pkt true s v) [
        | inl (_, _, fails, _) ↦ absurd (cc)
        | inr (t, runs, valid, frame, idle none_there _) ↦ absurd (on none_there)
        | inr (t, runs, valid, frame, unallocated _ unmade _ _ _) ↦ elim unmade [
          | inl fails ↦ absurd (cc)
          | inr (skb, made, fails) ↦ absurd (cc)
        ]
        | inr (t, runs, valid, frame, limited _ over _ _ _ _) ↦ absurd (cc)
        | inr
              (
                t,
                runs,
                valid,
                frame,
                queued skb fresh msg _ made put size _ rate bytes _ queue used live,
              ) ↦
            let long : skb.len ≡ w.nlmsg_align (w.hdrlen + c.pkt.len) = omega (
              arith,
              size,
              ok.documented.empty max_skb_bufsize fresh made,
              ok.documented.grows fresh msg s.cap_nlk_portid 0 nlmsg_done c.pkt.len 0 put,
            ) in
            (
              t,
              skb,
              runs,
              record {
                valid = valid;
                used = used;
                live = live;
                port = frame.portid;
                unlimited = ap Rate.cap_rate_limit (rate ∙ ap (λ r. r.1) pass) ∙ off;
                queue = queue;
                sent = frame.sent;
                table = frame.users;
                first = shown_lem w laws c.pkt skb ok.whole ok.fits bytes long;
              },
            )
      ]

  run_hooks_lem :
      (cs : List HookCall) (s : CapState)
      → Account.IsValid s.pool
      → s.cap_nlk_portid ≢ 0
      → s.rate.cap_rate_limit ≡ 0
      → All (Succeeds w s.cap_nlk_portid) cs
      → (t : CapState) × (skbs : List SkBuff) × (run_hooks cs s ≡ done t) × Captured cs s t skbs
  unfolding run_hooks
  run_hooks_lem [] s v on off ok = (
    s,
    [],
    refl,
    record {
      valid = v;
      used = refl;
      live = omega arith;
      count = refl;
      port = refl;
      unlimited = off;
      queue = sym (append-nil s.cap_skb_queue);
      sent = refl;
      table = refl;
      shows = refl;
    },
  )
  run_hooks_lem (c ∷ cs) s v on off ok =
      let (t, skb, runs, one) = hook_captures c s v on off ok.0 in
      let (u, skbs, rest, more) =
        run_hooks_lem cs t one.valid (λ z. on (sym one.port ∙ z)) one.unlimited
          (subst (λ p. All (Succeeds w p) cs) (sym one.port) ok.1) in
      (
        u,
        skb ∷ skbs,
        rw runs rest,
        record {
          valid = more.valid;
          used = more.used ∙ one.used;
          live = omega (arith, more.live, one.live);
          count = omega (arith, more.count);
          port = more.port ∙ one.port;
          unlimited = more.unlimited;
          queue =
              more.queue
              ∙ ap (λ xs. xs ++ skbs) one.queue
              ∙ append_assoc s.cap_skb_queue (skb ∷ []) skbs;
          sent = more.sent ∙ one.sent;
          table = more.table ∙ one.table;
          shows = ap₂ (λ x xs. x ∷ xs) one.first more.shows;
        },
      )

  -- With a user, no limit, and an empty queue to begin with, packets of at most 1600 bytes for whose
  -- messages there is memory, and a thread whose sends succeed: the messages are sent to the user in
  -- the order of the packets, one for each, the queue is empty again, the table is as it was, no buffer
  -- and no skb is lost, and user_client.c shows of each the length of the packet, rounded up by the
  -- netlink alignment, and its first twelve bytes, with zeros in the place of those that it has not.
  pub hook-recv_from_kernel :
      (cs : List HookCall) (us : List (SkBuff → ℕ → ℤ)) (s : CapState)
      → Account.IsValid s.pool
      → s.cap_nlk_portid ≢ 0
      → s.rate.cap_rate_limit ≡ 0
      → s.cap_skb_queue ≡ []
      → All (Succeeds w s.cap_nlk_portid) cs
      → AllTaken us
      → length us ≡ length cs
      → (t u : CapState) × (skbs : List SkBuff) × (run_hooks cs s ≡ done t)
        × (kcapd_thread us t ≡ done u)
        × (u.sent ≡ s.sent ++ map (λ skb. (skb, s.cap_nlk_portid)) skbs)
        × (map (shown w) skbs ≡ map (λ c. expected w c.pkt) cs)
        × (u.cap_skb_queue ≡ [])
        × (u.cap_nlk_portid ≡ s.cap_nlk_portid)
        × (in_use u.pool ≡ in_use s.pool)
        × (u.pool.skbs_live ≡ s.pool.skbs_live)
        × (u.users ≡ s.users)
        × (length skbs ≡ length cs)
  hook-recv_from_kernel cs us s v on off idle_queue ok taken len =
      let (t, skbs, runs, c) = run_hooks_lem cs s v on off ok in
      let waits : t.cap_skb_queue ≡ skbs = c.queue ∙ ap (λ xs. xs ++ skbs) idle_queue in
      let (u, drains, empty, user, all, refs, table, bufs) =
        kcapd_thread_drains us skbs t taken (len ∙ sym c.count) waits in
      (
        t,
        u,
        skbs,
        runs,
        drains,
        all ∙ ap₂ (λ xs p. xs ++ map (λ skb. (skb, p)) skbs) c.sent c.port,
        c.shows,
        empty,
        user ∙ c.port,
        bufs ∙ c.used,
        omega (arith, refs, c.live, c.count),
        table ∙ c.table,
        c.count,
      )
