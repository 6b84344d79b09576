-- ===== src/Capture/Session/Order.antt =====
-- The packets on their way through netlink/netlink.c, from the hook to the user.
use modules.Common.{
  ℕ, ◌≡◌, refl, List, [], ◌∷◌, ◌++◌, append_assoc, append-nil, map, take, arith, ap, sym, Bool, ap₂,
  ℤ, done, IsSubsequence, IsSubsequence-refl, IsSubsequence-keep_last, IsSubsequence-skip_last, ◌⊎◌,
  inl, inr,
}
use mathlib.Core.Path.{◌≡⟨◌⟩◌, ◌∎}
use mathlib.Core.List.{map-append}
use modules.Nlmsg.{SkBuff, Packet, SkbApi}
use modules.Capture.Buffers.Account
use modules.Capture.State.{CapState}
use modules.Capture.Hooks.{hook_func_queue}
use modules.Capture.Hooks.Queueing.{
  Frame, Hooked, idle, unallocated, limited, queued, hook_func_queue_lem,
}
use modules.Capture.Daemon.{round}
use modules.Capture.Daemon.Drain.{taken, refused, stopped, round_lem, round-nil}
use modules.Capture.Receive.Messages.{cap_receive_skb-mail}
use modules.Capture.Session.{Run, start, packet, deliver, receive}

-- The payloads that were sent, and behind them those that wait.
abbrev sent_payloads : List (SkBuff × ℕ) → List (List ℕ)
sent_payloads [] = []
sent_payloads ((skb, pid) ∷ l) = skb.payload ∷ sent_payloads l

abbrev pub payloads : CapState → List (List ℕ)
payloads s = sent_payloads s.sent ++ map SkBuff.payload s.cap_skb_queue

sent_payloads-append :
    (xs ys : List (SkBuff × ℕ)) → sent_payloads (xs ++ ys) ≡ sent_payloads xs ++ sent_payloads ys
sent_payloads-append [] ys = refl
sent_payloads-append ((skb, pid) ∷ xs) ys = ap (λ t. skb.payload ∷ t) (sent_payloads-append xs ys)

-- What a step does to the payloads: nothing, or one more at the end.
abbrev Grows : CapState → List ℕ → CapState → Type 0
Grows t bytes u = (payloads u ≡ payloads t) ⊎ (payloads u ≡ payloads t ++ bytes ∷ [])

Hooked-Grows :
    (api : SkbApi) (hz now : ℕ) (pkt : Packet) (t u : CapState)
    → Frame t u
    → Hooked api hz now pkt t u
    → Grows t (take pkt.len pkt.bytes) u
Hooked-Grows api hz now pkt t u f (idle off same) = inl (ap payloads same)
Hooked-Grows api hz now pkt t u f (unallocated on why queue bufs skbs) =
    inl (ap₂ (λ a b. sent_payloads a ++ map SkBuff.payload b) f.sent queue)
Hooked-Grows api hz now pkt t u f (limited on over rate queue bufs skbs) =
    inl (ap₂ (λ a b. sent_payloads a ++ map SkBuff.payload b) f.sent queue)
Hooked-Grows api hz now pkt t u f
      (queued skb fresh msg on made put size pass rate bytes len queue bufs skbs) =
    inr (
      payloads u
      ≡⟨ ap₂ (λ a b. sent_payloads a ++ map SkBuff.payload b) f.sent queue ⟩
        sent_payloads t.sent ++ map SkBuff.payload (t.cap_skb_queue ++ skb ∷ [])
      ≡⟨ ap (λ l. sent_payloads t.sent ++ l)
          (map-append SkBuff.payload t.cap_skb_queue (skb ∷ [])) ⟩
        sent_payloads t.sent ++ (map SkBuff.payload t.cap_skb_queue ++ skb.payload ∷ [])
      ≡⟨ sym (
          append_assoc (sent_payloads t.sent) (map SkBuff.payload t.cap_skb_queue)
            (skb.payload ∷ [])) ⟩
        payloads t ++ skb.payload ∷ []
      ≡⟨ ap (λ b. payloads t ++ b ∷ []) bytes ⟩ payloads t ++ take pkt.len pkt.bytes ∷ [] ∎)

packet_lem :
    (api : SkbApi) (kmalloc_ok : Bool) (hz now verdict : ℕ) (pkt : Packet) (t u : CapState)
    → Account.IsValid t.pool
    → hook_func_queue api kmalloc_ok hz now pkt t ≡ done (verdict, u)
    → Account.IsValid u.pool × Grows t (take pkt.len pkt.bytes) u
packet_lem api kmalloc_ok hz now verdict pkt t u v runs =
    elim (hook_func_queue_lem api hz now pkt kmalloc_ok t v) [
      | inl (on, empty, fails, faults) ↦ cc
      | inr (s', eq, valid, frame, how) ↦
          let same : s' ≡ u = cc in
          (rw (← same) valid, rw (← same) (Hooked-Grows api hz now pkt t s' frame how))
    ]

-- The first message moves from the queue to the end of those sent.
moved-payloads :
    (skb : SkBuff) (pid : ℕ) (rest : List SkBuff) (t u : CapState)
    → t.cap_skb_queue ≡ skb ∷ rest
    → u.cap_skb_queue ≡ rest
    → u.sent ≡ t.sent ++ (skb, pid) ∷ []
    → payloads u ≡ payloads t
moved-payloads skb pid rest t u had has sends =
    simp (had, has, sends, sent_payloads-append, append_assoc)

-- A round keeps the payloads as they are, and the pool valid.
deliver_lem :
    (netlink_unicast : SkBuff → ℕ → ℤ) (queue : List SkBuff) (t u : CapState)
    → Account.IsValid t.pool
    → t.cap_skb_queue ≡ queue
    → round netlink_unicast queue t ≡ done u
    → Account.IsValid u.pool × (payloads u ≡ payloads t)
deliver_lem netlink_unicast [] t u v e runs =
    let same : t ≡ u = cc (round-nil netlink_unicast t) in (rw (← same) v, rw (← same) refl)
deliver_lem netlink_unicast (skb ∷ rest) t u v e runs =
    elim (round_lem netlink_unicast skb rest t) [
      | taken s' eq ok queue user sends pool ↦
          let same : s' ≡ u = cc in
          (
            rw (← same, pool) (ground (arith, v)),
            rw (← same) (moved-payloads skb t.cap_nlk_portid rest t s' e queue sends),
          )
      | refused s' eq fails refuses queue user sends pool ↦
          let same : s' ≡ u = cc in
          (
            rw (← same, pool) v,
            rw (← same) (moved-payloads skb t.cap_nlk_portid rest t s' e queue sends),
          )
      | stopped eq fails worse ↦ cc
    ]

Run_lem :
    {Ptr : Type 0} (s : CapState) {seen : List (List ℕ)} {s' : CapState}
    → Account.IsValid s.pool
    → Run Ptr s seen s'
    → Account.IsValid s'.pool × IsSubsequence (payloads s ++ seen) (payloads s')
Run_lem s v start = (v, rw append-nil (IsSubsequence-refl (payloads s)))
Run_lem s v (packet {seen} {t} {u} api kmalloc_ok hz now verdict pkt r runs) =
    let (vt, sub) = Run_lem s v r in
    let bytes = take pkt.len pkt.bytes in
    let (vu, grows) = packet_lem api kmalloc_ok hz now verdict pkt t u vt runs in
    (
      vu,
      rw (← append_assoc (payloads s) seen (bytes ∷ [])) (elim grows [
        | inl same ↦ rw same (IsSubsequence-skip_last bytes sub)
        | inr more ↦ rw more (IsSubsequence-keep_last bytes sub)
      ]),
    )
Run_lem s v (deliver {seen} {t} {u} netlink_unicast r runs) =
    let (vt, sub) = Run_lem s v r in
    let (vu, same) = deliver_lem netlink_unicast t.cap_skb_queue t u vt refl runs in
    (vu, rw same sub)
Run_lem s v (receive {seen} {t} {u} api kthread_run nlh len law r runs) =
    let (vt, sub) = Run_lem s v r in
    let (sent, queue, pool, _, _) = cap_receive_skb-mail api kthread_run nlh len t u law runs in
    (rw pool vt, rw (sent, queue) sub)

-- Started on a valid pool, whatever the calls of the hook, the thread and the receiving side, and
-- however they interleave, what was sent and what waits is, in order, some of what was sent and
-- waiting before, followed by some of the packets that the hook saw, each at most once and with
-- its bytes unchanged.
pub Run-order :
    {Ptr : Type 0} (s : CapState) {seen : List (List ℕ)} {s' : CapState}
    → Account.IsValid s.pool
    → Run Ptr s seen s'
    → IsSubsequence (payloads s ++ seen) (payloads s')
Run-order s v r = (Run_lem s v r).1

-- The free list stays within its bound, and its counter right, over every such run.
pub Run-pool :
    {Ptr : Type 0} (s : CapState) {seen : List (List ℕ)} {s' : CapState}
    → Account.IsValid s.pool
    → Run Ptr s seen s'
    → Account.IsValid s'.pool
Run-pool s v r = (Run_lem s v r).0
