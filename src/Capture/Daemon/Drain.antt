-- ===== src/Capture/Daemon/Drain.antt =====
-- What becomes of the queued messages and their references in the thread kcapd of netlink/netlink.c.
use modules.Common.{
  ℕ, ◌-◌, ◌≡◌, refl, inl, inr, true, false, List, [], ◌∷◌, ◌++◌, append_assoc, append-nil, map,
  arith, ℤ, is_neg, eq_ℤ, neg_econnrefused, length, All, Outcome, done, oops, Bool-cases, sym, ap,
  ◌∙◌,
}
use modules.Nlmsg.{SkBuff}
use modules.Capture.Buffers.Account.{in_use}
use modules.Capture.State.{CapState}
use modules.Capture.Daemon.{with_skbs, kcapd_send_reply, wake_backlog, round, kcapd_thread}

-- What a round does with the first message of the queue, by the answer of `netlink_unicast`: sent,
-- one reference fewer is held and the user stays; refused, the user is forgotten and a reference
-- to the message is kept for good; any other error stops the kernel.
pub data Sent (answer : ℤ) (skb : SkBuff) (s : CapState) (rest : List SkBuff) (o : Outcome CapState)
    : Type 0 where
  taken :
      (s' : CapState)
      → o ≡ done s'
      → is_neg answer ≡ false
      → s'.cap_skb_queue ≡ rest
      → s'.cap_nlk_portid ≡ s.cap_nlk_portid
      → s'.sent ≡ s.sent ++ (skb, s.cap_nlk_portid) ∷ []
      → s'.pool ≡ record (s.pool) { skbs_live = s.pool.skbs_live - 1 }
      → Sent answer skb s rest o
  refused :
      (s' : CapState)
      → o ≡ done s'
      → is_neg answer ≡ true
      → eq_ℤ answer neg_econnrefused ≡ true
      → s'.cap_skb_queue ≡ rest
      → s'.cap_nlk_portid ≡ 0
      → s'.sent ≡ s.sent ++ (skb, s.cap_nlk_portid) ∷ []
      → s'.pool ≡ s.pool
      → Sent answer skb s rest o
  stopped :
      o ≡ oops
      → is_neg answer ≡ true
      → eq_ℤ answer neg_econnrefused ≡ false
      → Sent answer skb s rest o

-- The message is recorded as sent to the user of the time.
abbrev pub mailed : SkBuff → CapState → CapState
mailed skb s = record s { sent = s.sent ++ (skb, s.cap_nlk_portid) ∷ [] }

module _ (netlink_unicast : SkBuff → ℕ → ℤ) (skb : SkBuff) (s : CapState) where
  pub send-taken :
      is_neg (netlink_unicast skb s.cap_nlk_portid) ≡ false
      → kcapd_send_reply netlink_unicast skb s
        ≡ done (mailed skb (with_skbs (s.pool.skbs_live - 1) s))
  unfolding kcapd_send_reply
  send-taken ok = rw ok (ap (λ k. done (mailed skb (with_skbs k s))) (omega arith))

  pub send-refused :
      is_neg (netlink_unicast skb s.cap_nlk_portid) ≡ true
      → eq_ℤ (netlink_unicast skb s.cap_nlk_portid) neg_econnrefused ≡ true
      → kcapd_send_reply netlink_unicast skb s ≡ done (record (mailed skb s) { cap_nlk_portid = 0 })
  unfolding kcapd_send_reply
  send-refused fails refuses =
      rw (fails, refuses)
        (ap (λ k. done (record (mailed skb (with_skbs k s)) { cap_nlk_portid = 0 })) (omega arith))

  pub send-stopped :
      is_neg (netlink_unicast skb s.cap_nlk_portid) ≡ true
      → eq_ℤ (netlink_unicast skb s.cap_nlk_portid) neg_econnrefused ≡ false
      → kcapd_send_reply netlink_unicast skb s ≡ oops
  unfolding kcapd_send_reply
  send-stopped fails worse = rw (fails, worse)

-- On an empty queue a round changes nothing.
pub round-nil :
    (netlink_unicast : SkBuff → ℕ → ℤ) (s : CapState) → round netlink_unicast [] s ≡ done s
unfolding round
round-nil netlink_unicast s = refl

-- A round on a queue that is not empty takes its first message, in one of the three ways.
pub round_lem :
    (netlink_unicast : SkBuff → ℕ → ℤ) (skb : SkBuff) (rest : List SkBuff) (s : CapState)
    → Sent (netlink_unicast skb s.cap_nlk_portid) skb s rest (round netlink_unicast (skb ∷ rest) s)
unfolding round
round_lem netlink_unicast skb rest s =
    let t = wake_backlog (record s { cap_skb_queue = rest }) in
    elim (Bool-cases (is_neg (netlink_unicast skb s.cap_nlk_portid))) [
      | inl fails ↦
          elim (Bool-cases (eq_ℤ (netlink_unicast skb s.cap_nlk_portid) neg_econnrefused)) [
            | inl refuses ↦
                refused (record (mailed skb t) { cap_nlk_portid = 0 })
                  (send-refused netlink_unicast skb t fails refuses) fails refuses refl refl refl
                  refl
            | inr worse ↦ stopped (send-stopped netlink_unicast skb t fails worse) fails worse
          ]
      | inr ok ↦
          taken (mailed skb (with_skbs (t.pool.skbs_live - 1) t))
            (send-taken netlink_unicast skb t ok) ok refl refl refl refl
    ]

-- Every answer is a success.
abbrev pub AllTaken : List (SkBuff → ℕ → ℤ) → Type 0
AllTaken us = All (λ u. (skb : SkBuff) (pid : ℕ) → is_neg (u skb pid) ≡ false) us

-- Where every send succeeds, as many rounds as there are messages send the whole queue in order to
-- the user, leave it empty, give up one reference for each message, and leave the table and the
-- buffers alone.
pub kcapd_thread_drains :
    (us : List (SkBuff → ℕ → ℤ)) (queue : List SkBuff) (s : CapState)
    → AllTaken us
    → length us ≡ length queue
    → s.cap_skb_queue ≡ queue
    → (s' : CapState) × (kcapd_thread us s ≡ done s')
      × (s'.cap_skb_queue ≡ [])
      × (s'.cap_nlk_portid ≡ s.cap_nlk_portid)
      × (s'.sent ≡ s.sent ++ map (λ skb. (skb, s.cap_nlk_portid)) queue)
      × (s'.pool.skbs_live ≡ s.pool.skbs_live - length queue)
      × (s'.users ≡ s.users)
      × (in_use s'.pool ≡ in_use s.pool)
unfolding kcapd_thread round
kcapd_thread_drains [] [] s ok len eq =
    (s, refl, eq, refl, sym (append-nil s.sent), omega arith, refl, refl)
kcapd_thread_drains [] (q ∷ qs) s ok len eq = absurd (omega arith)
kcapd_thread_drains (u ∷ us) [] s ok len eq = absurd (omega arith)
kcapd_thread_drains (u ∷ us) (q ∷ qs) s ok len eq =
    let t = wake_backlog (record s { cap_skb_queue = qs }) in
    let next = mailed q (with_skbs (t.pool.skbs_live - 1) t) in
    let (s', runs, empty, user, all, refs, table, used) =
      kcapd_thread_drains us qs next ok.1 (omega arith) refl in
    (
      s',
      rw (eq, send-taken u q t (ok.0 q s.cap_nlk_portid)) runs,
      empty,
      user,
      all
          ∙ append_assoc s.sent ((q, s.cap_nlk_portid) ∷ [])
              (map (λ skb. (skb, s.cap_nlk_portid)) qs),
      omega arith,
      table,
      used,
    )
