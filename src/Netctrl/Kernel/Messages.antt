-- ===== src/Netctrl/Kernel/Messages.antt =====
-- A whole buffer of messages in netctrl/netctrl.c: which are answered, and how.
use modules.Common.{
  ℕ, suc, ◌≡◌, refl, ◌⊎◌, inl, inr, Bool, true, some, List, [], ◌∷◌, ◌++◌, append_assoc, append-nil,
  ℤ, pos, neg_einval, if◌then◌else◌, arith, sym, ap, ◌∙◌, Outcome, done, oops, Bool-cases,
}
use modules.Nlmsg.{Nlmsghdr, NlmsgApi, Progress, receive_one}
use modules.Nlmsg.Walk.{messages, each, receive_loop_lem}
use modules.Netctrl.Kernel.{Netctrl, NlmsgSizes, receive_at, ack_at, netctrl_receive_skb}
use modules.Netctrl.Kernel.Receive.{is_known, netctrl_receive_msg-Kept}

-- The answer that a message gets: the error for an unknown type, and else only if it wants one.
abbrev pub answer : Nlmsghdr → Bool → List (Nlmsghdr × ℤ)
answer nlh wants =
    if is_known nlh.nlmsg_type
    then if wants then (nlh, pos 0) ∷ [] else []
    else (nlh, neg_einval) ∷ []

module _ {Ptr : Type 0} (api : NlmsgApi Ptr) (sizes : NlmsgSizes) where
  abbrev step : Ptr → Outcome Netctrl → Outcome Netctrl
  step p o = receive_one api (receive_at api sizes true) (ack_at api sizes true) p o

  pub answers : List Ptr → List (Nlmsghdr × ℤ)
  answers [] = []
  answers (p ∷ ps) = answer (api.header p) (api.wants_ack p) ++ answers ps

  step-oops : (p : Ptr) → step p oops ≡ oops
  unfolding receive_one
  step-oops p = ground arith

  step-done :
      (p : Ptr) (s : Netctrl)
      → (step p (done s) ≡ oops)
        ⊎ ((s' : Netctrl) × (step p (done s) ≡ done s')
            × (s'.acks ≡ s.acks ++ answer (api.header p) (api.wants_ack p)))
  unfolding receive_one
  step-done p s =
      let nlh = api.header p in
      elim (netctrl_receive_msg-Kept sizes true nlh (api.nlmsg_data p) s) [
        | inl (unknown, gives) ↦
            inr
              (record s { acks = s.acks ++ (nlh, neg_einval) ∷ [] }, rw gives refl, rw unknown refl)
        | inr (inl (known, fails, gives)) ↦ absurd (cc)
        | inr (inr (known, allocates, inl faults)) ↦ inl (ground (arith, faults))
        | inr (inr (known, allocates, inr (s', gives, k))) ↦ elim (Bool-cases (api.wants_ack p)) [
          | inl wants ↦ inr (
            record s' { acks = s'.acks ++ (nlh, pos 0) ∷ [] },
            rw (gives, wants) refl,
            rw (known, wants) (ap (λ l. l ++ (nlh, pos 0) ∷ []) k.acks),
          )
          | inr quiet ↦
              inr (s', rw (gives, quiet) refl, rw (known, quiet) (k.acks ∙ sym (append-nil s.acks)))
        ]
      ]

  each-oops : (ps : List Ptr) → each step ps oops ≡ oops
  unfolding each
  each-oops [] = refl
  each-oops (p ∷ ps) = rw (step-oops p) (each-oops ps)

  each-done :
      (ps : List Ptr) (s : Netctrl)
      → (each step ps (done s) ≡ oops)
        ⊎ ((s' : Netctrl) × (each step ps (done s) ≡ done s') × (s'.acks ≡ s.acks ++ answers ps))
  unfolding each answers
  each-done [] s = inr (s, refl, sym (append-nil s.acks))
  each-done (p ∷ ps) s = elim (step-done p s) [
    | inl faults ↦ inl (rw faults (each-oops ps))
    | inr (t, runs, one) ↦ elim (each-done ps t) [
      | inl faults ↦ inl (rw runs faults)
      | inr (s', ends, rest) ↦ inr (
        s',
        rw runs ends,
        rest
            ∙ ap (λ l. l ++ answers ps) one
            ∙ append_assoc s.acks (answer (api.header p) (api.wants_ack p)) (answers ps),
      )
    ]
  ]

  -- If the kernel's `nlmsg_next` makes progress and memory can be had, `netctrl_receive_skb` ends on
  -- every buffer; it ends in a fault, or has answered each message in order: by -EINVAL if its type
  -- is unknown, and otherwise only if it wants an answer.
  pub netctrl_receive_skb_lem :
      (nlh : Ptr) (len : ℕ) (s : Netctrl)
      → Progress api
      → (o : Outcome Netctrl) × (netctrl_receive_skb api sizes true nlh len s ≡ some o)
        × ((o ≡ oops)
            ⊎ ((s' : Netctrl) × (o ≡ done s')
                × (s'.acks ≡ s.acks ++ answers (messages api (suc len) nlh (pos len)))))
  unfolding netctrl_receive_skb
  netctrl_receive_skb_lem nlh len s law =
      let ps = messages api (suc len) nlh (pos len) in
      (
        each step ps (done s),
        receive_loop_lem api (receive_at api sizes true) (ack_at api sizes true) law (suc len) nlh
            (pos len) (done s) (omega arith),
        each-done ps s,
      )
