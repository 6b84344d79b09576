-- ===== src/Capture/Hooks/Broadcast.antt =====
-- hook_func of netlink/netlink.c: which users get the packet.
use modules.Common.{
  ℕ, zero, suc, ◌+◌, ◌≡◌, refl, inl, inr, Bool, true, false, Option, none, some, List, [], ◌∷◌,
  ◌++◌, append_assoc, append-nil, arith, ◌==◌, ℤ, eq_ℤ, neg_econnrefused, take, drop, get_or,
  get_or-drop, drop-suc, length, if◌then◌else◌, Bool-cases, Option-cases, ap, sym, ◌∙◌,
}
use modules.Capture.Users.Count.{get_or-delete_all_user}
use modules.Nlmsg.{SkBuff, Packet, SkbApi}
use modules.Capture.Users.{UsrConf, max_tab_size, empty_entry, delete_all_user}
use modules.Capture.State.{CapState, nf_accept, nlmsg_done}
use modules.Capture.Hooks.{cap_make_reply, with_live, offer, offers, hook_func}

-- The message that the allocators make for a pid: a header by `nlmsg_put`, and the packet's bytes.
abbrev pub filled_reply : Packet → Option SkBuff → Option SkBuff
filled_reply pkt none = none
filled_reply pkt (some msg) = some (record msg { payload = take pkt.len pkt.bytes })

abbrev pub put_reply : SkbApi → Packet → ℕ → Option SkBuff → Option SkBuff
put_reply api pkt pid none = none
put_reply api pkt pid (some skb) = filled_reply pkt (api.nlmsg_put skb pid 0 nlmsg_done pkt.len 0)

abbrev pub reply_for : SkbApi → Packet → ℕ → Option SkBuff
reply_for api pkt pid = put_reply api pkt pid (api.nlmsg_new pkt.len)

abbrev pub made : Option SkBuff → ℕ
made none = 0
made (some skb) = 1

cap_make_reply_lem :
    (api : SkbApi) (pkt : Packet) (pid live : ℕ)
    → cap_make_reply api pid 0 nlmsg_done true false pkt.bytes pkt.len live
      ≡ (reply_for api pkt pid, live + made (reply_for api pkt pid))
unfolding cap_make_reply
cap_make_reply_lem api pkt pid live = elim (Option-cases (api.nlmsg_new pkt.len)) [
  | inl fails ↦ rw (fails) (ap (λ k. (none, k)) (omega arith))
  | inr (skb, makes) ↦ elim (Option-cases (api.nlmsg_put skb pid 0 nlmsg_done pkt.len 0)) [
    | inl small ↦ rw (makes, small) (ap (λ k. (none, k)) (omega arith))
    | inr (msg, puts) ↦ rw (makes, puts) refl
  ]
]

module _ (api : SkbApi) (netlink_unicast : SkBuff → ℕ → ℤ) (pkt : Packet) where
  abbrev refused : SkBuff → ℕ → Bool
  refused msg pid = eq_ℤ (netlink_unicast msg pid) neg_econnrefused

  -- The specification: each entry in use whose message can be made gets it, in the table's order,
  -- up to the first refused connection.
  abbrev pub recipients_of : ℕ → Option SkBuff → List (SkBuff × ℕ) → List (SkBuff × ℕ)
  recipients_of pid none rest = rest
  recipients_of pid (some msg) rest = (msg, pid) ∷ (if refused msg pid then [] else rest)

  pub recipients : List UsrConf → List (SkBuff × ℕ)
  recipients [] = []
  recipients (e ∷ es) =
      let rest = recipients es in
      if e.pid == 0 then rest else recipients_of e.pid (reply_for api pkt e.pid) rest

  abbrev pub is_refused_of : ℕ → Option SkBuff → Bool → Bool
  is_refused_of pid none rest = rest
  is_refused_of pid (some msg) rest = if refused msg pid then true else rest

  -- Whether a connection is refused on the way.
  pub is_refused : List UsrConf → Bool
  is_refused [] = false
  is_refused (e ∷ es) =
      let rest = is_refused es in
      if e.pid == 0 then rest else is_refused_of e.pid (reply_for api pkt e.pid) rest

  -- Over a table of zeros the loop does nothing.
  offers-zeros :
      (rounds i : ℕ) (s : CapState)
      → ((j : ℕ) → (get_or s.users.usrtab j empty_entry).pid ≡ 0)
      → offers api netlink_unicast pkt rounds i s ≡ s
  unfolding offers offer
  offers-zeros zero i s h = refl
  offers-zeros (suc rounds) i s h = rw (h i) (offers-zeros rounds (suc i) s h)

  record Broadcast (s : CapState) (es : List UsrConf) (s' : CapState) : Type 0 where
    sent : s'.sent ≡ s.sent ++ recipients es
    skbs : s'.pool.skbs_live ≡ s.pool.skbs_live
    users : s'.users ≡ (if is_refused es then delete_all_user s.users else s.users)

  offers-suc :
      (rounds i : ℕ) (s : CapState)
      → offers api netlink_unicast pkt (suc rounds) i s
        ≡ offers api netlink_unicast pkt rounds (suc i) (offer api netlink_unicast pkt i s)
  unfolding offers
  offers-suc rounds i s = refl

  offer-unused :
      (i : ℕ) (s : CapState) (pid : ℕ)
      → (get_or s.users.usrtab i empty_entry).pid ≡ pid
      → (pid == 0) ≡ true
      → offer api netlink_unicast pkt i s ≡ s
  unfolding offer
  offer-unused i s pid here unused = rw (here, unused)

  -- One round at an entry in use, by what becomes of the message.
  module _ (i : ℕ) (s : CapState) (pid : ℕ) (here : (get_or s.users.usrtab i empty_entry).pid ≡ pid)
      (used : (pid == 0) ≡ false) where
    offer-unmade : reply_for api pkt pid ≡ none → offer api netlink_unicast pkt i s ≡ s
    unfolding offer
    offer-unmade fails =
        rw (here, used, cap_make_reply_lem api pkt pid s.pool.skbs_live, fails)
          (ap (λ k. with_live k s) (omega arith))

    offer-accepted :
        (msg : SkBuff)
        → reply_for api pkt pid ≡ some msg
        → refused msg pid ≡ false
        → offer api netlink_unicast pkt i s ≡ record s { sent = s.sent ++ (msg, pid) ∷ [] }
    unfolding offer
    offer-accepted msg makes takes =
        rw (here, used, cap_make_reply_lem api pkt pid s.pool.skbs_live, makes, takes)
          (ap (λ k. record (with_live k s) { sent = s.sent ++ (msg, pid) ∷ [] }) (omega arith))

    offer-refused :
        (msg : SkBuff)
        → reply_for api pkt pid ≡ some msg
        → refused msg pid ≡ true
        → offer api netlink_unicast pkt i s
          ≡ record s { sent = s.sent ++ (msg, pid) ∷ []; users = delete_all_user s.users }
    unfolding offer
    offer-refused msg makes refuses =
        rw (here, used, cap_make_reply_lem api pkt pid s.pool.skbs_live, makes, refuses)
          (ap
            (λ k. record (with_live k s) {
              sent = s.sent ++ (msg, pid) ∷ [];
              users = delete_all_user s.users;
            })
            (omega arith))

  -- The round at an entry in use, and those after it.
  offers-used :
      (e : UsrConf) (es : List UsrConf) (i : ℕ) (s : CapState)
      → (get_or s.users.usrtab i empty_entry).pid ≡ e.pid
      → (e.pid == 0) ≡ false
      → ((s' : CapState)
          → s'.users ≡ s.users
          → Broadcast s' es (offers api netlink_unicast pkt (length es) (suc i) s'))
      → Broadcast s (e ∷ es) (offers api netlink_unicast pkt (suc (length es)) i s)
  unfolding recipients is_refused
  offers-used e es i s here used rest = elim (Option-cases (reply_for api pkt e.pid)) [
    | inl fails ↦
        let b = rest s refl in
        rw (offers-suc, offer-unmade i s e.pid here used fails)
          (record {
            sent = rw (used, fails) b.sent;
            skbs = b.skbs;
            users = rw (used, fails) b.users;
          })
    | inr (msg, makes) ↦ elim (Bool-cases (refused msg e.pid)) [
      | inl refuses ↦
          rw
            (
              offers-suc,
              offer-refused i s e.pid here used msg makes refuses,
              offers-zeros (length es) (suc i)
                  (record s { sent = s.sent ++ (msg, e.pid) ∷ []; users = delete_all_user s.users })
                  (get_or-delete_all_user s.users),
            )
            (record {
              sent = rw (used, makes, refuses) refl;
              skbs = refl;
              users = rw (used, makes, refuses) refl;
            })
      | inr takes ↦
          let b = rest (record s { sent = s.sent ++ (msg, e.pid) ∷ [] }) refl in
          rw (offers-suc, offer-accepted i s e.pid here used msg makes takes)
            (record {
              sent =
                  rw (used, makes, takes)
                    (b.sent ∙ append_assoc s.sent ((msg, e.pid) ∷ []) (recipients es));
              skbs = b.skbs;
              users = rw (used, makes, takes) b.users;
            })
    ]
  ]

  offers_lem :
      (es : List UsrConf) (i : ℕ) (s : CapState)
      → drop i s.users.usrtab ≡ es
      → Broadcast s es (offers api netlink_unicast pkt (length es) i s)
  unfolding offers offer recipients is_refused
  offers_lem [] i s h = record { sent = sym (append-nil s.sent); skbs = refl; users = refl }
  offers_lem (e ∷ es) i s h =
      let here = ap UsrConf.pid (get_or-drop s.users.usrtab i empty_entry e es h) in
      let next = drop-suc s.users.usrtab i e es h in
      elim (Bool-cases (e.pid == 0)) [
        | inl unused ↦
            let b = offers_lem es (suc i) s next in
            rw (offers-suc, offer-unused i s e.pid here unused)
              (record { sent = rw unused b.sent; skbs = b.skbs; users = rw unused b.users })
        | inr used ↦
            offers-used e es i s here used (λ s' same. offers_lem es (suc i) s' (rw same next))
      ]

  -- On a table of 32 entries `hook_func` accepts the packet, sends to exactly the recipients of
  -- the specification, in their order, keeps no skb, and clears the table exactly when a connection
  -- was refused.
  pub hook_func_lem :
      (s : CapState)
      → length s.users.usrtab ≡ max_tab_size
      → let (verdict, s') = hook_func api netlink_unicast pkt s in
        (verdict ≡ nf_accept)
        × (s'.sent ≡ s.sent ++ recipients s.users.usrtab)
        × (s'.pool.skbs_live ≡ s.pool.skbs_live)
        × (s'.users ≡ (if is_refused s.users.usrtab then delete_all_user s.users else s.users))
  unfolding hook_func
  hook_func_lem s size =
      let b = rw size at (offers_lem s.users.usrtab 0 s refl) in (refl, b.sent, b.skbs, b.users)
