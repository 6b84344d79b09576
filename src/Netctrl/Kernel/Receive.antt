-- ===== src/Netctrl/Kernel/Receive.antt =====
-- What netctrl/netctrl.c does with one message, and what it copies and keeps.
use modules.Common.{
  ℕ, zero, suc, ◌+◌, ◌^◌, ◌<◌, ◌≡◌, refl, ◌⊎◌, inl, inr, Bool, true, false, ◌||◌, Option, none,
  some, List, [], ◌∷◌, ◌++◌, ℤ, pos, neg_einval, neg_enomem, ◌==◌, drop, arith, Outcome, done, oops,
  ap, ap₂, ◌∙◌, Bool-cases, c_string, u16_at, u32_at,
}
use modules.Nlmsg.{Nlmsghdr}
use modules.Netctrl.Kernel.{
  Netctrl, Printed, NlmsgSizes, netctrl_auth_ip, netctrl_auth_port, netctrl_auth_id,
  netctrl_netlink_ok, handle_auth_ip, handle_auth_port, handle_auth_id, ip, port, id, switch_type,
  returned, process, netctrl_receive_msg, bytes_of, datalen,
}

pub bytes_of-append :
    (at : ℕ → ℕ) (i n m : ℕ) → bytes_of at i (n + m) ≡ bytes_of at i n ++ bytes_of at (i + n) m
unfolding bytes_of
bytes_of-append at i zero m = ap₂ (λ k j. bytes_of at j k) (omega arith) (omega arith)
bytes_of-append at i (suc n) m =
    let split : suc n + m ≡ suc (n + m) = omega arith in
    let shift : i + suc n ≡ suc i + n = omega arith in
    rw (split, shift) (ap (λ l. at i ∷ l) (bytes_of-append at (suc i) n m))

-- The three types that the module knows.
abbrev pub is_known : ℕ → Bool
is_known type = type == netctrl_auth_ip || type == netctrl_auth_port || type == netctrl_auth_id

-- What documents say of the two numbers.
pub record Documented (sizes : NlmsgSizes) : Type 0 where
  pub space : sizes.nlmsg_space_zero ≡ 16
  pub alignto : sizes.nlmsg_alignto ≡ 4

pub datalen_lem :
    (sizes : NlmsgSizes) (n : ℕ)
    → Documented sizes
    → n + 20 < 2 ^ 32
    → datalen sizes (n + 16) ≡ n + 4
unfolding datalen
datalen_lem sizes n d small = omega (arith, d)

-- For a message of `n` bytes of payload the module copies 4 bytes more: the payload, and the 4
-- bytes behind it, which are not of the message.
pub copies_too_much :
    (sizes : NlmsgSizes) (at : ℕ → ℕ) (n : ℕ)
    → Documented sizes
    → n + 20 < 2 ^ 32
    → bytes_of at 0 (datalen sizes (n + 16)) ≡ bytes_of at 0 n ++ bytes_of at n 4
copies_too_much sizes at n d small =
    rw (datalen_lem sizes n d small)
      (bytes_of-append at 0 n 4 ∙ ap (λ k. bytes_of at 0 n ++ bytes_of at k 4) (omega arith))

-- A state after an accepted message: its copy is kept, and at most one line was printed.
pub record Kept (n : ℕ) (s s' : Netctrl) : Type 0 where
  pub bytes : s'.bytes_live ≡ s.bytes_live + n
  pub acks : s'.acks ≡ s.acks
  pub log : (s'.log ≡ s.log) ⊎ ((line : Printed) × (s'.log ≡ s.log ++ line ∷ []))

abbrev Prints : Outcome (ℤ × Netctrl) → Netctrl → Type 0
Prints o s = (o ≡ oops) ⊎ ((err : ℤ) × (s' : Netctrl) × (o ≡ done (err, s')) × Kept 0 s s')

nothing-Kept : (s : Netctrl) → Kept 0 s s
nothing-Kept s = record { bytes = omega arith; acks = refl; log = inl refl }

line-Kept : (line : Printed) (s : Netctrl) → Kept 0 s (record s { log = s.log ++ line ∷ [] })
line-Kept line s = record { bytes = omega arith; acks = refl; log = inr (line, refl) }

handlers-Prints :
    (string : Option (List ℕ)) (number : Option ℕ) (s : Netctrl)
    → Prints (handle_auth_ip string s) s
      × Prints (handle_auth_port number s) s
      × Prints (handle_auth_id number s) s
unfolding handle_auth_ip handle_auth_port handle_auth_id
handlers-Prints none none s = (inl refl, inl refl, inl refl)
handlers-Prints (some t) none s = (inr (_, _, refl, line-Kept (ip t) s), inl refl, inl refl)
handlers-Prints none (some n) s =
    (inl refl, inr (_, _, refl, line-Kept (port n) s), inr (_, _, refl, line-Kept (id n) s))
handlers-Prints (some t) (some n) s = (
  inr (_, _, refl, line-Kept (ip t) s),
  inr (_, _, refl, line-Kept (port n) s),
  inr (_, _, refl, line-Kept (id n) s),
)

switch_type-Prints :
    (buf : List ℕ) (type : Option ℕ) (s : Netctrl) → Prints (switch_type buf type s) s
unfolding switch_type
switch_type-Prints buf none s = inl refl
switch_type-Prints buf (some type) s =
    let (as_ip, as_port, as_id) = handlers-Prints (c_string (drop 4 buf)) (u32_at (drop 4 buf)) s in
    elim (Bool-cases (type == netctrl_auth_ip)) [
      | inl is_ip ↦ rw is_ip as_ip
      | inr not_ip ↦ elim (Bool-cases (type == netctrl_auth_port)) [
        | inl is_port ↦ rw (not_ip, is_port) as_port
        | inr not_port ↦ elim (Bool-cases (type == netctrl_auth_id)) [
          | inl is_id ↦ rw (not_ip, not_port, is_id) as_id
          | inr not_id ↦ rw (not_ip, not_port, not_id) (inr (_, _, refl, nothing-Kept s))
        ]
      ]
    ]

process-Kept :
    (sizes : NlmsgSizes) (nlh : Nlmsghdr) (at : ℕ → ℕ) (s : Netctrl)
    → let o = process sizes true nlh at s in
      (o ≡ oops)
      ⊎ ((s' : Netctrl) × (o ≡ done (pos 0, s')) × Kept (datalen sizes nlh.nlmsg_len) s s')
unfolding process returned
process-Kept sizes nlh at s =
    let n = datalen sizes nlh.nlmsg_len in
    let buf = bytes_of at 0 n in
    elim (switch_type-Prints buf (u16_at buf) (record s { bytes_live = s.bytes_live + n })) [
      | inl faults ↦ inl (rw faults)
      | inr (err, s', runs, k) ↦
          inr (s', rw runs, record { bytes = omega (arith, k.bytes); acks = k.acks; log = k.log })
    ]

-- A message of an unknown type is refused, one without memory too, and any other one keeps the
-- answers that were given.
pub netctrl_receive_msg-Kept :
    (sizes : NlmsgSizes) (kzalloc_ok : Bool) (nlh : Nlmsghdr) (at : ℕ → ℕ) (s : Netctrl)
    → let o = netctrl_receive_msg sizes kzalloc_ok nlh at s in
      ((is_known nlh.nlmsg_type ≡ false) × (o ≡ done (neg_einval, s)))
      ⊎ ((is_known nlh.nlmsg_type ≡ true) × (kzalloc_ok ≡ false) × (o ≡ done (neg_enomem, s)))
      ⊎ ((is_known nlh.nlmsg_type ≡ true)
          × (kzalloc_ok ≡ true)
          × ((o ≡ oops)
              ⊎ ((s' : Netctrl) × (o ≡ done (pos 0, s'))
                  × Kept (datalen sizes nlh.nlmsg_len) s s')))
unfolding netctrl_receive_msg
netctrl_receive_msg-Kept sizes kzalloc_ok nlh at s = elim (Bool-cases (is_known nlh.nlmsg_type)) [
  | inr unknown ↦ inl (unknown, ground (arith, unknown))
  | inl known ↦
      let passes : netctrl_netlink_ok nlh.nlmsg_type ≡ pos 0 = ground (arith, known) in
      elim (Bool-cases kzalloc_ok) [
        | inr fails ↦ inr (inl (known, fails, rw (passes, fails)))
        | inl allocates ↦
            inr (inr (known, allocates, rw (passes, allocates) (process-Kept sizes nlh at s)))
      ]
]
