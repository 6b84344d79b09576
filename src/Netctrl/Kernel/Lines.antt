-- ===== src/Netctrl/Kernel/Lines.antt =====
-- What netctrl/netctrl.c prints for the bytes that it copied, and which bytes it cannot read.
use modules.Common.{
  ℕ, zero, suc, ◌+◌, ◌*◌, ◌<◌, ◌≡◌, ◌≢◌, refl, ap, ◌∙◌, ◌⊎◌, inl, inr, Bool, true, false, none,
  some, List, [], ◌∷◌, ◌++◌, ℤ, pos, neg_einval, neg_enomem, ◌==◌, drop, length, All, arith,
  Outcome, done, oops, Bool-cases, c_string, u16_at, u32_at, append-nil, sym,
}
use modules.Nlmsg.{Nlmsghdr}
use modules.Netctrl.Kernel.{
  Netctrl, Printed, NlmsgSizes, netctrl_auth_ip, netctrl_auth_port, netctrl_auth_id,
  netctrl_netlink_ok, handle_auth_ip, handle_auth_port, handle_auth_id, ip, port, id, switch_type,
  returned, process, netctrl_receive_msg, bytes_of, datalen,
}
use modules.Netctrl.Kernel.Receive.{is_known}

-- The first two bytes are the type, the lower one first.
abbrev pub HasType : List ℕ → ℕ → Type 0
HasType buf type = (lo hi : ℕ) × (rest : List ℕ) × (buf ≡ lo ∷ hi ∷ rest) × (lo + 256 * hi ≡ type)

-- What is printed for a copy: the text behind the first 4 bytes up to its NUL, or the number there,
-- lowest byte first; nothing for another type.
pub data Prints (buf : List ℕ) : List Printed → Type 0 where
  an_address :
      (text rest : List ℕ)
      → HasType buf 1
      → drop 4 buf ≡ text ++ 0 ∷ rest
      → All (λ c. c ≢ 0) text
      → Prints buf (ip text ∷ [])
  a_port :
      (a b c d : ℕ) (rest : List ℕ)
      → HasType buf 2
      → drop 4 buf ≡ a ∷ b ∷ c ∷ d ∷ rest
      → Prints buf (port (a + 256 * b + 65536 * c + 16777216 * d) ∷ [])
  an_id :
      (a b c d : ℕ) (rest : List ℕ)
      → HasType buf 3
      → drop 4 buf ≡ a ∷ b ∷ c ∷ d ∷ rest
      → Prints buf (id (a + 256 * b + 65536 * c + 16777216 * d) ∷ [])
  another : (type : ℕ) → HasType buf type → type ≢ 1 → type ≢ 2 → type ≢ 3 → Prints buf []

-- What cannot be read in a copy: the type, the end of the text, or the number.
pub data IsCut (buf : List ℕ) : Type 0 where
  no_type : length buf < 2 → IsCut buf
  no_end : HasType buf 1 → All (λ c. c ≢ 0) (drop 4 buf) → IsCut buf
  no_number : HasType buf 2 ⊎ HasType buf 3 → length (drop 4 buf) < 4 → IsCut buf

string_lem :
    (xs : List ℕ)
    → ((c_string xs ≡ none) × All (λ c. c ≢ 0) xs)
      ⊎ ((text rest : List ℕ) × (c_string xs ≡ some text)
          × (xs ≡ text ++ 0 ∷ rest)
          × All (λ c. c ≢ 0) text)
unfolding c_string
string_lem [] = inl (refl, tt)
string_lem (zero ∷ xs) = inr ([], xs, refl, refl, tt)
string_lem (suc c ∷ xs) =
    let differs : (suc c == 0) ≡ false = grind arith in
    elim (string_lem xs) [
      | inl (missing, all) ↦ inl (rw (differs, missing) refl, (omega arith, all))
      | inr (text, rest, found, is, all) ↦
          inr (
            suc c ∷ text,
            rest,
            rw (differs, found) refl,
            ap (λ l. suc c ∷ l) is,
            (omega arith, all),
          )
    ]

number_lem :
    (xs : List ℕ)
    → ((u32_at xs ≡ none) × (length xs < 4))
      ⊎ ((a b c d : ℕ) × (rest : List ℕ) × (xs ≡ a ∷ b ∷ c ∷ d ∷ rest)
          × (u32_at xs ≡ some (a + 256 * b + 65536 * c + 16777216 * d)))
unfolding u32_at
number_lem [] = inl (refl, omega arith)
number_lem (a ∷ []) = inl (refl, omega arith)
number_lem (a ∷ b ∷ []) = inl (refl, omega arith)
number_lem (a ∷ b ∷ c ∷ []) = inl (refl, omega arith)
number_lem (a ∷ b ∷ c ∷ d ∷ rest) = inr (a, b, c, d, rest, refl, refl)

-- The result of the switch: a fault, or the lines.
abbrev Handled : List ℕ → Netctrl → Outcome (ℤ × Netctrl) → Type 0
Handled buf s o =
    ((o ≡ oops) × IsCut buf)
    ⊎ ((lines : List Printed) × Prints buf lines
        × (o ≡ done (pos 0, record s { log = s.log ++ lines })))

address-Handled :
    (buf : List ℕ) (s : Netctrl)
    → HasType buf 1
    → Handled buf s (handle_auth_ip (c_string (drop 4 buf)) s)
unfolding handle_auth_ip
address-Handled buf s t = elim (string_lem (drop 4 buf)) [
  | inl (missing, all) ↦ inl (rw missing refl, no_end t all)
  | inr (text, rest, found, is, all) ↦
      inr (ip text ∷ [], an_address text rest t is all, rw found refl)
]

port-Handled :
    (buf : List ℕ) (s : Netctrl)
    → HasType buf 2
    → Handled buf s (handle_auth_port (u32_at (drop 4 buf)) s)
unfolding handle_auth_port
port-Handled buf s t = elim (number_lem (drop 4 buf)) [
  | inl (missing, short) ↦ inl (rw missing refl, no_number (inl t) short)
  | inr (a, b, c, d, rest, is, found) ↦ inr (_, a_port a b c d rest t is, rw found refl)
]

id-Handled :
    (buf : List ℕ) (s : Netctrl)
    → HasType buf 3
    → Handled buf s (handle_auth_id (u32_at (drop 4 buf)) s)
unfolding handle_auth_id
id-Handled buf s t = elim (number_lem (drop 4 buf)) [
  | inl (missing, short) ↦ inl (rw missing refl, no_number (inr t) short)
  | inr (a, b, c, d, rest, is, found) ↦ inr (_, an_id a b c d rest t is, rw found refl)
]

as_type : (buf : List ℕ) {type k : ℕ} → type ≡ k → HasType buf type → HasType buf k
as_type buf is (lo, hi, rest, starts, of) = (lo, hi, rest, starts, of ∙ is)

typed-Handled :
    (buf : List ℕ) (type : ℕ) (s : Netctrl)
    → HasType buf type
    → Handled buf s (switch_type buf (some type) s)
unfolding switch_type
typed-Handled buf type s t = elim (Bool-cases (type == netctrl_auth_ip)) [
  | inl is_ip ↦ rw is_ip (address-Handled buf s (as_type buf (grind (arith, is_ip)) t))
  | inr not_ip ↦ elim (Bool-cases (type == netctrl_auth_port)) [
    | inl is_port ↦
        rw (not_ip, is_port) (port-Handled buf s (as_type buf (grind (arith, is_port)) t))
    | inr not_port ↦ elim (Bool-cases (type == netctrl_auth_id)) [
      | inl is_id ↦
          rw (not_ip, not_port, is_id) (id-Handled buf s (as_type buf (grind (arith, is_id)) t))
      | inr not_id ↦ inr (
        [],
        another type t (grind arith) (grind arith) (grind arith),
        rw (not_ip, not_port, not_id)
            (ap (λ l. done (pos 0, record s { log = l })) (sym (append-nil s.log))),
      )
    ]
  ]
]

switch_type-Handled : (buf : List ℕ) (s : Netctrl) → Handled buf s (switch_type buf (u16_at buf) s)
unfolding switch_type u16_at
switch_type-Handled [] s = inl (refl, no_type (omega arith))
switch_type-Handled (x ∷ []) s = inl (refl, no_type (omega arith))
switch_type-Handled (lo ∷ hi ∷ rest) s =
    typed-Handled (lo ∷ hi ∷ rest) (lo + 256 * hi) s (lo, hi, rest, refl, refl)

process-Handled :
    (sizes : NlmsgSizes) (nlh : Nlmsghdr) (at : ℕ → ℕ) (s : Netctrl)
    → let n = datalen sizes nlh.nlmsg_len in
      Handled
        (bytes_of at 0 n)
        (record s { bytes_live = s.bytes_live + n })
        (process sizes true nlh at s)
unfolding process returned
process-Handled sizes nlh at s =
    let n = datalen sizes nlh.nlmsg_len in
    let buf = bytes_of at 0 n in
    elim (switch_type-Handled buf (record s { bytes_live = s.bytes_live + n })) [
      | inl (faults, cut) ↦ inl (rw faults refl, cut)
      | inr (lines, prints, runs) ↦ inr (lines, prints, rw runs refl)
    ]

-- Every path of `netctrl_receive_msg`: an unknown type in the header is refused with -EINVAL, a
-- failed allocation gives -ENOMEM, both with nothing changed. Otherwise it copies the bytes that
-- `datalen` counts, and it faults only on a copy in which the type, the end of the text or the
-- number behind the first 4 bytes cannot be read; if it does not fault it returns 0, keeps the
-- whole copy for good, and has printed what the type of the copy asks for: the text up to its NUL,
-- the number, lowest byte first, or for another type nothing.
pub netctrl_receive_msg_lem :
    (sizes : NlmsgSizes) (kzalloc_ok : Bool) (nlh : Nlmsghdr) (at : ℕ → ℕ) (s : Netctrl)
    → let o = netctrl_receive_msg sizes kzalloc_ok nlh at s in
      let n = datalen sizes nlh.nlmsg_len in
      let buf = bytes_of at 0 n in
      ((is_known nlh.nlmsg_type ≡ false) × (o ≡ done (neg_einval, s)))
      ⊎ ((is_known nlh.nlmsg_type ≡ true) × (kzalloc_ok ≡ false) × (o ≡ done (neg_enomem, s)))
      ⊎ ((is_known nlh.nlmsg_type ≡ true)
          × (kzalloc_ok ≡ true)
          × (((o ≡ oops) × IsCut buf)
              ⊎ ((lines : List Printed) × Prints buf lines
                  × (o
                      ≡ done (
                        pos 0,
                        record s { bytes_live = s.bytes_live + n; log = s.log ++ lines },
                      )))))
unfolding netctrl_receive_msg
netctrl_receive_msg_lem sizes kzalloc_ok nlh at s = elim (Bool-cases (is_known nlh.nlmsg_type)) [
  | inr unknown ↦ inl (unknown, ground (arith, unknown))
  | inl known ↦
      let passes : netctrl_netlink_ok nlh.nlmsg_type ≡ pos 0 = ground (arith, known) in
      elim (Bool-cases kzalloc_ok) [
        | inr fails ↦ inr (inl (known, fails, rw (passes, fails)))
        | inl allocates ↦
            inr (inr (known, allocates, rw (passes, allocates) (process-Handled sizes nlh at s)))
      ]
]
