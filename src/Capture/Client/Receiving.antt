-- ===== src/Capture/Client/Receiving.antt =====
-- recv_from_kernel of netlink/user_client.c: what it shows of a message of the module.
use modules.Common.{
  ℕ, zero, suc, ◌+◌, ◌-◌, ◌%◌, ◌^◌, ◌≤◌, ◌≡◌, refl, ap, ap₂, ◌∙◌, Option, none, some, List, [], ◌∷◌,
  ◌++◌, take, drop, replicate, length, ltb, if◌then◌else◌, append_assoc, take-all, length-append,
  drop-append, arith,
}
use modules.Capture.Client.{max_payload}

-- The number that is printed, as a pattern of 32 bits, and the twelve bytes.
pub record Shown : Type 0 where
  pub len : ℕ
  pub payload : List ℕ

-- What `recvmsg` leaves in `nlh`, which was zeroed: the first bytes of the message, up to the length
-- in `iov`; nothing when it fails.
abbrev pub filled : (space : ℕ) → Option (List ℕ) → List ℕ
filled space none = replicate space 0
filled space (some message) = take space message ++ replicate (space - length message) 0

-- The result of `recvmsg`, -1 for a failure, in 32 bits.
abbrev pub recv_len : (space : ℕ) → Option (List ℕ) → ℕ
recv_len space none = 2 ^ 32 - 1
recv_len space (some message) = if ltb space (length message) then space else length message

-- `hdrlen` is the size of struct nlmsghdr, at whose end NLMSG_DATA stands. What is shown, and `nlh`.
unfoldable pub recv_from_kernel :
    (nlmsg_space : ℕ → ℕ) → (hdrlen : ℕ) → (recvmsg : Option (List ℕ)) → Shown × List ℕ
recv_from_kernel nlmsg_space hdrlen recvmsg =
    let nlh = filled (nlmsg_space max_payload) recvmsg in
    (
      record {
        len = (recv_len (nlmsg_space max_payload) recvmsg + (2 ^ 32 - hdrlen)) % 2 ^ 32;
        payload = take 12 (drop hdrlen nlh);
      },
      nlh,
    )

-- As many zeros as are needed behind some bytes.
pub take-zeros :
    (n a b : ℕ) (xs : List ℕ)
    → n ≤ length xs + a
    → n ≤ length xs + b
    → take n (xs ++ replicate a 0) ≡ take n (xs ++ replicate b 0)
take-zeros zero a b xs h k = refl
take-zeros (suc n) a b (x ∷ xs) h k =
    ap (λ ys. x ∷ ys) (take-zeros n a b xs (omega (arith, h)) (omega (arith, k)))
take-zeros (suc n) zero b [] h k = absurd (omega (arith, h))
take-zeros (suc n) (suc a) zero [] h k = absurd (omega (arith, k))
take-zeros (suc n) (suc a) (suc b) [] h k =
    ap (λ ys. 0 ∷ ys) (take-zeros n a b [] (omega (arith, h)) (omega (arith, k)))

-- A message that fits is shown with the length of its payload and the first twelve bytes of it, with
-- zeros in the place of those that it has not.
pub recv_from_kernel_lem :
    (nlmsg_space : ℕ → ℕ) (hdrlen : ℕ) (header bytes : List ℕ)
    → length header ≡ hdrlen
    → hdrlen + 12 ≤ nlmsg_space max_payload
    → hdrlen + length bytes ≤ nlmsg_space max_payload
    → nlmsg_space max_payload ≤ 2 ^ 31
    → (recv_from_kernel nlmsg_space hdrlen (some (header ++ bytes))).0
      ≡ record { len = length bytes; payload = take 12 (bytes ++ replicate 12 0) }
unfolding recv_from_kernel
recv_from_kernel_lem nlmsg_space hdrlen header bytes size room fits small =
    let space = nlmsg_space max_payload in
    let long = length-append header bytes in
    let rest = space - length (header ++ bytes) in
    ap₂ {C = Shown} (λ n xs. record { len = n; payload = xs })
      (ground (arith, long, size, fits, small))
      (ap (λ xs. take 12 (drop hdrlen (xs ++ replicate rest 0)))
          (take-all space (header ++ bytes) (omega (arith, long, size, fits)))
        ∙ ap (λ xs. take 12 (drop hdrlen xs)) (append_assoc header bytes (replicate rest 0))
        ∙ ap (take 12) (drop-append hdrlen header (bytes ++ replicate rest 0) size)
        ∙ take-zeros 12 rest 12 bytes (omega (arith, long, size, room, fits)) (omega arith))
