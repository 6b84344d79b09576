-- ===== src/Netctrl/Roundtrip.antt =====
-- What netctrl/app.c sends, as netctrl/netctrl.c reads it.
use modules.Common.{
  ℕ, ◌+◌, ◌^◌, ◌≤◌, ◌<◌, ◌≡◌, ◌≢◌, refl, true, false, some, List, [], ◌∷◌, ◌++◌, pos, is_neg, take,
  take-all, length, arith, All, done, oops, strncpy, length-strncpy, c_string, c_string-strncpy,
  c_string-strncpy_full, c_string-append_none, c_string-none, le16, le32, u16_at, u32_at,
  u32_at-le32,
}
use modules.Nlmsg.{Nlmsghdr}
use modules.Netctrl.Kernel.{
  Netctrl, Printed, NlmsgSizes, netctrl_auth_ip, netctrl_auth_port, netctrl_auth_id,
  netctrl_receive_msg, bytes_of,
}
use modules.Netctrl.Kernel.Receive.{Documented, datalen_lem, copies_too_much}
use modules.Netctrl.App.{
  Syscmd, int, str, Sockets, msg_buf, send_msg_to_kernel, auth_kernel_config_cmd, syscmd_proc,
}

-- What a user can ask for.
pub data Request : Type 0 where
  port id : ℕ → Request
  ip : List ℕ → Request

-- An int is a 32-bit pattern. An address has no NUL in it and leaves room for one in 32 bytes.
abbrev pub IsValid : Request → Type 0
IsValid (port v) = v < 2 ^ 32
IsValid (id v) = v < 2 ^ 32
IsValid (ip s) = All (λ c. c ≢ 0) s × (length s < 32)

-- The command of the program, the bytes that it sends, and the line that the module prints.
abbrev pub command : Request → Syscmd
command (port v) = record { type = netctrl_auth_port; value = int v }
command (id v) = record { type = netctrl_auth_id; value = int v }
command (ip s) = record { type = netctrl_auth_ip; value = str s }

abbrev pub data_of : Request → List ℕ
data_of (port v) = le32 v
data_of (id v) = le32 v
data_of (ip s) = strncpy s 32

abbrev pub size_of : Request → ℕ
size_of (port v) = 4
size_of (id v) = 4
size_of (ip s) = 32

abbrev pub wire : Request → List ℕ
wire r = msg_buf (command r).type (data_of r) (size_of r)

abbrev pub line : Request → Printed
line (port v) = Printed.port v
line (id v) = Printed.id v
line (ip s) = Printed.ip s

abbrev pub head_of : (getpid : ℕ) → Request → Nlmsghdr
head_of getpid r = record {
  nlmsg_len = 4 + size_of r + 16;
  nlmsg_type = (command r).type;
  nlmsg_flags = 0;
  nlmsg_seq = 0;
  nlmsg_pid = getpid;
}

-- The calls of the program that send a message succeed.
pub record Connected (env : Sockets) : Type 0 where
  pub socket : env.socket_ok ≡ true
  pub bind : is_neg env.bind_result ≡ false
  pub calloc : env.calloc_ok ≡ true

-- The program sends one message for the request, of the request's type and with its bytes.
sends :
    (nlmsg_length : ℕ → ℕ) (env : Sockets) (r : Request)
    → ((n : ℕ) → nlmsg_length n ≡ n + 16)
    → Connected env
    → syscmd_proc nlmsg_length env true (command r)
      ≡ done (pos 0, some (head_of env.getpid r, wire r))
unfolding syscmd_proc auth_kernel_config_cmd send_msg_to_kernel le16 le32
sends nlmsg_length env (port v) lens c = rw (c.socket, c.bind, c.calloc, lens 8) refl
sends nlmsg_length env (id v) lens c = rw (c.socket, c.bind, c.calloc, lens 8) refl
sends nlmsg_length env (ip s) lens c =
    let whole : take 32 (strncpy s 32) ≡ strncpy s 32 =
      take-all 32 (strncpy s 32) (omega (arith, length-strncpy s 32)) in
    rw (c.socket, c.bind, c.calloc, lens 36, whole, whole) refl

int_back : (v : ℕ) (rest : List ℕ) → v < 2 ^ 32 → u32_at (take 4 (le32 v) ++ rest) ≡ some v
unfolding le32
int_back v rest h = u32_at-le32 v rest h

address_back :
    (s rest : List ℕ)
    → All (λ c. c ≢ 0) s
    → length s < 32
    → c_string (take 32 (strncpy s 32) ++ rest) ≡ some s
address_back s rest h k =
    rw (take-all 32 (strncpy s 32) (omega (arith, length-strncpy s 32)))
      (c_string-strncpy s 32 rest h k)

-- The module, on a message whose payload is the bytes of the request, prints the request.
reads :
    (sizes : NlmsgSizes) (getpid : ℕ) (r : Request) (at : ℕ → ℕ) (s : Netctrl)
    → Documented sizes
    → IsValid r
    → bytes_of at 0 (4 + size_of r) ≡ wire r
    → netctrl_receive_msg sizes true (head_of getpid r) at s
      ≡ done (
        pos 0,
        record s { bytes_live = s.bytes_live + (size_of r + 8); log = s.log ++ line r ∷ [] },
      )
unfolding netctrl_receive_msg u16_at le16
reads sizes getpid (port v) at s d ok bytes =
    rw
      (
        copies_too_much sizes at 8 d (omega arith),
        datalen_lem sizes 8 d (omega arith),
        bytes,
        int_back v (bytes_of at 8 4) ok,
      )
      refl
reads sizes getpid (id v) at s d ok bytes =
    rw
      (
        copies_too_much sizes at 8 d (omega arith),
        datalen_lem sizes 8 d (omega arith),
        bytes,
        int_back v (bytes_of at 8 4) ok,
      )
      refl
reads sizes getpid (ip t) at s d ok bytes =
    rw
      (
        copies_too_much sizes at 36 d (omega arith),
        datalen_lem sizes 36 d (omega arith),
        bytes,
        address_back t (bytes_of at 36 4) ok.0 ok.1,
      )
      refl

-- A valid request to the program, with sockets that work, is sent as one message; the module, given
-- that message, returns 0 and prints the same request: the address or the number that was asked for.
-- Its copy of the message, 4 bytes longer than the payload, stays allocated.
pub request_roundtrip :
    (nlmsg_length : ℕ → ℕ) (env : Sockets) (sizes : NlmsgSizes) (r : Request) (at : ℕ → ℕ)
    (s : Netctrl)
    → ((n : ℕ) → nlmsg_length n ≡ n + 16)
    → Documented sizes
    → Connected env
    → IsValid r
    → bytes_of at 0 (4 + size_of r) ≡ wire r
    → (syscmd_proc nlmsg_length env true (command r)
        ≡ done (pos 0, some (head_of env.getpid r, wire r)))
      × (netctrl_receive_msg sizes true (head_of env.getpid r) at s
          ≡ done (
            pos 0,
            record s { bytes_live = s.bytes_live + (size_of r + 8); log = s.log ++ line r ∷ [] },
          ))
request_roundtrip nlmsg_length env sizes r at s lens d c ok bytes =
    (sends nlmsg_length env r lens c, reads sizes env.getpid r at s d ok bytes)

-- An address of 32 bytes or more is sent with no NUL. If none of the 4 bytes behind the message is
-- a NUL, the module prints past the end of its copy.
pub long_address_overruns :
    (sizes : NlmsgSizes) (getpid : ℕ) (t : List ℕ) (at : ℕ → ℕ) (s : Netctrl)
    → Documented sizes
    → All (λ c. c ≢ 0) t
    → 32 ≤ length t
    → bytes_of at 0 36 ≡ wire (ip t)
    → All (λ c. c ≢ 0) (bytes_of at 36 4)
    → netctrl_receive_msg sizes true (head_of getpid (ip t)) at s ≡ oops
unfolding netctrl_receive_msg u16_at le16
long_address_overruns sizes getpid t at s d h long bytes behind =
    rw
      (
        copies_too_much sizes at 36 d (omega arith),
        datalen_lem sizes 36 d (omega arith),
        bytes,
        take-all 32 (strncpy t 32) (omega (arith, length-strncpy t 32)),
        c_string-append_none (strncpy t 32) (bytes_of at 36 4) (c_string-strncpy_full t 32 h long)
            (c_string-none (bytes_of at 36 4) behind),
      )
      refl
