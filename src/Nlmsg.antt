-- ===== src/Nlmsg.antt =====
-- What the kernel's netlink layer hands to netlink/netlink.c and netctrl/netctrl.c, and the loop
-- over the messages of a buffer that both modules have.
-- A message in a buffer is reached through a pointer, which is abstract here: `Ptr`.
pub mod Walk
pub mod Samples
mod Tests
use modules.Common.{
  ℕ, zero, suc, ◌<◌, ◌≡◌, Bool, true, false, ◌||◌, Option, none, some, List, ℤ, pos, pos_part,
  is_nonzero, if◌then◌else◌,
}

-- struct nlmsghdr
pub record Nlmsghdr : Type 0 where
  pub nlmsg_len : ℕ
  pub nlmsg_type : ℕ
  pub nlmsg_flags : ℕ
  pub nlmsg_seq : ℕ
  pub nlmsg_pid : ℕ

-- A socket buffer with one netlink message: its length, the header and the payload.
pub record SkBuff : Type 0 where
  pub len : ℕ
  pub nlh : Nlmsghdr
  pub payload : List ℕ

-- A socket buffer with a packet, as a netfilter hook sees it: `len` and the bytes at `data`.
pub record Packet : Type 0 where
  pub len : ℕ
  pub bytes : List ℕ

-- The message allocators of the kernel, which may fail: a call gets its own pair of functions.
-- `nlmsg_put skb portid seq type len flags` is `none` where the buffer has no room.
pub record SkbApi : Type 0 where
  pub nlmsg_new : ℕ → Option SkBuff
  pub nlmsg_put : SkBuff → ℕ → ℕ → ℕ → ℕ → ℕ → Option SkBuff

-- Reading through a message pointer: the header, and the bytes from NLMSG_DATA on, whether or not
-- they still belong to the message. `wants_ack` is the test of NLM_F_ACK in the flags. Then the
-- kernel's `nlmsg_ok` and `nlmsg_next`, which gives the next pointer and the length that remains,
-- and that may be negative.
pub record NlmsgApi (Ptr : Type 0) : Type 0 where
  pub header : Ptr → Nlmsghdr
  pub nlmsg_data : Ptr → ℕ → ℕ
  pub wants_ack : Ptr → Bool
  pub nlmsg_ok : Ptr → ℤ → Bool
  pub nlmsg_next : Ptr → ℤ → Ptr × ℤ

-- What is documented of the pair: an acceptable message takes some of what remained.
pub record Progress {Ptr : Type 0} (api : NlmsgApi Ptr) : Type 0 where
  pub shrinks :
      (p : Ptr) (n : ℤ) → api.nlmsg_ok p n ≡ true → pos_part (api.nlmsg_next p n).1 < pos_part n

-- The loop `while (nlmsg_ok(nlh, len)) { err = handle(nlh); if (err || wants ack) ack; next }` over
-- the module's state, on fuel; `none` when the fuel ran out.
module _ {Ptr S : Type 0} (api : NlmsgApi Ptr) (receive_msg : Ptr → S → ℤ × S)
    (netlink_ack : Ptr → ℤ → S → S) where
  unfoldable pub receive_one : Ptr → S → S
  receive_one p s =
      let (err, s') = receive_msg p s in
      if is_nonzero err || api.wants_ack p then netlink_ack p err s' else s'

  unfoldable pub receive_loop : ℕ → Ptr → ℤ → S → Option S
  unfolding receive_one
  receive_loop zero p n s = none
  receive_loop (suc fuel) p n s =
      let (q, m) = api.nlmsg_next p n in
      let rest = receive_loop fuel q m (receive_one p s) in
      if api.nlmsg_ok p n then rest else some s
