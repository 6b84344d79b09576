-- ===== src/Nlmsg/Walk.antt =====
-- The loop over the messages of a buffer, in netlink/netlink.c and netctrl/netctrl.c.
use modules.Common.{
  ℕ, zero, suc, ◌<◌, ◌≡◌, some, List, [], ◌∷◌, ℤ, pos_part, arith, if◌then◌else◌, Bool-cases, inl,
  inr,
}
use modules.Nlmsg.{NlmsgApi, Progress, receive_one, receive_loop}

module _ {Ptr : Type 0} (api : NlmsgApi Ptr) where
  -- The messages of a buffer in order, read with no handler.
  unfoldable pub messages : ℕ → Ptr → ℤ → List Ptr
  messages zero p n = []
  messages (suc fuel) p n =
      let (q, m) = api.nlmsg_next p n in
      let rest = messages fuel q m in if api.nlmsg_ok p n then p ∷ rest else []

-- A step for each element of a list, from the first on.
unfoldable pub each : {A S : Type 0} → (A → S → S) → List A → S → S
each f [] s = s
each f (x ∷ xs) s = each f xs (f x s)

-- With fuel above the length that remains the loop ends, in the state that one step for each
-- message of the buffer leads to.
pub receive_loop_lem :
    {Ptr S : Type 0} (api : NlmsgApi Ptr) (receive_msg : Ptr → S → ℤ × S)
    (netlink_ack : Ptr → ℤ → S → S)
    → Progress api
    → (fuel : ℕ) (p : Ptr) (n : ℤ) (s : S) → pos_part n < fuel
    → receive_loop api receive_msg netlink_ack fuel p n s
      ≡ some (each (receive_one api receive_msg netlink_ack) (messages api fuel p n) s)
unfolding receive_loop messages each
receive_loop_lem api receive_msg netlink_ack law zero p n s h = absurd (omega arith)
receive_loop_lem api receive_msg netlink_ack law (suc fuel) p n s h =
    elim (Bool-cases (api.nlmsg_ok p n)) [
      | inl good ↦
          let (q, m) = api.nlmsg_next p n in
          rw good (
            receive_loop_lem api receive_msg netlink_ack law fuel q m
              (receive_one api receive_msg netlink_ack p s) (omega (arith, law.shrinks p n good)))
      | inr stop ↦ rw stop
    ]
