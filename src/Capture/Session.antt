-- ===== src/Capture/Session.antt =====
-- The hook, the thread and the receiving side of netlink/netlink.c running together: any sequence
-- of their calls that return, each of them one step.
pub mod Order
pub mod Flood
pub mod Delivery
pub mod Recipients
pub mod Unload
pub mod Whole
mod Received
mod Tests
use modules.Common.{
  ℕ, ◌+◌, is_neg, if◌then◌else◌, ◌≡◌, Bool, Option, none, some, List, [], ◌∷◌, ◌++◌, take, ℤ,
  Outcome, done,
}
use modules.Nlmsg.{SkBuff, Packet, SkbApi, NlmsgApi, Progress}
use modules.Capture.State.{CapState}
use modules.Capture.Hooks.{hook_func_queue}
use modules.Capture.Daemon.{round}
use modules.Capture.Receive.{cap_receive_skb}

-- The states that are reached from `s`, with the bytes of the packets that the hook saw on the way.
pub data Run (Ptr : Type 0) (s : CapState) : List (List ℕ) → CapState → Type 0 where
  start : Run Ptr s [] s
  packet :
      {seen : List (List ℕ)} {t u : CapState} (api : SkbApi) (kmalloc_ok : Bool)
      (hz now verdict : ℕ) (pkt : Packet)
      → Run Ptr s seen t
      → hook_func_queue api kmalloc_ok hz now pkt t ≡ done (verdict, u)
      → Run Ptr s (seen ++ take pkt.len pkt.bytes ∷ []) u
  deliver :
      {seen : List (List ℕ)} {t u : CapState} (netlink_unicast : SkBuff → ℕ → ℤ)
      → Run Ptr s seen t
      → round netlink_unicast t.cap_skb_queue t ≡ done u
      → Run Ptr s seen u
  receive :
      {seen : List (List ℕ)} {t u : CapState} (api : NlmsgApi Ptr) (kthread_run : Ptr → Option ℤ)
      (nlh : Ptr) (len : ℕ)
      → Progress api
      → Run Ptr s seen t
      → cap_receive_skb api kthread_run nlh len t ≡ some u
      → Run Ptr s seen u

-- The messages of a run whose send was refused.
abbrev pub refused_by : (SkBuff → ℕ → ℤ) → List SkBuff → (portid : ℕ) → ℕ
refused_by netlink_unicast [] portid = 0
refused_by netlink_unicast (skb ∷ rest) portid =
    if is_neg (netlink_unicast skb portid) then 1 else 0

unfoldable pub refusals :
    {Ptr : Type 0} {s : CapState} {seen : List (List ℕ)} {s' : CapState} → Run Ptr s seen s' → ℕ
refusals start = 0
refusals (packet api kmalloc_ok hz now verdict pkt r runs) = refusals r
refusals (deliver {seen} {t} {u} netlink_unicast r runs) =
    refusals r + refused_by netlink_unicast t.cap_skb_queue t.cap_nlk_portid
refusals (receive api kthread_run nlh len law r runs) = refusals r
