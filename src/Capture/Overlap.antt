-- ===== src/Capture/Overlap.antt =====
-- hook_func_queue of netlink/netlink.c where its calls overlap on several processors, with the thread
-- kcapd. Each of them goes from one spin lock, or one look at the port, to the next; between two steps
-- of one the others and the receiving side go on.
pub mod Counts
pub mod Accounts
pub mod Sequential
pub mod Runs
pub mod Lifetime
pub mod Progress
mod Samples
mod Tests
mod LoadedTests
use modules.Common.{
  ℕ, suc, ◌+◌, ◌-◌, ◌≡◌, ◌≢◌, Bool, true, false, Option, none, some, List, [], ◌∷◌, ◌++◌, ℤ, is_neg,
  eq_ℤ, neg_econnrefused, Outcome, done, oops,
}
use modules.Nlmsg.{SkBuff, Packet, SkbApi}
use modules.Capture.Buffers.{CapBuffer, Pool, max_skb_bufsize, obtain, attach, cap_buffer_free}
use modules.Capture.Rate.{Rate, cap_rate_check}
use modules.Capture.State.{nlmsg_done}
use modules.Capture.Hooks.{gfp_kernel}

-- Where a processor is: outside of the hook, or in it with a buffer that was just obtained, that has
-- its message, whose message was let through, or whose message is on the queue.
pub data HookAt : Type 0 where
  outside : HookAt
  obtained : CapBuffer → Packet → HookAt
  filled : CapBuffer → HookAt
  passed : CapBuffer → HookAt
  queued : CapBuffer → HookAt

-- Where kcapd is: between two messages, with one that it took, or in front of `cap_nlk_portid = 0`
-- after a refused one.
pub data KcapdAt : Type 0 where
  waiting refusing : KcapdAt
  holding : SkBuff → KcapdAt

-- The static variables, the processors and the thread. `enqueued` has every message that was put on
-- the queue, in order, `taken` those that kcapd took, and `sent` those that it gave to
-- netlink_unicast; `lost` counts the buffers that were dropped, each with its message, and `refused`
-- the messages whose reference was kept.
pub record Smp : Type 0 where
  pub pool : Pool
  pub rate : Rate
  pub cap_nlk_portid : ℕ
  pub cap_skb_queue : List SkBuff
  pub cpus : List HookAt
  pub enqueued : List SkBuff
  pub taken : List SkBuff
  pub kcapd : KcapdAt
  pub sent : List (SkBuff × ℕ)
  pub lost : ℕ
  pub refused : ℕ
  pub faulted : Bool

-- The message with its final length.
abbrev pub lengthened : SkBuff → SkBuff
lengthened skb = record skb { nlh = record (skb.nlh) { nlmsg_len = skb.len } }

-- One step of one processor, of kcapd, or of what sets the port of the user.
pub data Step (s : Smp) : Smp → Type 0 where
  obtains :
      (before after : List HookAt) (kmalloc_ok : Bool) (pkt : Packet) (cb : CapBuffer) (p : Pool)
      → s.cpus ≡ before ++ outside ∷ after
      → s.cap_nlk_portid ≢ 0
      → obtain kmalloc_ok s.pool.cap_freelist s.pool ≡ (some cb, p)
      → Step s (record s { pool = p; cpus = before ++ obtained cb pkt ∷ after })
  faults :
      (before after : List HookAt) (kmalloc_ok : Bool) (p : Pool)
      → s.cpus ≡ before ++ outside ∷ after
      → s.cap_nlk_portid ≢ 0
      → obtain kmalloc_ok s.pool.cap_freelist s.pool ≡ (none, p)
      → Step s (record s { faulted = true })
  fills :
      (before after : List HookAt) (api : SkbApi) (pkt : Packet) (cb cb' : CapBuffer) (p : Pool)
      → s.cpus ≡ before ++ obtained cb pkt ∷ after
      → attach api s.cap_nlk_portid nlmsg_done
          (api.nlmsg_new max_skb_bufsize)
          (record cb { cb_data = 0; gfp_mask = gfp_kernel })
          pkt
          s.pool
        ≡ done (some cb', p)
      → Step s (record s { pool = p; cpus = before ++ filled cb' ∷ after })
  gives_up :
      (before after : List HookAt) (api : SkbApi) (pkt : Packet) (cb : CapBuffer) (p : Pool)
      → s.cpus ≡ before ++ obtained cb pkt ∷ after
      → attach api s.cap_nlk_portid nlmsg_done
          (api.nlmsg_new max_skb_bufsize)
          (record cb { cb_data = 0; gfp_mask = gfp_kernel })
          pkt
          s.pool
        ≡ done (none, p)
      → Step s (record s { pool = p; cpus = before ++ outside ∷ after })
  passes :
      (before after : List HookAt) (hz now : ℕ) (cb : CapBuffer) (r : Rate)
      → s.cpus ≡ before ++ filled cb ∷ after
      → cap_rate_check hz now s.rate ≡ (true, r)
      → Step s (record s { rate = r; cpus = before ++ passed cb ∷ after })
  limits :
      (before after : List HookAt) (hz now : ℕ) (cb : CapBuffer) (r : Rate)
      → s.cpus ≡ before ++ filled cb ∷ after
      → cap_rate_check hz now s.rate ≡ (false, r)
      → Step s (record s { rate = r; cpus = before ++ outside ∷ after; lost = s.lost + 1 })
  queues :
      (before after : List HookAt) (cb : CapBuffer) (skb : SkBuff)
      → s.cpus ≡ before ++ passed cb ∷ after
      → cb.skb ≡ some skb
      → Step s (record s {
        cpus = before ++ queued (record cb { skb = none }) ∷ after;
        cap_skb_queue = s.cap_skb_queue ++ lengthened skb ∷ [];
        enqueued = s.enqueued ++ lengthened skb ∷ [];
      })
  frees :
      (before after : List HookAt) (cb : CapBuffer) (p : Pool)
      → s.cpus ≡ before ++ queued cb ∷ after
      → cap_buffer_free (some cb) s.pool ≡ done p
      → Step s (record s { pool = p; cpus = before ++ outside ∷ after })
  takes :
      (skb : SkBuff) (rest : List SkBuff)
      → s.kcapd ≡ waiting
      → s.cap_skb_queue ≡ skb ∷ rest
      → Step s (record s { cap_skb_queue = rest; taken = s.taken ++ skb ∷ []; kcapd = holding skb })
  sends :
      (netlink_unicast : SkBuff → ℕ → ℤ) (skb : SkBuff)
      → s.kcapd ≡ holding skb
      → is_neg (netlink_unicast skb s.cap_nlk_portid) ≡ false
      → Step s (record s {
        pool = record (s.pool) { skbs_live = s.pool.skbs_live - 1 };
        kcapd = waiting;
        sent = s.sent ++ (skb, s.cap_nlk_portid) ∷ [];
      })
  refuses :
      (netlink_unicast : SkBuff → ℕ → ℤ) (skb : SkBuff)
      → s.kcapd ≡ holding skb
      → is_neg (netlink_unicast skb s.cap_nlk_portid) ≡ true
      → eq_ℤ (netlink_unicast skb s.cap_nlk_portid) neg_econnrefused ≡ true
      → Step s (record s {
        kcapd = refusing;
        sent = s.sent ++ (skb, s.cap_nlk_portid) ∷ [];
        refused = s.refused + 1;
      })
  forgets : s.kcapd ≡ refusing → Step s (record s { cap_nlk_portid = 0; kcapd = waiting })
  stops :
      (netlink_unicast : SkBuff → ℕ → ℤ) (skb : SkBuff)
      → s.kcapd ≡ holding skb
      → is_neg (netlink_unicast skb s.cap_nlk_portid) ≡ true
      → eq_ℤ (netlink_unicast skb s.cap_nlk_portid) neg_econnrefused ≡ false
      → Step s (record s { faulted = true })
  port : (portid : ℕ) → Step s (record s { cap_nlk_portid = portid })

-- Any number of steps.
pub data Overlap (s : Smp) : Smp → Type 0 where
  start : Overlap s s
  step : {t u : Smp} → Overlap s t → Step t u → Overlap s u
