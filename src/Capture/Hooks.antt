-- ===== src/Capture/Hooks.antt =====
-- The netfilter hooks of netlink/netlink.c: hook_func_queue, which is registered, and hook_func.
pub mod Queueing
pub mod Broadcast
mod Tests
use modules.Common.{
  ℕ, zero, suc, ◌+◌, ◌-◌, Bool, true, false, Option, none, some, List, [], ◌∷◌, ◌++◌, ℤ, ◌==◌, eq_ℤ,
  neg_econnrefused, take, get_or, if◌then◌else◌, Outcome, done, oops, ◌>>=◌,
}
use modules.Nlmsg.{SkBuff, Packet, SkbApi}
use modules.Capture.Users.{UsrConf, max_tab_size, empty_entry, delete_all_user}
use modules.Capture.Buffers.{CapBuffer, Pool, cap_buffer_alloc, cap_buffer_free}
use modules.Capture.Rate.{Rate, cap_rate_check}
use modules.Capture.State.{CapState, nf_accept, nlmsg_done, nlm_f_multi}

-- GFP_KERNEL of the kernel's headers, which is only passed on.
abbrev pub gfp_kernel : ℕ
gfp_kernel = 0x24000c0

-- The skb is queued with its final length, taken off the buffer, and the buffer is given back.
unfoldable pub enqueue : CapBuffer → Option SkBuff → CapState → Outcome CapState
enqueue cb none s = oops
enqueue cb (some skb) s = do
  let queued = record skb { nlh = record (skb.nlh) { nlmsg_len = skb.len } }
  pool ← cap_buffer_free (some (record cb { skb = none })) s.pool
  done (record s { cap_skb_queue = s.cap_skb_queue ++ queued ∷ []; pool = pool })

-- What follows `cap_buffer_alloc`. Above the rate limit the buffer is dropped where it is.
unfoldable pub capture : (hz now : ℕ) → Option CapBuffer → CapState → Outcome CapState
unfolding enqueue
capture hz now none s = done s
capture hz now (some cb) s =
    let (pass, rate) = cap_rate_check hz now s.rate in
    let s' = record s { rate = rate } in if pass then enqueue cb cb.skb s' else done s'

-- The verdict and the new state. `hz` and `now` are HZ and jiffies; the allocators are arguments.
unfoldable pub hook_func_queue :
    SkbApi → (kmalloc_ok : Bool) → (hz now : ℕ) → Packet → CapState → Outcome (ℕ × CapState)
unfolding capture
hook_func_queue api kmalloc_ok hz now pkt s =
    if s.cap_nlk_portid == 0 then done (nf_accept, s) else do
      (cb, pool) ←
          cap_buffer_alloc api kmalloc_ok s.cap_nlk_portid pkt 0 gfp_kernel nlmsg_done s.pool
      s' ← capture hz now cb (record s { pool = pool })
      done (nf_accept, s')

-- What follows `nlmsg_put` in `cap_make_reply`: `live` counts the skbs of the module.
pub replied : List ℕ → ℕ → Option SkBuff → ℕ → Option SkBuff × ℕ
replied payload size none live = (none, live - 1)
replied payload size (some skb) live = (some (record skb { payload = take size payload }), live)

pub composed :
    SkbApi
    → (portid seq type flags : ℕ) → List ℕ
    → (size : ℕ) → Option SkBuff
    → ℕ
    → Option SkBuff × ℕ
unfolding replied
composed api portid seq type flags payload size none live = (none, live)
composed api portid seq type flags payload size (some skb) live =
    replied payload size (api.nlmsg_put skb portid seq type size flags) (live + 1)

unfoldable pub cap_make_reply :
    SkbApi
    → (portid seq type : ℕ) → (is_done multi : Bool) → (payload : List ℕ) → (size live : ℕ)
    → Option SkBuff × ℕ
unfolding composed
cap_make_reply api portid seq type is_done multi payload size live =
    let flags = if multi then nlm_f_multi else 0 in
    let t = if is_done then nlmsg_done else type in
    composed api portid seq t flags payload size (api.nlmsg_new size) live

-- The module's count of skbs after a call.
abbrev pub with_live : ℕ → CapState → CapState
with_live live s = record s { pool = record (s.pool) { skbs_live = live } }

-- A message for one user: `netlink_unicast` takes the skb in any case, and a refused connection
-- clears the whole table.
pub deliver : (SkBuff → ℕ → ℤ) → ℕ → Option SkBuff × ℕ → CapState → CapState
deliver netlink_unicast pid (none, live) s = with_live live s
deliver netlink_unicast pid (some tmp, live) s =
    let s' = record (with_live (live - 1) s) { sent = s.sent ++ (tmp, pid) ∷ [] } in
    if eq_ℤ (netlink_unicast tmp pid) neg_econnrefused
    then record s' { users = delete_all_user s'.users }
    else s'

-- One round of the loop of `hook_func`, which reads the table as it is then.
unfoldable pub offer : SkbApi → (SkBuff → ℕ → ℤ) → Packet → ℕ → CapState → CapState
unfolding deliver
offer api netlink_unicast pkt i s =
    let pid = (get_or s.users.usrtab i empty_entry).pid in
    let reply = cap_make_reply api pid 0 nlmsg_done true false pkt.bytes pkt.len s.pool.skbs_live in
    if pid == 0 then s else deliver netlink_unicast pid reply s

-- The loop from entry `i` on, with the rounds left.
pub offers : SkbApi → (SkBuff → ℕ → ℤ) → Packet → (rounds i : ℕ) → CapState → CapState
offers api netlink_unicast pkt zero i s = s
offers api netlink_unicast pkt (suc rounds) i s =
    offers api netlink_unicast pkt rounds (suc i) (offer api netlink_unicast pkt i s)

unfoldable pub hook_func : SkbApi → (SkBuff → ℕ → ℤ) → Packet → CapState → ℕ × CapState
unfolding offers
hook_func api netlink_unicast pkt s = (nf_accept, offers api netlink_unicast pkt max_tab_size 0 s)
