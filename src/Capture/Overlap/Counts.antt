-- ===== src/Capture/Overlap/Counts.antt =====
-- What the processors of Overlap have of the buffers and messages of netlink/netlink.c, and what the
-- parts of the hook do to the counts of the pool.
use modules.Common.{
  ℕ, Outcome, ◌+◌, ◌-◌, ◌≤◌, ◌<◌, ◌≡◌, refl, sym, ap, subst, ◌∙◌, Option, some, List, [], ◌∷◌, ◌++◌,
  length, length-append, arith, done,
}
use modules.Nlmsg.{SkBuff, Packet, SkbApi}
use modules.Capture.Buffers.{CapBuffer, Pool, max_skb_bufsize, attach, cap_buffer_free}
use modules.Capture.Buffers.Account.{IsValid, in_use, cap_buffer_free-IsValid}
use modules.Capture.Buffers.Alloc.{held, attach_lem}
use modules.Capture.State.{nlmsg_done}
use modules.Capture.Hooks.{gfp_kernel}
use modules.Capture.Overlap.{
  HookAt, outside, obtained, filled, passed, queued, KcapdAt, waiting, refusing, holding,
}

-- How many buffers a processor has, and how many messages.
abbrev pub holds : HookAt → ℕ
holds outside = 0
holds (obtained cb pkt) = 1
holds (filled cb) = 1
holds (passed cb) = 1
holds (queued cb) = 1

abbrev pub carries : HookAt → ℕ
carries outside = 0
carries (obtained cb pkt) = 0
carries (filled cb) = 1
carries (passed cb) = 1
carries (queued cb) = 0

-- The message that kcapd took and has not given to netlink_unicast.
abbrev pub in_hand : KcapdAt → List SkBuff
in_hand waiting = []
in_hand refusing = []
in_hand (holding skb) = skb ∷ []

-- How many all processors have.
abbrev pub total : (HookAt → ℕ) → List HookAt → ℕ
total f [] = 0
total f (at ∷ cpus) = f at + total f cpus

total-append :
    (f : HookAt → ℕ) (before : List HookAt) (at : HookAt) (after : List HookAt)
    → total f (before ++ at ∷ after) ≡ total f before + (f at + total f after)
total-append f [] at after = omega arith
total-append f (b ∷ before) at after = omega (arith, total-append f before at after)

holds_one : (at : HookAt) → holds at ≤ 1
holds_one outside = omega arith
holds_one (obtained cb pkt) = omega arith
holds_one (filled cb) = omega arith
holds_one (passed cb) = omega arith
holds_one (queued cb) = omega arith

pub total-length : (cpus : List HookAt) → total holds cpus ≤ length cpus
total-length [] = omega arith
total-length (at ∷ cpus) = omega (arith, holds_one at, total-length cpus)

-- A processor that moves.
pub total-moved :
    (f : HookAt → ℕ) (before : List HookAt) (at at' : HookAt) (after cpus cpus' : List HookAt)
    → cpus ≡ before ++ at ∷ after
    → cpus' ≡ before ++ at' ∷ after
    → (total f cpus' + f at ≡ total f cpus + f at') × (f at ≤ total f cpus)
total-moved f before at at' after cpus cpus' e e' =
    let was = ap (total f) e ∙ total-append f before at after in
    let is = ap (total f) e' ∙ total-append f before at' after in
    (omega (arith, was, is), omega (arith, was))

pub length-moved :
    (before : List HookAt) (at at' : HookAt) (after cpus cpus' : List HookAt)
    → cpus ≡ before ++ at ∷ after
    → cpus' ≡ before ++ at' ∷ after
    → length cpus' ≡ length cpus
length-moved before at at' after cpus cpus' e e' = omega (
  arith,
  ap length e,
  ap length e',
  length-append before (at ∷ after),
  length-append before (at' ∷ after),
)

-- What the parts of the hook do to the pool, where they return.
pub freed_lem :
    (cb : CapBuffer) (p p' : Pool)
    → IsValid p
    → 0 < in_use p
    → cap_buffer_free (some cb) p ≡ done p'
    → IsValid p' × (in_use p' + 1 ≡ in_use p) × (p'.skbs_live ≡ p.skbs_live)
freed_lem cb p p' v used freed =
    let (p₁, found, v₁, fewer, same) = cap_buffer_free-IsValid cb p v used in
    let e : ◌≡◌ {A = Outcome Pool} (done p₁) (done p') = sym found ∙ freed in
    subst (λ q. IsValid q × (in_use q + 1 ≡ in_use p) × (q.skbs_live ≡ p.skbs_live)) (cc)
      (v₁, fewer, same)

pub attached_lem :
    (api : SkbApi) (portid : ℕ) (pkt : Packet) (cb : CapBuffer) (p p' : Pool) (r : Option CapBuffer)
    → IsValid p
    → 0 < in_use p
    → attach api portid nlmsg_done
        (api.nlmsg_new max_skb_bufsize)
        (record cb { cb_data = 0; gfp_mask = gfp_kernel })
        pkt
        p
      ≡ done (r, p')
    → IsValid p' × (in_use p' + 1 ≡ in_use p + held r) × (p'.skbs_live ≡ p.skbs_live + held r)
attached_lem api portid pkt cb p p' r v used made =
    let before : Pool = record p { bufs_live = p.bufs_live - 1 } in
    let (r₁, p₁, found, a) =
      attach_lem api portid nlmsg_done pkt 0 gfp_kernel (api.nlmsg_new max_skb_bufsize)
        (record cb { cb_data = 0; gfp_mask = gfp_kernel }) before p refl refl refl
        (record { valid = v; buffers = omega (arith, used); skbs = refl }) in
    let e : ◌≡◌ {A = Outcome (Option CapBuffer × Pool)} (done (r₁, p₁)) (done (r, p')) =
      sym found ∙ made in
    let same : ◌≡◌ {A = Option CapBuffer × Pool} (r₁, p₁) (r, p') = cc in
    subst
      (λ q.
        IsValid q.1
        × (in_use q.1 + 1 ≡ in_use p + held q.0)
        × (q.1.skbs_live ≡ p.skbs_live + held q.0))
      same (a.valid, omega (arith, a.buffers, used), a.skbs)

pub attach_returns :
    (api : SkbApi) (portid : ℕ) (pkt : Packet) (cb : CapBuffer) (p : Pool)
    → IsValid p
    → 0 < in_use p
    → (r : Option CapBuffer) × (p' : Pool) × (attach api portid nlmsg_done
          (api.nlmsg_new max_skb_bufsize)
          (record cb { cb_data = 0; gfp_mask = gfp_kernel })
          pkt
          p
        ≡ done (r, p'))
attach_returns api portid pkt cb p v used =
    let before : Pool = record p { bufs_live = p.bufs_live - 1 } in
    let (r, p', found, _) =
      attach_lem api portid nlmsg_done pkt 0 gfp_kernel (api.nlmsg_new max_skb_bufsize)
        (record cb { cb_data = 0; gfp_mask = gfp_kernel }) before p refl refl refl
        (record { valid = v; buffers = omega (arith, used); skbs = refl }) in
    (r, p', found)
