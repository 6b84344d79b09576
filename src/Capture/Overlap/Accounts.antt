-- ===== src/Capture/Overlap/Accounts.antt =====
-- The buffers, the messages and the queue of netlink/netlink.c when calls of the hook overlap with
-- one another and with the thread.
use modules.Common.{
  ℕ, ◌+◌, ◌≤◌, ◌≡◌, refl, sym, ap, ap₂, ◌∙◌, none, some, List, [], ◌∷◌, ◌++◌, map, length,
  length-append, append_assoc, append-nil, arith,
}
use mathlib.Core.List.{map-append}
use modules.Nlmsg.{SkBuff}
use modules.Capture.Buffers.{cap_maxfree}
use modules.Capture.Buffers.Account.{IsValid, in_use}
use modules.Capture.Buffers.Alloc.{obtained_lem}
use modules.Capture.Overlap.Counts.{
  holds, carries, in_hand, total, total-length, total-moved, length-moved, freed_lem, attached_lem,
}
use modules.Capture.Overlap.{
  HookAt, outside, obtained, filled, passed, queued, holding, Smp, lengthened, Step, obtains,
  faults, fills, gives_up, passes, limits, queues, frees, takes, sends, refuses, forgets, stops,
  port, Overlap, start, step,
}

-- Every buffer is on the free list, with one processor, or dropped; every message is with a processor,
-- on the queue, in the hand of kcapd, dropped, or was refused; what kcapd gave to netlink_unicast,
-- followed by what it has in hand and what is on the queue, is what was put there, in order.
pub record IsAccounted (n : ℕ) (s : Smp) : Type 0 where
  pub valid : IsValid s.pool
  pub used : in_use s.pool ≡ total holds s.cpus + s.lost
  pub messages :
      s.pool.skbs_live
      ≡ total carries s.cpus
        + length s.cap_skb_queue
        + length (in_hand s.kcapd)
        + s.lost
        + s.refused
  pub ordered : s.enqueued ≡ s.taken ++ s.cap_skb_queue
  pub given : s.taken ≡ map (λ m. m.0) s.sent ++ in_hand s.kcapd
  pub processors : length s.cpus ≡ n

-- A step of the hook: what the pool and the dropped buffers gain is what the processor has more.
module _ (n : ℕ) (s t : Smp) (before : List HookAt) (at at' : HookAt) (after : List HookAt) where
  moved-IsAccounted :
      IsAccounted n s
      → s.cpus ≡ before ++ at ∷ after
      → t.cpus ≡ before ++ at' ∷ after
      → IsValid t.pool
      → in_use t.pool + holds at + s.lost ≡ in_use s.pool + holds at' + t.lost
      → t.pool.skbs_live + carries at + s.lost + length s.cap_skb_queue
        ≡ s.pool.skbs_live + carries at' + t.lost + length t.cap_skb_queue
      → (t.kcapd ≡ s.kcapd)
        × (t.refused ≡ s.refused)
        × (t.taken ≡ s.taken)
        × (t.sent ≡ s.sent)
        × (t.enqueued ≡ t.taken ++ t.cap_skb_queue)
      → IsAccounted n t
  moved-IsAccounted c was is v bufs skbs (still, kept, took, gave, order) = record {
    valid = v;
    used = omega (arith, c.used, bufs, total-moved holds before at at' after s.cpus t.cpus was is);
    messages = omega (
      arith,
      c.messages,
      skbs,
      kept,
      ap (λ k. length (in_hand k)) still,
      total-moved carries before at at' after s.cpus t.cpus was is,
    );
    ordered = order;
    given = took ∙ c.given ∙ sym (ap₂ (λ xs k. map (λ m. m.0) xs ++ in_hand k) gave still);
    processors = length-moved before at at' after s.cpus t.cpus was is ∙ c.processors;
  }

-- A processor in the hook has a buffer in use.
pub busy_lem :
    (n : ℕ) (s : Smp) (before : List HookAt) (at : HookAt) (after : List HookAt)
    → IsAccounted n s
    → s.cpus ≡ before ++ at ∷ after
    → holds at ≤ in_use s.pool
busy_lem n s before at after c e =
    omega (arith, c.used, total-moved holds before at at after s.cpus s.cpus e e)

-- The message in hand is given away.
given_lem :
    (s : Smp) (skb : SkBuff)
    → s.kcapd ≡ holding skb
    → s.taken ≡ map (λ m. m.0) s.sent ++ in_hand s.kcapd
    → s.taken ≡ map (λ m. m.0) (s.sent ++ (skb, s.cap_nlk_portid) ∷ []) ++ []
given_lem s skb at given =
    given
    ∙ ap (λ k. map (λ m. m.0) s.sent ++ in_hand k) at
    ∙ sym (map-append (λ (m : SkBuff × ℕ). m.0) s.sent ((skb, s.cap_nlk_portid) ∷ []))
    ∙ sym (append-nil (map (λ m. m.0) (s.sent ++ (skb, s.cap_nlk_portid) ∷ [])))

Step-IsAccounted : (n : ℕ) (s t : Smp) → IsAccounted n s → Step s t → IsAccounted n t
Step-IsAccounted n s t c (obtains before after kmalloc_ok pkt cb p at on given) =
    let (v, u, k) = obtained_lem kmalloc_ok s.pool p cb c.valid given in
    moved-IsAccounted n s t before outside (obtained cb pkt) after c at refl v (omega (arith, u))
      (omega (arith, k)) (refl, refl, refl, refl, c.ordered)
Step-IsAccounted n s t c (faults before after kmalloc_ok p at on given) = record {
  valid = c.valid;
  used = c.used;
  messages = c.messages;
  ordered = c.ordered;
  given = c.given;
  processors = c.processors;
}
Step-IsAccounted n s t c (fills before after api pkt cb cb' p at made) =
    let some_held = busy_lem n s before (obtained cb pkt) after c at in
    let (v, u, k) =
      attached_lem api s.cap_nlk_portid pkt cb s.pool p (some cb') c.valid
        (omega (arith, some_held)) made in
    moved-IsAccounted n s t before (obtained cb pkt) (filled cb') after c at refl v
      (omega (arith, u, some_held)) (omega (arith, k)) (refl, refl, refl, refl, c.ordered)
Step-IsAccounted n s t c (gives_up before after api pkt cb p at made) =
    let some_held = busy_lem n s before (obtained cb pkt) after c at in
    let (v, u, k) =
      attached_lem api s.cap_nlk_portid pkt cb s.pool p none c.valid (omega (arith, some_held))
        made in
    moved-IsAccounted n s t before (obtained cb pkt) outside after c at refl v
      (omega (arith, u, some_held)) (omega (arith, k)) (refl, refl, refl, refl, c.ordered)
Step-IsAccounted n s t c (passes before after hz now cb r at pass) =
    moved-IsAccounted n s t before (filled cb) (passed cb) after c at refl c.valid refl refl
      (refl, refl, refl, refl, c.ordered)
Step-IsAccounted n s t c (limits before after hz now cb r at fail) =
    moved-IsAccounted n s t before (filled cb) outside after c at refl c.valid (omega arith)
      (omega arith) (refl, refl, refl, refl, c.ordered)
Step-IsAccounted n s t c (queues before after cb skb at has) =
    moved-IsAccounted n s t before (passed cb) (queued (record cb { skb = none })) after c at refl
      c.valid refl (omega (arith, length-append s.cap_skb_queue (lengthened skb ∷ [])))
      (
        refl,
        refl,
        refl,
        refl,
        ap (λ xs. xs ++ lengthened skb ∷ []) c.ordered
            ∙ append_assoc s.taken s.cap_skb_queue (lengthened skb ∷ []),
      )
Step-IsAccounted n s t c (frees before after cb p at freed) =
    let some_held = busy_lem n s before (queued cb) after c at in
    let (v, u, k) = freed_lem cb s.pool p c.valid (omega (arith, some_held)) freed in
    moved-IsAccounted n s t before (queued cb) outside after c at refl v
      (omega (arith, u, some_held)) (omega (arith, k)) (refl, refl, refl, refl, c.ordered)
Step-IsAccounted n s t c (takes skb rest idle at) = record {
  valid = c.valid;
  used = c.used;
  messages = omega (arith, c.messages, ap length at, ap (λ k. length (in_hand k)) idle);
  ordered = c.ordered ∙ ap (λ xs. s.taken ++ xs) at ∙ sym (append_assoc s.taken (skb ∷ []) rest);
  given =
      ap (λ xs. xs ++ skb ∷ [])
        (c.given
          ∙ ap (λ k. map (λ m. m.0) s.sent ++ in_hand k) idle
          ∙ append-nil (map (λ m. m.0) s.sent));
  processors = c.processors;
}
Step-IsAccounted n s t c (sends netlink_unicast skb at ok) =
    let one = ap (λ k. length (in_hand k)) at in
    record {
      valid = record { counted = c.valid.counted; capped = c.valid.capped; owned = c.valid.owned };
      used = c.used;
      messages = omega (arith, c.messages, one);
      ordered = c.ordered;
      given = given_lem s skb at c.given;
      processors = c.processors;
    }
Step-IsAccounted n s t c (refuses netlink_unicast skb at fails why) = record {
  valid = c.valid;
  used = c.used;
  messages = omega (arith, c.messages, ap (λ k. length (in_hand k)) at);
  ordered = c.ordered;
  given = given_lem s skb at c.given;
  processors = c.processors;
}
Step-IsAccounted n s t c (forgets at) = record {
  valid = c.valid;
  used = c.used;
  messages = omega (arith, c.messages, ap (λ k. length (in_hand k)) at);
  ordered = c.ordered;
  given = c.given ∙ ap (λ k. map (λ m. m.0) s.sent ++ in_hand k) at;
  processors = c.processors;
}
Step-IsAccounted n s t c (stops netlink_unicast skb at fails why) = record {
  valid = c.valid;
  used = c.used;
  messages = c.messages;
  ordered = c.ordered;
  given = c.given;
  processors = c.processors;
}
Step-IsAccounted n s t c (port portid) = record {
  valid = c.valid;
  used = c.used;
  messages = c.messages;
  ordered = c.ordered;
  given = c.given;
  processors = c.processors;
}

pub kept : (n : ℕ) (s t : Smp) → IsAccounted n s → Overlap s t → IsAccounted n t
kept n s t c start = c
kept n s t c (step {t = before} run st) = Step-IsAccounted n before t (kept n s before c run) st

-- From a state in which the buffers, the messages and the queue are accounted for, they are so after
-- any steps of any number of processors, of kcapd and of what sets the port; the messages are given to
-- netlink_unicast in the order in which they were queued; and no more buffers are allocated than the
-- free list may hold, one for each processor, and those dropped.
pub Overlap-IsAccounted :
    (n : ℕ) (s t : Smp)
    → IsAccounted n s
    → Overlap s t
    → IsAccounted n t × (t.pool.bufs_live ≤ cap_maxfree + n + t.lost)
Overlap-IsAccounted n s t c run =
    let a = kept n s t c run in
    (a, omega (arith, a.used, a.valid.capped, a.valid.owned, a.processors, total-length t.cpus))
