-- ===== src/Capture/Session/Flood.antt =====
-- The buffers of netlink/netlink.c above its rate limit.
use modules.Common.{
  ℕ, ◌+◌, ◌≤◌, ◌<◌, ◌^◌, ◌≡◌, ◌≢◌, refl, Bool, true, none, List, [], ◌∷◌, arith, length, Outcome,
  done, ◌>>=◌, inl, inr, ap, ◌∙◌,
}
use modules.Nlmsg.{SkBuff, Packet, SkbApi}
use modules.Capture.Buffers.Account
use modules.Capture.Buffers.Account.{in_use}
use modules.Capture.Rate.{Rate}
use modules.Capture.Rate.Window.{cap_rate_check-over}
use modules.Capture.State.{CapState, nf_accept}
use modules.Capture.Hooks.{hook_func_queue}
use modules.Capture.Hooks.Queueing.{idle, unallocated, limited, queued, hook_func_queue_lem}

-- Allocators that never fail.
pub record AlwaysMakes (api : SkbApi) : Type 0 where
  pub news : (size : ℕ) → api.nlmsg_new size ≢ none
  pub puts :
      (skb : SkBuff) (portid seq type len flags : ℕ)
      → api.nlmsg_put skb portid seq type len flags ≢ none

-- Packets at times in the window.
abbrev pub InWindow : ℕ → ℕ → List (ℕ × Packet) → Type 0
InWindow lo hi [] = Unit
InWindow lo hi ((now, pkt) ∷ rest) = (lo ≤ now) × (now ≤ hi) × InWindow lo hi rest

-- The module has a user, and has let through as many packets as the limit allows.
pub record AtLimit (s : CapState) : Type 0 where
  pub valid : Account.IsValid s.pool
  pub user : s.cap_nlk_portid ≢ 0
  pub positive : 0 < s.rate.cap_rate_limit
  pub reached : s.rate.cap_rate_limit ≤ s.rate.packets + 1

module _ (api : SkbApi) (hz : ℕ) where
  -- The hook called on packets at the given times, with memory to spare.
  pub flood : List (ℕ × Packet) → CapState → Outcome CapState
  flood [] s = done s
  flood ((now, pkt) ∷ rest) s = do
    (verdict, s') ← hook_func_queue api true hz now pkt s
    flood rest s'

  -- One more packet in the window.
  over_step :
      (now : ℕ) (pkt : Packet) (s : CapState)
      → AlwaysMakes api
      → AtLimit s
      → s.rate.packets + 1 < 2 ^ 32
      → s.rate.last_check ≤ now
      → now ≤ s.rate.last_check + hz
      → now < 2 ^ 64
      → (s' : CapState) × (hook_func_queue api true hz now pkt s ≡ done (nf_accept, s'))
        × Account.IsValid s'.pool
        × (s'.cap_nlk_portid ≡ s.cap_nlk_portid)
        × (s'.rate ≡ record (s.rate) { packets = s.rate.packets + 1 })
        × (s'.cap_skb_queue ≡ s.cap_skb_queue)
        × (in_use s'.pool ≡ in_use s.pool + 1)
        × (s'.pool.skbs_live ≡ s.pool.skbs_live + 1)
  over_step now pkt s makes h few from to fits =
      let stops = cap_rate_check-over hz now s.rate h.positive h.reached few from to fits in
      elim (hook_func_queue_lem api hz now pkt true s h.valid) [
        | inl (on, empty, fails, faults) ↦ absurd (cc)
        | inr (s', runs, valid, frame, idle off same) ↦ absurd (h.user off)
        | inr (s', runs, valid, frame, unallocated on why queue bufs skbs) ↦ absurd (elim why [
          | inl fails ↦ makes.news 2000 fails
          | inr (skb, new, small) ↦ makes.puts _ _ _ _ _ _ small
        ])
        | inr (s', runs, valid, frame, limited on over rate queue bufs skbs) ↦ (
          s',
          runs,
          valid,
          frame.portid,
          rate ∙ ap (λ (p : Bool × Rate). p.1) stops,
          queue,
          bufs,
          skbs,
        )
        | inr
              (
                s',
                runs,
                valid,
                frame,
                queued skb fresh msg on made put size pass rate bytes len queue bufs skbs,
              ) ↦
            absurd (ground (arith, pass, stops))
      ]

  -- With a user, the limit reached and allocators that never fail, every packet in the rest of the
  -- window takes a buffer and an skb for good: none of them is queued, and none is given back.
  pub flood_loses :
      (lo : ℕ) (l : List (ℕ × Packet)) (s : CapState)
      → AlwaysMakes api
      → AtLimit s
      → s.rate.packets + length l < 2 ^ 32
      → s.rate.last_check ≤ lo
      → s.rate.last_check + hz < 2 ^ 64
      → InWindow lo (s.rate.last_check + hz) l
      → (s' : CapState) × (flood l s ≡ done s')
        × (s'.cap_skb_queue ≡ s.cap_skb_queue)
        × (in_use s'.pool ≡ in_use s.pool + length l)
        × (s'.pool.skbs_live ≡ s.pool.skbs_live + length l)
  unfolding flood
  flood_loses lo [] s makes h few from fits w = (s, refl, refl, omega arith, omega arith)
  flood_loses lo ((now, pkt) ∷ rest) s makes h few from fits w =
      let (t, runs, valid, user, rate, queue, bufs, skbs) =
        over_step now pkt s makes h (omega arith) (omega arith) (omega arith) (omega arith) in
      let same : t.rate.last_check ≡ s.rate.last_check = ap Rate.last_check rate in
      let more : t.rate.packets ≡ s.rate.packets + 1 = ap Rate.packets rate in
      let limit : t.rate.cap_rate_limit ≡ s.rate.cap_rate_limit = ap Rate.cap_rate_limit rate in
      let at : AtLimit t = record {
        valid = valid;
        user = rw user h.user;
        positive = rw limit h.positive;
        reached = omega (arith, h);
      } in
      let (u, ends, waits, lost, kept) =
        flood_loses lo rest t makes at (omega arith) (omega arith) (omega arith) (rw same w.2) in
      (u, rw runs ends, waits ∙ queue, omega arith, omega arith)
