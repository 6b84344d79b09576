-- ===== src/Capture/Overlap/Samples.antt =====
-- States and messages to run the overlapping calls of netlink/netlink.c on.
use modules.Common.{◌≡◌, refl, true, false, some, [], ◌∷◌}
use modules.Nlmsg.{SkBuff}
use modules.Nlmsg.Samples.{header_of}
use modules.Capture.Samples.{two_users}
use modules.Capture.Buffers.{CapBuffer}
use modules.Capture.Rate.{cap_rate_check}
use modules.Capture.State.{nlmsg_done}
use modules.Capture.Hooks.{gfp_kernel}
use modules.Capture.Overlap.{outside, Smp, waiting}

abbrev pub s₀ : Smp
s₀ = record {
  pool = two_users.pool;
  rate = record { cap_rate_limit = 0; last_check = 0; packets = 0 };
  cap_nlk_portid = 7;
  cap_skb_queue = [];
  cpus = outside ∷ outside ∷ [];
  enqueued = [];
  taken = [];
  kcapd = waiting;
  sent = [];
  lost = 0;
  refused = 0;
  faulted = false;
}

-- The message for two bytes of payload.
abbrev pub message : SkBuff
message = record { len = 18; nlh = header_of nlmsg_done 7; payload = 69 ∷ 0 ∷ [] }

abbrev pub full : CapBuffer
full = record { skb = some message; cb_data = 0; gfp_mask = gfp_kernel }

pub second_passes : cap_rate_check 100 5 s₀.rate ≡ (true, s₀.rate)
unfolding cap_rate_check
second_passes = refl
