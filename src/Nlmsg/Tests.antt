-- ===== src/Nlmsg/Tests.antt =====
-- The message loop of netlink/netlink.c and netctrl/netctrl.c on a small buffer.
use modules.Common.{ℕ, ◌+◌, ◌≡◌, refl, some, ℤ, pos}
use modules.Nlmsg.{receive_loop}
use modules.Nlmsg.Samples.{header_of, bare_nlmsgs}

abbrev count_up : ℕ → ℕ → ℤ × ℕ
count_up p s = (pos 0, s + 1)

abbrev no_ack : ℕ → ℤ → ℕ → ℕ
no_ack p err s = s

two_messages : receive_loop (bare_nlmsgs (header_of 0)) count_up no_ack 41 0 (pos 40) 0 ≡ some 2
unfolding receive_loop
two_messages = refl
