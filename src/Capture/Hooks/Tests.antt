-- ===== src/Capture/Hooks/Tests.antt =====
-- The hooks of netlink/netlink.c on a state with two users.
use modules.Common.{
  ℕ, ◌≡◌, ◌≢◌, refl, ◌⊎◌, true, false, [], ◌∷◌, ℤ, pos, neg_econnrefused, ◌==◌, if◌then◌else◌,
  length, done, oops,
}
use modules.Nlmsg.{SkBuff}
use modules.Nlmsg.Samples.{ample_skbs}
use modules.Capture.Users.{delete_all_user}
use modules.Capture.Buffers.{zeroed}
use modules.Capture.Buffers.Account
use modules.Capture.State.{CapState, nf_accept}
use modules.Capture.Hooks.{hook_func_queue, hook_func, offer, cap_make_reply}
use modules.Capture.Hooks.Queueing.{Frame, Hooked, hook_func_queue_lem}
use modules.Capture.Hooks.Broadcast.{recipients, is_refused, hook_func_lem}
use modules.Capture.Samples.{two_users, two_users-pool, some_packet}

hook_func_queue_lem_example :
    ((two_users.cap_nlk_portid ≢ 0)
      × (zeroed ∷ zeroed ∷ [] ≡ [])
      × (true ≡ false)
      × (hook_func_queue ample_skbs true 100 1000 some_packet two_users ≡ oops))
    ⊎ ((s' : CapState) × (hook_func_queue ample_skbs true 100 1000 some_packet two_users
          ≡ done (nf_accept, s'))
        × Account.IsValid s'.pool
        × Frame two_users s'
        × Hooked ample_skbs 100 1000 some_packet two_users s')
hook_func_queue_lem_example =
    hook_func_queue_lem ample_skbs 100 1000 some_packet true two_users two_users-pool

-- The second user has gone.
abbrev second_gone : SkBuff → ℕ → ℤ
second_gone skb pid = if pid == 9 then neg_econnrefused else pos 0

hook_func_lem_example :
    let (verdict, s') = hook_func ample_skbs second_gone some_packet two_users in
    (verdict ≡ nf_accept)
    × (s'.sent ≡ recipients ample_skbs second_gone some_packet two_users.users.usrtab)
    × (s'.pool.skbs_live ≡ 0)
    × (s'.users ≡ (
        if is_refused ample_skbs second_gone some_packet two_users.users.usrtab
        then delete_all_user two_users.users
        else two_users.users))
hook_func_lem_example = hook_func_lem ample_skbs second_gone some_packet two_users refl

two_sent : length ((hook_func ample_skbs second_gone some_packet two_users).1.sent) ≡ 2
unfolding hook_func offer cap_make_reply delete_all_user
two_sent = refl
