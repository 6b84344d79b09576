-- ===== src/Capture/Session/Whole.antt =====
-- A whole session: netlink/netlink.c is loaded, netlink/user_client.c registers, receives packets and
-- leaves.
use modules.Common.{
  ℕ, suc, ◌+◌, ◌<◌, ◌≡◌, ◌≢◌, refl, ap, ◌∙◌, true, none, some, List, [], ◌∷◌, ◌++◌, map, replicate,
  length, strncpy, All, ℤ, pos, arith, done,
}
use modules.Nlmsg.{SkBuff}
use modules.Capture.Users.{usertab_init, user_join}
use modules.Capture.Users.Count
use modules.Capture.Users.Count.{occupied, usertab_init-IsValid}
use modules.Capture.State.{CapState, not_loaded, app_init}
use modules.Capture.Receive.{cap_receive_msg}
use modules.Capture.Buffers.{Pool}
use modules.Capture.Buffers.Account.{in_use}
use modules.Capture.Daemon.{kcapd_thread}
use modules.Capture.Daemon.Drain.{AllTaken}
use modules.Capture.Client.{Call, sendmsg, recvmsg, hello, bye, cap_add, cap_del, main}
use modules.Capture.Client.Exchange.{
  serve, serve-append, serve-receives, header, join_leave, add_lem, del_lem, receive_times_pos,
}
use modules.Capture.Client.Wire.{Wire, IsWire, nlmsg_space, shown, expected}
use modules.Capture.Session.Delivery.{HookCall, Succeeds, run_hooks, hook-recv_from_kernel}
use modules.Capture.Session.Unload.{loaded, loaded-IsValid}

module _ (w : Wire) (getpid seq seq' : ℕ) where
  -- The two messages of the program, and the module after the first.
  abbrev pub add : Call
  add = sendmsg (header (nlmsg_space w) getpid seq cap_add) (strncpy hello (length hello + 1))

  abbrev pub del : Call
  del = sendmsg (header (nlmsg_space w) getpid seq' cap_del) (strncpy bye (length hello + 1))

  abbrev pub joined : CapState
  joined = serve (add ∷ []) (loaded true)

  -- What hook-recv_from_kernel says of the packets that the hook sees now.
  joined-packets :
      (laws : IsWire w) (cs : List HookCall) (us : List (SkBuff → ℕ → ℤ))
      → getpid ≢ 0
      → All (Succeeds w getpid) cs
      → AllTaken us
      → length us ≡ length cs
      → (t u : CapState) × (skbs : List SkBuff) × (run_hooks cs joined ≡ done t)
        × (kcapd_thread us t ≡ done u)
        × (u.sent ≡ map (λ skb. (skb, getpid)) skbs)
        × (map (shown w) skbs ≡ map (λ c. expected w c.pkt) cs)
        × (length skbs ≡ length cs)
        × (u.cap_skb_queue ≡ [])
        × (in_use u.pool ≡ 0)
        × (u.pool.skbs_live ≡ 0)
        × (u.users ≡ (user_join getpid (loaded true).users).0)
  unfolding cap_receive_msg app_init serve
  joined-packets laws cs us p ok taken rounds =
      let (t, u, skbs, runs, drains, all, shows, empty, _, used, refs, table, count) =
        hook-recv_from_kernel w laws cs us joined (loaded-IsValid true) p refl refl ok taken
          rounds in
      (
        t,
        u,
        skbs,
        runs,
        drains,
        all,
        shows,
        count,
        empty,
        used,
        refs,
        table ∙ add_lem (nlmsg_space w) getpid seq (loaded true),
      )

  del-mail :
      (u : CapState)
      → let e = (cap_receive_msg none (header (nlmsg_space w) getpid seq' cap_del) u).1 in
        (e.cap_skb_queue ≡ u.cap_skb_queue) × (e.pool ≡ u.pool)
  unfolding cap_receive_msg
  del-mail u = ground arith

  loaded-users :
      Count.IsValid (loaded true).users
      × ((loaded true).users.usrcnt ≡ 0)
      × (occupied (loaded true).users.usrtab < 32)
  unfolding app_init usertab_init
  loaded-users =
      let v = usertab_init-IsValid not_loaded.users refl refl in (v, refl, omega (arith, v.counted))

  -- The module is loaded, user_client.c runs with an argument that is the number of packets, and none of
  -- its calls fails. It sends CAP_ADD; the hook sees the packets, of at most 1600 bytes, for whose
  -- messages there is memory, and the thread, whose sends succeed, sends them to the pid of the program,
  -- in their order; the program receives as often as there are messages, shows of each the length of
  -- the packet, rounded up by the netlink alignment, and its first twelve bytes, with zeros in the place
  -- of those that it has not, and sends CAP_DEL. Then there is no user, no message on the queue, no skb,
  -- no buffer in use, and the table is valid and its counter is 0.
  pub whole_session :
      (laws : IsWire w) (cs : List HookCall) (us : List (SkBuff → ℕ → ℤ)) (n fuel : ℕ)
      → n < fuel
      → getpid ≢ 0
      → length cs ≡ suc n
      → All (Succeeds w getpid) cs
      → AllTaken us
      → length us ≡ length cs
      → let received = replicate (suc n) recvmsg in
        (main (nlmsg_space w) getpid seq seq' true true true fuel (pos (suc n))
          ≡ some (add ∷ received ++ del ∷ []))
        × ((t u : CapState) × (skbs : List SkBuff) × (run_hooks cs joined ≡ done t)
            × (kcapd_thread us t ≡ done u)
            × (u.sent ≡ map (λ skb. (skb, getpid)) skbs)
            × (map (shown w) skbs ≡ map (λ c. expected w c.pkt) cs)
            × (length skbs ≡ suc n)
            × (let e = serve (received ++ del ∷ []) u in
                (e.cap_nlk_portid ≡ 0)
                × (e.cap_skb_queue ≡ [])
                × (e.pool.skbs_live ≡ 0)
                × (in_use e.pool ≡ 0)
                × Count.IsValid e.users
                × (e.users.usrcnt ≡ 0)))
  unfolding main serve
  whole_session laws cs us n fuel enough p len ok taken rounds =
      let (free, none_yet, room) = loaded-users in
      let (t, u, skbs, runs, drains, all, shows, count, empty, used, refs, table) =
        joined-packets laws cs us p ok taken rounds in
      let (valid, gone, _) = join_leave getpid (loaded true).users p free room in
      let (left, off) = del_lem (nlmsg_space w) getpid seq' u in
      let (queue', pool') = del-mail u in
      (
        rw (receive_times_pos n fuel enough) refl,
        (
          t,
          u,
          skbs,
          runs,
          drains,
          all,
          shows,
          count ∙ len,
          rw (serve-append (replicate n recvmsg) (del ∷ []) u, serve-receives n u)
              (
                off,
                queue' ∙ empty,
                ap Pool.skbs_live pool' ∙ refs,
                ap in_use pool' ∙ used,
                rw (left, table) valid,
                rw (left, table) (gone ∙ none_yet),
              ),
        ),
      )
