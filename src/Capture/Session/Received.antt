-- ===== src/Capture/Session/Received.antt =====
-- Two packets seen by the hook of netlink/netlink.c and shown by netlink/user_client.c, one that is
-- sent to a process that registered, and a whole session of a process.
use modules.Common.{
  false, ◌⊎◌, none, true, All, ℕ, ◌+◌, ◌-◌, ◌*◌, ◌/◌, ◌≤◌, ◌≡◌, refl, some, List, [], ◌∷◌, ◌++◌,
  map, replicate, length, ℤ, pos, arith, done,
}
use modules.Nlmsg.{SkBuff, Packet, SkbApi}
use modules.Nlmsg.Samples.{header_of, bare_nlmsgs, bare_nlmsgs-Progress, ample_skbs}
use modules.Capture.Buffers.Account.{in_use}
use modules.Capture.State.{CapState, app_init, app_exit}
use modules.Capture.Users.{empty_entry, user_join, usertab_init}
use modules.Capture.Buffers.{cap_buffer_alloc, cap_buffer_free}
use modules.Capture.Rate.{cap_rate_check}
use modules.Capture.Hooks.{gfp_kernel, hook_func_queue}
use modules.Capture.Receive.{cap_receive_skb, cap_receive_msg}
use modules.Nlmsg.{receive_loop}
use modules.Capture.Session.{Run, start, packet, deliver, receive, refusals}
use modules.Capture.Session.Unload.{loaded, app_exit-Run}
use modules.Capture.Session.Recipients.{Asked, adders, Run-Asked}
use modules.Capture.Daemon.{kcapd_thread, kcapd_send_reply, round}
use modules.Capture.Samples.{two_users, two_users-pool, some_packet, entry_of}
use modules.Capture.Client.Wire.{Wire, IsWire, IsSkbApi, shown, expected}
use modules.Capture.Users.Count
use modules.Capture.Client.{recvmsg, main}
use modules.Capture.Client.Exchange.{serve}
use modules.Capture.Client.Wire.{nlmsg_space}
use modules.Capture.Session.Whole.{add, del, joined, whole_session}
use modules.Capture.Session.Delivery.{HookCall, Succeeds, run_hooks, hook-recv_from_kernel}

abbrev padded : Wire
padded = record {
  hdrlen = 16;
  nlmsg_align = λ n. (n + 3) / 4 * 4;
  on_wire =
      λ skb. replicate 16 0 ++ (skb.payload ++ replicate (skb.len - (16 + length skb.payload)) 0);
}

padded-IsWire : IsWire padded
padded-IsWire = record {
  rounds_up = λ n. omega arith;
  monotone = λ m n le. omega arith;
  small = omega arith;
  carries = λ skb room. (replicate 16 0, refl, refl);
}

abbrev padded_skbs : SkbApi
padded_skbs = record {
  nlmsg_new = λ size. some (record { len = 0; nlh = header_of 0 0; payload = [] });
  nlmsg_put = λ skb portid seq type len flags. some (record {
    len = skb.len + (16 + len + 3) / 4 * 4;
    nlh = header_of type portid;
    payload = [];
  });
}

padded_skbs-IsSkbApi : IsSkbApi padded padded_skbs
padded_skbs-IsSkbApi = record {
  empty = λ size skb made. ground arith;
  grows = λ skb msg portid seq type len flags put. ground arith;
}

abbrev five_bytes : Packet
five_bytes = record { len = 5; bytes = 5 ∷ 6 ∷ 7 ∷ 8 ∷ 9 ∷ [] }

abbrev call_of : Packet → HookCall
call_of pkt = record { api = padded_skbs; hz = 100; now = 1000; pkt = pkt }

abbrev calls : List HookCall
calls = call_of some_packet ∷ call_of five_bytes ∷ []

abbrev unlimited : CapState
unlimited = record two_users { rate = record (two_users.rate) { cap_rate_limit = 0 } }

abbrev accepts : SkBuff → ℕ → ℤ
accepts skb portid = pos 0

call_of-Succeeds :
    (pkt : Packet) → pkt.len ≤ length pkt.bytes → pkt.len ≤ 1600 → Succeeds padded 7 (call_of pkt)
call_of-Succeeds pkt whole fits = record {
  documented = padded_skbs-IsSkbApi;
  fresh = _;
  msg = _;
  made = refl;
  put = refl;
  whole = whole;
  fits = fits;
}

hook-recv_from_kernel_example :
    (t u : CapState) × (skbs : List SkBuff) × (run_hooks calls unlimited ≡ done t)
    × (kcapd_thread (accepts ∷ accepts ∷ []) t ≡ done u)
    × (u.sent ≡ [] ++ map (λ skb. (skb, 7)) skbs)
    × (map (shown padded) skbs ≡ map (λ c. expected padded c.pkt) calls)
    × (u.cap_skb_queue ≡ [])
    × (u.cap_nlk_portid ≡ 7)
    × (in_use u.pool ≡ 0)
    × (u.pool.skbs_live ≡ 0)
    × (u.users ≡ unlimited.users)
    × (length skbs ≡ 2)
hook-recv_from_kernel_example =
    hook-recv_from_kernel padded padded-IsWire calls (accepts ∷ accepts ∷ []) unlimited
      two_users-pool (λ e. cc) refl refl
      (
        call_of-Succeeds some_packet (omega arith) (omega arith),
        (call_of-Succeeds five_bytes (omega arith) (omega arith), tt),
      )
      ((λ skb pid. refl), ((λ skb pid. refl), tt)) refl

-- The process 7 registers, receives the two packets and leaves.
whole_session_example :
    let received = recvmsg ∷ recvmsg ∷ [] in
    (main (nlmsg_space padded) 7 1 2 true true true 2 (pos 2)
      ≡ some (add padded 7 1 2 ∷ received ++ del padded 7 1 2 ∷ []))
    × ((t u : CapState) × (skbs : List SkBuff) × (run_hooks calls (joined padded 7 1 2) ≡ done t)
        × (kcapd_thread (accepts ∷ accepts ∷ []) t ≡ done u)
        × (u.sent ≡ map (λ skb. (skb, 7)) skbs)
        × (map (shown padded) skbs ≡ map (λ c. expected padded c.pkt) calls)
        × (length skbs ≡ 2)
        × (let e = serve (received ++ del padded 7 1 2 ∷ []) u in
            (e.cap_nlk_portid ≡ 0)
            × (e.cap_skb_queue ≡ [])
            × (e.pool.skbs_live ≡ 0)
            × (in_use e.pool ≡ 0)
            × Count.IsValid e.users
            × (e.users.usrcnt ≡ 0)))
whole_session_example =
    whole_session padded 7 1 2 padded-IsWire calls (accepts ∷ accepts ∷ []) 1 2 (omega arith)
      (λ e. cc) refl
      (
        call_of-Succeeds some_packet (omega arith) (omega arith),
        (call_of-Succeeds five_bytes (omega arith) (omega arith), tt),
      )
      ((λ skb pid. refl), ((λ skb pid. refl), tt)) refl

-- The second one is shown with 8 bytes.
rounded :
    expected padded five_bytes
    ≡ record { len = 8; payload = 5 ∷ 6 ∷ 7 ∷ 8 ∷ 9 ∷ 0 ∷ 0 ∷ 0 ∷ 0 ∷ 0 ∷ 0 ∷ 0 ∷ [] }
rounded = refl

-- The process 9 registers with the module as it is loaded, and a packet is sent to it.
abbrev for_9 : SkBuff
for_9 = record {
  len = 18;
  nlh = record { nlmsg_len = 18; nlmsg_type = 3; nlmsg_flags = 0; nlmsg_seq = 0; nlmsg_pid = 9 };
  payload = 69 ∷ 0 ∷ [];
}

abbrev served_9 : CapState
served_9 = record (loaded true) {
  cap_nlk_portid = 9;
  users = record { usrcnt = 1; usrtab = entry_of 9 ∷ replicate 31 empty_entry };
  pool = record {
    cap_freelist_count = 1;
    cap_freelist = record { skb = none; cb_data = 0; gfp_mask = gfp_kernel } ∷ [];
    bufs_live = 1;
    skbs_live = 0;
  };
  kcapd_task = true;
  backlog_wakeups = 1;
  sent = (for_9, 9) ∷ [];
}

session : Run ℕ (loaded true) ((69 ∷ 0 ∷ []) ∷ []) served_9
unfolding hook_func_queue round cap_receive_skb kcapd_send_reply cap_receive_msg receive_loop
    cap_buffer_alloc cap_buffer_free cap_rate_check user_join app_init usertab_init
session =
    deliver (λ skb pid. pos 18)
      (packet ample_skbs true 100 1000 1 some_packet
        (receive (bare_nlmsgs (λ p. header_of 0 9)) (λ p. none) 0 16
          (bare_nlmsgs-Progress (λ p. header_of 0 9)) start refl)
        refl)
      refl

Run-Asked_example : All (λ m. Asked (adders session) m.1) served_9.sent × Asked (adders session) 9
unfolding app_init
Run-Asked_example =
    Run-Asked (loaded true) (record { counted = refl; capped = omega arith; owned = omega arith })
      refl refl session

app_exit-Run_example :
    let gone = app_exit served_9 in
    (gone.cap_sock ≡ false)
    × (gone.nfhk ≡ none)
    × (gone.pool.bufs_live ≡ length gone.pool.cap_freelist)
    × (gone.pool.skbs_live ≡ length gone.cap_skb_queue + 0)
    × ((gone.kcapd_task ≡ true)
        ⊎ ((gone.kcapd_task ≡ false)
            × (gone.pool.bufs_live ≡ 0)
            × (gone.pool.skbs_live ≡ 0)
            × (gone.cap_skb_queue ≡ [])))
unfolding refusals session
app_exit-Run_example = app_exit-Run true session
