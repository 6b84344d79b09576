-- ===== src/Capture/Samples.antt =====
-- Concrete states of netlink/netlink.c, to run its model on.
use modules.Common.{ℕ, refl, true, false, none, [], ◌∷◌, replicate, arith}
use modules.Nlmsg.{SkBuff, Packet}
use modules.Nlmsg.Samples.{header_of}
use modules.Capture.Users.{UsrConf, empty_entry}
use modules.Capture.Users.Count
use modules.Capture.Buffers.{zeroed}
use modules.Capture.Buffers.Account
use modules.Capture.State.{CapState}

abbrev pub entry_of : ℕ → UsrConf
entry_of pid = record { pid = pid; cmd = 0 }

abbrev pub some_packet : Packet
some_packet = record { len = 2; bytes = 69 ∷ 0 ∷ 99 ∷ [] }

abbrev pub some_skb : SkBuff
some_skb = record { len = 18; nlh = header_of 3 7; payload = 1 ∷ 2 ∷ [] }

-- Two users, of which 7 is the one that the hook sends to, and two free buffers.
abbrev pub two_users : CapState
two_users = record {
  cap_sock = true;
  cap_nlk_portid = 7;
  nfhk = none;
  users = record {
    usrcnt = 2;
    usrtab = entry_of 7 ∷ empty_entry ∷ entry_of 9 ∷ replicate 29 empty_entry;
  };
  pool = record {
    cap_freelist_count = 2;
    cap_freelist = zeroed ∷ zeroed ∷ [];
    bufs_live = 2;
    skbs_live = 0;
  };
  cap_skb_queue = [];
  kcapd_task = true;
  rate = record { cap_rate_limit = 3; last_check = 1000; packets = 0 };
  cap_backlog_limit = 1024;
  capcache = false;
  caches_live = 0;
  backlog_wakeups = 0;
  sent = [];
  acks = [];
}

pub two_users-users : Count.IsValid two_users.users
two_users-users = record { size = refl; counted = refl }

pub two_users-pool : Account.IsValid two_users.pool
two_users-pool = record { counted = refl; capped = omega arith; owned = omega arith }

-- The same with two messages in the queue.
abbrev pub two_waiting : CapState
two_waiting = record two_users {
  cap_skb_queue = some_skb ∷ some_skb ∷ [];
  pool = record (two_users.pool) { skbs_live = 2 };
}
