-- ===== src/Nlmsg/Samples.antt =====
-- Concrete stand-ins for the kernel's netlink functions, to run the models of netlink/netlink.c and
-- netctrl/netctrl.c on.
use modules.Common.{ℕ, suc, ◌+◌, ◌-◌, false, none, some, [], pos, pos_part, leb, arith}
use modules.Nlmsg.{Nlmsghdr, SkbApi, NlmsgApi, Progress}

abbrev pub header_of : (type pid : ℕ) → Nlmsghdr
header_of type pid = record {
  nlmsg_len = 16;
  nlmsg_type = type;
  nlmsg_flags = 0;
  nlmsg_seq = 0;
  nlmsg_pid = pid;
}

-- A buffer of messages with no payload, 16 bytes each: message `p` has the given header.
abbrev pub bare_nlmsgs : (ℕ → Nlmsghdr) → NlmsgApi ℕ
bare_nlmsgs headers = record {
  header = headers;
  nlmsg_data = λ p i. 0;
  wants_ack = λ p. false;
  nlmsg_ok = λ p n. leb 16 (pos_part n);
  nlmsg_next = λ p n. (suc p, pos (pos_part n - 16));
}

pub bare_nlmsgs-Progress : (headers : ℕ → Nlmsghdr) → Progress (bare_nlmsgs headers)
bare_nlmsgs-Progress headers = record { shrinks = λ p n good. ground arith }

-- Allocators that never fail, and allocators that always do.
abbrev pub ample_skbs : SkbApi
ample_skbs = record {
  nlmsg_new = λ size. some (record { len = 0; nlh = header_of 0 0; payload = [] });
  nlmsg_put = λ skb portid seq type len flags.
      some (record { len = len + 16; nlh = header_of type portid; payload = [] });
}

abbrev pub no_skbs : SkbApi
no_skbs = record { nlmsg_new = λ size. none; nlmsg_put = λ skb portid seq type len flags. none }
