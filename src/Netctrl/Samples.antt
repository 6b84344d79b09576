-- ===== src/Netctrl/Samples.antt =====
-- Sample values for netctrl/netctrl.c and netctrl/app.c.
use modules.Common.{ℕ, ◌+◌, ◌≡◌, refl, true, List, [], pos, get_or, codes, strncpy, le16}
use modules.Netctrl.Kernel.{Netctrl, NlmsgSizes, bytes_of}
use modules.Netctrl.Kernel.Receive.{Documented}
use modules.Netctrl.App.{Sockets}
use modules.Netctrl.Roundtrip.{Request, ip, wire, Connected}

abbrev pub sizes : NlmsgSizes
sizes = record { nlmsg_space_zero = 16; nlmsg_alignto = 4 }

pub sizes-Documented : Documented sizes
sizes-Documented = record { space = refl; alignto = refl }

abbrev pub idle_module : Netctrl
idle_module = record { netctrl_sock = true; registered = []; bytes_live = 0; log = []; acks = [] }

-- A memory that holds some bytes, and ones behind them.
abbrev pub memory : List ℕ → ℕ → ℕ
memory bytes i = get_or bytes i 1

abbrev pub length_of : ℕ → ℕ
length_of n = n + 16

abbrev pub working : Sockets
working = record {
  getpid = 42;
  socket_ok = true;
  bind_result = pos 0;
  calloc_ok = true;
  sendmsg_result = pos 1;
}

pub working-Connected : Connected working
working-Connected = record { socket = refl; bind = refl; calloc = refl }

abbrev pub an_address : Request
an_address = ip (codes "172.12.2.51")

pub an_address-bytes : bytes_of (memory (wire an_address)) 0 36 ≡ wire an_address
unfolding bytes_of strncpy le16
an_address-bytes = refl
