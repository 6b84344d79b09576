-- ===== src/Netctrl/Tests.antt =====
-- The program netctrl/app.c and the module netctrl/netctrl.c on concrete commands and messages.
use modules.Common.{
  length, ℕ, ◌+◌, ◌++◌, ◌≡◌, refl, ◌⊎◌, true, false, ◌||◌, Option, some, List, [], ◌∷◌, ℤ, pos,
  neg_einval, neg_enomem, leb, codes, Outcome, done, oops,
}
use modules.Nlmsg.Walk.{messages}
use modules.Nlmsg.Samples.{header_of, bare_nlmsgs, bare_nlmsgs-Progress}
use modules.Netctrl.Samples.{sizes, an_address, idle_module, memory, length_of, working}
use modules.Netctrl.Kernel.{Netctrl, datalen, netctrl_receive_msg, netctrl_receive_skb}
use modules.Nlmsg.{Nlmsghdr}
use modules.Netctrl.Roundtrip.{wire}
use modules.Netctrl.Kernel.{Printed, bytes_of}
use modules.Netctrl.Kernel.Receive.{is_known}
use modules.Netctrl.Kernel.Lines.{Prints, IsCut, netctrl_receive_msg_lem}
use modules.Netctrl.Kernel.Messages.{answers, netctrl_receive_skb_lem}
use modules.Netctrl.App.{str, Message, syscmd_proc, syscmd_parse_args, usage, ran, zero_cmd, main}
use modules.Netctrl.App.Args.{any_bad, last_command, main_lem}

-- A message with an address: 36 bytes are copied, 32 of the payload and 4 behind it.
abbrev with_address : Nlmsghdr
with_address = record (header_of 1 7) { nlmsg_len = 48 }

netctrl_receive_msg_lem_example :
    let o = netctrl_receive_msg sizes true with_address (memory (wire an_address)) idle_module in
    let n = datalen sizes 48 in
    let buf = bytes_of (memory (wire an_address)) 0 n in
    ((is_known 1 ≡ false) × (o ≡ done (neg_einval, idle_module)))
    ⊎ ((is_known 1 ≡ true) × (true ≡ false) × (o ≡ done (neg_enomem, idle_module)))
    ⊎ ((is_known 1 ≡ true)
        × (true ≡ true)
        × (((o ≡ oops) × IsCut buf)
            ⊎ ((lines : List Printed) × Prints buf lines
                × (o
                    ≡ done (
                      pos 0,
                      record idle_module {
                        bytes_live = idle_module.bytes_live + n;
                        log = idle_module.log ++ lines;
                      },
                    )))))
netctrl_receive_msg_lem_example =
    netctrl_receive_msg_lem sizes true with_address (memory (wire an_address)) idle_module

netctrl_receive_skb_lem_example :
    (o : Outcome Netctrl) × (netctrl_receive_skb
        (bare_nlmsgs (header_of 5))
        sizes
        true
        0
        32
        idle_module
      ≡ some o)
    × ((o ≡ oops)
        ⊎ ((s' : Netctrl) × (o ≡ done s')
            × (s'.acks
                ≡ answers
                    (bare_nlmsgs (header_of 5))
                    sizes
                    (messages (bare_nlmsgs (header_of 5)) 33 0 (pos 32)))))
netctrl_receive_skb_lem_example =
    netctrl_receive_skb_lem (bare_nlmsgs (header_of 5)) sizes 0 32 idle_module
      (bare_nlmsgs-Progress (header_of 5))

-- `-p 5320 -i 172.12.2.51`, and `-p 5320 -x`.
abbrev port_then_ip : List (ℕ × Option (List ℕ))
port_then_ip = (b'p', some (codes "5320")) ∷ (b'i', some (codes "172.12.2.51")) ∷ []

last_option_counts :
    syscmd_parse_args port_then_ip zero_cmd (pos 0)
    ≡ (record { type = 1; value = str (codes "172.12.2.51") }, pos 0)
unfolding syscmd_parse_args
last_option_counts = refl

abbrev five_words : List (List ℕ)
five_words = codes "netctrl" ∷ codes "-p" ∷ codes "5320" ∷ codes "-i" ∷ codes "172.12.2.51" ∷ []

main_lem_example :
    let o = main length_of working true (λ argv s l. port_then_ip) five_words in
    (((leb (length five_words) 1 || any_bad port_then_ip) ≡ true) × (o ≡ done usage))
    ⊎ ((ret : ℤ) × (message : Option Message) × ((leb (length five_words) 1 || any_bad port_then_ip)
          ≡ false)
        × (syscmd_proc length_of working true (last_command port_then_ip zero_cmd)
            ≡ done (ret, message))
        × (o ≡ done (ran message)))
main_lem_example = main_lem length_of working true (λ argv s l. port_then_ip) five_words refl
