-- ===== src/Capture/Client/Exchange.antt =====
-- The user program netlink/user_client.c against the module netlink/netlink.c.
use modules.Common.{
  ℕ, zero, suc, ◌+◌, ◌<◌, ◌≤◌, ◌≡◌, ◌≢◌, refl, true, none, some, List, [], ◌∷◌, ◌++◌, arith, ℤ, pos,
  negsuc, ◌^◌, replicate, length, strncpy, ◌⊎◌, inl, inr,
}
use modules.Nlmsg.{Nlmsghdr}
use modules.Capture.State.{CapState}
use modules.Capture.Users.{Users, max_tab_size, user_join, user_leave}
use modules.Capture.Users.Count
use modules.Capture.Users.Count.{occupied}
use modules.Capture.Users.Registered.{
  copies, Bag, Represents, join, leave, execute, spec, execute_refines,
}
use modules.Capture.Receive.{cap_receive_msg}
use modules.Capture.Client.{
  Call, sendmsg, recvmsg, exited, hello, bye, cap_add, cap_del, max_payload, receive_times, main,
}

-- With a positive argument the loop receives that many times.
pub receive_times_pos :
    (n fuel : ℕ) → n < fuel → receive_times fuel (pos (suc n)) ≡ some (replicate (suc n) recvmsg)
unfolding receive_times
receive_times_pos n zero h = absurd (omega arith)
receive_times_pos zero (suc fuel) h = refl
receive_times_pos (suc n) (suc fuel) h = ground (arith, receive_times_pos n fuel)

-- With an argument below 1 it has not ended after any number of rounds.
receive_times_neg : (n fuel : ℕ) → receive_times fuel (negsuc n) ≡ none
unfolding receive_times
receive_times_neg n zero = refl
receive_times_neg n (suc fuel) = rw (receive_times_neg (suc n) fuel) refl

receive_times_zero : (fuel : ℕ) → receive_times fuel (pos 0) ≡ none
unfolding receive_times
receive_times_zero zero = refl
receive_times_zero (suc fuel) = rw (receive_times_neg 0 fuel) refl

-- What the module does with the calls of one program.
unfoldable pub serve : List Call → CapState → CapState
serve [] s = s
serve (sendmsg nlh bytes ∷ calls) s = serve calls (cap_receive_msg none nlh s).1
serve (recvmsg ∷ calls) s = serve calls s
serve (exited ∷ calls) s = serve calls s

pub serve-append : (xs ys : List Call) (s : CapState) → serve (xs ++ ys) s ≡ serve ys (serve xs s)
unfolding serve
serve-append [] ys s = refl
serve-append (sendmsg nlh bytes ∷ xs) ys s = serve-append xs ys (cap_receive_msg none nlh s).1
serve-append (recvmsg ∷ xs) ys s = serve-append xs ys s
serve-append (exited ∷ xs) ys s = serve-append xs ys s

pub serve-receives : (n : ℕ) (s : CapState) → serve (replicate n recvmsg) s ≡ s
unfolding serve
serve-receives zero s = refl
serve-receives (suc n) s = serve-receives n s

-- Joining and leaving with room in the table leaves as many registrations of each pid as before.
pub join_leave :
    (pid : ℕ) (us : Users)
    → pid ≢ 0
    → Count.IsValid us
    → occupied us.usrtab < max_tab_size
    → let us' = (user_leave pid (user_join pid us).0).0 in
      Count.IsValid us'
      × (us'.usrcnt ≡ us.usrcnt)
      × ((q : ℕ) → q ≢ 0 → copies q us'.usrtab ≡ copies q us.usrtab)
unfolding execute spec
join_leave pid us p v room =
    let b : Bag = record { total = occupied us.usrtab; count = λ q. copies q us.usrtab } in
    let r : Represents us b = record { valid = v; total = refl; count = λ q n. refl } in
    let (yes₁, r₁) = execute_refines (join pid) us b p r in
    let (yes₂, r₂) = execute_refines (leave pid) (user_join pid us).0 (spec (join pid) b).0 p r₁ in
    (
      r₂.valid,
      ground (arith, r₂.valid.counted, r₂.total, v.counted),
      λ q n. ground (arith, r₂.count q n),
    )

-- The header that the program sends.
abbrev pub header : (nlmsg_space : ℕ → ℕ) → (getpid seq type : ℕ) → Nlmsghdr
header nlmsg_space getpid seq type = record {
  nlmsg_len = nlmsg_space max_payload;
  nlmsg_type = type;
  nlmsg_flags = 0;
  nlmsg_seq = seq;
  nlmsg_pid = getpid;
}

pub add_lem :
    (nlmsg_space : ℕ → ℕ) (getpid seq : ℕ) (s : CapState)
    → (cap_receive_msg none (header nlmsg_space getpid seq cap_add) s).1.users
      ≡ (user_join getpid s.users).0
unfolding cap_receive_msg
add_lem nlmsg_space getpid seq s = ground arith

pub del_lem :
    (nlmsg_space : ℕ → ℕ) (getpid seq : ℕ) (s : CapState)
    → let t = (cap_receive_msg none (header nlmsg_space getpid seq cap_del) s).1 in
      (t.users ≡ (user_leave getpid s.users).0) × (t.cap_nlk_portid ≡ 0)
unfolding cap_receive_msg
del_lem nlmsg_space getpid seq s = ground arith

-- The module after the calls of a whole run.
serve_lem :
    (nlmsg_space : ℕ → ℕ) (getpid seq seq' n : ℕ) (first last : List ℕ) (s : CapState)
    → let t =
        serve
          (sendmsg (header nlmsg_space getpid seq cap_add) first ∷ replicate (suc n) recvmsg
            ++ sendmsg (header nlmsg_space getpid seq' cap_del) last ∷ [])
          s in
      (t.users ≡ (user_leave getpid (user_join getpid s.users).0).0) × (t.cap_nlk_portid ≡ 0)
unfolding serve
serve_lem nlmsg_space getpid seq seq' n first last s =
    let del = sendmsg (header nlmsg_space getpid seq' cap_del) last ∷ [] in
    let t = (cap_receive_msg none (header nlmsg_space getpid seq cap_add) s).1 in
    let (left, off) = del_lem nlmsg_space getpid seq' t in
    rw (serve-append (replicate n recvmsg) del t, serve-receives n t)
      (rw (← add_lem nlmsg_space getpid seq s) left, off)

-- Run with a positive argument, and with no call failing, the program ends; it sends CAP_ADD, then
-- receives that many times, then sends CAP_DEL. If the module's table is valid and has room, the
-- module has no user to send to afterwards, and as many registrations of any pid other than 0 as before.
main_exchange :
    (nlmsg_space : ℕ → ℕ) (getpid seq seq' n fuel q : ℕ) (s : CapState)
    → n < fuel
    → getpid ≢ 0
    → q ≢ 0
    → Count.IsValid s.users
    → occupied s.users.usrtab < max_tab_size
    → (calls : List Call) × (main nlmsg_space getpid seq seq' true true true fuel (pos (suc n))
        ≡ some calls)
      × (calls
          ≡ sendmsg (header nlmsg_space getpid seq cap_add) (strncpy hello (length hello + 1))
              ∷ replicate (suc n) recvmsg
            ++ sendmsg (header nlmsg_space getpid seq' cap_del) (strncpy bye (length hello + 1))
              ∷ [])
      × ((serve calls s).cap_nlk_portid ≡ 0)
      × Count.IsValid (serve calls s).users
      × ((serve calls s).users.usrcnt ≡ s.users.usrcnt)
      × (copies q (serve calls s).users.usrtab ≡ copies q s.users.usrtab)
unfolding main
main_exchange nlmsg_space getpid seq seq' n fuel q s enough p qn v room =
    let (valid, count, same) = join_leave getpid s.users p v room in
    let (users, off) =
      serve_lem nlmsg_space getpid seq seq' n (strncpy hello (length hello + 1))
        (strncpy bye (length hello + 1)) s in
    (
      _,
      rw (receive_times_pos n fuel enough) refl,
      refl,
      off,
      rw users valid,
      rw users count,
      rw users (same q qn),
    )

-- Run with an argument below 1 the program has not ended, and has not sent CAP_DEL, after any
-- number of rounds up to that at which its `int` counter would overflow.
pub main-endless :
    (nlmsg_space : ℕ → ℕ) (getpid seq seq' fuel : ℕ) (time : ℤ)
    → ((time ≡ pos 0) × (fuel ≤ 2 ^ 31)) ⊎ ((k : ℕ) × (time ≡ negsuc k) × (k + 1 + fuel ≤ 2 ^ 31))
    → main nlmsg_space getpid seq seq' true true true fuel time ≡ none
unfolding main
main-endless nlmsg_space getpid seq seq' fuel time (inl (e, far)) =
    rw (e, receive_times_zero fuel) refl
main-endless nlmsg_space getpid seq seq' fuel time (inr (k, e, far)) =
    rw (e, receive_times_neg k fuel) refl
