-- ===== src/Nic/Garp/Send.antt =====
-- Which packets the loops of nic/garp.c send.
use modules.Common.{
  ℕ, suc, ◌+◌, ◌-◌, ◌*◌, ◌≡◌, sym, subst, ap, ap₂, ◌∙◌, inl, inr, false, none, some, List, [], ◌∷◌,
  ◌++◌, ℤ, pos, length, is_neg, Outcome, done, All, arith, append_assoc, append-nil,
}
use modules.Nic.Skb.{NetDevice, SkbApi, Documented}
use modules.Nic.Garp.{
  Announcer, xmit_or_free, garp_send, announce_all, garp_send_gratuitous_arp, garp_init,
}
use modules.Nic.Garp.Announce.{IsAnnouncement, IsEthernet, garp_create_lem}

-- The frames that a run over some addresses adds, from a number of call on: none where there was no
-- memory, and an announcement of the address everywhere else.
pub data Announces (apis : ℕ → SkbApi) (dev : NetDevice)
    : (call : ℕ) (ifas frames : List (List ℕ)) → Type 0 where
  over : {call : ℕ} → Announces apis dev call [] []
  missed :
      {call : ℕ} {ifa : List ℕ} {ifas frames : List (List ℕ)}
      → (apis call).alloc_skb (28 + dev.reserved_space + dev.needed_tailroom) ≡ none
      → Announces apis dev (suc call) ifas frames
      → Announces apis dev call (ifa ∷ ifas) frames
  heard :
      {call : ℕ} {ifa frame : List ℕ} {ifas frames : List (List ℕ)}
      → IsAnnouncement dev ifa frame
      → Announces apis dev (suc call) ifas frames
      → Announces apis dev call (ifa ∷ ifas) (frame ∷ frames)

-- What the loop does when no packet is refused.
module _ (apis : ℕ → SkbApi) (dev_queue_xmit : ℕ → List ℕ → ℤ) (dev : NetDevice)
    (ds : (call : ℕ) → Documented (apis call))
    (goes : (call : ℕ) (frame : List ℕ) → is_neg (dev_queue_xmit call frame) ≡ false)
    (e : IsEthernet dev) where
  pub announce_all-Announces :
      (ifas : List (List ℕ))
      → All (λ ifa. length ifa ≡ 4) ifas
      → (w : Announcer)
      → (frames : List (List ℕ)) × (announce_all apis dev_queue_xmit 28 dev ifas w
          ≡ done (record w { calls = length ifas + w.calls; sent = w.sent ++ frames }))
        × Announces apis dev w.calls ifas frames
  unfolding announce_all garp_send xmit_or_free
  announce_all-Announces [] four w = (
    [],
    ap₂ (λ n sent. done (record w { calls = n; sent = sent })) (omega arith)
        (sym (append-nil w.sent)),
    over,
  )
  announce_all-Announces (ifa ∷ ifas) four w =
      elim (garp_create_lem (apis w.calls) dev ifa (ds w.calls) e four.0) [
        | inl (missing, null) ↦
            let (frames, runs, good) =
              announce_all-Announces ifas four.1 (record w { calls = suc w.calls }) in
            (
              frames,
              rw null (
                  runs
                  ∙ ap (λ n. done (record w { calls = n; sent = w.sent ++ frames })) (omega arith)),
              missed missing good,
            )
        | inr (skb, made, announced) ↦
            let (frames, runs, good) =
              announce_all-Announces ifas four.1
                (record w { calls = suc w.calls; sent = w.sent ++ skb.bytes ∷ [] }) in
            (
              skb.bytes ∷ frames,
              rw (made, goes w.calls skb.bytes)
                  (runs
                    ∙ ap₂ (λ n sent. done (record w { calls = n; sent = sent })) (omega arith)
                        (append_assoc w.sent (skb.bytes ∷ []) frames)),
              heard announced good,
            )
      ]

-- A run after a run.
Announces-append :
    (apis : ℕ → SkbApi) (dev : NetDevice) (call : ℕ) (xs ys fs gs : List (List ℕ))
    → Announces apis dev call xs fs
    → Announces apis dev (length xs + call) ys gs
    → Announces apis dev call (xs ++ ys) (fs ++ gs)
Announces-append apis dev call [] ys fs gs over b =
    subst (λ n. Announces apis dev n ys gs) (omega arith) b
Announces-append apis dev call (x ∷ xs) ys fs gs (missed m a) b = missed m (
    Announces-append apis dev (suc call) xs ys _ gs a
      (subst (λ n. Announces apis dev n ys gs) (omega arith) b))
Announces-append apis dev call (x ∷ xs) ys fs gs (heard m a) b = heard m (
    Announces-append apis dev (suc call) xs ys _ gs a
      (subst (λ n. Announces apis dev n ys gs) (omega arith) b))

-- The state after three runs, summed up.
told :
    (w : Announcer) (n : ℕ) (f₁ f₂ f₃ : List (List ℕ))
    → ◌≡◌ {A = Outcome (ℤ × Announcer)}
        (done (
          pos 0,
          record w {
            calls = n + (n + (n + w.calls));
            dev_refs = w.dev_refs + 1 - 1;
            sent = ((w.sent ++ f₁) ++ f₂) ++ f₃;
          },
        ))
        (done (pos 0, record w { calls = 3 * n + w.calls; sent = w.sent ++ (f₁ ++ (f₂ ++ f₃)) }))
told w n f₁ f₂ f₃ = grind (
  arith,
  append_assoc w.sent f₁ f₂,
  append_assoc (w.sent ++ f₁) f₂ f₃,
  append_assoc w.sent f₁ (f₂ ++ f₃),
)

-- Loading the module with an Ethernet eth0 that has addresses of 4 bytes, where the kernel's
-- functions do what is documented and no packet is refused: the result is 0, the reference is given
-- back, and three times over the list, in its order, each address is announced wherever there is
-- memory for it.
pub garp_init-Announces :
    (apis : ℕ → SkbApi) (dev_queue_xmit : ℕ → List ℕ → ℤ) (dev : NetDevice) (ifas : List (List ℕ))
    → ((call : ℕ) → Documented (apis call))
    → ((call : ℕ) (frame : List ℕ) → is_neg (dev_queue_xmit call frame) ≡ false)
    → IsEthernet dev
    → All (λ ifa. length ifa ≡ 4) ifas
    → (w : Announcer)
    → (frames : List (List ℕ)) × (garp_init apis dev_queue_xmit 28 (some (dev, some ifas)) w
        ≡ done (pos 0, record w { calls = 3 * length ifas + w.calls; sent = w.sent ++ frames }))
      × Announces apis dev w.calls (ifas ++ (ifas ++ ifas)) frames
unfolding garp_init garp_send_gratuitous_arp
garp_init-Announces apis dev_queue_xmit dev ifas ds goes e four w =
    let n = length ifas in
    let w₀ : Announcer = record w { dev_refs = w.dev_refs + 1 } in
    let (f₁, r₁, a₁) = announce_all-Announces apis dev_queue_xmit dev ds goes e ifas four w₀ in
    let w₁ : Announcer = record w₀ { calls = n + w.calls; sent = w.sent ++ f₁ } in
    let (f₂, r₂, a₂) = announce_all-Announces apis dev_queue_xmit dev ds goes e ifas four w₁ in
    let w₂ : Announcer = record w₀ { calls = n + (n + w.calls); sent = (w.sent ++ f₁) ++ f₂ } in
    let (f₃, r₃, a₃) = announce_all-Announces apis dev_queue_xmit dev ds goes e ifas four w₂ in
    (
      f₁ ++ (f₂ ++ f₃),
      rw (r₁, r₂, r₃) (told w n f₁ f₂ f₃),
      Announces-append apis dev w.calls ifas (ifas ++ ifas) f₁ (f₂ ++ f₃) a₁
          (Announces-append apis dev (n + w.calls) ifas ifas f₂ f₃ a₂ a₃),
    )
