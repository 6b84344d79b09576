-- ===== src/Notifier/Chain.antt =====
-- What regchain.c leaves on the chain, and whom notify.c reaches.
use modules.Common.{
  ℕ, ◌≡◌, refl, sym, ap, ◌∙◌, ◌⊎◌, List, [], ◌∷◌, ◌++◌, ℤ, pos, negsuc, map, append_assoc,
  append-nil,
}
use modules.Notifier.{
  NotifierBlock, Log, NotifierApi, run_all, IsNotifierApi, number_of, test_event, call_notifier,
}

-- The log after both events: those of the first come before those of the second.
abbrev pub heard_of : (event : ℕ) → List NotifierBlock → Log
heard_of event nbs = map (λ nb. (number_of nb, event)) nbs

run_all_lem :
    (event : ℕ) (nbs : List NotifierBlock) (log : Log)
    → run_all (test_event event) nbs log ≡ log ++ heard_of event nbs
run_all_lem event [] log = sym (append-nil log)
run_all_lem event (nb ∷ nbs) log =
    run_all_lem event nbs (log ++ (number_of nb, event) ∷ [])
    ∙ append_assoc log ((number_of nb, event) ∷ []) (heard_of event nbs)

module _ (api : NotifierApi) (laws : IsNotifierApi api) where
  -- Either all blocks go behind those that are there, or the result is -1 and those before the one
  -- that was refused stay there.
  abbrev LeftBy : List NotifierBlock → api.Chain → ℤ × api.Chain → Type 0
  LeftBy nbs c (ret, c') =
      ((ret ≡ pos 0) × (laws.members c' ≡ laws.members c ++ nbs))
      ⊎ ((before : List NotifierBlock) × (nb : NotifierBlock) × (after : List NotifierBlock) × (ret
            ≡ negsuc 0)
          × (nbs ≡ before ++ nb ∷ after)
          × (laws.members c' ≡ laws.members c ++ before))

  pub call_notifier_lem :
      (c : api.Chain) (log : Log)
      → call_notifier api c log
        ≡ (pos 0, log ++ (heard_of 1 (laws.members c) ++ heard_of 2 (laws.members c)))
  unfolding call_notifier
  call_notifier_lem c log =
      let ms = laws.members c in
      let l₁ = run_all (test_event 1) ms log in
      ap (λ p. api.call_chain c (test_event 2) p.1) (laws.calls c (test_event 1) log (λ nb l. refl))
      ∙ laws.calls c (test_event 2) l₁ (λ nb l. refl)
      ∙ ap (λ l. (pos 0, l))
          (run_all_lem 2 ms l₁
            ∙ ap (λ l. l ++ heard_of 2 ms) (run_all_lem 1 ms log)
            ∙ append_assoc log (heard_of 1 ms) (heard_of 2 ms))
