-- ===== src/Notifier.antt =====
-- notifierchain/: buildchain.c keeps a chain of notifiers, regchain.c puts three on it, and notify.c
-- runs it twice. The kernel's chains are a parameter.
pub mod Chain
mod Tests
use modules.Common.{ℕ, ◌≡◌, List, [], ◌∷◌, ◌++◌, ℤ, pos, negsuc, is_nonzero, if◌then◌else◌}

-- struct notifier_block, by its name.
pub data NotifierBlock : Type 0 where
  test_notifier1 : NotifierBlock
  test_notifier2 : NotifierBlock
  test_notifier3 : NotifierBlock

-- What the callbacks print: which one ran, and the number of the event.
abbrev pub Log : Type 0
Log = List (ℕ × ℕ)

-- `raw_notifier_chain_register`, `_unregister` and `raw_notifier_call_chain`, which is given the
-- callbacks. `Chain` is struct raw_notifier_head with what hangs on it.
pub record NotifierApi : Type 1 where
  pub Chain : Type 0
  pub register : Chain → NotifierBlock → ℤ × Chain
  pub unregister : Chain → NotifierBlock → ℤ × Chain
  pub call_chain : Chain → (NotifierBlock → Log → ℤ × Log) → Log → ℤ × Log

-- The callbacks in turn.
abbrev pub run_all : (NotifierBlock → Log → ℤ × Log) → List NotifierBlock → Log → Log
run_all notifier_call [] log = log
run_all notifier_call (nb ∷ nbs) log = run_all notifier_call nbs (notifier_call nb log).1

-- What is documented of a chain, where no block has a priority. A block goes behind those that are
-- there or is refused; callbacks that return NOTIFY_DONE, which is 0, are all run.
pub record IsNotifierApi (api : NotifierApi) : Type 0 where
  pub members : api.Chain → List NotifierBlock
  pub registers :
      (c : api.Chain) (nb : NotifierBlock)
      → let (err, c') = api.register c nb in
        members c' ≡ (if is_nonzero err then members c else members c ++ nb ∷ [])
  pub unregisters :
      (c : api.Chain) (nb : NotifierBlock) (nbs : List NotifierBlock)
      → members c ≡ nb ∷ nbs
      → members (api.unregister c nb).1 ≡ nbs
  pub calls :
      (c : api.Chain) (notifier_call : NotifierBlock → Log → ℤ × Log) (log : Log)
      → ((nb : NotifierBlock) (l : Log) → (notifier_call nb l).0 ≡ pos 0)
      → api.call_chain c notifier_call log ≡ (pos 0, run_all notifier_call (members c) log)

module _ (api : NotifierApi) where
  abbrev pub register_test_notifier : NotifierBlock → api.Chain → ℤ × api.Chain
  register_test_notifier nb test_chain = api.register test_chain nb

  abbrev pub unregister_test_notifier : NotifierBlock → api.Chain → ℤ × api.Chain
  unregister_test_notifier nb test_chain = api.unregister test_chain nb

  abbrev pub test_notifier_call_chain :
      (val : ℕ) → (ℕ → NotifierBlock → Log → ℤ × Log) → api.Chain → Log → ℤ × Log
  test_notifier_call_chain val notifier_call test_chain log =
      api.call_chain test_chain (notifier_call val) log

-- `test_event1`, `test_event2` and `test_event3`.
abbrev pub number_of : NotifierBlock → ℕ
number_of test_notifier1 = 1
number_of test_notifier2 = 2
number_of test_notifier3 = 3

abbrev pub test_event : (event : ℕ) → NotifierBlock → Log → ℤ × Log
test_event event nb log = (pos 0, log ++ (number_of nb, event) ∷ [])

module _ (api : NotifierApi) where
  -- `reg_notifier` from one of its three blocks on: -1 at the first that is refused.
  pub reg_rest : List NotifierBlock → api.Chain → ℤ × api.Chain
  reg_rest [] c = (pos 0, c)
  reg_rest (nb ∷ nbs) c =
      let (err, c') = register_test_notifier api nb c in
      let rest = reg_rest nbs c' in if is_nonzero err then (negsuc 0, c') else rest

  unfoldable pub reg_notifier : api.Chain → ℤ × api.Chain
  unfolding reg_rest
  reg_notifier c = reg_rest (test_notifier1 ∷ test_notifier2 ∷ test_notifier3 ∷ []) c

  unfoldable pub unregister_notifier : api.Chain → api.Chain
  unregister_notifier c =
      let c₁ = (unregister_test_notifier api test_notifier1 c).1 in
      let c₂ = (unregister_test_notifier api test_notifier2 c₁).1 in
      (unregister_test_notifier api test_notifier3 c₂).1

  -- The result of the second call is returned.
  unfoldable pub call_notifier : api.Chain → Log → ℤ × Log
  call_notifier c log =
      test_notifier_call_chain api 2 test_event c
        (test_notifier_call_chain api 1 test_event c log).1
