-- ===== src/Notifier/Tests.antt =====
-- The modules of notifierchain/ with a chain that takes two blocks at most.
use modules.Common.{
  ◌≡◌, refl, ap, List, [], ◌∷◌, ◌++◌, pos, negsuc, is_nonzero, length, ltb, if◌then◌else◌, arith,
}
use modules.Notifier.{NotifierBlock, NotifierApi, run_all, IsNotifierApi}

abbrev but_first : List NotifierBlock → List NotifierBlock
but_first [] = []
but_first (nb ∷ nbs) = nbs

-- It takes back its first block only, whichever is named.
abbrev small : NotifierApi
small = record {
  Chain = List NotifierBlock;
  register = λ c nb. if ltb (length c) 2 then (pos 0, c ++ nb ∷ []) else (negsuc 11, c);
  unregister = λ c nb. (pos 0, but_first c);
  call_chain = λ c notifier_call log. (pos 0, run_all notifier_call c log);
}

small-registers :
    (c : List NotifierBlock) (nb : NotifierBlock)
    → let (err, c') = small.register c nb in c' ≡ (if is_nonzero err then c else c ++ nb ∷ [])
small-registers c nb = ground arith

abbrev small-IsNotifierApi : IsNotifierApi small
small-IsNotifierApi = record {
  members = λ c. c;
  registers = small-registers;
  unregisters = λ c nb nbs h. ap but_first h;
  calls = λ c notifier_call log h. refl;
}
