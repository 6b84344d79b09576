-- ===== src/FuncExecTime/Tests.antt =====
-- Three calls of the probed function, of which one is a kernel thread's and two overlap.
use modules.Common.{◌+◌, ◌-◌, ◌%◌, ◌^◌, ◌≡◌, true, false, List, [], ◌∷◌, ◌++◌, arith}
use modules.FuncExecTime.{Report, Fet, HandlerCall, enter, return, call_handlers}
use modules.FuncExecTime.Durations.{returns, ret_handler_lem}

abbrev fresh : Fet
fresh = record { count = 0; entry_stamp = λ ri. 0; traced = []; is_registered = true }

abbrev before : List HandlerCall
before = enter 0 false 5 ∷ enter 1 true 10 ∷ []

abbrev between : List HandlerCall
between = return 1 0 25 ∷ []

ret_handler_lem_example :
    (earlier : List Report) × ((call_handlers
        (before ++ enter 2 true 20 ∷ (between ++ return 2 7 100 ∷ []))
        fresh).traced
      ≡ earlier
        ++ record {
          number = (0 + (returns before + returns between)) % 2 ^ 64;
          retval = 7 % 2 ^ 32;
          delta = 100 - 20;
        }
          ∷ [])
ret_handler_lem_example =
    ret_handler_lem before between 2 7 20 100 fresh (λ e. absurd (omega (arith, e)), tt)
      (omega arith) (omega arith) (omega arith)
