-- ===== src/Kthread/Mythread.antt =====
-- kthread/mythread.c: one thread, whose pointer is tested for NULL.
use modules.Common.{
  ℕ, ◌≡◌, ◌≢◌, refl, ◌⊎◌, inl, inr, List, [], ◌∷◌, ◌++◌, ℤ, pos, replicate, Outcome, done, oops,
}

-- A result of `kthread_run`: documented to be a thread or an error pointer.
pub data TaskPointer : Type 0 where
  null : TaskPointer
  err_ptr : TaskPointer
  task : TaskPointer

-- The texts that are printed, but that at the start.
pub data ThreadMessage : Type 0 where
  created_successfully : ThreadMessage
  created_failed : ThreadMessage
  func_running : ThreadMessage
  func_stopping : ThreadMessage
  cleaning_up : ThreadMessage
  thread_stopped : ThreadMessage

-- `thread` and what is printed; `kthread_run` gives the pointer.
unfoldable pub minit_thread : (kthread_run : TaskPointer) → ℤ × TaskPointer × List ThreadMessage
minit_thread null = (pos 0, null, created_failed ∷ [])
minit_thread err_ptr = (pos 0, err_ptr, created_successfully ∷ [])
minit_thread task = (pos 0, task, created_successfully ∷ [])

-- The thread until `kthread_should_stop` is true, after it was false some times.
abbrev pub thread_func : (rounds : ℕ) → List ThreadMessage
thread_func rounds = replicate rounds func_running ++ func_stopping ∷ []

-- `kthread_stop` waits for the end of the thread; it uses the pointer, also an error pointer. The
-- rounds are those that the thread has until then.
unfoldable pub mexit_thread : (rounds : ℕ) → TaskPointer → Outcome (List ThreadMessage)
mexit_thread rounds null = done (cleaning_up ∷ [])
mexit_thread rounds err_ptr = oops
mexit_thread rounds task = done (cleaning_up ∷ (thread_func rounds ++ thread_stopped ∷ []))

-- With what `kthread_run` gives, loading says that the thread was created; unloading waits for its
-- last message, or faults where it was not created.
mexit_thread_lem :
    (kthread_run : TaskPointer) (rounds : ℕ)
    → kthread_run ≢ null
    → let (ret, thread, said) = minit_thread kthread_run in
      (ret ≡ pos 0)
      × (said ≡ created_successfully ∷ [])
      × (((kthread_run ≡ err_ptr) × (mexit_thread rounds thread ≡ oops))
          ⊎ (mexit_thread rounds thread
              ≡ done (
                  cleaning_up
                  ∷ ((replicate rounds func_running ++ func_stopping ∷ [])
                      ++ thread_stopped ∷ []))))
unfolding minit_thread mexit_thread
mexit_thread_lem null rounds some_pointer = absurd (some_pointer refl)
mexit_thread_lem err_ptr rounds some_pointer = (refl, refl, inl (refl, refl))
mexit_thread_lem task rounds some_pointer = (refl, refl, inr refl)
