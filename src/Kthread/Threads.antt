-- ===== src/Kthread/Threads.antt =====
-- Which steps the threads of kthread/kthread_sema.c can take.
use modules.Common.{◌≡◌, Bool-cases, refl, ap, ◌∙◌, ◌⊎◌, inl, inr}
use modules.Kthread.{
  RwSemaphore, IsRwSemaphore, ReaderAt, read_test, read_waits, read_locked, read_printed, read_gone,
  WriterAt, write_test, write_waits, write_locked, write_counted, write_printed, write_gone, State,
  Step, read_enter, write_enter, down_read, read_print, up_read, read_exit, down_write, count,
  write_print, up_write, write_exit,
}
use modules.Kthread.Invariant.{IsLocked, read_holds, write_holds}

pub ReaderAt-cases :
    (r : ReaderAt)
    → (r ≡ read_test) ⊎ (r ≡ read_waits) ⊎ (r ≡ read_locked) ⊎ (r ≡ read_printed) ⊎ (r ≡ read_gone)
ReaderAt-cases read_test = inl refl
ReaderAt-cases read_waits = inr (inl refl)
ReaderAt-cases read_locked = inr (inr (inl refl))
ReaderAt-cases read_printed = inr (inr (inr (inl refl)))
ReaderAt-cases read_gone = inr (inr (inr (inr refl)))

pub WriterAt-cases :
    (w : WriterAt)
    → (w ≡ write_test)
      ⊎ (w ≡ write_waits)
      ⊎ (w ≡ write_locked)
      ⊎ (w ≡ write_counted)
      ⊎ (w ≡ write_printed)
      ⊎ (w ≡ write_gone)
WriterAt-cases write_test = inl refl
WriterAt-cases write_waits = inr (inl refl)
WriterAt-cases write_locked = inr (inr (inl refl))
WriterAt-cases write_counted = inr (inr (inr (inl refl)))
WriterAt-cases write_printed = inr (inr (inr (inr (inl refl))))
WriterAt-cases write_gone = inr (inr (inr (inr (inr refl))))

module _ (api : RwSemaphore) (laws : IsRwSemaphore api) where
  -- A thread waits for the semaphore only.
  reader_goes :
      (s : State api)
      → IsLocked api laws s
      → (s.reader ≡ read_gone)
        ⊎ (s.reader ≡ read_waits)
        ⊎ ((u : State api) × Step api s u × (u.main ≡ s.main))
  reader_goes s l = elim (ReaderAt-cases s.reader) [
    | inl at ↦ elim (Bool-cases s.read_stop) [
      | inl stop ↦ inr (inr (_, read_exit at stop, refl))
      | inr go ↦ inr (inr (_, read_enter at go, refl))
    ]
    | inr (inl at) ↦ inr (inl at)
    | inr (inr (inl at)) ↦ inr (inr (_, read_print at, refl))
    | inr (inr (inr (inl at))) ↦
        let (sem, u) = laws.read_ends s.rwsem 0 (l.reads ∙ ap read_holds at) in
        inr (inr (_, up_read sem at u, refl))
    | inr (inr (inr (inr at))) ↦ inl at
  ]

  writer_goes :
      (s : State api)
      → IsLocked api laws s
      → (s.writer ≡ write_gone)
        ⊎ (s.writer ≡ write_waits)
        ⊎ ((u : State api) × Step api s u × (u.main ≡ s.main))
  writer_goes s l = elim (WriterAt-cases s.writer) [
    | inl at ↦ elim (Bool-cases s.write_stop) [
      | inl stop ↦ inr (inr (_, write_exit at stop, refl))
      | inr go ↦ inr (inr (_, write_enter at go, refl))
    ]
    | inr (inl at) ↦ inr (inl at)
    | inr (inr (inl at)) ↦ inr (inr (_, count at, refl))
    | inr (inr (inr (inl at))) ↦ inr (inr (_, write_print at, refl))
    | inr (inr (inr (inr (inl at)))) ↦
        let (sem, u) = laws.write_ends s.rwsem (l.writes ∙ ap write_holds at) in
        inr (inr (_, up_write sem at u, refl))
    | inr (inr (inr (inr (inr at)))) ↦ inl at
  ]

  -- Where neither holds the semaphore, one that waits for it gets it.
  pub threads_go :
      (s : State api)
      → IsLocked api laws s
      → ((s.reader ≡ read_gone) × (s.writer ≡ write_gone))
        ⊎ ((u : State api) × Step api s u × (u.main ≡ s.main))
  threads_go s l = elim (reader_goes s l) [
    | inl gone ↦ elim (writer_goes s l) [
      | inl gone' ↦ inl (gone, gone')
      | inr (inl at) ↦
          let (sem, d) =
            laws.may_write s.rwsem (l.writes ∙ ap write_holds at) (l.reads ∙ ap read_holds gone) in
          inr (_, down_write sem at d, refl)
      | inr (inr next) ↦ inr next
    ]
    | inr (inl at) ↦ elim (writer_goes s l) [
      | inl gone ↦
          let (sem, d) =
            laws.may_read s.rwsem (l.writes ∙ ap write_holds gone) (l.reads ∙ ap read_holds at) in
          inr (_, down_read sem at d, refl)
      | inr (inl at') ↦
          let (sem, d) =
            laws.may_read s.rwsem (l.writes ∙ ap write_holds at') (l.reads ∙ ap read_holds at) in
          inr (_, down_read sem at d, refl)
      | inr (inr next) ↦ inr next
    ]
    | inr (inr next) ↦ inr next
  ]
