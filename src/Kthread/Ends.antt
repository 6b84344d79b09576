-- ===== src/Kthread/Ends.antt =====
-- Each step of kthread/kthread_sema.c, and the end of the thread that a call of kthread_stop waits for.
use modules.Common.{ℕ, ◌+◌, ◌≤◌, ◌≡◌, refl, ap, ◌∙◌, ◌⊎◌, inl, inr, true, arith}
use modules.Kthread.{
  RwSemaphore, IsRwSemaphore, ReaderAt, read_test, read_waits, read_locked, read_printed, read_gone,
  WriterAt, write_test, write_waits, write_locked, write_counted, write_printed, write_gone,
  ModuleAt, loaded, stops_writer, stops_reader, unloaded, faulted, State, Step, read_enter,
  write_enter, down_read, read_print, up_read, read_exit, down_write, count, write_print, up_write,
  write_exit, stop_writer, stop_reader, unload, bad_writer, bad_reader,
}
use modules.Kthread.Invariant.{IsLocked, read_holds, write_holds}
use modules.Kthread.Threads.{ReaderAt-cases, WriterAt-cases}

-- How many steps a thread that is told to stop has before it.
abbrev pub read_left : ReaderAt → ℕ
read_left read_waits = 4
read_left read_locked = 3
read_left read_printed = 2
read_left read_test = 1
read_left read_gone = 0

abbrev pub write_left : WriterAt → ℕ
write_left write_waits = 5
write_left write_locked = 4
write_left write_counted = 3
write_left write_printed = 2
write_left write_test = 1
write_left write_gone = 0

-- How many steps the reader has before it gives the semaphore up that it holds.
abbrev pub read_keeps : ReaderAt → ℕ
read_keeps read_locked = 2
read_keeps read_printed = 1
read_keeps _ = 0

module _ (api : RwSemaphore) where
  -- The writer waits for the semaphore, and the reader, which holds it, can take a step towards giving
  -- it up.
  abbrev pub WriterWaits : State api → Type 0
  WriterWaits s =
      (s.writer ≡ write_waits)
      × ((u : State api) × Step api s u
          × (u.writer ≡ write_waits)
          × (read_keeps u.reader + 1 ≡ read_keeps s.reader))

  -- The steps that are left to the thread that a call of `kthread_stop` waits for.
  abbrev pub remaining : ModuleAt → State api → ℕ
  remaining loaded s = 0
  remaining stops_writer s = write_left s.writer
  remaining stops_reader s = read_left s.reader
  remaining unloaded s = 0
  remaining faulted s = 0

module _ (api : RwSemaphore) (laws : IsRwSemaphore api) where
  -- The writer that waits gets the semaphore, or the reader goes on.
  writer_waits :
      (s : State api)
      → IsLocked api laws s
      → s.writer ≡ write_waits
      → ((t : State api) × Step api s t × (write_left t.writer + 1 ≡ write_left s.writer))
        ⊎ WriterWaits api s
  writer_waits s l at =
      let gets : read_holds s.reader ≡ 0
          → (t : State api) × Step api s t × (write_left t.writer + 1 ≡ write_left s.writer) =
        λ free.
          let (sem, d) = laws.may_write s.rwsem (l.writes ∙ ap write_holds at) (l.reads ∙ free) in
          (_, down_write sem at d, rw at refl) in
      elim (ReaderAt-cases s.reader) [
        | inl r ↦ inl (gets (ap read_holds r))
        | inr (inl r) ↦ inl (gets (ap read_holds r))
        | inr (inr (inl r)) ↦ inr (at, (_, read_print r, at, rw r refl))
        | inr (inr (inr (inl r))) ↦
            let (sem, u) = laws.read_ends s.rwsem 0 (l.reads ∙ ap read_holds r) in
            inr (at, (_, up_read sem r u, at, rw r refl))
        | inr (inr (inr (inr r))) ↦ inl (gets (ap read_holds r))
      ]

  -- The thread that is told to stop has ended, or can take a step that brings its end nearer, or it
  -- waits for the other one.
  pub writer_ends :
      (s : State api)
      → IsLocked api laws s
      → s.write_stop ≡ true
      → (s.writer ≡ write_gone)
        ⊎ ((t : State api) × Step api s t × (write_left t.writer + 1 ≡ write_left s.writer))
        ⊎ WriterWaits api s
  writer_ends s l stop = elim (WriterAt-cases s.writer) [
    | inl at ↦ inr (inl (_, write_exit at stop, rw at refl))
    | inr (inl at) ↦ inr (writer_waits s l at)
    | inr (inr (inl at)) ↦ inr (inl (_, count at, rw at refl))
    | inr (inr (inr (inl at))) ↦ inr (inl (_, write_print at, rw at refl))
    | inr (inr (inr (inr (inl at)))) ↦
        let (sem, u) = laws.write_ends s.rwsem (l.writes ∙ ap write_holds at) in
        inr (inl (_, up_write sem at u, rw at refl))
    | inr (inr (inr (inr (inr at)))) ↦ inl at
  ]

  -- The reader is told to stop when the writer has ended.
  pub reader_ends :
      (s : State api)
      → IsLocked api laws s
      → s.writer ≡ write_gone
      → s.read_stop ≡ true
      → (s.reader ≡ read_gone)
        ⊎ ((t : State api) × Step api s t × (read_left t.reader + 1 ≡ read_left s.reader))
  reader_ends s l ended stop = elim (ReaderAt-cases s.reader) [
    | inl at ↦ inr (_, read_exit at stop, rw at refl)
    | inr (inl at) ↦
        let (sem, d) =
          laws.may_read s.rwsem (l.writes ∙ ap write_holds ended) (l.reads ∙ ap read_holds at) in
        inr (_, down_read sem at d, rw at refl)
    | inr (inr (inl at)) ↦ inr (_, read_print at, rw at refl)
    | inr (inr (inr (inl at))) ↦
        let (sem, u) = laws.read_ends s.rwsem 0 (l.reads ∙ ap read_holds at) in
        inr (_, up_read sem at u, rw at refl)
    | inr (inr (inr (inr at))) ↦ inl at
  ]

  -- No step takes it away from its end.
  pub writer_stays :
      (s t : State api)
      → s.write_stop ≡ true
      → Step api s t
      → (write_left t.writer ≤ write_left s.writer) × (t.write_stop ≡ true)
  writer_stays s t stop (read_enter at go) = (omega arith, stop)
  writer_stays s t stop (write_enter at go) = absurd (cc)
  writer_stays s t stop (down_read sem at d) = (omega arith, stop)
  writer_stays s t stop (read_print at) = (omega arith, stop)
  writer_stays s t stop (up_read sem at u) = (omega arith, stop)
  writer_stays s t stop (read_exit at end) = (omega arith, stop)
  writer_stays s t stop (down_write sem at d) = (ground (arith, at), stop)
  writer_stays s t stop (count at) = (ground (arith, at), stop)
  writer_stays s t stop (write_print at) = (ground (arith, at), stop)
  writer_stays s t stop (up_write sem at u) = (ground (arith, at), stop)
  writer_stays s t stop (write_exit at end) = (ground (arith, at), stop)
  writer_stays s t stop (stop_writer at made) = (omega arith, refl)
  writer_stays s t stop (stop_reader at gone made) = (omega arith, stop)
  writer_stays s t stop (unload at gone) = (omega arith, stop)
  writer_stays s t stop (bad_writer at made) = (omega arith, stop)
  writer_stays s t stop (bad_reader at gone made) = (omega arith, stop)

  pub reader_stays :
      (s t : State api)
      → s.read_stop ≡ true
      → Step api s t
      → (read_left t.reader ≤ read_left s.reader) × (t.read_stop ≡ true)
  reader_stays s t stop (read_enter at go) = absurd (cc)
  reader_stays s t stop (write_enter at go) = (omega arith, stop)
  reader_stays s t stop (down_read sem at d) = (ground (arith, at), stop)
  reader_stays s t stop (read_print at) = (ground (arith, at), stop)
  reader_stays s t stop (up_read sem at u) = (ground (arith, at), stop)
  reader_stays s t stop (read_exit at end) = (ground (arith, at), stop)
  reader_stays s t stop (down_write sem at d) = (omega arith, stop)
  reader_stays s t stop (count at) = (omega arith, stop)
  reader_stays s t stop (write_print at) = (omega arith, stop)
  reader_stays s t stop (up_write sem at u) = (omega arith, stop)
  reader_stays s t stop (write_exit at end) = (omega arith, stop)
  reader_stays s t stop (stop_writer at made) = (omega arith, stop)
  reader_stays s t stop (stop_reader at gone made) = (omega arith, refl)
  reader_stays s t stop (unload at gone) = (omega arith, stop)
  reader_stays s t stop (bad_writer at made) = (omega arith, stop)
  reader_stays s t stop (bad_reader at gone made) = (omega arith, stop)
