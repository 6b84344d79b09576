-- ===== src/Kthread/Phases.antt =====
-- What holds at each point of the exit of kthread/kthread_sema.c.
use modules.Common.{◌≡◌, ◌≢◌, subst, refl, ◌⊎◌, inl, inr, Bool, true, false}
use modules.Kthread.{
  RwSemaphore, ReaderAt, read_test, read_waits, read_locked, read_printed, read_gone, WriterAt,
  write_test, write_waits, write_locked, write_counted, write_printed, write_gone, ModuleAt, loaded,
  stops_writer, stops_reader, unloaded, faulted, State, Step, read_enter, write_enter, down_read,
  read_print, up_read, read_exit, down_write, count, write_print, up_write, write_exit, stop_writer,
  stop_reader, unload, bad_writer, bad_reader,
}

-- What holds while the module is at each point of its exit: of the threads that were made, of the
-- answers of `kthread_should_stop`, and of where the threads are.
abbrev pub Phase :
    ModuleAt → (rthread wthread read_stop write_stop : Bool) → ReaderAt → WriterAt → Type 0
Phase loaded rt wt rs ws r w = Unit
Phase stops_writer rt wt rs ws r w = (wt ≡ true) × (ws ≡ true)
Phase stops_reader rt wt rs ws r w = (wt ≡ true) × (w ≡ write_gone) × (rt ≡ true) × (rs ≡ true)
Phase unloaded rt wt rs ws r w = (wt ≡ true) × (w ≡ write_gone) × (rt ≡ true) × (r ≡ read_gone)
Phase faulted rt wt rs ws r w = (wt ≡ false) ⊎ (rt ≡ false)

-- A thread that moves is not past its end, and what holds of it does not depend on where it is.
reader_moves :
    (m : ModuleAt) (rt wt rs ws : Bool) (r r' : ReaderAt) (w : WriterAt)
    → r ≢ read_gone
    → Phase m rt wt rs ws r w
    → Phase m rt wt rs ws r' w
reader_moves loaded rt wt rs ws r r' w on p = tt
reader_moves stops_writer rt wt rs ws r r' w on p = p
reader_moves stops_reader rt wt rs ws r r' w on p = p
reader_moves unloaded rt wt rs ws r r' w on p = absurd (on p.3)
reader_moves faulted rt wt rs ws r r' w on p = p

writer_moves :
    (m : ModuleAt) (rt wt rs ws : Bool) (r : ReaderAt) (w w' : WriterAt)
    → w ≢ write_gone
    → Phase m rt wt rs ws r w
    → Phase m rt wt rs ws r w'
writer_moves loaded rt wt rs ws r w w' on p = tt
writer_moves stops_writer rt wt rs ws r w w' on p = p
writer_moves stops_reader rt wt rs ws r w w' on p = absurd (on p.1)
writer_moves unloaded rt wt rs ws r w w' on p = absurd (on p.1)
writer_moves faulted rt wt rs ws r w w' on p = p

module _ (api : RwSemaphore) where
  abbrev pub IsPhased : State api → Type 0
  IsPhased s = Phase s.main s.rthread s.wthread s.read_stop s.write_stop s.reader s.writer

  -- The reader, or the writer, goes on from where it is.
  reads_on :
      (s : State api) (r : ReaderAt)
      → s.reader ≢ read_gone
      → IsPhased s
      → Phase s.main s.rthread s.wthread s.read_stop s.write_stop r s.writer
  reads_on s r on p =
      reader_moves s.main s.rthread s.wthread s.read_stop s.write_stop s.reader r s.writer on p

  writes_on :
      (s : State api) (w : WriterAt)
      → s.writer ≢ write_gone
      → IsPhased s
      → Phase s.main s.rthread s.wthread s.read_stop s.write_stop s.reader w
  writes_on s w on p =
      writer_moves s.main s.rthread s.wthread s.read_stop s.write_stop s.reader s.writer w on p

  -- What holds in the calls of `kthread_stop`.
  pub at_writer :
      (s : State api)
      → s.main ≡ stops_writer
      → IsPhased s
      → (s.wthread ≡ true) × (s.write_stop ≡ true)
  at_writer s at p =
      subst (λ m. Phase m s.rthread s.wthread s.read_stop s.write_stop s.reader s.writer) at p

  pub at_reader :
      (s : State api)
      → s.main ≡ stops_reader
      → IsPhased s
      → (s.wthread ≡ true) × (s.writer ≡ write_gone) × (s.rthread ≡ true) × (s.read_stop ≡ true)
  at_reader s at p =
      subst (λ m. Phase m s.rthread s.wthread s.read_stop s.write_stop s.reader s.writer) at p

  pub Step-IsPhased : (s t : State api) → IsPhased s → Step api s t → IsPhased t
  Step-IsPhased s t p (read_enter at go) = reads_on s read_waits (λ gone. absurd (cc)) p
  Step-IsPhased s t p (write_enter at go) = writes_on s write_waits (λ gone. absurd (cc)) p
  Step-IsPhased s t p (down_read sem at d) = reads_on s read_locked (λ gone. absurd (cc)) p
  Step-IsPhased s t p (read_print at) = reads_on s read_printed (λ gone. absurd (cc)) p
  Step-IsPhased s t p (up_read sem at u) = reads_on s read_test (λ gone. absurd (cc)) p
  Step-IsPhased s t p (read_exit at stop) = reads_on s read_gone (λ gone. absurd (cc)) p
  Step-IsPhased s t p (down_write sem at d) = writes_on s write_locked (λ gone. absurd (cc)) p
  Step-IsPhased s t p (count at) = writes_on s write_counted (λ gone. absurd (cc)) p
  Step-IsPhased s t p (write_print at) = writes_on s write_printed (λ gone. absurd (cc)) p
  Step-IsPhased s t p (up_write sem at u) = writes_on s write_test (λ gone. absurd (cc)) p
  Step-IsPhased s t p (write_exit at stop) = writes_on s write_gone (λ gone. absurd (cc)) p
  Step-IsPhased s t p (stop_writer at made) = (made, refl)
  Step-IsPhased s t p (stop_reader at gone made) = ((at_writer s at p).0, gone, made, refl)
  Step-IsPhased s t p (unload at gone) = let q = at_reader s at p in (q.0, q.1, q.2, gone)
  Step-IsPhased s t p (bad_writer at made) = inl made
  Step-IsPhased s t p (bad_reader at gone made) = inr made
