-- ===== src/Kthread/Tests.antt =====
-- Runs of kthread/kthread_sema.c with a semaphore that counts.
use modules.Common.{ℕ, ◌+◌, ◌≤◌, ◌≡◌, refl, sym, ◌⊎◌, true, [], ◌∷◌}
use modules.Kthread.{
  RwSemaphore, IsRwSemaphore, write_waits, read_locked, read_printed, read_gone, write_test,
  write_locked, write_counted, write_printed, write_gone, stops_writer, reading, write_done, State,
  down_read_init, Step, read_enter, write_enter, down_read, read_print, down_write, count,
  write_print, up_write, up_read, read_exit, write_exit, stop_writer, stop_reader, unload, unloaded,
  Reachable, start, step,
}
use modules.Kthread.Invariant.{IsLocked, Reachable-IsLocked}
use modules.Kthread.Ends.{remaining, WriterWaits}
use modules.Kthread.Progress.{kthread_stop_lem, unloaded_lem}

-- The readers and the writers.
abbrev counting : RwSemaphore
counting = record {
  Sem = ℕ × ℕ;
  init_rwsem = (0, 0);
  DownRead = λ s t. (s.1 ≡ 0) × (t.0 ≡ s.0 + 1) × (t.1 ≡ 0);
  UpRead = λ s t. (t.0 + 1 ≡ s.0) × (t.1 ≡ s.1);
  DownWrite = λ s t. (s.0 ≡ 0) × (s.1 ≡ 0) × (t.0 ≡ 0) × (t.1 ≡ 1);
  UpWrite = λ s t. (t.0 ≡ s.0) × (t.1 + 1 ≡ s.1);
}

abbrev counting-IsRwSemaphore : IsRwSemaphore counting
counting-IsRwSemaphore = record {
  readers = λ s. s.0;
  writers = λ s. s.1;
  starts = (refl, refl);
  down_read = λ s t d. (d.0, d.2, d.1);
  up_read = λ s t u. (u.1, u.0);
  down_write = λ s t d. (d.1, d.0, d.3, d.2);
  up_write = λ s t u. (u.1, u.0);
  may_read = λ s free none. ((s.0 + 1, 0), (free, refl, refl));
  may_write = λ s free none. ((0, 1), (none, free, refl, refl));
  read_ends = λ s n held. ((n, s.1), (sym held, refl));
  write_ends = λ s held. ((s.0, 0), (refl, sym held));
}

-- Both threads made; the writer writes once and the reader reads. Then the writer has seen that it is not
-- to stop and waits for the reader, and is told to stop.
abbrev s₀ : State counting
s₀ = down_read_init counting true true

abbrev s₁ : State counting
s₁ = record s₀ { rwsem = (0, 1); writer = write_locked }

abbrev s₂ : State counting
s₂ = record s₁ { writer = write_counted; number = 1 }

abbrev s₃ : State counting
s₃ = record s₂ { writer = write_printed; printed = write_done 1 ∷ [] }

abbrev s₄ : State counting
s₄ = record s₃ { rwsem = (0, 0); writer = write_test }

abbrev s₅ : State counting
s₅ = record s₄ { rwsem = (1, 0); reader = read_locked }

abbrev s₆ : State counting
s₆ = record s₅ { writer = write_waits }

abbrev s₇ : State counting
s₇ = record s₆ { main = stops_writer; write_stop = true }

abbrev s₈ : State counting
s₈ = record s₇ { reader = read_printed; printed = write_done 1 ∷ reading 1 ∷ [] }

s₄-Reachable : Reachable counting true true s₄
s₄-Reachable =
    step
      (step
        (step
          (step (step start (write_enter refl refl))
            (down_write (0, 1) refl (refl, refl, refl, refl)))
          (count refl))
        (write_print refl))
      (up_write (0, 0) refl (refl, refl))

s₇-Reachable : Reachable counting true true s₇
s₇-Reachable =
    step
      (step
        (step (step s₄-Reachable (read_enter refl refl)) (down_read (1, 0) refl (refl, refl, refl)))
        (write_enter refl refl))
      (stop_writer refl refl)

s₈-Reachable : Reachable counting true true s₈
s₈-Reachable = step s₇-Reachable (read_print refl)

Reachable-IsLocked_example : IsLocked counting counting-IsRwSemaphore s₈
Reachable-IsLocked_example =
    Reachable-IsLocked counting counting-IsRwSemaphore true true s₈ s₈-Reachable

kthread_stop_lem_example :
    (remaining counting stops_writer s₈ ≤ remaining counting stops_writer s₇)
    × ((remaining counting stops_writer s₇ ≡ 0)
        ⊎ ((u : State counting) × Step counting s₇ u
            × (remaining counting stops_writer u + 1 ≡ remaining counting stops_writer s₇))
        ⊎ ((stops_writer ≡ stops_writer) × WriterWaits counting s₇))
    × (((s₇.reader ≡ read_gone) × (s₇.writer ≡ write_gone))
        ⊎ ((u : State counting) × Step counting s₇ u × (u.main ≡ s₇.main)))
kthread_stop_lem_example =
    kthread_stop_lem counting counting-IsRwSemaphore true true s₇ s₈ stops_writer s₇-Reachable
      (read_print refl) refl

-- The reader gives the semaphore up, the writer writes once more and ends, and then the reader does.
abbrev s₉ : State counting
s₉ = record s₈ {
  rwsem = (0, 0);
  number = 2;
  reader = read_gone;
  writer = write_gone;
  main = unloaded;
  read_stop = true;
  printed = write_done 1 ∷ reading 1 ∷ write_done 2 ∷ [];
}

s₉-Reachable : Reachable counting true true s₉
s₉-Reachable =
    let given_up = step s₈-Reachable (up_read (0, 0) refl (refl, refl)) in
    let written =
      step (step (step given_up (down_write (0, 1) refl (refl, refl, refl, refl))) (count refl))
        (write_print refl) in
    let writer_ends =
      step (step written (up_write (0, 0) refl (refl, refl))) (write_exit refl refl) in
    step (step (step writer_ends (stop_reader refl refl refl)) (read_exit refl refl))
      (unload refl refl)

unloaded_lem_example :
    (true ≡ true)
    × (true ≡ true)
    × (s₉.reader ≡ read_gone)
    × (s₉.writer ≡ write_gone)
    × (counting-IsRwSemaphore.readers s₉.rwsem ≡ 0)
    × (counting-IsRwSemaphore.writers s₉.rwsem ≡ 0)
unloaded_lem_example = unloaded_lem counting counting-IsRwSemaphore true true s₉ s₉-Reachable refl
