-- ===== src/Kthread/Progress.antt =====
-- How the module of kthread/kthread_sema.c ends.
use modules.Common.{
  ◌+◌, ◌≤◌, ◌≡◌, subst, refl, ap, sym, ◌∙◌, ◌⊎◌, inl, inr, Bool, true, false, arith,
}
use modules.Kthread.{
  RwSemaphore, IsRwSemaphore, read_gone, write_gone, ModuleAt, loaded, stops_writer, stops_reader,
  unloaded, faulted, State, Step, read_enter, write_enter, down_read, read_print, up_read,
  read_exit, down_write, count, write_print, up_write, write_exit, stop_writer, stop_reader, unload,
  bad_writer, bad_reader, Reachable, start, step,
}
use modules.Kthread.Invariant.{read_holds, write_holds, Reachable-IsLocked}
use modules.Kthread.Threads.{threads_go}
use modules.Kthread.Phases.{Phase, IsPhased, at_writer, at_reader, Step-IsPhased}
use modules.Kthread.Ends.{
  read_left, write_left, WriterWaits, remaining, writer_ends, reader_ends, writer_stays,
  reader_stays,
}

module _ (api : RwSemaphore) (laws : IsRwSemaphore api) where
  -- Which threads were made does not change.
  made_stays :
      {mr mw : Bool} (s t : State api)
      → Step api s t
      → s.rthread ≡ mr
      → s.wthread ≡ mw
      → (t.rthread ≡ mr) × (t.wthread ≡ mw)
  made_stays s t (read_enter at go) rt wt = (rt, wt)
  made_stays s t (write_enter at go) rt wt = (rt, wt)
  made_stays s t (down_read sem at d) rt wt = (rt, wt)
  made_stays s t (read_print at) rt wt = (rt, wt)
  made_stays s t (up_read sem at u) rt wt = (rt, wt)
  made_stays s t (read_exit at end) rt wt = (rt, wt)
  made_stays s t (down_write sem at d) rt wt = (rt, wt)
  made_stays s t (count at) rt wt = (rt, wt)
  made_stays s t (write_print at) rt wt = (rt, wt)
  made_stays s t (up_write sem at u) rt wt = (rt, wt)
  made_stays s t (write_exit at end) rt wt = (rt, wt)
  made_stays s t (stop_writer at made) rt wt = (rt, wt)
  made_stays s t (stop_reader at gone made) rt wt = (rt, wt)
  made_stays s t (unload at gone) rt wt = (rt, wt)
  made_stays s t (bad_writer at made) rt wt = (rt, wt)
  made_stays s t (bad_reader at gone made) rt wt = (rt, wt)

  Reachable-IsPhased :
      (mr mw : Bool) (s : State api)
      → Reachable api mr mw s
      → IsPhased api s × (s.rthread ≡ mr) × (s.wthread ≡ mw)
  Reachable-IsPhased mr mw s start = (tt, refl, refl)
  Reachable-IsPhased mr mw s (step {s = before} r st) =
      let (p, rt, wt) = Reachable-IsPhased mr mw before r in
      let (rt', wt') = made_stays before s st rt wt in (Step-IsPhased api before s p st, rt', wt')

  -- In every state that the module gets to, no step of anyone takes the thread that a call of
  -- `kthread_stop` waits for away from its end; and that thread has ended, or can take a step towards it,
  -- or it is the writer, it waits in `down_write`, and the reader, which holds the semaphore, can take a
  -- step towards giving it up. Unless both threads have ended, one of them can go on.
  pub kthread_stop_lem :
      (mr mw : Bool) (s t : State api) (m : ModuleAt)
      → Reachable api mr mw s
      → Step api s t
      → s.main ≡ m
      → (remaining api m t ≤ remaining api m s)
        × ((remaining api m s ≡ 0)
            ⊎ ((u : State api) × Step api s u × (remaining api m u + 1 ≡ remaining api m s))
            ⊎ ((m ≡ stops_writer) × WriterWaits api s))
        × (((s.reader ≡ read_gone) × (s.writer ≡ write_gone))
            ⊎ ((u : State api) × Step api s u × (u.main ≡ s.main)))
  kthread_stop_lem mr mw s t loaded r st at =
      (omega arith, inl refl, threads_go api laws s (Reachable-IsLocked api laws mr mw s r))
  kthread_stop_lem mr mw s t stops_writer r st at =
      let stop = (at_writer api s at (Reachable-IsPhased mr mw s r).0).1 in
      let l = Reachable-IsLocked api laws mr mw s r in
      let ends = writer_ends api laws s l stop in
      (
        (writer_stays api laws s t stop st).0,
        elim ends [
          | inl gone ↦ inl (ap write_left gone)
          | inr (inl next) ↦ inr (inl next)
          | inr (inr waits) ↦ inr (inr (refl, waits))
        ],
        threads_go api laws s l,
      )
  kthread_stop_lem mr mw s t stops_reader r st at =
      let (_, ended, _, stop) = at_reader api s at (Reachable-IsPhased mr mw s r).0 in
      let l = Reachable-IsLocked api laws mr mw s r in
      let ends = reader_ends api laws s l ended stop in
      (
        (reader_stays api laws s t stop st).0,
        elim ends [ inl gone ↦ inl (ap read_left gone) | inr next ↦ inr (inl next) ],
        threads_go api laws s l,
      )
  kthread_stop_lem mr mw s t unloaded r st at =
      (omega arith, inl refl, threads_go api laws s (Reachable-IsLocked api laws mr mw s r))
  kthread_stop_lem mr mw s t faulted r st at =
      (omega arith, inl refl, threads_go api laws s (Reachable-IsLocked api laws mr mw s r))

  -- If the module gets to be unloaded, both threads were made and have ended, and the semaphore is
  -- free.
  pub unloaded_lem :
      (mr mw : Bool) (s : State api)
      → Reachable api mr mw s
      → s.main ≡ unloaded
      → (mr ≡ true)
        × (mw ≡ true)
        × (s.reader ≡ read_gone)
        × (s.writer ≡ write_gone)
        × (laws.readers s.rwsem ≡ 0)
        × (laws.writers s.rwsem ≡ 0)
  unloaded_lem mr mw s r at =
      let l = Reachable-IsLocked api laws mr mw s r in
      let (p, rt, wt) = Reachable-IsPhased mr mw s r in
      let q =
        subst (λ m. Phase m s.rthread s.wthread s.read_stop s.write_stop s.reader s.writer) at p in
      (
        sym rt ∙ q.2,
        sym wt ∙ q.0,
        q.3,
        q.1,
        l.reads ∙ ap read_holds q.3,
        l.writes ∙ ap write_holds q.1,
      )

  pub faulted_lem :
      (mr mw : Bool) (s : State api)
      → Reachable api mr mw s
      → s.main ≡ faulted
      → (mw ≡ false) ⊎ (mr ≡ false)
  faulted_lem mr mw s r at =
      let (p, rt, wt) = Reachable-IsPhased mr mw s r in
      elim (subst (λ m. Phase m s.rthread s.wthread s.read_stop s.write_stop s.reader s.writer) at
        p) [ inl no_writer ↦ inl (sym wt ∙ no_writer) | inr no_reader ↦ inr (sym rt ∙ no_reader) ]
