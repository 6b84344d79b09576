-- ===== src/Kthread/Invariant.antt =====
-- What the semaphore of kthread/kthread_sema.c gives its two threads.
use modules.Common.{
  ℕ, suc, ◌+◌, ◌%◌, ◌^◌, ◌≤◌, ◌≡◌, subst, Bool, true, List, [], ◌∷◌, ◌++◌, arith, Bool-cases,
}
use modules.Kthread.{
  RwSemaphore, IsRwSemaphore, ReaderAt, read_test, read_waits, read_locked, read_printed, read_gone,
  WriterAt, write_test, write_waits, write_locked, write_counted, write_printed, write_gone,
  ModuleAt, stops_writer, stops_reader, unloaded, faulted, Event, reading, write_done, State,
  down_read_init, Step, read_enter, write_enter, down_read, read_print, up_read, read_exit,
  down_write, count, write_print, up_write, write_exit, stop_writer, stop_reader, unload,
  bad_writer, bad_reader, Reachable, start, step,
}

-- How many times each thread holds the semaphore where it is.
abbrev pub read_holds : ReaderAt → ℕ
read_holds read_test = 0
read_holds read_waits = 0
read_holds read_locked = 1
read_holds read_printed = 1
read_holds read_gone = 0

abbrev pub write_holds : WriterAt → ℕ
write_holds write_test = 0
write_holds write_waits = 0
write_holds write_locked = 1
write_holds write_counted = 1
write_holds write_printed = 1
write_holds write_gone = 0

-- The increment that is not yet printed.
abbrev unprinted : WriterAt → ℕ
unprinted write_test = 0
unprinted write_waits = 0
unprinted write_locked = 0
unprinted write_counted = 1
unprinted write_printed = 0
unprinted write_gone = 0

-- How many writes a log tells of.
abbrev pub writes_in : List Event → ℕ
writes_in [] = 0
writes_in (reading n ∷ es) = writes_in es
writes_in (write_done n ∷ es) = suc (writes_in es)

-- After some writes, each write prints the next number, and each reading the number of writes so far.
abbrev pub IsConsistent : (writes : ℕ) → List Event → Type 0
IsConsistent writes [] = Unit
IsConsistent writes (reading n ∷ es) = (n ≡ writes % 2 ^ 64) × IsConsistent writes es
IsConsistent writes (write_done n ∷ es) = (n ≡ suc writes % 2 ^ 64) × IsConsistent (suc writes) es

writes_in-append : (xs ys : List Event) → writes_in (xs ++ ys) ≡ writes_in xs + writes_in ys
writes_in-append [] ys = omega arith
writes_in-append (reading n ∷ xs) ys = writes_in-append xs ys
writes_in-append (write_done n ∷ xs) ys = omega (arith, writes_in-append xs ys)

IsConsistent-append :
    (writes : ℕ) (xs ys : List Event)
    → IsConsistent writes xs
    → IsConsistent (writes_in xs + writes) ys
    → IsConsistent writes (xs ++ ys)
IsConsistent-append writes [] ys a b = subst (λ n. IsConsistent n ys) (omega arith) b
IsConsistent-append writes (reading n ∷ xs) ys (e, a) b = (e, IsConsistent-append writes xs ys a b)
IsConsistent-append writes (write_done n ∷ xs) ys (e, a) b =
    (e, IsConsistent-append (suc writes) xs ys a (subst (λ n. IsConsistent n ys) (omega arith) b))

unprinted_lem : (at : WriterAt) → unprinted at ≤ write_holds at
unprinted_lem write_test = omega arith
unprinted_lem write_waits = omega arith
unprinted_lem write_locked = omega arith
unprinted_lem write_counted = omega arith
unprinted_lem write_printed = omega arith
unprinted_lem write_gone = omega arith

module _ (api : RwSemaphore) (laws : IsRwSemaphore api) where
  -- The semaphore knows who holds it, only one thread does, and the number is that of the writes.
  pub record IsLocked (s : State api) : Type 0 where
    pub reads : laws.readers s.rwsem ≡ read_holds s.reader
    pub writes : laws.writers s.rwsem ≡ write_holds s.writer
    pub alone : read_holds s.reader + write_holds s.writer ≤ 1
    pub counted : s.number ≡ (writes_in s.printed + unprinted s.writer) % 2 ^ 64
    pub told : IsConsistent 0 s.printed

  down_read_init-IsLocked : (mr mw : Bool) → IsLocked (down_read_init api mr mw)
  down_read_init-IsLocked mr mw = record {
    reads = ground (arith, laws.starts, Bool-cases mr);
    writes = ground (arith, laws.starts, Bool-cases mw);
    alone = ground (arith, Bool-cases mr, Bool-cases mw);
    counted = ground (arith, Bool-cases mw);
    told = tt;
  }

  -- A step of the module alone.
  moved :
      (s : State api)
      → IsLocked s
      → (at : ModuleAt) (read_stop write_stop : Bool)
      → IsLocked (record s { main = at; read_stop = read_stop; write_stop = write_stop })
  moved s l at read_stop write_stop = record {
    reads = l.reads;
    writes = l.writes;
    alone = l.alone;
    counted = l.counted;
    told = l.told;
  }

  Step-IsLocked : (s t : State api) → IsLocked s → Step api s t → IsLocked t
  Step-IsLocked s t l (read_enter at go) = record {
    reads = ground (arith, l.reads, at);
    writes = l.writes;
    alone = ground (arith, l.alone, at);
    counted = l.counted;
    told = l.told;
  }
  Step-IsLocked s t l (write_enter at go) = record {
    reads = l.reads;
    writes = ground (arith, l.writes, at);
    alone = ground (arith, l.alone, at);
    counted = ground (arith, l.counted, at);
    told = l.told;
  }
  Step-IsLocked s t l (down_read sem at d) =
      let (w, w', r) = laws.down_read s.rwsem sem d in
      record {
        reads = ground (arith, l.reads, at, r);
        writes = ground (arith, l.writes, w, w');
        alone = ground (arith, l.alone, l.writes, w);
        counted = l.counted;
        told = l.told;
      }
  Step-IsLocked s t l (read_print at) =
      let none_left : unprinted s.writer ≡ 0 =
        ground (arith, at, l.alone, unprinted_lem s.writer) in
      record {
        reads = ground (arith, l.reads, at);
        writes = l.writes;
        alone = ground (arith, l.alone, at);
        counted = ground (arith, l.counted, writes_in-append s.printed (reading s.number ∷ []));
        told =
            IsConsistent-append 0 s.printed (reading s.number ∷ []) l.told
              (ground (arith, l.counted, none_left), tt);
      }
  Step-IsLocked s t l (up_read sem at u) =
      let (w, r) = laws.up_read s.rwsem sem u in
      record {
        reads = ground (arith, l.reads, at, r);
        writes = ground (arith, l.writes, w);
        alone = ground (arith, l.alone, at);
        counted = l.counted;
        told = l.told;
      }
  Step-IsLocked s t l (read_exit at stop) = record {
    reads = ground (arith, l.reads, at);
    writes = l.writes;
    alone = ground (arith, l.alone, at);
    counted = l.counted;
    told = l.told;
  }
  Step-IsLocked s t l (down_write sem at d) =
      let (w, r, w', r') = laws.down_write s.rwsem sem d in
      record {
        reads = ground (arith, l.reads, r, r');
        writes = ground (arith, l.writes, at, w');
        alone = ground (arith, l.alone, l.reads, r);
        counted = ground (arith, l.counted, at);
        told = l.told;
      }
  Step-IsLocked s t l (count at) = record {
    reads = l.reads;
    writes = ground (arith, l.writes, at);
    alone = ground (arith, l.alone, at);
    counted = ground (arith, l.counted, at);
    told = l.told;
  }
  Step-IsLocked s t l (write_print at) = record {
    reads = l.reads;
    writes = ground (arith, l.writes, at);
    alone = ground (arith, l.alone, at);
    counted = ground (arith, l.counted, at, writes_in-append s.printed (write_done s.number ∷ []));
    told =
        IsConsistent-append 0 s.printed (write_done s.number ∷ []) l.told
          (ground (arith, l.counted, at), tt);
  }
  Step-IsLocked s t l (up_write sem at u) =
      let (w, r) = laws.up_write s.rwsem sem u in
      record {
        reads = ground (arith, l.reads, r);
        writes = ground (arith, l.writes, at, w);
        alone = ground (arith, l.alone, at);
        counted = ground (arith, l.counted, at);
        told = l.told;
      }
  Step-IsLocked s t l (write_exit at stop) = record {
    reads = l.reads;
    writes = ground (arith, l.writes, at);
    alone = ground (arith, l.alone, at);
    counted = ground (arith, l.counted, at);
    told = l.told;
  }
  Step-IsLocked s t l (stop_writer at made) = moved s l stops_writer s.read_stop true
  Step-IsLocked s t l (stop_reader at gone made) = moved s l stops_reader true s.write_stop
  Step-IsLocked s t l (unload at gone) = moved s l unloaded s.read_stop s.write_stop
  Step-IsLocked s t l (bad_writer at made) = moved s l faulted s.read_stop s.write_stop
  Step-IsLocked s t l (bad_reader at gone made) = moved s l faulted s.read_stop s.write_stop

  -- In every state that the module gets to, whichever threads could be made, the semaphore is held
  -- as the threads stand and never by both, the number is that of the writes in 64 bits, and what
  -- is printed is consistent: each write prints the next number, and each reading that of the
  -- writes before it.
  pub Reachable-IsLocked : (mr mw : Bool) (s : State api) → Reachable api mr mw s → IsLocked s
  Reachable-IsLocked mr mw s start = down_read_init-IsLocked mr mw
  Reachable-IsLocked mr mw s (step {s = before} r st) =
      Step-IsLocked before s (Reachable-IsLocked mr mw before r) st
