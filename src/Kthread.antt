-- ===== src/Kthread.antt =====
-- kthread/kthread_sema.c: a reader and a writer of one number behind a read-write semaphore, as a
-- relation of the steps of both threads and of the module. The semaphore is a parameter.
pub mod Mythread
pub mod Invariant
pub mod Phases
pub mod Threads
pub mod Ends
pub mod Progress
mod Tests
use modules.Common.{
  ℕ, zero, suc, ◌+◌, ◌%◌, ◌^◌, ◌≡◌, Bool, true, false, List, [], ◌∷◌, ◌++◌, if◌then◌else◌,
}

-- struct rw_semaphore with the ways in which each call can return.
pub record RwSemaphore : Type 1 where
  pub Sem : Type 0
  pub init_rwsem : Sem
  pub DownRead : Sem → Sem → Type 0
  pub UpRead : Sem → Sem → Type 0
  pub DownWrite : Sem → Sem → Type 0
  pub UpWrite : Sem → Sem → Type 0

-- What is documented of it: how many hold it for reading and for writing, that a call waits for
-- others only, and that it returns when there is nobody to wait for.
pub record IsRwSemaphore (api : RwSemaphore) : Type 0 where
  pub readers : api.Sem → ℕ
  pub writers : api.Sem → ℕ
  pub starts : (readers api.init_rwsem ≡ 0) × (writers api.init_rwsem ≡ 0)
  pub down_read :
      (s t : api.Sem)
      → api.DownRead s t
      → (writers s ≡ 0) × (writers t ≡ 0) × (readers t ≡ readers s + 1)
  pub up_read :
      (s t : api.Sem) → api.UpRead s t → (writers t ≡ writers s) × (readers t + 1 ≡ readers s)
  pub down_write :
      (s t : api.Sem)
      → api.DownWrite s t
      → (writers s ≡ 0) × (readers s ≡ 0) × (writers t ≡ 1) × (readers t ≡ 0)
  pub up_write :
      (s t : api.Sem) → api.UpWrite s t → (writers t + 1 ≡ writers s) × (readers t ≡ readers s)
  pub may_read : (s : api.Sem) → writers s ≡ 0 → readers s ≡ 0 → (t : api.Sem) × api.DownRead s t
  pub may_write : (s : api.Sem) → writers s ≡ 0 → readers s ≡ 0 → (t : api.Sem) × api.DownWrite s t
  pub read_ends : (s : api.Sem) (n : ℕ) → readers s ≡ n + 1 → (t : api.Sem) × api.UpRead s t
  pub write_ends : (s : api.Sem) → writers s ≡ 1 → (t : api.Sem) × api.UpWrite s t

-- Where `thread_read_func` is: before the test of its loop, in `down_read`, before the output, after
-- it, or past its end. A thread that was not made is past its end.
pub data ReaderAt : Type 0 where
  read_test : ReaderAt
  read_waits : ReaderAt
  read_locked : ReaderAt
  read_printed : ReaderAt
  read_gone : ReaderAt

-- Where `thread_write_func` is; between `number++` and the output it has counted.
pub data WriterAt : Type 0 where
  write_test : WriterAt
  write_waits : WriterAt
  write_locked : WriterAt
  write_counted : WriterAt
  write_printed : WriterAt
  write_gone : WriterAt

-- Where the module is: loaded, in one of the two calls of `kthread_stop`, or unloaded; or stopped by
-- the use of an error pointer for a thread.
pub data ModuleAt : Type 0 where
  loaded : ModuleAt
  stops_writer : ModuleAt
  stops_reader : ModuleAt
  unloaded : ModuleAt
  faulted : ModuleAt

-- What the threads print of the number.
pub data Event : Type 0 where
  reading : ℕ → Event
  write_done : ℕ → Event

module _ (api : RwSemaphore) where
  -- `rthread` and `wthread` say whether the pointers are to threads; `read_stop` and `write_stop` are
  -- the answers of `kthread_should_stop`.
  pub record State : Type 0 where
    pub rwsem : api.Sem
    pub number : ℕ
    pub reader : ReaderAt
    pub writer : WriterAt
    pub main : ModuleAt
    pub rthread : Bool
    pub wthread : Bool
    pub read_stop : Bool
    pub write_stop : Bool
    pub printed : List Event

  -- `down_read_init`, which returns 0 whether or not the threads can be made.
  abbrev pub down_read_init : (made_reader made_writer : Bool) → State
  down_read_init made_reader made_writer = record {
    rwsem = api.init_rwsem;
    number = 0;
    reader = if made_reader then read_test else read_gone;
    writer = if made_writer then write_test else write_gone;
    main = loaded;
    rthread = made_reader;
    wthread = made_writer;
    read_stop = false;
    write_stop = false;
    printed = [];
  }

  -- A step of one of the three.
  pub data Step (s : State) : State → Type 0 where
    -- thread_read_func
    read_enter :
        s.reader ≡ read_test → s.read_stop ≡ false → Step s (record s { reader = read_waits })
    down_read :
        (sem : api.Sem)
        → s.reader ≡ read_waits
        → api.DownRead s.rwsem sem
        → Step s (record s { rwsem = sem; reader = read_locked })
    read_print :
        s.reader ≡ read_locked
        → Step s (record s { reader = read_printed; printed = s.printed ++ reading s.number ∷ [] })
    up_read :
        (sem : api.Sem)
        → s.reader ≡ read_printed
        → api.UpRead s.rwsem sem
        → Step s (record s { rwsem = sem; reader = read_test })
    read_exit : s.reader ≡ read_test → s.read_stop ≡ true → Step s (record s { reader = read_gone })
    -- thread_write_func
    write_enter :
        s.writer ≡ write_test → s.write_stop ≡ false → Step s (record s { writer = write_waits })
    down_write :
        (sem : api.Sem)
        → s.writer ≡ write_waits
        → api.DownWrite s.rwsem sem
        → Step s (record s { rwsem = sem; writer = write_locked })
    count :
        s.writer ≡ write_locked
        → Step s (record s { writer = write_counted; number = (s.number + 1) % 2 ^ 64 })
    write_print :
        s.writer ≡ write_counted
        → Step s
            (record s { writer = write_printed; printed = s.printed ++ write_done s.number ∷ [] })
    up_write :
        (sem : api.Sem)
        → s.writer ≡ write_printed
        → api.UpWrite s.rwsem sem
        → Step s (record s { rwsem = sem; writer = write_test })
    write_exit :
        s.writer ≡ write_test → s.write_stop ≡ true → Step s (record s { writer = write_gone })
    -- down_read_exit
    stop_writer :
        s.main ≡ loaded
        → s.wthread ≡ true
        → Step s (record s { main = stops_writer; write_stop = true })
    stop_reader :
        s.main ≡ stops_writer
        → s.writer ≡ write_gone
        → s.rthread ≡ true
        → Step s (record s { main = stops_reader; read_stop = true })
    unload : s.main ≡ stops_reader → s.reader ≡ read_gone → Step s (record s { main = unloaded })
    bad_writer : s.main ≡ loaded → s.wthread ≡ false → Step s (record s { main = faulted })
    bad_reader :
        s.main ≡ stops_writer
        → s.writer ≡ write_gone
        → s.rthread ≡ false
        → Step s (record s { main = faulted })

  -- The states that the module gets to, with threads that were made or not.
  pub data Reachable (made_reader made_writer : Bool) : State → Type 0 where
    start : Reachable made_reader made_writer (down_read_init made_reader made_writer)
    step :
        {s t : State}
        → Reachable made_reader made_writer s
        → Step s t
        → Reachable made_reader made_writer t
