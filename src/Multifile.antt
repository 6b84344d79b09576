-- ===== src/Multifile.antt =====
-- multifile/: a module made of several files, which prints when it is loaded and unloaded.
use modules.Common.{ℕ, List, [], ◌∷◌, ◌++◌, ℤ, pos, codes}

-- The log levels that are used, and a line of the log.
data Level : Type 0 where
  info debug : Level

abbrev Line : Type 0
Line = Level × List ℕ

-- world.c
abbrev kernel_speak : List ℕ → List Line
kernel_speak words = (debug, words) ∷ []

-- start.c, with its result
abbrev init_module : ℤ × List Line
init_module = (
  pos 0,
  kernel_speak (codes "initializaion")
      ++ (info, codes "Hello world - this is the kernel speaking") ∷ [],
)

-- stop.c
abbrev cleanup_module : List Line
cleanup_module =
    kernel_speak (codes "finalization") ++ (info, codes "Short is the life of a kernel module") ∷ []

-- hello.c, which nothing calls.
abbrev show : List Line
show = (info, codes "Hello world") ∷ []
