-- ===== src/Mon/Private.antt =====
-- The tables of private ioctls of mon/mon.c, and a command of the program iwpriv: that program finds
-- the ioctl and the sub-command in the one table, and the kernel the handler in the other. Both are
-- parameters.
pub mod Commands
mod Tests
use modules.Common.{
  ℕ, zero, suc, ◌+◌, ◌<◌, ◌≡◌, Bool, true, false, ◌&&◌, Option, none, some, List, [], ◌∷◌, ◌++◌, ℤ,
  ◌==◌, if◌then◌else◌, length, codes, c_string, Outcome, done, oops, ◌>>=◌,
}
use modules.Mon.{
  Mon, Reply, ioctl_mon_hello, ioctl_mon_set_lover, ioctl_mon_get_lover, ioctl_mon_set_maxsta,
  ioctl_mon_get_maxsta, ioctl_char128, ioctl_setpara_mon, ioctl_getpara_mon, ioctl_char128_mon,
}

-- SIOCIWFIRSTPRIV and SIOCDEVPRIVATE of the kernel's headers.
abbrev pub siociwfirstpriv : ℕ
siociwfirstpriv = 0x8be0

abbrev pub siocdevprivate : ℕ
siocdevprivate = 0x89f0

-- IW_PRIV_TYPE_INT | IW_PRIV_SIZE_FIXED | 1, IW_PRIV_TYPE_CHAR | 128 and IW_HEADER_TYPE_CHAR | 128.
abbrev pub one_int : ℕ
one_int = 0x4000 + 0x0800 + 1

abbrev pub chars : ℕ
chars = 0x2000 + 128

abbrev pub header_chars : ℕ
header_chars = 2 + 128

-- IOCTL_SETPARA_MON, IOCTL_GETPARA_MON and IOCTL_CHAR128_MON.
abbrev pub ioctl_setpara : ℕ
ioctl_setpara = siociwfirstpriv + 0

abbrev pub ioctl_getpara : ℕ
ioctl_getpara = siociwfirstpriv + 1

abbrev pub ioctl_char : ℕ
ioctl_char = siociwfirstpriv + 2

-- struct iw_priv_args
pub record IwPrivArgs : Type 0 where
  pub cmd : ℕ
  pub set_args : ℕ
  pub get_args : ℕ
  pub name : List ℕ

-- The entries of iw_handlers_mon.
pub data Handler : Type 0 where
  setpara getpara char128 : Handler

abbrev pub iw_handlers_mon : List Handler
iw_handlers_mon = setpara ∷ getpara ∷ char128 ∷ []

-- The entries of priv_args_mon: those of the ioctls, and those of the sub-commands.
abbrev pub real_args : (cmd set_args get_args : ℕ) → IwPrivArgs
real_args cmd set_args get_args = record {
  cmd = cmd;
  set_args = set_args;
  get_args = get_args;
  name = [];
}

abbrev pub priv_args_mon : List IwPrivArgs
priv_args_mon =
    real_args ioctl_setpara one_int 0
    ∷ real_args ioctl_getpara 0 one_int
    ∷ real_args ioctl_char chars header_chars
    ∷ record (real_args ioctl_mon_hello chars header_chars) { name = codes "hello" }
    ∷ record (real_args ioctl_mon_set_lover chars header_chars) { name = codes "setlover" }
    ∷ record (real_args ioctl_mon_get_lover chars header_chars) { name = codes "getlover" }
    ∷ record (real_args ioctl_mon_set_maxsta one_int 0) { name = codes "setmaxsta" }
    ∷ record (real_args ioctl_mon_get_maxsta 0 one_int) { name = codes "getmaxsta" }
    ∷ []

-- struct iw_handler_def
pub record IwHandlerDef : Type 0 where
  pub private : List Handler
  pub num_private : ℕ
  pub private_args : List IwPrivArgs
  pub num_private_args : ℕ

abbrev pub iw_handler_def_mon : IwHandlerDef
iw_handler_def_mon = record {
  private = iw_handlers_mon;
  num_private = length iw_handlers_mon;
  private_args = priv_args_mon;
  num_private_args = length priv_args_mon;
}

-- The argument of a command.
pub data Argument : Type 0 where
  nothing : Argument
  int : ℕ → Argument
  text : List ℕ → Argument

-- What a handler finds: the two ints at `extra`, and `u->data` with the memory that it points to.
pub record Request : Type 0 where
  pub extra0 : ℕ
  pub extra1 : ℕ
  pub flags : ℕ
  pub user : List ℕ
  pub len : ℕ

-- iwpriv's search for the ioctl with its sub-command, the kernel's for the handler, and what the two
-- make of an argument.
pub record WextApi : Type 0 where
  pub resolve : List IwPrivArgs → List ℕ → Option (IwPrivArgs × ℕ)
  pub handler : IwHandlerDef → ℕ → Option Handler
  pub pass : IwPrivArgs → ℕ → Argument → Request

abbrev pub same : List ℕ → List ℕ → Bool
same [] [] = true
same [] (b ∷ bs) = false
same (a ∷ as') [] = false
same (a ∷ as') (b ∷ bs) = a == b && same as' bs

abbrev pub find : (IwPrivArgs → Bool) → List IwPrivArgs → Option IwPrivArgs
find p [] = none
find p (x ∷ xs) = if p x then some x else find p xs

-- An entry with no name that has the arguments of another.
abbrev pub is_real : IwPrivArgs → IwPrivArgs → Bool
is_real e x = same x.name [] && (x.set_args == e.set_args && x.get_args == e.get_args)

-- What is documented. A sub-command, whose number is below SIOCDEVPRIVATE, goes through the first
-- entry with no name and the same arguments, with its number in front of an int or in the flags; and
-- the private handlers are those of the ioctls from SIOCIWFIRSTPRIV on.
pub record IsWextApi (api : WextApi) : Type 0 where
  pub resolves :
      (table : List IwPrivArgs) (name : List ℕ) (e r : IwPrivArgs)
      → find (λ x. same x.name name) table ≡ some e
      → e.cmd < siocdevprivate
      → find (is_real e) table ≡ some r
      → api.resolve table name ≡ some (r, e.cmd)
  pub handles :
      (def : IwHandlerDef) (before after : List Handler) (h : Handler)
      → def.private ≡ before ++ h ∷ after
      → length before < def.num_private
      → api.handler def (siociwfirstpriv + length before) ≡ some h
  pub passes_int :
      (r : IwPrivArgs) (sub value : ℕ)
      → r.set_args ≡ one_int
      → ((api.pass r sub (int value)).extra0 ≡ sub) × ((api.pass r sub (int value)).extra1 ≡ value)
  pub passes_nothing :
      (r : IwPrivArgs) (sub : ℕ)
      → r.set_args ≡ 0
      → r.get_args ≡ one_int
      → (api.pass r sub nothing).extra0 ≡ sub
  pub passes_flags :
      (r : IwPrivArgs) (sub : ℕ) (arg : Argument)
      → r.set_args ≡ chars
      → (api.pass r sub arg).flags ≡ sub
  pub passes_text :
      (r : IwPrivArgs) (sub : ℕ) (s : List ℕ)
      → r.set_args ≡ chars
      → length s < 128
      → c_string (s ++ 0 ∷ []) ≡ some s
      → (c_string (api.pass r sub (text s)).user ≡ some s)
        × ((api.pass r sub (text s)).len ≡ length s + 1)

-- How the kernel's functions fare in ioctl_char128_mon.
pub record Memory : Type 0 where
  pub kzalloc_ok : Bool
  pub missed_in : ℕ
  pub missed_out : ℕ

-- What the handlers answer; the second one leaves an int.
pub data Answer : Type 0 where
  result : ℤ → Answer
  value : ℤ → ℕ → Answer
  chars128 : Reply → Answer

-- A call through iw_handlers_mon.
unfoldable pub call : Handler → Memory → Request → Mon → Outcome (Answer × Mon)
unfolding ioctl_setpara_mon ioctl_getpara_mon
call setpara mem req m =
    let (ret, m') = ioctl_setpara_mon req.extra0 req.extra1 m in done (result ret, m')
call getpara mem req m =
    let (ret, param) = ioctl_getpara_mon req.extra0 m in done (value ret param, m)
call char128 mem req m =
    ioctl_char128_mon mem.kzalloc_ok mem.missed_in mem.missed_out req.flags req.user req.len m
    >>= λ r. done (chars128 r.0, r.1)

-- What follows the search for the handler, and the one for the ioctl.
pub handled : Memory → Request → Mon → Option Handler → Option (Outcome (Answer × Mon))
unfolding call
handled mem req m none = none
handled mem req m (some h) = some (call h mem req m)

pub resolved :
    WextApi → Memory → Argument → Mon → Option (IwPrivArgs × ℕ) → Option (Outcome (Answer × Mon))
unfolding handled
resolved api mem arg m none = none
resolved api mem arg m (some (r, sub)) =
    handled mem (api.pass r sub arg) m (api.handler iw_handler_def_mon r.cmd)

-- `iwpriv mon NAME ARGUMENT`; `none` where no handler is found.
unfoldable pub iwpriv : WextApi → Memory → List ℕ → Argument → Mon → Option (Outcome (Answer × Mon))
unfolding resolved
iwpriv api mem name arg m =
    resolved api mem arg m (api.resolve iw_handler_def_mon.private_args name)
