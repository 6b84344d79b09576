-- ===== src/Netctrl/CommandLine.antt =====
-- The command line of netctrl/app.c, as `getopt_long` takes it apart by the two tables of the program,
-- and what netctrl/netctrl.c prints for it.
mod Tests
use modules.Common.{
  ℕ, ◌+◌, ◌*◌, ◌<◌, ◌≡◌, ◌≢◌, refl, ap, ◌∙◌, Bool, true, false, not, ◌&&◌, ◌||◌, Option, none, some,
  List, [], ◌∷◌, ◌++◌, ◌==◌, leb, if◌then◌else◌, map, length, codes, All, atoi, atoi-bound, arith,
  inl, inr, pos, done, oops, ◌^◌, append_assoc,
}
use modules.Netctrl.Kernel.{Netctrl, NlmsgSizes, netctrl_receive_msg, bytes_of}
use modules.Netctrl.Kernel.Receive.{Documented}
use modules.Netctrl.App.{
  Syscmd, Sockets, Message, ran, zero_cmd, main, LongOption, GetoptLong, short_options,
  long_options, syscmd_proc,
}
use modules.Netctrl.App.Args.{is_bad, any_bad, command_of, last_command, main_lem}
use modules.Netctrl.Roundtrip.{
  Request, IsValid, command, size_of, wire, line, head_of, Connected, request_roundtrip,
}

-- Whether one colon follows a letter in the short options: it takes an argument.
abbrev pub one_colon : List ℕ → Bool
one_colon [] = false
one_colon (x ∷ []) = x == b':'
one_colon (x ∷ y ∷ rest) = x == b':' && not (y == b':')

abbrev pub takes_arg : ℕ → List ℕ → Bool
takes_arg c [] = false
takes_arg c (x ∷ xs) = let later = takes_arg c xs in if c == x then one_colon xs else later

-- The entry of a name.
abbrev pub same_name : List ℕ → List ℕ → Bool
same_name [] [] = true
same_name (x ∷ xs) (y ∷ ys) = x == y && same_name xs ys
same_name _ _ = false

abbrev pub find_long : List ℕ → List LongOption → Option LongOption
find_long name [] = none
find_long name (o ∷ os) =
    let later = find_long name os in if same_name name o.name then some o else later

-- What is documented of `getopt_long`, for the options that take an argument: as the next word, as the
-- rest of the word, and as the word after a long name.
pub record IsGetoptLong (getopt_long : GetoptLong) : Type 0 where
  pub ends :
      (prog shorts : List ℕ) (longs : List LongOption) → getopt_long (prog ∷ []) shorts longs ≡ []
  pub separate :
      (prog : List ℕ) (c : ℕ) (optarg : List ℕ) (rest : List (List ℕ)) (shorts : List ℕ)
      (longs : List LongOption)
      → c ≢ b'-'
      → c ≢ b':'
      → takes_arg c shorts ≡ true
      → getopt_long (prog ∷ (b'-' ∷ c ∷ []) ∷ optarg ∷ rest) shorts longs
        ≡ (c, some optarg) ∷ getopt_long (prog ∷ rest) shorts longs
  pub attached :
      (prog : List ℕ) (c x : ℕ) (xs : List ℕ) (rest : List (List ℕ)) (shorts : List ℕ)
      (longs : List LongOption)
      → c ≢ b'-'
      → c ≢ b':'
      → takes_arg c shorts ≡ true
      → getopt_long (prog ∷ (b'-' ∷ c ∷ x ∷ xs) ∷ rest) shorts longs
        ≡ (c, some (x ∷ xs)) ∷ getopt_long (prog ∷ rest) shorts longs
  pub long :
      (prog name optarg : List ℕ) (rest : List (List ℕ)) (shorts : List ℕ) (longs : List LongOption)
      (o : LongOption)
      → name ≢ []
      → All (λ c. c ≢ b'=') name
      → find_long name longs ≡ some o
      → o.has_arg ≡ 1
      → getopt_long (prog ∷ (b'-' ∷ b'-' ∷ name) ∷ optarg ∷ rest) shorts longs
        ≡ (o.val, some optarg) ∷ getopt_long (prog ∷ rest) shorts longs

-- An option on the command line: -p 80, -p80 or --port 80.
pub data Kind : Type 0 where
  by_ip by_port by_id : Kind

pub data Given : Type 0 where
  separate : Kind → List ℕ → Given
  attached : Kind → ℕ → List ℕ → Given
  long : Kind → List ℕ → Given

abbrev letter : Kind → ℕ
letter by_ip = b'i'
letter by_port = b'p'
letter by_id = b'd'

abbrev long_name : Kind → List ℕ
long_name by_ip = codes "ip"
long_name by_port = codes "port"
long_name by_id = codes "id"

abbrev kind : Given → Kind
kind (separate k arg) = k
kind (attached k x xs) = k
kind (long k arg) = k

abbrev text : Given → List ℕ
text (separate k arg) = arg
text (attached k x xs) = x ∷ xs
text (long k arg) = arg

abbrev words : Given → List (List ℕ)
words (separate k arg) = (b'-' ∷ letter k ∷ []) ∷ arg ∷ []
words (attached k x xs) = (b'-' ∷ letter k ∷ x ∷ xs) ∷ []
words (long k arg) = (b'-' ∷ b'-' ∷ long_name k) ∷ arg ∷ []

abbrev pub all_words : List Given → List (List ℕ)
all_words [] = []
all_words (g ∷ gs) = words g ++ all_words gs

-- What it asks for.
abbrev asked_for : Kind → List ℕ → Request
asked_for by_ip text = Request.ip text
asked_for by_port text = Request.port (atoi text)
asked_for by_id text = Request.id (atoi text)

abbrev pub asked : Given → Request
asked g = asked_for (kind g) (text g)

-- An address has no NUL, as no word of a command line has, and less than 32 bytes.
abbrev pub FitsFor : Kind → List ℕ → Type 0
FitsFor by_ip text = All (λ c. c ≢ 0) text × (length text < 32)
FitsFor by_port text = Unit
FitsFor by_id text = Unit

abbrev pub Fits : Given → Type 0
Fits g = FitsFor (kind g) (text g)

-- What `getopt_long` gives for it.
abbrev result : Given → ℕ × Option (List ℕ)
result g = (letter (kind g), some (text g))

letter-minus : (k : Kind) → letter k ≢ b'-'
letter-minus by_ip = omega arith
letter-minus by_port = omega arith
letter-minus by_id = omega arith

letter-colon : (k : Kind) → letter k ≢ b':'
letter-colon by_ip = omega arith
letter-colon by_port = omega arith
letter-colon by_id = omega arith

letter-takes_arg : (k : Kind) → takes_arg (letter k) short_options ≡ true
letter-takes_arg by_ip = refl
letter-takes_arg by_port = refl
letter-takes_arg by_id = refl

module _ (getopt_long : GetoptLong) (laws : IsGetoptLong getopt_long) (prog : List ℕ) where
  getopt_long-long :
      (k : Kind) (optarg : List ℕ) (rest : List (List ℕ))
      → getopt_long (prog ∷ (b'-' ∷ b'-' ∷ long_name k) ∷ optarg ∷ rest) short_options long_options
        ≡ (letter k, some optarg) ∷ getopt_long (prog ∷ rest) short_options long_options
  getopt_long-long by_ip optarg rest =
      laws.long prog (codes "ip") optarg rest short_options long_options _ (λ e. cc)
        (omega arith, (omega arith, tt)) refl refl
  getopt_long-long by_port optarg rest =
      laws.long prog (codes "port") optarg rest short_options long_options _ (λ e. cc)
        (omega arith, (omega arith, (omega arith, (omega arith, tt)))) refl refl
  getopt_long-long by_id optarg rest =
      laws.long prog (codes "id") optarg rest short_options long_options _ (λ e. cc)
        (omega arith, (omega arith, tt)) refl refl

  getopt_long-words :
      (gs : List Given)
      → getopt_long (prog ∷ all_words gs) short_options long_options ≡ map result gs
  getopt_long-words [] = laws.ends prog short_options long_options
  getopt_long-words (separate k arg ∷ gs) =
      laws.separate prog (letter k) arg (all_words gs) short_options long_options (letter-minus k)
        (letter-colon k) (letter-takes_arg k)
      ∙ ap (λ os. (letter k, some arg) ∷ os) (getopt_long-words gs)
  getopt_long-words (attached k x xs ∷ gs) =
      laws.attached prog (letter k) x xs (all_words gs) short_options long_options (letter-minus k)
        (letter-colon k) (letter-takes_arg k)
      ∙ ap (λ os. (letter k, some (x ∷ xs)) ∷ os) (getopt_long-words gs)
  getopt_long-words (long k arg ∷ gs) =
      getopt_long-long k arg (all_words gs)
      ∙ ap (λ os. (letter k, some arg) ∷ os) (getopt_long-words gs)

-- The last option is the one that counts, and none is bad.
letter-is_bad : (k : Kind) (optarg : List ℕ) → is_bad (letter k, some optarg) ≡ false
letter-is_bad by_ip optarg = refl
letter-is_bad by_port optarg = refl
letter-is_bad by_id optarg = refl

any_bad-result : (gs : List Given) → any_bad (map result gs) ≡ false
any_bad-result [] = refl
any_bad-result (g ∷ gs) = rw (letter-is_bad (kind g) (text g)) (any_bad-result gs)

letter-command_of :
    (k : Kind) (optarg : List ℕ) → command_of (letter k) optarg ≡ command (asked_for k optarg)
letter-command_of by_ip optarg = refl
letter-command_of by_port optarg = refl
letter-command_of by_id optarg = refl

last_command-result :
    (gs : List Given) (g : Given) (cmd : Syscmd)
    → last_command (map result (gs ++ g ∷ [])) cmd ≡ command (asked g)
last_command-result [] g cmd = letter-command_of (kind g) (text g)
last_command-result (x ∷ gs) g cmd =
    last_command-result gs g (command_of (letter (kind x)) (text x))

FitsFor-IsValid : (k : Kind) (arg : List ℕ) → FitsFor k arg → IsValid (asked_for k arg)
FitsFor-IsValid by_ip arg f = f
FitsFor-IsValid by_port arg f = atoi-bound arg
FitsFor-IsValid by_id arg f = atoi-bound arg

length-words : (gs : List Given) (g : Given) → 0 < length (all_words (gs ++ g ∷ []))
length-words [] (separate k arg) = omega arith
length-words [] (attached k x xs) = omega arith
length-words [] (long k arg) = omega arith
length-words (separate k arg ∷ gs) g = omega arith
length-words (attached k x xs ∷ gs) g = omega arith
length-words (long k arg ∷ gs) g = omega arith

-- Any options that take an argument, each of them written in one of the three ways, and sockets that
-- work: app.c sends one message, and netctrl.c, given that message, returns 0 and prints what the last
-- of the options asks for, an address or a number. An address has less than
-- 32 bytes. The module's copy of the message stays allocated.
pub command_line_prints :
    (getopt_long : GetoptLong) (prog : List ℕ) (gs : List Given) (g : Given) (nlmsg_length : ℕ → ℕ)
    (env : Sockets) (sizes : NlmsgSizes) (at : ℕ → ℕ) (s : Netctrl)
    → IsGetoptLong getopt_long
    → ((n : ℕ) → nlmsg_length n ≡ n + 16)
    → Documented sizes
    → Connected env
    → Fits g
    → bytes_of at 0 (4 + size_of (asked g)) ≡ wire (asked g)
    → (main nlmsg_length env true getopt_long (prog ∷ all_words (gs ++ g ∷ []))
        ≡ done (ran (some (head_of env.getpid (asked g), wire (asked g)))))
      × (netctrl_receive_msg sizes true (head_of env.getpid (asked g)) at s
          ≡ done (
            pos 0,
            record s {
              bytes_live = s.bytes_live + (size_of (asked g) + 8);
              log = s.log ++ line (asked g) ∷ [];
            },
          ))
command_line_prints getopt_long prog gs g nlmsg_length env sizes at s laws lens d c fits bytes =
    let argv = prog ∷ all_words (gs ++ g ∷ []) in
    let results = getopt_long-words getopt_long laws prog (gs ++ g ∷ []) in
    let few : leb (length argv) 1 ≡ false = ground (arith, length-words gs g) in
    let good : any_bad (getopt_long argv short_options long_options) ≡ false =
      ap any_bad results ∙ any_bad-result (gs ++ g ∷ []) in
    let (sends, prints) =
      request_roundtrip nlmsg_length env sizes (asked g) at s lens d c
        (FitsFor-IsValid (kind g) (text g) fits) bytes in
    let last : last_command (getopt_long argv short_options long_options) zero_cmd
        ≡ command (asked g) =
      ap (λ os. last_command os zero_cmd) results ∙ last_command-result gs g zero_cmd in
    elim (main_lem nlmsg_length env true getopt_long argv c.calloc) [
      | inl (bad, _) ↦ absurd (ground (arith, bad, few, good))
      | inr (ret, message, _, runs, gives) ↦
          let same : message ≡ some (head_of env.getpid (asked g), wire (asked g)) =
            cc (ap (syscmd_proc nlmsg_length env true) last, runs, sends) in
          (gives ∙ ap (λ m. done (ran m)) same, prints)
    ]
