-- ===== src/Netctrl/CommandLine/Tests.antt =====
-- A `getopt_long` for the options of netctrl/app.c, and a command line.
use modules.Common.{
  ℕ, ◌≡◌, refl, ◌≢◌, true, Option, none, some, List, [], ◌∷◌, ◌++◌, ◌==◌, if◌then◌else◌, codes,
  arith, pos, done,
}
use modules.Netctrl.Samples.{
  sizes, sizes-Documented, idle_module, memory, length_of, working, working-Connected, an_address,
  an_address-bytes,
}
use modules.Netctrl.Kernel.{netctrl_receive_msg}
use modules.Netctrl.App.{ran, main, LongOption, GetoptLong}
use modules.Netctrl.Roundtrip.{wire, line, head_of}
use modules.Netctrl.CommandLine.{
  takes_arg, find_long, IsGetoptLong, by_ip, by_port, by_id, Given, separate, attached, long,
  all_words, command_line_prints,
}

-- What a word is: an option with its argument, one whose argument is the next word, or neither.
data Word : Type 0 where
  whole : ℕ → List ℕ → Word
  wants : ℕ → Word
  other : Word

wants_long : Option LongOption → Word
wants_long none = other
wants_long (some o) = if o.has_arg == 1 then wants o.val else other

word : List ℕ → List ℕ → List LongOption → Word
unfolding wants_long
word (d ∷ c ∷ []) shorts longs = if takes_arg c shorts then wants c else other
word (d ∷ c ∷ x ∷ xs) shorts longs =
    if c == b'-'
    then wants_long (find_long (x ∷ xs) longs)
    else if takes_arg c shorts
    then whole c (x ∷ xs)
    else other
word _ shorts longs = other

results : List (List ℕ) → List ℕ → List LongOption → List (ℕ × Option (List ℕ))
results [] shorts longs = []
results (w ∷ []) shorts longs = elim (word w shorts longs) [
  | whole c arg ↦ (c, some arg) ∷ []
  | wants c ↦ (c, none) ∷ []
  | other ↦ []
]
results (w ∷ v ∷ rest) shorts longs =
    let next = results (v ∷ rest) shorts longs in
    let after = results rest shorts longs in
    elim (word w shorts longs) [
      | whole c arg ↦ (c, some arg) ∷ next
      | wants c ↦ (c, some v) ∷ after
      | other ↦ next
    ]

results-wants :
    (w v : List ℕ) (rest : List (List ℕ)) (shorts : List ℕ) (longs : List LongOption) (c : ℕ)
    → word w shorts longs ≡ wants c
    → results (w ∷ v ∷ rest) shorts longs ≡ (c, some v) ∷ results rest shorts longs
unfolding results
results-wants w v rest shorts longs c is = rw (results, is) refl

results-whole :
    (w : List ℕ) (rest : List (List ℕ)) (shorts : List ℕ) (longs : List LongOption) (c : ℕ)
    (arg : List ℕ)
    → word w shorts longs ≡ whole c arg
    → results (w ∷ rest) shorts longs ≡ (c, some arg) ∷ results rest shorts longs
unfolding results
results-whole w [] shorts longs c arg is = rw (results, is) refl
results-whole w (v ∷ rest) shorts longs c arg is = rw (results, is) refl

word-attached :
    (c x : ℕ) (xs shorts : List ℕ) (longs : List LongOption)
    → c ≢ b'-'
    → takes_arg c shorts ≡ true
    → word (b'-' ∷ c ∷ x ∷ xs) shorts longs ≡ whole c (x ∷ xs)
unfolding word
word-attached c x xs shorts longs n takes = ground (arith, takes, n)

word-long :
    (name shorts : List ℕ) (longs : List LongOption) (o : LongOption)
    → name ≢ []
    → find_long name longs ≡ some o
    → o.has_arg ≡ 1
    → word (b'-' ∷ b'-' ∷ name) shorts longs ≡ wants o.val
unfolding word wants_long
word-long [] shorts longs o n found one = absurd (n refl)
word-long (x ∷ xs) shorts longs o n found one = rw (found, one) refl

getopt : GetoptLong
getopt [] shorts longs = []
getopt (prog ∷ rest) shorts longs = results rest shorts longs

getopt-IsGetoptLong : IsGetoptLong getopt
unfolding getopt word results
getopt-IsGetoptLong = record {
  ends = λ prog shorts longs. refl;
  separate = λ prog c optarg rest shorts longs n m takes.
      results-wants (b'-' ∷ c ∷ []) optarg rest shorts longs c (rw takes refl);
  attached = λ prog c x xs rest shorts longs n m takes.
      results-whole (b'-' ∷ c ∷ x ∷ xs) rest shorts longs c (x ∷ xs)
        (word-attached c x xs shorts longs n takes);
  long = λ prog name optarg rest shorts longs o n m found one.
      results-wants (b'-' ∷ b'-' ∷ name) optarg rest shorts longs o.val
        (word-long name shorts longs o n found one);
}

-- `-p80 -d 7 --ip 172.12.2.51`.
abbrev before : List Given
before = attached by_port b'8' (b'0' ∷ []) ∷ separate by_id (b'7' ∷ []) ∷ []

abbrev address : Given
address = long by_ip (codes "172.12.2.51")

command_line_prints_example :
    (main length_of working true getopt (codes "netctrl" ∷ all_words (before ++ address ∷ []))
      ≡ done (ran (some (head_of 42 an_address, wire an_address))))
    × (netctrl_receive_msg sizes true (head_of 42 an_address) (memory (wire an_address)) idle_module
        ≡ done (pos 0, record idle_module { bytes_live = 40; log = line an_address ∷ [] }))
command_line_prints_example =
    command_line_prints getopt (codes "netctrl") before address length_of working sizes
      (memory (wire an_address)) idle_module getopt-IsGetoptLong (λ n. refl) sizes-Documented
      working-Connected (ground arith) an_address-bytes
