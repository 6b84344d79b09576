-- ===== src/Tty.antt =====
-- tty/tty.c: a text for the terminal of the task that loads or unloads the module.
use modules.Common.{
  ℕ, ◌≡◌, refl, Option, none, some, List, [], ◌∷◌, ◌++◌, ℤ, pos, codes, length, ap, ◌∙◌,
}

-- A terminal's driver: `write` is given the bytes and their number.
pub record TtyDriver : Type 1 where
  pub Tty : Type 0
  pub write : Tty → List ℕ → (count : ℕ) → ℤ × Tty

-- The terminal is NULL for a task that has none. What `write` returns is not looked at.
unfoldable pub print_string : (d : TtyDriver) → List ℕ → Option d.Tty → Option d.Tty
print_string d str none = none
print_string d str (some my_tty) =
    let told = (d.write my_tty str (length str)).1 in some (d.write told (13 ∷ 10 ∷ []) 2).1

abbrev inserted : List ℕ
inserted = codes "The module has been inserted.  Hello world!"

abbrev removed : List ℕ
removed = codes "The module has been removed.  Farewell world!"

unfoldable pub print_string_init : (d : TtyDriver) → Option d.Tty → ℤ × Option d.Tty
unfolding print_string
print_string_init d my_tty = (pos 0, print_string d inserted my_tty)

unfoldable pub print_string_exit : (d : TtyDriver) → Option d.Tty → Option d.Tty
unfolding print_string
print_string_exit d my_tty = print_string d removed my_tty

-- With a terminal that shows what it is given, the module shows both lines, each with its end.
module _ (d : TtyDriver) (shown : d.Tty → List ℕ)
    (shows : (t : d.Tty) (bytes : List ℕ)
      → shown (d.write t bytes (length bytes)).1 ≡ shown t ++ bytes) where
  print_string_lem :
      (my_tty : d.Tty)
      → (end : d.Tty) × (print_string_exit d (print_string_init d (some my_tty)).1 ≡ some end)
        × (shown end ≡ (((shown my_tty ++ inserted) ++ 13 ∷ 10 ∷ []) ++ removed) ++ 13 ∷ 10 ∷ [])
  unfolding print_string_init print_string_exit print_string
  print_string_lem my_tty = (
    _,
    refl,
    shows _ (13 ∷ 10 ∷ [])
        ∙ ap (λ b. b ++ 13 ∷ 10 ∷ [])
            (shows _ removed
              ∙ ap (λ b. b ++ removed)
                  (shows _ (13 ∷ 10 ∷ []) ∙ ap (λ b. b ++ 13 ∷ 10 ∷ []) (shows my_tty inserted))),
  )
