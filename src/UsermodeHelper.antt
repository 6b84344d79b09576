-- ===== src/UsermodeHelper.antt =====
-- usermode_helper/usermodehelper.c: the program that the module has the kernel run when it is loaded.
-- call_usermodehelper is a parameter.
use modules.Common.{ℕ, ◌≡◌, refl, List, [], ◌∷◌, ℤ, codes}

-- UMH_WAIT_EXEC of the kernel's headers.
abbrev umh_wait_exec : ℕ
umh_wait_exec = 1

-- The text that is printed, or the number behind it.
data Line : Type 0 where
  entry exit : Line
  ret : ℤ → Line

-- The result, and the lines that are printed.
uhm_test : (call_usermodehelper : List ℕ → List (List ℕ) → List (List ℕ) → ℕ → ℤ) → ℤ × List Line
uhm_test call_usermodehelper =
    let path = codes "/bin/ls" in
    let envp =
      codes "HOME=/" ∷ codes "TERM=linux" ∷ codes "PATH=/sbin:/bin:/usr/sbin:/usr/bin" ∷ [] in
    let result = call_usermodehelper path (path ∷ []) envp umh_wait_exec in
    (result, ret result ∷ [])

mod_entry_func :
    (call_usermodehelper : List ℕ → List (List ℕ) → List (List ℕ) → ℕ → ℤ) → ℤ × List Line
unfolding uhm_test
mod_entry_func call_usermodehelper =
    let (result, lines) = uhm_test call_usermodehelper in (result, entry ∷ lines)

abbrev mod_exit_func : List Line
mod_exit_func = exit ∷ []

-- An error of the kernel is the result of the module.
mod_entry_func-error :
    (err : ℤ) → mod_entry_func (λ path argv envp wait. err) ≡ (err, entry ∷ ret err ∷ [])
unfolding mod_entry_func
mod_entry_func-error err = refl
