-- ===== src/Mon/Private/Tests.antt =====
-- The commands of mon/mon.c with an iwpriv and a kernel that look the tables up.
use modules.Common.{
  ℕ, zero, suc, ◌+◌, ◌-◌, ◌≡◌, refl, ap, ◌∙◌, true, Option, none, some, List, [], ◌∷◌, ◌++◌, pos,
  length, replicate, codes, c_string, arith, done,
}
use modules.Mon.{Mon, Reply}
use modules.Mon.Private.{
  IwPrivArgs, Handler, siociwfirstpriv, Argument, nothing, int, text, Request, WextApi, same, find,
  is_real, IsWextApi, Memory, result, value, chars128, iwpriv,
}
use modules.Mon.Private.Commands.{iwpriv_lem}

abbrev with_number : ℕ → Option IwPrivArgs → Option (IwPrivArgs × ℕ)
with_number n none = none
with_number n (some r) = some (r, n)

abbrev with_real : List IwPrivArgs → Option IwPrivArgs → Option (IwPrivArgs × ℕ)
with_real table none = none
with_real table (some e) = with_number e.cmd (find (is_real e) table)

abbrev nth : List Handler → ℕ → Option Handler
nth [] i = none
nth (h ∷ hs) zero = some h
nth (h ∷ hs) (suc i) = nth hs i

nth-append :
    (before after : List Handler) (h : Handler) → nth (before ++ h ∷ after) (length before) ≡ some h
nth-append [] after h = refl
nth-append (b ∷ before) after h = nth-append before after h

abbrev request : ℕ → Argument → Request
request sub nothing = record { extra0 = sub; extra1 = 0; flags = sub; user = 0 ∷ []; len = 1 }
request sub (int v) = record { extra0 = sub; extra1 = v; flags = sub; user = 0 ∷ []; len = 1 }
request sub (text s) = record {
  extra0 = sub;
  extra1 = 0;
  flags = sub;
  user = s ++ 0 ∷ [];
  len = length s + 1;
}

abbrev looks_up : WextApi
looks_up = record {
  resolve = λ table name. with_real table (find (λ x. same x.name name) table);
  handler = λ def cmd. nth def.private (cmd - siociwfirstpriv);
  pass = λ r sub arg. request sub arg;
}

request-flags : (sub : ℕ) (arg : Argument) → (request sub arg).flags ≡ sub
request-flags sub nothing = refl
request-flags sub (int v) = refl
request-flags sub (text s) = refl

looks_up-IsWextApi : IsWextApi looks_up
looks_up-IsWextApi = record {
  resolves =
      λ table name e r named sub real. ap (with_real table) named ∙ ap (with_number e.cmd) real;
  handles = λ def before after h at few.
      ap (nth def.private) {x = siociwfirstpriv + length before - siociwfirstpriv}
        {y = length before} (omega arith)
      ∙ ap (λ hs. nth hs (length before)) at
      ∙ nth-append before after h;
  passes_int = λ r sub v is. (refl, refl);
  passes_nothing = λ r sub is gets. refl;
  passes_flags = λ r sub arg is. request-flags sub arg;
  passes_text = λ r sub s is short ends. (ends, refl);
}

abbrev fresh : Mon
fresh = record { g_maxsta = 1; g_lover = replicate 32 0 }

lover_ends : c_string (codes "lover" ++ 0 ∷ []) ≡ some (codes "lover")
unfolding c_string
lover_ends = refl

iwpriv_lem_example :
    let mem : Memory = record { kzalloc_ok = true; missed_in = 0; missed_out = 0 } in
    let m₁ = record fresh { g_maxsta = 123 } in
    (iwpriv looks_up mem (codes "setmaxsta") (int 123) fresh ≡ some (done (result (pos 0), m₁)))
    × (iwpriv looks_up mem (codes "getmaxsta") nothing m₁ ≡ some (done (value (pos 0) 123, m₁)))
    × ((m₂ : Mon) × (reply : Reply) × (iwpriv looks_up mem
            (codes "setlover")
            (text (codes "lover"))
            fresh
          ≡ some (done (chars128 reply, m₂)))
        × (reply.ret ≡ pos 0)
        × (iwpriv looks_up mem (codes "getlover") nothing m₂
            ≡ some (
                done (
                  chars128 (record { ret = pos 0; length = 6; written = codes "lover" ++ 0 ∷ [] }),
                  m₂,
                ))))
    × ((reply : Reply) × (iwpriv looks_up mem (codes "hello") (text (codes "lover")) fresh
          ≡ some (done (chars128 reply, fresh)))
        × (reply.ret ≡ pos 0))
iwpriv_lem_example =
    iwpriv_lem looks_up looks_up-IsWextApi 123 (codes "lover") nothing fresh lover_ends
      (omega arith)
