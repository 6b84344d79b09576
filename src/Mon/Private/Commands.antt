-- ===== src/Mon/Private/Commands.antt =====
-- The commands that the tables of mon/mon.c offer, and where they lead.
use modules.Common.{
  ℕ, ◌+◌, ◌<◌, ◌≡◌, refl, ap, ◌∙◌, true, some, List, [], ◌∷◌, ◌++◌, pos, length, codes, c_string,
  done, ◌>>=◌, arith, ltb, if◌then◌else◌,
}
use modules.Mon.{
  Mon, Reply, ioctl_mon_hello, ioctl_mon_set_lover, ioctl_mon_get_lover, ioctl_mon_set_maxsta,
  ioctl_mon_get_maxsta, ioctl_setpara_mon, ioctl_getpara_mon, ioctl_char128_mon,
}
use modules.Mon.Ioctl.{set_lover-get_lover}
use modules.Mon.Private.{
  IwPrivArgs, Handler, setpara, getpara, char128, real_args, one_int, chars, header_chars,
  ioctl_setpara, ioctl_getpara, ioctl_char, siocdevprivate, siociwfirstpriv, priv_args_mon,
  iw_handlers_mon, iw_handler_def_mon, Argument, nothing, int, text, WextApi, same, find, is_real,
  IsWextApi, Memory, result, value, chars128, call, iwpriv,
}

module _ (api : WextApi) (laws : IsWextApi api) where
  -- A name leads to a handler with a sub-command.
  leads :
      (mem : Memory) (name : List ℕ) (arg : Argument) (m : Mon) (e r : IwPrivArgs)
      (before after : List Handler) (h : Handler)
      → find (λ x. same x.name name) priv_args_mon ≡ some e
      → e.cmd < siocdevprivate
      → find (is_real e) priv_args_mon ≡ some r
      → iw_handlers_mon ≡ before ++ h ∷ after
      → length before < 3
      → r.cmd ≡ siociwfirstpriv + length before
      → iwpriv api mem name arg m ≡ some (call h mem (api.pass r e.cmd arg) m)
  unfolding iwpriv
  leads mem name arg m e r before after h named sub real at few cmd =
      rw
        (
          laws.resolves priv_args_mon name e r named sub real,
          cmd,
          laws.handles iw_handler_def_mon before after h at few,
        )
        refl

  setmaxsta :
      (mem : Memory) (v : ℕ) (m : Mon)
      → iwpriv api mem (codes "setmaxsta") (int v) m
        ≡ some (done (result (pos 0), record m { g_maxsta = v }))
  unfolding call ioctl_setpara_mon
  setmaxsta mem v m =
      let r = real_args ioctl_setpara one_int 0 in
      let (sub, val) = laws.passes_int r ioctl_mon_set_maxsta v refl in
      rw
        (
          leads mem (codes "setmaxsta") (int v) m _ r [] _ setpara refl (omega arith) refl refl
              (omega arith) refl,
          sub,
          val,
        )
        refl

  getmaxsta :
      (mem : Memory) (m : Mon)
      → iwpriv api mem (codes "getmaxsta") nothing m ≡ some (done (value (pos 0) m.g_maxsta, m))
  unfolding call ioctl_getpara_mon
  getmaxsta mem m =
      let r = real_args ioctl_getpara 0 one_int in
      rw
        (
          leads mem (codes "getmaxsta") nothing m _ r (setpara ∷ []) _ getpara refl (omega arith)
              refl refl (omega arith) refl,
          laws.passes_nothing r ioctl_mon_get_maxsta refl refl,
        )
        refl

  -- The three names of the third ioctl lead to it with their flags.
  flagged :
      (mem : Memory) (name : List ℕ) (arg : Argument) (m : Mon) (e : IwPrivArgs)
      → find (λ x. same x.name name) priv_args_mon ≡ some e
      → e.cmd < siocdevprivate
      → find (is_real e) priv_args_mon ≡ some (real_args ioctl_char chars header_chars)
      → let req = api.pass (real_args ioctl_char chars header_chars) e.cmd arg in
        iwpriv api mem name arg m
        ≡ some (
            ioctl_char128_mon mem.kzalloc_ok mem.missed_in mem.missed_out e.cmd req.user req.len m
            >>= λ r. done (chars128 r.0, r.1))
  unfolding call
  flagged mem name arg m e named sub real =
      let r = real_args ioctl_char chars header_chars in
      leads mem name arg m e r (setpara ∷ getpara ∷ []) [] char128 named sub real refl (omega arith)
        refl
      ∙ ap
          (λ f. some (
            ioctl_char128_mon mem.kzalloc_ok mem.missed_in mem.missed_out f
              (api.pass r e.cmd arg).user (api.pass r e.cmd arg).len m
            >>= λ r. done (chars128 r.0, r.1)))
          (laws.passes_flags r e.cmd arg refl)

  -- Any number that `iwpriv mon setmaxsta` is given becomes g_maxsta and nothing else, and
  -- `getmaxsta` then answers it; a name of less than 32 bytes that `setlover` is given is answered,
  -- with its NUL, by `getlover`, whatever the argument of that; and `hello` returns 0 and changes
  -- nothing. This is so for every iwpriv and kernel that do what is documented, where `kzalloc`
  -- succeeds and the user's memory is copied whole.
  pub iwpriv_lem :
      (v : ℕ) (name : List ℕ) (arg : Argument) (m : Mon)
      → c_string (name ++ 0 ∷ []) ≡ some name
      → length name < 32
      → let mem : Memory = record { kzalloc_ok = true; missed_in = 0; missed_out = 0 } in
        let m₁ = record m { g_maxsta = v } in
        (iwpriv api mem (codes "setmaxsta") (int v) m ≡ some (done (result (pos 0), m₁)))
        × (iwpriv api mem (codes "getmaxsta") nothing m₁ ≡ some (done (value (pos 0) v, m₁)))
        × ((m₂ : Mon) × (reply : Reply) × (iwpriv api mem (codes "setlover") (text name) m
              ≡ some (done (chars128 reply, m₂)))
            × (reply.ret ≡ pos 0)
            × (iwpriv api mem (codes "getlover") arg m₂
                ≡ some (
                    done (
                      chars128 (record {
                        ret = pos 0;
                        length = length name + 1;
                        written = name ++ 0 ∷ [];
                      }),
                      m₂,
                    ))))
        × ((reply : Reply) × (iwpriv api mem (codes "hello") (text name) m
              ≡ some (done (chars128 reply, m)))
            × (reply.ret ≡ pos 0))
  unfolding ioctl_char128_mon
  iwpriv_lem v name arg m is short =
      let mem : Memory = record { kzalloc_ok = true; missed_in = 0; missed_out = 0 } in
      let r = real_args ioctl_char chars header_chars in
      let req = api.pass r ioctl_mon_set_lover (text name) in
      let hi = api.pass r ioctl_mon_hello (text name) in
      let ask = api.pass r ioctl_mon_get_lover arg in
      let (sent, size) =
        laws.passes_text r ioctl_mon_set_lover name refl (omega (arith, short)) is in
      let (told, _) = laws.passes_text r ioctl_mon_hello name refl (omega (arith, short)) is in
      let (m₂, reply, sets, good, gets) =
        set_lover-get_lover name req.user ask.user req.len ask.len 0 0 m sent short
          (omega (arith, size)) in
      (
        setmaxsta mem v m,
        getmaxsta mem (record m { g_maxsta = v }),
        (
          m₂,
          reply,
          flagged mem (codes "setlover") (text name) m _ refl (omega arith) refl
              ∙ ap (λ o. some (o >>= λ r. done (chars128 r.0, r.1))) sets,
          good,
          flagged mem (codes "getlover") arg m₂ _ refl (omega arith) refl
              ∙ ap (λ o. some (o >>= λ r. done (chars128 r.0, r.1))) gets,
        ),
        (
          record { ret = pos 0; length = if ltb 128 hi.len then 128 else hi.len; written = [] },
          flagged mem (codes "hello") (text name) m _ refl (omega arith) refl ∙ rw told refl,
          refl,
        ),
      )
