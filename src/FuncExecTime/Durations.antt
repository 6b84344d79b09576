-- ===== src/FuncExecTime/Durations.antt =====
-- What the return probe of funcexectime/funcexectime.c reports.
use modules.Common.{
  ℕ, ◌+◌, ◌-◌, ◌%◌, ◌^◌, ◌≡◌, ◌≢◌, ◌<◌, ◌≤◌, refl, ap, ap₂, ◌∙◌, true, List, [], ◌∷◌, ◌++◌, All,
  arith,
}
use modules.FuncExecTime.{
  Report, Fet, stamp_at, ktime_sub, HandlerCall, enter, return, call_handler, call_handlers,
}

-- The instance that a call is for, and how many of some calls return.
abbrev pub instance_of : HandlerCall → ℕ
instance_of (enter ri mm now) = ri
instance_of (return ri return_value now) = ri

abbrev pub returns : List HandlerCall → ℕ
returns [] = 0
returns (enter ri mm now ∷ cs) = returns cs
returns (return ri return_value now ∷ cs) = returns cs + 1

call_handlers-append :
    (xs ys : List HandlerCall) (f : Fet)
    → call_handlers (xs ++ ys) f ≡ call_handlers ys (call_handlers xs f)
unfolding call_handlers
call_handlers-append [] ys f = refl
call_handlers-append (x ∷ xs) ys f = call_handlers-append xs ys (call_handler x f)

-- A call for another instance leaves the stamp of this one.
call_handler-stamp :
    (ri : ℕ) (c : HandlerCall) (f : Fet)
    → instance_of c ≢ ri
    → (call_handler c f).entry_stamp ri ≡ f.entry_stamp ri
call_handler-stamp ri (enter i mm now) f other = ground (arith, other)
call_handler-stamp ri (return i return_value now) f other = refl

call_handlers-stamp :
    (ri : ℕ) (cs : List HandlerCall) (f : Fet)
    → All (λ c. instance_of c ≢ ri) cs
    → (call_handlers cs f).entry_stamp ri ≡ f.entry_stamp ri
unfolding call_handlers
call_handlers-stamp ri [] f others = refl
call_handlers-stamp ri (c ∷ cs) f (other, others) =
    call_handlers-stamp ri cs (call_handler c f) others ∙ call_handler-stamp ri c f other

-- Every return is counted.
call_handlers-count :
    (cs : List HandlerCall) (f : Fet)
    → f.count < 2 ^ 64
    → (call_handlers cs f).count ≡ (f.count + returns cs) % 2 ^ 64
unfolding call_handlers
call_handlers-count [] f h = omega (arith, h)
call_handlers-count (enter ri mm now ∷ cs) f h =
    ground (arith, h, call_handlers-count cs (call_handler (enter ri mm now) f))
call_handlers-count (return ri return_value now ∷ cs) f h =
    ground (arith, h, call_handlers-count cs (call_handler (return ri return_value now) f))

ktime_sub_lem : (a b : ℕ) → a ≤ b → b < 2 ^ 63 → ktime_sub b a ≡ b - a
ktime_sub_lem a b h k = omega (arith, h, k)

stamp_at-same : (ri now : ℕ) (stamps : ℕ → ℕ) → stamp_at ri now stamps ri ≡ now
stamp_at-same ri now stamps = ground arith

-- A call of the function that is entered at a and returns at b, with any handler calls before it
-- and with those of other instances in between, is reported last, with the number of the returns
-- before it in 64 bits and with the difference b - a, if a is at most b and b below 2^63.
pub ret_handler_lem :
    (before between : List HandlerCall) (ri return_value a b : ℕ) (f : Fet)
    → All (λ c. instance_of c ≢ ri) between
    → a ≤ b
    → b < 2 ^ 63
    → f.count < 2 ^ 64
    → (earlier : List Report) × ((call_handlers
          (before ++ enter ri true a ∷ (between ++ return ri return_value b ∷ []))
          f).traced
        ≡ earlier
          ++ record {
            number = (f.count + (returns before + returns between)) % 2 ^ 64;
            retval = return_value % 2 ^ 32;
            delta = b - a;
          }
            ∷ [])
unfolding call_handlers
ret_handler_lem before between ri return_value a b f others h k small =
    let f₁ = call_handlers before f in
    let f₂ = call_handler (enter ri true a) f₁ in
    let f₃ = call_handlers between f₂ in
    let number : f₃.count ≡ (f.count + (returns before + returns between)) % 2 ^ 64 =
      let low = call_handlers-count before f small in
      omega (arith, low, call_handlers-count between f₂ (omega (arith, low))) in
    let stamp : f₃.entry_stamp ri ≡ a =
      call_handlers-stamp ri between f₂ others ∙ stamp_at-same ri a f₁.entry_stamp in
    (
      f₃.traced,
      ap (λ g. g.traced)
            (call_handlers-append before
                (enter ri true a ∷ (between ++ return ri return_value b ∷ [])) f
              ∙ call_handlers-append between (return ri return_value b ∷ []) f₂)
          ∙ ap₂
              (λ n d.
                f₃.traced ++ record { number = n; retval = return_value % 2 ^ 32; delta = d } ∷ [])
              number (ap (ktime_sub b) stamp ∙ ktime_sub_lem a b h k),
    )
