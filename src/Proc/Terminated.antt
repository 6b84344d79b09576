-- ===== src/Proc/Terminated.antt =====
-- The arrays of proc/foobar.c under writes and reads.
use Prim.Native.Nat.{min}
use native.Mathlib.Nat.{sub-zero, sub_self}
use modules.Common.{
  ℕ, zero, suc, ◌+◌, ◌-◌, ◌≤◌, ◌≡◌, ◌≢◌, refl, inl, inr, some, List, [], ◌∷◌, ◌++◌, pos, ltb, ◌==◌,
  if◌then◌else◌, take, drop, length, length-take, replicate, length-replicate, append-nil,
  length-drop, length-append, get_or, codes, c_string, c_string-append_nul, All, length-set,
  get_or-set_same, set-append, drop-eq_cons, ◌∙◌, ap, arith, done, Bool-cases,
}
use modules.Proc.{FbData, foobar_len, copied, proc_read_foobar, proc_write_foobar}

-- The array has FOOBAR_LEN + 1 bytes, the last of them NUL.
pub record IsTerminated (value : List ℕ) : Type 0 where
  pub size : length value ≡ foobar_len + 1
  pub last : get_or value foobar_len 1 ≡ 0

-- Bytes before a place can be written over, and the place stays.
get_or-overwritten :
    (front value : List ℕ) (k i : ℕ)
    → length front ≡ k
    → k ≤ i
    → k ≤ length value
    → get_or (front ++ drop k value) i 1 ≡ get_or value i 1
get_or-overwritten [] value zero i len h v = refl
get_or-overwritten [] value (suc k) i len h v = absurd (omega arith)
get_or-overwritten (c ∷ front) value zero i len h v = absurd (omega arith)
get_or-overwritten (c ∷ front) value (suc k) zero len h v = absurd (omega arith)
get_or-overwritten (c ∷ front) [] (suc k) (suc i) len h v = absurd (omega arith)
get_or-overwritten (c ∷ front) (x ∷ value) (suc k) (suc i) len h v =
    get_or-overwritten front value k i (omega arith) (omega arith) (omega arith)

copied-IsTerminated :
    (len missed : ℕ) (buffer value : List ℕ)
    → len ≤ foobar_len
    → len ≤ length buffer
    → IsTerminated value
    → IsTerminated (copied len missed buffer value)
copied-IsTerminated len missed buffer value small enough t =
    let k = len - missed in
    let front = take k buffer ++ replicate (len - k) 0 in
    let size : length front ≡ len = omega (
      arith,
      length-append (take k buffer) (replicate (len - k) 0),
      length-take k buffer,
      length-replicate {A = ℕ} (len - k) 0,
    ) in
    record {
      size = omega (arith, length-append front (drop len value), size, length-drop len value, t);
      last = get_or-overwritten front value len 8 size (omega arith) (omega (arith, t)) ∙ t.last;
    }

-- However long the write and however much of it cannot be copied, `proc_write_foobar` leaves an
-- array of 9 bytes whose last is NUL, if it was one before and the buffer has `count` bytes.
pub proc_write_foobar-IsTerminated :
    (missed : ℕ) (buffer : List ℕ) (count : ℕ) (fb : FbData)
    → count ≤ length buffer
    → IsTerminated fb.value
    → IsTerminated (proc_write_foobar missed buffer count fb).1.value
unfolding proc_write_foobar
proc_write_foobar-IsTerminated missed buffer count fb enough t =
    let len = if ltb foobar_len count then foobar_len else count in
    let after = copied len missed buffer fb.value in
    let kept : IsTerminated after =
      copied-IsTerminated len missed buffer fb.value (ground arith) (ground arith) t in
    elim (Bool-cases (missed == 0)) [
      | inl whole ↦ rw whole (record {
        size = length-set after len 0 ∙ kept.size;
        last = get_or-set_same after len 8 0 1 kept.last;
      })
      | inr part ↦ rw part kept
    ]

-- A write that is copied whole returns the number of bytes taken, at most 8, and a read afterwards
-- prints the name and exactly those bytes, if there is no NUL among them.
pub write_read :
    (buffer name : List ℕ) (count : ℕ) (fb : FbData)
    → count ≤ length buffer
    → IsTerminated fb.value
    → c_string fb.name ≡ some name
    → All (λ c. c ≢ 0) (take (min foobar_len count) buffer)
    → ((proc_write_foobar 0 buffer count fb).0 ≡ pos (min foobar_len count))
      × (proc_read_foobar (proc_write_foobar 0 buffer count fb).1
          ≡ done (name ++ codes " = " ++ take (min foobar_len count) buffer ++ codes "\n"))
unfolding proc_write_foobar proc_read_foobar
write_read buffer name count fb enough t named text =
    let len : (if ltb foobar_len count then foobar_len else count) ≡ min foobar_len count =
      ground arith in
    let n = min foobar_len count in
    let (y, ys, rest) = drop-eq_cons n fb.value (omega (arith, t)) in
    let writes = set-append (take n buffer) ys n y 0 (omega (arith, length-take n buffer)) in
    (
      ap pos len,
      rw
          (
            len,
            sub-zero n,
            sub_self n,
            append-nil (take n buffer),
            rest,
            writes,
            named,
            c_string-append_nul (take n buffer) ys text,
          )
          refl,
    )
