-- ===== src/Calls/Chk.antt =====
-- The names of the checked functions in trace/src/FuncCallTrace.cpp.
use android_prybar.Base.{
  ℕ, suc, ◌+◌, ◌-◌, ◌≤◌, ◌<◌, ◌≡◌, false, List, [], ◌∷◌, ◌++◌, arith, leb, length, take,
  length-append, take_all, bytes_of, take-append_short,
}
use android_prybar.Calls.Pending.{char_at, strip_chk_wrapper}

char_at-append : (xs ys : List ℕ) (i : ℕ) → char_at (xs ++ ys) (length xs + i) ≡ char_at ys i
char_at-append [] ys i = let e : 0 + i ≡ i = omega arith in rw e
char_at-append (x ∷ xs) ys i =
    let e : suc (length xs) + i ≡ suc (length xs + i) = omega arith in rw e (char_at-append xs ys i)

-- The wrapper's suffix stands behind the name.
abbrev suffix : List ℕ
suffix = bytes_of "_chk"

suffix_at :
    (name : List ℕ) (i : ℕ)
    → 0 < i
    → i ≤ 4
    → char_at (bytes_of "__" ++ (name ++ suffix)) (length name + 6 - i) ≡ char_at suffix (4 - i)
suffix_at name i h k =
    let e : length name + 6 - i ≡ length (b'_' ∷ b'_' ∷ name) + (4 - i) = omega arith in
    rw e (char_at-append (b'_' ∷ b'_' ∷ name) suffix (4 - i))

-- The name inside a wrapper's name `__name_chk` is what is compared, unless it is empty or longer than the
-- buffer.
pub strip_chk_wrapper-wrapped :
    (name : List ℕ) (bufsize : ℕ)
    → 0 < length name
    → length name < bufsize
    → strip_chk_wrapper (bytes_of "__" ++ (name ++ suffix)) bufsize ≡ name
unfolding strip_chk_wrapper
strip_chk_wrapper-wrapped name bufsize some_byte short =
    let len : length (bytes_of "__" ++ (name ++ suffix)) ≡ length name + 6 =
      omega (arith, length-append name suffix) in
    let few : leb (length name + 6) 6 ≡ false = ground arith in
    let fits : leb bufsize (length name) ≡ false = ground arith in
    let base : length name + 6 - 6 ≡ length name = omega arith in
    let text : take (length name) (name ++ suffix) ≡ name =
      rw (take-append_short (length name) name suffix (omega arith))
        (take_all (length name) name (omega arith)) in
    rw
      (
        len,
        few,
        base,
        fits,
        suffix_at name 4 (omega arith) (omega arith),
        suffix_at name 3 (omega arith) (omega arith),
        suffix_at name 2 (omega arith) (omega arith),
        suffix_at name 1 (omega arith) (omega arith),
      )
      text
