-- ===== src/Lz4/Encode.antt =====
-- The steps of trace/include/lz4_block.h that write output: what `encode_sequence` and
-- `last_literals` return, as equations.
use android_prybar.Base.{
  ℕ, zero, suc, ◌+◌, ◌-◌, ◌/◌, ◌%◌, ◌^◌, ◌≤◌, ◌<◌, ◌≡◌, refl, sym, ap, ◌∙◌, Bool, true, false, ◌&&◌,
  ◌||◌, some, List, [], ◌∷◌, ◌++◌, arith, ltb, leb, if◌then◌else◌, u16, u32, IsByte, le→leb, length,
  get_elem?, take, drop, All, length-append, length-take, length-drop, get_elem?-some, get_or-take,
  take_suc, take_add,
}
use android_prybar.Lz4.{
  HashTable, slice, extend_match, extra, full, sequence, encode_sequence, zero_returned, written,
  last_literals,
}
use android_prybar.Lz4.Format.{copy}
use android_prybar.Lz4.Sequences.{sequence_bytes, last_bytes}
use android_prybar.Lz4.Reads.{Same}
use android_prybar.Lz4.Matches.{Same-add, extend_match-Extends}

-- The bytes of the input from `a` up to `b`.
abbrev pub between : List ℕ → ℕ → ℕ → List ℕ
between src a b = take (b - a) (drop a src)

pub length-between : (src : List ℕ) (a b : ℕ) → b ≤ length src → length (between src a b) ≡ b - a
length-between src a b h = omega (arith, length-take (b - a) (drop a src), length-drop a src)

pub take-between : (src : List ℕ) (a b : ℕ) → a ≤ b → take a src ++ between src a b ≡ take b src
take-between src a b h =
    let e : a + (b - a) ≡ b = omega arith in take_add src a (b - a) ∙ ap (λ n. take n src) e

slice-between :
    (src : List ℕ) (a b : ℕ) → a ≤ b → b ≤ length src → slice src a (b - a) ≡ some (between src a b)
unfolding slice
slice-between src a b p q = rw (le→leb (a + (b - a)) (length src) (omega arith))

-- A copy of input that repeats what stands `offset` bytes before it goes on with the input.
pub copy-take :
    (src : List ℕ) (n p offset : ℕ)
    → 0 < offset
    → offset ≤ p
    → p + n ≤ length src
    → Same src p (p - offset) n
    → copy n offset (take p src) ≡ take (p + n) src
unfolding copy
copy-take src zero p offset pos back room same = let e : p + 0 ≡ p = omega arith in rw e
copy-take src (suc n) p offset pos back room same =
    let (a, ea) = get_elem?-some src p (omega arith) in
    let here : length (take p src) ≡ p = omega (arith, length-take p src) in
    let from : get_elem? src (p - offset) ≡ some a =
      let p0 : p + 0 ≡ p = omega arith in
      let q0 : p - offset + 0 ≡ p - offset = omega arith in
      rw (← ea) (sym (rw (p0, q0) at (same 0 (omega arith)))) in
    let next : p + suc n ≡ p + 1 + n = omega arith in
    rw (here, get_or-take src (p - offset) p 0 a (omega arith) from, take_suc src p a ea, next)
      (copy-take src n (p + 1) offset pos (omega arith) (omega arith) shifted)
  where
    shifted : Same src (p + 1) (p + 1 - offset) n
    shifted i h =
        let a : p + 1 + i ≡ p + suc i = omega arith in
        let b : p + 1 - offset + i ≡ p - offset + suc i = omega arith in
        rw (a, b) (same (suc i) (omega arith))

-- The tests of the room that is left, on the lengths of literals and match.
abbrev literals_full : ℕ → List ℕ → ℕ → Bool
literals_full max_out out lit_len = ltb max_out (length out + 1 + lit_len + lit_len / 255 + 16)

abbrev match_full : ℕ → List ℕ → ℕ → ℕ → Bool
match_full max_out out lit_len ml =
    leb 15 ml
    && ltb max_out (length out + 1 + (length (extra lit_len) + (lit_len + 2)) + (ml - 15) / 255 + 2)

abbrev pub is_full : ℕ → List ℕ → ℕ → ℕ → Bool
is_full max_out out lit_len ml =
    literals_full max_out out lit_len || match_full max_out out lit_len ml

if_or {ℓ} :
    {A : Type ℓ} (a b : Bool) (x y : A)
    → (if a then x else if b then x else y) ≡ (if a || b then x else y)
if_or true b x y = refl
if_or false b x y = refl

module _ (src : List ℕ) (max_out : ℕ) (out : List ℕ) (small : length src < 2 ^ 31) where
  length-head :
      (anchor ip offset : ℕ)
      → ip ≤ length src
      → length
          (extra (ip - anchor) ++ (between src anchor ip ++ ((offset % 256) ∷ (offset / 256) ∷ [])))
        ≡ length (extra (ip - anchor)) + (ip - anchor + 2)
  length-head anchor ip offset h = omega (
    arith,
    length-append (extra (ip - anchor))
        (between src anchor ip ++ ((offset % 256) ∷ (offset / 256) ∷ [])),
    length-append (between src anchor ip) ((offset % 256) ∷ (offset / 256) ∷ []),
    length-between src anchor ip h,
  )

  encode_sequence_at :
      (anchor ip ref ml : ℕ)
      → anchor ≤ ip
      → ip ≤ length src
      → ip - ref ≤ 0xffff
      → ip + 4 + ml ≤ length src
      → extend_match (suc (length src - 5)) src (length src - 5) (ip + 4) (ref + 4)
        ≡ some (ip + 4 + ml)
      → encode_sequence src (length src - 5) max_out out anchor ip ref ≡ (
          if is_full max_out out (ip - anchor) ml
          then some full
          else some (
              sequence (ip + 4 + ml) (out ++ sequence_bytes (between src anchor ip) (ip - ref) ml)))
  unfolding encode_sequence
  encode_sequence_at anchor ip ref ml h inside far room e =
      let lit : u32 (ip - anchor) ≡ ip - anchor = omega arith in
      let off : u16 (ip - ref) ≡ ip - ref = omega arith in
      let mlen : u32 (ip + 4 + ml - (ip + 4)) ≡ ml = omega arith in
      rw
        (
          lit,
          slice-between src anchor ip h inside,
          e,
          off,
          mlen,
          length-head anchor ip (ip - ref) inside,
          length-between src anchor ip inside,
        )
        (if_or (literals_full max_out out (ip - anchor)) (match_full max_out out (ip - anchor) ml)
          (some full) _)

  -- The last run of literals: refused where the test finds no room, and written otherwise.
  pub last_literals_lem :
      (anchor : ℕ) (htab : HashTable)
      → anchor ≤ length src
      → last_literals src (length src) max_out out anchor htab ≡ (
          if ltb max_out (length out + (length src - anchor) + 1 + (length src - anchor) / 255)
          then some (zero_returned htab)
          else some (written (out ++ last_bytes (between src anchor (length src))) htab))
  unfolding last_literals
  last_literals_lem anchor htab h =
      let run : u32 (length src - anchor) ≡ length src - anchor = omega arith in
      rw (
        run,
        slice-between src anchor (length src) h (omega arith),
        length-between src anchor (length src) (omega arith),
      )

  -- One sequence: `full` where a test finds no room; otherwise the literals, the offset and the
  -- length of a match that repeats what stands `ip - ref` bytes before it.
  pub encode_sequence_lem :
      (anchor ip ref : ℕ)
      → All IsByte src
      → anchor ≤ ip
      → ip + 13 ≤ length src
      → ref < ip
      → ip - ref ≤ 0xffff
      → Same src ip ref 4
      → (ml : ℕ) × (encode_sequence src (length src - 5) max_out out anchor ip ref ≡ (
          if is_full max_out out (ip - anchor) ml
          then some full
          else some (
              sequence
                (ip + 4 + ml)
                (out ++ sequence_bytes (between src anchor ip) (ip - ref) ml))))
        × (ip + 4 + ml ≤ length src - 5)
        × Same src ip ref (4 + ml)
  encode_sequence_lem anchor ip ref bytes h near before far same =
      let (ml, e, room, after) =
        extend_match-Extends src (length src - 5) (omega arith) bytes (suc (length src - 5))
          (ip + 4) (ref + 4) (omega arith) (omega arith) (omega arith) in
      (
        ml,
        encode_sequence_at anchor ip ref ml h (omega arith) far (omega arith) e,
        room,
        Same-add src ip ref 4 ml same after,
      )
