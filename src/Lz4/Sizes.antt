-- ===== src/Lz4/Sizes.antt =====
-- How many bytes the steps of trace/include/lz4_block.h write, against the tests of the room left.
use android_prybar.Base.{
  ℕ, zero, suc, ◌+◌, ◌-◌, ◌/◌, ◌%◌, ◌≤◌, ◌<◌, ◌≡◌, ◌∙◌, true, List, [], ◌∷◌, ◌++◌, arith, leb,
  if◌then◌else◌, length, length-append,
}
use android_prybar.Lz4.{compress_bound, length_bytes, extra}
use android_prybar.Lz4.Sequences.{sequence_bytes, last_bytes}
use android_prybar.Lz4.Encode.{between, length-between, is_full}

length-length_bytes : (fuel n : ℕ) → n ≤ fuel → length (length_bytes fuel n) ≡ n / 255 + 1
unfolding length_bytes
length-length_bytes zero n h = omega arith
length-length_bytes (suc fuel) n h = ground (arith, length-length_bytes fuel (n - 255))

pub length-extra : (n : ℕ) → length (extra n) ≡ (if leb 15 n then (n - 15) / 255 + 1 else 0)
unfolding extra
length-extra n = ground (arith, length-length_bytes (n - 15) (n - 15))

pub length-sequence_bytes :
    (literals : List ℕ) (offset ml : ℕ)
    → length (sequence_bytes literals offset ml)
      ≡ 1 + length (extra (length literals)) + length literals + 2 + length (extra ml)
length-sequence_bytes literals offset ml = omega (
  arith,
  length-append (extra (length literals) ++ (literals ++ ((offset % 256) ∷ (offset / 256) ∷ [])))
      (extra ml),
  length-append (extra (length literals)) (literals ++ ((offset % 256) ∷ (offset / 256) ∷ [])),
  length-append literals ((offset % 256) ∷ (offset / 256) ∷ []),
)

pub length-last_bytes :
    (literals : List ℕ)
    → length (last_bytes literals) ≡ 1 + length (extra (length literals)) + length literals
length-last_bytes literals = omega (arith, length-append (extra (length literals)) literals)

-- A sequence writes no more than it takes in, up to one byte in 255.
pub sequence_growth :
    (out_len anchor lit_len ml : ℕ)
    → out_len ≤ anchor + anchor / 255
    → out_len + (1 + length (extra lit_len) + lit_len + 2 + length (extra ml))
      ≤ anchor + lit_len + 4 + ml + (anchor + lit_len + 4 + ml) / 255
sequence_growth out_len anchor lit_len ml h = ground (arith, length-extra lit_len, length-extra ml)

-- With the room that `lz4_compress_bound` gives, no test of a sequence finds the buffer full.
pub not_full :
    (max_out : ℕ) (out : List ℕ) (anchor lit_len ml n : ℕ)
    → length out ≤ anchor + anchor / 255
    → anchor + lit_len + 4 + ml + 5 ≤ n
    → is_full max_out out lit_len ml ≡ true
    → max_out < compress_bound n
not_full max_out out anchor lit_len ml n h room e =
    ground (arith, length-extra lit_len, length-extra ml)

module _ (src : List ℕ) where
  pub length-last :
      (out : List ℕ) (anchor : ℕ)
      → length (out ++ last_bytes (between src anchor (length src)))
        ≡ length out + (1 + length (extra (length src - anchor)) + (length src - anchor))
  length-last out anchor =
      let run = length-between src anchor (length src) (omega arith) in
      length-append out (last_bytes (between src anchor (length src)))
      ∙ rw (length-last_bytes (between src anchor (length src)), run)

  pub length-sequence :
      (out : List ℕ) (anchor ip offset ml : ℕ)
      → ip ≤ length src
      → length (out ++ sequence_bytes (between src anchor ip) offset ml)
        ≡ length out + (1 + length (extra (ip - anchor)) + (ip - anchor) + 2 + length (extra ml))
  length-sequence out anchor ip offset ml h =
      length-append out (sequence_bytes (between src anchor ip) offset ml)
      ∙ rw (length-sequence_bytes (between src anchor ip) offset ml, length-between src anchor ip h)
