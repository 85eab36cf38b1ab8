-- ===== src/Lz4/Runs.antt =====
-- The compressor on concrete inputs, and the theorems about it at concrete inputs.
use android_prybar.Base.{
  ℕ, ◌-◌, ◌≡◌, refl, Option, some, List, [], ◌∷◌, ◌++◌, arith, IsByte, length, All,
}
use android_prybar.Lz4.{
  HashTable, update, read32, read64, slice, hash4, find_match, extend_bytes, extend_match,
  length_bytes, nibble, extra, encode_sequence, Outcome, written, last_literals, after_encoded,
  after_found, compress_loop, compress_block,
}
use android_prybar.Lz4.Format.{decode}
use android_prybar.Lz4.Sequences.{last_bytes, Block, decode-Block}
use android_prybar.Lz4.Matches.{Extends, extend_match-Extends, Finds, find_match-Finds}
use android_prybar.Lz4.Correct.{Compresses, compress_block-Compresses}
use android_prybar.Lz4.Overrun.{last_literals_overrun}
use android_prybar.Base.Bits.{ctz}

-- A table with what an earlier block has left, and a text that repeats itself.
abbrev stale : HashTable
stale i = 7

abbrev repeating : List ℕ
repeating = 1 ∷ 2 ∷ 1 ∷ 2 ∷ 1 ∷ 2 ∷ 1 ∷ 2 ∷ 1 ∷ 2 ∷ 1 ∷ 2 ∷ 1 ∷ 2 ∷ 1 ∷ 2 ∷ 1 ∷ 2 ∷ 1 ∷ 2 ∷ 9 ∷ []

repeating_bytes : All IsByte repeating
repeating_bytes = omega arith

abbrev output : Option Outcome → List ℕ
output (some (written out htab)) = out
output _ = []

compress_repeating :
    output (compress_block stale repeating 40) ≡ 42 ∷ 1 ∷ 2 ∷ 2 ∷ 0 ∷ 80 ∷ 1 ∷ 2 ∷ 1 ∷ 2 ∷ 9 ∷ []
unfolding compress_block compress_loop find_match update read32 read64 slice hash4 extend_match
    extend_bytes length_bytes nibble extra encode_sequence last_literals after_encoded after_found
    ctz
compress_repeating = refl

compress_block-Compresses_example : Compresses repeating 40 (compress_block stale repeating 40)
compress_block-Compresses_example =
    compress_block-Compresses repeating repeating_bytes (omega arith) 40 stale (omega arith)

find_match-Finds_example :
    Finds repeating 1 (find_match 30 repeating (length repeating - 12) 1 1 64 stale)
find_match-Finds_example =
    find_match-Finds repeating repeating_bytes (omega arith) (omega arith) 30 1 1 64 stale
      (omega arith) (omega arith) (omega arith) (omega arith) (omega arith)

extend_match-Extends_example : Extends repeating 16 6 4 (extend_match 20 repeating 16 6 4)
extend_match-Extends_example =
    extend_match-Extends repeating 16 (omega arith) repeating_bytes 20 6 4 (omega arith)
      (omega arith) (omega arith)

decode-Block_example : decode ([] ++ last_bytes repeating) ≡ some ([] ++ repeating)
decode-Block_example = decode-Block Block.start repeating

last_literals_overrun_example :
    (bytes : List ℕ) × (last_literals repeating 21 22 [] 0 stale ≡ some (written bytes stale))
    × (length bytes ≡ 23)
last_literals_overrun_example =
    last_literals_overrun repeating [] 0 stale (omega arith) (omega arith) (omega arith)
