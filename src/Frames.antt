-- ===== src/Frames.antt =====
-- The frames that trace/include/DirectWriteBuf.h puts on a file or a socket, and how they are read
-- back: a header of three little-endian words, then a compressed block.
pub mod Parse
use android_prybar.Base.{
  ℕ, zero, suc, ◌+◌, ◌*◌, ◌/◌, ◌%◌, ◌^◌, Option, none, some, List, [], ◌∷◌, ◌++◌, ltb, ◌==◌,
  if◌then◌else◌, ◌>>=◌, u32, length, take, drop,
}
use android_prybar.Lz4.Format.{decode}

-- The bytes of a `uint32_t` in memory.
unfoldable pub le32 : ℕ → List ℕ
le32 v = (v % 2 ^ 8) ∷ (v / 2 ^ 8 % 2 ^ 8) ∷ (v / 2 ^ 16 % 2 ^ 8) ∷ (v / 2 ^ 24 % 2 ^ 8) ∷ []

-- uint32_t header[3] = {(uint32_t)comp_size, (uint32_t)size, tid}
unfoldable pub header : ℕ → ℕ → ℕ → List ℕ
header comp_size size tid = le32 (u32 comp_size) ++ (le32 (u32 size) ++ le32 tid)

unfoldable pub read_le32 : List ℕ → Option (ℕ × List ℕ)
read_le32 (a ∷ b ∷ c ∷ d ∷ rest) = some (a + 2 ^ 8 * b + 2 ^ 16 * c + 2 ^ 24 * d, rest)
read_le32 _ = none

-- The reader's side, up to the end of the input or a frame of compressed size 0.
unfoldable pub read_frames : ℕ → List ℕ → Option (List ℕ)
read_frames fuel [] = some []
read_frames zero (b ∷ bytes) = none
read_frames (suc fuel) (b ∷ bytes) = do
  (comp_size, rest1) ← read_le32 (b ∷ bytes)
  (size, rest2) ← read_le32 rest1
  (tid, rest3) ← read_le32 rest2
  let body = (do
    plain ← decode (take comp_size rest3)
    others ← read_frames fuel (drop comp_size rest3)
    some (plain ++ others))
  if comp_size == 0 then some [] else if ltb (length rest3) comp_size then none else body

unfoldable pub read_stream : List ℕ → Option (List ℕ)
read_stream bytes = read_frames (length bytes) bytes
