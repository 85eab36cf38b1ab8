-- ===== src/Lz4/Overrun.antt =====
-- The test of the room for the last run of literals in trace/include/lz4_block.h counts one byte
-- too few for the run's length.
use android_prybar.Base.{
  ℕ, ◌+◌, ◌-◌, ◌/◌, ◌%◌, ◌^◌, ◌≤◌, ◌<◌, ◌≡◌, some, List, ◌++◌, arith, le→ltb_false, length,
}
use android_prybar.Lz4.{HashTable, written, last_literals}
use android_prybar.Lz4.Sequences.{last_bytes}
use android_prybar.Lz4.Encode.{between, last_literals_lem}
use android_prybar.Lz4.Sizes.{length-extra, length-last}

-- A last run whose length takes `run / 255 + 1` extra bytes passes the test with a buffer that is one byte
-- too small: for every such run, the bytes written are one more than `max_out`.
pub last_literals_overrun :
    (src out : List ℕ) (anchor : ℕ) (htab : HashTable)
    → length src < 2 ^ 31
    → anchor ≤ length src
    → 15 ≤ (length src - anchor) % 255
    → let max_out = length out + (length src - anchor) + 1 + (length src - anchor) / 255 in
      (bytes : List ℕ) × (last_literals src (length src) max_out out anchor htab
        ≡ some (written bytes htab))
      × (length bytes ≡ max_out + 1)
last_literals_overrun src out anchor htab small within long =
    let run = length src - anchor in
    let max_out = length out + run + 1 + run / 255 in
    let bytes = out ++ last_bytes (between src anchor (length src)) in
    (
      bytes,
      rw (
        last_literals_lem src max_out out small anchor htab within,
        le→ltb_false max_out max_out (omega arith),
      ),
      ground (arith, length-last src out anchor, length-extra run),
    )
