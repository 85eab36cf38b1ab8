-- ===== src/DirectWriteBuf/Runs.antt =====
-- The theorems about the write buffer at concrete inputs.
use Prim.Native.Nat.{min}
use android_prybar.Base.{
  ℕ, refl, List, [], ◌∷◌, ◌++◌, arith, ◌>>=◌, IsByte, length, take, replicate, All,
}
use mathlib.Core.List.{flatten}
use android_prybar.Lz4.{HashTable}
use android_prybar.Kernel.{Kernel, IsReliable}
use android_prybar.DirectWriteBuf.File.{init_lz4, flush_from_signal, destroy, write_each}
use android_prybar.DirectWriteBuf.File.Content.{
  Completes, file_holds_text, flush_from_signal_salvages,
}

-- A descriptor that takes at most five bytes in a call.
abbrev pub slow : Kernel
slow = record {
  State = List ℕ;
  contents = λ s. s;
  transfer = λ s bytes. (min 5 (length bytes), s ++ take (min 5 (length bytes)) bytes);
  transfer_count = λ s bytes. omega arith;
  transfer_contents = λ s bytes. refl;
}

pub slow_reliable : IsReliable slow
slow_reliable s b bytes = omega arith

abbrev pub stale_table : HashTable
stale_table i = 7

-- Three calls of `write` on a buffer of 16 bytes: one that fits, one that does not, one longer than
-- the buffer.
abbrev three_pieces : List (List ℕ)
three_pieces = replicate 10 65 ∷ replicate 12 66 ∷ replicate 40 67 ∷ []

three_pieces_bytes : All (All IsByte) three_pieces
three_pieces_bytes = omega arith

file_holds_text_example : Completes slow (flatten three_pieces) (
    write_each slow 16 (init_lz4 slow 16 stale_table 3 1234) three_pieces [] >>= λ r.
    destroy slow 16 r.0 r.1)
file_holds_text_example =
    file_holds_text slow slow_reliable 16 (omega arith) (omega arith) stale_table 3 1234 []
      three_pieces (omega arith) refl three_pieces_bytes

flush_from_signal_salvages_example : Completes slow (flatten three_pieces) (
    write_each slow 16 (init_lz4 slow 16 stale_table 3 1234) three_pieces [] >>= λ r.
    flush_from_signal slow 16 r.0 r.1)
flush_from_signal_salvages_example =
    flush_from_signal_salvages slow slow_reliable 16 (omega arith) (omega arith) stale_table 3 1234
      [] three_pieces (omega arith) refl three_pieces_bytes
