-- ===== src/DirectWriteBuf.antt =====
-- trace/include/DirectWriteBuf.h: the write buffer of a trace. This file has its state and what is
-- common to its two modes; `File` has the mode for local files, in which `flush` compresses and
-- writes by itself, and `Tcp` the mode with two buffers and a background thread.
pub mod Emit
pub mod File
pub mod Tcp
mod Runs
use android_prybar.Base.{ℕ, Bool, Option, some, List, ltb, if◌then◌else◌, ◌>>=◌, length, take}
use android_prybar.Lz4.{compress_bound, HashTable, zero_returned, written, compress_block}
use android_prybar.Frames.{header}
use android_prybar.Kernel.{Kernel, write_all}

-- struct DirectWriteBuf, with the compressor's table of the thread that flushes. `fd` is `none` for
-- -1. A mutex and a condition variable have no state of their own here.
pub record DirectWriteBuf : Type 0 where
  pub buf0 : List ℕ
  pub buf1 : List ℕ
  pub pos : ℕ
  pub fd : Option ℕ
  pub is_tcp : Bool
  pub tid : ℕ
  pub active : ℕ
  pub bg_running : Bool
  pub bg_pending : Bool
  pub bg_shutdown : Bool
  pub bg_idle : Bool
  pub bg_buf_idx : ℕ
  pub bg_size : ℕ
  pub htab : HashTable

-- The first `size` bytes of a buffer are compressed into a buffer of `lz4_compress_bound` bytes;
-- the header and the block are written unless the compressor returned 0.
pub emit : (k : Kernel) → HashTable → List ℕ → ℕ → ℕ → k.State → Option (HashTable × k.State)
emit k htab buf size tid s = do
  outcome ← compress_block htab (take size buf) (compress_bound size)
  elim outcome [
    | zero_returned htab' ↦ some (htab', s)
    | written out htab' ↦
        let comp_size = length out in
        let s' = write_all k (write_all k s (header comp_size size tid)) out in
        some (htab', if ltb 0 comp_size then s' else s)
  ]
