-- ===== src/DirectWriteBuf/File.antt =====
-- The file mode of trace/include/DirectWriteBuf.h, in which `bg_running` is false: the operations
-- run on the caller's thread, on `bufs[0]` and the descriptor. `none` is a loop out of fuel or a
-- fault of the compressor. `cap` is DW_BUF_SIZE, which the build chooses.
pub mod Holds
pub mod Content
use android_prybar.Base.{
  ℕ, zero, suc, ◌+◌, Bool, true, false, ◌||◌, Option, none, some, List, [], ◌∷◌, ltb, leb, ◌==◌,
  if◌then◌else◌, ◌>>=◌, length, take, drop, replicate, write_at, inline_memcpy,
}
use android_prybar.Lz4.{HashTable}
use android_prybar.Kernel.{Kernel}
use android_prybar.DirectWriteBuf.{DirectWriteBuf, emit}

-- fd < 0
pub is_closed : Option ℕ → Bool
is_closed none = true
is_closed (some fd) = false

module _ (k : Kernel) (cap : ℕ) where
  -- init_lz4, on memory that mmap hands out zeroed.
  pub init_lz4 : HashTable → ℕ → ℕ → DirectWriteBuf
  init_lz4 htab file_fd tid = record {
    buf0 = replicate cap 0;
    buf1 = [];
    pos = 0;
    fd = some file_fd;
    is_tcp = false;
    tid = tid;
    active = 0;
    bg_running = false;
    bg_pending = false;
    bg_shutdown = false;
    bg_idle = true;
    bg_buf_idx = 0;
    bg_size = 0;
    htab = htab;
  }

  -- flush, with `bg_running` false.
  pub flush : DirectWriteBuf → k.State → Option (DirectWriteBuf × k.State)
  flush b s =
      let body = (do
        (htab', s') ← emit k b.htab b.buf0 b.pos b.tid s
        some (record b { pos = 0; htab = htab' }, s')) in
      if b.pos == 0 then some (b, s) else body

  -- flushFromSignal
  pub flush_from_signal : DirectWriteBuf → k.State → Option (DirectWriteBuf × k.State)
  flush_from_signal b s =
      let body = (do
        (htab', s') ← emit k b.htab b.buf0 b.pos b.tid s
        some (record b { pos = 0; htab = htab' }, s')) in
      if b.bg_running || b.pos == 0 || is_closed b.fd then some (b, s) else body

  -- closeFromSignal: the descriptor that is closed, if any.
  pub close_from_signal : DirectWriteBuf → DirectWriteBuf × Option ℕ
  close_from_signal b = if b.bg_running then (b, none) else (record b { fd = none }, b.fd)

  -- The loop of `write` for data longer than the buffer; the list is what is left of the data.
  pub write_chunks : ℕ → DirectWriteBuf → List ℕ → k.State → Option (DirectWriteBuf × k.State)
  write_chunks fuel b [] s = some (b, s)
  write_chunks zero b (x ∷ xs) s = none
  write_chunks (suc fuel) b (x ∷ xs) s =
      let left = length (x ∷ xs) in
      let chunk = if ltb cap left then cap else left in
      do
        (b', s') ←
            flush (record b { buf0 = write_at b.buf0 0 (take chunk (x ∷ xs)); pos = chunk }) s
        write_chunks fuel b' (drop chunk (x ∷ xs)) s'

  pub write : DirectWriteBuf → List ℕ → k.State → Option (DirectWriteBuf × k.State)
  write b bytes s =
      let len = length bytes in
      let flushed = (do
        (b', s') ← flush b s
        if leb len cap
            then some (record b' { buf0 = inline_memcpy b'.buf0 0 bytes; pos = len }, s')
            else write_chunks len b' bytes s') in
      if leb (b.pos + len) cap
      then some (record b { buf0 = inline_memcpy b.buf0 b.pos bytes; pos = b.pos + len }, s)
      else flushed

  -- destroy, with `bg_running` false: the buffers are given back.
  pub destroy : DirectWriteBuf → k.State → Option (DirectWriteBuf × k.State)
  destroy b s = do
    (b', s') ← if ltb 0 b.pos then flush b s else some (b, s)
    some (record b' { buf0 = [] }, s')

  -- The calls of `write` between `init_lz4` and `destroy`.
  pub write_each : DirectWriteBuf → List (List ℕ) → k.State → Option (DirectWriteBuf × k.State)
  write_each b [] s = some (b, s)
  write_each b (bytes ∷ rest) s = do (b', s') ← write b bytes s; write_each b' rest s'
