-- ===== src/DirectWriteBuf/Tcp/Store.antt =====
-- Storing into the writer's buffer in the TCP mode of trace/include/DirectWriteBuf.h.
use android_prybar.DirectWriteBuf.Tcp.Invariant.{in_flight, Phase, Buffers}
use android_prybar.DirectWriteBuf.{DirectWriteBuf}
use android_prybar.DirectWriteBuf.Tcp.{
  by_index, buf_of, set_buf, Worker, waiting, working, sent, exited, store,
}
use android_prybar.Base.{
  ℕ, zero, suc, ◌+◌, ◌-◌, ◌≤◌, ◌≡◌, refl, ap, ◌∙◌, inl, inr, Bool, true, List, ◌++◌, arith, IsByte,
  length, take, All, inline_memcpy, length-write_at, take-write_at, inline_memcpy-write_at,
  All-write_at,
}
use android_prybar.Lz4.{HashTable}

pub buf_of_set_same : (b : DirectWriteBuf) (i : ℕ) (mem : List ℕ) → buf_of (set_buf b i mem) i ≡ mem
unfolding buf_of set_buf by_index
buf_of_set_same b zero mem = refl
buf_of_set_same b (suc i) mem = refl

buf_of_set_other :
    (b : DirectWriteBuf) (i : ℕ) (mem : List ℕ)
    → i ≤ 1
    → buf_of (set_buf b i mem) (1 - i) ≡ buf_of b (1 - i)
unfolding buf_of set_buf by_index
buf_of_set_other b zero mem h = refl
buf_of_set_other b (suc zero) mem h = refl
buf_of_set_other b (suc (suc i)) mem h = absurd (omega arith)

pub length-buf_of :
    {cap : ℕ} (b : DirectWriteBuf) (i : ℕ) → Buffers cap b → length (buf_of b i) ≡ cap
unfolding buf_of by_index
length-buf_of b zero h = h.size0
length-buf_of b (suc i) h = h.size1

pub All-buf_of : {cap : ℕ} (b : DirectWriteBuf) (i : ℕ) → Buffers cap b → All IsByte (buf_of b i)
unfolding buf_of by_index
All-buf_of b zero h = h.bytes0
All-buf_of b (suc i) h = h.bytes1

pub set_buf-Buffers :
    {cap : ℕ} (b : DirectWriteBuf) (i : ℕ) (mem : List ℕ)
    → length mem ≡ cap
    → All IsByte mem
    → Buffers cap b
    → Buffers cap (set_buf b i mem)
unfolding set_buf by_index
set_buf-Buffers b zero mem size bytes h = record {
  size0 = size;
  size1 = h.size1;
  bytes0 = bytes;
  bytes1 = h.bytes1;
  which = h.which;
  pos_fits = h.pos_fits;
  tid_small = h.tid_small;
  down_idle = h.down_idle;
}
set_buf-Buffers b (suc i) mem size bytes h = record {
  size0 = h.size0;
  size1 = size;
  bytes0 = h.bytes0;
  bytes1 = bytes;
  which = h.which;
  pos_fits = h.pos_fits;
  tid_small = h.tid_small;
  down_idle = h.down_idle;
}

pub Phase-store :
    (size_of i : ℕ) (bytes : List ℕ) (b : DirectWriteBuf) (w : Worker)
    → Phase size_of w b
    → Phase size_of w (store b i bytes)
unfolding store set_buf
Phase-store size_of i bytes b waiting p = p
Phase-store size_of i bytes b (working idx size) p = p
Phase-store size_of i bytes b sent p = p
Phase-store size_of i bytes b exited p = p

-- The writer stores into a buffer that the thread does not have.
pub in_flight-store :
    (size_of i : ℕ) (bytes : List ℕ) (b : DirectWriteBuf) (w : Worker)
    → b.active ≤ 1
    → Phase size_of w b
    → in_flight w (store b i bytes) ≡ in_flight w b
unfolding store set_buf buf_of
in_flight-store size_of i bytes b waiting a (inl p) = rw (p.1)
in_flight-store size_of i bytes b waiting a (inr p) =
    rw (p.1, p.2) (ap (take b.bg_size) (buf_of_set_other b b.active _ a))
in_flight-store size_of i bytes b (working idx size) a p =
    rw (p.2) (ap (take size) (buf_of_set_other b b.active _ a))
in_flight-store size_of i bytes b sent a p = refl
in_flight-store size_of i bytes b exited a p = refl

pub store-Buffers :
    (size_of i : ℕ) (bytes : List ℕ) (b : DirectWriteBuf)
    → i + length bytes ≤ size_of
    → All IsByte bytes
    → Buffers size_of b
    → Buffers size_of (store b i bytes)
unfolding store set_buf by_index
store-Buffers size_of i bytes b fits p h =
    let mem = inline_memcpy (buf_of b b.active) i bytes in
    let stored = inline_memcpy-write_at bytes (buf_of b b.active) i in
    let g =
      set_buf-Buffers b b.active mem
        (rw stored (length-write_at (buf_of b b.active) i bytes ∙ length-buf_of b b.active h))
        (rw stored (All-write_at IsByte (buf_of b b.active) i bytes (All-buf_of b b.active h) p))
        h in
    record {
      size0 = g.size0;
      size1 = g.size1;
      bytes0 = g.bytes0;
      bytes1 = g.bytes1;
      which = g.which;
      pos_fits = fits;
      tid_small = g.tid_small;
      down_idle = g.down_idle;
    }

-- The beginning of the writer's buffer after it has stored more.
pub store_text :
    (size_of i : ℕ) (bytes : List ℕ) (b : DirectWriteBuf)
    → i + length bytes ≤ size_of
    → Buffers size_of b
    → take (i + length bytes) (buf_of (store b i bytes) b.active)
      ≡ take i (buf_of b b.active) ++ bytes
unfolding store buf_of
store_text size_of i bytes b fits h =
    ap (take (i + length bytes))
      (buf_of_set_same b b.active (inline_memcpy (buf_of b b.active) i bytes))
    ∙ ap (take (i + length bytes)) (inline_memcpy-write_at bytes (buf_of b b.active) i)
    ∙ take-write_at (buf_of b b.active) i bytes (omega (arith, length-buf_of b b.active h))

-- The flags and the compressor's table may change.
pub flags-Buffers :
    (size_of : ℕ) (b : DirectWriteBuf) (pending down idle running : Bool) (htab : HashTable)
    → (down ≡ true → idle ≡ true)
    → Buffers size_of b
    → Buffers size_of (record b {
      bg_pending = pending;
      bg_shutdown = down;
      bg_idle = idle;
      bg_running = running;
      htab = htab;
    })
flags-Buffers size_of b pending down idle running htab d h = record {
  size0 = h.size0;
  size1 = h.size1;
  bytes0 = h.bytes0;
  bytes1 = h.bytes1;
  which = h.which;
  pos_fits = h.pos_fits;
  tid_small = h.tid_small;
  down_idle = d;
}
