-- ===== src/DirectWriteBuf/Tcp.antt =====
-- The TCP mode of trace/include/DirectWriteBuf.h: two buffers, and a background thread that
-- compresses and sends the one that the writer has handed over. Writer and thread are a system of
-- steps that interleave; what one of them does while it holds `bg_mtx`, and a wait that ends, is
-- one step. `cap` is DW_BUF_SIZE.
pub mod Invariant
pub mod Store
pub mod Plan
pub mod Writer
pub mod Thread
pub mod Keeps
pub mod Progress
pub mod Session
pub mod Delivers
mod Runs
use android_prybar.Base.{
  ℕ, zero, suc, ◌+◌, ◌-◌, ◌<◌, ◌≡◌, true, false, some, List, [], ◌∷◌, ◌++◌, ltb, leb, if◌then◌else◌,
  length, take, drop, replicate, inline_memcpy,
}
use android_prybar.Lz4.{HashTable}
use android_prybar.Kernel.{Kernel}
use android_prybar.DirectWriteBuf.{DirectWriteBuf, emit}

-- Which of two values belongs to the index `i`.
unfoldable pub by_index : ℕ → List ℕ → List ℕ → List ℕ
by_index zero at0 at1 = at0
by_index (suc i) at0 at1 = at1

-- bufs[i]
unfoldable pub buf_of : DirectWriteBuf → ℕ → List ℕ
buf_of b i = by_index i b.buf0 b.buf1

unfoldable pub set_buf : DirectWriteBuf → ℕ → List ℕ → DirectWriteBuf
set_buf b i mem = record b { buf0 = by_index i mem b.buf0; buf1 = by_index i b.buf1 mem }

-- init_tcp
unfoldable pub init_tcp : ℕ → HashTable → ℕ → ℕ → DirectWriteBuf
init_tcp cap htab client_fd tid = record {
  buf0 = replicate cap 0;
  buf1 = replicate cap 0;
  pos = 0;
  fd = some client_fd;
  is_tcp = true;
  tid = tid;
  active = 0;
  bg_running = true;
  bg_pending = false;
  bg_shutdown = false;
  bg_idle = true;
  bg_buf_idx = 0;
  bg_size = 0;
  htab = htab;
}

-- The parts of `write`, `flush` and `destroy` between which the other thread may run.
pub data Action : Type 0 where
  -- `inline_memcpy(cur + pos, data, len); pos += len;`
  append : List ℕ → Action
  -- `inline_memcpy(cur, data, len); pos = len;`, and the same with memcpy in the loop of `write`
  restart : List ℕ → Action
  flush : Action
  -- the wait of `destroy`, after which `bg_shutdown` is set
  shut_down : Action
  -- pthread_join
  join : Action

-- The loop of `write` for data longer than the buffer, in at most `fuel` rounds.
unfoldable pub chunk_actions : ℕ → ℕ → List ℕ → List Action
chunk_actions cap fuel [] = []
chunk_actions cap zero (x ∷ xs) = []
chunk_actions cap (suc fuel) (x ∷ xs) =
    let left = length (x ∷ xs) in
    let chunk = if ltb cap left then cap else left in
    restart (take chunk (x ∷ xs)) ∷ flush ∷ chunk_actions cap fuel (drop chunk (x ∷ xs))

-- `write` when the buffer holds `pos` bytes.
unfoldable pub write_actions : ℕ → ℕ → List ℕ → List Action
write_actions cap pos bytes =
    let len = length bytes in
    if leb (pos + len) cap
    then append bytes ∷ []
    else flush ∷ (if leb len cap then restart bytes ∷ [] else chunk_actions cap len bytes)

-- `pos` after it.
unfoldable pub write_pos : ℕ → ℕ → List ℕ → ℕ
write_pos cap pos bytes =
    let len = length bytes in
    if leb (pos + len) cap then pos + len else if leb len cap then len else 0

-- A sequence of calls of `write`, then `destroy`.
unfoldable pub session_actions : ℕ → ℕ → List (List ℕ) → List Action
session_actions cap pos [] = (if ltb 0 pos then flush ∷ [] else []) ++ (shut_down ∷ join ∷ [])
session_actions cap pos (bytes ∷ rest) =
    write_actions cap pos bytes ++ session_actions cap (write_pos cap pos bytes) rest

-- Where bg_worker stands: waiting for `bg_pending`, between the two locked parts with the buffer
-- it has taken, past sending it, and out of its loop.
pub data Worker : Type 0 where
  waiting : Worker
  working : ℕ → ℕ → Worker
  sent : Worker
  exited : Worker

pub record System (k : Kernel) : Type 0 where
  pub buf : DirectWriteBuf
  pub todo : List Action
  pub worker : Worker
  pub socket : k.State

-- The two threads before the session's first step.
unfoldable pub start : (k : Kernel) → ℕ → HashTable → ℕ → ℕ → k.State → List (List ℕ) → System k
start k cap htab client_fd tid socket pieces = record {
  buf = init_tcp cap htab client_fd tid;
  todo = session_actions cap 0 pieces;
  worker = waiting;
  socket = socket;
}

-- The locked part of `flush`.
unfoldable pub hand_over : DirectWriteBuf → DirectWriteBuf
hand_over b = record b {
  bg_buf_idx = b.active;
  bg_size = b.pos;
  bg_idle = false;
  bg_pending = true;
  active = 1 - b.active;
  pos = 0;
}

unfoldable pub store : DirectWriteBuf → ℕ → List ℕ → DirectWriteBuf
store b i bytes = record (set_buf b b.active (inline_memcpy (buf_of b b.active) i bytes)) {
  pos = i + length bytes;
}

pub data Step (k : Kernel) : System k → System k → Type 0 where
  do_append :
      (y : System k) (bytes : List ℕ) (rest : List Action)
      → y.todo ≡ append bytes ∷ rest
      → Step k y (record y { buf = store y.buf y.buf.pos bytes; todo = rest })
  do_restart :
      (y : System k) (bytes : List ℕ) (rest : List Action)
      → y.todo ≡ restart bytes ∷ rest
      → Step k y (record y { buf = store y.buf 0 bytes; todo = rest })
  -- `if (pos == 0) return;`
  skip_flush :
      (y : System k) (rest : List Action)
      → y.todo ≡ flush ∷ rest
      → y.buf.pos ≡ 0
      → Step k y (record y { todo = rest })
  -- the wait for `bg_idle`, and what follows under the mutex
  do_flush :
      (y : System k) (rest : List Action)
      → y.todo ≡ flush ∷ rest
      → 0 < y.buf.pos
      → y.buf.bg_idle ≡ true
      → Step k y (record y { buf = hand_over y.buf; todo = rest })
  do_shut_down :
      (y : System k) (rest : List Action)
      → y.todo ≡ shut_down ∷ rest
      → y.buf.bg_idle ≡ true
      → Step k y (record y { buf = record (y.buf) { bg_shutdown = true }; todo = rest })
  do_join :
      (y : System k) (rest : List Action)
      → y.todo ≡ join ∷ rest
      → y.worker ≡ exited
      → Step k y (record y { buf = record (y.buf) { bg_running = false }; todo = rest })
  -- bg_worker: `idx = bg_buf_idx; size = bg_size; bg_pending = false;`
  take_buffer :
      (y : System k)
      → y.worker ≡ waiting
      → y.buf.bg_pending ≡ true
      → Step k y (record y {
        buf = record (y.buf) { bg_pending = false };
        worker = working y.buf.bg_buf_idx y.buf.bg_size;
      })
  send_buffer :
      (y : System k) (idx size : ℕ) (htab : HashTable) (socket : k.State)
      → y.worker ≡ working idx size
      → emit k y.buf.htab (buf_of y.buf idx) size y.buf.tid y.socket ≡ some (htab, socket)
      → Step k y (record y { buf = record (y.buf) { htab = htab }; worker = sent; socket = socket })
  -- `bg_idle = true; bg_cv.notify_all();`
  finish :
      (y : System k)
      → y.worker ≡ sent
      → Step k y (record y { buf = record (y.buf) { bg_idle = true }; worker = waiting })
  -- `if (bg_shutdown && !bg_pending) break;`
  leave :
      (y : System k)
      → y.worker ≡ waiting
      → y.buf.bg_shutdown ≡ true
      → y.buf.bg_pending ≡ false
      → Step k y (record y { worker = exited })

-- `n` steps of the two threads.
pub data Steps (k : Kernel) (y : System k) : ℕ → System k → Type 0 where
  here : Steps k y 0 y
  next : {n : ℕ} {z w : System k} → Steps k y n z → Step k z w → Steps k y (suc n) w
