-- ===== src/DirectWriteBuf/Tcp/Invariant.antt =====
-- The invariant of the TCP mode of trace/include/DirectWriteBuf.h.
use android_prybar.Base.{
  ℕ, ◌+◌, ◌-◌, ◌^◌, ◌≤◌, ◌<◌, ◌≡◌, ◌⊎◌, Bool, true, false, List, [], ◌∷◌, ◌++◌, if◌then◌else◌,
  IsByte, length, take, All,
}
use android_prybar.Frames.Parse.{Stream}
use android_prybar.Kernel.{Kernel}
use android_prybar.DirectWriteBuf.{DirectWriteBuf}
use android_prybar.DirectWriteBuf.Tcp.{
  buf_of, Action, append, restart, flush, shut_down, join, Worker, waiting, working, sent, exited,
  System,
}

-- What has been handed over and is not sent.
abbrev pub in_flight : Worker → DirectWriteBuf → List ℕ
in_flight waiting b = if b.bg_pending then take b.bg_size (buf_of b b.bg_buf_idx) else []
in_flight (working idx size) b = take size (buf_of b idx)
in_flight sent b = []
in_flight exited b = []

-- The flags, and that the buffer that the thread has, or is about to take, is not the writer's.
abbrev pub Phase : ℕ → Worker → DirectWriteBuf → Type 0
Phase cap waiting b =
    ((b.bg_idle ≡ true) × (b.bg_pending ≡ false))
    ⊎ ((b.bg_idle ≡ false)
        × (b.bg_pending ≡ true)
        × (b.bg_buf_idx ≡ 1 - b.active)
        × (0 < b.bg_size)
        × (b.bg_size ≤ cap))
Phase cap (working idx size) b =
    (b.bg_idle ≡ false) × (b.bg_pending ≡ false) × (idx ≡ 1 - b.active) × (0 < size) × (size ≤ cap)
Phase cap sent b = (b.bg_idle ≡ false) × (b.bg_pending ≡ false)
Phase cap exited b = (b.bg_idle ≡ true) × (b.bg_pending ≡ false) × (b.bg_shutdown ≡ true)

-- What the writer has still to store.
abbrev pub todo_text : List Action → List ℕ
todo_text [] = []
todo_text (append bytes ∷ rest) = bytes ++ todo_text rest
todo_text (restart bytes ∷ rest) = bytes ++ todo_text rest
todo_text (_ ∷ rest) = todo_text rest

-- The writer's plan, from `pos` and `bg_shutdown` on: what it stores fits, it stores at the start
-- of an empty buffer only, and it shuts down once, at the end, with nothing left in the buffer.
abbrev pub Fits : ℕ → ℕ → Bool → List Action → Type 0
Fits cap pos false (append bytes ∷ rest) =
    (pos + length bytes ≤ cap) × All IsByte bytes × Fits cap (pos + length bytes) false rest
Fits cap pos false (restart bytes ∷ rest) =
    (pos ≡ 0) × (length bytes ≤ cap) × All IsByte bytes × Fits cap (0 + length bytes) false rest
Fits cap pos false (flush ∷ rest) = Fits cap 0 false rest
Fits cap pos false (shut_down ∷ rest) = (pos ≡ 0) × Fits cap pos true rest
Fits cap pos false (join ∷ rest) = ⊥
Fits cap pos false [] = ⊥
Fits cap pos true (join ∷ rest) = (pos ≡ 0) × (rest ≡ [])
Fits cap pos true [] = pos ≡ 0
Fits cap pos true (append bytes ∷ rest) = ⊥
Fits cap pos true (restart bytes ∷ rest) = ⊥
Fits cap pos true (flush ∷ rest) = ⊥
Fits cap pos true (shut_down ∷ rest) = ⊥

-- Both buffers are whole.
pub record Buffers (cap : ℕ) (b : DirectWriteBuf) : Type 0 where
  pub size0 : length b.buf0 ≡ cap
  pub size1 : length b.buf1 ≡ cap
  pub bytes0 : All IsByte b.buf0
  pub bytes1 : All IsByte b.buf1
  pub which : b.active ≤ 1
  pub pos_fits : b.pos ≤ cap
  pub tid_small : b.tid < 2 ^ 32
  pub down_idle : b.bg_shutdown ≡ true → b.bg_idle ≡ true

-- `whole` is all that the session writes: what is sent, in flight, in the writer's buffer and still
-- to come, in this order.
pub record Holds (k : Kernel) (cap : ℕ) (whole : List ℕ) (y : System k) : Type 0 where
  pub frames : ℕ
  pub text_sent : List ℕ
  pub stream : Stream frames (k.contents y.socket) text_sent
  pub text_is :
      whole
      ≡ text_sent
        ++ (in_flight y.worker y.buf
            ++ (take y.buf.pos (buf_of y.buf y.buf.active) ++ todo_text y.todo))
  pub phase : Phase cap y.worker y.buf
  pub plan : Fits cap y.buf.pos y.buf.bg_shutdown y.todo
  pub buffers : Buffers cap y.buf
