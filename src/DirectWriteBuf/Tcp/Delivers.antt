-- ===== src/DirectWriteBuf/Tcp/Delivers.antt =====
-- A session in the TCP mode of trace/include/DirectWriteBuf.h: calls of `write`, then `destroy`.
use mathlib.Core.List.{flatten}
use android_prybar.Base.{
  ℕ, ◌^◌, ◌≤◌, ◌<◌, ◌≡◌, refl, sym, ap, ◌≢◌, ◌⊎◌, inl, inr, some, List, [], ◌∷◌, append-nil, arith,
  IsByte, length, take, All, length-replicate, All-replicate,
}
use android_prybar.Lz4.{compress_bound, HashTable}
use android_prybar.Kernel.{Kernel, IsReliable}
use android_prybar.DirectWriteBuf.Tcp.{
  buf_of, init_tcp, Action, working, System, start, Step, Steps,
}
use android_prybar.DirectWriteBuf.Tcp.Invariant.{in_flight, todo_text, Holds}
use android_prybar.Frames.{read_stream}
use android_prybar.Frames.Parse.{Stream, read_stream-Stream}
use android_prybar.DirectWriteBuf.Tcp.Store.{length-buf_of}
use android_prybar.DirectWriteBuf.Tcp.Plan.{Fits-end, idle_empty}
use android_prybar.DirectWriteBuf.Tcp.Keeps.{Steps-Holds}
use android_prybar.DirectWriteBuf.Tcp.Progress.{measure, Steps-measure, progress}
use android_prybar.DirectWriteBuf.Tcp.Session.{session-Fits, session_text}

-- What holds of a reached state `z` after `n` steps.
abbrev pub Delivers : (k : Kernel) → List ℕ → System k → ℕ → System k → Type 0
Delivers k text y n z =
    (n ≤ measure y)
    × (((z.todo ≡ []) × (read_stream (k.contents z.socket) ≡ some text))
        ⊎ ((w : System k) × Step k z w))

module _ (k : Kernel) (ok : IsReliable k) (cap : ℕ) (room : 0 < cap)
    (small : compress_bound cap < 2 ^ 31) (htab : HashTable) (client_fd tid : ℕ)
    (tid_small : tid < 2 ^ 32) (socket : k.State) (fresh : k.contents socket ≡ [])
    (pieces : List (List ℕ)) (bytes : All (All IsByte) pieces) where
  start-Holds : Holds k cap (flatten pieces) (start k cap htab client_fd tid socket pieces)
  unfolding start init_tcp
  start-Holds = record {
    frames = 0;
    text_sent = [];
    stream = rw fresh Stream.nothing;
    text_is = sym (session_text cap room 0 pieces);
    phase = inl (refl, refl);
    plan = session-Fits cap room 0 pieces bytes;
    buffers = record {
      size0 = length-replicate cap 0;
      size1 = length-replicate cap 0;
      bytes0 = All-replicate IsByte cap 0 (omega arith);
      bytes1 = All-replicate IsByte cap 0 (omega arith);
      which = omega arith;
      pos_fits = omega arith;
      tid_small = tid_small;
      down_idle = λ d. refl;
    };
  }

  -- With the plan at its end, all of the text has been sent.
  end_text :
      (z : System k)
      → Holds k cap (flatten pieces) z
      → z.todo ≡ []
      → read_stream (k.contents z.socket) ≡ some (flatten pieces)
  end_text z h e =
      let (down, empty) = Fits-end cap z.buf.pos z.buf.bg_shutdown (rw e at h.plan) in
      let flight : in_flight z.worker z.buf ≡ [] =
        idle_empty cap z.buf z.worker h.phase (h.buffers.down_idle down) in
      let left : todo_text z.todo ≡ [] = ap todo_text e in
      let stored : take z.buf.pos (buf_of z.buf z.buf.active) ≡ [] =
        ap (λ n. take n (buf_of z.buf z.buf.active)) empty in
      let all : flatten pieces ≡ h.text_sent =
        cc (h.text_is, flight, left, stored, append-nil h.text_sent) in
      rw all (read_stream-Stream h.stream)

  ends_or_goes_on :
      (z : System k)
      → Holds k cap (flatten pieces) z
      → (todo : List Action) → z.todo ≡ todo
      → ((z.todo ≡ []) × (read_stream (k.contents z.socket) ≡ some (flatten pieces)))
        ⊎ ((w : System k) × Step k z w)
  ends_or_goes_on z h [] e = inl (e, end_text z h e)
  ends_or_goes_on z h (a ∷ rest) e =
      inr (progress k ok cap small (flatten pieces) z h (λ none_left. cc (e, none_left)))

  -- Of a socket that never fails and has taken nothing yet, a buffer of at least one byte whose
  -- compress_bound is below 2^31, a 32-bit thread id and pieces of bytes: however the writer and the
  -- thread interleave, no more steps are taken than `measure` of the first state, and in each state
  -- that is reached the writer has done all and the bytes sent read back as the pieces in their
  -- order, or some step can be taken.
  pub tcp-Delivers :
      {n : ℕ} (z : System k)
      → Steps k (start k cap htab client_fd tid socket pieces) n z
      → Delivers k (flatten pieces) (start k cap htab client_fd tid socket pieces) n z
  tcp-Delivers {n} z run =
      let h = Steps-Holds k ok cap small (flatten pieces) run start-Holds in
      (
        omega (arith, Steps-measure k ok cap small (flatten pieces) run start-Holds),
        ends_or_goes_on z h z.todo refl,
      )

  -- Of a socket that never fails and has taken nothing yet, a buffer of at least one byte whose
  -- compress_bound is below 2^31, a 32-bit thread id and pieces of bytes: in every state that is
  -- reached while the thread compresses a buffer, the bytes in the writer's buffer fit it, the
  -- thread's buffer is not the one the writer stores into, and the size to compress fits its buffer.
  pub tcp_exclusive :
      {n : ℕ} (z : System k) (idx size : ℕ)
      → Steps k (start k cap htab client_fd tid socket pieces) n z
      → z.worker ≡ working idx size
      → (z.buf.pos ≤ length (buf_of z.buf z.buf.active)) × (idx ≢ z.buf.active) × (size ≤ cap)
  tcp_exclusive z idx size run w =
      let h = Steps-Holds k ok cap small (flatten pieces) run start-Holds in
      let p = rw w at h.phase in
      (
        omega (arith, h.buffers.pos_fits, length-buf_of z.buf z.buf.active h.buffers),
        λ e. omega (arith, p.2, e, h.buffers.which),
        p.4,
      )
