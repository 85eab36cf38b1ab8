-- ===== src/DirectWriteBuf/Tcp/Writer.antt =====
-- The writer's steps of the TCP mode of trace/include/DirectWriteBuf.h keep the invariant.
use android_prybar.Base.{
  ℕ, ◌+◌, ◌≤◌, ◌<◌, ◌≡◌, refl, sym, ap, subst, inl, inr, true, false, List, [], ◌∷◌, ◌++◌,
  append_assoc, arith, IsByte, length, take, All,
}
use android_prybar.Kernel.{Kernel}
use android_prybar.DirectWriteBuf.Tcp.{
  buf_of, set_buf, Action, flush, shut_down, join, exited, System, hand_over, store,
}
use android_prybar.DirectWriteBuf.Tcp.Invariant.{in_flight, todo_text, Fits, Holds}
use android_prybar.DirectWriteBuf.Tcp.Store.{
  Phase-store, in_flight-store, store-Buffers, store_text, flags-Buffers,
}
use android_prybar.DirectWriteBuf.Tcp.Plan.{
  Fits-flush, Fits-shut_down, Fits-join, idle_waiting, idle_empty,
}

module _ (k : Kernel) (cap : ℕ) (whole : List ℕ) where
  pub store-Holds :
      (y : System k) (i : ℕ) (bytes : List ℕ) (rest : List Action)
      → y.buf.pos ≡ i
      → todo_text y.todo ≡ bytes ++ todo_text rest
      → i + length bytes ≤ cap
      → All IsByte bytes
      → Fits cap (i + length bytes) y.buf.bg_shutdown rest
      → Holds k cap whole y
      → Holds k cap whole (record y { buf = store y.buf i bytes; todo = rest })
  unfolding store set_buf
  store-Holds y i bytes rest e t fits p plan h = record {
    frames = h.frames;
    text_sent = h.text_sent;
    stream = h.stream;
    text_is =
        let flight = in_flight-store cap i bytes y.buf y.worker h.buffers.which h.phase in
        let stored = store_text cap i bytes y.buf fits h.buffers in
        let moved = append_assoc (take i (buf_of y.buf y.buf.active)) bytes (todo_text rest) in
        cc (h.text_is, flight, stored, moved, t, e);
    phase = Phase-store cap i bytes y.buf y.worker h.phase;
    plan = plan;
    buffers = store-Buffers cap i bytes y.buf fits p h.buffers;
  }

  pub hand_over-Holds :
      (y : System k) (rest : List Action)
      → y.todo ≡ flush ∷ rest
      → 0 < y.buf.pos
      → y.buf.bg_idle ≡ true
      → Holds k cap whole y
      → Holds k cap whole (record y { buf = hand_over y.buf; todo = rest })
  unfolding hand_over buf_of
  hand_over-Holds y rest e z i h =
      let (up, plan) = Fits-flush cap y.buf.pos rest y.buf.bg_shutdown (rw e at h.plan) in
      let (w, pending) = idle_waiting cap y.buf y.worker h.phase i up in
      let before : in_flight y.worker y.buf ≡ [] = idle_empty cap y.buf y.worker h.phase i in
      let after : in_flight y.worker (hand_over y.buf)
          ≡ take y.buf.pos (buf_of y.buf y.buf.active) =
        rw w in
      let left : todo_text y.todo ≡ todo_text rest = ap todo_text e in
      record {
        frames = h.frames;
        text_sent = h.text_sent;
        stream = h.stream;
        text_is = cc (h.text_is, before, after, left);
        phase = rw w (inr (refl, refl, omega (arith, h.buffers.which), z, h.buffers.pos_fits));
        plan = plan;
        buffers = record {
          size0 = h.buffers.size0;
          size1 = h.buffers.size1;
          bytes0 = h.buffers.bytes0;
          bytes1 = h.buffers.bytes1;
          which = omega arith;
          pos_fits = omega arith;
          tid_small = h.buffers.tid_small;
          down_idle = λ d. absurd (cc (d, up));
        };
      }

  pub shut_down-Holds :
      (y : System k) (rest : List Action)
      → y.todo ≡ shut_down ∷ rest
      → y.buf.bg_idle ≡ true
      → Holds k cap whole y
      → Holds k cap whole (record y { buf = record (y.buf) { bg_shutdown = true }; todo = rest })
  unfolding buf_of
  shut_down-Holds y rest e i h =
      let (up, empty, plan) =
        Fits-shut_down cap y.buf.pos rest y.buf.bg_shutdown (rw e at h.plan) in
      let (w, pending) = idle_waiting cap y.buf y.worker h.phase i up in
      let flight : in_flight y.worker (record (y.buf) { bg_shutdown = true })
          ≡ in_flight y.worker y.buf =
        rw w in
      let left : todo_text y.todo ≡ todo_text rest = ap todo_text e in
      record {
        frames = h.frames;
        text_sent = h.text_sent;
        stream = h.stream;
        text_is = cc (h.text_is, flight, left);
        phase = rw w (inl (i, pending));
        plan = plan;
        buffers = flags-Buffers cap y.buf _ _ _ _ _ (λ d. i) h.buffers;
      }

  pub join-Holds :
      (y : System k) (rest : List Action)
      → y.todo ≡ join ∷ rest
      → y.worker ≡ exited
      → Holds k cap whole y
      → Holds k cap whole (record y { buf = record (y.buf) { bg_running = false }; todo = rest })
  unfolding buf_of
  join-Holds y rest e w h =
      let (down, empty, none_left) =
        Fits-join cap y.buf.pos rest y.buf.bg_shutdown (rw e at h.plan) in
      let flight : in_flight y.worker (record (y.buf) { bg_running = false })
          ≡ in_flight y.worker y.buf =
        rw w in
      let left : todo_text y.todo ≡ todo_text rest = ap todo_text e in
      record {
        frames = h.frames;
        text_sent = h.text_sent;
        stream = h.stream;
        text_is = cc (h.text_is, flight, left);
        phase = rw w (rw w at h.phase);
        plan = rw (none_left, down) empty;
        buffers = flags-Buffers cap y.buf _ _ _ _ _ h.buffers.down_idle h.buffers;
      }

  pub skip_flush-Holds :
      (y : System k) (rest : List Action)
      → y.todo ≡ flush ∷ rest
      → y.buf.pos ≡ 0
      → Holds k cap whole y
      → Holds k cap whole (record y { todo = rest })
  skip_flush-Holds y rest e z h =
      let (up, plan) = Fits-flush cap y.buf.pos rest y.buf.bg_shutdown (rw e at h.plan) in
      let left : todo_text y.todo ≡ todo_text rest = ap todo_text e in
      record {
        frames = h.frames;
        text_sent = h.text_sent;
        stream = h.stream;
        text_is = cc (h.text_is, left);
        phase = h.phase;
        plan = subst (λ n. Fits cap n y.buf.bg_shutdown rest) (sym z) plan;
        buffers = h.buffers;
      }
