-- ===== src/DirectWriteBuf/Tcp/Thread.antt =====
-- The steps of bg_worker of trace/include/DirectWriteBuf.h keep the invariant.
use mathlib.Core.Option.{some-injective}
use android_prybar.Base.{
  ℕ, suc, ◌^◌, ◌<◌, ◌≡◌, refl, sym, ap, ◌∙◌, subst, inl, inr, true, false, some, List, [], ◌++◌,
  append_assoc, arith, take,
}
use android_prybar.Lz4.{compress_bound, HashTable}
use android_prybar.Frames.Parse.{Stream}
use android_prybar.Kernel.{Kernel, IsReliable}
use android_prybar.DirectWriteBuf.{emit}
use android_prybar.DirectWriteBuf.Emit.{emit-Stream}
use android_prybar.DirectWriteBuf.Tcp.{buf_of, waiting, working, sent, exited, System}
use android_prybar.DirectWriteBuf.Tcp.Invariant.{in_flight, Phase, todo_text, Holds}
use android_prybar.DirectWriteBuf.Tcp.Store.{length-buf_of, All-buf_of, flags-Buffers}
use android_prybar.DirectWriteBuf.Tcp.Plan.{idle_empty}

module _ (k : Kernel) (ok : IsReliable k) (cap : ℕ) (small : compress_bound cap < 2 ^ 31)
    (whole : List ℕ) where
  -- The thread's buffer goes out as a frame.
  pub emits :
      (y : System k) (idx size : ℕ)
      → y.worker ≡ working idx size
      → (h : Holds k cap whole y)
      → (htab : HashTable) × (socket : k.State) × (emit k y.buf.htab
            (buf_of y.buf idx)
            size
            y.buf.tid
            y.socket
          ≡ some (htab, socket))
        × Stream (suc h.frames) (k.contents socket) (h.text_sent ++ take size (buf_of y.buf idx))
  emits y idx size w h =
      let p = rw w at h.phase in
      emit-Stream k ok (buf_of y.buf idx) size y.buf.tid p.3
        (omega (arith, p.4, length-buf_of y.buf idx h.buffers)) (omega (arith, p.4))
        (All-buf_of y.buf idx h.buffers) h.buffers.tid_small y.buf.htab y.socket h.stream

  pub send-Holds :
      (y : System k) (idx size : ℕ) (htab : HashTable) (socket : k.State)
      → y.worker ≡ working idx size
      → emit k y.buf.htab (buf_of y.buf idx) size y.buf.tid y.socket ≡ some (htab, socket)
      → Holds k cap whole y
      → Holds k cap whole
          (record y { buf = record (y.buf) { htab = htab }; worker = sent; socket = socket })
  unfolding buf_of
  send-Holds y idx size htab socket w e h =
      let p = rw w at h.phase in
      let (htab', s', e', stream) = emits y idx size w h in
      let same = some-injective (htab', s') (htab, socket) (sym e' ∙ e) in
      let sent_before = h.text_sent ++ take size (buf_of y.buf idx) in
      let flight : in_flight y.worker y.buf ≡ take size (buf_of y.buf idx) = rw w in
      let moved =
        append_assoc h.text_sent (take size (buf_of y.buf idx))
          (take y.buf.pos (buf_of y.buf y.buf.active) ++ todo_text y.todo) in
      record {
        frames = suc h.frames;
        text_sent = sent_before;
        stream =
            subst (λ s. Stream (suc h.frames) (k.contents s) sent_before) (ap (λ r. r.1) same)
              stream;
        text_is = cc (h.text_is, flight, moved);
        phase = (p.0, p.1);
        plan = h.plan;
        buffers = flags-Buffers cap y.buf _ _ _ _ _ h.buffers.down_idle h.buffers;
      }

  pub take_buffer-Holds :
      (y : System k)
      → y.worker ≡ waiting
      → y.buf.bg_pending ≡ true
      → Holds k cap whole y
      → Holds k cap whole (record y {
        buf = record (y.buf) { bg_pending = false };
        worker = working y.buf.bg_buf_idx y.buf.bg_size;
      })
  unfolding buf_of
  take_buffer-Holds y w e h = go (rw w at h.phase)
    where
      go :
          Phase cap waiting y.buf
          → Holds k cap whole (record y {
            buf = record (y.buf) { bg_pending = false };
            worker = working y.buf.bg_buf_idx y.buf.bg_size;
          })
      go (inl p) = absurd (cc (p.1, e))
      go (inr p) =
          let flight : in_flight y.worker y.buf
              ≡ take y.buf.bg_size (buf_of y.buf y.buf.bg_buf_idx) =
            rw (w, e) in
          record {
            frames = h.frames;
            text_sent = h.text_sent;
            stream = h.stream;
            text_is = cc (h.text_is, flight);
            phase = (p.0, refl, p.2, p.3, p.4);
            plan = h.plan;
            buffers = flags-Buffers cap y.buf _ _ _ _ _ h.buffers.down_idle h.buffers;
          }

  pub finish-Holds :
      (y : System k)
      → y.worker ≡ sent
      → Holds k cap whole y
      → Holds k cap whole (record y { buf = record (y.buf) { bg_idle = true }; worker = waiting })
  unfolding buf_of
  finish-Holds y w h =
      let p = rw w at h.phase in
      let before : in_flight y.worker y.buf ≡ [] = rw w in
      let after : in_flight waiting y.buf ≡ [] = rw (p.1) in
      record {
        frames = h.frames;
        text_sent = h.text_sent;
        stream = h.stream;
        text_is = cc (h.text_is, before, after);
        phase = inl (refl, p.1);
        plan = h.plan;
        buffers = flags-Buffers cap y.buf _ _ true _ y.buf.htab (λ d. refl) h.buffers;
      }

  pub leave-Holds :
      (y : System k)
      → y.worker ≡ waiting
      → y.buf.bg_shutdown ≡ true
      → y.buf.bg_pending ≡ false
      → Holds k cap whole y
      → Holds k cap whole (record y { worker = exited })
  leave-Holds y w d e h =
      let idle = h.buffers.down_idle d in
      let before : in_flight y.worker y.buf ≡ [] = idle_empty cap y.buf y.worker h.phase idle in
      record {
        frames = h.frames;
        text_sent = h.text_sent;
        stream = h.stream;
        text_is = cc (h.text_is, before);
        phase = (idle, e, d);
        plan = h.plan;
        buffers = h.buffers;
      }
