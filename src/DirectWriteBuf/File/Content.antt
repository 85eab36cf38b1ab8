-- ===== src/DirectWriteBuf/File/Content.antt =====
-- What a file holds after a session in the file mode of trace/include/DirectWriteBuf.h.
use mathlib.Core.List.{flatten}
use android_prybar.Base.{
  ℕ, ◌^◌, ◌<◌, ◌≡◌, refl, ◌∙◌, inl, inr, false, Option, some, List, [], append-nil, arith, ltb,
  ◌==◌, ◌>>=◌, IsByte, Bool-cases, All, length-replicate, All-replicate,
}
use android_prybar.Lz4.{compress_bound, HashTable}
use android_prybar.Frames.{read_stream}
use android_prybar.Frames.Parse.{Stream, read_stream-Stream}
use android_prybar.Kernel.{Kernel, IsReliable}
use android_prybar.DirectWriteBuf.{DirectWriteBuf}
use android_prybar.DirectWriteBuf.File.{
  is_closed, init_lz4, flush, flush_from_signal, destroy, write_each,
}
use android_prybar.DirectWriteBuf.File.Holds.{Holds, flush-LeavesEmpty, write_each-Leaves}

-- What an operation leaves whose file reads back as `text`.
abbrev pub Completes : (k : Kernel) → List ℕ → Option (DirectWriteBuf × k.State) → Type 0
Completes k text r =
    (b : DirectWriteBuf) × (s : k.State) × (r ≡ some (b, s))
    × (read_stream (k.contents s) ≡ some text)

module _ (k : Kernel) (ok : IsReliable k) (cap : ℕ) (room : 0 < cap)
    (small : compress_bound cap < 2 ^ 31) where
  open k use {State}

  init_lz4-Holds :
      (htab : HashTable) (file_fd tid : ℕ) (s : State)
      → tid < 2 ^ 32
      → k.contents s ≡ []
      → Holds k cap (init_lz4 k cap htab file_fd tid) s []
  unfolding init_lz4
  init_lz4-Holds htab file_fd tid s t e = record {
    frames = 0;
    sent = [];
    stream = rw e Stream.nothing;
    text_is = refl;
    fits = omega arith;
    size = length-replicate cap 0;
    bytes = All-replicate IsByte cap 0 (omega arith);
    tid_small = t;
    file_mode = refl;
    is_open = unfold is_closed in refl;
  }

  empty_stream :
      (b : DirectWriteBuf) (s : State) (text : List ℕ)
      → Holds k cap b s text
      → b.pos ≡ 0
      → read_stream (k.contents s) ≡ some text
  empty_stream b s text h z =
      let all : text ≡ h.sent = h.text_is ∙ rw z (append-nil h.sent) in
      rw all (read_stream-Stream h.stream)

  destroy-Completes :
      (b : DirectWriteBuf) (s : State) (text : List ℕ)
      → Holds k cap b s text
      → Completes k text (destroy k cap b s)
  unfolding destroy
  destroy-Completes b s text h = elim (Bool-cases (ltb 0 b.pos)) [
    | inl e ↦
        let (b', s', e', h', z) = flush-LeavesEmpty k ok cap room small b s text h in
        (record b' { buf0 = [] }, s', rw (e, e'), empty_stream b' s' text h' z)
    | inr e ↦ (record b { buf0 = [] }, s, rw e, empty_stream b s text h (ground arith))
  ]

  flush_from_signal-flush :
      (b : DirectWriteBuf) (s : State)
      → b.bg_running ≡ false
      → is_closed b.fd ≡ false
      → flush_from_signal k cap b s ≡ flush k cap b s
  unfolding flush_from_signal flush
  flush_from_signal-flush b s r f = elim (Bool-cases (b.pos == 0)) [
    | inl e ↦ rw (e, r)
    | inr e ↦ rw (e, r, f)
  ]

  -- On an empty file and a descriptor that never fails, with a buffer of at least one byte whose
  -- compress_bound is below 2^31 and a 32-bit thread id: whatever bytes are written between
  -- `init_lz4` and `destroy`, in pieces of any length and for any content of the compressor's table,
  -- every call ends, and the file reads back as the pieces in their order.
  pub file_holds_text :
      (htab : HashTable) (file_fd tid : ℕ) (s : State) (pieces : List (List ℕ))
      → tid < 2 ^ 32
      → k.contents s ≡ []
      → All (All IsByte) pieces
      → Completes k (flatten pieces) (
          write_each k cap (init_lz4 k cap htab file_fd tid) pieces s >>= λ r.
          destroy k cap r.0 r.1)
  file_holds_text htab file_fd tid s pieces t e bytes =
      let (b, s', e', h) =
        write_each-Leaves k ok cap room small pieces _ s [] bytes
          (init_lz4-Holds htab file_fd tid s t e) in
      rw e' (destroy-Completes b s' (flatten pieces) h)

  -- On an empty file and a descriptor that never fails, with a buffer of at least one byte whose
  -- compress_bound is below 2^31 and a 32-bit thread id: after `init_lz4` and any calls of `write`
  -- with pieces of bytes, `flush_from_signal` ends and completes the file, which reads back as the
  -- pieces in their order.
  pub flush_from_signal_salvages :
      (htab : HashTable) (file_fd tid : ℕ) (s : State) (pieces : List (List ℕ))
      → tid < 2 ^ 32
      → k.contents s ≡ []
      → All (All IsByte) pieces
      → Completes k (flatten pieces) (
          write_each k cap (init_lz4 k cap htab file_fd tid) pieces s >>= λ r.
          flush_from_signal k cap r.0 r.1)
  flush_from_signal_salvages htab file_fd tid s pieces t e bytes =
      let (b, s', e', h) =
        write_each-Leaves k ok cap room small pieces _ s [] bytes
          (init_lz4-Holds htab file_fd tid s t e) in
      let (b', s'', e'', h', z) = flush-LeavesEmpty k ok cap room small b s' (flatten pieces) h in
      rw (e', flush_from_signal-flush b s' h.file_mode h.is_open, e'')
        (b', s'', refl, empty_stream b' s'' (flatten pieces) h' z)
