-- ===== src/DirectWriteBuf/File/Holds.antt =====
-- The file mode of trace/include/DirectWriteBuf.h loses nothing: at every moment the frames in the
-- file and the bytes in the buffer are the text that has been written.
use mathlib.Core.List.{flatten}
use android_prybar.Base.{
  ℕ, zero, suc, ◌+◌, ◌^◌, ◌≤◌, ◌<◌, ◌≡◌, refl, sym, ap, ◌∙◌, inl, inr, false, Option, some, List,
  [], ◌∷◌, ◌++◌, append-nil, append_assoc, arith, ltb, leb, ◌==◌, if◌then◌else◌, IsByte, ==_iff,
  Bool-cases, length, take, drop, All, length-take, length-drop, take-append-drop, All-take,
  All-drop, write_at, inline_memcpy, length-write_at, take-write_at, inline_memcpy-write_at,
  All-write_at,
}
use android_prybar.Lz4.{compress_bound}
use android_prybar.Frames.Parse.{Stream}
use android_prybar.Kernel.{Kernel, IsReliable}
use android_prybar.DirectWriteBuf.{DirectWriteBuf}
use android_prybar.DirectWriteBuf.Emit.{emit-Stream}
use android_prybar.DirectWriteBuf.File.{is_closed, flush, write_chunks, write, write_each}

-- `text` has been written to `b`: its beginning is in the frames, the rest in the buffer.
pub record Holds (k : Kernel) (cap : ℕ) (b : DirectWriteBuf) (s : k.State) (text : List ℕ)
    : Type 0 where
  pub frames : ℕ
  pub sent : List ℕ
  pub stream : Stream frames (k.contents s) sent
  pub text_is : text ≡ sent ++ take b.pos b.buf0
  pub fits : b.pos ≤ cap
  pub size : length b.buf0 ≡ cap
  pub bytes : All IsByte b.buf0
  pub tid_small : b.tid < 2 ^ 32
  pub file_mode : b.bg_running ≡ false
  pub is_open : is_closed b.fd ≡ false

module _ (k : Kernel) (ok : IsReliable k) (cap : ℕ) (room : 0 < cap)
    (small : compress_bound cap < 2 ^ 31) where
  open k use {State}

  -- What an operation leaves.
  abbrev pub Leaves : List ℕ → Option (DirectWriteBuf × State) → Type 0
  Leaves text r = (b : DirectWriteBuf) × (s : State) × (r ≡ some (b, s)) × Holds k cap b s text

  abbrev pub LeavesEmpty : List ℕ → Option (DirectWriteBuf × State) → Type 0
  LeavesEmpty text r =
      (b : DirectWriteBuf) × (s : State) × (r ≡ some (b, s)) × Holds k cap b s text × (b.pos ≡ 0)

  bound_mono : (n : ℕ) → n ≤ cap → compress_bound n < 2 ^ 31
  bound_mono n h = omega arith

  -- The bytes in the buffer go out as one frame.
  pub flush-LeavesEmpty :
      (b : DirectWriteBuf) (s : State) (text : List ℕ)
      → Holds k cap b s text
      → LeavesEmpty text (flush k cap b s)
  unfolding flush
  flush-LeavesEmpty b s text h = elim (Bool-cases (b.pos == 0)) [
    | inl e ↦ (b, s, rw e, h, (==_iff b.pos 0).0 e)
    | inr e ↦
        let (htab', s', e', stream) =
          emit-Stream k ok b.buf0 b.pos b.tid (ground arith) (omega (arith, h.fits, h.size))
            (bound_mono b.pos h.fits) h.bytes h.tid_small b.htab s h.stream in
        (
          record b { pos = 0; htab = htab' },
          s',
          rw (e, e'),
          record {
            frames = suc h.frames;
            sent = h.sent ++ take b.pos b.buf0;
            stream = stream;
            text_is = h.text_is ∙ sym (append-nil _);
            fits = omega arith;
            size = h.size;
            bytes = h.bytes;
            tid_small = h.tid_small;
            file_mode = h.file_mode;
            is_open = h.is_open;
          },
          refl,
        )
  ]

  -- Bytes stored behind those in the buffer.
  store-Holds :
      (b : DirectWriteBuf) (s : State) (text data_bytes mem : List ℕ) (i n : ℕ)
      → Holds k cap b s text
      → All IsByte data_bytes
      → mem ≡ write_at b.buf0 i data_bytes
      → b.pos ≡ i
      → n ≡ i + length data_bytes
      → n ≤ cap
      → Holds k cap (record b { buf0 = mem; pos = n }) s (text ++ data_bytes)
  store-Holds b s text data_bytes mem i n h bytes em ei en fits = record {
    frames = h.frames;
    sent = h.sent;
    stream = h.stream;
    text_is =
        ap (λ t. t ++ data_bytes) (h.text_is ∙ ap (λ j. h.sent ++ take j b.buf0) ei)
        ∙ append_assoc h.sent (take i b.buf0) data_bytes
        ∙ sym (
            rw (em, en)
              (ap (λ xs. h.sent ++ xs)
                (take-write_at b.buf0 i data_bytes (omega (arith, h.size)))));
    fits = fits;
    size = rw em (length-write_at b.buf0 i data_bytes ∙ h.size);
    bytes = rw em (All-write_at IsByte b.buf0 i data_bytes h.bytes bytes);
    tid_small = h.tid_small;
    file_mode = h.file_mode;
    is_open = h.is_open;
  }

  write_chunks-LeavesEmpty :
      (fuel : ℕ) (b : DirectWriteBuf) (data_bytes : List ℕ) (s : State) (text : List ℕ)
      → length data_bytes ≤ fuel
      → All IsByte data_bytes
      → Holds k cap b s text
      → b.pos ≡ 0
      → LeavesEmpty (text ++ data_bytes) (write_chunks k cap fuel b data_bytes s)
  unfolding write_chunks
  write_chunks-LeavesEmpty fuel b [] s text f bytes h z = (b, s, refl, rw append-nil h, z)
  write_chunks-LeavesEmpty zero b (x ∷ xs) s text f bytes h z = absurd (omega arith)
  write_chunks-LeavesEmpty (suc fuel) b (x ∷ xs) s text f bytes h z =
      let left = length (x ∷ xs) in
      let chunk : ℕ = if ltb cap left then cap else left in
      let bounds : (0 < chunk) × (chunk ≤ cap) × (chunk ≤ left) = ground arith in
      let piece = take chunk (x ∷ xs) in
      let sized : length piece ≡ chunk = omega (arith, length-take chunk (x ∷ xs), bounds) in
      let stored =
        store-Holds b s text piece (write_at b.buf0 0 piece) 0 chunk h
          (All-take IsByte chunk (x ∷ xs) bytes) refl z (omega (arith, sized)) bounds.1 in
      let (b', s', e, h', z') = flush-LeavesEmpty _ s (text ++ piece) stored in
      let whole : text ++ (x ∷ xs) ≡ (text ++ piece) ++ drop chunk (x ∷ xs) =
        ap (λ t. text ++ t) (sym (take-append-drop chunk (x ∷ xs)))
        ∙ sym (append_assoc text piece _) in
      rw (e, whole)
        (write_chunks-LeavesEmpty fuel b' (drop chunk (x ∷ xs)) s' (text ++ piece)
          (omega (arith, length-drop chunk (x ∷ xs), bounds)) (All-drop IsByte chunk (x ∷ xs) bytes)
          h' z')

  -- `write` adds its data to the text, whatever its length against the buffer's.
  pub write-Leaves :
      (b : DirectWriteBuf) (data_bytes : List ℕ) (s : State) (text : List ℕ)
      → All IsByte data_bytes
      → Holds k cap b s text
      → Leaves (text ++ data_bytes) (write k cap b data_bytes s)
  unfolding write
  write-Leaves b data_bytes s text bytes h =
      let len = length data_bytes in
      elim (Bool-cases (leb (b.pos + len) cap)) [
        | inl e ↦
            let mem = inline_memcpy b.buf0 b.pos data_bytes in
            (
              record b { buf0 = mem; pos = b.pos + len },
              s,
              rw e,
              store-Holds b s text data_bytes mem b.pos _ h bytes
                  (inline_memcpy-write_at data_bytes b.buf0 b.pos) refl refl (ground arith),
            )
        | inr e ↦
            let (b', s', e', h', z') = flush-LeavesEmpty b s text h in
            rw (e, e')
              (elim (Bool-cases (leb len cap)) [
                | inl fits ↦
                    let mem = inline_memcpy b'.buf0 0 data_bytes in
                    (
                      record b' { buf0 = mem; pos = len },
                      s',
                      rw fits,
                      store-Holds b' s' text data_bytes mem 0 _ h' bytes
                          (inline_memcpy-write_at data_bytes b'.buf0 0) z' (omega arith)
                          (ground arith),
                    )
                | inr long ↦
                    let (b'', s'', e'', h'', _) =
                      write_chunks-LeavesEmpty len b' data_bytes s' text (omega arith) bytes h'
                        z' in
                    (b'', s'', rw (long, e''), h'')
              ])
      ]

  pub write_each-Leaves :
      (pieces : List (List ℕ)) (b : DirectWriteBuf) (s : State) (text : List ℕ)
      → All (All IsByte) pieces
      → Holds k cap b s text
      → Leaves (text ++ flatten pieces) (write_each k cap b pieces s)
  unfolding write_each flatten
  write_each-Leaves [] b s text bytes h = (b, s, refl, rw append-nil h)
  write_each-Leaves (piece ∷ pieces) b s text bytes h =
      let (b', s', e, h') = write-Leaves b piece s text bytes.0 h in
      rw (e, ← append_assoc text piece (flatten pieces))
        (write_each-Leaves pieces b' s' (text ++ piece) bytes.1 h')
