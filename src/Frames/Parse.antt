-- ===== src/Frames/Parse.antt =====
-- Reading back what trace/include/DirectWriteBuf.h writes frame by frame.
use android_prybar.Base.{
  ℕ, suc, ◌+◌, ◌-◌, ◌*◌, ◌/◌, ◌%◌, ◌^◌, ◌≤◌, ◌<◌, ◌≡◌, refl, false, some, List, [], ◌++◌,
  append-nil, append_assoc, arith, ltb, ◌==◌, u32, le→ltb_false, length, replicate, length-append,
  take-append_left, drop-append_left,
}
use android_prybar.Frames.{le32, header, read_le32, read_frames, read_stream}
use android_prybar.Lz4.Format.{decode}

read_le32-le32 : (v : ℕ) (rest : List ℕ) → v < 2 ^ 32 → read_le32 (le32 v ++ rest) ≡ some (v, rest)
unfolding read_le32 le32
read_le32-le32 v rest h =
    let e : v % 2 ^ 8
          + 2 ^ 8 * (v / 2 ^ 8 % 2 ^ 8)
          + 2 ^ 16 * (v / 2 ^ 16 % 2 ^ 8)
          + 2 ^ 24 * (v / 2 ^ 24 % 2 ^ 8)
        ≡ v =
      omega arith in
    rw e

-- One frame.
abbrev pub frame : List ℕ → ℕ → ℕ → List ℕ
frame comp size tid = header (length comp) size tid ++ comp

-- `k` frames in a row, and the text of their blocks.
pub data Stream : ℕ → List ℕ → List ℕ → Type 0 where
  nothing : Stream 0 [] []
  and_frame :
      {k : ℕ} {bytes plain : List ℕ}
      → Stream k bytes plain
      → (comp chunk : List ℕ) (size tid : ℕ) → decode comp ≡ some chunk
      → 0 < length comp
      → length comp < 2 ^ 32
      → size < 2 ^ 32
      → tid < 2 ^ 32
      → Stream (suc k) (bytes ++ frame comp size tid) (plain ++ chunk)

header_parts :
    (comp_size size tid : ℕ) (rest : List ℕ)
    → comp_size < 2 ^ 32
    → size < 2 ^ 32
    → header comp_size size tid ++ rest ≡ le32 comp_size ++ (le32 size ++ (le32 tid ++ rest))
unfolding header
header_parts comp_size size tid rest p q =
    let c : u32 comp_size ≡ comp_size = omega arith in
    let s : u32 size ≡ size = omega arith in
    rw (
      c,
      s,
      append_assoc (le32 comp_size) (le32 size ++ le32 tid) rest,
      append_assoc (le32 size) (le32 tid) rest,
    )

read_frames-frame :
    (fuel : ℕ) (comp chunk rest others : List ℕ) (size tid : ℕ)
    → decode comp ≡ some chunk
    → 0 < length comp
    → length comp < 2 ^ 32
    → size < 2 ^ 32
    → tid < 2 ^ 32
    → read_frames fuel rest ≡ some others
    → read_frames (suc fuel) (frame comp size tid ++ rest) ≡ some (chunk ++ others)
unfolding read_frames le32
read_frames-frame fuel comp chunk rest others size tid d pos c s t e =
    let some_bytes : (length comp == 0) ≡ false = ground arith in
    let room : ltb (length (comp ++ rest)) (length comp) ≡ false =
      le→ltb_false _ _ (omega (arith, length-append comp rest)) in
    rw (
      append_assoc (header (length comp) size tid) comp rest,
      header_parts (length comp) size tid (comp ++ rest) c s,
      read_le32-le32 (length comp) (le32 size ++ (le32 tid ++ (comp ++ rest))) c,
      read_le32-le32 size (le32 tid ++ (comp ++ rest)) s,
      read_le32-le32 tid (comp ++ rest) t,
      some_bytes,
      room,
      take-append_left comp rest,
      drop-append_left comp rest,
      d,
      e,
    )

read_frames-Stream :
    {k : ℕ} {bytes plain : List ℕ} (fuel : ℕ) (rest others : List ℕ)
    → Stream k bytes plain
    → read_frames fuel rest ≡ some others
    → read_frames (fuel + k) (bytes ++ rest) ≡ some (plain ++ others)
read_frames-Stream fuel rest others nothing e =
    let none_left : fuel + 0 ≡ fuel = omega arith in rw none_left e
read_frames-Stream fuel rest others
      (and_frame {k} {bytes} {plain} s comp chunk size tid d pos c z t) e =
    let one_more : fuel + suc k ≡ suc fuel + k = omega arith in
    rw (one_more, append_assoc bytes (frame comp size tid) rest, append_assoc plain chunk others)
      (read_frames-Stream (suc fuel) (frame comp size tid ++ rest) (chunk ++ others) s
        (read_frames-frame fuel comp chunk rest others size tid d pos c z t e))

Stream-length : {k : ℕ} {bytes plain : List ℕ} → Stream k bytes plain → k ≤ length bytes
unfolding header le32
Stream-length nothing = omega arith
Stream-length (and_frame {k} {bytes} {plain} s comp chunk size tid d pos c z t) =
    omega (arith, Stream-length s, length-append bytes (frame comp size tid))

read_frames_end : (fuel : ℕ) → read_frames fuel [] ≡ some []
unfolding read_frames
read_frames_end fuel = refl

-- A file of frames reads back as the text of their blocks, in order.
pub read_stream-Stream :
    {k : ℕ} {bytes plain : List ℕ} → Stream k bytes plain → read_stream bytes ≡ some plain
unfolding read_stream
read_stream-Stream {k} {bytes} {plain} s =
    let fuel : length bytes ≡ length bytes - k + k = omega (arith, Stream-length s) in
    let e = read_frames-Stream (length bytes - k) [] [] s (read_frames_end _) in
    rw fuel (rw (append-nil bytes, append-nil plain) at e)

-- send_end_frame: uint32_t end_frame[3] = {0, 0, 0}
abbrev pub end_frame : List ℕ
end_frame = replicate 12 0

read_frames-end_frame : (fuel : ℕ) → read_frames (suc fuel) end_frame ≡ some []
unfolding read_frames read_le32
read_frames-end_frame fuel = refl

-- The end frame ends a stream of frames, and adds nothing to it.
pub read_stream-end_frame :
    {k : ℕ} {bytes plain : List ℕ}
    → Stream k bytes plain
    → read_stream (bytes ++ end_frame) ≡ some plain
unfolding read_stream
read_stream-end_frame {k} {bytes} {plain} s =
    let fuel : length (bytes ++ end_frame) ≡ suc (length bytes + 11 - k) + k =
      omega (arith, Stream-length s, length-append bytes end_frame) in
    let e =
      read_frames-Stream (suc (length bytes + 11 - k)) end_frame [] s (read_frames-end_frame _) in
    rw fuel (rw (append-nil plain) at e)
