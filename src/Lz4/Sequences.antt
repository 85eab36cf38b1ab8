-- ===== src/Lz4/Sequences.antt =====
-- What `encode_sequence` and `last_literals` write is read back by the block format's decoder.
use android_prybar.Base.{
  ℕ, zero, suc, ◌+◌, ◌-◌, ◌*◌, ◌/◌, ◌%◌, ◌≤◌, ◌<◌, ◌≡◌, refl, ap, ◌∙◌, bit_or, some, List, [], ◌∷◌,
  ◌++◌, append_assoc, append-nil, arith, length, length-append, take-append_left, drop-append_left,
  le→leb,
}
use android_prybar.Base.Bits.{bit_or_nibbles}
use android_prybar.Lz4.{length_bytes, nibble, extra}
use android_prybar.Lz4.Format.{
  read_extra, read_length, split_at, copy, more, ended, decode_match, decode_sequence, decode_loop,
  decode,
}

abbrev pub token : ℕ → ℕ → ℕ
token lit_len ml = bit_or (nibble lit_len * 16 % 256) (nibble ml)

abbrev pub sequence_bytes : List ℕ → ℕ → ℕ → List ℕ
sequence_bytes literals offset ml =
    token (length literals) ml
    ∷ ((extra (length literals) ++ (literals ++ ((offset % 256) ∷ (offset / 256) ∷ [])))
        ++ extra ml)

abbrev pub last_bytes : List ℕ → List ℕ
last_bytes literals = (nibble (length literals) * 16 % 256) ∷ (extra (length literals) ++ literals)

read_extra-length_bytes :
    (fuel n acc : ℕ) (rest : List ℕ)
    → n ≤ fuel
    → read_extra (length_bytes fuel n ++ rest) acc ≡ some (acc + n, rest)
unfolding read_extra length_bytes
read_extra-length_bytes zero n acc rest h = ground arith
read_extra-length_bytes (suc fuel) n acc rest h =
    ground (arith, read_extra-length_bytes fuel (n - 255) (acc + 255) rest)

read_length-extra :
    (n : ℕ) (rest : List ℕ) → read_length (nibble n) (extra n ++ rest) ≡ some (n, rest)
unfolding read_length extra nibble
read_length-extra n rest = ground (arith, read_extra-length_bytes (n - 15) (n - 15) 15 rest)

nibble-lt : (n : ℕ) → nibble n < 16
unfolding nibble
nibble-lt n = ground arith

token_halves : (l m : ℕ) → (token l m / 16 ≡ nibble l) × (token l m % 16 ≡ nibble m)
token_halves l m = omega (
  arith,
  nibble-lt l,
  nibble-lt m,
  bit_or_nibbles (nibble l) (nibble m) (nibble-lt l) (nibble-lt m),
  ap (λ (t : ℕ). bit_or t (nibble m)) (fits),
)
  where
    fits : nibble l * 16 % 256 ≡ nibble l * 16
    fits = omega (arith, nibble-lt l)

split_at-append : (xs ys : List ℕ) → split_at (length xs) (xs ++ ys) ≡ some (xs, ys)
unfolding split_at
split_at-append xs ys = rw (
  le→leb (length xs) (length (xs ++ ys)) (omega (arith, length-append xs ys)),
  take-append_left xs ys,
  drop-append_left xs ys,
)

read_match :
    (t ml offset : ℕ) (plain rest : List ℕ)
    → t % 16 ≡ nibble ml
    → 0 < offset
    → offset ≤ length plain
    → decode_match t ((offset % 256) ∷ (offset / 256) ∷ (extra ml ++ rest)) plain
      ≡ some (more rest (copy (ml + 4) offset plain))
unfolding decode_match
read_match t ml offset plain rest e p q =
    let whole : offset % 256 + 256 * (offset / 256) ≡ offset = omega arith in
    rw (whole, e, read_length-extra ml rest) (ground arith)

-- One sequence is read back: the literals, then a copy of at least four bytes from `offset` back.
pub decode_sequence-sequence_bytes :
    (literals plain rest : List ℕ) (offset ml : ℕ)
    → 0 < offset
    → offset ≤ length (plain ++ literals)
    → decode_sequence (sequence_bytes literals offset ml ++ rest) plain
      ≡ some (more rest (copy (ml + 4) offset (plain ++ literals)))
unfolding decode_sequence
decode_sequence-sequence_bytes literals plain rest offset ml p q =
    let (hi, lo) = token_halves (length literals) ml in
    rw
      (
        hi,
        append_assoc (extra (length literals) ++ (literals ++ after)) (extra ml) rest,
        append_assoc (extra (length literals)) (literals ++ after) (extra ml ++ rest),
        append_assoc literals after (extra ml ++ rest),
        read_length-extra (length literals) (literals ++ (after ++ (extra ml ++ rest))),
        split_at-append literals (after ++ (extra ml ++ rest)),
      )
      (read_match _ ml offset (plain ++ literals) rest lo p q)
  where
    after : List ℕ
    after = (offset % 256) ∷ (offset / 256) ∷ []

-- The last literals end the block.
pub decode_sequence-last_bytes :
    (literals plain : List ℕ)
    → decode_sequence (last_bytes literals) plain ≡ some (ended (plain ++ literals))
unfolding decode_sequence
decode_sequence-last_bytes literals plain =
    let hi : nibble (length literals) * 16 % 256 / 16 ≡ nibble (length literals) =
      omega (arith, nibble-lt (length literals)) in
    let whole : split_at (length literals) literals ≡ some (literals, []) =
      rw append-nil at (split_at-append literals []) in
    rw (hi, read_length-extra (length literals) literals, whole) (unfold decode_match in refl)

-- The bytes of `k` whole sequences, and the plain text that they stand for.
pub data Block : ℕ → List ℕ → List ℕ → Type 0 where
  start : Block 0 [] []
  add :
      {k : ℕ} {bytes plain : List ℕ}
      → Block k bytes plain
      → (literals : List ℕ) (offset ml : ℕ) → 0 < offset
      → offset ≤ length (plain ++ literals)
      → Block
          (suc k)
          (bytes ++ sequence_bytes literals offset ml)
          (copy (ml + 4) offset (plain ++ literals))

decode_loop_step :
    (fuel : ℕ) (bytes plain rest plain' : List ℕ)
    → decode_sequence bytes plain ≡ some (more rest plain')
    → decode_loop (suc fuel) bytes plain ≡ decode_loop fuel rest plain'
unfolding decode_loop
decode_loop_step fuel bytes plain rest plain' e = rw e

decode_loop_end :
    (fuel : ℕ) (bytes plain result : List ℕ)
    → decode_sequence bytes plain ≡ some (ended result)
    → decode_loop (suc fuel) bytes plain ≡ some result
unfolding decode_loop
decode_loop_end fuel bytes plain result e = rw e

decode_loop-Block :
    {k : ℕ} {bytes plain : List ℕ} (fuel : ℕ) (rest : List ℕ)
    → Block k bytes plain
    → decode_loop (fuel + k) (bytes ++ rest) [] ≡ decode_loop fuel rest plain
decode_loop-Block fuel rest start = let none_left : fuel + 0 ≡ fuel = omega arith in rw none_left
decode_loop-Block fuel rest (add {k} {bytes} {plain} block literals offset ml p q) =
    let one_more : fuel + suc k ≡ suc fuel + k = omega arith in
    rw (one_more, append_assoc bytes (sequence_bytes literals offset ml) rest)
      (decode_loop-Block (suc fuel) (sequence_bytes literals offset ml ++ rest) block
        ∙ decode_loop_step fuel _ plain rest _
            (decode_sequence-sequence_bytes literals plain rest offset ml p q))

Block_length : {k : ℕ} {bytes plain : List ℕ} → Block k bytes plain → k ≤ length bytes
Block_length start = omega arith
Block_length (add {k} {bytes} {plain} block literals offset ml p q) =
    omega (arith, Block_length block, length-append bytes (sequence_bytes literals offset ml))

-- Sequences and then last literals make a block that decodes to the text of both.
pub decode-Block :
    {k : ℕ} {bytes plain : List ℕ}
    → Block k bytes plain
    → (literals : List ℕ) → decode (bytes ++ last_bytes literals) ≡ some (plain ++ literals)
unfolding decode
decode-Block {k} {bytes} {plain} block literals =
    let size : length (bytes ++ last_bytes literals)
        ≡ suc (length bytes + length (extra (length literals) ++ literals) - k) + k =
      omega (arith, Block_length block, length-append bytes (last_bytes literals)) in
    rw size (
      decode_loop-Block _ (last_bytes literals) block
      ∙ decode_loop_end _ _ plain _ (decode_sequence-last_bytes literals plain))
