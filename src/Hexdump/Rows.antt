-- ===== src/Hexdump/Rows.antt =====
-- What trace/Utils/hexdump.cpp prints.
use android_prybar.Base.{
  ℕ, zero, suc, ◌+◌, ◌-◌, ◌≤◌, ◌<◌, ◌≡◌, refl, sym, ap, ◌∙◌, inl, inr, none, some, List, [], ◌∷◌,
  ◌++◌, append-nil, append_assoc, arith, ltb, ◌==◌, if◌then◌else◌, ltb→lt, ltb_false→le,
  le→ltb_false, ==_iff, Bool-cases, length, take, drop, length-append, length-take, length-drop,
  take_all, drop_all, take-take, drop-take, drop-drop, take-append_within, take-append_short,
}
use android_prybar.Hexdump.{line_text, dump_loop, hexdump_to_buffer}

-- The dump of `rest`, which begins at `offset`, in rows of 16 bytes, at most `n` of them.
unfoldable pub rows : ℕ → ℕ → List ℕ → List ℕ
rows zero offset rest = []
rows (suc n) offset [] = []
rows (suc n) offset (b ∷ rest) =
    line_text offset (take 16 (b ∷ rest)) ++ rows n (offset + 16) (drop 16 (b ∷ rest))

rows-nothing : (n offset : ℕ) → rows n offset [] ≡ []
unfolding rows
rows-nothing zero offset = refl
rows-nothing (suc n) offset = refl

rows-suc :
    (n offset : ℕ) (rest : List ℕ)
    → 0 < length rest
    → rows (suc n) offset rest
      ≡ line_text offset (take 16 rest) ++ rows n (offset + 16) (drop 16 rest)
unfolding rows
rows-suc n offset [] h = absurd (omega arith)
rows-suc n offset (b ∷ rest) h = refl

-- The bytes from `offset` to `size`.
abbrev pub between : List ℕ → ℕ → ℕ → List ℕ
between bytes offset size = take (size - offset) (drop offset bytes)

-- The rest after one row.
rows-next :
    (n offset size chunk : ℕ) (bytes : List ℕ)
    → size ≤ length bytes
    → offset < size
    → chunk ≡ (if ltb 16 (size - offset) then 16 else size - offset)
    → (take chunk (drop offset bytes) ≡ take 16 (between bytes offset size))
      × (rows n (offset + chunk) (between bytes (offset + chunk) size)
          ≡ rows n (offset + 16) (drop 16 (between bytes offset size)))
rows-next n offset size chunk bytes fits inside e = elim (Bool-cases (ltb 16 (size - offset))) [
  | inl l ↦
      let sixteen : chunk ≡ 16 = e ∙ rw l in
      let more = ltb→lt _ _ l in
      let left : size - (offset + 16) ≡ size - offset - 16 = omega arith in
      rw sixteen (
        sym (take-take 16 (size - offset) (drop offset bytes) (omega (arith, more))),
        ap (rows n (offset + 16)) (
            rw (drop-take 16 (size - offset) (drop offset bytes), drop-drop 16 offset bytes, left)),
      )
  | inr l ↦
      let all : chunk ≡ size - offset = e ∙ rw l in
      let few = ltb_false→le _ _ l in
      let left : size - (offset + (size - offset)) ≡ 0 = omega arith in
      let short : length (between bytes offset size) ≤ 16 =
        omega (arith, few, length-take (size - offset) (drop offset bytes)) in
      rw all (
        sym (take_all 16 (between bytes offset size) short),
        rw (left, drop_all 16 (between bytes offset size) short, rows-nothing n (offset + 16))
            (rows-nothing n (offset + (size - offset))),
      )
]

chunk_bounds :
    (offset size chunk : ℕ)
    → offset < size
    → chunk ≡ (if ltb 16 (size - offset) then 16 else size - offset)
    → (0 < chunk) × (offset + chunk ≤ size)
chunk_bounds offset size chunk inside e = elim (Bool-cases (ltb 16 (size - offset))) [
  | inl l ↦
      let sixteen : chunk ≡ 16 = e ∙ rw l in
      (omega (arith, sixteen), omega (arith, sixteen, ltb→lt _ _ l))
  | inr l ↦ let all : chunk ≡ size - offset = e ∙ rw l in (omega (arith, all), omega (arith, all))
]

cut_text :
    (outcap : ℕ) (out line more : List ℕ)
    → length out + 1 ≤ outcap
    → outcap < length out + length line + 1
    → out ++ take (outcap - length out - 1) line ≡ take (outcap - 1) (out ++ (line ++ more))
cut_text outcap out line more room full =
    let n = outcap - length out - 1 in
    let all : outcap - 1 ≡ length out + n = omega arith in
    rw all (
      ap (λ xs. out ++ xs) (sym (take-append_short n line more (omega arith)))
      ∙ sym (take-append_within out (line ++ more) n))

-- One round, with what `chunk` is and the lemma for the rounds after it.
dump_round :
    (fuel size outcap offset : ℕ) (bytes out : List ℕ) (chunk : ℕ)
    → size ≤ length bytes
    → offset < size
    → size - offset < suc fuel
    → length out + 1 ≤ outcap
    → chunk ≡ (if ltb 16 (size - offset) then 16 else size - offset)
    → ((offset' : ℕ) (bytes' out' : List ℕ)
        → size ≤ length bytes'
        → size - offset' < fuel
        → length out' + 1 ≤ outcap
        → dump_loop fuel bytes' size outcap offset' out'
          ≡ some (take (outcap - 1) (out' ++ rows fuel offset' (between bytes' offset' size))))
    → (let line = line_text offset (take chunk (drop offset bytes)) in
        if ltb (length bytes) (offset + chunk)
        then none
        else if ltb outcap (length out + length line + 1)
        then some (out ++ take (outcap - length out - 1) line)
        else dump_loop fuel bytes size outcap (offset + chunk) (out ++ line))
      ≡ some (take (outcap - 1) (out ++ rows (suc fuel) offset (between bytes offset size)))
dump_round fuel size outcap offset bytes out chunk fits inside f room e ih =
    let part = between bytes offset size in
    let line = line_text offset (take chunk (drop offset bytes)) in
    let more = rows fuel (offset + chunk) (between bytes (offset + chunk) size) in
    let (low, high) = chunk_bounds offset size chunk inside e in
    let (same, next) = rows-next fuel offset size chunk bytes fits inside e in
    let long : 0 < length part =
      omega (arith, length-take (size - offset) (drop offset bytes), length-drop offset bytes) in
    let whole : rows (suc fuel) offset part ≡ line ++ more =
      rows-suc fuel offset part long ∙ sym (rw (same, next)) in
    let inside_bytes = le→ltb_false (length bytes) (offset + chunk) (omega (arith, high)) in
    elim (Bool-cases (ltb outcap (length out + length line + 1))) [
      | inl o ↦
          let full = ltb→lt _ _ o in
          rw (inside_bytes, o, whole)
            (ap some (cut_text outcap out line more room (omega (arith, full))))
      | inr o ↦
          let fits_out = ltb_false→le _ _ o in
          let later =
            ih (offset + chunk) bytes (out ++ line) fits (omega (arith, low))
              (omega (arith, length-append out line, fits_out)) in
          rw (inside_bytes, o, whole)
            (later ∙ ap (λ xs. some (take (outcap - 1) xs)) (append_assoc out line more))
    ]

dump_loop_lem :
    (fuel size outcap offset : ℕ) (bytes out : List ℕ)
    → size ≤ length bytes
    → size - offset < fuel
    → length out + 1 ≤ outcap
    → dump_loop fuel bytes size outcap offset out
      ≡ some (take (outcap - 1) (out ++ rows fuel offset (between bytes offset size)))
unfolding dump_loop
dump_loop_lem zero size outcap offset bytes out fits f room = absurd (omega arith)
dump_loop_lem (suc fuel) size outcap offset bytes out fits f room =
    elim (Bool-cases (ltb offset size)) [
      | inl e ↦ rw e (
          dump_round fuel size outcap offset bytes out _ fits (ltb→lt _ _ e) f room refl
            (dump_loop_lem fuel size outcap))
      | inr e ↦
          let done : size - offset ≡ 0 = omega (arith, ltb_false→le _ _ e) in
          rw (e, done, rows-nothing (suc fuel) offset, append-nil out)
            (ap some (sym (take_all (outcap - 1) out (omega arith))))
    ]

-- Where the data has at least `size` bytes and the buffer room for a terminator, the dump ends and
-- reads no byte behind the data, and the buffer holds the rows of the bytes from `addr` to `size`, up
-- to `outcap - 1` characters.
pub hexdump_to_buffer-rows :
    (addr size outcap : ℕ) (bytes : List ℕ)
    → size ≤ length bytes
    → 0 < outcap
    → hexdump_to_buffer addr bytes size outcap
      ≡ some (take (outcap - 1) (rows (suc size) addr (between bytes addr size)))
unfolding hexdump_to_buffer
hexdump_to_buffer-rows addr size outcap bytes fits room = elim (Bool-cases (outcap == 0)) [
  | inl e ↦ absurd (omega (arith, (==_iff outcap 0).0 e))
  | inr e ↦
      rw e (dump_loop_lem (suc size) size outcap addr bytes [] fits (omega arith) (omega arith))
]
