-- ===== src/Lz4/Correct.antt =====
-- lz4_compress_block of trace/include/lz4_block.h as a whole: it ends on every input and for every
-- content of the table, and what it writes is a block of the input.
use android_prybar.Base.{
  ℕ, zero, suc, ◌+◌, ◌-◌, ◌/◌, ◌^◌, ◌≤◌, ◌<◌, ◌≡◌, refl, ap, ◌∙◌, subst, inl, inr, ◌||◌, Option,
  some, List, [], ◌++◌, arith, ltb, leb, IsByte, Bool-cases, length, take, All, length-take,
  take_all,
}
use android_prybar.Lz4.{
  compress_bound, HashTable, Found, hit, exhausted, sequence, Outcome, zero_returned, written,
  last_literals, Round, after_encoded, after_found, compress_loop, compress_block,
}
use android_prybar.Lz4.Format.{copy, decode}
use android_prybar.Lz4.Sequences.{sequence_bytes, last_bytes, Block, decode-Block}
use android_prybar.Lz4.Encode.{
  between, take-between, copy-take, is_full, last_literals_lem, encode_sequence_lem,
}
use android_prybar.Lz4.Reads.{Same, read32-value}
use android_prybar.Lz4.Matches.{IsFound, find_match-Finds}
use android_prybar.Lz4.Sizes.{length-extra, sequence_growth, not_full, length-last, length-sequence}

-- What an outcome means for the input `src` and a buffer of `max_out` bytes.
abbrev pub IsCompressed : List ℕ → ℕ → Outcome → Type 0
IsCompressed src max_out (zero_returned htab) = max_out < compress_bound (length src)
IsCompressed src max_out (written out htab) =
    (decode out ≡ some src)
    × (length out ≤ max_out + 1)
    × (length out ≤ compress_bound (length src))

abbrev pub Compresses : List ℕ → ℕ → Option Outcome → Type 0
Compresses src max_out r =
    (outcome : Outcome) × (r ≡ some outcome) × IsCompressed src max_out outcome

-- The sequences so far: what they stand for, and their size.
record Progresses (src out : List ℕ) (anchor : ℕ) : Type 0 where
  count : ℕ
  block : Block count out (take anchor src)
  size : length out ≤ anchor + anchor / 255
  within : anchor ≤ length src

module _ (src : List ℕ) (bytes : All IsByte src) (small : length src < 2 ^ 31) (max_out : ℕ) where
  last_literals-Compresses :
      (out : List ℕ) (anchor : ℕ) (htab : HashTable)
      → Progresses src out anchor
      → Compresses src max_out (last_literals src (length src) max_out out anchor htab)
  last_literals-Compresses out anchor htab p =
      let run = length src - anchor in
      let e' = last_literals_lem src max_out out small anchor htab p.within in
      elim (Bool-cases (ltb max_out (length out + run + 1 + run / 255))) [
        | inl e ↦ (zero_returned htab, rw (e', e), ground (arith, p.size))
        | inr e ↦ (
          written (out ++ last_bytes (between src anchor (length src))) htab,
          rw (e', e),
          (
            decode-Block p.block (between src anchor (length src))
                ∙ ap some
                    (take-between src anchor (length src) p.within ∙ take_all _ src (omega arith)),
            ground (arith, length-last src out anchor, length-extra run),
            ground (arith, length-last src out anchor, length-extra run, p.size),
          ),
        )
      ]

  -- A sequence that was written belongs to the block of the input.
  sequence-Progresses :
      (out : List ℕ) (anchor ip ref ml : ℕ)
      → Progresses src out anchor
      → anchor ≤ ip
      → ref < ip
      → ip + 4 + ml ≤ length src
      → Same src ip ref (4 + ml)
      → Progresses src (out ++ sequence_bytes (between src anchor ip) (ip - ref) ml) (ip + 4 + ml)
  sequence-Progresses out anchor ip ref ml p h before room same = record {
    count = suc p.count;
    block =
        subst (Block (suc p.count) (out ++ sequence_bytes (between src anchor ip) (ip - ref) ml))
          copied
          (Block.add p.block (between src anchor ip) (ip - ref) ml (omega arith)
            (rw (take-between src anchor ip h) (omega (arith, length-take ip src))));
    size =
        let growth = sequence_growth (length out) anchor (ip - anchor) ml p.size in
        let end : anchor + (ip - anchor) + 4 + ml ≡ ip + 4 + ml = omega arith in
        rw (length-sequence src out anchor ip (ip - ref) ml (omega arith)) (rw end at growth);
    within = room;
  }
    where
      copied :
          copy (ml + 4) (ip - ref) (take anchor src ++ between src anchor ip)
          ≡ take (ip + 4 + ml) src
      copied =
          let n : ml + 4 ≡ 4 + ml = omega arith in
          let end : ip + (4 + ml) ≡ ip + 4 + ml = omega arith in
          let back : ip - (ip - ref) ≡ ref = omega arith in
          rw (take-between src anchor ip h, n, ← end)
            (copy-take src (4 + ml) ip (ip - ref) (omega arith) (omega arith) (omega arith)
              (rw back same))

  -- A round goes on with a longer block.
  abbrev Continues : ℕ → Round → Type 0
  Continues ip next =
      (out : List ℕ) (end : ℕ) (htab : HashTable)
      → ip < end
      → end ≤ length src
      → Progresses src out end
      → Compresses src max_out (next out end htab)

  after_sequence-Compresses :
      (out : List ℕ) (ip end : ℕ) (htab : HashTable) (next : Round)
      → 2 ≤ end
      → ip < end
      → Progresses src out end
      → Continues ip next
      → Compresses src max_out (after_encoded src (length src) max_out htab next (sequence end out))
  unfolding after_encoded
  after_sequence-Compresses out ip end htab next two later p go =
      elim (Bool-cases (leb (length src - 12) end)) [
        | inl e ↦ rw e (last_literals-Compresses out end htab p)
        | inr e ↦ rw (e, read32-value src (end - 2) (ground arith)) (go out end _ later p.within p)
      ]

  after_found-Compresses :
      (out : List ℕ) (anchor from : ℕ) (next : Round)
      → anchor ≤ from
      → Progresses src out anchor
      → Continues from next
      → (found : Found) → IsFound src from found
      → Compresses src max_out (after_found src (length src) max_out out anchor next found)
  unfolding after_found
  after_found-Compresses out anchor from next a p go (exhausted htab) q =
      last_literals-Compresses out anchor htab p
  after_found-Compresses out anchor from next a p go (hit ip ref htab) q =
      let (ml, e, room, same) =
        encode_sequence_lem src max_out out small anchor ip ref bytes (omega arith) q.1 q.2 q.3
          q.4 in
      elim (Bool-cases (is_full max_out out (ip - anchor) ml)) [
        | inl full_now ↦
            rw (e, full_now)
              (
                zero_returned htab,
                unfold after_encoded in refl,
                not_full max_out out anchor (ip - anchor) ml (length src) p.size (omega arith)
                    full_now,
              )
        | inr fits ↦
            rw (e, fits)
              (after_sequence-Compresses
                (out ++ sequence_bytes (between src anchor ip) (ip - ref) ml) from (ip + 4 + ml)
                htab next (omega arith) (omega arith)
                (sequence-Progresses out anchor ip ref ml p (omega arith) q.2 (omega arith) same)
                go)
      ]

  compress_loop-Compresses :
      13 ≤ length src
      → (fuel : ℕ) (out : List ℕ) (anchor ip : ℕ) (htab : HashTable) → length src < ip + fuel
      → ip ≤ length src
      → anchor ≤ ip
      → Progresses src out anchor
      → Compresses src max_out (compress_loop fuel src (length src) max_out out anchor ip htab)
  unfolding compress_loop
  compress_loop-Compresses big zero out anchor ip htab f h a p = absurd (omega arith)
  compress_loop-Compresses big (suc fuel) out anchor ip htab f h a p =
      let (found, e, q) =
        find_match-Finds src bytes big small (suc (length src)) ip 1 64 htab (omega arith)
          (omega arith) (omega arith) (omega arith) h in
      rw e (
        after_found-Compresses out anchor ip _ a p
          (λ out' end htab' later inside p'.
            compress_loop-Compresses big fuel out' end end htab' (omega arith) inside (omega arith)
              p')
          found q)

  start_Progresses : Progresses src [] 0
  start_Progresses = record {
    count = 0;
    block = Block.start;
    size = omega arith;
    within = omega arith;
  }

  -- On every input of bytes that is not empty and shorter than 2^31, whatever the table holds and however small the output buffer, the
  -- compressor ends without reading outside the input. It returns 0 only if the buffer is smaller
  -- than `lz4_compress_bound` says; otherwise what it wrote decodes to the input, and is at most
  -- one byte longer than the buffer and within that bound.
  pub compress_block-Compresses :
      (htab : HashTable) → 0 < length src → Compresses src max_out (compress_block htab src max_out)
  unfolding compress_block
  compress_block-Compresses htab nonempty =
      elim (Bool-cases (leb (length src) 0 || leb max_out 0)) [
        | inl e ↦ rw e (zero_returned htab, refl, ground arith)
        | inr e ↦ elim (Bool-cases (ltb (length src) 13)) [
          | inl few ↦ rw (e, few) (last_literals-Compresses [] 0 htab start_Progresses)
          | inr many ↦
              rw (e, many, read32-value src 0 (ground arith))
                (compress_loop-Compresses (ground arith) (suc (length src)) [] 0 1 _ (omega arith)
                  (omega arith) (omega arith) start_Progresses)
        ]
      ]
