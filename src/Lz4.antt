-- ===== src/Lz4.antt =====
-- trace/include/lz4_block.h: the block compressor. A pointer into the input is its offset from
-- `base`, and the output is the list of the bytes before `op`. `none` is what the C++ does not
-- define: a read outside the input, or a loop that has used up its fuel.
pub mod Format
pub mod Sequences
pub mod Reads
pub mod Matches
pub mod Encode
pub mod Sizes
pub mod Correct
pub mod Overrun
mod Runs
use android_prybar.Base.{
  ℕ, zero, suc, ◌+◌, ◌-◌, ◌*◌, ◌/◌, ◌%◌, ◌^◌, bit_or, bit_xor, Option, none, some, List, [], ◌∷◌,
  ◌++◌, ◌&&◌, ◌||◌, ltb, leb, ◌==◌, if◌then◌else◌, ◌>>=◌, u16, u32, length, get_elem?, take, drop,
}
use android_prybar.Base.Bits.{ctz}

-- lz4_compress_bound
abbrev pub compress_bound : ℕ → ℕ
compress_bound n = n + n / 255 + 16

-- The table of candidates. It lives as long as its thread and is never cleared.
abbrev pub HashTable : Type 0
HashTable = ℕ → ℕ

pub update : HashTable → ℕ → ℕ → HashTable
update htab h v i = if i == h then v else htab i

-- lz4_read32 and lz4_read64, little-endian.
pub read32 : List ℕ → ℕ → Option ℕ
read32 src i = do
  a ← get_elem? src i
  b ← get_elem? src (i + 1)
  c ← get_elem? src (i + 2)
  d ← get_elem? src (i + 3)
  some (a + 2 ^ 8 * b + 2 ^ 16 * c + 2 ^ 24 * d)

pub read64 : List ℕ → ℕ → Option ℕ
read64 src i = do lo ← read32 src i; hi ← read32 src (i + 4); some (lo + 2 ^ 32 * hi)

-- memcpy out of the input
pub slice : List ℕ → ℕ → ℕ → Option (List ℕ)
slice src i n = if leb (i + n) (length src) then some (take n (drop i src)) else none

pub hash4 : ℕ → ℕ
hash4 v = u32 (v * 2654435761) / 2 ^ 16

pub data Found : Type 0 where
  hit : ℕ → ℕ → HashTable → Found
  exhausted : HashTable → Found

-- The do-while loop that looks for a match, with its accelerating step. `||` tests from the left:
-- a candidate is read only if it lies before `ip`.
pub find_match : ℕ → List ℕ → ℕ → ℕ → ℕ → ℕ → HashTable → Option Found
find_match zero src mflimit fwd step search_limit htab = none
find_match (suc fuel) src mflimit fwd step search_limit htab =
    let ip = fwd in
    if ltb mflimit (fwd + step) then some (exhausted htab) else do
      v ← read32 src ip
      let cand = htab (hash4 v)
      let htab' = update htab (hash4 v) (u32 ip)
      let again =
          find_match fuel src mflimit (fwd + step) (search_limit / 2 ^ 6) (u32 (search_limit + 1))
            htab'
      let checked = (do
        r ← read32 src cand
        if r == v && leb (ip - cand) 0xffff then some (hit ip cand htab') else again)
      if ltb cand (u32 ip) then checked else again

-- `while (ip < matchlimit && *ip == *ref) { ip++; ref++; }`
pub extend_bytes : ℕ → List ℕ → ℕ → ℕ → ℕ → Option ℕ
extend_bytes zero src matchlimit ip ref = none
extend_bytes (suc fuel) src matchlimit ip ref =
    let body = (do
      a ← get_elem? src ip
      b ← get_elem? src ref
      let further = extend_bytes fuel src matchlimit (ip + 1) (ref + 1)
      if a == b then further else some ip) in
    if ltb ip matchlimit then body else some ip

-- The eight-byte loop above it; the result is `ip` at `_encode_ml`.
pub extend_match : ℕ → List ℕ → ℕ → ℕ → ℕ → Option ℕ
extend_match zero src matchlimit ip ref = none
extend_match (suc fuel) src matchlimit ip ref =
    let body = (do
      a ← read64 src ip
      b ← read64 src ref
      let diff = bit_xor a b
      let further = extend_match fuel src matchlimit (ip + 8) (ref + 8)
      if diff == 0 then further else some (ip + ctz 64 diff / 2 ^ 3)) in
    if leb (ip + 8) matchlimit then body else extend_bytes (suc matchlimit) src matchlimit ip ref

-- `for (; n >= 255; n -= 255) *op++ = 255; *op++ = (uint8_t)n;` in at most `fuel` rounds.
pub length_bytes : ℕ → ℕ → List ℕ
length_bytes zero n = (n % 256) ∷ []
length_bytes (suc fuel) n =
    let rest = length_bytes fuel (n - 255) in if leb 255 n then 255 ∷ rest else (n % 256) ∷ []

-- A length's half of the token, and the bytes that follow where it is 15 or more.
pub nibble : ℕ → ℕ
nibble n = if leb 15 n then 15 else n

pub extra : ℕ → List ℕ
extra n = if leb 15 n then length_bytes (n - 15) (n - 15) else []

pub data Encoded : Type 0 where
  full : Encoded
  sequence : ℕ → List ℕ → Encoded

-- One sequence: literals from `anchor` to `ip`, then the match of `ip` with `ref`. `full` is the
-- `return 0` of either test of the room left; `sequence` has the new `ip` and the output.
pub encode_sequence : List ℕ → ℕ → ℕ → List ℕ → ℕ → ℕ → ℕ → Option Encoded
encode_sequence src matchlimit max_out out anchor ip ref =
    let lit_len = u32 (ip - anchor) in
    if ltb max_out (length out + 1 + lit_len + lit_len / 255 + 16) then some full else do
      literals ← slice src anchor lit_len
      let offset = u16 (ip - ref)
      end ← extend_match (suc matchlimit) src matchlimit (ip + 4) (ref + 4)
      let ml = u32 (end - (ip + 4))
      let token = bit_or (nibble lit_len * 16 % 256) (nibble ml)
      let head = extra lit_len ++ (literals ++ ((offset % 256) ∷ (offset / 256) ∷ []))
      if leb 15 ml && ltb max_out (length out + 1 + length head + (ml - 15) / 255 + 2)
          then some full
          else some (sequence end (out ++ (token ∷ (head ++ extra ml))))

-- What `lz4_compress_block` leaves: the bytes written and the table, or a result of 0.
pub data Outcome : Type 0 where
  zero_returned : HashTable → Outcome
  written : List ℕ → HashTable → Outcome

pub last_literals : List ℕ → ℕ → ℕ → List ℕ → ℕ → HashTable → Option Outcome
last_literals src src_size max_out out anchor htab =
    let last_run = u32 (src_size - anchor) in
    if ltb max_out (length out + last_run + 1 + last_run / 255)
    then some (zero_returned htab)
    else do
      literals ← slice src anchor last_run
      let token = nibble last_run * 16 % 256
      some (written (out ++ (token ∷ (extra last_run ++ literals))) htab)

-- The end of a round: `next` is the round after it, with the output, `anchor` (also `ip`) and the
-- table.
abbrev pub Round : Type 0
Round = List ℕ → ℕ → HashTable → Option Outcome

pub after_encoded : List ℕ → ℕ → ℕ → HashTable → Round → Encoded → Option Outcome
after_encoded src src_size max_out htab next full = some (zero_returned htab)
after_encoded src src_size max_out htab next (sequence end out) =
    let further = (do
      v ← read32 src (end - 2)
      next out end (update htab (hash4 v) (u32 (end - 2)))) in
    if leb (src_size - 12) end then last_literals src src_size max_out out end htab else further

pub after_found : List ℕ → ℕ → ℕ → List ℕ → ℕ → Round → Found → Option Outcome
after_found src src_size max_out out anchor next (exhausted htab) =
    last_literals src src_size max_out out anchor htab
after_found src src_size max_out out anchor next (hit ip ref htab) = do
  encoded ← encode_sequence src (src_size - 5) max_out out anchor ip ref
  after_encoded src src_size max_out htab next encoded

-- The outer loop, from the top of a round.
pub compress_loop : ℕ → List ℕ → ℕ → ℕ → List ℕ → ℕ → ℕ → HashTable → Option Outcome
compress_loop zero src src_size max_out out anchor ip htab = none
compress_loop (suc fuel) src src_size max_out out anchor ip htab = do
  found ← find_match (suc src_size) src (src_size - 12) ip 1 64 htab
  let next = λ (out' : List ℕ) (end : ℕ) (htab' : HashTable).
      compress_loop fuel src src_size max_out out' end end htab'
  after_found src src_size max_out out anchor next found

-- lz4_compress_block(src, dst, srcSize, maxOut), where srcSize is the length of the list. The
-- differences from the end of the input that `mflimit` and `matchlimit` stand for are used only
-- where srcSize is 13 or more.
pub compress_block : HashTable → List ℕ → ℕ → Option Outcome
compress_block htab src max_out =
    let src_size = length src in
    let short = last_literals src src_size max_out [] 0 htab in
    let long = (do
      v ← read32 src 0
      compress_loop (suc src_size) src src_size max_out [] 0 1 (update htab (hash4 v) 0)) in
    if leb src_size 0 || leb max_out 0
    then some (zero_returned htab)
    else if ltb src_size 13
    then short
    else long
