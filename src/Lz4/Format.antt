-- ===== src/Lz4/Format.antt =====
-- The LZ4 block format that trace/include/lz4_block.h writes: how a block is read back.
use android_prybar.Base.{
  ℕ, zero, suc, ◌+◌, ◌-◌, ◌*◌, ◌/◌, ◌%◌, Option, none, some, List, [], ◌∷◌, ◌++◌, ltb, leb, ◌==◌,
  ◌||◌, if◌then◌else◌, ◌>>=◌, length, get_or, take, drop,
}

-- A length of 15 or more goes on in bytes, the last of which is not 255.
unfoldable pub read_extra : List ℕ → ℕ → Option (ℕ × List ℕ)
read_extra [] n = none
read_extra (b ∷ rest) n =
    let further = read_extra rest (n + 255) in if b == 255 then further else some (n + b, rest)

unfoldable pub read_length : ℕ → List ℕ → Option (ℕ × List ℕ)
read_length n rest = if n == 15 then read_extra rest 15 else some (n, rest)

unfoldable pub split_at : ℕ → List ℕ → Option (List ℕ × List ℕ)
split_at n bytes = if leb n (length bytes) then some (take n bytes, drop n bytes) else none

-- A match is copied byte by byte: it may reach into what it writes itself.
unfoldable pub copy : ℕ → ℕ → List ℕ → List ℕ
copy zero offset plain = plain
copy (suc n) offset plain = copy n offset (plain ++ (get_or plain (length plain - offset) 0 ∷ []))

pub data Progress : Type 0 where
  ended : List ℕ → Progress
  more : List ℕ → List ℕ → Progress

-- The last sequence has no match. `none` is a block that is cut off or that reaches too far back.
unfoldable pub decode_match : ℕ → List ℕ → List ℕ → Option Progress
decode_match token [] plain = some (ended plain)
decode_match token (lo ∷ []) plain = none
decode_match token (lo ∷ hi ∷ bytes) plain =
    let offset = lo + 256 * hi in
    let rest = (do
      (ml, after) ← read_length (token % 16) bytes
      some (more after (copy (ml + 4) offset plain))) in
    if offset == 0 || ltb (length plain) offset then none else rest

unfoldable pub decode_sequence : List ℕ → List ℕ → Option Progress
decode_sequence [] plain = none
decode_sequence (token ∷ bytes) plain = do
  (lit_len, after) ← read_length (token / 16) bytes
  (literals, rest) ← split_at lit_len after
  decode_match token rest (plain ++ literals)

unfoldable pub decode_loop : ℕ → List ℕ → List ℕ → Option (List ℕ)
decode_loop zero bytes plain = none
decode_loop (suc fuel) bytes plain = do
  progress ← decode_sequence bytes plain
  elim progress [ ended result ↦ some result | more rest plain' ↦ decode_loop fuel rest plain' ]

-- Every sequence takes a byte at least, so the block's length bounds the rounds.
unfoldable pub decode : List ℕ → Option (List ℕ)
decode bytes = decode_loop (length bytes) bytes []
