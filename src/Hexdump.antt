-- ===== src/Hexdump.antt =====
-- trace/Utils/hexdump.cpp. `none` is a read behind the end of the data, or a loop that has used up
-- its fuel.
pub mod Rows
mod Runs
use android_prybar.Base.{
  ℕ, zero, suc, ◌+◌, ◌-◌, ◌*◌, ◌/◌, ◌%◌, ◌&&◌, Option, none, some, List, [], ◌∷◌, ◌++◌, ltb, leb,
  ◌==◌, if◌then◌else◌, u32, length, get_or, take, drop, replicate, bytes_of,
}

-- hexUpper[d]
pub hex_upper : ℕ → ℕ
hex_upper d = get_or (bytes_of "0123456789ABCDEF") d 0

-- `for (int k = 7; k >= 0; k--) { line[k] = hexUpper[a & 0xF]; a >>= 4; }`
pub address_digits : ℕ → ℕ → List ℕ
address_digits zero a = []
address_digits (suc k) a = address_digits k (a / 16) ++ (hex_upper (a % 16) ∷ [])

pub byte_columns : List ℕ → List ℕ
byte_columns [] = []
byte_columns (b ∷ rest) = hex_upper (b / 16) ∷ hex_upper (b % 16) ∷ b' ' ∷ byte_columns rest

-- (c >= 32 && c < 127) ? (char)c : '.'
pub char_column : List ℕ → List ℕ
char_column [] = []
char_column (c ∷ rest) = (if leb 32 c && ltb c 127 then c else b'.') ∷ char_column rest

-- The `n` characters of `line` for the bytes `data[offset] … data[offset + chunk - 1]`.
pub line_text : ℕ → List ℕ → List ℕ
line_text offset chunk =
    address_digits 8 (u32 offset)
    ++ (bytes_of ":  "
        ++ (byte_columns chunk
            ++ (replicate (3 * (16 - length chunk)) b' '
                ++ (bytes_of " |" ++ (char_column chunk ++ bytes_of "|\n")))))

-- The while loop; `out` is what stands in `outbuf`, and `pos` is its length.
pub dump_loop : ℕ → List ℕ → ℕ → ℕ → ℕ → List ℕ → Option (List ℕ)
dump_loop zero bytes size outcap offset out = none
dump_loop (suc fuel) bytes size outcap offset out =
    let chunk = if ltb 16 (size - offset) then 16 else size - offset in
    let line = line_text offset (take chunk (drop offset bytes)) in
    let again = dump_loop fuel bytes size outcap (offset + chunk) (out ++ line) in
    let round =
      if ltb (length bytes) (offset + chunk)
      then none
      else if ltb outcap (length out + length line + 1)
      then some (out ++ take (outcap - length out - 1) line)
      else again in
    if ltb offset size then round else some out

-- hexdump_to_buffer(addr, buf, size, outbuf, outcap): the text in `outbuf` before its terminator. The
-- length of the text is the number returned.
pub hexdump_to_buffer : ℕ → List ℕ → ℕ → ℕ → Option (List ℕ)
hexdump_to_buffer addr bytes size outcap =
    let dump = dump_loop (suc size) bytes size outcap addr [] in
    if outcap == 0 then some [] else dump
