-- ===== src/Numbers.antt =====
-- The number formatting of trace/Utils/StringUtil.h. A function that fills a caller's buffer returns
-- the characters that it leaves there, without the terminator.
pub mod Digits
pub mod Decode
mod Runs
use android_prybar.Base.{
  ℕ, zero, suc, ◌+◌, ◌/◌, ◌%◌, Option, none, some, List, [], ◌∷◌, ◌++◌, ◌==◌, if◌then◌else◌, ◌>>=◌,
  get_or, bytes_of,
}

-- hd[d]
unfoldable pub hex_char : ℕ → ℕ
hex_char d = get_or (bytes_of "0123456789abcdef") d 0

-- '0' + (char)d
unfoldable pub dec_char : ℕ → ℕ
dec_char d = 48 + d

-- `while (val) { tmp[n++] = char_of(val % base); val /= base; }`, the first digit first; `none` is a
-- store behind the `room` bytes of `tmp`.
unfoldable pub digit_loop : (ℕ → ℕ) → ℕ → ℕ → ℕ → Option (List ℕ)
digit_loop char_of base zero val = if val == 0 then some [] else none
digit_loop char_of base (suc room) val =
    let body = (do
      rest ← digit_loop char_of base room (val / base)
      some (char_of (val % base) ∷ rest)) in
    if val == 0 then some [] else body

-- `for (int i = 0; i < n; i++) buf[i] = tmp[n - 1 - i];`
unfoldable pub reversed : List ℕ → List ℕ
reversed [] = []
reversed (x ∷ xs) = reversed xs ++ (x ∷ [])

-- uint64ToHex; `val & 0xF` is `val % 16` and `val >>= 4` is `val / 16`.
unfoldable pub uint64_to_hex : ℕ → Option (List ℕ)
uint64_to_hex val =
    let body = (do tmp ← digit_loop hex_char 16 16 val; some (reversed tmp)) in
    if val == 0 then some (bytes_of "0") else body

-- uint64ToDec
unfoldable pub uint64_to_dec : ℕ → Option (List ℕ)
uint64_to_dec val =
    let body = (do tmp ← digit_loop dec_char 10 20 val; some (reversed tmp)) in
    if val == 0 then some (bytes_of "0") else body

-- uint64ToHexPadded: from the last of `width` characters to the first.
pub uint64_to_hex_padded : ℕ → ℕ → List ℕ
uint64_to_hex_padded val zero = []
uint64_to_hex_padded val (suc width) =
    uint64_to_hex_padded (val / 16) width ++ (hex_char (val % 16) ∷ [])

-- uint32ToHex8
pub uint32_to_hex8 : ℕ → List ℕ
uint32_to_hex8 val = uint64_to_hex_padded val 8

-- byteToHex
pub byte_to_hex : ℕ → List ℕ
byte_to_hex b = hex_char (b / 16) ∷ hex_char (b % 16) ∷ []
