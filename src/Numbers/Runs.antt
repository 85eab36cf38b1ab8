-- ===== src/Numbers/Runs.antt =====
-- The number formatting at concrete inputs.
use android_prybar.Base.{◌-◌, ◌^◌, ◌≡◌, refl, some, arith, bytes_of}
use android_prybar.Numbers.{hex_char, dec_char, digit_loop, reversed, uint64_to_hex, uint64_to_dec}
use android_prybar.Numbers.Decode.{Formats, uint64_to_hex-Formats, uint64_to_dec-Formats}

hex_text : uint64_to_hex 0xbeef ≡ some (bytes_of "beef")
unfolding uint64_to_hex digit_loop reversed hex_char
hex_text = refl

dec_text : uint64_to_dec 65535 ≡ some (bytes_of "65535")
unfolding uint64_to_dec digit_loop reversed dec_char
dec_text = refl

uint64_to_hex-Formats_example : Formats 16 16 0xfedcba9876543210 (uint64_to_hex 0xfedcba9876543210)
uint64_to_hex-Formats_example = uint64_to_hex-Formats 0xfedcba9876543210 (omega arith)

uint64_to_dec-Formats_example : Formats 10 20 (2 ^ 64 - 1) (uint64_to_dec (2 ^ 64 - 1))
uint64_to_dec-Formats_example = uint64_to_dec-Formats (2 ^ 64 - 1) (omega arith)
