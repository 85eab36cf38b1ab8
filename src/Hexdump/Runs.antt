-- ===== src/Hexdump/Runs.antt =====
-- The hex dump at concrete inputs.
use android_prybar.Base.{suc, ◌-◌, ◌≡◌, refl, some, arith, take, replicate, bytes_of}
use android_prybar.Hexdump.{
  hex_upper, address_digits, byte_columns, char_column, line_text, dump_loop, hexdump_to_buffer,
}
use android_prybar.Hexdump.Rows.{rows, between, hexdump_to_buffer-rows}

short_row :
    hexdump_to_buffer 0 (bytes_of "GET / \n") 7 256
    ≡ some (bytes_of "00000000:  47 45 54 20 2F 20 0A                             |GET / .|\n")
unfolding hexdump_to_buffer dump_loop line_text address_digits byte_columns char_column hex_upper
short_row = refl

hexdump_to_buffer-rows_example :
    hexdump_to_buffer 4 (replicate 40 65) 37 100
    ≡ some (take (100 - 1) (rows (suc 37) 4 (between (replicate 40 65) 4 37)))
hexdump_to_buffer-rows_example =
    hexdump_to_buffer-rows 4 37 100 (replicate 40 65) (omega arith) (omega arith)
