-- ===== src/Detail/Runs.antt =====
-- The head of an instruction's line in trace/src/ARM.cpp at a concrete input.
use android_prybar.Base.{ℕ, ◌≤◌, ◌≡◌, refl, true, false, some, List, [], arith, length, bytes_of}
use android_prybar.Numbers.{hex_char, digit_loop, reversed, uint64_to_hex}
use android_prybar.Numbers.Digits.{read_number}
use android_prybar.Detail.{append_hex, append_hex_number, CsInsn, to_little_endian, assemble_detail}
use android_prybar.Detail.Columns.{detail_line, assemble_detail-columns}

-- ret, in liba.so
abbrev ret_insn : CsInsn
ret_insn = record { is_svc = false; opcode = 0xD65F03C0; mnemonic = bytes_of "ret"; op_str = [] }

number : append_hex_number 0x1234 8 b'0' false ≡ some (bytes_of "0x00001234")
unfolding append_hex_number append_hex uint64_to_hex digit_loop hex_char reversed
number = refl

turned : to_little_endian 0xD65F03C0 ≡ 0xC0035FD6
unfolding to_little_endian
turned = refl

assemble_detail-columns_example :
    (offset : List ℕ) × (at : List ℕ) × (assemble_detail ret_insn 0x701234 false true 20
        (record { so_name = some (bytes_of "liba.so"); so_base = 0x700000 })
      ≡ some (detail_line ret_insn b'*' (bytes_of "liba.so             ") offset at))
    × (8 ≤ length offset)
    × (read_number 16 0 offset ≡ 0x1234)
    × (10 ≤ length at)
    × (read_number 16 0 at ≡ 0x701234)
assemble_detail-columns_example =
    assemble_detail-columns ret_insn 0x701234 false true 20 (bytes_of "liba.so") 0x700000
      (omega arith) (omega arith) (omega arith) (omega arith) (omega arith)
