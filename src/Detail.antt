-- ===== src/Detail.antt =====
-- appendHex and assembleDetail of trace/src/ARM.cpp: the head of an instruction's line. Text is bytes.
pub mod Columns
mod Runs
use android_prybar.Base.{
  ℕ, ◌+◌, ◌-◌, ◌*◌, ◌/◌, ◌%◌, ◌^◌, Bool, true, false, Option, none, some, List, [], ◌∷◌, ◌++◌, ltb,
  ◌==◌, if◌then◌else◌, ◌>>=◌, u64, length, replicate, bytes_of, from_option,
}
use android_prybar.Numbers.{uint64_to_hex, uint32_to_hex8}

-- appendHex of a text; `reverse` puts the padding behind it.
unfoldable pub append_hex : List ℕ → ℕ → ℕ → Bool → List ℕ
append_hex hex width placeholder reverse =
    let pad = width - length hex in
    let padding = replicate (if ltb pad 32 then pad else 32) placeholder in
    if ltb 0 pad then (if reverse then hex ++ padding else padding ++ hex) else hex

-- appendHex of a number.
unfoldable pub append_hex_number : ℕ → ℕ → ℕ → Bool → Option (List ℕ)
append_hex_number value width placeholder reverse = do
  hex ← uint64_to_hex value
  some (bytes_of "0x" ++ append_hex hex width placeholder reverse)

-- What assembleDetail reads of Capstone's instruction; `opcode` is its four bytes as a uint32_t.
pub record CsInsn : Type 0 where
  pub is_svc : Bool
  pub opcode : ℕ
  pub mnemonic : List ℕ
  pub op_str : List ℕ

-- The module of an instruction: soName, or null, and soBase.
pub record Place : Type 0 where
  pub so_name : Option (List ℕ)
  pub so_base : ℕ

-- `soName != nullptr && soBase != 0`
abbrev pub in_module : Place → Option (List ℕ)
in_module place = if place.so_base == 0 then none else place.so_name

-- What assembleDetail puts between its brackets before the opcode; `space` is ' ' or '*'.
unfoldable pub module_text : Place → ℕ → Bool → ℕ → List ℕ → Option (List ℕ)
module_text place address is_thumb space name = do
  offset ←
      append_hex_number (u64 (address + 2 ^ 64 - place.so_base + (if is_thumb then 1 else 0))) 8
        b'0' false
  some (b'[' ∷ name ++ space ∷ offset ++ b']' ∷ space ∷ [])

unfoldable pub no_module_text : Place → ℕ → ℕ → ℕ → Option (List ℕ)
no_module_text place address space max_name = do
  offset ← append_hex_number (u64 (address + 2 ^ 64 - place.so_base)) max_name b'0' false
  some (b'[' ∷ append_hex (bytes_of "Arm64Svc") max_name b' ' true ++ space ∷ offset ++ b']' ∷ [])

-- TO_LITTLE_ENDIAN of trace/include/ARM.h, which turns the bytes of a uint32_t around.
unfoldable pub to_little_endian : ℕ → ℕ
to_little_endian value =
    value / 2 ^ 24 % 256
    + value / 2 ^ 16 % 256 * 2 ^ 8
    + value / 2 ^ 8 % 256 * 2 ^ 16
    + value % 256 * 2 ^ 24

-- The opcode, the address and the disassembly.
unfoldable pub code_text : CsInsn → ℕ → ℕ → Option (List ℕ)
code_text insn address space = do
  at ← append_hex_number address 10 b'0' false
  some (
      b'[' ∷ uint32_to_hex8 (to_little_endian insn.opcode)
      ++ b']' ∷ space ∷ at
      ++ b':' ∷ space ∷ b'"' ∷ insn.mnemonic
      ++ b' ' ∷ insn.op_str
      ++ b'"' ∷ [])

-- assembleDetail; `max_name` is libraryMaxNameLength.
unfoldable pub assemble_detail : CsInsn → ℕ → Bool → Bool → ℕ → Place → Option (List ℕ)
assemble_detail insn address is_thumb current max_name place =
    let space = if current then b'*' else b' ' in
    let other = if insn.is_svc then some [] else no_module_text place address space max_name in
    do
      head ←
          from_option other
            (λ name. module_text place address is_thumb space (append_hex name max_name b' ' true))
            (in_module place)
      code ← code_text insn address space
      some (head ++ code)
