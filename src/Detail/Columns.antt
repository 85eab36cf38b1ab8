-- ===== src/Detail/Columns.antt =====
-- The columns of an instruction's line in trace/src/ARM.cpp.
use android_prybar.Base.{
  ℕ, zero, suc, ◌+◌, ◌-◌, ◌^◌, ◌≤◌, ◌<◌, ◌≡◌, refl, sym, ◌∙◌, inl, inr, Bool, true, false, some,
  List, [], ◌∷◌, ◌++◌, append-nil, arith, ltb, ◌==◌, if◌then◌else◌, u64, ltb_false→le, Bool-cases,
  length, replicate, length-append, length-replicate, bytes_of,
}
use android_prybar.Numbers.{uint32_to_hex8}
use android_prybar.Numbers.Digits.{digit_value, read_number}
use android_prybar.Numbers.Decode.{uint64_to_hex-Formats}
use android_prybar.Detail.{
  append_hex, append_hex_number, CsInsn, module_text, to_little_endian, code_text, assemble_detail,
}

-- Zeros in front of a number.
read_number-zeros :
    (n : ℕ) (hex : List ℕ) → read_number 16 0 (replicate n b'0' ++ hex) ≡ read_number 16 0 hex
unfolding read_number digit_value
read_number-zeros zero hex = refl
read_number-zeros (suc n) hex = read_number-zeros n hex

abbrev longer : ℕ → ℕ → ℕ
longer a b = if ltb a b then b else a

-- A text whose padding fits its buffer is as long as its column is wide, or longer.
length-append_hex :
    (hex : List ℕ) (width placeholder : ℕ) (reverse : Bool)
    → width ≤ 32
    → length (append_hex hex width placeholder reverse) ≡ longer (length hex) width
unfolding append_hex
length-append_hex hex width placeholder reverse h =
    let pad = width - length hex in
    let padding = replicate (if ltb pad 32 then pad else 32) placeholder in
    let size : length padding ≡ (if ltb pad 32 then pad else 32) =
      length-replicate (if ltb pad 32 then pad else 32) placeholder in
    elim (Bool-cases (ltb 0 pad)) [
      | inr none_needed ↦ rw none_needed (ground arith)
      | inl some_needed ↦ elim (Bool-cases reverse) [
        | inl behind ↦ rw (some_needed, behind, length-append hex padding, size) (ground arith)
        | inr before ↦ rw (some_needed, before, length-append padding hex, size) (ground arith)
      ]
    ]

-- Zeros as the placeholder change nothing of a number.
read_number-append_hex :
    (hex : List ℕ) (width : ℕ)
    → read_number 16 0 (append_hex hex width b'0' false) ≡ read_number 16 0 hex
unfolding append_hex
read_number-append_hex hex width =
    let pad = width - length hex in
    elim (Bool-cases (ltb 0 pad)) [
      | inl some_needed ↦ rw some_needed (read_number-zeros (if ltb pad 32 then pad else 32) hex)
      | inr none_needed ↦ rw none_needed
    ]

-- A number in a column of zeros: as many digits as the column is wide at least, and they read back.
pub append_hex_number-reads :
    (value width : ℕ)
    → value < 2 ^ 64
    → width ≤ 32
    → (digits : List ℕ) × (append_hex_number value width b'0' false
        ≡ some (bytes_of "0x" ++ digits))
      × (width ≤ length digits)
      × (read_number 16 0 digits ≡ value)
unfolding append_hex_number
append_hex_number-reads value width small narrow =
    let (hex, e, short, reads) = uint64_to_hex-Formats value small in
    (
      append_hex hex width b'0' false,
      rw e,
      ground (arith, length-append_hex hex width b'0' false narrow),
      read_number-append_hex hex width ∙ reads,
    )

-- A text that is no longer than its column, with the spaces behind it that fill the column.
append_hex-name :
    (name : List ℕ) (width : ℕ)
    → width ≤ 32
    → length name ≤ width
    → append_hex name width b' ' true ≡ name ++ replicate (width - length name) b' '
unfolding append_hex
append_hex-name name width narrow fits =
    let count : (if ltb (width - length name) 32 then width - length name else 32)
        ≡ width - length name =
      ground arith in
    elim (Bool-cases (ltb 0 (width - length name))) [
      | inl some_needed ↦ rw (some_needed, count)
      | inr none_needed ↦
          let none_left : width - length name ≡ 0 = omega (arith, ltb_false→le _ _ none_needed) in
          rw (none_needed, none_left) (sym (append-nil name))
    ]

-- The line of an instruction in a module, from its columns.
abbrev pub detail_line : CsInsn → ℕ → List ℕ → List ℕ → List ℕ → List ℕ
detail_line insn space column offset at =
    (b'[' ∷ column ++ space ∷ (bytes_of "0x" ++ offset) ++ b']' ∷ space ∷ [])
    ++ (b'[' ∷ uint32_to_hex8 (to_little_endian insn.opcode)
        ++ b']' ∷ space ∷ (bytes_of "0x" ++ at)
        ++ b':' ∷ space ∷ b'"' ∷ insn.mnemonic
        ++ b' ' ∷ insn.op_str
        ++ b'"' ∷ [])

-- The line of an instruction in a module whose name fits a column of at most 32: the name with the spaces
-- that fill its column, the offset in the module and the address as numbers of at least 8 and 10 digits that
-- read back, and the opcode and the disassembly.
pub assemble_detail-columns :
    (insn : CsInsn) (address : ℕ) (is_thumb current : Bool) (max_name : ℕ) (name : List ℕ)
    (so_base : ℕ)
    → 0 < so_base
    → so_base ≤ address
    → address < 2 ^ 64
    → max_name ≤ 32
    → length name ≤ max_name
    → (offset : List ℕ) × (at : List ℕ) × (assemble_detail insn address is_thumb current max_name
          (record { so_name = some name; so_base = so_base })
        ≡ some (
            detail_line insn
              (if current then b'*' else b' ')
              (name ++ replicate (max_name - length name) b' ')
              offset
              at))
      × (8 ≤ length offset)
      × (read_number 16 0 offset ≡ address - so_base + (if is_thumb then 1 else 0))
      × (10 ≤ length at)
      × (read_number 16 0 at ≡ address)
unfolding assemble_detail module_text code_text
assemble_detail-columns insn address is_thumb current max_name name so_base some_base below small
      narrow fits =
    let thumb : ℕ = if is_thumb then 1 else 0 in
    let bit : thumb ≤ 1 = ground arith in
    let far : ℕ = u64 (address + 2 ^ 64 - so_base + thumb) in
    let distance : far ≡ address - so_base + thumb = omega (arith, bit) in
    let (offset, e, wide, reads) = append_hex_number-reads far 8 (omega arith) (omega arith) in
    let (at, e', wide', reads') = append_hex_number-reads address 10 small (omega arith) in
    let based : (so_base == 0) ≡ false = ground arith in
    (
      offset,
      at,
      rw (based, append_hex-name name max_name narrow fits, e, e'),
      wide,
      reads ∙ distance,
      wide',
      reads',
    )
