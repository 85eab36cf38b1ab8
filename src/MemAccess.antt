-- ===== src/MemAccess.antt =====
-- trace/src/MemPrinter.cpp: how many bytes an instruction moves, and the dump of memory. Capstone's
-- numbers are those of its header aarch64.h.
pub mod Sizes
pub mod Address
pub mod Noted
mod Runs
use android_prybar.Base.{
  ℕ, zero, suc, ◌+◌, ◌*◌, Bool, true, false, ◌&&◌, ◌||◌, Option, none, some, List, [], ◌∷◌, ◌++◌,
  ltb, leb, ◌==◌, if◌then◌else◌, ◌>>=◌, u64, length, take, drop, bytes_of,
}
use android_prybar.Numbers.{uint64_to_hex_padded, byte_to_hex}
use android_prybar.HostMemory.{Host, safe_host_read, append_cstr, safe_looks_like_cstr}

-- aarch64_reg_width; 2, 4, 6, 8, 9 and 10 are FP, LR, SP, WSP, WZR and XZR.
pub reg_width : ℕ → ℕ
reg_width reg =
    if leb 12 reg && leb reg 43
    then 1
    else if leb 76 reg && leb reg 107
    then 2
    else if leb 172 reg && leb reg 203
    then 4
    else if leb 44 reg && leb reg 75
    then 8
    else if leb 140 reg && leb reg 171
    then 16
    else if leb 204 reg && leb reg 234
    then 4
    else if leb 235 reg && leb reg 263
    then 8
    else if reg == 9 || reg == 8
    then 4
    else if reg == 10 || reg == 6 || reg == 2 || reg == 4
    then 8
    else 0

-- The instructions that arm64_get_mem_access_size names.
pub data Instruction : Type 0 where
  ldrb strb ldurb sturb ldrsb ldursb : Instruction
  ldrh strh ldurh sturh ldrsh ldursh : Instruction
  ldrsw ldursw : Instruction
  ldpsw : Instruction
  ldp stp ldnp stnp : Instruction
  other_instruction : Instruction

-- An operand as far as it is read: `some reg` for AARCH64_OP_REG.
abbrev pub Operand : Type 0
Operand = Option ℕ

-- The size that the instruction's name fixes.
pub fixed_size : Instruction → Option ℕ
fixed_size ldrb = some 1
fixed_size strb = some 1
fixed_size ldurb = some 1
fixed_size sturb = some 1
fixed_size ldrsb = some 1
fixed_size ldursb = some 1
fixed_size ldrh = some 2
fixed_size strh = some 2
fixed_size ldurh = some 2
fixed_size sturh = some 2
fixed_size ldrsh = some 2
fixed_size ldursh = some 2
fixed_size ldrsw = some 4
fixed_size ldursw = some 4
fixed_size ldpsw = some 8
fixed_size _ = none

pub moves_pair : Instruction → Bool
moves_pair ldp = true
moves_pair stp = true
moves_pair ldnp = true
moves_pair stnp = true
moves_pair _ = false

-- The loop over the operands: the widest register, and how many have a width.
pub widest : List Operand → ℕ → ℕ → ℕ × ℕ
widest [] w nregs = (w, nregs)
widest (none ∷ rest) w nregs = widest rest w nregs
widest (some reg ∷ rest) w nregs =
    let width = reg_width reg in
    let skip = widest rest w nregs in
    let counted = widest rest (if ltb w width then width else w) (nregs + 1) in
    if width == 0 then skip else counted

pub size_of_widest : Instruction → ℕ → ℕ → ℕ
size_of_widest id w nregs = if w == 0 then 8 else if leb 2 nregs && moves_pair id then w * 2 else w

-- What is returned after the first switch; the operands are `none` without `detail`.
pub size_by_operands : Instruction → Option (List Operand) → ℕ
size_by_operands id none = 8
size_by_operands id (some ops) = let found = widest ops 0 0 in size_of_widest id found.0 found.1

pub size_or : Option ℕ → ℕ → ℕ
size_or none size = size
size_or (some fixed) size = fixed

-- arm64_get_mem_access_size
pub mem_access_size : Instruction → Option (List Operand) → ℕ
mem_access_size id operands = size_or (fixed_size id) (size_by_operands id operands)

-- A row's columns: the bytes, three spaces for each that is missing.
pub hex_columns : ℕ → List ℕ → List ℕ
hex_columns zero bytes = []
hex_columns (suc n) [] = bytes_of "   " ++ hex_columns n []
hex_columns (suc n) (b ∷ rest) = byte_to_hex b ++ (b' ' ∷ hex_columns n rest)

pub dump_chars : List ℕ → List ℕ
dump_chars [] = []
dump_chars (c ∷ rest) = (if leb 32 c && leb c 126 then c else b'.') ∷ dump_chars rest

-- The loop of appendHexDump, whose text is also that of hexDump.
pub hex_dump_rows : ℕ → ℕ → List ℕ → List ℕ
hex_dump_rows zero addr bytes = []
hex_dump_rows (suc fuel) addr [] = []
hex_dump_rows (suc fuel) addr (b ∷ rest) =
    let row = take 16 (b ∷ rest) in
    uint64_to_hex_padded (u64 addr) 16
    ++ (bytes_of ": "
        ++ (hex_columns 16 row
            ++ (bytes_of " |"
                ++ (dump_chars row
                    ++ (bytes_of "|\n" ++ hex_dump_rows fuel (addr + 16) (drop 16 (b ∷ rest)))))))

-- appendHexDump(sb, addr, buf, len), where `len` is the length of the list.
pub append_hex_dump : ℕ → List ℕ → List ℕ
append_hex_dump addr bytes = hex_dump_rows (length bytes) addr bytes

-- printCString: nothing is left of the text if no byte can be read.
pub print_c_string : Host → ℕ → Option (List ℕ)
print_c_string host addr = do
  (text, any) ← append_cstr host addr
  some (if any then bytes_of "    string: \"" ++ (text ++ bytes_of "\"\n") else [])

-- tryPrintRegisterAsPointer
pub try_print_register_as_pointer : Host → ℕ → Option (List ℕ)
try_print_register_as_pointer host val =
    let dump = elim (safe_host_read host val 32) as (λ _. Option (List ℕ)) [
      | none ↦ some []
      | some tmp ↦ some (append_hex_dump val tmp)
    ] in
    let as_string = print_c_string host val in
    if val == 0 || ltb val 0x1000
    then some []
    else if safe_looks_like_cstr host val 3
    then as_string
    else dump
