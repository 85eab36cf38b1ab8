-- ===== src/MemAccess/Noted/Runs.antt =====
-- An address that the second appendMemoryHexdump of trace/src/MemPrinter.cpp notes.
use android_prybar.Base.{
  ℕ, ◌+◌, ◌-◌, ◌%◌, ◌^◌, ◌≡◌, refl, ap, ◌≢◌, false, Option, none, some, [], ◌∷◌, arith, leb, ◌==◌,
  if◌then◌else◌, u64, All,
}
use android_prybar.Registers.{reg_table, find_reg, map_to_unicorn_reg}
use android_prybar.Registers.Snapshot.{cached_x_regs, Reads}
use android_prybar.MemAccess.{other_instruction}
use android_prybar.MemAccess.Address.{
  MemOperand, Access, PendingAccess, sign_extended, offset_of, cached_or_read, base_value,
  index_value, address_of, noted, after_operand, ends_loop, note_accesses,
}
use android_prybar.MemAccess.Noted.{IsWide, note_accesses-cache}
use android_prybar.MemAccess.Noted.WordIndex.{note_accesses-word_index}

-- ldr x0, [x1, #-8], with X1 at 0x5000; 236 is X1.
abbrev load : Access
load = record {
  id = other_instruction;
  operands = none;
  mem_operands = record { base = 236; index = 0; disp = 0xFFFFFFF8; is_write = false } ∷ [];
  writeback = false;
  post_index = false;
  address = 0x4000;
}

-- A register file where X1 is 0x5000 and X2 has an upper half.
abbrev file : ℕ → ℕ
file i = if i == 1 then 0x5000 else if i == 2 then 2 ^ 40 + 8 else 0

abbrev registers : ℕ → Option ℕ
registers reg =
    some (if leb reg 31 then file reg else if leb 84 reg then file (reg - 84) % 2 ^ 32 else 2 ^ 31)

registers-Reads : Reads registers file (2 ^ 31)
registers-Reads = record {
  read_x = λ n h. ap some (ground arith);
  read_sp = refl;
  read_nzcv = refl;
  read_w = λ n h. ap some (ground arith);
}

abbrev nothing : PendingAccess
nothing = record { last_mem_address = 0; size = 0; is_load = false }

below_base : (note_accesses registers none load load.mem_operands nothing).last_mem_address ≡ 0x4FF8
unfolding note_accesses ends_loop after_operand noted address_of offset_of sign_extended base_value
    index_value cached_or_read map_to_unicorn_reg find_reg reg_table
below_base = refl

wide : All (λ op. IsWide op.base × IsWide op.index) load.mem_operands
unfolding map_to_unicorn_reg find_reg reg_table
wide = ((refl, refl), tt)

note_accesses-cache_example :
    note_accesses registers (some (cached_x_regs file (2 ^ 31))) load load.mem_operands nothing
    ≡ note_accesses registers none load load.mem_operands nothing
note_accesses-cache_example =
    note_accesses-cache registers file (2 ^ 31) registers-Reads load load.mem_operands wide nothing

-- ldr x0, [x1, w2, uxtw]; 206 is W2.
abbrev by_word : MemOperand
by_word = record { base = 236; index = 206; disp = 0; is_write = false }

note_accesses-word_index_example :
    ((note_accesses registers
        (some (cached_x_regs file (2 ^ 31)))
        load
        (by_word ∷ [])
        nothing).last_mem_address
      ≡ u64 (0x5000 + (2 ^ 40 + 8) + offset_of load by_word))
    × ((note_accesses registers none load (by_word ∷ []) nothing).last_mem_address
        ≡ u64 (0x5000 + 8 + offset_of load by_word))
    × ((note_accesses registers
          (some (cached_x_regs file (2 ^ 31)))
          load
          (by_word ∷ [])
          nothing).last_mem_address
        ≢ (note_accesses registers none load (by_word ∷ []) nothing).last_mem_address)
note_accesses-word_index_example =
    note_accesses-word_index registers file (2 ^ 31) registers-Reads load by_word nothing 1 2
      (omega arith) (omega arith) refl refl (omega arith) (omega arith)
