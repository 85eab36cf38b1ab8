-- ===== src/Plt.antt =====
-- resolvePltTarget of trace/src/EastTrace.cpp, which reads the target of a stub of the procedure linkage
-- table out of the global offset table.
pub mod Stub
mod Runs
use android_prybar.Base.{ℕ, ◌+◌, ◌-◌, ◌*◌, ◌/◌, ◌%◌, ◌^◌, Bool, ◌&&◌, ltb, ◌==◌, if◌then◌else◌, u64}

-- `(inst0 & 0x9F00001F) == 0x90000010`, by the three fields of the mask: adrp x16.
unfoldable pub is_adrp_x16 : ℕ → Bool
is_adrp_x16 inst = inst / 2 ^ 31 == 1 && (inst / 2 ^ 24 % 2 ^ 5 == 16 && inst % 2 ^ 5 == 16)

-- `(inst1 & 0xFFC003FF) == 0xF9400211`, by the two fields of the mask: ldr x17, [x16, #imm].
unfoldable pub is_ldr_x17 : ℕ → Bool
is_ldr_x17 inst = inst / 2 ^ 22 == 0x3E5 && inst % 2 ^ 10 == 0x211

-- imm21, before its sign is extended.
unfoldable pub adrp_imm : ℕ → ℕ
adrp_imm inst = inst / 2 ^ 5 % 2 ^ 19 * 4 + inst / 2 ^ 29 % 4

-- adrp_offset, as the bit pattern of an int64_t.
unfoldable pub adrp_offset : ℕ → ℕ
adrp_offset imm = if ltb imm (2 ^ 20) then imm * 4096 else 2 ^ 64 - 2 ^ 33 + imm * 4096

-- ldr_offset
unfoldable pub ldr_offset : ℕ → ℕ
ldr_offset inst = inst / 2 ^ 10 % 2 ^ 12 * 8

-- resolvePltTarget, on the 32-bit and 64-bit words of memory.
unfoldable pub resolve_plt_target : (ℕ → ℕ) → (ℕ → ℕ) → ℕ → ℕ
resolve_plt_target word quad addr =
    let inst0 = word addr in
    let inst1 = word (addr + 4) in
    let page = u64 (addr - addr % 4096 + adrp_offset (adrp_imm inst0)) in
    if is_adrp_x16 inst0 && is_ldr_x17 inst1 then quad (u64 (page + ldr_offset inst1)) else 0
