-- ===== src/MemAccess/Address.antt =====
-- The second appendMemoryHexdump of trace/src/MemPrinter.cpp, which notes the address that an instruction
-- moves memory at, for the dump after it.
use android_prybar.Base.{
  ℕ, zero, suc, ◌+◌, ◌-◌, ◌*◌, ◌/◌, ◌^◌, Bool, true, false, not, ◌&&◌, Option, none, some, List, [],
  ◌∷◌, ltb, ◌==◌, if◌then◌else◌, ◌>>=◌, u64, from_option,
}
use android_prybar.Registers.{map_to_unicorn_reg, cached_x_reg_index}
use android_prybar.MemAccess.{Instruction, Operand, mem_access_size}

-- A memory operand: the Capstone numbers of its registers, 0 for none, the bit pattern of its int32_t disp,
-- and whether its access is CS_AC_WRITE.
pub record MemOperand : Type 0 where
  pub base : ℕ
  pub index : ℕ
  pub disp : ℕ
  pub is_write : Bool

-- What is read of the instruction: its operands for the size, those of its operands that are memory, in
-- their order, and the flags of the detail.
pub record Access : Type 0 where
  pub id : Instruction
  pub operands : Option (List Operand)
  pub mem_operands : List MemOperand
  pub writeback : Bool
  pub post_index : Bool
  pub address : ℕ

-- The members of PendingAccess that are written.
pub record PendingAccess : Type 0 where
  pub last_mem_address : ℕ
  pub size : ℕ
  pub is_load : Bool

-- `(int64_t)disp` as a bit pattern.
unfoldable pub sign_extended : ℕ → ℕ
sign_extended disp = if ltb disp (2 ^ 31) then disp else 2 ^ 64 - 2 ^ 32 + disp

-- off_addr
unfoldable pub offset_of : Access → MemOperand → ℕ
offset_of a op = if a.writeback && a.post_index then 0 else sign_extended op.disp

-- AARCH64_REG_X29
abbrev pub reg_x29 : ℕ
reg_x29 = 2

-- `op.mem.disp == 0 && op.mem.index == 0 && op.mem.base`
abbrev pub is_plain : MemOperand → Bool
is_plain op = op.disp == 0 && (op.index == 0 && not (op.base == 0))

-- vc_reg_read_fast, with `none` for an error; then the variable keeps its 0.
module _ (read : ℕ → Option ℕ) where
  -- `idx >= 0 ? cachedXRegs[idx] : vc_reg_read_fast(…)`, with `none` for the null cache.
  unfoldable pub cached_or_read : Option (ℕ → ℕ) → ℕ → Option ℕ
  cached_or_read none reg = read reg
  cached_or_read (some cache) reg =
      from_option (read reg) (λ i. some (cache i)) (cached_x_reg_index reg)

  -- The base; `none` is `continue`.
  unfoldable pub base_value : Option (ℕ → ℕ) → ℕ → Option ℕ
  base_value cache zero = some 0
  base_value cache (suc reg) = do ureg ← map_to_unicorn_reg (suc reg); cached_or_read cache ureg

  -- The index, 0 where it cannot be read.
  unfoldable pub index_value : Option (ℕ → ℕ) → ℕ → ℕ
  index_value cache zero = 0
  index_value cache (suc reg) =
      from_option 0 (λ v. v) (do ireg ← map_to_unicorn_reg (suc reg); cached_or_read cache ireg)

  -- addr, from the base's value.
  unfoldable pub address_of : Option (ℕ → ℕ) → Access → MemOperand → ℕ → ℕ
  address_of cache a op base =
      if op.index == 0 && op.base == 0
      then a.address / 2 ^ 32 * 2 ^ 32 + op.disp
      else u64 (base + index_value cache op.index + offset_of a op)

  -- What is noted of an operand from its address on.
  unfoldable pub noted : Access → MemOperand → ℕ → PendingAccess → PendingAccess
  noted a op addr p = record {
    last_mem_address = if op.is_write && op.base == reg_x29 then 0 else addr;
    size = mem_access_size a.id a.operands;
    is_load = if op.is_write then (if op.base == reg_x29 then p.is_load else false) else true;
  }

  -- What is noted after an operand whose base can be read.
  unfoldable pub after_operand :
      Option (ℕ → ℕ) → Access → MemOperand → PendingAccess → PendingAccess
  after_operand cache a op p =
      from_option p (λ base. noted a op (address_of cache a op base) p) (base_value cache op.base)

  -- Whether a store ends the loop.
  unfoldable pub ends_loop : Option (ℕ → ℕ) → MemOperand → Bool
  ends_loop cache op =
      op.is_write && from_option false (λ (base : ℕ). true) (base_value cache op.base)

  -- The loop of appendMemoryHexdump over the memory operands left.
  unfoldable pub note_accesses :
      Option (ℕ → ℕ) → Access → List MemOperand → PendingAccess → PendingAccess
  note_accesses cache a [] p = p
  note_accesses cache a (op ∷ ops) p =
      let p' = after_operand cache a op p in
      let rest = note_accesses cache a ops p' in
      if is_plain op then p else if ends_loop cache op then p' else rest
