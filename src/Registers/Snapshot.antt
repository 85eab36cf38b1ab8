-- ===== src/Registers/Snapshot.antt =====
-- The copy of the registers that trace/src/EastTrace.cpp takes at every instruction, and what include/vcpu.h
-- says of the registers it copies.
use android_prybar.Base.{ℕ, ◌+◌, ◌%◌, ◌^◌, ◌≤◌, ◌≡◌, Option, some, ltb, if◌then◌else◌}
use android_prybar.Registers.{vc_sp, vc_nzcv, vc_w0}

-- cachedXRegs, from what vc_code_fast_get_xregs points to and vc_code_fast_get_nzcv.
unfoldable pub cached_x_regs : (ℕ → ℕ) → ℕ → ℕ → ℕ
cached_x_regs xregs nzcv i = if ltb i 32 then xregs i else nzcv

-- vc_reg_read_fast, with `none` for an error, on a register file: X0 to X30 and SP, NZCV, and W0 to W30 as
-- the lower halves of X0 to X30.
pub record Reads (read : ℕ → Option ℕ) (xregs : ℕ → ℕ) (nzcv : ℕ) : Type 0 where
  pub read_x : (n : ℕ) → n ≤ 30 → read n ≡ some (xregs n)
  pub read_sp : read vc_sp ≡ some (xregs 31)
  pub read_nzcv : read vc_nzcv ≡ some nzcv
  pub read_w : (n : ℕ) → n ≤ 30 → read (vc_w0 + n) ≡ some (xregs n % 2 ^ 32)
