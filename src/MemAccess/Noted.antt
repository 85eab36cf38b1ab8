-- ===== src/MemAccess/Noted.antt =====
-- The addresses that the second appendMemoryHexdump of trace/src/MemPrinter.cpp notes, with the copy of the
-- registers and without it.
pub mod WordIndex
mod Runs
use android_prybar.Base.{
  ℕ, zero, suc, ◌≤◌, ◌<◌, ◌≡◌, refl, sym, ◌∙◌, subst, inl, inr, true, Option, none, some, List, [],
  ◌∷◌, arith, ltb, leb, ◌==◌, ltb→lt, leb→le, ==_iff, Bool-cases, Option-cases, All, from_option,
}
use android_prybar.Registers.{map_to_unicorn_reg, vc_sp, vc_nzcv, vc_w0, cached_x_reg_index}
use android_prybar.Registers.Snapshot.{cached_x_regs, Reads}
use android_prybar.Registers.Laws.{cached_x_reg_index-views, no_slot}
use android_prybar.MemAccess.Address.{
  MemOperand, Access, PendingAccess, cached_or_read, base_value, index_value, address_of,
  after_operand, ends_loop, note_accesses,
}

-- A register of Capstone's that is not one of W0 to W30.
abbrev pub IsWide : ℕ → Type 0
IsWide id = from_option true (λ reg. ltb reg vc_w0) (map_to_unicorn_reg id) ≡ true

IsWide-lt : (id reg : ℕ) → IsWide id → map_to_unicorn_reg id ≡ some reg → reg < vc_w0
IsWide-lt id reg wide e =
    ltb→lt reg vc_w0 (subst (λ o. from_option true (λ r. ltb r vc_w0) o ≡ true) e wide)

pub cached_or_read-slot :
    (read : ℕ → Option ℕ) (cache : ℕ → ℕ) (reg i : ℕ)
    → cached_x_reg_index reg ≡ some i
    → cached_or_read read (some cache) reg ≡ some (cache i)
unfolding cached_or_read
cached_or_read-slot read cache reg i e = rw e

cached_or_read-no_slot :
    (read : ℕ → Option ℕ) (cache : ℕ → ℕ) (reg : ℕ)
    → cached_x_reg_index reg ≡ none
    → cached_or_read read (some cache) reg ≡ read reg
unfolding cached_or_read
cached_or_read-no_slot read cache reg e = rw e

module _ (read : ℕ → Option ℕ) (xregs : ℕ → ℕ) (nzcv : ℕ) (file : Reads read xregs nzcv) where
  sp_slot : cached_or_read read (some (cached_x_regs xregs nzcv)) vc_sp ≡ read vc_sp
  unfolding cached_or_read cached_x_regs cached_x_reg_index
  sp_slot = sym file.read_sp

  nzcv_slot : cached_or_read read (some (cached_x_regs xregs nzcv)) vc_nzcv ≡ read vc_nzcv
  unfolding cached_or_read cached_x_regs cached_x_reg_index
  nzcv_slot = sym file.read_nzcv

  x_slot : (n : ℕ) → n ≤ 30 → cached_or_read read (some (cached_x_regs xregs nzcv)) n ≡ read n
  unfolding cached_x_regs
  x_slot n h =
      let low : ltb n 32 ≡ true = ground arith in
      cached_or_read-slot read _ n n (cached_x_reg_index-views n h).0
      ∙ (rw low (sym (file.read_x n h)))

  abbrev Same : ℕ → Type 0
  Same reg = cached_or_read read (some (cached_x_regs xregs nzcv)) reg ≡ read reg

  cached_or_read-cache : (reg : ℕ) → reg < vc_w0 → Same reg
  cached_or_read-cache reg h = elim (Bool-cases (leb reg 30)) [
    | inl x ↦ x_slot reg (leb→le reg 30 x)
    | inr x ↦ elim (Bool-cases (reg == vc_sp)) [
      | inl sp ↦ subst Same (sym ((==_iff reg vc_sp).0 sp)) sp_slot
      | inr s ↦ elim (Bool-cases (reg == vc_nzcv)) [
        | inl flags ↦ subst Same (sym ((==_iff reg vc_nzcv).0 flags)) nzcv_slot
        | inr f ↦ cached_or_read-no_slot read _ reg (no_slot reg x s f (ground arith))
      ]
    ]
  ]

  without_cache : (reg : ℕ) → cached_or_read read none reg ≡ read reg
  unfolding cached_or_read
  without_cache reg = refl

  base_value-cache :
      (id : ℕ)
      → IsWide id
      → base_value read (some (cached_x_regs xregs nzcv)) id ≡ base_value read none id
  unfolding base_value
  base_value-cache zero wide = refl
  base_value-cache (suc id) wide = elim (Option-cases (map_to_unicorn_reg (suc id))) [
    | inl e ↦ rw e
    | inr u ↦
        rw u.1
          (cached_or_read-cache u.0 (IsWide-lt (suc id) u.0 wide u.1) ∙ sym (without_cache u.0))
  ]

  index_value-cache :
      (id : ℕ)
      → IsWide id
      → index_value read (some (cached_x_regs xregs nzcv)) id ≡ index_value read none id
  unfolding index_value
  index_value-cache zero wide = refl
  index_value-cache (suc id) wide = elim (Option-cases (map_to_unicorn_reg (suc id))) [
    | inl e ↦ rw e
    | inr u ↦
        let same =
          cached_or_read-cache u.0 (IsWide-lt (suc id) u.0 wide u.1) ∙ sym (without_cache u.0) in
        rw (u.1, same)
  ]

  -- On a register file as include/vcpu.h describes it, the copy that is taken of it changes nothing of what
  -- is noted, where no memory operand has a W register.
  pub note_accesses-cache :
      (a : Access) (ops : List MemOperand)
      → All (λ op. IsWide op.base × IsWide op.index) ops
      → (p : PendingAccess)
      → note_accesses read (some (cached_x_regs xregs nzcv)) a ops p
        ≡ note_accesses read none a ops p
  unfolding note_accesses address_of after_operand ends_loop
  note_accesses-cache a [] wide p = refl
  note_accesses-cache a (op ∷ ops) wide p = rw (
    base_value-cache op.base wide.0.0,
    index_value-cache op.index wide.0.1,
    note_accesses-cache a ops wide.1,
  )
