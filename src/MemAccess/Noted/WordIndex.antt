-- ===== src/MemAccess/Noted/WordIndex.antt =====
-- A W register as the index of a memory operand, in the second appendMemoryHexdump of
-- trace/src/MemPrinter.cpp.
use android_prybar.Base.{
  ℕ, zero, suc, ◌+◌, ◌%◌, ◌^◌, ◌≤◌, ◌<◌, ◌≡◌, refl, sym, ap, ◌∙◌, ◌≢◌, inl, inr, Bool, true, false,
  Option, none, some, [], ◌∷◌, arith, ltb, ◌==◌, u64, ==_iff, Bool-cases, Option-cases, from_option,
}
use android_prybar.Base.Bits.{every, every_at}
use android_prybar.Registers.{reg_table, find_reg, map_to_unicorn_reg, vc_w0}
use android_prybar.Registers.Snapshot.{cached_x_regs, Reads}
use android_prybar.Registers.Laws.{cached_x_reg_index-views}
use android_prybar.MemAccess.Noted.{cached_or_read-slot}
use android_prybar.MemAccess.Address.{
  MemOperand, Access, PendingAccess, offset_of, reg_x29, is_plain, cached_or_read, base_value,
  index_value, address_of, noted, after_operand, ends_loop, note_accesses,
}

-- Whether Capstone's number id + n is that of the register reg + n.
is_mapped : ℕ → ℕ → ℕ → Bool
is_mapped id reg n = from_option false (λ r. r == reg + n) (map_to_unicorn_reg (id + n))

is_mapped_lem :
    (id reg n : ℕ) → is_mapped id reg n ≡ true → map_to_unicorn_reg (id + n) ≡ some (reg + n)
unfolding is_mapped
is_mapped_lem id reg n h = elim (Option-cases (map_to_unicorn_reg (id + n))) [
  | inl e ↦ let bad : false ≡ true = rw e at h in absurd (cc bad)
  | inr (r, e) ↦
      let same : (r == reg + n) ≡ true = rw e at h in e ∙ ap some ((==_iff r (reg + n)).0 same)
]

x_numbers : (n : ℕ) → n < 29 → map_to_unicorn_reg (235 + n) ≡ some n
unfolding is_mapped map_to_unicorn_reg find_reg reg_table every
x_numbers n h =
    let zero_first : 0 + n ≡ n = omega arith in
    is_mapped_lem 235 0 n (every_at (is_mapped 235 0) 29 n h refl) ∙ ap some zero_first

w_numbers : (n : ℕ) → n < 29 → map_to_unicorn_reg (204 + n) ≡ some (vc_w0 + n)
unfolding is_mapped map_to_unicorn_reg find_reg reg_table every
w_numbers n h = is_mapped_lem 204 84 n (every_at (is_mapped 204 84) 29 n h refl)

base_value-mapped :
    (read : ℕ → Option ℕ) (cache : Option (ℕ → ℕ)) (id reg : ℕ)
    → 0 < id
    → map_to_unicorn_reg id ≡ some reg
    → base_value read cache id ≡ cached_or_read read cache reg
unfolding base_value
base_value-mapped read cache zero reg real e = absurd (omega arith)
base_value-mapped read cache (suc id) reg real e = rw e

index_value-mapped :
    (read : ℕ → Option ℕ) (cache : Option (ℕ → ℕ)) (id reg : ℕ)
    → 0 < id
    → map_to_unicorn_reg id ≡ some reg
    → index_value read cache id ≡ from_option 0 (λ v. v) (cached_or_read read cache reg)
unfolding index_value
index_value-mapped read cache zero reg real e = absurd (omega arith)
index_value-mapped read cache (suc id) reg real e = rw e

module _ (read : ℕ → Option ℕ) (xregs : ℕ → ℕ) (nzcv : ℕ) (file : Reads read xregs nzcv) where
  -- The copy, as appendMemoryHexdump takes it.
  abbrev pub copy : Option (ℕ → ℕ)
  copy = some (cached_x_regs xregs nzcv)

  copied-x : (n : ℕ) → n < 29 → cached_or_read read copy n ≡ some (xregs n)
  unfolding cached_x_regs
  copied-x n h =
      let low : ltb n 32 ≡ true = ground arith in
      cached_or_read-slot read _ n n (cached_x_reg_index-views n (omega arith)).0 ∙ rw low

  copied-w : (n : ℕ) → n < 29 → cached_or_read read copy (vc_w0 + n) ≡ some (xregs n)
  unfolding cached_x_regs
  copied-w n h =
      let low : ltb n 32 ≡ true = ground arith in
      cached_or_read-slot read _ (vc_w0 + n) n (cached_x_reg_index-views n (omega arith)).1 ∙ rw low

  read_directly : (reg : ℕ) → cached_or_read read none reg ≡ read reg
  unfolding cached_or_read
  read_directly reg = refl

  base_value-x :
      (n : ℕ)
      → n < 29
      → (base_value read none (235 + n) ≡ some (xregs n))
        × (base_value read copy (235 + n) ≡ some (xregs n))
  base_value-x n h = (
    base_value-mapped read none (235 + n) n (omega arith) (x_numbers n h)
        ∙ (read_directly n ∙ file.read_x n (omega arith)),
    base_value-mapped read copy (235 + n) n (omega arith) (x_numbers n h) ∙ copied-x n h,
  )

  index_value-w :
      (n : ℕ)
      → n < 29
      → (index_value read none (204 + n) ≡ xregs n % 2 ^ 32)
        × (index_value read copy (204 + n) ≡ xregs n)
  index_value-w n h = (
    index_value-mapped read none (204 + n) (vc_w0 + n) (omega arith) (w_numbers n h)
        ∙ ap (from_option 0 (λ v. v)) (read_directly (vc_w0 + n) ∙ file.read_w n (omega arith)),
    index_value-mapped read copy (204 + n) (vc_w0 + n) (omega arith) (w_numbers n h)
        ∙ ap (from_option 0 (λ v. v)) (copied-w n h),
  )

  -- The address of one operand with a base and an index.
  noted_address :
      (cache : Option (ℕ → ℕ)) (a : Access) (op : MemOperand) (p : PendingAccess) (base : ℕ)
      → op.base ≢ 0
      → op.index ≢ 0
      → op.base ≢ reg_x29
      → base_value read cache op.base ≡ some base
      → (note_accesses read cache a (op ∷ []) p).last_mem_address
        ≡ u64 (base + index_value read cache op.index + offset_of a op)
  unfolding note_accesses after_operand noted address_of ends_loop
  noted_address cache a op p base has_base has_index no_frame e =
      let b : (op.base == 0) ≡ false = ground arith in
      let i : (op.index == 0) ≡ false = ground arith in
      let f : (op.base == reg_x29) ≡ false = ground arith in
      let plain : is_plain op ≡ false = elim (Bool-cases (op.disp == 0)) [
        | inl d ↦ rw (b, i, d)
        | inr d ↦ rw (b, i, d)
      ] in
      elim (Bool-cases op.is_write) [
        | inl w ↦ rw (plain, b, i, f, e, w)
        | inr w ↦ rw (plain, b, i, f, e, w)
      ]

  pub note_accesses-word_index :
      (a : Access) (op : MemOperand) (p : PendingAccess) (n m : ℕ)
      → n < 29
      → m < 29
      → op.base ≡ 235 + n
      → op.index ≡ 204 + m
      → 2 ^ 32 ≤ xregs m
      → xregs m < 2 ^ 64
      → ((note_accesses read copy a (op ∷ []) p).last_mem_address
          ≡ u64 (xregs n + xregs m + offset_of a op))
        × ((note_accesses read none a (op ∷ []) p).last_mem_address
            ≡ u64 (xregs n + xregs m % 2 ^ 32 + offset_of a op))
        × ((note_accesses read copy a (op ∷ []) p).last_mem_address
            ≢ (note_accesses read none a (op ∷ []) p).last_mem_address)
  note_accesses-word_index a op p n m hn hm base index high small =
      let cached =
        noted_address copy a op p (xregs n) (ground arith) (ground arith) (ground arith)
          (ap (base_value read copy) base ∙ (base_value-x n hn).1) in
      let direct =
        noted_address none a op p (xregs n) (ground arith) (ground arith) (ground arith)
          (ap (base_value read none) base ∙ (base_value-x n hn).0) in
      let cached_index = ap (index_value read copy) index ∙ (index_value-w m hm).1 in
      let direct_index = ap (index_value read none) index ∙ (index_value-w m hm).0 in
      let whole = cached ∙ ap (λ i. u64 (xregs n + i + offset_of a op)) cached_index in
      let half = direct ∙ ap (λ i. u64 (xregs n + i + offset_of a op)) direct_index in
      (
        whole,
        half,
        λ same.
            let e : u64 (xregs n + xregs m + offset_of a op)
                ≡ u64 (xregs n + xregs m % 2 ^ 32 + offset_of a op) =
              sym whole ∙ (same ∙ half) in
            omega (arith, e),
      )
