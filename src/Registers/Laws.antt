-- ===== src/Registers/Laws.antt =====
-- The register table, the cache index and the printer agree with each other.
use mathlib.Core.Option.{some-injective}
use android_prybar.Base.{
  ℕ, ◌+◌, ◌-◌, ◌%◌, ◌^◌, ◌≤◌, ◌≡◌, refl, sym, ap, ◌∙◌, subst, inl, inr, Bool, true, false, ◌&&◌,
  none, some, List, [], ◌∷◌, arith, ltb, leb, ◌==◌, leb→le, ==_iff, Bool-cases, Option-cases,
}
use android_prybar.Registers.{
  map_to_unicorn_reg, vc_sp, vc_nzcv, vc_w0, cached_x_reg_index, Machine, is_word, seen, reg_value,
  reg_text, shown_part, print_regs,
}
use android_prybar.Registers.Snapshot.{cached_x_regs, Reads}

-- The X and the W view of a general register are one slot of the cache.
pub cached_x_reg_index-views :
    (n : ℕ) → n ≤ 30 → (cached_x_reg_index n ≡ some n) × (cached_x_reg_index (vc_w0 + n) ≡ some n)
unfolding cached_x_reg_index
cached_x_reg_index-views n h = (ground arith, ground arith)

reg_value-slot :
    (machine : Machine) (cache : ℕ → ℕ) (reg i : ℕ)
    → cached_x_reg_index reg ≡ some i
    → seen reg (cache i) ≡ seen reg (machine.read reg)
    → reg_value machine (some cache) reg ≡ reg_value machine none reg
unfolding reg_value
reg_value-slot machine cache reg i slot same = rw (reg_value, slot) same

reg_value-no_slot :
    (machine : Machine) (cache : ℕ → ℕ) (reg : ℕ)
    → cached_x_reg_index reg ≡ none
    → reg_value machine (some cache) reg ≡ reg_value machine none reg
unfolding reg_value
reg_value-no_slot machine cache reg slot = rw (reg_value, slot)

pub no_slot :
    (reg : ℕ)
    → leb reg 30 ≡ false
    → (reg == vc_sp) ≡ false
    → (reg == vc_nzcv) ≡ false
    → (leb vc_w0 reg && leb reg (vc_w0 + 30)) ≡ false
    → cached_x_reg_index reg ≡ none
unfolding cached_x_reg_index
no_slot reg a b c d = ground arith

seen_word : (n v : ℕ) → n ≤ 30 → seen (vc_w0 + n) v ≡ v % 2 ^ 32
unfolding seen is_word
seen_word n v h = ground arith

module _ (machine : Machine) (xregs : ℕ → ℕ) (nzcv : ℕ)
    (file : Reads (λ reg. some (machine.read reg)) xregs nzcv) where
  reg_value-x :
      (n : ℕ)
      → n ≤ 30
      → reg_value machine (some (cached_x_regs xregs nzcv)) n ≡ reg_value machine none n
  unfolding cached_x_regs
  reg_value-x n h =
      let low : ltb n 32 ≡ true = ground arith in
      let here : machine.read n ≡ xregs n = some-injective _ _ (file.read_x n h) in
      reg_value-slot machine _ n n (cached_x_reg_index-views n h).0
        (ap (seen n) (rw low (sym here)))

  reg_value-w :
      (n : ℕ)
      → n ≤ 30
      → reg_value machine (some (cached_x_regs xregs nzcv)) (vc_w0 + n)
        ≡ reg_value machine none (vc_w0 + n)
  unfolding cached_x_regs
  reg_value-w n h =
      let low : ltb n 32 ≡ true = ground arith in
      let here : machine.read (vc_w0 + n) ≡ xregs n % 2 ^ 32 =
        some-injective _ _ (file.read_w n h) in
      let halves : xregs n % 2 ^ 32 ≡ xregs n % 2 ^ 32 % 2 ^ 32 = omega arith in
      reg_value-slot machine _ (vc_w0 + n) n (cached_x_reg_index-views n h).1 (
        seen_word n _ h
        ∙ (rw low halves ∙ (ap (λ v. v % 2 ^ 32) (sym here) ∙ sym (seen_word n _ h))))

  reg_value-sp :
      reg_value machine (some (cached_x_regs xregs nzcv)) vc_sp ≡ reg_value machine none vc_sp
  unfolding cached_x_regs cached_x_reg_index
  reg_value-sp =
      reg_value-slot machine _ vc_sp 31 refl
        (ap (seen vc_sp) (sym (some-injective _ _ file.read_sp)))

  reg_value-nzcv :
      reg_value machine (some (cached_x_regs xregs nzcv)) vc_nzcv ≡ reg_value machine none vc_nzcv
  unfolding cached_x_regs cached_x_reg_index
  reg_value-nzcv =
      reg_value-slot machine _ vc_nzcv 32 refl
        (ap (seen vc_nzcv) (sym (some-injective _ _ file.read_nzcv)))

  abbrev Same : ℕ → Type 0
  Same reg = reg_value machine (some (cached_x_regs xregs nzcv)) reg ≡ reg_value machine none reg

  reg_value-cache : (reg : ℕ) → Same reg
  reg_value-cache reg = elim (Bool-cases (leb reg 30)) [
    | inl x ↦ reg_value-x reg (leb→le reg 30 x)
    | inr x ↦ elim (Bool-cases (reg == vc_sp)) [
      | inl sp ↦ subst Same (sym ((==_iff reg vc_sp).0 sp)) reg_value-sp
      | inr s ↦ elim (Bool-cases (reg == vc_nzcv)) [
        | inl flags ↦ subst Same (sym ((==_iff reg vc_nzcv).0 flags)) reg_value-nzcv
        | inr f ↦ elim (Bool-cases (leb vc_w0 reg && leb reg (vc_w0 + 30))) [
          | inl w ↦
              let n : vc_w0 + (reg - vc_w0) ≡ reg = ground arith in
              subst Same n (reg_value-w (reg - vc_w0) (ground arith))
          | inr o ↦ reg_value-no_slot machine _ reg (no_slot reg x s f o)
        ]
      ]
    ]
  ]

  reg_text-cache :
      (id reg : ℕ)
      → reg_text machine (some (cached_x_regs xregs nzcv)) id reg ≡ reg_text machine none id reg
  unfolding reg_text
  reg_text-cache id reg = rw (reg_value-cache reg)

  -- On a register file as include/vcpu.h describes it, the copy that is taken of it changes nothing of what
  -- is printed: what is read from the copy is what reading the registers gives.
  pub print_regs-cache :
      (for_write : Bool) (regs : List ℕ)
      → print_regs machine (some (cached_x_regs xregs nzcv)) for_write regs
        ≡ print_regs machine none for_write regs
  unfolding print_regs
  print_regs-cache for_write [] = refl
  print_regs-cache for_write (id ∷ rest) = elim (Option-cases (map_to_unicorn_reg id)) [
    | inl e ↦ rw (print_regs, e)
    | inr reg ↦
        let same = reg_text-cache id reg.0 in
        elim (Option-cases (reg_text machine none id reg.0)) [
          | inl e ↦ rw (print_regs, reg.1, same, e)
          | inr shown ↦
              let rest_same = print_regs-cache (shown_part for_write shown.0).1 rest in
              rw (print_regs, reg.1, same, shown.1, rest_same)
        ]
  ]
