-- ===== src/MemAccess/Sizes.antt =====
-- The sizes of trace/src/MemPrinter.cpp.
use android_prybar.Base.{
  ℕ, ◌+◌, ◌≤◌, ◌<◌, ◌≡◌, inl, inr, ◌&&◌, Option, none, some, List, [], ◌∷◌, arith, ltb, leb, ◌==◌,
  Bool-cases,
}
use android_prybar.MemAccess.{
  reg_width, Instruction, ldrb, strb, ldurb, sturb, ldrsb, ldursb, ldrh, strh, ldurh, sturh, ldrsh,
  ldursh, ldrsw, ldursw, ldpsw, other_instruction, Operand, fixed_size, moves_pair, widest,
  size_of_widest, size_by_operands, size_or, mem_access_size,
}

reg_width_bound : (reg : ℕ) → reg_width reg ≤ 16
unfolding reg_width
reg_width_bound reg = ground arith

widest_bound : (ops : List Operand) (w nregs : ℕ) → w ≤ 16 → (widest ops w nregs).0 ≤ 16
unfolding widest
widest_bound [] w nregs h = h
widest_bound (none ∷ rest) w nregs h = widest_bound rest w nregs h
widest_bound (some reg ∷ rest) w nregs h = elim (Bool-cases (reg_width reg == 0)) [
  | inl e ↦ rw e (widest_bound rest w nregs h)
  | inr e ↦ elim (Bool-cases (ltb w (reg_width reg))) [
    | inl l ↦ rw (e, l) (widest_bound rest (reg_width reg) (nregs + 1) (reg_width_bound reg))
    | inr l ↦ rw (e, l) (widest_bound rest w (nregs + 1) h)
  ]
]

size_of_widest_bounds :
    (id : Instruction) (w nregs : ℕ)
    → w ≤ 16
    → (1 ≤ size_of_widest id w nregs) × (size_of_widest id w nregs ≤ 32)
unfolding size_of_widest
size_of_widest_bounds id w nregs h = elim (Bool-cases (w == 0)) [
  | inl e ↦ rw e (omega arith, omega arith)
  | inr e ↦
      let some_width : 0 < w = ground arith in
      elim (Bool-cases (leb 2 nregs && moves_pair id)) [
        | inl p ↦ rw (e, p) (omega arith, omega arith)
        | inr p ↦ rw (e, p) (omega arith, omega arith)
      ]
]

size_by_operands_bounds :
    (id : Instruction) (operands : Option (List Operand))
    → (1 ≤ size_by_operands id operands) × (size_by_operands id operands ≤ 32)
unfolding size_by_operands
size_by_operands_bounds id none = (omega arith, omega arith)
size_by_operands_bounds id (some ops) =
    size_of_widest_bounds id (widest ops 0 0).0 (widest ops 0 0).1
      (widest_bound ops 0 0 (omega arith))

fixed_size_bounds :
    (id : Instruction) (size : ℕ)
    → (1 ≤ size) × (size ≤ 32)
    → (1 ≤ size_or (fixed_size id) size) × (size_or (fixed_size id) size ≤ 32)
unfolding fixed_size size_or
fixed_size_bounds ldrb size h = (omega arith, omega arith)
fixed_size_bounds strb size h = (omega arith, omega arith)
fixed_size_bounds ldurb size h = (omega arith, omega arith)
fixed_size_bounds sturb size h = (omega arith, omega arith)
fixed_size_bounds ldrsb size h = (omega arith, omega arith)
fixed_size_bounds ldursb size h = (omega arith, omega arith)
fixed_size_bounds ldrh size h = (omega arith, omega arith)
fixed_size_bounds strh size h = (omega arith, omega arith)
fixed_size_bounds ldurh size h = (omega arith, omega arith)
fixed_size_bounds sturh size h = (omega arith, omega arith)
fixed_size_bounds ldrsh size h = (omega arith, omega arith)
fixed_size_bounds ldursh size h = (omega arith, omega arith)
fixed_size_bounds ldrsw size h = (omega arith, omega arith)
fixed_size_bounds ldursw size h = (omega arith, omega arith)
fixed_size_bounds ldpsw size h = (omega arith, omega arith)
fixed_size_bounds _ size h = h

-- Whatever the instruction and its operands, at least 1 and at most 32 bytes are moved.
pub mem_access_size_bounds :
    (id : Instruction) (operands : Option (List Operand))
    → (1 ≤ mem_access_size id operands) × (mem_access_size id operands ≤ 32)
unfolding mem_access_size
mem_access_size_bounds id operands =
    fixed_size_bounds id (size_by_operands id operands) (size_by_operands_bounds id operands)

word_width : (reg : ℕ) → 204 ≤ reg → reg ≤ 234 → reg_width reg ≡ 4
unfolding reg_width
word_width reg a b = ground arith

double_width : (reg : ℕ) → 235 ≤ reg → reg ≤ 263 → reg_width reg ≡ 8
unfolding reg_width
double_width reg a b = ground arith

-- A store-exclusive, with its status in a W register and its data in an X register, moves 8 bytes.
pub mem_access_size_exclusive :
    (status content : ℕ)
    → 204 ≤ status
    → status ≤ 234
    → 235 ≤ content
    → content ≤ 263
    → mem_access_size other_instruction (some (some status ∷ some content ∷ none ∷ [])) ≡ 8
unfolding mem_access_size fixed_size size_or size_by_operands size_of_widest widest moves_pair
mem_access_size_exclusive status content a b c d =
    let word : reg_width status ≡ 4 = word_width status a b in
    let double : reg_width content ≡ 8 = double_width content c d in rw (word, double)
