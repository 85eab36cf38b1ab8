-- ===== src/Registers/Runs.antt =====
-- The registers at concrete inputs.
use android_prybar.Base.{
  ℕ, ◌+◌, ◌-◌, ◌%◌, ◌^◌, ◌≡◌, refl, ap, true, false, none, some, [], ◌∷◌, arith, leb, ◌==◌,
  if◌then◌else◌, replicate, bytes_of,
}
use android_prybar.Registers.{
  reg_table, find_reg, map_to_unicorn_reg, Machine, is_word, seen, reg_value, flag_char, nzcv_text,
  reg_text, shown_part, print_regs,
}
use android_prybar.Registers.Laws.{print_regs-cache}
use android_prybar.Registers.Snapshot.{cached_x_regs, Reads}

abbrev steady : Machine
steady = record {
  read = λ reg. 2 ^ 31 + 7;
  read_q = λ reg. replicate 16 171;
  reg_name = λ reg. some (bytes_of "x1");
}

flags_text :
    print_regs steady none true (5 ∷ []) ≡ some (bytes_of " => nzcv: N=1, Z=0, C=0, V=0", false)
unfolding print_regs map_to_unicorn_reg find_reg reg_table reg_text reg_value seen is_word nzcv_text
    flag_char shown_part
flags_text = refl

-- A register file where X1 is 2^40 + 9.
abbrev file : ℕ → ℕ
file i = if i == 1 then 2 ^ 40 + 9 else i

abbrev read_file : ℕ → ℕ
read_file reg =
    if leb reg 31 then file reg else if leb 84 reg then file (reg - 84) % 2 ^ 32 else 2 ^ 31

abbrev filed : Machine
filed = record steady { read = read_file }

filed-Reads : Reads (λ reg. some (filed.read reg)) file (2 ^ 31)
filed-Reads = record {
  read_x = λ n h. ap some (ground arith);
  read_sp = refl;
  read_nzcv = refl;
  read_w = λ n h. ap some (ground arith);
}

print_regs-cache_example :
    print_regs filed (some (cached_x_regs file (2 ^ 31))) true (5 ∷ 236 ∷ 205 ∷ 140 ∷ [])
    ≡ print_regs filed none true (5 ∷ 236 ∷ 205 ∷ 140 ∷ [])
print_regs-cache_example =
    print_regs-cache filed file (2 ^ 31) filed-Reads true (5 ∷ 236 ∷ 205 ∷ 140 ∷ [])
