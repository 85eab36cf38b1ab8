-- ===== src/Plt/Stub.antt =====
-- The stubs that a linker writes, and what resolvePltTarget of trace/src/EastTrace.cpp reads from them.
use android_prybar.Base.{
  ℕ, ◌+◌, ◌-◌, ◌*◌, ◌/◌, ◌%◌, ◌^◌, ◌≤◌, ◌<◌, ◌≡◌, inl, inr, true, arith, ltb, u64, ltb→lt,
  ltb_false→le, Bool-cases,
}
use android_prybar.Plt.{
  is_adrp_x16, is_ldr_x17, adrp_imm, adrp_offset, ldr_offset, resolve_plt_target,
}

-- How many pages lie between an instruction and an address, in 21 bits of two's complement.
abbrev pub page_delta : ℕ → ℕ → ℕ
page_delta addr got = (got / 4096 + 2 ^ 21 - addr / 4096) % 2 ^ 21

-- The architecture's encodings of adrp x16 and of ldr x17, [x16, #8 * imm].
abbrev pub adrp_x16 : ℕ → ℕ
adrp_x16 imm = 2 ^ 31 + imm % 4 * 2 ^ 29 + 16 * 2 ^ 24 + imm / 4 * 2 ^ 5 + 16

abbrev pub ldr_x17 : ℕ → ℕ
ldr_x17 imm = 0x3E5 * 2 ^ 22 + imm * 2 ^ 10 + 0x211

is_adrp_x16-adrp_x16 : (imm : ℕ) → imm < 2 ^ 21 → is_adrp_x16 (adrp_x16 imm) ≡ true
unfolding is_adrp_x16
is_adrp_x16-adrp_x16 imm h =
    let a : adrp_x16 imm / 2 ^ 31 ≡ 1 = omega arith in
    let b : adrp_x16 imm / 2 ^ 24 % 2 ^ 5 ≡ 16 = omega arith in
    let c : adrp_x16 imm % 2 ^ 5 ≡ 16 = omega arith in rw (a, b, c)

adrp_imm-adrp_x16 : (imm : ℕ) → imm < 2 ^ 21 → adrp_imm (adrp_x16 imm) ≡ imm
unfolding adrp_imm
adrp_imm-adrp_x16 imm h =
    let a : adrp_x16 imm / 2 ^ 5 % 2 ^ 19 ≡ imm / 4 = omega arith in
    let b : adrp_x16 imm / 2 ^ 29 % 4 ≡ imm % 4 = omega arith in rw (a, b) (omega arith)

is_ldr_x17-ldr_x17 : (imm : ℕ) → imm < 2 ^ 12 → is_ldr_x17 (ldr_x17 imm) ≡ true
unfolding is_ldr_x17
is_ldr_x17-ldr_x17 imm h =
    let a : ldr_x17 imm / 2 ^ 22 ≡ 0x3E5 = omega arith in
    let b : ldr_x17 imm % 2 ^ 10 ≡ 0x211 = omega arith in rw (a, b)

ldr_offset-ldr_x17 : (imm : ℕ) → imm < 2 ^ 12 → ldr_offset (ldr_x17 imm) ≡ imm * 8
unfolding ldr_offset
ldr_offset-ldr_x17 imm h = let a : ldr_x17 imm / 2 ^ 10 % 2 ^ 12 ≡ imm = omega arith in rw a

-- The page that adrp gives.
adrp_offset-page_delta :
    (addr got : ℕ)
    → addr < 2 ^ 64
    → got < 2 ^ 64
    → got / 4096 < addr / 4096 + 2 ^ 20
    → addr / 4096 ≤ got / 4096 + 2 ^ 20
    → u64 (addr - addr % 4096 + adrp_offset (page_delta addr got)) ≡ got / 4096 * 4096
unfolding adrp_offset
adrp_offset-page_delta addr got small small' near near' =
    elim (Bool-cases (ltb (page_delta addr got) (2 ^ 20))) [
      | inl b ↦ rw b (omega (arith, ltb→lt _ _ b))
      | inr b ↦ rw b (omega (arith, ltb_false→le _ _ b))
    ]

-- Of a stub whose two instructions address an entry of the table, aligned to 8 bytes and within the reach
-- of adrp, the word of that entry is what resolvePltTarget gives.
pub resolve_plt_target-stub :
    (word quad : ℕ → ℕ) (addr got : ℕ)
    → addr < 2 ^ 64
    → got < 2 ^ 64
    → got % 8 ≡ 0
    → got / 4096 < addr / 4096 + 2 ^ 20
    → addr / 4096 ≤ got / 4096 + 2 ^ 20
    → word addr ≡ adrp_x16 (page_delta addr got)
    → word (addr + 4) ≡ ldr_x17 (got % 4096 / 8)
    → resolve_plt_target word quad addr ≡ quad got
unfolding resolve_plt_target
resolve_plt_target-stub word quad addr got small small' aligned near near' first second =
    let delta : page_delta addr got < 2 ^ 21 = omega arith in
    let slot : got % 4096 / 8 < 2 ^ 12 = omega arith in
    let whole : u64 (got / 4096 * 4096 + got % 4096 / 8 * 8) ≡ got = omega arith in
    rw (
      first,
      second,
      is_adrp_x16-adrp_x16 _ delta,
      is_ldr_x17-ldr_x17 _ slot,
      adrp_imm-adrp_x16 _ delta,
      ldr_offset-ldr_x17 _ slot,
      adrp_offset-page_delta addr got small small' near near',
      whole,
    )
