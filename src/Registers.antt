-- ===== src/Registers.antt =====
-- The registers: the table of trace/src/ARM.cpp from Capstone's numbers to those of vc_reg
-- (include/vcpu.h), the cache index and the printer of trace/include/RegAccessPrinter.h and
-- trace/src/RegAccessPrinter.cpp. Capstone's numbers are those of its header aarch64.h.
pub mod Snapshot
pub mod Laws
mod Runs
use android_prybar.Base.{
  ℕ, ◌+◌, ◌-◌, ◌/◌, ◌%◌, ◌^◌, Bool, false, ◌&&◌, ◌||◌, Option, none, some, List, [], ◌∷◌, ◌++◌, ltb,
  leb, ◌==◌, if◌then◌else◌, ◌>>=◌, u32, length, take, bytes_of,
}
use android_prybar.Numbers.{uint64_to_hex, byte_to_hex}

-- initRegTable: NZCV, SP and LR, then X0 to X29, W0 to W30 and Q0 to Q31; all else is -1.
unfoldable pub reg_table : List (ℕ × ℕ)
reg_table =
    (5, 33)
    ∷ (6, 31)
    ∷ (4, 30)
    ∷ (235, 0)
    ∷ (236, 1)
    ∷ (237, 2)
    ∷ (238, 3)
    ∷ (239, 4)
    ∷ (240, 5)
    ∷ (241, 6)
    ∷ (242, 7)
    ∷ (243, 8)
    ∷ (244, 9)
    ∷ (245, 10)
    ∷ (246, 11)
    ∷ (247, 12)
    ∷ (248, 13)
    ∷ (249, 14)
    ∷ (250, 15)
    ∷ (251, 16)
    ∷ (252, 17)
    ∷ (253, 18)
    ∷ (254, 19)
    ∷ (255, 20)
    ∷ (256, 21)
    ∷ (257, 22)
    ∷ (258, 23)
    ∷ (259, 24)
    ∷ (260, 25)
    ∷ (261, 26)
    ∷ (262, 27)
    ∷ (263, 28)
    ∷ (2, 29)
    ∷ (204, 84)
    ∷ (205, 85)
    ∷ (206, 86)
    ∷ (207, 87)
    ∷ (208, 88)
    ∷ (209, 89)
    ∷ (210, 90)
    ∷ (211, 91)
    ∷ (212, 92)
    ∷ (213, 93)
    ∷ (214, 94)
    ∷ (215, 95)
    ∷ (216, 96)
    ∷ (217, 97)
    ∷ (218, 98)
    ∷ (219, 99)
    ∷ (220, 100)
    ∷ (221, 101)
    ∷ (222, 102)
    ∷ (223, 103)
    ∷ (224, 104)
    ∷ (225, 105)
    ∷ (226, 106)
    ∷ (227, 107)
    ∷ (228, 108)
    ∷ (229, 109)
    ∷ (230, 110)
    ∷ (231, 111)
    ∷ (232, 112)
    ∷ (233, 113)
    ∷ (234, 114)
    ∷ (140, 34)
    ∷ (141, 35)
    ∷ (142, 36)
    ∷ (143, 37)
    ∷ (144, 38)
    ∷ (145, 39)
    ∷ (146, 40)
    ∷ (147, 41)
    ∷ (148, 42)
    ∷ (149, 43)
    ∷ (150, 44)
    ∷ (151, 45)
    ∷ (152, 46)
    ∷ (153, 47)
    ∷ (154, 48)
    ∷ (155, 49)
    ∷ (156, 50)
    ∷ (157, 51)
    ∷ (158, 52)
    ∷ (159, 53)
    ∷ (160, 54)
    ∷ (161, 55)
    ∷ (162, 56)
    ∷ (163, 57)
    ∷ (164, 58)
    ∷ (165, 59)
    ∷ (166, 60)
    ∷ (167, 61)
    ∷ (168, 62)
    ∷ (169, 63)
    ∷ (170, 64)
    ∷ (171, 65)
    ∷ []

unfoldable pub find_reg : ℕ → List (ℕ × ℕ) → Option ℕ
find_reg reg_id [] = none
find_reg reg_id ((n, vc) ∷ rest) = if n == reg_id then some vc else find_reg reg_id rest

-- mapToUnicornReg, with `none` for -1; AARCH64_REG_ENDING is 700.
unfoldable pub map_to_unicorn_reg : ℕ → Option ℕ
map_to_unicorn_reg reg_id = if leb 700 reg_id then none else find_reg reg_id reg_table

-- The first numbers of the groups in vc_reg, and the two registers apart from them.
abbrev pub vc_sp : ℕ
vc_sp = 31

abbrev pub vc_nzcv : ℕ
vc_nzcv = 33

abbrev pub vc_q0 : ℕ
vc_q0 = 34

abbrev pub vc_w0 : ℕ
vc_w0 = 84

-- cachedXRegIndex, with `none` for -1; VC_REG_X0 is 0.
unfoldable pub cached_x_reg_index : ℕ → Option ℕ
cached_x_reg_index reg =
    if leb reg 28
    then some reg
    else if reg == 29
    then some 29
    else if reg == 30
    then some 30
    else if reg == vc_sp
    then some 31
    else if reg == vc_nzcv
    then some 32
    else if leb vc_w0 reg && leb reg (vc_w0 + 30)
    then some (reg - vc_w0)
    else none

-- What the printer calls: vc_reg_read_fast for a number and for the 16 bytes of a Q register, and
-- cs_reg_name.
pub record Machine : Type 0 where
  pub read : ℕ → ℕ
  pub read_q : ℕ → List ℕ
  pub reg_name : ℕ → Option (List ℕ)

-- appendRegName, whose table keeps the length in a uint8_t.
pub append_reg_name : Machine → ℕ → List ℕ
append_reg_name machine reg_id =
    let known = elim (machine.reg_name reg_id) as (λ _. List ℕ) [
      | none ↦ bytes_of "?"
      | some name ↦ take (length name % 256) name
    ] in
    if ltb reg_id 700 then known else bytes_of "?"

-- The registers that are read into a uint32_t: W0 to W30 and NZCV.
pub is_word : ℕ → Bool
is_word reg = reg == vc_nzcv || leb vc_w0 reg && leb reg (vc_w0 + 30)

pub seen : ℕ → ℕ → ℕ
seen reg v = if is_word reg then u32 v else v

-- `idx >= 0 ? cache[idx] : vc_reg_read_fast(…)`, with `none` for the null cache.
pub reg_value : Machine → Option (ℕ → ℕ) → ℕ → ℕ
reg_value machine none reg = seen reg (machine.read reg)
reg_value machine (some cache) reg = elim (cached_x_reg_index reg) as (λ _. ℕ) [
  | none ↦ seen reg (machine.read reg)
  | some idx ↦ seen reg (cache idx)
]

-- hashBit(value, offset) ? '1' : '0'
pub flag_char : ℕ → ℕ → ℕ
flag_char value offset = if value / 2 ^ offset % 2 == 1 then b'1' else b'0'

pub nzcv_text : ℕ → List ℕ
nzcv_text value =
    bytes_of " nzcv: N="
    ++ (flag_char value 31
        ∷ (bytes_of ", Z="
            ++ (flag_char value 30
                ∷ (bytes_of ", C="
                    ++ (flag_char value 29 ∷ (bytes_of ", V=" ++ (flag_char value 28 ∷ [])))))))

-- ` name=0x`
pub name_and_equals : Machine → ℕ → List ℕ
name_and_equals machine reg_id = bytes_of " " ++ (append_reg_name machine reg_id ++ bytes_of "=0x")

pub q_digits : List ℕ → List ℕ
q_digits [] = []
q_digits (b ∷ rest) = byte_to_hex b ++ q_digits rest

-- What is printed for one register; `none` for the kinds that are passed over.
pub reg_text : Machine → Option (ℕ → ℕ) → ℕ → ℕ → Option (Option (List ℕ))
reg_text machine cache capstone_reg_id reg =
    let number = (do
      digits ← uint64_to_hex (reg_value machine cache reg)
      some (some (name_and_equals machine capstone_reg_id ++ digits))) in
    if reg == vc_nzcv
    then some (some (nzcv_text (reg_value machine cache reg)))
    else if leb reg 30 || reg == vc_sp || leb vc_w0 reg && leb reg (vc_w0 + 30)
    then number
    else if leb vc_q0 reg && leb reg (vc_q0 + 31)
    then some
        (some (name_and_equals machine capstone_reg_id ++ q_digits (take 16 (machine.read_q reg))))
    else some none

-- What is appended for it, ` =>` before it the first time, and `forWriteRegs` after it.
pub shown_part : Bool → Option (List ℕ) → List ℕ × Bool
shown_part for_write none = ([], for_write)
shown_part for_write (some text) = ((if for_write then bytes_of " =>" else []) ++ text, false)

-- The loop over `accessRegs`. The results are the text and `forWriteRegs`.
pub print_regs : Machine → Option (ℕ → ℕ) → Bool → List ℕ → Option (List ℕ × Bool)
print_regs machine cache for_write [] = some ([], for_write)
print_regs machine cache for_write (capstone_reg_id ∷ rest) =
    elim (map_to_unicorn_reg capstone_reg_id) as (λ _. Option (List ℕ × Bool)) [
      | none ↦ some ([], for_write)
      | some reg ↦ do
        shown ← reg_text machine cache capstone_reg_id reg
        let printed = shown_part for_write shown
        (others, flag) ← print_regs machine cache printed.1 rest
        some (printed.0 ++ others, flag)
    ]

-- regAccessPrinterImpl
pub reg_access_print : Machine → Option (ℕ → ℕ) → ℕ → ℕ → Bool → List ℕ → Option (List ℕ × Bool)
reg_access_print machine cache own_address address for_write access_regs =
    let printed = print_regs machine cache for_write access_regs in
    if own_address == address then printed else some ([], for_write)
