-- ===== src/Numbers/Digits.antt =====
-- Reading a number back from its digits, most significant first.
use android_prybar.Base.{
  ℕ, ◌+◌, ◌-◌, ◌*◌, ◌<◌, ◌≡◌, refl, true, ◌&&◌, List, [], ◌∷◌, ◌++◌, arith, ltb, ◌==◌,
  if◌then◌else◌,
}
use android_prybar.Base.Bits.{every, every_at}
use android_prybar.Numbers.{hex_char, dec_char}

-- The value of a hexadecimal or decimal digit.
unfoldable pub digit_value : ℕ → ℕ
digit_value c = if ltb c 58 then c - 48 else c - 87

unfoldable pub read_number : ℕ → ℕ → List ℕ → ℕ
read_number base acc [] = acc
read_number base acc (c ∷ cs) = read_number base (acc * base + digit_value c) cs

pub read_number-append :
    (base acc : ℕ) (xs : List ℕ) (c : ℕ)
    → read_number base acc (xs ++ (c ∷ [])) ≡ read_number base acc xs * base + digit_value c
unfolding read_number
read_number-append base acc [] c = refl
read_number-append base acc (x ∷ xs) c = read_number-append base (acc * base + digit_value x) xs c

hex_table : every (λ d. digit_value (hex_char d) == d && ltb 47 (hex_char d)) 16 ≡ true
unfolding every digit_value hex_char
hex_table = refl

pub digit_value-hex_char : (d : ℕ) → d < 16 → digit_value (hex_char d) ≡ d
digit_value-hex_char d h = ground (arith, every_at _ 16 d h hex_table)

pub digit_value-dec_char : (d : ℕ) → d < 10 → digit_value (dec_char d) ≡ d
unfolding digit_value dec_char
digit_value-dec_char d h = ground arith
