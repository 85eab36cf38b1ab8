-- ===== src/Numbers/Decode.antt =====
-- What the formatted numbers read back as.
use native.Mathlib.Nat.{pow-suc, pow-zero, one-le-pow, mod-lt, div-add-mod', div-lt_iff_lt-mul}
use android_prybar.Base.{
  ℕ, zero, suc, ◌+◌, ◌*◌, ◌/◌, ◌%◌, ◌^◌, ◌≤◌, ◌<◌, ◌≡◌, refl, sym, inl, inr, Option, some, List, [],
  ◌∷◌, arith, ◌==◌, ==_iff, Bool-cases, length, length-append, bytes_of,
}
use android_prybar.Numbers.{
  hex_char, dec_char, digit_loop, reversed, uint64_to_hex, uint64_to_dec, uint64_to_hex_padded,
}
use android_prybar.Numbers.Digits.{
  digit_value, read_number, read_number-append, digit_value-hex_char, digit_value-dec_char,
}

-- A characters' function whose digits read back.
abbrev pub Digits : (ℕ → ℕ) → ℕ → Type 0
Digits char_of base = (d : ℕ) → d < base → digit_value (char_of d) ≡ d

mod_sixteen : (x m : ℕ) → 0 < m → x % (m * 16) ≡ x / 16 % m * 16 + x % 16
mod_sixteen x m h = grind arith

pub read_number-padded :
    (val width : ℕ) → read_number 16 0 (uint64_to_hex_padded val width) ≡ val % 16 ^ width
unfolding uint64_to_hex_padded read_number
read_number-padded val zero = omega arith
read_number-padded val (suc width) =
    rw
      (
        read_number-append 16 0 (uint64_to_hex_padded (val / 16) width) (hex_char (val % 16)),
        read_number-padded (val / 16) width,
        digit_value-hex_char (val % 16) (omega arith),
        pow-suc 16 width,
      )
      (sym (mod_sixteen val (16 ^ width) (one-le-pow width 16 (omega arith))))

pub length-padded : (val width : ℕ) → length (uint64_to_hex_padded val width) ≡ width
unfolding uint64_to_hex_padded
length-padded val zero = refl
length-padded val (suc width) = omega (
  arith,
  length-append (uint64_to_hex_padded (val / 16) width) (hex_char (val % 16) ∷ []),
  length-padded (val / 16) width,
)

-- What the loop leaves in `tmp` for `val`.
abbrev pub Loops : ℕ → ℕ → ℕ → Option (List ℕ) → Type 0
Loops base room val r =
    (ds : List ℕ) × (r ≡ some ds) × (length ds ≤ room) × (read_number base 0 (reversed ds) ≡ val)

-- With room for the digits of `val`, the loop ends, and its digits, reversed, read back as `val`.
pub digit_loop_lem :
    (char_of : ℕ → ℕ) (base room val : ℕ)
    → 1 < base
    → Digits char_of base
    → val < base ^ room
    → Loops base room val (digit_loop char_of base room val)
unfolding digit_loop reversed read_number
digit_loop_lem char_of base zero val b d h =
    let z : val ≡ 0 = omega (arith, pow-zero base) in ([], rw z, omega arith, sym z)
digit_loop_lem char_of base (suc room) val b d h = elim (Bool-cases (val == 0)) [
  | inl e ↦ ([], rw e, omega arith, sym ((==_iff val 0).0 e))
  | inr e ↦
      let (ds, e', short, value) =
        digit_loop_lem char_of base room (val / base) b d
          ((div-lt_iff_lt-mul (omega arith)).1 (rw (pow-suc base room) at h)) in
      (
        char_of (val % base) ∷ ds,
        rw (e, e'),
        omega (arith, short),
        rw
            (
              read_number-append base 0 (reversed ds) (char_of (val % base)),
              value,
              d (val % base) (mod-lt val (omega arith)),
            )
            (div-add-mod' val base),
      )
]

-- What a formatting function leaves for `val`, in at most `room` characters.
abbrev pub Formats : ℕ → ℕ → ℕ → Option (List ℕ) → Type 0
Formats base room val r =
    (text : List ℕ) × (r ≡ some text) × (length text ≤ room) × (read_number base 0 text ≡ val)

length-reversed : (xs : List ℕ) → length (reversed xs) ≡ length xs
unfolding reversed
length-reversed [] = refl
length-reversed (x ∷ xs) = omega (arith, length-append (reversed xs) (x ∷ []), length-reversed xs)

-- A 64-bit number takes at most 16 characters in hexadecimal, no store leaves `tmp`, and they read
-- back as the number.
pub uint64_to_hex-Formats : (val : ℕ) → val < 2 ^ 64 → Formats 16 16 val (uint64_to_hex val)
unfolding uint64_to_hex read_number digit_value
uint64_to_hex-Formats val h = elim (Bool-cases (val == 0)) [
  | inl e ↦ (bytes_of "0", rw e, omega arith, rw ((==_iff val 0).0 e))
  | inr e ↦
      let (ds, e', short, value) =
        digit_loop_lem hex_char 16 16 val (omega arith) digit_value-hex_char (omega arith) in
      (reversed ds, rw (e, e'), omega (arith, short, length-reversed ds), value)
]

-- A 64-bit number takes at most 20 characters in decimal, no store leaves `tmp`, and they read back
-- as the number.
pub uint64_to_dec-Formats : (val : ℕ) → val < 2 ^ 64 → Formats 10 20 val (uint64_to_dec val)
unfolding uint64_to_dec read_number digit_value
uint64_to_dec-Formats val h = elim (Bool-cases (val == 0)) [
  | inl e ↦ (bytes_of "0", rw e, omega arith, rw ((==_iff val 0).0 e))
  | inr e ↦
      let (ds, e', short, value) =
        digit_loop_lem dec_char 10 20 val (omega arith) digit_value-dec_char (omega arith) in
      (reversed ds, rw (e, e'), omega (arith, short, length-reversed ds), value)
]

-- The padded form of a 64-bit number in `width` digits has `width` characters, and they read back as
-- the number's last `width` digits.
pub uint64_to_hex_padded_lem :
    (val width : ℕ)
    → (length (uint64_to_hex_padded val width) ≡ width)
      × (read_number 16 0 (uint64_to_hex_padded val width) ≡ val % 16 ^ width)
uint64_to_hex_padded_lem val width = (length-padded val width, read_number-padded val width)
