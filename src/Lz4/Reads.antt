-- ===== src/Lz4/Reads.antt =====
-- `lz4_read32` and `lz4_read64` as little-endian numbers, and equal bytes found by comparing them.
use native.Mathlib.Nat.{pow-suc, one-le-pow, mod-mod_of_dvd, dvd_refl, dvd-mul_right_of_dvd}
use Prim.Native.Nat.{◌∣◌}
use native.Mathlib.Numerals.{towards_suc}
use android_prybar.Base.{
  ℕ, zero, suc, ◌+◌, ◌*◌, ◌/◌, ◌%◌, ◌^◌, ◌≤◌, ◌<◌, bit_xor, ◌≡◌, refl, sym, ap, ◌∙◌, subst, some,
  List, [], ◌∷◌, arith, IsByte, length, get_elem?, take, drop, All, length-take, length-drop,
  All-take, All-drop,
}
use android_prybar.Base.Bits.{ctz, ctz_bound, mod-ctz}
use android_prybar.Lz4.{read32, read64}

abbrev pub value : List ℕ → ℕ
value [] = 0
value (b ∷ bs) = b + 256 * value bs

-- The same `n` bytes stand at `a` and at `b`, the end of the input included.
abbrev pub Same : List ℕ → ℕ → ℕ → ℕ → Type 0
Same src a b n = (i : ℕ) → i < n → get_elem? src (a + i) ≡ get_elem? src (b + i)

pub get_elem?-drop : (xs : List ℕ) (i j : ℕ) → get_elem? xs (i + j) ≡ get_elem? (drop i xs) j
get_elem?-drop xs zero j = let e : 0 + j ≡ j = omega arith in rw e
get_elem?-drop [] (suc i) j = refl
get_elem?-drop (x ∷ xs) (suc i) j =
    let e : suc i + j ≡ suc (i + j) = omega arith in rw e (get_elem?-drop xs i j)

get_elem?-take : (xs : List ℕ) (n i : ℕ) → i < n → get_elem? (take n xs) i ≡ get_elem? xs i
get_elem?-take xs zero i h = absurd (omega arith)
get_elem?-take [] (suc n) i h = refl
get_elem?-take (x ∷ xs) (suc n) zero h = refl
get_elem?-take (x ∷ xs) (suc n) (suc i) h = get_elem?-take xs n i (omega arith)

take-take : {A : Type 0} (k n : ℕ) (xs : List A) → k ≤ n → take k (take n xs) ≡ take k xs
take-take zero n xs h = refl
take-take (suc k) zero xs h = absurd (omega arith)
take-take (suc k) (suc n) [] h = refl
take-take (suc k) (suc n) (x ∷ xs) h = ap (◌∷◌ x) (take-take k n xs (omega arith))

Same-of_take :
    (src : List ℕ) (a b n : ℕ) → take n (drop a src) ≡ take n (drop b src) → Same src a b n
Same-of_take src a b n e i h =
    rw (get_elem?-drop src a i, get_elem?-drop src b i)
      (sym (get_elem?-take (drop a src) n i h)
        ∙ ap (λ xs. get_elem? xs i) e
        ∙ get_elem?-take (drop b src) n i h)

mod_256 : (x v m : ℕ) → x < 256 → 0 < m → (x + 256 * v) % (256 * m) ≡ x + 256 * (v % m)
mod_256 x v m p q = grind arith

head_and_tail :
    (x y v w k : ℕ)
    → x < 256
    → y < 256
    → (x + 256 * v) % 256 ^ suc k ≡ (y + 256 * w) % 256 ^ suc k
    → (x ≡ y) × (v % 256 ^ k ≡ w % 256 ^ k)
head_and_tail x y v w k p q e =
    let m = 256 ^ k in
    let step : 256 ^ suc k ≡ 256 * m = omega (arith, pow-suc 256 k) in
    let pos = one-le-pow k 256 (omega arith) in
    let e' = rw step at e in omega (arith, mod_256 x v m p pos, mod_256 y w m q pos)

-- Two runs of bytes agree as far as their values agree.
take_of_value :
    (k : ℕ) (xs ys : List ℕ)
    → All IsByte xs
    → All IsByte ys
    → length xs ≡ length ys
    → value xs % 256 ^ k ≡ value ys % 256 ^ k
    → take k xs ≡ take k ys
take_of_value zero xs ys p q l e = refl
take_of_value (suc k) [] [] p q l e = refl
take_of_value (suc k) [] (y ∷ ys) p q l e = absurd (omega arith)
take_of_value (suc k) (x ∷ xs) [] p q l e = absurd (omega arith)
take_of_value (suc k) (x ∷ xs) (y ∷ ys) p q l e =
    let both = head_and_tail x y (value xs) (value ys) k p.0 q.0 e in
    let rest : take k xs ≡ take k ys = take_of_value k xs ys p.1 q.1 (omega arith) both.1 in
    cc (both.0, rest)

read32_four : (xs : List ℕ) → 4 ≤ length xs → read32 xs 0 ≡ some (value (take 4 xs))
unfolding read32
read32_four [] h = absurd (omega arith)
read32_four (a ∷ []) h = absurd (omega arith)
read32_four (a ∷ b ∷ []) h = absurd (omega arith)
read32_four (a ∷ b ∷ c ∷ []) h = absurd (omega arith)
read32_four (a ∷ b ∷ c ∷ d ∷ xs) h = ground arith

read32-drop : (xs : List ℕ) (i : ℕ) → read32 xs i ≡ read32 (drop i xs) 0
unfolding read32
read32-drop xs i =
    let first : get_elem? xs i ≡ get_elem? (drop i xs) 0 =
      let e : i + 0 ≡ i = omega arith in rw e at (get_elem?-drop xs i 0) in
    simp (first, get_elem?-drop xs i 1, get_elem?-drop xs i 2, get_elem?-drop xs i 3)

pub read32-value :
    (src : List ℕ) (i : ℕ) → i + 4 ≤ length src → read32 src i ≡ some (value (take 4 (drop i src)))
read32-value src i h =
    read32-drop src i ∙ read32_four (drop i src) (omega (arith, length-drop i src))

value_eight :
    (xs : List ℕ)
    → 4 ≤ length xs
    → value (take 8 xs) ≡ value (take 4 xs) + 2 ^ 32 * value (take 4 (drop 4 xs))
value_eight [] h = absurd (omega arith)
value_eight (a ∷ []) h = absurd (omega arith)
value_eight (a ∷ b ∷ []) h = absurd (omega arith)
value_eight (a ∷ b ∷ c ∷ []) h = absurd (omega arith)
value_eight (a ∷ b ∷ c ∷ d ∷ xs) h = omega arith

drop-add : (xs : List ℕ) (i j : ℕ) → drop (i + j) xs ≡ drop j (drop i xs)
drop-add xs zero j = let e : 0 + j ≡ j = omega arith in rw e
drop-add [] (suc i) zero = let e : suc i + 0 ≡ suc i = omega arith in rw e
drop-add [] (suc i) (suc j) = let e : suc i + suc j ≡ suc (i + suc j) = omega arith in rw e
drop-add (x ∷ xs) (suc i) j =
    let e : suc i + j ≡ suc (i + j) = omega arith in rw e (drop-add xs i j)

pub read64-value :
    (src : List ℕ) (i : ℕ) → i + 8 ≤ length src → read64 src i ≡ some (value (take 8 (drop i src)))
unfolding read64
read64-value src i h = rw (
  read32-value src i (omega arith),
  read32-value src (i + 4) (omega arith),
  drop-add src i 4,
  value_eight (drop i src) (omega (arith, length-drop i src)),
)

pow_256 : (q : ℕ) → 256 ^ q ≡ 2 ^ (8 * q)
pow_256 zero = refl
pow_256 (suc q) =
    let e : 8 * suc q ≡ 8 * q + 8 = omega arith in
    rw e (simp towards_suc (omega (arith, pow_256 q, pow-suc 256 q)))

pow-dvd : (m r : ℕ) → 2 ^ m ∣ 2 ^ (m + r)
pow-dvd m zero = let e : m + 0 ≡ m = omega arith in rw e (dvd_refl _)
pow-dvd m (suc r) =
    let e : m + suc r ≡ suc (m + r) = omega arith in
    rw (e, pow-suc) (dvd-mul_right_of_dvd (2 ^ m) (pow-dvd m r) 2)

-- Numbers that agree below bit `c` agree on the whole bytes below it.
mod_bytes : (c x y : ℕ) → x % 2 ^ c ≡ y % 2 ^ c → x % 256 ^ (c / 2 ^ 3) ≡ y % 256 ^ (c / 2 ^ 3)
mod_bytes c x y e =
    let whole : 256 ^ (c / 2 ^ 3) ∣ 2 ^ c =
      let split : c ≡ 8 * (c / 2 ^ 3) + c % 8 = omega arith in
      rw pow_256 (subst (λ t. 2 ^ (8 * (c / 2 ^ 3)) ∣ 2 ^ t) (sym split) (pow-dvd _ (c % 8))) in
    sym (mod-mod_of_dvd (256 ^ (c / 2 ^ 3)) x whole)
    ∙ ap (λ (t : ℕ). t % 256 ^ (c / 2 ^ 3)) e
    ∙ mod-mod_of_dvd (256 ^ (c / 2 ^ 3)) y whole

module _ (src : List ℕ) (bytes : All IsByte src) (a b : ℕ) where
  Same-of_value :
      (w k : ℕ)
      → k ≤ w
      → a + w ≤ length src
      → b + w ≤ length src
      → value (take w (drop a src)) % 256 ^ k ≡ value (take w (drop b src)) % 256 ^ k
      → Same src a b k
  Same-of_value w k small ha hb e = Same-of_take src a b k (
      sym (take-take k w (drop a src) small)
      ∙ take_of_value k (take w (drop a src)) (take w (drop b src))
          (All-take IsByte w _ (All-drop IsByte a src bytes))
          (All-take IsByte w _ (All-drop IsByte b src bytes)) lengths e
      ∙ take-take k w (drop b src) small)
    where
      lengths : length (take w (drop a src)) ≡ length (take w (drop b src))
      lengths = omega (
        arith,
        length-take w (drop a src),
        length-take w (drop b src),
        length-drop a src,
        length-drop b src,
      )

  -- Equal words of four bytes.
  pub Same-of_read32 :
      (v : ℕ)
      → a + 4 ≤ length src
      → b + 4 ≤ length src
      → read32 src a ≡ some v
      → read32 src b ≡ some v
      → Same src a b 4
  Same-of_read32 v ha hb ra rb =
      let same : value (take 4 (drop a src)) ≡ value (take 4 (drop b src)) =
        cc (read32-value src a ha, read32-value src b hb) in
      Same-of_value 4 4 (omega arith) ha hb (ap (λ (t : ℕ). t % 256 ^ 4) same)

  -- Words of eight bytes, as far as the zeros below the lowest one of their exclusive or go.
  pub Same-of_read64 :
      (v w : ℕ)
      → a + 8 ≤ length src
      → b + 8 ≤ length src
      → read64 src a ≡ some v
      → read64 src b ≡ some w
      → Same src a b (ctz 64 (bit_xor v w) / 2 ^ 3)
  Same-of_read64 v w ha hb ra rb =
      let v_is : v ≡ value (take 8 (drop a src)) = cc (read64-value src a ha) in
      let w_is : w ≡ value (take 8 (drop b src)) = cc (read64-value src b hb) in
      let low = mod-ctz 64 v w in
      Same-of_value 8 (ctz 64 (bit_xor v w) / 2 ^ 3) (omega (arith, ctz_bound 64 (bit_xor v w))) ha
        hb (rw (← v_is, ← w_is) (mod_bytes (ctz 64 (bit_xor v w)) v w low))
