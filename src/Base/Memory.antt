-- ===== src/Base/Memory.antt =====
-- A block of memory as the list of its bytes, and the copy loop that trace/include/DirectWriteBuf.h
-- (inline_memcpy) and trace/Utils/StringUtil.h (appendStringN) share.
use Prim.Native.Nat.{ℕ, zero, suc, ◌+◌, ◌≤◌}
use mathlib.Core.Path.{◌≡◌, refl, sym, ap, ◌∙◌}
use mathlib.Core.List.{List, [], ◌∷◌, ◌++◌}
use native.Mathlib.Omega.{arith}
use android_prybar.Base.Lists.{length, take, All}

-- The memory after `xs` has been stored from offset `i` on; what lies past its end is dropped.
unfoldable pub write_at : List ℕ → ℕ → List ℕ → List ℕ
write_at [] i xs = []
write_at (m ∷ mem) zero [] = m ∷ mem
write_at (m ∷ mem) zero (x ∷ xs) = x ∷ write_at mem zero xs
write_at (m ∷ mem) (suc i) xs = m ∷ write_at mem i xs

-- `while (n >= 8) { copy 8 bytes }  while (n--) *dst++ = *src++;`
unfoldable pub inline_memcpy : List ℕ → ℕ → List ℕ → List ℕ
inline_memcpy mem i (a ∷ b ∷ c ∷ d ∷ e ∷ f ∷ g ∷ h ∷ rest) =
    inline_memcpy (write_at mem i (a ∷ b ∷ c ∷ d ∷ e ∷ f ∷ g ∷ h ∷ [])) (i + 8) rest
inline_memcpy mem i (x ∷ rest) = inline_memcpy (write_at mem i (x ∷ [])) (i + 1) rest
inline_memcpy mem i [] = mem

pub length-write_at : (mem : List ℕ) (i : ℕ) (xs : List ℕ) → length (write_at mem i xs) ≡ length mem
unfolding write_at
length-write_at [] i xs = refl
length-write_at (m ∷ mem) zero [] = refl
length-write_at (m ∷ mem) zero (x ∷ xs) = ap suc (length-write_at mem zero xs)
length-write_at (m ∷ mem) (suc i) xs = ap suc (length-write_at mem i xs)

pub take-write_at :
    (mem : List ℕ) (i : ℕ) (xs : List ℕ)
    → i + length xs ≤ length mem
    → take (i + length xs) (write_at mem i xs) ≡ take i mem ++ xs
unfolding write_at
take-write_at [] zero [] h = refl
take-write_at [] zero (x ∷ xs) h = absurd (omega arith)
take-write_at [] (suc i) xs h = absurd (omega arith)
take-write_at (m ∷ mem) zero [] h = refl
take-write_at (m ∷ mem) zero (x ∷ xs) h =
    let e : zero + suc (length xs) ≡ suc (zero + length xs) = omega arith in
    rw e (ap (◌∷◌ x) (take-write_at mem zero xs (omega arith)))
take-write_at (m ∷ mem) (suc i) xs h =
    let e : suc i + length xs ≡ suc (i + length xs) = omega arith in
    rw e (ap (◌∷◌ m) (take-write_at mem i xs (omega arith)))

pub take-write_at_before :
    (mem : List ℕ) (i : ℕ) (xs : List ℕ) → take i (write_at mem i xs) ≡ take i mem
unfolding write_at
take-write_at_before [] i xs = refl
take-write_at_before (m ∷ mem) zero xs = refl
take-write_at_before (m ∷ mem) (suc i) xs = ap (◌∷◌ m) (take-write_at_before mem i xs)

write_at_none : (mem : List ℕ) (i : ℕ) → write_at mem i [] ≡ mem
unfolding write_at
write_at_none [] i = refl
write_at_none (m ∷ mem) zero = refl
write_at_none (m ∷ mem) (suc i) = ap (◌∷◌ m) (write_at_none mem i)

pub write_at-append :
    (mem : List ℕ) (i : ℕ) (xs ys : List ℕ)
    → write_at (write_at mem i xs) (i + length xs) ys ≡ write_at mem i (xs ++ ys)
unfolding write_at
write_at-append [] i xs ys = refl
write_at-append (m ∷ mem) zero [] ys = refl
write_at-append (m ∷ mem) zero (x ∷ xs) ys =
    let e : zero + suc (length xs) ≡ suc (zero + length xs) = omega arith in
    rw e (ap (◌∷◌ x) (write_at-append mem zero xs ys))
write_at-append (m ∷ mem) (suc i) xs ys =
    let e : suc i + length xs ≡ suc (i + length xs) = omega arith in
    rw e (ap (◌∷◌ m) (write_at-append mem i xs ys))

-- The copy by eights and ones stores the bytes in their order, as one store of them all does.
pub inline_memcpy-write_at : (xs mem : List ℕ) (i : ℕ) → inline_memcpy mem i xs ≡ write_at mem i xs
unfolding inline_memcpy
inline_memcpy-write_at (a ∷ b ∷ c ∷ d ∷ e ∷ f ∷ g ∷ h ∷ rest) mem i =
    inline_memcpy-write_at rest (write_at mem i (a ∷ b ∷ c ∷ d ∷ e ∷ f ∷ g ∷ h ∷ [])) (i + 8)
    ∙ write_at-append mem i (a ∷ b ∷ c ∷ d ∷ e ∷ f ∷ g ∷ h ∷ []) rest
inline_memcpy-write_at (x ∷ rest) mem i =
    inline_memcpy-write_at rest (write_at mem i (x ∷ [])) (i + 1)
    ∙ write_at-append mem i (x ∷ []) rest
inline_memcpy-write_at [] mem i = sym (write_at_none mem i)

pub All-write_at {κ} :
    (P : ℕ → Type κ) (mem : List ℕ) (i : ℕ) (xs : List ℕ)
    → All P mem
    → All P xs
    → All P (write_at mem i xs)
unfolding write_at
All-write_at P [] i xs p q = tt
All-write_at P (m ∷ mem) zero [] p q = p
All-write_at P (m ∷ mem) zero (x ∷ xs) p q = (q.0, All-write_at P mem zero xs p.1 q.1)
All-write_at P (m ∷ mem) (suc i) xs p q = (p.0, All-write_at P mem i xs p.1 q)
