-- ===== src/Lz4/Matches.antt =====
-- The loops of trace/include/lz4_block.h that look for a match and extend it: they end, they read
-- inside the input only, and what they report is a match.
use android_prybar.Base.{
  ℕ, zero, suc, ◌+◌, ◌-◌, ◌/◌, ◌^◌, ◌≤◌, ◌<◌, bit_xor, ◌≡◌, refl, sym, ap, ◌∙◌, subst, inl, inr,
  ◌&&◌, Option, some, List, arith, ltb, leb, ◌==◌, u32, IsByte, ==_iff, Bool-cases, length,
  get_elem?, take, drop, All, get_elem?-some,
}
use android_prybar.Lz4.{
  HashTable, hash4, Found, hit, exhausted, find_match, extend_bytes, extend_match,
}
use android_prybar.Base.Bits.{ctz, ctz_bound}
use android_prybar.Lz4.Reads.{
  value, Same, read32-value, read64-value, Same-of_read32, Same-of_read64,
}

Same-none : (src : List ℕ) (a b : ℕ) → Same src a b 0
Same-none src a b i h = absurd (omega arith)

Same-one : (src : List ℕ) (a b : ℕ) → get_elem? src a ≡ get_elem? src b → Same src a b 1
Same-one src a b e zero h =
    let a' : a + 0 ≡ a = omega arith in let b' : b + 0 ≡ b = omega arith in rw (a', b') e
Same-one src a b e (suc i) h = absurd (omega arith)

pub Same-add :
    (src : List ℕ) (a b m n : ℕ)
    → Same src a b m
    → Same src (a + m) (b + m) n
    → Same src a b (m + n)
Same-add src a b m n p q i h = elim (Bool-cases (ltb i m)) [
  | inl e ↦ p i (ground arith)
  | inr e ↦
      let a' : a + m + (i - m) ≡ a + i = ground arith in
      let b' : b + m + (i - m) ≡ b + i = ground arith in rw (a', b') at (q (i - m) (ground arith))
]

all_eight : (diff : ℕ) → diff ≡ 0 → (P : ℕ → Type 0) → P (ctz 64 diff / 2 ^ 3) → P 8
unfolding ctz
all_eight diff e P p = subst (λ t. P (ctz 64 t / 2 ^ 3)) e p

-- What a loop that extends a match from `ip` returns: the end of `n` more bytes, none of them at
-- `matchlimit` or behind it, that stand at `ref` as well.
abbrev pub Extends : List ℕ → ℕ → ℕ → ℕ → Option ℕ → Type 0
Extends src matchlimit ip ref r =
    (n : ℕ) × (r ≡ some (ip + n)) × (ip + n ≤ matchlimit) × Same src ip ref n

module _ (src : List ℕ) (matchlimit : ℕ) (inside : matchlimit ≤ length src) where
  Extends-add :
      (ip ref m : ℕ) (r : Option ℕ)
      → Same src ip ref m
      → Extends src matchlimit (ip + m) (ref + m) r
      → Extends src matchlimit ip ref r
  Extends-add ip ref m r same (n, e, h, rest) =
      let assoc : ip + (m + n) ≡ ip + m + n = omega arith in
      (m + n, rw assoc e, omega arith, Same-add src ip ref m n same rest)

  Extends-none : (ip ref : ℕ) → ip ≤ matchlimit → Extends src matchlimit ip ref (some ip)
  Extends-none ip ref h =
      let here : ip + 0 ≡ ip = omega arith in (0, rw here, omega arith, Same-none src ip ref)

  pub extend_bytes-Extends :
      (fuel ip ref : ℕ)
      → matchlimit < ip + fuel
      → ip ≤ matchlimit
      → ref ≤ ip
      → Extends src matchlimit ip ref (extend_bytes fuel src matchlimit ip ref)
  unfolding extend_bytes
  extend_bytes-Extends zero ip ref h at_most before = absurd (omega arith)
  extend_bytes-Extends (suc fuel) ip ref h at_most before = elim (Bool-cases (ltb ip matchlimit)) [
    | inr e ↦ rw e (Extends-none ip ref at_most)
    | inl e ↦
        let (a, ea) = get_elem?-some src ip (ground arith) in
        let (b, eb) = get_elem?-some src ref (ground arith) in
        rw (e, ea, eb)
          (elim (Bool-cases (a == b)) [
            | inr d ↦ rw d (Extends-none ip ref at_most)
            | inl d ↦ rw d (
                Extends-add ip ref 1 _
                  (Same-one src ip ref (ea ∙ ap some ((==_iff a b).0 d) ∙ sym eb))
                  (extend_bytes-Extends fuel (ip + 1) (ref + 1) (omega arith) (ground arith)
                    (omega arith)))
          ])
  ]

  abbrev word : ℕ → ℕ
  word i = value (take 8 (drop i src))

  pub extend_match-Extends :
      All IsByte src
      → (fuel ip ref : ℕ) → matchlimit < ip + fuel
      → ip ≤ matchlimit
      → ref ≤ ip
      → Extends src matchlimit ip ref (extend_match fuel src matchlimit ip ref)
  unfolding extend_match
  extend_match-Extends bytes zero ip ref h at_most before = absurd (omega arith)
  extend_match-Extends bytes (suc fuel) ip ref h at_most before =
      elim (Bool-cases (leb (ip + 8) matchlimit)) [
        | inr e ↦ rw e (extend_bytes-Extends (suc matchlimit) ip ref (omega arith) at_most before)
        | inl e ↦
            let room : ip + 8 ≤ matchlimit = ground arith in
            let ra = read64-value src ip (omega arith) in
            let rb = read64-value src ref (omega arith) in
            let same = Same-of_read64 src bytes ip ref _ _ (omega arith) (omega arith) ra rb in
            rw (e, ra, rb)
              (elim (Bool-cases (bit_xor (word ip) (word ref) == 0)) [
                | inr d ↦
                    rw d (_, refl, omega (arith, ctz_bound 64 (bit_xor (word ip) (word ref))), same)
                | inl d ↦ rw d (
                    Extends-add ip ref 8 _
                      (all_eight _ ((==_iff _ 0).0 d) (λ n. Same src ip ref n) same)
                      (extend_match-Extends bytes fuel (ip + 8) (ref + 8) (omega arith) room
                        (omega arith)))
              ])
      ]

-- What the search from `from` reports: the end of the block is near, or four bytes at `ip` that
-- stand at `ref` as well, before it and at most 65535 bytes back.
abbrev pub IsFound : List ℕ → ℕ → Found → Type 0
IsFound src from (exhausted htab) = Unit {0}
IsFound src from (hit ip ref htab) =
    (from ≤ ip) × (ip + 13 ≤ length src) × (ref < ip) × (ip - ref ≤ 0xffff) × Same src ip ref 4

abbrev pub Finds : List ℕ → ℕ → Option Found → Type 0
Finds src from r = (found : Found) × (r ≡ some found) × IsFound src from found

Finds-later :
    (src : List ℕ) (from later : ℕ) (r : Option Found)
    → from ≤ later
    → Finds src later r
    → Finds src from r
Finds-later src from later r h (exhausted htab, e, f) = (exhausted htab, e, tt)
Finds-later src from later r h (hit ip ref htab, e, f) =
    (hit ip ref htab, e, (omega arith, f.1, f.2, f.3, f.4))

-- Whatever the table holds, the search ends and reads inside the input only.
pub find_match-Finds :
    (src : List ℕ)
    → All IsByte src
    → 13 ≤ length src
    → length src < 2 ^ 31
    → (fuel fwd step search_limit : ℕ) (htab : HashTable) → length src < fwd + fuel
    → 1 ≤ step
    → 64 ≤ search_limit
    → search_limit ≤ 64 + fwd
    → fwd ≤ length src
    → Finds src fwd (find_match fuel src (length src - 12) fwd step search_limit htab)
unfolding find_match
find_match-Finds src bytes big small zero fwd step search_limit htab h hs hl hb hf =
    absurd (omega arith)
find_match-Finds src bytes big small (suc fuel) fwd step search_limit htab h hs hl hb hf =
    elim (Bool-cases (ltb (length src - 12) (fwd + step))) [
      | inl e ↦ rw e (exhausted htab, refl, tt)
      | inr e ↦
          let near : fwd + step ≤ length src - 12 = ground arith in
          let rv = read32-value src fwd (omega arith) in
          let again = λ (htab' : HashTable). Finds-later src fwd (fwd + step) _ (omega arith) (
            find_match-Finds src bytes big small fuel (fwd + step) (search_limit / 2 ^ 6)
              (u32 (search_limit + 1)) htab' (omega arith) (omega arith) (omega arith) (omega arith)
              (omega arith)) in
          let cand = htab (hash4 (value (take 4 (drop fwd src)))) in
          rw (e, rv)
            (elim (Bool-cases (ltb cand (u32 fwd))) [
              | inr c ↦ rw c (again _)
              | inl c ↦
                  let before : cand < fwd = ground arith in
                  let rc = read32-value src cand (omega arith) in
                  rw (c, rc)
                    (elim (Bool-cases (
                      value (take 4 (drop cand src)) == value (take 4 (drop fwd src))
                      && leb (fwd - cand) 0xffff)) [
                        | inr d ↦ rw d (again _)
                        | inl d ↦ rw d (
                          _,
                          refl,
                          (
                            omega arith,
                            omega arith,
                            before,
                            ground arith,
                            Same-of_read32 src bytes fwd cand _ (omega arith) (omega arith) rv
                                (rc ∙ ap some (ground arith)),
                          ),
                        )
                      ])
            ])
    ]
