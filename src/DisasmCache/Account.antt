-- ===== src/DisasmCache/Account.antt =====
-- Ownership in DisasmCache of trace/src/EastTrace.cpp: where every instruction that was put ends up.
use android_prybar.Base.{
  ℕ, zero, suc, ◌+◌, ◌^◌, ◌≤◌, ◌<◌, ◌≡◌, refl, ◌∙◌, ◌≢◌, inl, inr, Bool, false, List, [], ◌∷◌,
  arith, ◌==◌, if◌then◌else◌, ==_iff, Bool-cases,
}
use android_prybar.DisasmCache.{
  Entry, Set, no_set, DisasmCache, num_sets, hash_addr, set_at, free_insn, is_hit, find_way, get,
  new_entry, put, put_reg_access, clear_set, trimmed, trim_set, each_set, clear, trim_cold,
}

abbrev pub one_if : Bool → ℕ
one_if b = if b then 1 else 0

-- How often an instruction occurs in a list.
unfoldable pub count : ℕ → List ℕ → ℕ
count x [] = 0
count x (y ∷ ys) = one_if (y == x) + count x ys

-- How many ways of a set hold an instruction.
unfoldable pub held : ℕ → Set → ℕ
held x s =
    one_if (s.way0.insn == x)
    + one_if (s.way1.insn == x)
    + one_if (s.way2.insn == x)
    + one_if (s.way3.insn == x)

-- How many ways of the first `n` sets hold it.
unfoldable pub held_below : ℕ → ℕ → (ℕ → Set) → ℕ
held_below zero x sets = 0
held_below (suc n) x sets = held_below n x sets + held x (sets n)

held_below-set_at_above :
    (n x k : ℕ) (sets : ℕ → Set) (s : Set)
    → n ≤ k
    → held_below n x (set_at sets k s) ≡ held_below n x sets
unfolding held_below
held_below-set_at_above zero x k sets s h = refl
held_below-set_at_above (suc n) x k sets s h =
    let other : (k == n) ≡ false = ground arith in
    rw (other, held_below-set_at_above n x k sets s (omega arith))

held_below-set_at :
    (n x k : ℕ) (sets : ℕ → Set) (s : Set)
    → k < n
    → held_below n x (set_at sets k s) + held x (sets k) ≡ held_below n x sets + held x s
unfolding held_below
held_below-set_at zero x k sets s h = absurd (omega arith)
held_below-set_at (suc n) x k sets s h = elim (Bool-cases (k == n)) [
  | inl e ↦
      let same : k ≡ n = (==_iff k n).0 e in
      let before = held_below-set_at_above n x k sets s (omega arith) in
      rw (e, before, same) (omega arith)
  | inr e ↦
      let before = held_below-set_at n x k sets s (ground arith) in rw e (omega (arith, before))
]

-- Where an instruction is: the ways that hold it and the calls of cs_free on it.
unfoldable pub owned : ℕ → DisasmCache → ℕ
owned x c = held_below num_sets x c.sets + count x c.freed

hash_addr-lt : (addr : ℕ) → hash_addr addr < 2 ^ 14
unfolding hash_addr
hash_addr-lt addr = omega arith

module _ (x : ℕ) (real : x ≢ 0) where
  count-free_insn :
      (insn : ℕ) (freed : List ℕ)
      → count x (free_insn insn freed) ≡ one_if (insn == x) + count x freed
  unfolding count
  count-free_insn insn freed = ground (arith, real)

  -- A change of one set.
  owned-set_at :
      (k : ℕ) (c : DisasmCache) (s : Set) (freed : List ℕ) (d : ℕ)
      → k < 2 ^ 14
      → held x s + count x freed ≡ held x (c.sets k) + count x c.freed + d
      → owned x (record { sets = set_at c.sets k s; freed = freed }) ≡ owned x c + d
  unfolding owned
  owned-set_at k c s freed d h e = omega (arith, held_below-set_at num_sets x k c.sets s h)

  pub clear_set-owned : (k : ℕ) (c : DisasmCache) → k < 2 ^ 14 → owned x (clear_set k c) ≡ owned x c
  unfolding clear_set held
  clear_set-owned k c h =
      let s = c.sets k in
      let f1 = free_insn s.way0.insn c.freed in
      let f2 = free_insn s.way1.insn f1 in
      let f3 = free_insn s.way2.insn f2 in
      let moved : held x no_set + count x (free_insn s.way3.insn f3)
          ≡ held x s + count x c.freed + 0 =
        rw
          (
            count-free_insn s.way3.insn f3,
            count-free_insn s.way2.insn f2,
            count-free_insn s.way1.insn f1,
            count-free_insn s.way0.insn c.freed,
          )
          (ground (arith, real)) in
      owned-set_at k c no_set (free_insn s.way3.insn f3) 0 h moved ∙ omega arith

  one_if-trimmed : (e : Entry) → one_if ((trimmed e).insn == x) ≡ 0
  one_if-trimmed e = ground (arith, real)

  pub trim_set-owned : (k : ℕ) (c : DisasmCache) → k < 2 ^ 14 → owned x (trim_set k c) ≡ owned x c
  unfolding trim_set held
  trim_set-owned k c h =
      let s = c.sets k in
      let f1 = free_insn s.way2.insn c.freed in
      let new = record s { way2 = trimmed s.way2; way3 = trimmed s.way3 } in
      let moved : held x new + count x (free_insn s.way3.insn f1) ≡ held x s + count x c.freed + 0 =
        omega (
          arith,
          count-free_insn s.way3.insn f1,
          count-free_insn s.way2.insn c.freed,
          one_if-trimmed s.way2,
          one_if-trimmed s.way3,
        ) in
      owned-set_at k c new (free_insn s.way3.insn f1) 0 h moved ∙ omega arith

  pub each_set-owned :
      (body : ℕ → DisasmCache → DisasmCache)
      → ((k : ℕ) (c : DisasmCache) → k < 2 ^ 14 → owned x (body k c) ≡ owned x c)
      → (rounds s : ℕ) (c : DisasmCache) → rounds + s ≤ 2 ^ 14
      → owned x (each_set body rounds s c) ≡ owned x c
  unfolding each_set
  each_set-owned body keep zero s c h = refl
  each_set-owned body keep (suc rounds) s c h =
      each_set-owned body keep rounds (s + 1) (body s c) (omega arith) ∙ keep s c (omega arith)

  find_way-held : (a : ℕ) (s : Set) → held x (find_way a s).0 ≡ held x s
  unfolding held find_way
  find_way-held a s = elim (Bool-cases (is_hit a s.way0)) [
    | inl e ↦ rw e
    | inr e ↦ elim (Bool-cases (is_hit a s.way1)) [
      | inl f ↦ rw (e, f) (omega arith)
      | inr f ↦ elim (Bool-cases (is_hit a s.way2)) [
        | inl g ↦ rw (e, f, g) (omega arith)
        | inr g ↦ elim (Bool-cases (is_hit a s.way3)) [
          | inl i ↦ rw (e, f, g, i) (omega arith)
          | inr i ↦ rw (e, f, g, i)
        ]
      ]
    ]
  ]

  pub get-owned : (a : ℕ) (c : DisasmCache) → owned x (get a c).0 ≡ owned x c
  unfolding get
  get-owned a c =
      let s = c.sets (hash_addr a) in
      let moved : held x (find_way a s).0 + count x c.freed ≡ held x s + count x c.freed + 0 =
        omega (arith, find_way-held a s) in
      owned-set_at (hash_addr a) c (find_way a s).0 c.freed 0 (hash_addr-lt a) moved ∙ omega arith

  pub put_reg_access-owned :
      (a : ℕ) (reads : List ℕ) (m : ℕ) (writes : List ℕ) (n : ℕ) (c : DisasmCache)
      → owned x (put_reg_access a reads m writes n c) ≡ owned x c
  unfolding put_reg_access held
  put_reg_access-owned a reads m writes n c =
      elim (Bool-cases ((c.sets (hash_addr a)).way0.addr == a)) [
        | inl e ↦
            rw e (
              owned-set_at (hash_addr a) c _ c.freed 0 (hash_addr-lt a) (omega arith) ∙ omega arith)
        | inr e ↦ rw e
      ]

  module _ (mnemonic op_str : ℕ → List ℕ) where
    pub put-owned :
        (a insn : ℕ) (c : DisasmCache)
        → owned x (put mnemonic op_str a insn c) ≡ owned x c + one_if (insn == x)
    unfolding put held new_entry
    put-owned a insn c =
        let s = c.sets (hash_addr a) in
        let s' : Set = record {
          way0 = new_entry mnemonic op_str a insn s.way0;
          way1 = s.way0;
          way2 = s.way1;
          way3 = s.way2;
        } in
        let moved : held x s' + count x (free_insn s.way3.insn c.freed)
            ≡ held x s + count x c.freed + one_if (insn == x) =
          omega (arith, count-free_insn s.way3.insn c.freed) in
        owned-set_at (hash_addr a) c s' _ _ (hash_addr-lt a) moved

  pub trim_cold-owned : (c : DisasmCache) → owned x (trim_cold c) ≡ owned x c
  unfolding trim_cold
  trim_cold-owned c = each_set-owned trim_set trim_set-owned num_sets 0 c (omega arith)

  pub clear-owned : (c : DisasmCache) → owned x (clear c) ≡ owned x c
  unfolding clear
  clear-owned c = each_set-owned clear_set clear_set-owned num_sets 0 c (omega arith)

  -- A set that the loop of clear has passed is empty, and the later rounds leave it so.
  each_set-cleared :
      (rounds s k : ℕ) (c : DisasmCache)
      → ((k < s) → held x (c.sets k) ≡ 0)
      → k < s + rounds
      → held x ((each_set clear_set rounds s c).sets k) ≡ 0
  unfolding each_set clear_set
  each_set-cleared zero s k c past h = past (omega arith)
  each_set-cleared (suc rounds) s k c past h =
      each_set-cleared rounds (s + 1) k (clear_set s c)
        (λ before. elim (Bool-cases (s == k)) [
          | inl e ↦ rw e (unfold held in ground (arith, real))
          | inr e ↦ rw e (past (ground arith))
        ])
        (omega arith)

  held_below-zero :
      (n : ℕ) (sets : ℕ → Set) → ((k : ℕ) → k < n → held x (sets k) ≡ 0) → held_below n x sets ≡ 0
  unfolding held_below
  held_below-zero zero sets h = refl
  held_below-zero (suc n) sets h =
      omega (arith, held_below-zero n sets (λ k l. h k (omega arith)), h n (omega arith))

  pub clear-count : (c : DisasmCache) → count x (clear c).freed ≡ owned x (clear c)
  unfolding clear owned
  clear-count c = omega (
    arith,
    held_below-zero num_sets _
        (λ k l. each_set-cleared num_sets 0 k c (λ z. absurd (omega arith)) (omega arith)),
  )
