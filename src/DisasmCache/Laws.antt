-- ===== src/DisasmCache/Laws.antt =====
-- What DisasmCache of trace/src/EastTrace.cpp finds, and which instruction it gives up.
use android_prybar.Base.{
  ℕ, zero, suc, ◌+◌, ◌≤◌, ◌<◌, ◌≡◌, refl, sym, ◌∙◌, subst, ◌≢◌, ◌⊎◌, inl, inr, false, none, some,
  List, [], ◌∷◌, arith, ◌==◌, if◌then◌else◌, ==_iff, Bool-cases, length, take, drop, All,
  length-take, take-take, take-append_short,
}
use android_prybar.DisasmCache.{
  CachedRegAccess, Entry, Set, DisasmCache, hash_addr, is_hit, find_way, get, new_entry, put,
  get_reg_access, copied, at_most_8, put_reg_access,
}

abbrev pub ways : Set → List Entry
ways s = s.way0 ∷ s.way1 ∷ s.way2 ∷ s.way3 ∷ []

-- The instruction of the first hit, or null.
pub first_hit : ℕ → List Entry → ℕ
first_hit addr [] = 0
first_hit addr (e ∷ rest) = if is_hit addr e then e.insn else first_hit addr rest

-- What the cache holds for an address: the abstract view, a map from addresses to instructions.
pub peek : ℕ → DisasmCache → ℕ
peek addr c = first_hit addr (ways (c.sets (hash_addr addr)))

find_way-first_hit :
    (a b : ℕ) (s : Set)
    → ((find_way a s).1 ≡ first_hit a (ways s))
      × (first_hit b (ways (find_way a s).0) ≡ first_hit b (ways s))
unfolding find_way first_hit
find_way-first_hit a b s = (ground arith, ground arith)

-- get gives what the cache holds, and moving a hit to the front changes what is held nowhere.
pub get-peek :
    (a : ℕ) (c : DisasmCache) → ((get a c).1 ≡ peek a c) × ((b : ℕ) → peek b (get a c).0 ≡ peek b c)
unfolding get peek
get-peek a c = (
  (find_way-first_hit a a _).0,
  λ b. elim (Bool-cases (hash_addr a == hash_addr b)) [
    | inl e ↦
        let same : hash_addr a ≡ hash_addr b = (==_iff _ _).0 e in
        rw (e, same) (find_way-first_hit a b _).1
    | inr e ↦ rw e
  ],
)

first_hit-take_suc :
    (a k : ℕ) (es : List Entry)
    → first_hit a (take k es) ≢ 0
    → first_hit a (take (k + 1) es) ≡ first_hit a (take k es)
unfolding first_hit
first_hit-take_suc a zero es live = absurd (live refl)
first_hit-take_suc a (suc k) [] live = absurd (live refl)
first_hit-take_suc a (suc k) (e ∷ es) live =
    let step : suc k + 1 ≡ suc (k + 1) = omega arith in
    rw step (elim (Bool-cases (is_hit a e)) [
      | inl h ↦ rw h
      | inr h ↦ rw h (
          first_hit-take_suc a k es
            (subst (λ t. (if t then e.insn else first_hit a (take k es)) ≢ 0) h live))
    ])

first_hit-skip :
    (a : ℕ) (e : Entry) (es : List Entry)
    → is_hit a e ≡ false
    → first_hit a (e ∷ es) ≡ first_hit a es
unfolding first_hit
first_hit-skip a e es h = rw h

first_hit-take :
    (a k : ℕ) (es : List Entry)
    → first_hit a (take k es) ≢ 0
    → first_hit a es ≡ first_hit a (take k es)
unfolding first_hit
first_hit-take a zero es live = absurd (live refl)
first_hit-take a (suc k) [] live = refl
first_hit-take a (suc k) (e ∷ es) live = elim (Bool-cases (is_hit a e)) [
  | inl h ↦ rw h
  | inr h ↦ rw h (
      first_hit-take a k es
        (subst (λ t. (if t then e.insn else first_hit a (take k es)) ≢ 0) h live))
]

take-copied : (n : ℕ) (new old : List ℕ) → n ≤ length new → take n (copied n new old) ≡ take n new
unfolding copied
take-copied n new old h =
    let cut : length (take n new) ≡ n = ground (arith, length-take n new) in
    take-append_short n (take n new) (drop n old) (omega (arith, cut))
    ∙ take-take n n new (omega arith)

module _ (mnemonic op_str : ℕ → List ℕ) where
  abbrev fresh : ℕ → ℕ → DisasmCache → DisasmCache
  fresh addr insn c = put mnemonic op_str addr insn c

  new_entry-is_hit :
      (a b insn : ℕ) (old : Entry) → b ≢ a → is_hit a (new_entry mnemonic op_str b insn old) ≡ false
  unfolding new_entry
  new_entry-is_hit a b insn old d = ground (arith, d)

  put-peek_self : (a insn : ℕ) (c : DisasmCache) → insn ≢ 0 → peek a (fresh a insn c) ≡ insn
  unfolding put peek first_hit new_entry
  put-peek_self a insn c h = ground arith

  -- A put changes what is held for another address only if it frees the instruction held for it.
  pub put-peek_other :
      (a b insn : ℕ) (c : DisasmCache)
      → b ≢ a
      → (peek b (fresh a insn c) ≡ peek b c)
        ⊎ ((hash_addr a ≡ hash_addr b)
            × (peek b (fresh a insn c) ≡ 0)
            × ((fresh a insn c).freed ≡ peek b c ∷ c.freed))
  unfolding put peek first_hit new_entry
  put-peek_other a b insn c d = elim (Bool-cases (hash_addr a == hash_addr b)) [
    | inr e ↦ inl (rw e)
    | inl e ↦ let same : hash_addr a ≡ hash_addr b = (==_iff _ _).0 e in rw (e, same) (ground arith)
  ]

  -- What the first `k` ways hold for an address.
  within : ℕ → ℕ → DisasmCache → ℕ
  within k a c = first_hit a (take k (ways (c.sets (hash_addr a))))

  within-peek :
      (k a : ℕ) (c : DisasmCache) {insn : ℕ} → within k a c ≡ insn → insn ≢ 0 → peek a c ≡ insn
  unfolding within peek
  within-peek k a c e live = first_hit-take a k _ (λ z. live (sym e ∙ z)) ∙ e

  get-within : (a : ℕ) (c : DisasmCache) → peek a c ≢ 0 → within 1 a (get a c).0 ≡ peek a c
  unfolding within get peek first_hit find_way
  get-within a c h = rw ((==_iff (hash_addr a) _).1 refl) (ground arith)

  put-within :
      (k a b insn : ℕ) (c : DisasmCache)
      → b ≢ a
      → k < 4
      → within k a c ≢ 0
      → within (k + 1) a (fresh b insn c) ≡ within k a c
  unfolding within put
  put-within k a b insn c d h live =
      let s = c.sets (hash_addr a) in
      let step : k + 1 ≡ suc k = omega arith in
      elim (Bool-cases (hash_addr b == hash_addr a)) [
        | inr e ↦ rw e (first_hit-take_suc a k (ways s) live)
        | inl e ↦
            let same : hash_addr b ≡ hash_addr a = (==_iff _ _).0 e in
            rw (e, same, step)
              (let three = s.way0 ∷ s.way1 ∷ s.way2 ∷ [] in
                let short = take-append_short k three (s.way3 ∷ []) (omega arith) in
                rw (sym short) (first_hit-skip a _ _ (new_entry-is_hit a b insn _ d)))
      ]

  pub put_all : List (ℕ × ℕ) → DisasmCache → DisasmCache
  put_all [] c = c
  put_all ((addr, insn) ∷ rest) c = put_all rest (fresh addr insn c)

  put_all-within :
      (news : List (ℕ × ℕ)) (k a : ℕ) (c : DisasmCache)
      → All (λ n. n.0 ≢ a) news
      → length news + k ≤ 4
      → within k a c ≢ 0
      → within (length news + k) a (put_all news c) ≡ within k a c
  unfolding put_all
  put_all-within [] k a c other room live = let e : 0 + k ≡ k = omega arith in rw e
  put_all-within ((addr, insn) ∷ rest) k a c other room live =
      let step = put-within k a addr insn c other.0 (omega arith) live in
      let e : suc (length rest) + k ≡ length rest + (k + 1) = omega arith in
      rw e (
        put_all-within rest (k + 1) a (fresh addr insn c) other.1 (omega arith)
          (λ z. live (sym step ∙ z))
        ∙ step)

  -- The instruction that was used last stays through the next three puts, whatever they store for
  -- other addresses.
  pub recent_survives :
      (a : ℕ) (c : DisasmCache) (news : List (ℕ × ℕ))
      → peek a c ≢ 0
      → All (λ n. n.0 ≢ a) news
      → length news ≤ 3
      → peek a (put_all news (get a c).0) ≡ peek a c
  recent_survives a c news live other few =
      let held = get-within a c live in
      let kept =
        put_all-within news 1 a (get a c).0 other (omega arith) (λ z. live (sym held ∙ z)) in
      within-peek (length news + 1) a _ (kept ∙ held) live

  -- What putRegAccess stores right after put is what getRegAccess gives, cut to eight registers; before
  -- that it gives nothing, whatever the replaced entry held.
  pub reg_access-put :
      (a insn : ℕ) (c : DisasmCache) (reads : List ℕ) (m : ℕ) (writes : List ℕ) (n : ℕ)
      → m ≤ length reads
      → n ≤ length writes
      → (get_reg_access a (fresh a insn c) ≡ none)
        × ((ra : CachedRegAccess) × (get_reg_access a
                (put_reg_access a reads m writes n (fresh a insn c))
              ≡ some ra)
            × (ra.read_count ≡ at_most_8 m)
            × (ra.write_count ≡ at_most_8 n)
            × (take (at_most_8 m) ra.regs_read ≡ take (at_most_8 m) reads)
            × (take (at_most_8 n) ra.regs_write ≡ take (at_most_8 n) writes))
  unfolding get_reg_access put put_reg_access new_entry
  reg_access-put a insn c reads m writes n lm ln =
      let e = (==_iff (hash_addr a) _).1 refl in
      let f = (==_iff a _).1 refl in
      let old = (c.sets (hash_addr a)).way0.reg_access in
      let ra : CachedRegAccess = record {
        regs_read = copied (at_most_8 m) reads old.regs_read;
        regs_write = copied (at_most_8 n) writes old.regs_write;
        read_count = at_most_8 m;
        write_count = at_most_8 n;
      } in
      (
        rw (e, f),
        (
          ra,
          rw (e, f, e, f),
          refl,
          refl,
          take-copied (at_most_8 m) reads _ (ground arith),
          take-copied (at_most_8 n) writes _ (ground arith),
        ),
      )
