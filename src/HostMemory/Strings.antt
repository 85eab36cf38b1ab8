-- ===== src/HostMemory/Strings.antt =====
-- safe_read_cstr of trace/include/SafeMemRead.h reads the string that is there.
use mathlib.Core.Option.{some-injective}
use native.Mathlib.Nat.{mod-lt}
use android_prybar.Base.{
  ℕ, zero, suc, ◌+◌, ◌-◌, ◌/◌, ◌%◌, ◌^◌, ◌≤◌, ◌<◌, ◌≡◌, refl, sym, ap, ◌∙◌, subst, inl, inr, true,
  false, ◌||◌, Option, none, some, List, [], ◌∷◌, ◌++◌, append_assoc, arith, ltb, ◌==◌, u64, ltb→lt,
  ltb_false→le, lt→ltb, Bool-cases, Option-cases, length, take, drop, All, length-append,
  length-take, length-drop, take-append-drop, All-take, All-drop, drop-append_short,
  take-append_short,
}
use android_prybar.HostMemory.{
  Host, read_bytes, safe_host_read, scan, page_remain, read_loop, cstr_chunk, safe_read_cstr,
}
use android_prybar.HostMemory.Text.{cstr_chunk_some}

same_page : (a j p : ℕ) → a % p + j < p → a / p ≡ (a + j) / p
same_page a j p h = grind arith

module _ (host : Host) where
  -- A read up to the end of the page succeeds where its first byte can be read.
  read_page :
      (n a j c : ℕ)
      → host.byte a ≡ some c
      → a % host.page_size + j + n ≤ host.page_size
      → (xs : List ℕ) × (read_bytes host n (a + j) ≡ some xs)
  unfolding read_bytes
  read_page zero a j c e h = ([], refl)
  read_page (suc n) a j c e h =
      let (b, e') = host.whole_pages a (a + j) c (same_page a j host.page_size (omega arith)) e in
      let (xs, e'') = read_page n a (j + 1) c e (omega arith) in
      let next : a + j + 1 ≡ a + (j + 1) = omega arith in (b ∷ xs, rw (e', next, e''))

  -- The beginning and the end of a read.
  read_bytes-split :
      (m k a : ℕ) (xs : List ℕ)
      → read_bytes host (m + k) a ≡ some xs
      → (read_bytes host m a ≡ some (take m xs)) × (read_bytes host k (a + m) ≡ some (drop m xs))
  unfolding read_bytes
  read_bytes-split zero k a xs e =
      let here : a + 0 ≡ a = omega arith in
      let all : 0 + k ≡ k = omega arith in (refl, rw here (rw all at e))
  read_bytes-split (suc m) k a xs e =
      let all : suc m + k ≡ suc (m + k) = omega arith in
      let next : a + suc m ≡ a + 1 + m = omega arith in
      let e' = rw all at e in
      elim (Option-cases (host.byte a)) [
        | inl no_byte ↦ absurd (cc (rw no_byte at e'))
        | inr b ↦ elim (Option-cases (read_bytes host (m + k) (a + 1))) [
          | inl no_rest ↦ absurd (cc (rw (b.1, no_rest) at e'))
          | inr rest ↦
              let whole = some-injective (b.0 ∷ rest.0) xs (rw (b.1, rest.1) at e') in
              let (low, high) = read_bytes-split m k (a + 1) rest.0 rest.1 in
              subst
                (λ ys.
                  (read_bytes host (suc m) a ≡ some (take (suc m) ys))
                  × (read_bytes host k (a + suc m) ≡ some (drop (suc m) ys)))
                whole (rw (b.1, low), rw next high)
        ]
      ]

  -- The loop over a chunk that has no zero, and over one that has one.
  scan-nonzero : (xs : List ℕ) → All (λ c. (c == 0) ≡ false) xs → scan host xs ≡ (xs, false)
  unfolding scan
  scan-nonzero [] p = refl
  scan-nonzero (x ∷ xs) p = rw (p.0, scan-nonzero xs p.1)

  scan-zero :
      (xs ys : List ℕ) → All (λ c. (c == 0) ≡ false) xs → scan host (xs ++ (0 ∷ ys)) ≡ (xs, true)
  unfolding scan
  scan-zero [] ys p = refl
  scan-zero (x ∷ xs) ys p = rw (p.0, scan-zero xs ys p.1)

  -- A string of bytes that are not zero stands at `a`, with its terminator.
  abbrev pub IsString : List ℕ → ℕ → Type 0
  IsString text a =
      (read_bytes host (length text + 1) a ≡ some (text ++ (0 ∷ [])))
      × All (λ c. (c == 0) ≡ false) text

  IsString-drop :
      (n a : ℕ) (text : List ℕ) → n ≤ length text → IsString text a → IsString (drop n text) (a + n)
  IsString-drop n a text h p =
      let split : length text + 1 ≡ n + (length (drop n text) + 1) =
        omega (arith, length-drop n text) in
      let (low, high) =
        read_bytes-split n (length (drop n text) + 1) a (text ++ (0 ∷ [])) (rw split at p.0) in
      (rw (high) (ap some (drop-append_short n text (0 ∷ []) h)), All-drop _ n text p.1)

  -- A chunk that ends before the terminator is the beginning of the string.
  chunk_before :
      (n a : ℕ) (text tmp : List ℕ)
      → n ≤ length text
      → IsString text a
      → read_bytes host n a ≡ some tmp
      → scan host tmp ≡ (take n text, false)
  chunk_before n a text tmp h p e =
      let split : length text + 1 ≡ n + (length text + 1 - n) = omega arith in
      let (low, high) =
        read_bytes-split n (length text + 1 - n) a (text ++ (0 ∷ [])) (rw split at p.0) in
      let same = some-injective tmp (take n (text ++ (0 ∷ []))) (sym e ∙ low) in
      rw (same, take-append_short n text (0 ∷ []) h)
        (scan-nonzero (take n text) (All-take _ n text p.1))

  -- A chunk that reaches the terminator gives the whole string.
  chunk_behind :
      (n a : ℕ) (text tmp : List ℕ)
      → length text < n
      → IsString text a
      → read_bytes host n a ≡ some tmp
      → scan host tmp ≡ (text, true)
  chunk_behind n a text tmp h p e =
      let m = length text + 1 in
      let split : n ≡ m + (n - m) = omega arith in
      let (low, high) = read_bytes-split m (n - m) a tmp (rw split at e) in
      let same = some-injective (text ++ (0 ∷ [])) (take m tmp) (sym p.0 ∙ low) in
      let whole : tmp ≡ text ++ (0 ∷ drop m tmp) =
        sym (take-append-drop m tmp)
        ∙ ap (λ xs. xs ++ drop m tmp) (sym same)
        ∙ append_assoc text (0 ∷ []) (drop m tmp) in
      rw whole (scan-zero text (drop m tmp) p.1)

  first_byte : (a : ℕ) (text : List ℕ) → IsString text a → (c : ℕ) × (host.byte a ≡ some c)
  unfolding read_bytes
  first_byte a text p =
      let more : length text + 1 ≡ suc (length text) = omega arith in
      elim (Option-cases (host.byte a)) [
        | inl no_byte ↦ absurd (some_text (text ++ (0 ∷ [])) (rw (more, no_byte) at p.0))
        | inr c ↦ c
      ]
    where
      some_text : (xs : List ℕ) → ◌≡◌ {A = Option (List ℕ)} none (some xs) → ⊥
      some_text xs e = cc e

  chunk_fits :
      (addr maxlen i : ℕ)
      → addr + i < 2 ^ 64
      → (addr + i) % host.page_size + 0 + cstr_chunk host addr maxlen i ≤ host.page_size
  unfolding cstr_chunk page_remain
  chunk_fits addr maxlen i h =
      let plain : u64 (addr + i) ≡ addr + i = omega arith in
      let inside = mod-lt (addr + i) host.page_some in ground (arith, plain, inside)

  chunk_read :
      (addr maxlen i : ℕ) (rest : List ℕ)
      → 0x1000 ≤ addr
      → addr + i < 2 ^ 64
      → i < maxlen
      → IsString rest (addr + i)
      → (tmp : List ℕ) × (safe_host_read host (u64 (addr + i)) (cstr_chunk host addr maxlen i)
          ≡ some tmp)
        × (read_bytes host (cstr_chunk host addr maxlen i) (addr + i) ≡ some tmp)
  unfolding safe_host_read
  chunk_read addr maxlen i rest low high inside p =
      let plain : u64 (addr + i) ≡ addr + i = omega arith in
      let (c, e) = first_byte (addr + i) rest p in
      let (tmp, e') =
        read_page (cstr_chunk host addr maxlen i) (addr + i) 0 c e
          (chunk_fits addr maxlen i high) in
      let here : addr + i + 0 ≡ addr + i = omega arith in
      let some_bytes = cstr_chunk_some host addr maxlen i inside in
      let open_guard : (addr + i == 0
            || ltb (addr + i) 0x1000
            || cstr_chunk host addr maxlen i == 0)
          ≡ false =
        ground (arith, some_bytes) in
      (tmp, rw (plain, open_guard) (rw here at e'), rw here at e')

  read_loop-string :
      (fuel addr maxlen : ℕ) (taken rest : List ℕ)
      → 0x1000 ≤ addr
      → addr + length taken + length rest < 2 ^ 64
      → maxlen - length taken < fuel
      → length taken + length rest < maxlen
      → IsString rest (addr + length taken)
      → read_loop host fuel (cstr_chunk host addr maxlen) maxlen addr taken
        ≡ some (taken ++ rest, true)
  unfolding read_loop
  read_loop-string zero addr maxlen taken rest low high f room p = absurd (omega arith)
  read_loop-string (suc fuel) addr maxlen taken rest low high f room p =
      let i = length taken in
      let n = cstr_chunk host addr maxlen i in
      let (tmp, e, e') = chunk_read addr maxlen i rest low (omega arith) (omega arith) p in
      let on : ltb i maxlen ≡ true = lt→ltb i maxlen (omega arith) in
      elim (Bool-cases (ltb (length rest) n)) [
        | inl l ↦
            let whole = chunk_behind n (addr + i) rest tmp (ltb→lt _ _ l) p e' in rw (on, e, whole)
        | inr l ↦
            let short = ltb_false→le _ _ l in
            let part = chunk_before n (addr + i) rest tmp short p e' in
            let some_bytes = cstr_chunk_some host addr maxlen i (omega arith) in
            let size : length (taken ++ take n rest) ≡ i + n =
              omega (arith, length-append taken (take n rest), length-take n rest, short) in
            let moved : addr + i + n ≡ addr + length (taken ++ take n rest) = omega (arith, size) in
            let later =
              read_loop-string fuel addr maxlen (taken ++ take n rest) (drop n rest) low
                (omega (arith, size, length-drop n rest, short)) (omega (arith, size, some_bytes))
                (omega (arith, size, length-drop n rest, short))
                (subst (IsString (drop n rest)) moved (IsString-drop n (addr + i) rest short p)) in
            rw (on, e, part)
              (later
                ∙ ap (λ xs. some (xs, true))
                    (append_assoc taken (take n rest) (drop n rest)
                      ∙ ap (λ xs. taken ++ xs) (take-append-drop n rest)))
      ]

  -- A string of bytes that are not zero, with its terminator, that stands at an address from 0x1000 on
  -- and before the end of the address space, and is shorter than `maxlen`, is read whole, across any
  -- number of pages and whatever lies behind it.
  pub safe_read_cstr-string :
      (addr maxlen : ℕ) (text : List ℕ)
      → 0x1000 ≤ addr
      → addr + length text < 2 ^ 64
      → length text < maxlen
      → IsString text addr
      → safe_read_cstr host addr maxlen ≡ some (some (length text, text))
  unfolding safe_read_cstr
  safe_read_cstr-string addr maxlen text low high short p =
      let here : addr ≡ addr + 0 = omega arith in
      let open_guard : (addr == 0 || ltb addr 0x1000 || maxlen == 0) ≡ false = ground arith in
      let e =
        read_loop-string (suc maxlen) addr maxlen [] text low (omega arith) (omega arith)
          (omega arith) (subst (IsString text) here p) in
      rw (open_guard, e)
