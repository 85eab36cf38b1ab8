-- ===== src/HostMemory/Text.antt =====
-- The reads of trace/include/SafeMemRead.h come to an end.
use native.Mathlib.Nat.{mod-lt}
use mathlib.Core.Option.{some-injective}
use android_prybar.Base.{
  ℕ, zero, suc, ◌+◌, ◌-◌, ◌<◌, ◌≡◌, refl, sym, ap, ◌∙◌, inl, inr, Bool, true, false, ◌||◌, Option,
  none, some, List, [], ◌∷◌, ◌++◌, arith, ltb, ◌==◌, if◌then◌else◌, u64, ltb→lt, Bool-cases,
  Option-cases, length, take, length-append,
}
use android_prybar.HostMemory.{
  Host, read_bytes, safe_host_read, scan, page_remain, read_loop, cstr_chunk, safe_read_cstr,
  append_chunk, append_cstr,
}

module _ (host : Host) where
  read_bytes-length : (n addr : ℕ) (xs : List ℕ) → read_bytes host n addr ≡ some xs → length xs ≡ n
  unfolding read_bytes
  read_bytes-length zero addr xs e = sym (ap length (some-injective [] xs e))
  read_bytes-length (suc n) addr xs e = elim (Option-cases (host.byte addr)) [
    | inr b ↦ elim (Option-cases (read_bytes host n (addr + 1))) [
      | inr rest ↦
          let whole = some-injective (b.0 ∷ rest.0) xs (rw (b.1, rest.1) at e) in
          sym (ap length whole) ∙ ap suc (read_bytes-length n (addr + 1) rest.0 rest.1)
      | inl none_left ↦ absurd (cc (rw (b.1, none_left) at e))
    ]
    | inl no_byte ↦ absurd (cc (rw no_byte at e))
  ]

  safe_host_read-length :
      (addr n : ℕ) (xs : List ℕ) → safe_host_read host addr n ≡ some xs → length xs ≡ n
  unfolding safe_host_read
  safe_host_read-length addr n xs e = elim (Bool-cases (addr == 0 || ltb addr 0x1000 || n == 0)) [
    | inl t ↦ absurd (cc (rw t at e))
    | inr t ↦ read_bytes-length n addr xs (rw t at e)
  ]

  -- Without a zero, all of the chunk is taken.
  scan_all : (xs : List ℕ) → (scan host xs).1 ≡ false → (scan host xs).0 ≡ xs
  unfolding scan
  scan_all [] e = refl
  scan_all (x ∷ xs) e = elim (Bool-cases (x == 0)) [
    | inl z ↦ absurd (cc (rw z at e))
    | inr z ↦ rw z (ap (◌∷◌ x) (scan_all xs (rw z at e)))
  ]

  -- The rounds that are left suffice if every chunk has a byte at least.
  pub read_loop_ends :
      (fuel : ℕ) (chunk_of : ℕ → ℕ) (limit addr : ℕ) (taken : List ℕ)
      → ((i : ℕ) → i < limit → 0 < chunk_of i)
      → limit - length taken < fuel
      → (r : List ℕ × Bool) × (read_loop host fuel chunk_of limit addr taken ≡ some r)
  unfolding read_loop
  read_loop_ends zero chunk_of limit addr taken some_byte f = absurd (omega arith)
  read_loop_ends (suc fuel) chunk_of limit addr taken some_byte f =
      elim (Bool-cases (ltb (length taken) limit)) [
        | inr e ↦ ((taken, false), rw e)
        | inl e ↦
            elim (Option-cases
              (safe_host_read host (u64 (addr + length taken)) (chunk_of (length taken)))) [
                | inl failed ↦ ((taken, false), rw (e, failed))
                | inr tmp ↦ elim (Bool-cases (scan host tmp.0).1) [
                  | inl ended ↦ ((taken ++ (scan host tmp.0).0, true), rw (e, tmp.1, ended))
                  | inr on ↦
                      let long = safe_host_read-length _ _ tmp.0 tmp.1 in
                      let (r, e') =
                        read_loop_ends fuel chunk_of limit addr (taken ++ (scan host tmp.0).0)
                          some_byte
                          (omega (
                            arith,
                            length-append taken (scan host tmp.0).0,
                            ap length (scan_all tmp.0 on),
                            long,
                            some_byte (length taken) (ltb→lt _ _ e),
                            ltb→lt _ _ e,
                          )) in
                      (r, rw (e, tmp.1, on, e'))
                ]
              ]
      ]

  page_remain_some : (addr i : ℕ) → 0 < page_remain host addr i
  unfolding page_remain
  page_remain_some addr i = omega (arith, mod-lt (u64 (addr + i)) host.page_some)

  pub cstr_chunk_some : (addr maxlen i : ℕ) → i < maxlen → 0 < cstr_chunk host addr maxlen i
  unfolding cstr_chunk
  cstr_chunk_some addr maxlen i h = ground (arith, page_remain_some addr i)

  append_chunk_some : (addr i : ℕ) → i < 4096 → 0 < append_chunk host addr i
  unfolding append_chunk
  append_chunk_some addr i h = ground (arith, page_remain_some addr i)

  -- safe_read_cstr comes to an end, whatever can be read.
  pub safe_read_cstr_ends :
      (addr maxlen : ℕ) → (r : Option (ℕ × List ℕ)) × (safe_read_cstr host addr maxlen ≡ some r)
  unfolding safe_read_cstr
  safe_read_cstr_ends addr maxlen =
      elim (Bool-cases (addr == 0 || ltb addr 0x1000 || maxlen == 0)) [
        | inl t ↦ (none, rw t)
        | inr t ↦
            let (r, e) =
              read_loop_ends (suc maxlen) (cstr_chunk host addr maxlen) maxlen addr []
                (cstr_chunk_some addr maxlen) (omega arith) in
            elim (Bool-cases r.1) [
              | inl z ↦ (some (length r.0, r.0), rw (t, e, z))
              | inr z ↦ elim (Bool-cases (ltb 0 (length r.0))) [
                | inl l ↦ (
                  some (
                    length r.0,
                    (if ltb (length r.0) maxlen then r.0 else take (maxlen - 1) r.0),
                  ),
                  rw (t, e, z, l),
                )
                | inr l ↦ (none, rw (t, e, z, l))
              ]
            ]
      ]

  -- appendCStr comes to an end, whatever can be read.
  pub append_cstr_ends : (addr : ℕ) → (r : List ℕ × Bool) × (append_cstr host addr ≡ some r)
  unfolding append_cstr
  append_cstr_ends addr = elim (Bool-cases (addr == 0 || ltb addr 0x1000)) [
    | inl t ↦ (([], false), rw t)
    | inr t ↦
        let (r, e) =
          read_loop_ends 4097 (append_chunk host addr) 4096 addr [] (append_chunk_some addr)
            (omega arith) in
        ((r.0, r.1 || ltb 0 (length r.0)), rw (t, e))
  ]
