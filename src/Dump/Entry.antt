-- ===== src/Dump/Entry.antt =====
-- What trace/src/TraceUnidbgDump.cpp writes are the pages as they were when the function was entered.
use android_prybar.Base.{
  ℕ, zero, suc, ◌+◌, ◌-◌, ◌/◌, ◌^◌, ◌≤◌, ◌<◌, ◌≡◌, refl, ◌∙◌, ◌⊎◌, inl, inr, true, false, some, [],
  arith, ltb, ltb→lt, ltb_false→le, Bool-cases,
}
use android_prybar.Dump.{
  Memory, DumpSession, find_written, first_page, last_page, on_mem, dump_page, dump_pages,
  dump_range,
}
use android_prybar.Dump.Kept.{page_of-agree, AllKept, visit_pages-keeps, visit_pages-AllKept}

-- The memory and the session that accesses lead to, from the entry on: on_mem runs before a write is made,
-- and a write changes the bytes that it names only.
pub data Reached (mem0 : Memory) : Memory → DumpSession → Type 0 where
  entered : (s : DumpSession) → s.written ≡ [] → Reached mem0 mem0 s
  was_read :
      (address size : ℕ) (mem : Memory) (s s' : DumpSession)
      → Reached mem0 mem s
      → on_mem false address size mem s ≡ some s'
      → Reached mem0 mem s'
  was_written :
      (address size : ℕ) (mem mem' : Memory) (s s' : DumpSession)
      → Reached mem0 mem s
      → on_mem true address size mem s ≡ some s'
      → 0 < size
      → size < 2 ^ 31
      → address + size ≤ 2 ^ 64
      → ((b : ℕ) → (b < address) ⊎ (address + size ≤ b) → mem' b ≡ mem b)
      → Reached mem0 mem' s'

write-AllKept :
    (mem0 mem mem' : Memory) (address size : ℕ) (s s' : DumpSession)
    → AllKept mem0 mem s
    → on_mem true address size mem s ≡ some s'
    → 0 < size
    → size < 2 ^ 31
    → address + size ≤ 2 ^ 64
    → ((b : ℕ) → (b < address) ⊎ (address + size ≤ b) → mem' b ≡ mem b)
    → AllKept mem0 mem' s'
unfolding on_mem
write-AllKept mem0 mem mem' address size s s' kept h some_byte short fits same p =
    let n = last_page address size + 1 - first_page address in
    let last : last_page address size ≡ (address + size - 1) / 4096 = ground arith in
    elim (visit_pages-AllKept true mem0 mem n (first_page address) s s' h kept p) [
      | inl found ↦ inl found
      | inr (m, before) ↦ elim (Bool-cases (ltb p (first_page address))) [
        | inl low ↦ inr (m, λ b e. same b (inl (ground (arith, e))) ∙ before b e)
        | inr low ↦ elim (Bool-cases (ltb (last_page address size) p)) [
          | inl high ↦
              inr (m, λ b e. same b (inr (omega (arith, last, e, ltb→lt _ _ high))) ∙ before b e)
          | inr high ↦
              let (snap, f) = visit_pages-keeps true mem n (first_page address) p s s' h (
                inr (
                  ground arith,
                  omega (arith, last, ltb_false→le _ _ high, ltb_false→le _ _ low),
                  refl,
                )) in
              absurd (cc (m, f))
        ]
      ]
    ]

pub Reached-AllKept :
    (mem0 mem : Memory) (s : DumpSession) → Reached mem0 mem s → AllKept mem0 mem s
unfolding on_mem find_written
Reached-AllKept mem0 _ _ (entered s none_written) = λ p. inr (rw none_written refl, λ b e. refl)
Reached-AllKept mem0 _ _ (was_read address size mem s s' before h) =
    visit_pages-AllKept false mem0 mem _ _ s s' h (Reached-AllKept mem0 mem s before)
Reached-AllKept mem0 _ _
      (was_written address size mem mem' s s' before h some_byte short fits same) =
    write-AllKept mem0 mem mem' address size s s' (Reached-AllKept mem0 mem s before) h some_byte
      short fits same

dump_page-entry :
    (mem0 mem : Memory) (s : DumpSession) (a : ℕ)
    → AllKept mem0 mem s
    → dump_page s.written mem a ≡ dump_page [] mem0 a
unfolding dump_page find_written
dump_page-entry mem0 mem s a kept = elim (kept (a / 4096)) [
  | inl (snap, f, g) ↦ rw (f, g)
  | inr (n, same) ↦ rw (n, page_of-agree mem mem0 (a / 4096) same)
]

dump_pages-entry :
    (mem0 mem : Memory) (s : DumpSession) (n a : ℕ)
    → AllKept mem0 mem s
    → dump_pages s.written mem n a ≡ dump_pages [] mem0 n a
unfolding dump_pages
dump_pages-entry mem0 mem s zero a kept = refl
dump_pages-entry mem0 mem s (suc n) a kept =
    rw (dump_page-entry mem0 mem s a kept, dump_pages-entry mem0 mem s n (a + 4096) kept)

pub dump_range-entry :
    (mem0 mem : Memory) (s : DumpSession) (r : ℕ × ℕ)
    → Reached mem0 mem s
    → dump_range s.written mem r ≡ dump_range [] mem0 r
unfolding dump_range
dump_range-entry mem0 mem s r reached =
    dump_pages-entry mem0 mem s ((r.1 - r.0 + 4095) / 4096) r.0 (Reached-AllKept mem0 mem s reached)
