-- ===== src/Dump/Runs.antt =====
-- Runs of the page collection of trace/src/TraceUnidbgDump.cpp.
use android_prybar.Base.{
  ℕ, zero, suc, ◌+◌, ◌*◌, ◌≡◌, refl, ◌↔◌, inl, inr, true, not, ◌&&◌, ◌||◌, some, List, [], ◌∷◌,
  arith, ltb, leb, if◌then◌else◌, replicate,
}
use android_prybar.Dump.{
  Memory, bytes_from, page_of, DumpSession, no_session, contains, insert_page, find_written,
  visit_page, visit_pages, on_mem, merge, ranges_of, fresh_pages, dump_range,
}
use android_prybar.Dump.Ranges.{Covered, OnPage, IsSeparate, ranges_of-exact}
use android_prybar.Dump.Entry.{Reached, entered, was_written, dump_range-entry}
use android_prybar.Dump.Fresh.{fresh_pages-contains}

ranges : ranges_of (3 ∷ 4 ∷ 4 ∷ 7 ∷ []) ≡ (0x3000, 0x5000) ∷ (0x7000, 0x8000) ∷ []
unfolding ranges_of merge
ranges = refl

ranges_of-exact_example :
    IsSeparate (ranges_of (3 ∷ 4 ∷ 4 ∷ 7 ∷ []))
    × ((a : ℕ) → Covered a (ranges_of (3 ∷ 4 ∷ 4 ∷ 7 ∷ [])) ↔ OnPage a (3 ∷ 4 ∷ 4 ∷ 7 ∷ []))
ranges_of-exact_example = ranges_of-exact (3 ∷ 4 ∷ 4 ∷ 7 ∷ []) (omega arith)

fresh_pages-contains_example :
    (contains 4 (fresh_pages (3 ∷ 4 ∷ []) (3 ∷ [])).0
      ≡ (contains 4 (3 ∷ 4 ∷ []) && not (contains 4 (3 ∷ []))))
    × (contains 4 (fresh_pages (3 ∷ 4 ∷ []) (3 ∷ [])).1
        ≡ (contains 4 (3 ∷ 4 ∷ []) || contains 4 (3 ∷ [])))
fresh_pages-contains_example = fresh_pages-contains 4 (3 ∷ 4 ∷ []) (3 ∷ [])

-- A memory of sevens, and the same after a store of eight bytes at 0x5ffc.
abbrev before : Memory
before a = some 7

abbrev after : Memory
after a = if leb 0x5FFC a && ltb a 0x6004 then some 9 else some 7

bytes_from-before : (addr n : ℕ) → bytes_from before addr n ≡ some (replicate n 7)
unfolding bytes_from
bytes_from-before addr zero = refl
bytes_from-before addr (suc n) = rw (bytes_from-before (addr + 1) n)

abbrev sevens : List ℕ
sevens = replicate 4096 7

abbrev session : DumpSession
session = record { pages = 6 ∷ 5 ∷ []; written = (6, sevens) ∷ (5, sevens) ∷ []; dumped_pages = [] }

stored : on_mem true 0x5FFC 8 before no_session ≡ some session
unfolding on_mem visit_pages visit_page page_of find_written insert_page contains
stored = rw (bytes_from-before (5 * 4096) 4096, bytes_from-before (6 * 4096) 4096)

reached : Reached before after session
reached =
    was_written 0x5FFC 8 before after no_session session (entered no_session refl) stored
      (omega arith) (omega arith) (omega arith)
      (λ b out. elim out [ inl l ↦ ground arith | inr l ↦ ground arith ])

dump_range-entry_example :
    dump_range session.written after (0x5000, 0x7000) ≡ dump_range [] before (0x5000, 0x7000)
dump_range-entry_example = dump_range-entry before after session (0x5000, 0x7000) reached
