-- ===== src/Dump.antt =====
-- The pages that trace/src/TraceUnidbgDump.cpp collects while a function runs, and what it writes of them
-- when the function returns.
pub mod Ranges
pub mod Kept
pub mod Entry
pub mod Fresh
mod Runs
use android_prybar.Base.{
  ℕ, zero, suc, ◌+◌, ◌-◌, ◌*◌, ◌/◌, ◌^◌, Bool, false, ◌&&◌, ◌||◌, Option, none, some, List, [], ◌∷◌,
  ◌++◌, map, ltb, leb, ◌==◌, if◌then◌else◌, ◌>>=◌, u64, replicate, from_option,
}

-- A process's memory: the byte at an address that is mapped. /proc/self/mem can be opened.
abbrev pub Memory : Type 0
Memory = ℕ → Option ℕ

-- The bytes from an address on; `none` where one is not mapped.
unfoldable pub bytes_from : Memory → ℕ → ℕ → Option (List ℕ)
bytes_from mem addr zero = some []
bytes_from mem addr (suc n) = do b ← mem addr; rest ← bytes_from mem (addr + 1) n; some (b ∷ rest)

-- A page, from `p << 12` on.
unfoldable pub page_of : Memory → ℕ → Option (List ℕ)
page_of mem p = bytes_from mem (p * 4096) 4096

-- The members of DumpSession that hold pages.
pub record DumpSession : Type 0 where
  pub pages : List ℕ
  pub written : List (ℕ × List ℕ)
  pub dumped_pages : List ℕ

abbrev pub no_session : DumpSession
no_session = record { pages = []; written = []; dumped_pages = [] }

-- Whether an unordered_set has a page, and its insert.
unfoldable pub contains : ℕ → List ℕ → Bool
contains p [] = false
contains p (q ∷ rest) = q == p || contains p rest

unfoldable pub insert_page : ℕ → List ℕ → List ℕ
insert_page p ps = if contains p ps then ps else p ∷ ps

-- written.find
unfoldable pub find_written : ℕ → List (ℕ × List ℕ) → Option (List ℕ)
find_written p [] = none
find_written p ((q, snap) ∷ rest) = if q == p then some snap else find_written p rest

-- The body of the loop of on_mem.
unfoldable pub visit_page : Bool → Memory → ℕ → DumpSession → Option DumpSession
visit_page is_write mem p s =
    let s' : DumpSession = record s { pages = insert_page p s.pages } in
    let taken = (do snap ← page_of mem p; some (record s' { written = (p, snap) ∷ s.written })) in
    if is_write then from_option taken (λ snap. some s') (find_written p s.written) else some s'

-- The loop of on_mem over the pages left, by their number.
unfoldable pub visit_pages : Bool → Memory → ℕ → ℕ → DumpSession → Option DumpSession
visit_pages is_write mem zero p s = some s
visit_pages is_write mem (suc n) p s = do
  s' ← visit_page is_write mem p s
  visit_pages is_write mem n (p + 1) s'

-- p0 and p1 of on_mem; `size` is the bit pattern of an int.
abbrev pub first_page : ℕ → ℕ
first_page address = address / 4096

abbrev pub last_page : ℕ → ℕ → ℕ
last_page address size =
    u64 (address + (if ltb 0 size && ltb size (2 ^ 31) then size - 1 else 0)) / 4096

-- on_mem: the session of the thread after it. `none` is a page that is not mapped.
unfoldable pub on_mem : Bool → ℕ → ℕ → Memory → DumpSession → Option DumpSession
on_mem is_write address size mem s =
    visit_pages is_write mem (last_page address size + 1 - first_page address) (first_page address)
      s

-- The start and the end of a page in coalesce.
abbrev pub page_start : ℕ → ℕ
page_start p = u64 (p * 4096)

abbrev pub page_end : ℕ → ℕ
page_end p = u64 ((p + 1) * 4096)

-- The loop of coalesce, on ranges.back() and the pages left: that range and those behind it.
unfoldable pub merge : ℕ × ℕ → List ℕ → List (ℕ × ℕ)
merge back [] = back ∷ []
merge (s, e) (p ∷ ps) =
    let joined : ℕ × ℕ = (s, if ltb e (page_end p) then page_end p else e) in
    let opened : ℕ × ℕ = (page_start p, page_end p) in
    let rest = merge (if leb (page_start p) e then joined else opened) ps in
    if leb (page_start p) e then rest else (s, e) ∷ rest

-- The loop of coalesce from the beginning.
unfoldable pub ranges_of : List ℕ → List (ℕ × ℕ)
ranges_of [] = []
ranges_of (p ∷ ps) = merge (page_start p, page_end p) ps

-- The loop that keeps the pages not dumped before, with dumped_pages after it.
unfoldable pub fresh_pages : List ℕ → List ℕ → List ℕ × List ℕ
fresh_pages [] dumped = ([], dumped)
fresh_pages (p ∷ ps) dumped =
    let (fresh, dumped') = fresh_pages ps (insert_page p dumped) in
    (if contains p dumped then fresh else p ∷ fresh, dumped')

-- What is written for the page at an address: the snapshot, or what stands there, or zeros.
unfoldable pub dump_page : List (ℕ × List ℕ) → Memory → ℕ → List ℕ
dump_page written mem a =
    from_option (from_option (replicate 4096 0) (λ bytes. bytes) (page_of mem (a / 4096)))
      (λ snap. snap) (find_written (a / 4096) written)

-- The loop that writes a range, on the pages left.
unfoldable pub dump_pages : List (ℕ × List ℕ) → Memory → ℕ → ℕ → List ℕ
dump_pages written mem zero a = []
dump_pages written mem (suc n) a = dump_page written mem a ++ dump_pages written mem n (a + 4096)

-- The content of the file of a range.
unfoldable pub dump_range : List (ℕ × List ℕ) → Memory → ℕ × ℕ → List ℕ
dump_range written mem (s, e) = dump_pages written mem ((e - s + 4095) / 4096) s

-- coalesce; std::sort is a parameter.
unfoldable pub coalesce : (List ℕ → List ℕ) → List ℕ → List (ℕ × ℕ)
coalesce sort pages = ranges_of (sort pages)

-- The part of do_finalize that writes the pages it has gathered: the files by their ranges, and the
-- session after it.
unfoldable pub dump_files :
    (List ℕ → List ℕ) → Memory → List ℕ → DumpSession → List ((ℕ × ℕ) × List ℕ) × DumpSession
dump_files sort mem pages s =
    let (fresh, dumped) = fresh_pages pages s.dumped_pages in
    (
      map (λ r. (r, dump_range s.written mem r)) (coalesce sort fresh),
      record s { dumped_pages = dumped },
    )
