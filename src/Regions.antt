-- ===== src/Regions.antt =====
-- The memory regions of trace/src/FuncCallTrace.cpp: the snapshot of /proc/self/maps, its search, and
-- the notes on addresses. What sscanf reads of each line is a parameter.
pub mod Search
pub mod Rebuild
pub mod FirstStart
pub mod Bases
pub mod Tag
pub mod Live
pub mod Cached
pub mod Dangles
pub mod Others
mod Runs
use android_prybar.Base.{
  ℕ, zero, suc, ◌+◌, ◌-◌, ◌/◌, ◌%◌, ◌^◌, Bool, true, false, not, ◌&&◌, ◌||◌, Option, none, some,
  List, [], ◌∷◌, ◌++◌, ltb, leb, ◌==◌, if◌then◌else◌, ◌>>=◌, u64, length, get_elem?, take, bytes_of,
  from_option,
}
use android_prybar.Numbers.{uint64_to_hex}

-- PtrRegion
pub record PtrRegion : Type 0 where
  pub start : ℕ
  pub end : ℕ
  pub module_base : ℕ
  pub perms : ℕ
  pub named : Bool
  pub label : List ℕ

-- A line of which sscanf reads six fields or more.
pub record MapsLine : Type 0 where
  pub from_addr : ℕ
  pub to_addr : ℕ
  pub flags : List ℕ
  pub path : List ℕ

unfoldable pub skip_spaces : List ℕ → List ℕ
skip_spaces [] = []
skip_spaces (c ∷ cs) = if c == b' ' then skip_spaces cs else c ∷ cs

-- `strchr(perms, c) != nullptr`
unfoldable pub has_char : ℕ → List ℕ → Bool
has_char c [] = false
has_char c (x ∷ xs) = x == c || has_char c xs

-- `strrchr(pth, '/')` and what follows it, or null.
unfoldable pub after_slash : List ℕ → Option (List ℕ)
after_slash [] = none
after_slash (x ∷ xs) =
    from_option (if x == b'/' then some xs else none) (λ s. some s) (after_slash xs)

unfoldable pub begins_with : ℕ → List ℕ → Bool
begins_with c [] = false
begins_with c (x ∷ xs) = x == c

unfoldable pub text_eq : List ℕ → List ℕ → Bool
text_eq [] [] = true
text_eq [] (y ∷ ys) = false
text_eq (x ∷ xs) [] = false
text_eq (x ∷ xs) (y ∷ ys) = x == y && text_eq xs ys

-- firstBase: the lowest start by path.
abbrev pub Bases : Type 0
Bases = List (List ℕ × ℕ)

unfoldable pub find_base : List ℕ → Bases → Option ℕ
find_base path [] = none
find_base path ((p, base) ∷ rest) = if text_eq p path then some base else find_base path rest

abbrev pub flag_bit : Bool → ℕ → ℕ
flag_bit b v = if b then v else 0

-- The body of the loop of rebuildPtrRegions.
unfoldable pub region_of : MapsLine → Bases → PtrRegion × Bases
region_of l bases =
    let pth = skip_spaces l.path in
    let named = begins_with b'/' pth in
    let lbl = if named then from_option pth (λ s. s) (after_slash pth) else pth in
    let base = from_option l.from_addr (λ b. b) (if named then find_base pth bases else none) in
    let r : PtrRegion = record {
      start = l.from_addr;
      end = l.to_addr;
      module_base = base;
      perms =
          flag_bit (has_char b'r' l.flags) 1
          + flag_bit (has_char b'w' l.flags) 2
          + flag_bit (has_char b'x' l.flags) 4;
      named = named;
      label = take 127 lbl;
    } in
    (
      r,
      if named
          then from_option ((pth, l.from_addr) ∷ bases) (λ b. bases) (find_base pth bases)
          else bases,
    )

-- The loop of rebuildPtrRegions; `none` is a line with fewer fields, which it skips.
unfoldable pub rebuild_loop : List (Option MapsLine) → Bases → List PtrRegion
rebuild_loop [] bases = []
rebuild_loop (none ∷ ls) bases = rebuild_loop ls bases
rebuild_loop (some l ∷ ls) bases = (region_of l bases).0 ∷ rebuild_loop ls (region_of l bases).1

-- rebuildPtrRegions on the lines of the file.
unfoldable pub rebuild_ptr_regions : List (Option MapsLine) → List PtrRegion
rebuild_ptr_regions ls = rebuild_loop ls []

-- The loop of findPtrRegion. The outer `none` is out of fuel, or an index out of range.
unfoldable pub search_loop : ℕ → ℕ → List PtrRegion → ℕ → ℕ → Option (Option PtrRegion)
search_loop zero addr regions lo hi = none
search_loop (suc fuel) addr regions lo hi =
    let mid = (lo + hi) / 2 in
    let left = search_loop fuel addr regions lo mid in
    let right = search_loop fuel addr regions (mid + 1) hi in
    let probe = (do
      r ← get_elem? regions mid
      if ltb addr r.start then left else if leb r.end addr then right else some (some r)) in
    if ltb lo hi then probe else some none

-- findPtrRegion
unfoldable pub find_ptr_region : ℕ → List PtrRegion → Option (Option PtrRegion)
find_ptr_region addr regions = search_loop (suc (length regions)) addr regions 0 (length regions)

-- g_ptr_regions and g_regions_built_gen
pub record Snapshot : Type 0 where
  pub regions : List PtrRegion
  pub built_gen : ℕ

-- The VM's count of changes of the maps, and the lines if the file can be opened.
pub record Maps : Type 0 where
  pub generation : ℕ
  pub lines : Option (List (Option MapsLine))

-- ensureRegionsFresh_locked
unfoldable pub ensure_regions_fresh : Maps → Snapshot → Snapshot
ensure_regions_fresh maps st =
    if length st.regions == 0 || not (st.built_gen == maps.generation)
    then record {
      regions = from_option st.regions rebuild_ptr_regions maps.lines;
      built_gen = maps.generation;
    }
    else st

-- `rawval & 0x00FFFFFFFFFFFFFF`
abbrev pub untagged : ℕ → ℕ
untagged v = v % 2 ^ 56

abbrev pub perm_char : ℕ → ℕ → ℕ → ℕ
perm_char perms bit c = if perms / bit % 2 == 1 then c else b'-'

-- The text of appendPtrAnnotation for a region.
unfoldable pub annotation : ℕ → PtrRegion → Option (List ℕ)
annotation addr r =
    let name = (do
      offset ← uint64_to_hex (u64 (addr + 2 ^ 64 - r.module_base))
      some (r.label ++ (bytes_of "+0x" ++ offset))) in
    let place = if begins_with b'[' r.label then r.label else bytes_of "anon" in
    let flags =
      b' ' ∷ perm_char r.perms 1 b'r' ∷ perm_char r.perms 2 b'w' ∷ perm_char r.perms 4 b'x' ∷ [] in
    do
      body ← (if r.named then name else some (place ++ flags))
      some (bytes_of " (" ++ (body ++ b')' ∷ []))

-- appendPtrAnnotation: the snapshot after it and the text appended.
unfoldable pub append_ptr_annotation : Maps → ℕ → Snapshot → Option (Snapshot × List ℕ)
append_ptr_annotation maps rawval st =
    let addr = untagged rawval in
    let st' = ensure_regions_fresh maps st in
    let body = (do
      found ← find_ptr_region addr st'.regions
      text ← from_option (some []) (annotation addr) found
      some (st', text)) in
    if ltb addr 0x100000 then some (st, []) else body
