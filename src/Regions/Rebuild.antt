-- ===== src/Regions/Rebuild.antt =====
-- rebuildPtrRegions of trace/src/FuncCallTrace.cpp on lines that ascend, as those of /proc/self/maps do.
use android_prybar.Base.{
  ℕ, ◌≤◌, inl, inr, Option, none, some, List, [], ◌∷◌, arith, Bool-cases, All, from_option,
  from_option-all,
}
use android_prybar.Regions.{
  MapsLine, skip_spaces, begins_with, text_eq, Bases, find_base, region_of, rebuild_loop,
  rebuild_ptr_regions,
}
use android_prybar.Regions.Search.{IsAscending}

-- What holds of every line with six fields.
abbrev pub AllLines : (MapsLine → Type 0) → List (Option MapsLine) → Type 0
AllLines P [] = Unit {0}
AllLines P (none ∷ ls) = AllLines P ls
AllLines P (some l ∷ ls) = P l × AllLines P ls

-- No line overlaps one before it.
abbrev pub LinesAscend : List (Option MapsLine) → Type 0
LinesAscend [] = Unit {0}
LinesAscend (none ∷ ls) = LinesAscend ls
LinesAscend (some l ∷ ls) =
    (l.from_addr ≤ l.to_addr) × AllLines (λ k. l.to_addr ≤ k.from_addr) ls × LinesAscend ls

AllLines-map :
    (P Q : MapsLine → Type 0) (ls : List (Option MapsLine))
    → ((k : MapsLine) → P k → Q k)
    → AllLines P ls
    → AllLines Q ls
AllLines-map P Q [] f all = tt
AllLines-map P Q (none ∷ ls) f all = AllLines-map P Q ls f all
AllLines-map P Q (some l ∷ ls) f all = (f l all.0, AllLines-map P Q ls f all.1)

AllLines-all :
    (P : MapsLine → Type 0) (ls : List (Option MapsLine)) → ((k : MapsLine) → P k) → AllLines P ls
AllLines-all P [] f = tt
AllLines-all P (none ∷ ls) f = AllLines-all P ls f
AllLines-all P (some l ∷ ls) f = (f l, AllLines-all P ls f)

rebuild_loop-above :
    (m : ℕ) (ls : List (Option MapsLine)) (bases : Bases)
    → AllLines (λ k. m ≤ k.from_addr) ls
    → All (λ r. m ≤ r.start) (rebuild_loop ls bases)
unfolding rebuild_loop region_of
rebuild_loop-above m [] bases all = tt
rebuild_loop-above m (none ∷ ls) bases all = rebuild_loop-above m ls bases all
rebuild_loop-above m (some l ∷ ls) bases all = (all.0, rebuild_loop-above m ls _ all.1)

rebuild_loop-IsAscending :
    (ls : List (Option MapsLine)) (bases : Bases)
    → LinesAscend ls
    → IsAscending (rebuild_loop ls bases)
unfolding rebuild_loop region_of
rebuild_loop-IsAscending [] bases up = tt
rebuild_loop-IsAscending (none ∷ ls) bases up = rebuild_loop-IsAscending ls bases up
rebuild_loop-IsAscending (some l ∷ ls) bases up =
    (up.0, rebuild_loop-above l.to_addr ls _ up.1, rebuild_loop-IsAscending ls _ up.2)

-- Every base so far is at most `m`.
abbrev BasesBelow : ℕ → Bases → Type 0
BasesBelow m bases = All (λ (b : List ℕ × ℕ). b.1 ≤ m) bases

BasesBelow-mono : (m n : ℕ) (bases : Bases) → m ≤ n → BasesBelow m bases → BasesBelow n bases
BasesBelow-mono m n [] h all = tt
BasesBelow-mono m n (b ∷ bs) h all = (omega (arith, all.0), BasesBelow-mono m n bs h all.1)

find_base-le :
    (path : List ℕ) (m : ℕ) (bases : Bases)
    → BasesBelow m bases
    → from_option m (λ b. b) (find_base path bases) ≤ m
unfolding find_base
find_base-le path m [] all = omega arith
find_base-le path m ((p, base) ∷ rest) all = elim (Bool-cases (text_eq p path)) [
  | inl e ↦ rw e all.0
  | inr e ↦ rw e (find_base-le path m rest all.1)
]

region_of-base :
    (l : MapsLine) (bases : Bases)
    → BasesBelow l.from_addr bases
    → ((region_of l bases).0.module_base ≤ l.from_addr)
      × BasesBelow l.from_addr (region_of l bases).1
unfolding region_of
region_of-base l bases below = elim (Bool-cases (begins_with b'/' (skip_spaces l.path))) [
  | inl e ↦ rw e (
    find_base-le _ l.from_addr bases below,
    from_option-all (BasesBelow l.from_addr) _ _ (find_base (skip_spaces l.path) bases)
        (omega arith, below) (λ b. below),
  )
  | inr e ↦ rw e (omega arith, below)
]

rebuild_loop-bases :
    (ls : List (Option MapsLine)) (bases : Bases) (m : ℕ)
    → LinesAscend ls
    → AllLines (λ k. m ≤ k.from_addr) ls
    → BasesBelow m bases
    → All (λ r. r.module_base ≤ r.start) (rebuild_loop ls bases)
unfolding rebuild_loop region_of
rebuild_loop-bases [] bases m up above below = tt
rebuild_loop-bases (none ∷ ls) bases m up above below = rebuild_loop-bases ls bases m up above below
rebuild_loop-bases (some l ∷ ls) bases m up above below =
    let step = region_of-base l bases (BasesBelow-mono m l.from_addr bases above.0 below) in
    (
      step.0,
      rebuild_loop-bases ls _ l.from_addr up.2
          (AllLines-map _ _ ls (λ k h. omega (arith, up.0, h)) up.1) step.1,
    )

-- Of lines that ascend, the snapshot has regions that follow one another, and no region lies below the
-- base of its module: the offset of an address in its region's module is never negative.
pub rebuild_ptr_regions-IsAscending :
    (ls : List (Option MapsLine))
    → LinesAscend ls
    → IsAscending (rebuild_ptr_regions ls)
      × All (λ r. r.module_base ≤ r.start) (rebuild_ptr_regions ls)
unfolding rebuild_ptr_regions
rebuild_ptr_regions-IsAscending ls up = (
  rebuild_loop-IsAscending ls [] up,
  rebuild_loop-bases ls [] 0 up (AllLines-all _ ls (λ k. omega arith)) tt,
)
