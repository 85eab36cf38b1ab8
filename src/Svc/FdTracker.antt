-- ===== src/Svc/FdTracker.antt =====
-- FdTracker of trace/include/svc_handler.h.
use android_prybar.Base.{
  ℕ, ◌^◌, ◌<◌, ◌≡◌, refl, ◌≢◌, inl, inr, false, ◌&&◌, Option, none, some, List, [], ◌∷◌, arith, ltb,
  ◌==◌, if◌then◌else◌, lt→ltb, ==_iff, Bool-cases, length,
}

-- FdTracker::table
abbrev pub FdTracker : Type 0
FdTracker = List (ℕ × List ℕ)

-- table.erase(fd)
pub remove : ℕ → FdTracker → FdTracker
remove fd [] = []
remove fd ((n, path) ∷ rest) =
    let others = remove fd rest in if n == fd then others else (n, path) ∷ others

-- `if (fd >= 0 && path && path[0]) table[fd] = path;`
pub add : ℕ → List ℕ → FdTracker → FdTracker
add fd path table =
    if ltb fd (2 ^ 31) && ltb 0 (length path) then (fd, path) ∷ remove fd table else table

pub lookup : ℕ → FdTracker → Option (List ℕ)
lookup fd [] = none
lookup fd ((n, path) ∷ rest) = if n == fd then some path else lookup fd rest

pub lookup-remove_self : (fd : ℕ) (table : FdTracker) → lookup fd (remove fd table) ≡ none
unfolding lookup remove
lookup-remove_self fd [] = refl
lookup-remove_self fd ((n, path) ∷ rest) = elim (Bool-cases (n == fd)) [
  | inl e ↦ rw e (lookup-remove_self fd rest)
  | inr e ↦ rw e (rw e (lookup-remove_self fd rest))
]

pub lookup-remove_other :
    (fd other : ℕ) (table : FdTracker)
    → other ≢ fd
    → lookup other (remove fd table) ≡ lookup other table
unfolding lookup remove
lookup-remove_other fd other [] d = refl
lookup-remove_other fd other ((n, path) ∷ rest) d = elim (Bool-cases (n == fd)) [
  | inl e ↦
      let here : n ≡ fd = (==_iff n fd).0 e in
      let skip : (n == other) ≡ false = ground (arith, d) in
      rw (e, skip) (lookup-remove_other fd other rest d)
  | inr e ↦ elim (Bool-cases (n == other)) [
    | inl o ↦ rw (e, o)
    | inr o ↦ rw (e, o) (lookup-remove_other fd other rest d)
  ]
]

-- A descriptor that is opened is found under the path that it was opened with, unless that is empty.
pub lookup-add :
    (fd : ℕ) (path : List ℕ) (table : FdTracker)
    → fd < 2 ^ 31
    → 0 < length path
    → lookup fd (add fd path table) ≡ some path
unfolding lookup add
lookup-add fd path table h l =
    rw (lt→ltb fd (2 ^ 31) h, lt→ltb 0 (length path) l, (==_iff fd fd).1 refl)

pub lookup-add_other :
    (fd other : ℕ) (path : List ℕ) (table : FdTracker)
    → other ≢ fd
    → lookup other (add fd path table) ≡ lookup other table
unfolding lookup add
lookup-add_other fd other path table d =
    let skip : (fd == other) ≡ false = ground (arith, d) in
    elim (Bool-cases (ltb fd (2 ^ 31) && ltb 0 (length path))) [
      | inl e ↦ rw (e, skip) (lookup-remove_other fd other table d)
      | inr e ↦ rw e
    ]
