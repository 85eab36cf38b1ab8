-- ===== src/Calls/Rows.antt =====
-- The table of signatures of trace/src/FuncCallTrace.cpp: one row for each name, with the parameters it counts.
use android_prybar.Base.{
  ℕ, ◌≤◌, ◌≡◌, refl, ◌⊎◌, inl, inr, Bool, true, false, not, ◌&&◌, some, List, [], ◌∷◌, arith, leb,
  ◌==◌, ==_iff, length,
}
use android_prybar.Regions.{text_eq}
use android_prybar.Calls.{FuncSig, find_func_sig}
use android_prybar.Calls.Table.{func_sigs}

text_eq_refl : (t : List ℕ) → text_eq t t ≡ true
unfolding text_eq
text_eq_refl [] = refl
text_eq_refl (c ∷ cs) = rw ((==_iff c c).1 refl) (text_eq_refl cs)

-- Whether no row has a name.
abbrev pub is_fresh : List ℕ → List FuncSig → Bool
is_fresh name [] = true
is_fresh name (s ∷ rest) = not (text_eq name s.name) && is_fresh name rest

-- Whether the names differ, and each row has the parameters it counts, eight at most.
abbrev pub is_table : List FuncSig → Bool
is_table [] = true
is_table (s ∷ rest) =
    (s.param_count == length s.params && leb s.param_count 8)
    && (is_fresh s.name rest && is_table rest)

-- A row of a table.
abbrev pub IsRow : FuncSig → List FuncSig → Type 0
IsRow s [] = ⊥
IsRow s (r ∷ rest) = (s ≡ r) ⊎ IsRow s rest

fresh_row :
    (name : List ℕ) (s : FuncSig) (rows : List FuncSig)
    → is_fresh name rows ≡ true
    → IsRow s rows
    → text_eq name s.name ≡ false
fresh_row name s [] fresh m = elim m [ ]
fresh_row name s (r ∷ rest) fresh (inl e) = rw e (ground arith)
fresh_row name s (r ∷ rest) fresh (inr m) = fresh_row name s rest (ground arith) m

find_func_sig-row :
    (s : FuncSig) (rows : List FuncSig)
    → is_table rows ≡ true
    → IsRow s rows
    → find_func_sig s.name rows ≡ some s
unfolding find_func_sig
find_func_sig-row s [] h m = elim m [ ]
find_func_sig-row s (r ∷ rest) h (inl e) = rw (e, text_eq_refl r.name)
find_func_sig-row s (r ∷ rest) h (inr m) =
    rw (fresh_row r.name s rest (ground arith) m) (find_func_sig-row s rest (ground arith) m)

counts_row :
    (s : FuncSig) (rows : List FuncSig)
    → is_table rows ≡ true
    → IsRow s rows
    → (s.param_count ≡ length s.params) × (s.param_count ≤ 8)
counts_row s [] h m = elim m [ ]
counts_row s (r ∷ rest) h (inl e) = rw e (ground arith, ground arith)
counts_row s (r ∷ rest) h (inr m) = counts_row s rest (ground arith) m

func_sigs_lem : is_table func_sigs ≡ true
unfolding func_sigs text_eq
func_sigs_lem = refl

-- Every row of the table is found under its name, and counts its parameters, which are eight at most: as
-- many as the registers that a call hands over.
pub find_func_sig-func_sigs :
    (s : FuncSig)
    → IsRow s func_sigs
    → (find_func_sig s.name func_sigs ≡ some s)
      × (s.param_count ≡ length s.params)
      × (s.param_count ≤ 8)
find_func_sig-func_sigs s m =
    let (count, bound) = counts_row s func_sigs func_sigs_lem m in
    (find_func_sig-row s func_sigs func_sigs_lem m, count, bound)
