-- ===== src/Symbols.antt =====
-- trace/Utils/SymbolTable.h and SymbolTable.cpp: the functions of a shared object by address.
pub mod Elf
pub mod Load
pub mod Cache
pub mod Find
pub mod Sound
pub mod Session
pub mod InsertionSort
mod Runs
use android_prybar.Base.{
  ℕ, suc, ◌+◌, ◌-◌, ◌^◌, ◌≤◌, ◌≡◌, Bool, true, false, ◌&&◌, Option, none, some, List, [], ◌∷◌, ltb,
  ◌==◌, if◌then◌else◌, ◌>>=◌, u64, get_elem?, All,
}

-- SymEntry
pub record SymEntry : Type 0 where
  pub addr : ℕ
  pub size : ℕ
  pub name : List ℕ

-- SymbolTable
pub record SymbolTable : Type 0 where
  pub entries : List SymEntry
  pub loaded : Bool

abbrev pub no_table : SymbolTable
no_table = record { entries = []; loaded = false }

-- std::lower_bound by address: the entries from the first one that is not below `addr`.
unfoldable pub lower_bound : ℕ → List SymEntry → List SymEntry
lower_bound addr [] = []
lower_bound addr (e ∷ es) = if ltb e.addr addr then lower_bound addr es else e ∷ es

-- std::upper_bound by address: how many entries stand before the first one that is above `addr`.
unfoldable pub upper_bound : ℕ → List SymEntry → ℕ
upper_bound addr [] = 0
upper_bound addr (e ∷ es) = if ltb addr e.addr then 0 else suc (upper_bound addr es)

-- `it != end() && it->addr == addr`, on the entries from `it` on.
unfoldable pub exact_head : ℕ → List SymEntry → Option (List ℕ)
exact_head addr [] = none
exact_head addr (e ∷ es) = if e.addr == addr then some e.name else none

-- SymbolTable::findExact
unfoldable pub find_exact : ℕ → SymbolTable → Option (List ℕ)
find_exact addr t = exact_head addr (lower_bound addr t.entries)

unfoldable pub name_eq : List ℕ → List ℕ → Bool
name_eq [] [] = true
name_eq [] (y ∷ ys) = false
name_eq (x ∷ xs) [] = false
name_eq (x ∷ xs) (y ∷ ys) = x == y && name_eq xs ys

pub find_by_name : List ℕ → List SymEntry → ℕ
find_by_name name [] = 0
find_by_name name (e ∷ es) = if name_eq e.name name then e.addr else find_by_name name es

-- SymbolTable::findAddrByName
unfoldable pub find_addr_by_name : List ℕ → SymbolTable → ℕ
find_addr_by_name name t = find_by_name name t.entries

-- The end of findContaining, on the entry before the upper bound.
unfoldable pub covers : ℕ → SymEntry → Bool
covers addr e =
    if ltb 0 e.size
    then ltb addr (u64 (e.addr + e.size))
    else ltb (u64 (addr + 2 ^ 64 - e.addr)) 0x1000

-- SymbolTable::findContaining
unfoldable pub find_containing : ℕ → SymbolTable → Option SymEntry
find_containing addr t =
    let found = upper_bound addr t.entries in
    if found == 0
    then none
    else (do e ← get_elem? t.entries (found - 1); if covers addr e then some e else none)

-- An entry of a table, by its position.
abbrev pub Occurs : SymEntry → List SymEntry → Type 0
Occurs e es = (i : ℕ) × (get_elem? es i ≡ some e)

-- Every address is at most those after it.
abbrev pub IsSorted : List SymEntry → Type 0
IsSorted [] = Unit {0}
IsSorted (e ∷ es) = All (λ f. e.addr ≤ f.addr) es × IsSorted es
