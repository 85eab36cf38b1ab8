-- ===== src/Svc/Flags.antt =====
-- The flags and commands that svc_handle of trace/src/svc_handler.cpp prints by name.
pub mod Total
use Prim.Native.String.{String}
use android_prybar.Base.{
  ℕ, ◌/◌, ◌%◌, ◌^◌, Bool, true, false, ◌||◌, Option, none, some, List, [], ◌∷◌, ◌++◌, ◌==◌,
  if◌then◌else◌, u32, get_elem?, bytes_of,
}
use android_prybar.Svc.Dump.{lit, append_hex_val, append_dec_val}

pub has_bit : ℕ → ℕ → Bool
has_bit v k = v / 2 ^ k % 2 == 1

-- The names whose flag is set, parted by `|`; `first` is true before anything is printed.
pub flag_names : Bool → List (Bool × String) → List ℕ
flag_names first [] = []
flag_names first ((is_set, name) ∷ rest) =
    let here = (if first then [] else bytes_of "|") ++ (bytes_of name ++ flag_names false rest) in
    let skip = flag_names first rest in if is_set then here else skip

pub prot_text : ℕ → List ℕ
prot_text prot =
    if prot == 0
    then bytes_of "NONE"
    else flag_names true
        ((has_bit prot 0, "R") ∷ (has_bit prot 1, "W") ∷ (has_bit prot 2, "X") ∷ [])

pub map_flags_text : ℕ → Option (List ℕ)
map_flags_text flags =
    if has_bit flags 0 || has_bit flags 1 || has_bit flags 4 || has_bit flags 5
    then some (
        flag_names true (
          (has_bit flags 0, "SHARED")
          ∷ (has_bit flags 1, "PRIVATE")
          ∷ (has_bit flags 4, "FIXED")
          ∷ (has_bit flags 5, "ANON")
          ∷ []))
    else append_hex_val flags

pub whence_text : ℕ → Option (List ℕ)
whence_text x2 =
    let whence = u32 x2 in
    if whence == 0
    then lit "SEEK_SET"
    else if whence == 1
    then lit "SEEK_CUR"
    else if whence == 2
    then lit "SEEK_END"
    else append_dec_val x2

pub fcntl_names : List String
fcntl_names =
    "F_DUPFD" ∷ "F_GETFD" ∷ "F_SETFD" ∷ "F_GETFL" ∷ "F_SETFL" ∷ "F_GETLK" ∷ "F_SETLK" ∷ "F_SETLKW"
    ∷ []

pub fcntl_text : ℕ → Option (List ℕ)
fcntl_text x1 = elim (get_elem? fcntl_names (u32 x1)) as (λ _. Option (List ℕ)) [
  | none ↦ append_dec_val x1
  | some name ↦ lit name
]

pub futex_text : ℕ → Option (List ℕ)
futex_text x1 =
    let op = x1 % 128 in
    if op == 0
    then lit "WAIT"
    else if op == 1
    then lit "WAKE"
    else if op == 9
    then lit "WAIT_BITSET"
    else if op == 10
    then lit "WAKE_BITSET"
    else append_dec_val x1
