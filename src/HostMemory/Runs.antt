-- ===== src/HostMemory/Runs.antt =====
-- The reads at concrete inputs.
use android_prybar.Base.{
  ℕ, ◌-◌, ◌/◌, ◌≡◌, refl, inl, inr, ◌||◌, Option, none, some, List, arith, ◌==◌, if◌then◌else◌,
  Bool-cases, length, get_or, bytes_of,
}
use android_prybar.HostMemory.{Host, read_bytes, safe_read_cstr}
use android_prybar.HostMemory.Text.{safe_read_cstr_ends}
use android_prybar.HostMemory.Strings.{IsString, safe_read_cstr-string}

no_memory_whole :
    (a b c : ℕ)
    → a / 4096 ≡ b / 4096
    → ◌≡◌ {A = Option ℕ} none (some c)
    → (d : ℕ) × (◌≡◌ {A = Option ℕ} none (some d))
no_memory_whole a b c e f = absurd (cc f)

-- A host in which nothing can be read.
abbrev no_memory : Host
no_memory = record {
  page_size = 4096;
  page_some = omega arith;
  byte = λ a. none;
  whole_pages = no_memory_whole;
}

safe_read_cstr_ends_example :
    (r : Option (ℕ × List ℕ)) × (safe_read_cstr no_memory 0x5000 64 ≡ some r)
safe_read_cstr_ends_example = safe_read_cstr_ends no_memory 0x5000 64

-- Two pages of eight bytes from 0x1000 on, with a string that crosses from one into the other.
abbrev letters : List ℕ
letters = bytes_of "libc.so.6"

abbrev in_pages : ℕ → Option ℕ
in_pages a = if a / 8 == 512 || a / 8 == 513 then some (get_or letters (a - 0x1000) 0) else none

in_pages_whole : (a b c : ℕ) → a / 8 ≡ b / 8 → in_pages a ≡ some c → (d : ℕ) × (in_pages b ≡ some d)
in_pages_whole a b c e f = elim (Bool-cases (b / 8 == 512 || b / 8 == 513)) [
  | inl t ↦ (get_or letters (b - 0x1000) 0, rw t)
  | inr t ↦ absurd (cc (rw (e, t) at f))
]

abbrev two_pages : Host
two_pages = record {
  page_size = 8;
  page_some = omega arith;
  byte = in_pages;
  whole_pages = in_pages_whole;
}

letters-IsString : IsString two_pages letters 0x1000
unfolding read_bytes
letters-IsString =
    (refl, (refl, (refl, (refl, (refl, (refl, (refl, (refl, (refl, (refl, tt))))))))))

safe_read_cstr-string_example :
    safe_read_cstr two_pages 0x1000 256 ≡ some (some (length letters, letters))
safe_read_cstr-string_example =
    safe_read_cstr-string two_pages 0x1000 256 letters (omega arith) (omega arith) (omega arith)
      letters-IsString
