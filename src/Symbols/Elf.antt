-- ===== src/Symbols/Elf.antt =====
-- The structures of <elf.h> that trace/Utils/SymbolTable.cpp reads from a file, by the offsets of their
-- fields. A file is its bytes.
use android_prybar.Base.{
  ℕ, zero, suc, ◌+◌, ◌*◌, Option, none, some, List, [], ◌∷◌, leb, if◌then◌else◌, length, take, drop,
}

-- A little-endian number.
unfoldable pub le : List ℕ → ℕ
le [] = 0
le (b ∷ bs) = b + 256 * le bs

-- The field of `size` bytes at an offset.
unfoldable pub field : ℕ → ℕ → List ℕ → ℕ
field offset size bytes = le (take size (drop offset bytes))

pub record Phdr : Type 0 where
  pub p_type : ℕ
  pub p_offset : ℕ
  pub p_vaddr : ℕ
  pub p_filesz : ℕ
  pub p_memsz : ℕ

unfoldable pub phdr : List ℕ → Phdr
phdr b = record {
  p_type = field 0 4 b;
  p_offset = field 8 8 b;
  p_vaddr = field 16 8 b;
  p_filesz = field 32 8 b;
  p_memsz = field 40 8 b;
}

pub record Shdr : Type 0 where
  pub sh_type : ℕ
  pub sh_flags : ℕ
  pub sh_addr : ℕ
  pub sh_offset : ℕ
  pub sh_size : ℕ
  pub sh_link : ℕ

unfoldable pub shdr : List ℕ → Shdr
shdr b = record {
  sh_type = field 4 4 b;
  sh_flags = field 8 8 b;
  sh_addr = field 16 8 b;
  sh_offset = field 24 8 b;
  sh_size = field 32 8 b;
  sh_link = field 40 4 b;
}

pub record Sym : Type 0 where
  pub st_name : ℕ
  pub st_info : ℕ
  pub st_value : ℕ
  pub st_size : ℕ

unfoldable pub symbol : List ℕ → Sym
symbol b = record {
  st_name = field 0 4 b;
  st_info = field 4 1 b;
  st_value = field 8 8 b;
  st_size = field 16 8 b;
}

pub record Dyn : Type 0 where
  pub d_tag : ℕ
  pub d_val : ℕ

unfoldable pub dyn : List ℕ → Dyn
dyn b = record { d_tag = field 0 8 b; d_val = field 8 8 b }

pub record Ehdr : Type 0 where
  pub e_ident : List ℕ
  pub e_phoff : ℕ
  pub e_shoff : ℕ
  pub e_phnum : ℕ
  pub e_shentsize : ℕ
  pub e_shnum : ℕ

unfoldable pub ehdr : List ℕ → Ehdr
ehdr b = record {
  e_ident = take 16 b;
  e_phoff = field 32 8 b;
  e_shoff = field 40 8 b;
  e_phnum = field 56 2 b;
  e_shentsize = field 58 2 b;
  e_shnum = field 60 2 b;
}

-- An array of structures of `size` bytes.
unfoldable pub structs {ℓ} : {A : Type ℓ} → (List ℕ → A) → ℕ → ℕ → List ℕ → List A
structs decode size zero bytes = []
structs decode size (suc n) bytes = decode bytes ∷ structs decode size n (drop size bytes)

-- pread, when it gives all of the `n` bytes. An `off_t` is its bit pattern, and a file is shorter.
unfoldable pub pread : List ℕ → ℕ → ℕ → Option (List ℕ)
pread file n offset =
    if leb (offset + n) (length file) then some (take n (drop offset file)) else none

-- ELFMAG
abbrev pub elfmag : List ℕ
elfmag = 0x7f ∷ b'E' ∷ b'L' ∷ b'F' ∷ []
