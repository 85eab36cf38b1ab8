-- ===== src/DisasmCache.antt =====
-- DisasmCache of trace/src/EastTrace.cpp: decoded instructions in 2^14 sets of four ways, the way used
-- last in front. A cs_insn* is a number, and 0 is null. Capstone's strings are parameters.
pub mod Laws
pub mod Account
pub mod History
mod Runs
use android_prybar.Base.{
  ℕ, zero, suc, ◌+◌, ◌/◌, ◌%◌, ◌^◌, bit_xor, Bool, true, false, not, ◌&&◌, Option, none, some, List,
  [], ◌∷◌, ◌++◌, ltb, ◌==◌, if◌then◌else◌, length, take, drop, replicate,
}

-- CachedRegAccess
pub record CachedRegAccess : Type 0 where
  pub regs_read : List ℕ
  pub regs_write : List ℕ
  pub read_count : ℕ
  pub write_count : ℕ

-- DisasmCache::Entry
pub record Entry : Type 0 where
  pub addr : ℕ
  pub insn : ℕ
  pub reg_access : CachedRegAccess
  pub reg_access_cached : Bool
  pub mnemonic_len : ℕ
  pub op_str_len : ℕ

-- `entries[w] = {}`, and what calloc gives.
abbrev pub no_entry : Entry
no_entry = record {
  addr = 0;
  insn = 0;
  reg_access = record {
    regs_read = replicate 8 0;
    regs_write = replicate 8 0;
    read_count = 0;
    write_count = 0;
  };
  reg_access_cached = false;
  mnemonic_len = 0;
  op_str_len = 0;
}

-- DisasmCache::Set
pub record Set : Type 0 where
  pub way0 : Entry
  pub way1 : Entry
  pub way2 : Entry
  pub way3 : Entry

abbrev pub no_set : Set
no_set = record { way0 = no_entry; way1 = no_entry; way2 = no_entry; way3 = no_entry }

-- The sets, and the instructions given to cs_free, the last one in front.
pub record DisasmCache : Type 0 where
  pub sets : ℕ → Set
  pub freed : List ℕ

-- DisasmCache::DisasmCache
abbrev pub no_cache : DisasmCache
no_cache = record { sets = λ s. no_set; freed = [] }

-- NUM_SETS
abbrev pub num_sets : ℕ
num_sets = 2 ^ 14

-- hashAddr
unfoldable pub hash_addr : ℕ → ℕ
hash_addr addr = bit_xor (addr / 2 ^ 2) (addr / 2 ^ 2 / 2 ^ 16) % num_sets

abbrev pub set_at : (ℕ → Set) → ℕ → Set → ℕ → Set
set_at sets s new t = if s == t then new else sets t

-- `if (insn) cs_free(insn, 1)`
abbrev pub free_insn : ℕ → List ℕ → List ℕ
free_insn insn freed = if insn == 0 then freed else insn ∷ freed

-- `addr == addr && insn != nullptr`
abbrev pub is_hit : ℕ → Entry → Bool
is_hit addr e = e.addr == addr && not (e.insn == 0)

-- The search of get in one set: the set with a hit in front, and the instruction or null.
unfoldable pub find_way : ℕ → Set → Set × ℕ
find_way addr s =
    if is_hit addr s.way0
    then (s, s.way0.insn)
    else if is_hit addr s.way1
    then (record s { way0 = s.way1; way1 = s.way0 }, s.way1.insn)
    else if is_hit addr s.way2
    then (record s { way0 = s.way2; way1 = s.way0; way2 = s.way1 }, s.way2.insn)
    else if is_hit addr s.way3
    then (record { way0 = s.way3; way1 = s.way0; way2 = s.way1; way3 = s.way2 }, s.way3.insn)
    else (s, 0)

-- get
unfoldable pub get : ℕ → DisasmCache → DisasmCache × ℕ
get addr c =
    let (s, insn) = find_way addr (c.sets (hash_addr addr)) in
    (record c { sets = set_at c.sets (hash_addr addr) s }, insn)

-- strnlen, on the text before the terminator.
abbrev pub strnlen : List ℕ → ℕ → ℕ
strnlen text limit = if ltb (length text) limit then length text else limit

module _ (mnemonic op_str : ℕ → List ℕ) where
  -- The entry that put stores. The place keeps the old register lists.
  unfoldable pub new_entry : ℕ → ℕ → Entry → Entry
  new_entry addr insn old = record old {
    addr = addr;
    insn = insn;
    reg_access_cached = false;
    mnemonic_len = strnlen (mnemonic insn) 32 % 256;
    op_str_len = strnlen (op_str insn) 160 % 256;
  }

  -- put
  unfoldable pub put : ℕ → ℕ → DisasmCache → DisasmCache
  put addr insn c =
      let s = c.sets (hash_addr addr) in
      let s' : Set = record {
        way0 = new_entry addr insn s.way0;
        way1 = s.way0;
        way2 = s.way1;
        way3 = s.way2;
      } in
      record { sets = set_at c.sets (hash_addr addr) s'; freed = free_insn s.way3.insn c.freed }

-- getStrLens
unfoldable pub get_str_lens : ℕ → DisasmCache → Option (ℕ × ℕ)
get_str_lens addr c =
    let e = (c.sets (hash_addr addr)).way0 in
    if is_hit addr e then some (e.mnemonic_len, e.op_str_len) else none

-- getRegAccess
unfoldable pub get_reg_access : ℕ → DisasmCache → Option CachedRegAccess
get_reg_access addr c =
    let e = (c.sets (hash_addr addr)).way0 in
    if e.addr == addr && e.reg_access_cached then some e.reg_access else none

-- The lists that putRegAccess copies: what is past the count stays.
unfoldable pub copied : ℕ → List ℕ → List ℕ → List ℕ
copied count new old = take count new ++ drop count old

abbrev pub at_most_8 : ℕ → ℕ
at_most_8 n = if ltb n 8 then n else 8

-- putRegAccess
unfoldable pub put_reg_access : ℕ → List ℕ → ℕ → List ℕ → ℕ → DisasmCache → DisasmCache
put_reg_access addr regs_read read_count regs_write write_count c =
    let s = c.sets (hash_addr addr) in
    let ra = s.way0.reg_access in
    let ra' : CachedRegAccess = record {
      regs_read = copied (at_most_8 read_count) regs_read ra.regs_read;
      regs_write = copied (at_most_8 write_count) regs_write ra.regs_write;
      read_count = at_most_8 read_count;
      write_count = at_most_8 write_count;
    } in
    let e = record s.way0 { reg_access = ra'; reg_access_cached = true } in
    if s.way0.addr == addr
    then record c { sets = set_at c.sets (hash_addr addr) (record s { way0 = e }) }
    else c

-- The loop of clear over one set.
unfoldable pub clear_set : ℕ → DisasmCache → DisasmCache
clear_set k c =
    let s = c.sets k in
    record {
      sets = set_at c.sets k no_set;
      freed =
          free_insn s.way3.insn
            (free_insn s.way2.insn (free_insn s.way1.insn (free_insn s.way0.insn c.freed)));
    }

-- `if (insn) { cs_free(insn, 1); entries[w] = {}; }`
abbrev pub trimmed : Entry → Entry
trimmed e = if e.insn == 0 then e else no_entry

-- The loop of trimCold over one set.
unfoldable pub trim_set : ℕ → DisasmCache → DisasmCache
trim_set k c =
    let s = c.sets k in
    record {
      sets = set_at c.sets k (record s { way2 = trimmed s.way2; way3 = trimmed s.way3 });
      freed = free_insn s.way3.insn (free_insn s.way2.insn c.freed);
    }

-- `for (size_t s = 0; s < NUM_SETS; s++)`, on the rounds left and `s`.
unfoldable pub each_set : (ℕ → DisasmCache → DisasmCache) → ℕ → ℕ → DisasmCache → DisasmCache
each_set body zero s c = c
each_set body (suc rounds) s c = each_set body rounds (s + 1) (body s c)

-- clear
unfoldable pub clear : DisasmCache → DisasmCache
clear c = each_set clear_set num_sets 0 c

-- trimCold
unfoldable pub trim_cold : DisasmCache → DisasmCache
trim_cold c = each_set trim_set num_sets 0 c
