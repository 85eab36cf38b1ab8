-- ===== src/StringBuilder.antt =====
-- trace/Utils/StringUtil.h and StringUtil.cpp: the string builder. `buffer` is the memory that it
-- has, `none` for the null pointer; what an allocation holds before it is written is the byte
-- `fresh`, whatever that is. A result of `none` is a loop that does not end, or a store through the
-- null pointer.
pub mod Holds
mod Runs
use android_prybar.Base.{
  ℕ, zero, suc, ◌+◌, ◌-◌, ◌*◌, Option, none, some, List, [], ◌∷◌, ◌++◌, ltb, ◌==◌, if◌then◌else◌,
  ◌>>=◌, u64, length, take, replicate, write_at, inline_memcpy,
}

pub record StringBuilder : Type 0 where
  pub buffer : Option (List ℕ)
  pub length : ℕ
  pub capacity : ℕ

-- INITIAL_CAPACITY
abbrev pub initial_capacity : ℕ
initial_capacity = 512

module _ (fresh : ℕ) where
  -- initStringBuilder
  pub init_string_builder : StringBuilder
  init_string_builder = record {
    buffer = some (write_at (replicate initial_capacity fresh) 0 (0 ∷ []));
    length = 0;
    capacity = initial_capacity;
  }

  -- realloc, which allocates for the null pointer.
  pub realloc : Option (List ℕ) → ℕ → List ℕ
  realloc none n = replicate n fresh
  realloc (some mem) n = take n mem ++ replicate (n - length mem) fresh

  -- appendChar: the capacity is doubled once at most.
  pub append_char : StringBuilder → ℕ → Option StringBuilder
  append_char sb c =
      let doubled = u64 (sb.capacity * 2) in
      let sb' =
        if ltb sb.capacity (u64 (sb.length + 2))
        then record sb { buffer = some (realloc sb.buffer doubled); capacity = doubled }
        else sb in
      do
        mem ← sb'.buffer
        some (record sb' {
          buffer = some (write_at mem sb'.length (c ∷ []));
          length = sb'.length + 1;
        })

  -- `do { capacity *= 2; } while (length + len + 1 > capacity);` in at most `fuel` rounds.
  pub doubled_until : ℕ → ℕ → ℕ → Option ℕ
  doubled_until zero needed capacity = none
  doubled_until (suc fuel) needed capacity =
      let doubled = u64 (capacity * 2) in
      let again = doubled_until fuel needed doubled in
      if ltb doubled needed then again else some doubled

  -- `char* dst = sb->buffer + sb->length;`, the copy and `sb->length += len;`. Both ways of copying,
  -- the built-in and the loop by eights, store the same bytes.
  pub copy_in : StringBuilder → List ℕ → Option StringBuilder
  copy_in sb str = do
    mem ← sb.buffer
    some (record sb {
      buffer = some (inline_memcpy mem sb.length str);
      length = sb.length + length str;
    })

  -- appendStringN(sb, str, len), where `len` is the length of the list.
  pub append_string_n : StringBuilder → List ℕ → Option StringBuilder
  append_string_n sb str =
      let needed = u64 (sb.length + length str + 1) in
      let grown = (do
        capacity ← doubled_until (suc needed) needed sb.capacity
        some (record sb { buffer = some (realloc sb.buffer capacity); capacity = capacity })) in
      (if ltb sb.capacity needed then grown else some sb) >>= λ sb'. copy_in sb' str

  -- `while (str[str_len]) str_len++;`: the bytes before the first zero; `none` is a read behind the
  -- end.
  pub until_zero : List ℕ → Option (List ℕ)
  until_zero [] = none
  until_zero (c ∷ cs) =
      let body = (do rest ← until_zero cs; some (c ∷ rest)) in if c == 0 then some [] else body

  -- appendString, on the memory from `str` on.
  pub append_string : StringBuilder → List ℕ → Option StringBuilder
  append_string sb memory = do str ← until_zero memory; append_string_n sb str

-- toString: the builder, and the memory that the pointer points to.
pub to_string : StringBuilder → StringBuilder × Option (List ℕ)
to_string sb =
    let terminated = (sb.buffer >>= λ mem. some (write_at mem sb.length (0 ∷ []))) in
    (record sb { buffer = terminated }, terminated)

-- freeStringBuilder
pub free_string_builder : StringBuilder → StringBuilder
free_string_builder sb = record { buffer = none; length = 0; capacity = 0 }

-- resetStringBuilder
pub reset_string_builder : StringBuilder → StringBuilder
reset_string_builder sb = record sb {
  buffer = sb.buffer >>= λ mem. some (write_at mem 0 (0 ∷ []));
  length = 0;
}
