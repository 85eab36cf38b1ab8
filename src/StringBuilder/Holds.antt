-- ===== src/StringBuilder/Holds.antt =====
-- The string builder of trace/Utils/StringUtil.h holds the text that has been appended.
use mathlib.Core.Option.{some-injective}
use android_prybar.Base.{
  ℕ, zero, suc, ◌+◌, ◌-◌, ◌*◌, ◌^◌, ◌≤◌, ◌<◌, ◌≡◌, refl, ap, ◌∙◌, inl, inr, Option, some, List, [],
  ◌∷◌, ◌++◌, arith, ltb, u64, ltb→lt, ltb_false→le, Bool-cases, length, take, replicate,
  length-append, length-replicate, length-take, take_all, write_at, inline_memcpy, length-write_at,
  take-write_at, inline_memcpy-write_at, take-write_at_before, take-append_short,
}
use android_prybar.StringBuilder.{
  StringBuilder, initial_capacity, init_string_builder, realloc, append_char, doubled_until,
  copy_in, append_string_n, to_string, reset_string_builder,
}

-- `text` is in the builder, and there is room for the terminator behind it.
pub record Holds (sb : StringBuilder) (text : List ℕ) : Type 0 where
  pub memory : List ℕ
  pub has_memory : sb.buffer ≡ some memory
  pub size : length memory ≡ sb.capacity
  pub text_is : take sb.length memory ≡ text
  pub room : sb.length + 1 ≤ sb.capacity
  pub long : length text ≡ sb.length

-- What an operation leaves.
abbrev pub Leaves : List ℕ → Option StringBuilder → Type 0
Leaves text r = (sb : StringBuilder) × (r ≡ some sb) × Holds sb text

doubled_until_lem :
    (fresh fuel needed capacity : ℕ)
    → 0 < capacity
    → needed < capacity + fuel
    → needed < 2 ^ 62
    → capacity < needed
    → (n : ℕ) × (doubled_until fresh fuel needed capacity ≡ some n) × (needed ≤ n)
unfolding doubled_until
doubled_until_lem fresh zero needed capacity p f s c = absurd (omega arith)
doubled_until_lem fresh (suc fuel) needed capacity p f s c =
    elim (Bool-cases (ltb (u64 (capacity * 2)) needed)) [
      | inl e ↦
          let (n, e', ok) =
            doubled_until_lem fresh fuel needed (u64 (capacity * 2)) (omega arith) (omega arith) s
              (ltb→lt _ _ e) in
          (n, rw (e, e'), ok)
      | inr e ↦ (u64 (capacity * 2), rw e, ltb_false→le _ _ e)
    ]

module _ (fresh : ℕ) where
  length-realloc :
      (memory : List ℕ) (n : ℕ) → length memory ≤ n → length (realloc fresh (some memory) n) ≡ n
  unfolding realloc
  length-realloc memory n h = omega (
    arith,
    length-append (take n memory) (replicate (n - length memory) fresh),
    length-take n memory,
    length-replicate (n - length memory) fresh,
  )

  take-realloc :
      (memory : List ℕ) (i n : ℕ)
      → i ≤ length memory
      → length memory ≤ n
      → take i (realloc fresh (some memory) n) ≡ take i memory
  unfolding realloc
  take-realloc memory i n h g =
      rw (take_all n memory g) (take-append_short i memory (replicate (n - length memory) fresh) h)

  -- More memory, the same text.
  realloc-Holds :
      (sb : StringBuilder) (text : List ℕ) (n : ℕ)
      → Holds sb text
      → sb.capacity ≤ n
      → Holds (record sb { buffer = some (realloc fresh sb.buffer n); capacity = n }) text
  realloc-Holds sb text n h g = record {
    memory = realloc fresh (some h.memory) n;
    has_memory = rw (h.has_memory);
    size = length-realloc h.memory n (omega (arith, h.size));
    text_is =
        take-realloc h.memory sb.length n (omega (arith, h.size, h.room)) (omega (arith, h.size))
        ∙ h.text_is;
    room = omega (arith, h.room);
    long = h.long;
  }

  store-Holds :
      (sb : StringBuilder) (text str memory : List ℕ)
      → (h : Holds sb text) → sb.length + length str + 1 ≤ sb.capacity
      → memory ≡ write_at h.memory sb.length str
      → Holds (record sb { buffer = some memory; length = sb.length + length str }) (text ++ str)
  store-Holds sb text str memory h g e = record {
    memory = memory;
    has_memory = refl;
    size = rw e (length-write_at h.memory sb.length str ∙ h.size);
    text_is =
        rw e (take-write_at h.memory sb.length str (omega (arith, h.size)))
        ∙ ap (λ xs. xs ++ str) h.text_is;
    room = omega (arith, g);
    long = omega (arith, length-append text str, h.long);
  }

  pub init-Holds : Holds (init_string_builder fresh) []
  unfolding init_string_builder
  init-Holds = record {
    memory = write_at (replicate initial_capacity fresh) 0 (0 ∷ []);
    has_memory = refl;
    size =
        length-write_at (replicate initial_capacity fresh) 0 (0 ∷ [])
        ∙ length-replicate initial_capacity fresh;
    text_is = refl;
    room = omega arith;
    long = refl;
  }

  copy_in-Holds :
      (sb : StringBuilder) (text str : List ℕ)
      → Holds sb text
      → sb.length + length str + 1 ≤ sb.capacity
      → Leaves (text ++ str) (copy_in fresh sb str)
  unfolding copy_in
  copy_in-Holds sb text str h room = (
    record sb {
      buffer = some (inline_memcpy h.memory sb.length str);
      length = sb.length + length str;
    },
    rw (h.has_memory),
    store-Holds sb text str _ h room (inline_memcpy-write_at str h.memory sb.length),
  )

  -- Appending a string to a builder that holds a text, of fewer than 2^62 bytes together, ends,
  -- whatever the builder has to grow by, and it then holds the text with the string behind it.
  pub append_string_n-Holds :
      (sb : StringBuilder) (text str : List ℕ)
      → Holds sb text
      → length text + length str + 1 < 2 ^ 62
      → Leaves (text ++ str) (append_string_n fresh sb str)
  unfolding append_string_n
  append_string_n-Holds sb text str h s =
      let needed : u64 (sb.length + length str + 1) ≡ sb.length + length str + 1 =
        omega (arith, h.long) in
      elim (Bool-cases (ltb sb.capacity (sb.length + length str + 1))) [
        | inl e ↦
            let (n, e', ok) =
              doubled_until_lem fresh (suc (sb.length + length str + 1))
                (sb.length + length str + 1) sb.capacity (omega (arith, h.room)) (omega arith)
                (omega (arith, h.long)) (ltb→lt _ _ e) in
            let h' = realloc-Holds sb text n h (omega (arith, ltb→lt _ _ e)) in
            rw (needed, e, e')
              (copy_in-Holds (record sb { buffer = some (realloc fresh sb.buffer n); capacity = n })
                text str h' ok)
        | inr e ↦ rw (needed, e) (copy_in-Holds sb text str h (ltb_false→le _ _ e))
      ]

  -- Appending a character to a builder that holds a text and has a capacity below 2^62 ends, and it
  -- then holds the text with the character behind it.
  pub append_char-Holds :
      (sb : StringBuilder) (text : List ℕ) (c : ℕ)
      → Holds sb text
      → sb.capacity < 2 ^ 62
      → Leaves (text ++ (c ∷ [])) (append_char fresh sb c)
  unfolding append_char
  append_char-Holds sb text c h s =
      let needed : u64 (sb.length + 2) ≡ sb.length + 2 = omega (arith, h.room) in
      let doubled : u64 (sb.capacity * 2) ≡ sb.capacity * 2 = omega arith in
      elim (Bool-cases (ltb sb.capacity (sb.length + 2))) [
        | inl e ↦
            let h' = realloc-Holds sb text (sb.capacity * 2) h (omega arith) in
            let memory = realloc fresh sb.buffer (sb.capacity * 2) in
            let same = some-injective memory h'.memory h'.has_memory in
            (
              record {
                buffer = some (write_at memory sb.length (c ∷ []));
                length = sb.length + 1;
                capacity = sb.capacity * 2;
              },
              rw (needed, doubled, e),
              store-Holds (record sb { buffer = some memory; capacity = sb.capacity * 2 }) text
                  (c ∷ []) _ h' (omega (arith, h.room))
                  (ap (λ m. write_at m sb.length (c ∷ [])) same),
            )
        | inr e ↦ (
          record sb {
            buffer = some (write_at h.memory sb.length (c ∷ []));
            length = sb.length + 1;
          },
          rw (needed, doubled, e, h.has_memory),
          store-Holds sb text (c ∷ []) _ h (omega (arith, ltb_false→le _ _ e)) refl,
        )
      ]

  -- The memory that `to_string` points to begins with the text and a zero.
  pub to_string-text :
      (sb : StringBuilder) (text : List ℕ)
      → Holds sb text
      → (memory : List ℕ) × ((to_string sb).1 ≡ some memory)
        × (take (sb.length + 1) memory ≡ text ++ (0 ∷ []))
        × Holds (to_string sb).0 text
  unfolding to_string
  to_string-text sb text h =
      let zero_stored = take-write_at h.memory sb.length (0 ∷ []) (omega (arith, h.size, h.room)) in
      (
        write_at h.memory sb.length (0 ∷ []),
        rw (h.has_memory),
        zero_stored ∙ ap (λ xs. xs ++ (0 ∷ [])) h.text_is,
        record {
          memory = write_at h.memory sb.length (0 ∷ []);
          has_memory = rw (h.has_memory);
          size = length-write_at h.memory sb.length (0 ∷ []) ∙ h.size;
          text_is = take-write_at_before h.memory sb.length (0 ∷ []) ∙ h.text_is;
          room = h.room;
          long = h.long;
        },
      )

  -- A builder that is reset holds the empty text in the memory that it had.
  pub reset-Holds :
      (sb : StringBuilder) (text : List ℕ) → Holds sb text → Holds (reset_string_builder sb) []
  unfolding reset_string_builder
  reset-Holds sb text h = record {
    memory = write_at h.memory 0 (0 ∷ []);
    has_memory = rw (h.has_memory);
    size = length-write_at h.memory 0 (0 ∷ []) ∙ h.size;
    text_is = refl;
    room = omega (arith, h.room);
    long = refl;
  }
