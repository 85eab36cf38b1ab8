-- ===== src/Calls/Total.antt =====
-- The lines for calls in trace/src/FuncCallTrace.cpp are always printed.
use Prim.Native.String.{String}
use android_prybar.Base.{
  ℕ, zero, suc, ◌+◌, ◌-◌, ◌^◌, ◌<◌, refl, inl, inr, ◌||◌, Option, none, some, List, [], ◌∷◌, ◌++◌,
  arith, ltb, ◌==◌, if◌then◌else◌, u32, u64, negated32, Bool-cases, Option-cases, take, bytes_of,
}
use android_prybar.Numbers.{uint64_to_hex}
use android_prybar.Numbers.Decode.{uint64_to_hex-Formats}
use android_prybar.Regions.{
  PtrRegion, begins_with, Snapshot, Maps, ensure_regions_fresh, untagged, perm_char, annotation,
  append_ptr_annotation,
}
use android_prybar.Svc.Dump.Total.{
  Gives, Gives-parts, Gives-lit, Gives-hex_val, Gives-path_note, Gives-signed_dec_val,
  Gives-dec_val,
}
use android_prybar.Regions.Search.{find_ptr_region_total}
use android_prybar.HostMemory.Text.{append_cstr_ends}
use android_prybar.Svc.FdTracker.{FdTracker}
use android_prybar.Svc.Dump.{parts, lit, append_hex_val, append_dec_val, append_signed_dec_val}
use android_prybar.Calls.{
  ParamType, pt_int, pt_hex, pt_str, pt_str_addr, pt_size, pt_fd, pt_flags, FuncSig,
}
use android_prybar.Calls.Format.{
  Env, Out, say, ◌then_also◌, cstr_text, int_text, pointer, format_param, format_fd_with_path,
  known_arg, separator, known_args, format_known_call, four_args, other_name,
}

-- A text that is printed whatever the snapshot is.
abbrev pub Writes : Out → Type 0
Writes out = (st : Snapshot) → Gives (out st)

pub Writes-say : (text : Option (List ℕ)) → Gives text → Writes (say text)
Writes-say text (t, e) st = ((st, t), rw e)

pub Writes-then : (a b : Out) → Writes a → Writes b → Writes (a then_also b)
Writes-then a b wa wb st =
    let (r, e) = wa st in let (q, f) = wb r.0 in ((q.0, r.1 ++ q.1), rw e (rw f))

Gives-hex : (val : ℕ) → val < 2 ^ 64 → Gives (uint64_to_hex val)
Gives-hex val h = let (text, e, short, value) = uint64_to_hex-Formats val h in (text, e)

annotation_total : (addr : ℕ) (r : PtrRegion) → Gives (annotation addr r)
unfolding annotation
annotation_total addr r =
    let place = if begins_with b'[' r.label then r.label else bytes_of "anon" in
    let flags =
      b' ' ∷ perm_char r.perms 1 b'r' ∷ perm_char r.perms 2 b'w' ∷ perm_char r.perms 4 b'x' ∷ [] in
    let (hex, e) = Gives-hex (u64 (addr + 2 ^ 64 - r.module_base)) (omega arith) in
    elim (Bool-cases r.named) [
      | inl b ↦ (bytes_of " (" ++ ((r.label ++ (bytes_of "+0x" ++ hex)) ++ b')' ∷ []), rw (b, e))
      | inr b ↦ (bytes_of " (" ++ ((place ++ flags) ++ b')' ∷ []), rw b)
    ]

Writes-annotation : (maps : Maps) (val : ℕ) → Writes (append_ptr_annotation maps val)
unfolding append_ptr_annotation
Writes-annotation maps val st =
    let st' = ensure_regions_fresh maps st in
    let (found, e) = find_ptr_region_total (untagged val) st'.regions in
    elim (Bool-cases (ltb (untagged val) 0x100000)) [
      | inl b ↦ ((st, []), rw b)
      | inr b ↦ elim (Option-cases found) [
        | inl n ↦ ((st', []), rw (b, e, n))
        | inr p ↦
            let (text, f) = annotation_total (untagged val) p.0 in ((st', text), rw (b, e, p.1, f))
      ]
    ]

-- The numbers of a call and of what is asked of the process fit 64 bits.
abbrev pub Fits : (ℕ → ℕ) → Type 0
Fits x = (i : ℕ) → x i < 2 ^ 64

module _ (env : Env) where
  Gives-cstr_text : (val : ℕ) → Gives (cstr_text env val)
  unfolding cstr_text
  Gives-cstr_text val =
      let ((text, ok), e) = append_cstr_ends env.host val in
      (text ++ (if ok then [] else bytes_of "(bad ptr)"), rw e)

  Gives-int_text : (fd : ℕ) → fd < 2 ^ 32 → Gives (int_text env fd)
  unfolding int_text
  Gives-int_text fd h = elim (Bool-cases (ltb fd (2 ^ 31))) [
    | inl b ↦ rw b (Gives-dec_val fd (omega arith))
    | inr b ↦ rw b (
        Gives-parts (lit "-" ∷ append_dec_val (negated32 fd) ∷ [])
          (Gives-lit "-", (Gives-dec_val (negated32 fd) (ground arith), tt)))
  ]

  Writes-pointer : (val : ℕ) → val < 2 ^ 64 → Writes (pointer env val)
  unfolding pointer
  Writes-pointer val h =
      Writes-then (say (append_hex_val val)) (append_ptr_annotation env.maps val)
        (Writes-say (append_hex_val val) (Gives-hex_val val h)) (Writes-annotation env.maps val)

  Writes-param : (k : ParamType) (val : ℕ) → val < 2 ^ 64 → Writes (format_param env k val)
  unfolding format_param
  Writes-param pt_int val h = Writes-say (append_signed_dec_val val) (Gives-signed_dec_val val h)
  Writes-param pt_hex val h = Writes-pointer val h
  Writes-param pt_str val h = elim (Bool-cases (val == 0)) [
    | inl b ↦ rw b (Writes-say (lit "NULL") (Gives-lit "NULL"))
    | inr b ↦ rw b (
        Writes-say (parts (lit "\"" ∷ cstr_text env val ∷ lit "\"" ∷ []))
          (Gives-parts _ (Gives-lit "\"", (Gives-cstr_text val, (Gives-lit "\"", tt)))))
  ]
  Writes-param pt_str_addr val h = elim (Bool-cases (val == 0)) [
    | inl b ↦ rw b (Writes-say (lit "NULL") (Gives-lit "NULL"))
    | inr b ↦ rw b (
        Writes-say (parts (lit "\"" ∷ cstr_text env val ∷ lit "\" @" ∷ append_hex_val val ∷ [])) (
          Gives-parts _
            (Gives-lit "\"", (Gives-cstr_text val, (Gives-lit "\" @", (Gives-hex_val val h, tt))))))
  ]
  Writes-param pt_size val h = Writes-say (append_dec_val val) (Gives-dec_val val h)
  Writes-param pt_fd val h =
      Writes-say (int_text env (u32 val)) (Gives-int_text (u32 val) (omega arith))
  Writes-param pt_flags val h =
      Writes-say (append_hex_val (u32 val)) (Gives-hex_val (u32 val) (omega arith))

  Gives-fd_with_path :
      (fd : ℕ) (tracker : Option FdTracker)
      → fd < 2 ^ 32
      → Gives (format_fd_with_path env fd tracker)
  unfolding format_fd_with_path
  Gives-fd_with_path fd tracker h =
      let key = if fd == 2 ^ 32 - 100 || ltb fd (2 ^ 31) then fd else 2 ^ 32 - fd in
      elim (Bool-cases (fd == 2 ^ 32 - 100)) [
        | inl b ↦ rw b (Gives-parts _ (Gives-lit "AT_FDCWD", (Gives-path_note tracker fd, tt)))
        | inr b ↦ rw b (Gives-parts _ (Gives-int_text fd h, (Gives-path_note tracker _, tt)))
      ]

  Writes-known_arg :
      (tracker : Option FdTracker) (k : ParamType) (val : ℕ)
      → val < 2 ^ 64
      → Writes (known_arg env tracker k val)
  unfolding known_arg
  Writes-known_arg tracker pt_fd val h =
      Writes-say (format_fd_with_path env (u32 val) tracker)
        (Gives-fd_with_path (u32 val) tracker (omega arith))
  Writes-known_arg tracker pt_int val h = Writes-param pt_int val h
  Writes-known_arg tracker pt_hex val h = Writes-param pt_hex val h
  Writes-known_arg tracker pt_str val h = Writes-param pt_str val h
  Writes-known_arg tracker pt_str_addr val h = Writes-param pt_str_addr val h
  Writes-known_arg tracker pt_size val h = Writes-param pt_size val h
  Writes-known_arg tracker pt_flags val h = Writes-param pt_flags val h

  Writes-known_args :
      (tracker : Option FdTracker) (x : ℕ → ℕ) (i : ℕ) (params : List (String × ParamType))
      → Fits x
      → Writes (known_args env tracker x i params)
  unfolding known_args
  Writes-known_args tracker x i [] fits = Writes-say (some []) ([], refl)
  Writes-known_args tracker x i ((name, k) ∷ rest) fits =
      Writes-then _ _
        (Writes-then _ _ (Writes-say (some (separator env i)) (_, refl))
          (Writes-known_arg tracker k (x i) (fits i)))
        (Writes-known_args tracker x (i + 1) rest fits)

  pub Writes-format_known_call :
      (tracker : Option FdTracker) (s : FuncSig) (name : List ℕ) (x : ℕ → ℕ)
      → Fits x
      → Writes (format_known_call env tracker s name x)
  unfolding format_known_call
  Writes-format_known_call tracker s name x fits =
      Writes-then _ _
        (Writes-then _ _
          (Writes-say (some (bytes_of "\n  [CALL] " ++ (name ++ bytes_of "("))) (_, refl))
          (Writes-known_args tracker x 0 (take s.param_count s.params) fits))
        (Writes-say (lit ")") (Gives-lit ")"))

  pub Writes-four_args : (x : ℕ → ℕ) (rounds i : ℕ) → Fits x → Writes (four_args env x rounds i)
  unfolding four_args
  Writes-four_args x zero i fits = Writes-say (some []) ([], refl)
  Writes-four_args x (suc rounds) i fits =
      Writes-then _ _
        (Writes-then _ _ (Writes-say (some (separator env i)) (_, refl))
          (Writes-pointer (x i) (fits i)))
        (Writes-four_args x rounds (i + 1) fits)

  pub Gives-other_name :
      (address : ℕ) (name : Option (List ℕ))
      → address < 2 ^ 64
      → Gives (other_name env address name)
  unfolding other_name
  Gives-other_name address (some name) h = (env.demangle name, refl)
  Gives-other_name address none h = elim (Option-cases (env.module_at address)) [
    | inl n ↦ rw n (
        Gives-parts (lit "sub_" ∷ uint64_to_hex address ∷ [])
          (Gives-lit "sub_", (Gives-hex address h, tt)))
    | inr p ↦ rw p.1 (
        Gives-parts _ (
          (p.0.0, refl),
          (Gives-lit "+0x", (Gives-hex (u64 (address + 2 ^ 64 - p.0.1)) (omega arith), tt)),
        ))
  ]
