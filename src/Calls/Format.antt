-- ===== src/Calls/Format.antt =====
-- The arguments of a call in trace/src/FuncCallTrace.cpp.
use Prim.Native.String.{String}
use android_prybar.Base.{
  ℕ, zero, suc, ◌+◌, ◌-◌, ◌^◌, Bool, false, ◌&&◌, ◌||◌, Option, none, some, List, [], ◌∷◌, ◌++◌,
  ltb, leb, ◌==◌, if◌then◌else◌, ◌>>=◌, u32, u64, negated32, take, bytes_of, from_option,
}
use android_prybar.Numbers.{uint64_to_hex}
use android_prybar.HostMemory.{Host, append_cstr}
use android_prybar.Regions.{Snapshot, Maps, append_ptr_annotation}
use android_prybar.Svc.FdTracker.{FdTracker}
use android_prybar.Svc.Dump.{
  parts, lit, append_hex_val, append_dec_val, append_signed_dec_val, path_note,
}
use android_prybar.Calls.{
  ParamType, pt_int, pt_hex, pt_str, pt_str_addr, pt_size, pt_fd, pt_flags, FuncSig,
}

-- What the tracer asks of its process: the memory, the maps, the ranges of the libraries whose functions
-- are known, the demangler, the object and its base at an address, and lookupSymbolExact.
pub record Env : Type 0 where
  pub host : Host
  pub maps : Maps
  pub sig_libs : List (ℕ × ℕ)
  pub demangle : List ℕ → List ℕ
  pub module_at : ℕ → Option (List ℕ × ℕ)
  pub symbol_at : ℕ → Option (List ℕ)

-- A text appended, with the snapshot of the regions after it.
abbrev pub Out : Type 0
Out = Snapshot → Option (Snapshot × List ℕ)

abbrev pub say : Option (List ℕ) → Out
say text st = do t ← text; some (st, t)

infixl 5 ◌then_also◌
abbrev pub ◌then_also◌ : Out → Out → Out
◌then_also◌ first second st = do (st', t) ← first st; (st'', u) ← second st'; some (st'', t ++ u)

-- isKnownSigLib once the ranges are known.
unfoldable pub is_known_sig_lib : ℕ → List (ℕ × ℕ) → Bool
is_known_sig_lib addr [] = false
is_known_sig_lib addr ((base, end_at) ∷ rest) =
    leb base addr && ltb addr end_at || is_known_sig_lib addr rest

module _ (env : Env) where
  -- `if (!appendCStr(uc, sb, val)) appendStringN(sb, "(bad ptr)", 9);`
  unfoldable pub cstr_text : ℕ → Option (List ℕ)
  cstr_text val = do
    (text, ok) ← append_cstr env.host val
    some (text ++ (if ok then [] else bytes_of "(bad ptr)"))

  -- The number of an int, on its bit pattern.
  unfoldable pub int_text : ℕ → Option (List ℕ)
  int_text fd =
      if ltb fd (2 ^ 31)
      then append_dec_val fd
      else parts (lit "-" ∷ append_dec_val (negated32 fd) ∷ [])

  -- `0x`, a pointer's number, and the note on it.
  unfoldable pub pointer : ℕ → Out
  pointer val = say (append_hex_val val) then_also append_ptr_annotation env.maps val

  -- formatParam without the comma.
  unfoldable pub format_param : ParamType → ℕ → Out
  format_param pt_str val =
      say (if val == 0 then lit "NULL" else parts (lit "\"" ∷ cstr_text val ∷ lit "\"" ∷ []))
  format_param pt_str_addr val =
      let located = parts (lit "\"" ∷ cstr_text val ∷ lit "\" @" ∷ append_hex_val val ∷ []) in
      say (if val == 0 then lit "NULL" else located)
  format_param pt_int val = say (append_signed_dec_val val)
  format_param pt_size val = say (append_dec_val val)
  format_param pt_fd val = say (int_text (u32 val))
  format_param pt_hex val = pointer val
  format_param pt_flags val = say (append_hex_val (u32 val))

  -- formatFdWithPath, on the bit pattern of an int32_t.
  unfoldable pub format_fd_with_path : ℕ → Option FdTracker → Option (List ℕ)
  format_fd_with_path fd tracker =
      let number = if fd == 2 ^ 32 - 100 then lit "AT_FDCWD" else int_text fd in
      let key = if fd == 2 ^ 32 - 100 || ltb fd (2 ^ 31) then fd else 2 ^ 32 - fd in
      parts (number ∷ path_note tracker key ∷ [])

  -- One argument of formatKnownCall.
  unfoldable pub known_arg : Option FdTracker → ParamType → ℕ → Out
  known_arg tracker pt_fd val = say (format_fd_with_path (u32 val) tracker)
  known_arg tracker kind val = format_param kind val

  abbrev pub separator : ℕ → List ℕ
  separator i = if ltb 0 i then bytes_of ", " else []

  -- The loop of formatKnownCall over the parameters left.
  unfoldable pub known_args : Option FdTracker → (ℕ → ℕ) → ℕ → List (String × ParamType) → Out
  known_args tracker x i [] = say (some [])
  known_args tracker x i ((name, kind) ∷ rest) =
      say (some (separator i))
      then_also known_arg tracker kind (x i)
      then_also known_args tracker x (i + 1) rest

  -- formatKnownCall
  unfoldable pub format_known_call : Option FdTracker → FuncSig → List ℕ → (ℕ → ℕ) → Out
  format_known_call tracker s display_name x =
      say (some (bytes_of "\n  [CALL] " ++ (display_name ++ bytes_of "(")))
      then_also known_args tracker x 0 (take s.param_count s.params)
      then_also say (lit ")")

  -- The loop over four arguments of a function without a signature, on the rounds left.
  unfoldable pub four_args : (ℕ → ℕ) → ℕ → ℕ → Out
  four_args x zero i = say (some [])
  four_args x (suc rounds) i =
      say (some (separator i)) then_also pointer (x i) then_also four_args x rounds (i + 1)

  -- The name of a function without a signature.
  unfoldable pub other_name : ℕ → Option (List ℕ) → Option (List ℕ)
  other_name address none =
      from_option (parts (lit "sub_" ∷ uint64_to_hex address ∷ []))
        (λ (m : List ℕ × ℕ).
          parts (some m.0 ∷ lit "+0x" ∷ uint64_to_hex (u64 (address + 2 ^ 64 - m.1)) ∷ []))
        (env.module_at address)
  other_name address (some name) = some (env.demangle name)
