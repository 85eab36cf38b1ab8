-- ===== src/Calls/Pending.antt =====
-- What trace/src/FuncCallTrace.cpp remembers of a known call, and what it prints when the call returns.
use Prim.Native.String.{String}
use android_prybar.Base.{
  ℕ, ◌-◌, ◌^◌, Bool, false, not, ◌&&◌, ◌||◌, Option, none, some, List, [], ◌∷◌, ◌++◌, ltb, leb,
  ◌==◌, if◌then◌else◌, ◌>>=◌, u32, negated32, length, get_or, take, drop, bytes_of, from_option,
}
use android_prybar.HostMemory.{Host, safe_read_cstr, append_cstr}
use android_prybar.Regions.{text_eq}
use android_prybar.Svc.FdTracker.{FdTracker, remove, add}
use android_prybar.Svc.Handle.{kept_path, fd}
use android_prybar.Svc.Dump.{
  parts, lit, append_hex_val, append_dec_val, append_signed_dec_val, svc_dump_buf,
}
use android_prybar.Calls.{
  PendingType, pend_none, pend_fd_open, pend_read_buf, pend_prop_get, pend_sprintf, pend_fgets,
  pend_getenv, pend_dlsym, pend_dlopen, pend_fopen, pend_ret_int, pend_ret_hex, pend_ret_str,
  PendingCall, FuncCallTraceCtx,
}
use android_prybar.Calls.Format.{Env}

abbrev pub char_at : List ℕ → ℕ → ℕ
char_at name i = get_or name i 0

-- stripChkWrapper
unfoldable pub strip_chk_wrapper : List ℕ → ℕ → List ℕ
strip_chk_wrapper name bufsize =
    let len = length name in
    if not (char_at name 0 == b'_')
      || not (char_at name 1 == b'_')
      || leb len 6
      || not (char_at name (len - 4) == b'_')
      || not (char_at name (len - 3) == b'c')
      || not (char_at name (len - 2) == b'h')
      || not (char_at name (len - 1) == b'k')
      || leb bufsize (len - 6)
    then name
    else take (len - 6) (drop 2 name)

-- Whether a name is one of a chain of str_eq tests.
unfoldable pub is_one_of : List ℕ → List String → Bool
is_one_of name [] = false
is_one_of name (s ∷ rest) = text_eq name (bytes_of s) || is_one_of name rest

-- What setupPendingAndEnhance does with a known function.
pub data Plan : Type 0 where
  plan_open : ℕ → Plan
  plan_close : Plan
  plan_keep : PendingType → ℕ → Plan
  plan_kind : PendingType → Plan
  plan_none : Plan

-- The chain of tests of setupPendingAndEnhance; the number is the argument that is kept.
unfoldable pub plan_of : List ℕ → List ℕ → Plan
plan_of base func_name =
    if is_one_of base ("open" ∷ [])
    then plan_open 0
    else if is_one_of base ("openat" ∷ [])
    then plan_open 1
    else if is_one_of base ("close" ∷ [])
    then plan_close
    else if is_one_of base ("read" ∷ "pread64" ∷ [])
    then plan_keep pend_read_buf 1
    else if is_one_of base ("write" ∷ "pwrite64" ∷ [])
    then plan_kind pend_ret_int
    else if is_one_of func_name ("__system_property_get" ∷ [])
    then plan_keep pend_prop_get 1
    else if is_one_of base ("sprintf" ∷ "snprintf" ∷ "vsnprintf" ∷ [])
    then plan_keep pend_sprintf 0
    else if is_one_of base ("fgets" ∷ [])
    then plan_keep pend_fgets 0
    else if is_one_of base ("getenv" ∷ [])
    then plan_kind pend_getenv
    else if is_one_of base ("dlsym" ∷ [])
    then plan_kind pend_dlsym
    else if is_one_of base ("dlopen" ∷ [])
    then plan_kind pend_dlopen
    else if is_one_of base ("fopen" ∷ [])
    then plan_kind pend_fopen
    else if is_one_of base ("malloc" ∷ "calloc" ∷ "realloc" ∷ "memalign" ∷ "mmap" ∷ "mmap64" ∷ [])
    then plan_kind pend_ret_hex
    else if is_one_of base ("strdup" ∷ "strtok" ∷ "strerror" ∷ "dlerror" ∷ [])
    then plan_kind pend_ret_str
    else if is_one_of base ("strstr" ∷ "strchr" ∷ "strrchr" ∷ [])
    then plan_kind pend_ret_hex
    else if is_one_of base (
        "strcmp" ∷ "strncmp" ∷ "memcmp" ∷ "access" ∷ "stat" ∷ "fstat" ∷ "atoi" ∷ "atol" ∷ "strlen"
        ∷ [])
    then plan_kind pend_ret_int
    else if is_one_of func_name ("__system_property_find" ∷ []) || is_one_of base ("dladdr" ∷ [])
    then plan_kind pend_ret_hex
    else plan_none

-- `if (ctx->fdTracker) ctx->fdTracker->remove(fd);`
abbrev pub closed : ℕ → Option FdTracker → Option FdTracker
closed n none = none
closed n (some table) = some (remove n table)

-- safeDumpBuf, which has the body of svcDumpBuf of trace/src/svc_handler.cpp.
abbrev pub safe_dump_buf : Host → ℕ → ℕ → List ℕ
safe_dump_buf host addr len = svc_dump_buf host addr len

module _ (env : Env) where
  -- A plan carried out on the context: the pending call and the tracker.
  unfoldable pub carry_out : Plan → (ℕ → ℕ) → FuncCallTraceCtx → Option FuncCallTraceCtx
  carry_out (plan_open arg) x ctx = do
    path ← safe_read_cstr env.host (x arg) 256
    some
        (record ctx { pending = record ctx.pending { kind = pend_fd_open; path = kept_path path } })
  carry_out plan_close x ctx = some (record ctx {
    fd_tracker = closed (u32 (x 0)) ctx.fd_tracker;
    pending = record ctx.pending { kind = pend_ret_int; path = [] };
  })
  carry_out (plan_keep kind arg) x ctx =
      some (record ctx { pending = record { kind = kind; arg0 = x arg; path = [] } })
  carry_out (plan_kind kind) x ctx =
      some (record ctx { pending = record ctx.pending { kind = kind; path = [] } })
  carry_out plan_none x ctx =
      some (record ctx { pending = record ctx.pending { kind = pend_none; path = [] } })

  -- The dump of what write and pwrite64 write.
  unfoldable pub written_dump : List ℕ → (ℕ → ℕ) → List ℕ
  written_dump base x =
      if is_one_of base ("write" ∷ "pwrite64" ∷ []) && ltb 0 (x 2)
      then safe_dump_buf env.host (x 1) (x 2)
      else []

  -- setupPendingAndEnhance: the context after it and the text appended.
  unfoldable pub setup_pending :
      List ℕ → (ℕ → ℕ) → FuncCallTraceCtx → Option (FuncCallTraceCtx × List ℕ)
  setup_pending func_name x ctx = do
    let base = strip_chk_wrapper func_name 64
    ctx' ← carry_out (plan_of base func_name) x ctx
    some (ctx', written_dump base x)

  -- The text of appendCStr.
  unfoldable pub string_at : ℕ → Option (List ℕ)
  string_at addr = do (text, ok) ← append_cstr env.host addr; some text

  -- A line with a string in quotes.
  unfoldable pub quoted : ℕ → Option (List ℕ)
  quoted addr = parts (lit "    => \"" ∷ string_at addr ∷ lit "\"\n" ∷ [])

  -- The line of a call that gives a string or null: `ret` decides, and `addr` is printed.
  unfoldable pub string_or_null : ℕ → ℕ → Option (List ℕ)
  string_or_null ret addr = if ret == 0 then lit "    => NULL\n" else quoted addr

  unfoldable pub opened_line : ℕ → Option (List ℕ)
  opened_line fd =
      if ltb fd (2 ^ 31)
      then parts (lit "    => fd=" ∷ append_dec_val fd ∷ lit "\n" ∷ [])
      else parts (lit "    => fd=-" ∷ append_dec_val (negated32 fd) ∷ lit " (error)\n" ∷ [])

  unfoldable pub read_line : ℕ → ℕ → Option (List ℕ)
  read_line arg0 ret =
      if ltb ret (2 ^ 63)
      then parts (
          lit "    => "
          ∷ append_dec_val ret
          ∷ lit " bytes\n"
          ∷ some (if ltb 0 ret then safe_dump_buf env.host arg0 ret else [])
          ∷ [])
      else lit "    => -1 (error)\n"

  unfoldable pub symbol_line : ℕ → Option (List ℕ)
  symbol_line ret =
      let name = from_option [] (λ s. bytes_of " (" ++ (s ++ bytes_of ")")) (env.symbol_at ret) in
      if ret == 0
      then lit "    => NULL\n"
      else parts (lit "    => " ∷ append_hex_val ret ∷ some name ∷ lit "\n" ∷ [])

  -- The switch of flushPendingReturn.
  unfoldable pub return_line : PendingType → ℕ → ℕ → Option (List ℕ)
  return_line pend_none arg0 ret = some []
  return_line pend_fd_open arg0 ret = opened_line (u32 ret)
  return_line pend_read_buf arg0 ret = read_line arg0 ret
  return_line pend_prop_get arg0 ret =
      parts (lit "    => value=\"" ∷ string_at arg0 ∷ lit "\"\n" ∷ [])
  return_line pend_sprintf arg0 ret = parts (
      lit "    => "
      ∷ append_dec_val (if ltb ret (2 ^ 63) then ret else 0)
      ∷ lit " chars: \""
      ∷ string_at arg0
      ∷ lit "\"\n"
      ∷ [])
  return_line pend_fgets arg0 ret = string_or_null ret arg0
  return_line pend_getenv arg0 ret = string_or_null ret ret
  return_line pend_dlsym arg0 ret = symbol_line ret
  return_line pend_dlopen arg0 ret = parts (lit "    => " ∷ append_hex_val ret ∷ lit "\n" ∷ [])
  return_line pend_fopen arg0 ret =
      if ret == 0
      then lit "    => NULL (error)\n"
      else parts (lit "    => FILE*=" ∷ append_hex_val ret ∷ lit "\n" ∷ [])
  return_line pend_ret_int arg0 ret =
      parts (lit "    => " ∷ append_signed_dec_val ret ∷ lit "\n" ∷ [])
  return_line pend_ret_hex arg0 ret = parts (lit "    => " ∷ append_hex_val ret ∷ lit "\n" ∷ [])
  return_line pend_ret_str arg0 ret = string_or_null ret ret

-- `if (sb->buffer[len - 1] == '\n') len--;`
unfoldable pub without_newline : List ℕ → List ℕ
without_newline text =
    if ltb 0 (length text) && char_at text (length text - 1) == b'\n'
    then take (length text - 1) text
    else text

-- What a return does to the tracker: `add` tests the descriptor and the path.
unfoldable pub opened : PendingCall → ℕ → Option FdTracker → Option FdTracker
opened p n none = none
opened p n (some table) =
    some (elim p.kind as (λ _. FdTracker) [ pend_fd_open ↦ add n p.path table | _ ↦ table ])

-- flushPendingReturn: the context after it and what is written.
unfoldable pub flush_pending_return :
    Env → ℕ → FuncCallTraceCtx → Option (FuncCallTraceCtx × List ℕ)
flush_pending_return env ret ctx = do
  text ← return_line env ctx.pending.kind ctx.pending.arg0 ret
  some (
    record ctx {
      fd_tracker = opened ctx.pending (u32 ret) ctx.fd_tracker;
      pending = record ctx.pending { kind = pend_none };
    },
    without_newline text,
  )
