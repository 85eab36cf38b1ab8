-- ===== src/Calls/Returns.antt =====
-- Every step of the call log of trace/src/FuncCallTrace.cpp gives a result.
use Prim.Native.String.{String}
use android_prybar.Base.{
  ℕ, ◌^◌, ◌<◌, refl, inl, inr, Option, none, some, List, [], ◌∷◌, ◌++◌, arith, ltb, ◌==◌,
  if◌then◌else◌, u32, negated32, Bool-cases, Option-cases,
}
use android_prybar.HostMemory.Text.{safe_read_cstr_ends, append_cstr_ends}
use android_prybar.Svc.Dump.{parts, lit, append_hex_val, append_signed_dec_val}
use android_prybar.Svc.Dump.Total.{
  Gives, Gives-parts, Gives-lit, Gives-hex_val, Gives-signed_dec_val, Gives-dec_val,
}
use android_prybar.Svc.Handle.{kept_path, fd}
use android_prybar.Calls.{
  FuncSig, find_func_sig, PendingType, pend_none, pend_fd_open, pend_read_buf, pend_prop_get,
  pend_sprintf, pend_fgets, pend_getenv, pend_dlsym, pend_dlopen, pend_fopen, pend_ret_int,
  pend_ret_hex, pend_ret_str, FuncCallTraceCtx,
}
use android_prybar.Calls.Format.{Env, Out, is_known_sig_lib, format_known_call, other_name}
use android_prybar.Calls.Pending.{
  strip_chk_wrapper, Plan, plan_open, plan_close, plan_keep, plan_kind, plan_none, plan_of,
  carry_out, written_dump, setup_pending, string_at, quoted, string_or_null, opened_line, read_line,
  symbol_line, return_line, without_newline, opened, flush_pending_return,
}
use android_prybar.Calls.Table.{func_sigs}
use android_prybar.Calls.Emit.{is_pending, print, emit_known, emit_other, emit_call, emit_return}
use android_prybar.Calls.Total.{
  Writes, Writes-say, Writes-then, Fits, Writes-format_known_call, Writes-four_args,
  Gives-other_name,
}

module _ (env : Env) where
  Gives-string_at : (addr : ℕ) → Gives (string_at env addr)
  unfolding string_at
  Gives-string_at addr = let ((text, ok), e) = append_cstr_ends env.host addr in (text, rw e)

  Gives-quoted : (addr : ℕ) → Gives (quoted env addr)
  unfolding quoted
  Gives-quoted addr =
      Gives-parts _ (Gives-lit "    => \"", (Gives-string_at addr, (Gives-lit "\"\n", tt)))

  Gives-string_or_null : (ret addr : ℕ) → Gives (string_or_null env ret addr)
  unfolding string_or_null
  Gives-string_or_null ret addr = elim (Bool-cases (ret == 0)) [
    | inl b ↦ rw b (Gives-lit "    => NULL\n")
    | inr b ↦ rw b (Gives-quoted addr)
  ]

  Gives-opened_line : (fd : ℕ) → fd < 2 ^ 32 → Gives (opened_line env fd)
  unfolding opened_line
  Gives-opened_line fd h = elim (Bool-cases (ltb fd (2 ^ 31))) [
    | inl b ↦ rw b (
        Gives-parts _
          (Gives-lit "    => fd=", (Gives-dec_val fd (omega arith), (Gives-lit "\n", tt))))
    | inr b ↦ rw b (
        Gives-parts _ (
          Gives-lit "    => fd=-",
          (Gives-dec_val (negated32 fd) (ground arith), (Gives-lit " (error)\n", tt)),
        ))
  ]

  Gives-read_line : (arg0 ret : ℕ) → ret < 2 ^ 64 → Gives (read_line env arg0 ret)
  unfolding read_line
  Gives-read_line arg0 ret h = elim (Bool-cases (ltb ret (2 ^ 63))) [
    | inl b ↦ rw b (
        Gives-parts _
          (Gives-lit "    => ", (Gives-dec_val ret h, (Gives-lit " bytes\n", ((_, refl), tt)))))
    | inr b ↦ rw b (Gives-lit "    => -1 (error)\n")
  ]

  -- A line of one number.
  Gives-line :
      (before : String) (number : Option (List ℕ))
      → Gives number
      → Gives (parts (lit before ∷ number ∷ lit "\n" ∷ []))
  Gives-line before number g = Gives-parts _ (Gives-lit before, (g, (Gives-lit "\n", tt)))

  Gives-symbol_line : (ret : ℕ) → ret < 2 ^ 64 → Gives (symbol_line env ret)
  unfolding symbol_line
  Gives-symbol_line ret h = elim (Bool-cases (ret == 0)) [
    | inl b ↦ rw b (Gives-lit "    => NULL\n")
    | inr b ↦ rw b (
        Gives-parts _
          (Gives-lit "    => ", (Gives-hex_val ret h, ((_, refl), (Gives-lit "\n", tt)))))
  ]

  pub Gives-return_line :
      (k : PendingType) (arg0 ret : ℕ) → ret < 2 ^ 64 → Gives (return_line env k arg0 ret)
  unfolding return_line
  Gives-return_line pend_none arg0 ret h = ([], refl)
  Gives-return_line pend_fd_open arg0 ret h = Gives-opened_line (u32 ret) (omega arith)
  Gives-return_line pend_read_buf arg0 ret h = Gives-read_line arg0 ret h
  Gives-return_line pend_prop_get arg0 ret h =
      Gives-parts _ (Gives-lit "    => value=\"", (Gives-string_at arg0, (Gives-lit "\"\n", tt)))
  Gives-return_line pend_sprintf arg0 ret h = Gives-parts _ (
    Gives-lit "    => ",
    (
      Gives-dec_val (if ltb ret (2 ^ 63) then ret else 0) (ground arith),
      (Gives-lit " chars: \"", (Gives-string_at arg0, (Gives-lit "\"\n", tt))),
    ),
  )
  Gives-return_line pend_fgets arg0 ret h = Gives-string_or_null ret arg0
  Gives-return_line pend_getenv arg0 ret h = Gives-string_or_null ret ret
  Gives-return_line pend_dlsym arg0 ret h = Gives-symbol_line ret h
  Gives-return_line pend_dlopen arg0 ret h =
      Gives-line "    => " (append_hex_val ret) (Gives-hex_val ret h)
  Gives-return_line pend_fopen arg0 ret h = elim (Bool-cases (ret == 0)) [
    | inl b ↦ rw b (Gives-lit "    => NULL (error)\n")
    | inr b ↦ rw b (Gives-line "    => FILE*=" (append_hex_val ret) (Gives-hex_val ret h))
  ]
  Gives-return_line pend_ret_int arg0 ret h =
      Gives-line "    => " (append_signed_dec_val ret) (Gives-signed_dec_val ret h)
  Gives-return_line pend_ret_hex arg0 ret h =
      Gives-line "    => " (append_hex_val ret) (Gives-hex_val ret h)
  Gives-return_line pend_ret_str arg0 ret h = Gives-string_or_null ret ret

  pub Gives-carry_out :
      (plan : Plan) (x : ℕ → ℕ) (ctx : FuncCallTraceCtx) → Gives (carry_out env plan x ctx)
  unfolding carry_out
  Gives-carry_out (plan_open arg) x ctx =
      let (path, e) = safe_read_cstr_ends env.host (x arg) 256 in
      (
        record ctx { pending = record ctx.pending { kind = pend_fd_open; path = kept_path path } },
        rw e refl,
      )
  Gives-carry_out plan_close x ctx = (_, refl)
  Gives-carry_out (plan_keep k arg) x ctx = (_, refl)
  Gives-carry_out (plan_kind k) x ctx = (_, refl)
  Gives-carry_out plan_none x ctx = (_, refl)

  Gives-setup_pending :
      (name : List ℕ) (x : ℕ → ℕ) (ctx : FuncCallTraceCtx) → Gives (setup_pending env name x ctx)
  unfolding setup_pending
  Gives-setup_pending name x ctx =
      let base = strip_chk_wrapper name 64 in
      let (ctx', e) = Gives-carry_out (plan_of base name) x ctx in
      ((ctx', written_dump env base x), rw e refl)

  Gives-print : (out : Out) (ctx : FuncCallTraceCtx) → Writes out → Gives (print env out ctx)
  unfolding print
  Gives-print out ctx w =
      let ((st, text), e) = w ctx.snapshot in ((record ctx { snapshot = st }, text), rw e refl)

  Gives-emit_known :
      (s : FuncSig) (name : List ℕ) (x : ℕ → ℕ) (ctx : FuncCallTraceCtx)
      → Fits x
      → Gives (emit_known env s name x ctx)
  unfolding emit_known
  Gives-emit_known s name x ctx fits =
      let ((ctx', text), e) =
        Gives-print (format_known_call env ctx.fd_tracker s name x) ctx
          (Writes-format_known_call env ctx.fd_tracker s name x fits) in
      let ((ctx'', dump), f) = Gives-setup_pending name x ctx' in
      ((ctx'', text ++ dump), rw (e, f) refl)

  Gives-emit_other :
      (name : Option (List ℕ)) (x : ℕ → ℕ) (ctx : FuncCallTraceCtx)
      → Gives name
      → Fits x
      → Gives (emit_other env name x ctx)
  unfolding emit_other
  Gives-emit_other name x ctx g fits = Gives-print _ ctx (
      Writes-then _ _
        (Writes-then _ _
          (Writes-say _ (Gives-parts _ (Gives-lit "\n  [CALL] ", (g, (Gives-lit "(", tt)))))
          (Writes-four_args env x 4 0 fits))
        (Writes-say (lit ")") (Gives-lit ")")))

  -- Of 64-bit registers and address, emit_call gives a result, whatever is called.
  pub emit_call-Gives :
      (address : ℕ) (name : Option (List ℕ)) (x : ℕ → ℕ) (ctx : FuncCallTraceCtx)
      → address < 2 ^ 64
      → Fits x
      → Gives (emit_call env address name x ctx)
  unfolding emit_call other_name
  emit_call-Gives address none x ctx h fits =
      Gives-emit_other (other_name env address none) x ctx (Gives-other_name env address none h)
        fits
  emit_call-Gives address (some name) x ctx h fits =
      elim (Bool-cases (is_known_sig_lib address env.sig_libs)) [
        | inr b ↦ rw b (Gives-emit_other (some (env.demangle name)) x ctx (_, refl) fits)
        | inl b ↦ elim (Option-cases (find_func_sig name func_sigs)) [
          | inl n ↦ rw (b, n) (Gives-emit_other (some name) x ctx (name, refl) fits)
          | inr p ↦ rw (b, p.1) (Gives-emit_known p.0 name x ctx fits)
        ]
      ]

  -- Of 64-bit numbers, emit_return gives a result, whatever is pending.
  pub emit_return-Gives :
      (ret_x0 x0 : ℕ) (ctx : FuncCallTraceCtx)
      → ret_x0 < 2 ^ 64
      → x0 < 2 ^ 64
      → Gives (emit_return env ret_x0 x0 ctx)
  unfolding emit_return flush_pending_return
  emit_return-Gives ret_x0 x0 ctx h h' =
      let (line, e) = Gives-return_line ctx.pending.kind ctx.pending.arg0 x0 h' in
      let (text, f) =
        Gives-parts (lit "    => " ∷ append_hex_val ret_x0 ∷ [])
          (Gives-lit "    => ", (Gives-hex_val ret_x0 h, tt)) in
      elim (Bool-cases (is_pending ctx.pending.kind)) [
        | inl b ↦ (
          (
            record ctx {
              fd_tracker = opened ctx.pending (u32 x0) ctx.fd_tracker;
              pending = record ctx.pending { kind = pend_none };
            },
            without_newline line,
          ),
          rw (b, e) refl,
        )
        | inr b ↦ ((ctx, text), rw (b, f) refl)
      ]
