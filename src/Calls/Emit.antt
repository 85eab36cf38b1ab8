-- ===== src/Calls/Emit.antt =====
-- funcCallTraceEmit of trace/src/FuncCallTrace.cpp. The thread's buffer is there, and what is written to
-- it is the result.
use android_prybar.Base.{
  ℕ, Bool, true, false, Option, none, some, List, [], ◌∷◌, ◌++◌, if◌then◌else◌, ◌>>=◌, from_option,
}
use android_prybar.Svc.Dump.{parts, lit, append_hex_val}
use android_prybar.Calls.{FuncSig, find_func_sig, PendingType, pend_none, FuncCallTraceCtx}
use android_prybar.Calls.Table.{func_sigs}
use android_prybar.Calls.Format.{
  Env, Out, say, ◌then_also◌, is_known_sig_lib, format_known_call, four_args, other_name,
}
use android_prybar.Calls.Pending.{setup_pending, flush_pending_return}

abbrev pub is_pending : PendingType → Bool
is_pending pend_none = false
is_pending kind = true

module _ (env : Env) where
  -- A text that changes nothing but the snapshot.
  unfoldable pub print : Out → FuncCallTraceCtx → Option (FuncCallTraceCtx × List ℕ)
  print out ctx = do
    (snapshot, text) ← out ctx.snapshot
    some (record ctx { snapshot = snapshot }, text)

  -- A function that has a signature.
  unfoldable pub emit_known :
      FuncSig → List ℕ → (ℕ → ℕ) → FuncCallTraceCtx → Option (FuncCallTraceCtx × List ℕ)
  emit_known s name x ctx = do
    (ctx', text) ← print (format_known_call env ctx.fd_tracker s name x) ctx
    (ctx'', dump) ← setup_pending env name x ctx'
    some (ctx'', text ++ dump)

  -- A function that has none, by the name that is shown.
  unfoldable pub emit_other :
      Option (List ℕ) → (ℕ → ℕ) → FuncCallTraceCtx → Option (FuncCallTraceCtx × List ℕ)
  emit_other name x ctx =
      print
        (say (parts (lit "\n  [CALL] " ∷ name ∷ lit "(" ∷ []))
          then_also four_args env x 4 0
          then_also say (lit ")"))
        ctx

  -- funcCallTraceEmit before the call.
  unfoldable pub emit_call :
      ℕ → Option (List ℕ) → (ℕ → ℕ) → FuncCallTraceCtx → Option (FuncCallTraceCtx × List ℕ)
  emit_call address none x ctx = emit_other (other_name env address none) x ctx
  emit_call address (some name) x ctx =
      if is_known_sig_lib address env.sig_libs
      then from_option (emit_other (some name) x ctx) (λ s. emit_known s name x ctx)
          (find_func_sig name func_sigs)
      else emit_other (other_name env address (some name)) x ctx

  -- funcCallTraceEmit after the call, with `ret_x0` and what the register X0 holds.
  unfoldable pub emit_return : ℕ → ℕ → FuncCallTraceCtx → Option (FuncCallTraceCtx × List ℕ)
  emit_return ret_x0 x0 ctx =
      let generic = (do
        text ← parts (lit "    => " ∷ append_hex_val ret_x0 ∷ [])
        some (ctx, text)) in
      if is_pending ctx.pending.kind then flush_pending_return env x0 ctx else generic
