-- ===== src/Calls/Tracks.antt =====
-- What the call log of trace/src/FuncCallTrace.cpp remembers of the descriptors that are opened and closed.
use android_prybar.Base.{
  ℕ, ◌^◌, ◌<◌, ◌≡◌, refl, ◌≢◌, true, Option, none, some, List, [], ◌++◌, u32, length,
}
use android_prybar.HostMemory.{safe_read_cstr}
use android_prybar.Svc.FdTracker.{
  FdTracker, remove, add, lookup, lookup-remove_self, lookup-add, lookup-add_other,
}
use android_prybar.Svc.Handle.{kept_path}
use android_prybar.Calls.{
  FuncSig, find_func_sig, pend_none, pend_fd_open, pend_ret_int, FuncCallTraceCtx,
}
use android_prybar.Calls.Table.{func_sigs}
use android_prybar.Calls.Format.{Env, is_known_sig_lib}
use android_prybar.Calls.Pending.{
  strip_chk_wrapper, plan_open, plan_close, plan_of, closed, carry_out, written_dump, setup_pending,
  without_newline, opened, flush_pending_return,
}
use android_prybar.Calls.Emit.{print, emit_known, emit_call, emit_return}
use android_prybar.Calls.Total.{Fits, Writes-format_known_call}
use android_prybar.Regions.{Snapshot}
use android_prybar.Calls.Returns.{Gives-return_line}

module _ (env : Env) where
  -- A known call is printed and its plan carried out: the context after it is what the plan makes of it.
  emit_call-plan :
      (address : ℕ) (name : List ℕ) (s : FuncSig) (x : ℕ → ℕ) (ctx : FuncCallTraceCtx)
      → Fits x
      → is_known_sig_lib address env.sig_libs ≡ true
      → find_func_sig name func_sigs ≡ some s
      → (st : Snapshot) × ((ctx' : FuncCallTraceCtx)
          → carry_out env
              (plan_of (strip_chk_wrapper name 64) name)
              x
              (record ctx { snapshot = st })
            ≡ some ctx'
          → (text : List ℕ) × (emit_call env address (some name) x ctx ≡ some (ctx', text)))
  unfolding emit_call emit_known print setup_pending
  emit_call-plan address name s x ctx fits known found =
      let ((st, text), e) =
        Writes-format_known_call env ctx.fd_tracker s name x fits ctx.snapshot in
      let base = strip_chk_wrapper name 64 in
      (st, λ ctx' f. (text ++ written_dump env base x, rw (known, found, e, f) refl))

  -- The return of an open with a descriptor that is not negative.
  emit_return-opened :
      (ret_x0 ret : ℕ) (ctx : FuncCallTraceCtx) (table : FdTracker)
      → ctx.pending.kind ≡ pend_fd_open
      → ctx.fd_tracker ≡ some table
      → ret < 2 ^ 64
      → (after : FuncCallTraceCtx × List ℕ) × (emit_return env ret_x0 ret ctx ≡ some after)
        × (after.0.pending.kind ≡ pend_none)
        × (after.0.fd_tracker ≡ some (add (u32 ret) ctx.pending.path table))
  unfolding emit_return flush_pending_return opened
  emit_return-opened ret_x0 ret ctx table pending tracker h =
      let (line, e) = Gives-return_line env pend_fd_open ctx.pending.arg0 ret h in
      (
        (
          record ctx {
            fd_tracker = opened ctx.pending (u32 ret) ctx.fd_tracker;
            pending = record ctx.pending { kind = pend_none };
          },
          without_newline line,
        ),
        rw (pending, e) refl,
        refl,
        rw (tracker, pending) refl,
      )

  -- A known function that opens the path at one of its arguments, and its return with a descriptor that is
  -- not negative: both are written, nothing is pending any more, the descriptor is found under the path, and
  -- the other descriptors as before.
  pub open_return-tracks :
      (address : ℕ) (name : List ℕ) (s : FuncSig) (arg : ℕ) (x : ℕ → ℕ) (ctx : FuncCallTraceCtx)
      → (table : FdTracker) (path : Option (ℕ × List ℕ)) (ret_x0 ret : ℕ) → Fits x
      → is_known_sig_lib address env.sig_libs ≡ true
      → find_func_sig name func_sigs ≡ some s
      → plan_of (strip_chk_wrapper name 64) name ≡ plan_open arg
      → ctx.fd_tracker ≡ some table
      → safe_read_cstr env.host (x arg) 256 ≡ some path
      → 0 < length (kept_path path)
      → ret < 2 ^ 64
      → u32 ret < 2 ^ 31
      → (other : ℕ) → other ≢ u32 ret
      → (opening : FuncCallTraceCtx × List ℕ) × (after : FuncCallTraceCtx × List ℕ) × (emit_call env
            address
            (some name)
            x
            ctx
          ≡ some opening)
        × (emit_return env ret_x0 ret opening.0 ≡ some after)
        × (after.0.pending.kind ≡ pend_none)
        × (table' : FdTracker) × (after.0.fd_tracker ≡ some table')
        × (lookup (u32 ret) table' ≡ some (kept_path path))
        × (lookup other table' ≡ lookup other table)
  unfolding carry_out
  open_return-tracks address name s arg x ctx table path ret_x0 ret fits known found plan tracker
        read some_byte h opened_fd other d =
      let (st, call) = emit_call-plan address name s x ctx fits known found in
      let ctx' : FuncCallTraceCtx = record ctx {
        snapshot = st;
        pending = record ctx.pending { kind = pend_fd_open; path = kept_path path };
      } in
      let (text, e) = call ctx' (rw (plan, read) refl) in
      let (after, f, idle, g) = emit_return-opened ret_x0 ret ctx' table refl tracker h in
      (
        (ctx', text),
        after,
        e,
        f,
        idle,
        add (u32 ret) (kept_path path) table,
        g,
        lookup-add (u32 ret) (kept_path path) table opened_fd some_byte,
        lookup-add_other (u32 ret) other (kept_path path) table d,
      )

  -- A known close is written, and its descriptor is found no more.
  pub close-forgets :
      (address : ℕ) (name : List ℕ) (s : FuncSig) (x : ℕ → ℕ) (ctx : FuncCallTraceCtx)
      → (table : FdTracker) → Fits x
      → is_known_sig_lib address env.sig_libs ≡ true
      → find_func_sig name func_sigs ≡ some s
      → plan_of (strip_chk_wrapper name 64) name ≡ plan_close
      → ctx.fd_tracker ≡ some table
      → (after : FuncCallTraceCtx × List ℕ) × (table' : FdTracker) × (emit_call env address
            (some name)
            x
            ctx
          ≡ some after)
        × (after.0.fd_tracker ≡ some table')
        × (lookup (u32 (x 0)) table' ≡ none)
  unfolding carry_out
  close-forgets address name s x ctx table fits known found plan tracker =
      let (st, call) = emit_call-plan address name s x ctx fits known found in
      let ctx' : FuncCallTraceCtx = record ctx {
        snapshot = st;
        fd_tracker = closed (u32 (x 0)) ctx.fd_tracker;
        pending = record ctx.pending { kind = pend_ret_int; path = [] };
      } in
      let (text, e) = call ctx' (rw plan refl) in
      (
        (ctx', text),
        remove (u32 (x 0)) table,
        e,
        rw tracker refl,
        lookup-remove_self (u32 (x 0)) table,
      )
