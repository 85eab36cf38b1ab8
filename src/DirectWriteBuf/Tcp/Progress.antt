-- ===== src/DirectWriteBuf/Tcp/Progress.antt =====
-- The TCP mode of trace/include/DirectWriteBuf.h does not get stuck, and it comes to an end.
use android_prybar.Base.{
  ℕ, ◌+◌, ◌*◌, ◌^◌, ◌≤◌, ◌<◌, ◌≡◌, refl, ◌≢◌, ◌⊎◌, inl, inr, Bool, true, false, List, [], ◌∷◌,
  arith, ◌==◌, if◌then◌else◌, ==_iff, Bool-cases, length,
}
use android_prybar.Lz4.{compress_bound}
use android_prybar.Kernel.{Kernel, IsReliable}
use android_prybar.DirectWriteBuf.Tcp.{
  set_buf, Action, append, restart, flush, shut_down, join, Worker, waiting, working, sent, exited,
  System, hand_over, store, Step, do_append, do_restart, skip_flush, do_flush, do_shut_down,
  do_join, take_buffer, send_buffer, finish, leave, Steps, here, next,
}
use android_prybar.DirectWriteBuf.Tcp.Invariant.{Phase, Holds}
use android_prybar.DirectWriteBuf.Tcp.Plan.{Fits-flush, Fits-join, idle_waiting}
use android_prybar.DirectWriteBuf.Tcp.Keeps.{Steps-Holds}
use android_prybar.DirectWriteBuf.Tcp.Thread.{emits}

-- How many steps of the thread may follow before it waits or has left its loop.
abbrev stage : Worker → Bool → ℕ
stage waiting pending = if pending then 4 else 1
stage (working idx size) pending = 3
stage sent pending = 2
stage exited pending = 0

abbrev pub measure : {k : Kernel} → System k → ℕ
measure y = 5 * length y.todo + stage y.worker y.buf.bg_pending

nonzero : (n : ℕ) → (n == 0) ≡ false → 0 < n
nonzero n e = ground arith

module _ (k : Kernel) (ok : IsReliable k) (cap : ℕ) (small : compress_bound cap < 2 ^ 31)
    (whole : List ℕ) where
  -- Every step brings the end nearer.
  pub Step-measure : {y z : System k} → Step k y z → Holds k cap whole y → measure z < measure y
  unfolding store set_buf hand_over
  Step-measure (do_append y bytes rest e) h = rw e (omega arith)
  Step-measure (do_restart y bytes rest e) h = rw e (omega arith)
  Step-measure (skip_flush y rest e p) h = rw e (omega arith)
  Step-measure (do_flush y rest e p i) h =
      let (up, plan) = Fits-flush cap y.buf.pos rest y.buf.bg_shutdown (rw e at h.plan) in
      let (w, pending) = idle_waiting cap y.buf y.worker h.phase i up in
      rw (e, w, pending) (omega arith)
  Step-measure (do_shut_down y rest e i) h = rw e (omega arith)
  Step-measure (do_join y rest e w) h = rw e (omega arith)
  Step-measure (take_buffer y w e) h = rw (w, e) (omega arith)
  Step-measure (send_buffer y idx size htab socket w e) h = rw w (omega arith)
  Step-measure (finish y w) h = let p = rw w at h.phase in rw (w, p.1) (omega arith)
  Step-measure (leave y w d e) h = rw (w, e) (omega arith)

  pub Steps-measure :
      {y : System k} {n : ℕ} {z : System k}
      → Steps k y n z
      → Holds k cap whole y
      → n + measure z ≤ measure y
  Steps-measure here h = omega arith
  Steps-measure (next run step) h =
      omega (arith, Steps-measure run h, Step-measure step (Steps-Holds k ok cap small whole run h))

  -- The thread can go on unless it waits with nothing to do or has left.
  worker_progress :
      (y : System k) → Holds k cap whole y → (y.buf.bg_idle ≡ true) ⊎ ((z : System k) × Step k y z)
  worker_progress y h = go y.worker refl h.phase
    where
      go :
          (w : Worker)
          → y.worker ≡ w
          → Phase cap w y.buf
          → (y.buf.bg_idle ≡ true) ⊎ ((z : System k) × Step k y z)
      go waiting e (inl p) = inl p.0
      go waiting e (inr p) = inr (_, take_buffer y e p.1)
      go (working idx size) e p =
          let (htab, socket, e', stream) = emits k ok cap small whole y idx size e h in
          inr (_, send_buffer y idx size htab socket e e')
      go sent e p = inr (_, finish y e)
      go exited e p = inl p.0

  -- Unless the writer has done all, some thread can take a step.
  pub progress : (y : System k) → Holds k cap whole y → y.todo ≢ [] → (z : System k) × Step k y z
  progress y h some_left = go y.todo refl
    where
      leaves :
          (rest : List Action)
          → y.todo ≡ join ∷ rest
          → y.buf.bg_idle ≡ true
          → (w : Worker) → y.worker ≡ w
          → Phase cap w y.buf
          → (z : System k) × Step k y z
      leaves rest e i waiting w (inl p) =
          let (down, empty, none_left) =
            Fits-join cap y.buf.pos rest y.buf.bg_shutdown (rw e at h.plan) in
          (_, leave y w down p.1)
      leaves rest e i waiting w (inr p) = absurd (cc (p.0, i))
      leaves rest e i (working idx size) w p = absurd (cc (p.0, i))
      leaves rest e i sent w p = absurd (cc (p.0, i))
      leaves rest e i exited w p = (_, do_join y rest e w)

      go : (todo : List Action) → y.todo ≡ todo → (z : System k) × Step k y z
      go [] e = absurd (some_left e)
      go (append bytes ∷ rest) e = (_, do_append y bytes rest e)
      go (restart bytes ∷ rest) e = (_, do_restart y bytes rest e)
      go (flush ∷ rest) e = elim (Bool-cases (y.buf.pos == 0)) [
        | inl z ↦ (_, skip_flush y rest e ((==_iff y.buf.pos 0).0 z))
        | inr z ↦ elim (worker_progress y h) [
          | inl i ↦ (_, do_flush y rest e (nonzero y.buf.pos z) i)
          | inr step ↦ step
        ]
      ]
      go (shut_down ∷ rest) e = elim (worker_progress y h) [
        | inl i ↦ (_, do_shut_down y rest e i)
        | inr step ↦ step
      ]
      go (join ∷ rest) e = elim (worker_progress y h) [
        | inl i ↦ leaves rest e i y.worker refl h.phase
        | inr step ↦ step
      ]
