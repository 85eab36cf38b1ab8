-- ===== src/DirectWriteBuf/Tcp/Keeps.antt =====
-- Every step of the TCP mode of trace/include/DirectWriteBuf.h keeps the invariant.
use android_prybar.Base.{ℕ, ◌^◌, ◌<◌, refl, ap, List, arith}
use android_prybar.Lz4.{compress_bound}
use android_prybar.Kernel.{Kernel, IsReliable}
use android_prybar.DirectWriteBuf.Tcp.{
  System, Step, do_append, do_restart, skip_flush, do_flush, do_shut_down, do_join, take_buffer,
  send_buffer, finish, leave, Steps, here, next,
}
use android_prybar.DirectWriteBuf.Tcp.Invariant.{todo_text, Holds}
use android_prybar.DirectWriteBuf.Tcp.Plan.{Fits-append, Fits-restart}
use android_prybar.DirectWriteBuf.Tcp.Writer.{
  store-Holds, hand_over-Holds, shut_down-Holds, join-Holds, skip_flush-Holds,
}
use android_prybar.DirectWriteBuf.Tcp.Thread.{
  send-Holds, take_buffer-Holds, finish-Holds, leave-Holds,
}

module _ (k : Kernel) (ok : IsReliable k) (cap : ℕ) (small : compress_bound cap < 2 ^ 31)
    (whole : List ℕ) where
  pub Step-Holds : {y z : System k} → Step k y z → Holds k cap whole y → Holds k cap whole z
  Step-Holds (do_append y bytes rest e) h =
      let (fits, p, plan) =
        Fits-append cap y.buf.pos bytes rest y.buf.bg_shutdown (rw e at h.plan) in
      store-Holds k cap whole y y.buf.pos bytes rest refl (ap todo_text e) fits p plan h
  Step-Holds (do_restart y bytes rest e) h =
      let (empty, fits, p, plan) =
        Fits-restart cap y.buf.pos bytes rest y.buf.bg_shutdown (rw e at h.plan) in
      store-Holds k cap whole y 0 bytes rest empty (ap todo_text e) (omega (arith, fits)) p plan h
  Step-Holds (skip_flush y rest e p) h = skip_flush-Holds k cap whole y rest e p h
  Step-Holds (do_flush y rest e p i) h = hand_over-Holds k cap whole y rest e p i h
  Step-Holds (do_shut_down y rest e i) h = shut_down-Holds k cap whole y rest e i h
  Step-Holds (do_join y rest e w) h = join-Holds k cap whole y rest e w h
  Step-Holds (take_buffer y w e) h = take_buffer-Holds k ok cap small whole y w e h
  Step-Holds (send_buffer y idx size htab socket w e) h =
      send-Holds k ok cap small whole y idx size htab socket w e h
  Step-Holds (finish y w) h = finish-Holds k ok cap small whole y w h
  Step-Holds (leave y w d e) h = leave-Holds k ok cap small whole y w d e h

  pub Steps-Holds :
      {y : System k} {n : ℕ} {z : System k}
      → Steps k y n z
      → Holds k cap whole y
      → Holds k cap whole z
  Steps-Holds here h = h
  Steps-Holds (next run step) h = Step-Holds step (Steps-Holds run h)
