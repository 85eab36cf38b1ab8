-- ===== src/DirectWriteBuf/Tcp/Runs.antt =====
-- The theorems about the TCP mode at concrete inputs.
use mathlib.Core.List.{flatten}
use android_prybar.Base.{ℕ, ◌≤◌, refl, ◌≢◌, false, List, [], ◌∷◌, arith, length}
use android_prybar.DirectWriteBuf.Runs.{slow, slow_reliable, stale_table}
use android_prybar.DirectWriteBuf.Tcp.{
  buf_of, set_buf, init_tcp, flush, shut_down, join, write_actions, write_pos, session_actions,
  working, System, start, hand_over, store, do_append, do_flush, take_buffer, Steps, here, next,
}
use android_prybar.DirectWriteBuf.Tcp.Delivers.{Delivers, tcp-Delivers, tcp_exclusive}

-- Three bytes written into a buffer of four, and the end of the session: the bytes are stored and
-- handed over, and the thread has taken them.
abbrev three_bytes : List ℕ
three_bytes = 65 ∷ 66 ∷ 67 ∷ []

abbrev begun : System slow
begun = start slow 4 stale_table 3 1234 [] (three_bytes ∷ [])

abbrev stored : System slow
stored = record begun { buf = store begun.buf 0 three_bytes; todo = flush ∷ shut_down ∷ join ∷ [] }

abbrev handed_over : System slow
handed_over = record stored { buf = hand_over stored.buf; todo = shut_down ∷ join ∷ [] }

abbrev taken : System slow
taken = record handed_over {
  buf = record (handed_over.buf) { bg_pending = false };
  worker = working 0 3;
}

three-Steps : Steps slow begun 3 taken
unfolding start init_tcp session_actions write_actions write_pos hand_over store set_buf
three-Steps =
    next
      (next (next here (do_append begun three_bytes (flush ∷ shut_down ∷ join ∷ []) refl))
        (do_flush stored (shut_down ∷ join ∷ []) refl (omega arith) refl))
      (take_buffer handed_over refl refl)

tcp-Delivers_example : Delivers slow (flatten (three_bytes ∷ [])) begun 3 taken
tcp-Delivers_example =
    tcp-Delivers slow slow_reliable 4 (omega arith) (omega arith) stale_table 3 1234 (omega arith)
      [] refl (three_bytes ∷ []) (omega arith) taken three-Steps

tcp_exclusive_example :
    (taken.buf.pos ≤ length (buf_of taken.buf taken.buf.active)) × (0 ≢ taken.buf.active) × (3 ≤ 4)
tcp_exclusive_example =
    tcp_exclusive slow slow_reliable 4 (omega arith) (omega arith) stale_table 3 1234 (omega arith)
      [] refl (three_bytes ∷ []) (omega arith) taken 0 3 three-Steps refl
