-- ===== src/DirectWriteBuf/Tcp/Session.antt =====
-- What a session in the TCP mode of trace/include/DirectWriteBuf.h has the writer do: all fits, and
-- all is stored in its order.
use mathlib.Core.List.{flatten}
use android_prybar.Base.{
  ℕ, zero, suc, ◌+◌, ◌≤◌, ◌<◌, ◌≡◌, refl, sym, ap, ◌∙◌, subst, inl, inr, false, List, [], ◌∷◌, ◌++◌,
  append_assoc, arith, ltb, leb, IsByte, ltb_false→le, leb→le, Bool-cases, length, take, drop, All,
  length-take, length-drop, take-append-drop, All-take, All-drop,
}
use android_prybar.DirectWriteBuf.Tcp.{
  Action, chunk_actions, write_actions, write_pos, session_actions,
}
use android_prybar.DirectWriteBuf.Tcp.Invariant.{todo_text, Fits}

starts : (n : ℕ) → n ≡ 0 + n
starts n = omega arith

module _ (cap : ℕ) (room : 0 < cap) where
  -- The rounds of the loop for long data fit, and they leave the buffer empty.
  chunks-Fits :
      (fuel : ℕ) (bytes : List ℕ) (rest : List Action)
      → All IsByte bytes
      → Fits cap 0 false rest
      → Fits cap 0 false (chunk_actions cap fuel bytes ++ rest)
  unfolding chunk_actions
  chunks-Fits fuel [] rest p f = f
  chunks-Fits zero (x ∷ xs) rest p f = f
  chunks-Fits (suc fuel) (x ∷ xs) rest p f =
      let left = x ∷ xs in
      elim (Bool-cases (ltb cap (length left))) [
        | inl e ↦ rw e (
          refl,
          omega (arith, length-take cap left),
          All-take IsByte cap left p,
          chunks-Fits fuel (drop cap left) rest (All-drop IsByte cap left p) f,
        )
        | inr e ↦ rw e (
          refl,
          omega (arith, length-take (length left) left, ltb_false→le _ _ e),
          All-take IsByte (length left) left p,
          chunks-Fits fuel (drop (length left) left) rest (All-drop IsByte (length left) left p) f,
        )
      ]

  chunk_text :
      (fuel n : ℕ) (bytes : List ℕ) (rest : List Action)
      → todo_text (chunk_actions cap fuel (drop n bytes) ++ rest) ≡ drop n bytes ++ todo_text rest
      → take n bytes ++ todo_text (chunk_actions cap fuel (drop n bytes) ++ rest)
        ≡ bytes ++ todo_text rest
  chunk_text fuel n bytes rest e = rw (
    e,
    sym (append_assoc (take n bytes) (drop n bytes) (todo_text rest)),
    take-append-drop n bytes,
  )

  chunks_text :
      (fuel : ℕ) (bytes : List ℕ) (rest : List Action)
      → length bytes ≤ fuel
      → todo_text (chunk_actions cap fuel bytes ++ rest) ≡ bytes ++ todo_text rest
  unfolding chunk_actions
  chunks_text fuel [] rest h = refl
  chunks_text zero (x ∷ xs) rest h = absurd (omega arith)
  chunks_text (suc fuel) (x ∷ xs) rest h =
      let left = x ∷ xs in
      elim (Bool-cases (ltb cap (length left))) [
        | inl e ↦ rw e (
            chunk_text fuel cap left rest
              (chunks_text fuel (drop cap left) rest (omega (arith, length-drop cap left))))
        | inr e ↦ rw e (
            chunk_text fuel (length left) left rest (
              chunks_text fuel (drop (length left) left) rest
                (omega (arith, length-drop (length left) left))))
      ]

  write-Fits :
      (pos : ℕ) (bytes : List ℕ) (rest : List Action)
      → All IsByte bytes
      → Fits cap (write_pos cap pos bytes) false rest
      → Fits cap pos false (write_actions cap pos bytes ++ rest)
  unfolding write_actions write_pos
  write-Fits pos bytes rest p f = elim (Bool-cases (leb (pos + length bytes) cap)) [
    | inl e ↦ rw e (leb→le _ _ e, p, rw e at f)
    | inr e ↦ elim (Bool-cases (leb (length bytes) cap)) [
      | inl e' ↦
          rw (e, e')
            (
              refl,
              leb→le _ _ e',
              p,
              subst (λ n. Fits cap n false rest) (starts (length bytes)) (rw (e, e') at f),
            )
      | inr e' ↦ rw (e, e') (chunks-Fits (length bytes) bytes rest p (rw (e, e') at f))
    ]
  ]

  write_text :
      (pos : ℕ) (bytes : List ℕ) (rest : List Action)
      → todo_text (write_actions cap pos bytes ++ rest) ≡ bytes ++ todo_text rest
  unfolding write_actions
  write_text pos bytes rest = elim (Bool-cases (leb (pos + length bytes) cap)) [
    | inl e ↦ rw e
    | inr e ↦ elim (Bool-cases (leb (length bytes) cap)) [
      | inl e' ↦ rw (e, e')
      | inr e' ↦ rw (e, e') (chunks_text (length bytes) bytes rest (omega arith))
    ]
  ]

  pub session-Fits :
      (pos : ℕ) (pieces : List (List ℕ))
      → All (All IsByte) pieces
      → Fits cap pos false (session_actions cap pos pieces)
  unfolding session_actions
  session-Fits pos [] p = elim (Bool-cases (ltb 0 pos)) [
    | inl e ↦ rw e (refl, (refl, refl))
    | inr e ↦ let z : pos ≡ 0 = omega (arith, ltb_false→le 0 pos e) in rw e (z, (z, refl))
  ]
  session-Fits pos (bytes ∷ pieces) p =
      write-Fits pos bytes (session_actions cap (write_pos cap pos bytes) pieces) p.0
        (session-Fits (write_pos cap pos bytes) pieces p.1)

  pub session_text :
      (pos : ℕ) (pieces : List (List ℕ))
      → todo_text (session_actions cap pos pieces) ≡ flatten pieces
  unfolding session_actions flatten
  session_text pos [] = elim (Bool-cases (ltb 0 pos)) [ inl e ↦ rw e | inr e ↦ rw e ]
  session_text pos (bytes ∷ pieces) =
      write_text pos bytes (session_actions cap (write_pos cap pos bytes) pieces)
      ∙ ap (λ xs. bytes ++ xs) (session_text (write_pos cap pos bytes) pieces)
