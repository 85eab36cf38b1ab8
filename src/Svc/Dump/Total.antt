-- ===== src/Svc/Dump/Total.antt =====
-- The text helpers of trace/src/svc_handler.cpp always give a text.
use Prim.Native.String.{String}
use android_prybar.Base.{
  ℕ, ◌-◌, ◌^◌, ◌<◌, ◌≡◌, refl, inl, inr, Option, some, List, [], ◌∷◌, ◌++◌, arith, ltb, ◌==◌,
  negated32, ltb_false→le, Bool-cases, Option-cases, All, bytes_of,
}
use android_prybar.Numbers.{uint64_to_hex, uint64_to_dec}
use android_prybar.Numbers.Decode.{uint64_to_hex-Formats, uint64_to_dec-Formats}
use android_prybar.Svc.FdTracker.{FdTracker}
use android_prybar.Svc.Dump.{
  parts, lit, append_hex_val, append_dec_val, append_signed_dec_val, tracked, path_note, append_fd,
}

abbrev pub Gives {ℓ} : {A : Type ℓ} → Option A → Type ℓ
Gives {A = A} r = (a : A) × (r ≡ some a)

pub Gives-parts : (ps : List (Option (List ℕ))) → All Gives ps → Gives (parts ps)
unfolding parts
Gives-parts [] g = ([], refl)
Gives-parts (p ∷ ps) g =
    let (text, e) = g.0 in let (others, e') = Gives-parts ps g.1 in (text ++ others, rw (e, e'))

pub Gives-lit : (s : String) → Gives (lit s)
unfolding lit
Gives-lit s = (bytes_of s, refl)

pub Gives-dec : (val : ℕ) → val < 2 ^ 64 → Gives (uint64_to_dec val)
Gives-dec val h = let (text, e, short, value) = uint64_to_dec-Formats val h in (text, e)

pub Gives-hex_val : (val : ℕ) → val < 2 ^ 64 → Gives (append_hex_val val)
unfolding append_hex_val
Gives-hex_val val h =
    let (text, e, short, value) = uint64_to_hex-Formats val h in
    Gives-parts (lit "0x" ∷ uint64_to_hex val ∷ []) (Gives-lit "0x", ((text, e), tt))

pub Gives-path_note : (tracker : Option FdTracker) (fd : ℕ) → Gives (path_note tracker fd)
unfolding path_note
Gives-path_note tracker fd = elim (Option-cases (tracked tracker fd)) [
  | inl e ↦ ([], rw (path_note, e))
  | inr p ↦
      rw (path_note, p.1)
        (Gives-parts (lit " ->\"" ∷ some p.0 ∷ lit "\"" ∷ [])
          (Gives-lit " ->\"", ((p.0, refl), (Gives-lit "\"", tt))))
]

pub Gives-fd : (fd : ℕ) (tracker : Option FdTracker) → fd < 2 ^ 32 → Gives (append_fd fd tracker)
unfolding append_fd
Gives-fd fd tracker h = elim (Bool-cases (fd == 2 ^ 32 - 100)) [
  | inl a ↦ rw a (Gives-lit "AT_FDCWD")
  | inr a ↦ elim (Bool-cases (ltb fd (2 ^ 31))) [
    | inl b ↦
        rw (a, b)
          (Gives-parts (uint64_to_dec fd ∷ path_note tracker fd ∷ [])
            (Gives-dec fd (omega arith), (Gives-path_note tracker fd, tt)))
    | inr b ↦
        rw (a, b)
          (Gives-parts
            (lit "-" ∷ uint64_to_dec (negated32 fd) ∷ path_note tracker (2 ^ 32 - fd) ∷ [])
            (
              Gives-lit "-",
              (
                Gives-dec (negated32 fd) (ground arith),
                (Gives-path_note tracker (2 ^ 32 - fd), tt),
              ),
            ))
  ]
]

pub Gives-signed_dec_val : (val : ℕ) → val < 2 ^ 64 → Gives (append_signed_dec_val val)
unfolding append_signed_dec_val append_dec_val
Gives-signed_dec_val val h = elim (Bool-cases (ltb val (2 ^ 63))) [
  | inl e ↦ rw e (Gives-dec val h)
  | inr e ↦ rw e (
      Gives-parts (lit "-" ∷ append_dec_val (2 ^ 64 - val) ∷ [])
        (Gives-lit "-", (Gives-dec (2 ^ 64 - val) (omega (arith, ltb_false→le _ _ e)), tt)))
]

pub Gives-dec_val : (val : ℕ) → val < 2 ^ 64 → Gives (append_dec_val val)
unfolding append_dec_val
Gives-dec_val val h = Gives-dec val h
