-- ===== src/Svc/Flags/Total.antt =====
-- The names of flags and commands always give a text.
use android_prybar.Base.{
  ℕ, ◌^◌, ◌<◌, refl, inl, inr, Bool, true, false, Option, if◌then◌else◌, u32, Option-cases,
  get_elem?,
}
use android_prybar.Svc.Dump.Total.{Gives, Gives-lit, Gives-hex_val, Gives-dec_val}
use android_prybar.Svc.Flags.{map_flags_text, whence_text, fcntl_names, fcntl_text, futex_text}

pub Gives-if {ℓ} :
    {A : Type ℓ} (b : Bool) (p q : Option A) → Gives p → Gives q → Gives (if b then p else q)
Gives-if true p q g h = g
Gives-if false p q g h = h

pub Gives-whence : (x2 : ℕ) → x2 < 2 ^ 64 → Gives (whence_text x2)
unfolding whence_text
Gives-whence x2 h = Gives-if _ _ _ (Gives-lit "SEEK_SET") (
    Gives-if _ _ _ (Gives-lit "SEEK_CUR")
      (Gives-if _ _ _ (Gives-lit "SEEK_END") (Gives-dec_val x2 h)))

pub Gives-map_flags : (flags : ℕ) → flags < 2 ^ 64 → Gives (map_flags_text flags)
unfolding map_flags_text
Gives-map_flags flags h = Gives-if _ _ _ (_, refl) (Gives-hex_val flags h)

pub Gives-fcntl : (x1 : ℕ) → x1 < 2 ^ 64 → Gives (fcntl_text x1)
unfolding fcntl_text
Gives-fcntl x1 h = elim (Option-cases (get_elem? fcntl_names (u32 x1))) [
  | inl e ↦ rw (fcntl_text, e) (Gives-dec_val x1 h)
  | inr name ↦ rw (fcntl_text, name.1) (Gives-lit name.0)
]

pub Gives-futex : (x1 : ℕ) → x1 < 2 ^ 64 → Gives (futex_text x1)
unfolding futex_text
Gives-futex x1 h = Gives-if _ _ _ (Gives-lit "WAIT") (
    Gives-if _ _ _ (Gives-lit "WAKE") (
      Gives-if _ _ _ (Gives-lit "WAIT_BITSET")
        (Gives-if _ _ _ (Gives-lit "WAKE_BITSET") (Gives-dec_val x1 h))))
