-- ===== src/Jni/Texts.antt =====
-- Lemmas on the text searches of trace/src/JniTrace.cpp.
use mathlib.Core.List.{reverse, reverse-reverse}
use android_prybar.Base.{
  ℕ, zero, suc, ◌≤◌, ◌<◌, ◌≡◌, refl, ◌∙◌, subst, ◌≢◌, false, none, some, List, [], ◌∷◌, ◌++◌,
  append-nil, arith, ◌==◌, ==_iff, length, All, length-append, All-append,
}
use android_prybar.Jni.{split_first, split_last, skip_spaces, trim_end, param_sig, param_loop}
use android_prybar.Jni.Types.{
  JavaType, IsTypeChar, IsElement, type_text, type_descriptor, All-reverse, All-map,
}
use android_prybar.Jni.Sig.{type_text-All, type_text-start, class_name_to_sig-type_text}

module _ (c : ℕ) where
  pub split_first-append :
      (xs ys : List ℕ) → All (λ x. x ≢ c) xs → split_first c (xs ++ c ∷ ys) ≡ some (xs, ys)
  unfolding split_first
  split_first-append [] ys all = rw ((==_iff c c).1 refl)
  split_first-append (x ∷ xs) ys all =
      let other : (x == c) ≡ false = ground (arith, all.0) in
      rw other (rw (split_first-append xs ys all.1))

  pub split_first-none : (xs : List ℕ) → All (λ x. x ≢ c) xs → split_first c xs ≡ none
  unfolding split_first
  split_first-none [] all = refl
  split_first-none (x ∷ xs) all =
      let other : (x == c) ≡ false = ground (arith, all.0) in
      rw other (rw (split_first-none xs all.1))

  pub split_last-none : (xs : List ℕ) → All (λ x. x ≢ c) xs → split_last c xs ≡ none
  unfolding split_last
  split_last-none [] all = refl
  split_last-none (x ∷ xs) all =
      let other : (x == c) ≡ false = ground (arith, all.0) in
      rw other (rw (split_last-none xs all.1))

  pub split_last-append :
      (xs ys : List ℕ) → All (λ x. x ≢ c) ys → split_last c (xs ++ c ∷ ys) ≡ some (xs, ys)
  unfolding split_last
  split_last-append [] ys all = rw ((==_iff c c).1 refl, split_last-none ys all)
  split_last-append (x ∷ xs) ys all = rw (split_last-append xs ys all)

skip_spaces-start : (x : ℕ) (xs : List ℕ) → x ≢ b' ' → skip_spaces (x ∷ xs) ≡ x ∷ xs
unfolding skip_spaces
skip_spaces-start x xs h = ground arith

skip_spaces-All : (xs : List ℕ) → All (λ x. x ≢ b' ') xs → skip_spaces xs ≡ xs
unfolding skip_spaces
skip_spaces-All [] all = refl
skip_spaces-All (x ∷ xs) all = skip_spaces-start x xs all.0

trim_end-All : (xs : List ℕ) → All (λ x. x ≢ b' ') xs → trim_end xs ≡ xs
unfolding trim_end
trim_end-All xs all =
    rw (skip_spaces-All (reverse xs) (All-reverse (λ x. x ≢ b' ') xs all)) (reverse-reverse xs)

-- The parameters of a method, as ART prints them.
unfoldable pub params_text : List JavaType → List ℕ
params_text [] = []
params_text (t ∷ []) = type_text t
params_text (t ∷ u ∷ ts) = type_text t ++ b',' ∷ b' ' ∷ params_text (u ∷ ts)

-- Their descriptors.
unfoldable pub params_descriptor : List JavaType → List ℕ
params_descriptor [] = []
params_descriptor (t ∷ ts) = type_descriptor t ++ params_descriptor ts

abbrev pub IsType : JavaType → Type 0
IsType t = IsElement t.element

param_sig-type_text :
    (t : JavaType) → IsType t → param_sig (trim_end (type_text t)) ≡ type_descriptor t
unfolding param_sig
param_sig-type_text t h =
    let (c, cs, e) = type_text-start t h in
    let whole =
      trim_end-All (type_text t)
        (All-map IsTypeChar (λ x. x ≢ b' ') (type_text t) (λ x p. p.0) (type_text-All t h)) in
    rw whole (rw e (rw (← e) (class_name_to_sig-type_text t h)))

skip_spaces-type_text :
    (t : JavaType) (rest : List ℕ)
    → IsType t
    → skip_spaces (type_text t ++ rest) ≡ type_text t ++ rest
skip_spaces-type_text t rest h =
    let (c, cs, e) = type_text-start t h in
    let all = subst (All IsTypeChar) e (type_text-All t h) in
    rw e (skip_spaces-start c (cs ++ rest) all.0.0)

type_text-long :
    (t : JavaType) (rest : List ℕ) → IsType t → (length (type_text t ++ rest) == 0) ≡ false
type_text-long t rest h = let (c, cs, e) = type_text-start t h in rw e (ground arith)

-- One round of the loop.
param_loop-step :
    (fuel : ℕ) (t : JavaType) (rest : List ℕ) {sigs : List ℕ}
    → IsType t
    → param_loop fuel rest ≡ some sigs
    → param_loop (suc fuel) (type_text t ++ b',' ∷ rest) ≡ some (type_descriptor t ++ sigs)
unfolding param_loop
param_loop-step fuel t rest h e =
    let skip = skip_spaces-type_text t (b',' ∷ rest) h in
    let long = type_text-long t (b',' ∷ rest) h in
    let cut =
      split_first-append b',' (type_text t) rest
        (All-map IsTypeChar (λ x. x ≢ b',') (type_text t) (λ x p. p.1) (type_text-All t h)) in
    rw (skip, long) (rw cut (rw (e, param_sig-type_text t h)))

param_loop-last :
    (fuel : ℕ) (t : JavaType)
    → IsType t
    → param_loop (suc fuel) (type_text t) ≡ some (type_descriptor t)
unfolding param_loop
param_loop-last fuel t h =
    let skip = rw append-nil at (skip_spaces-type_text t [] h) in
    let long = rw append-nil at (type_text-long t [] h) in
    let cut =
      split_first-none b',' (type_text t)
        (All-map IsTypeChar (λ x. x ≢ b',') (type_text t) (λ x p. p.1) (type_text-All t h)) in
    rw (skip, long) (rw cut (rw (param_sig-type_text t h)))

param_loop-space : (fuel : ℕ) (rest : List ℕ) → param_loop fuel (b' ' ∷ rest) ≡ param_loop fuel rest
unfolding param_loop skip_spaces
param_loop-space zero rest = refl
param_loop-space (suc fuel) rest = refl

-- The loop turns every parameter into its descriptor, in order.
pub param_loop-params_text :
    (ts : List JavaType) (fuel : ℕ)
    → All IsType ts
    → length ts < fuel
    → param_loop fuel (params_text ts) ≡ some (params_descriptor ts)
unfolding params_text params_descriptor
param_loop-params_text ts zero all h = absurd (omega arith)
param_loop-params_text [] (suc fuel) all h = unfold param_loop skip_spaces in refl
param_loop-params_text (t ∷ []) (suc fuel) all h = rw append-nil (param_loop-last fuel t all.0)
param_loop-params_text (t ∷ u ∷ ts) (suc fuel) all h =
    param_loop-step fuel t (b' ' ∷ params_text (u ∷ ts)) all.0 (
      param_loop-space fuel (params_text (u ∷ ts))
      ∙ param_loop-params_text (u ∷ ts) fuel all.1 (omega arith))

-- The text of the parameters is at least as long as their list.
pub length-params_text : (ts : List JavaType) → All IsType ts → length ts ≤ length (params_text ts)
unfolding params_text
length-params_text [] all = omega arith
length-params_text (t ∷ []) all = let (c, cs, e) = type_text-start t all.0 in rw e (omega arith)
length-params_text (t ∷ u ∷ ts) all = omega (
  arith,
  length-append (type_text t) (b',' ∷ b' ' ∷ params_text (u ∷ ts)),
  length-params_text (u ∷ ts) all.1,
)

pub params_text-All : (ts : List JavaType) → All IsType ts → All (λ x. x ≢ b')') (params_text ts)
unfolding params_text
params_text-All [] all = tt
params_text-All (t ∷ []) all =
    All-map IsTypeChar _ (type_text t) (λ x p. p.3) (type_text-All t all.0)
params_text-All (t ∷ u ∷ ts) all =
    All-append (λ x. x ≢ b')') (type_text t) (b',' ∷ b' ' ∷ params_text (u ∷ ts))
      (All-map IsTypeChar _ (type_text t) (λ x p. p.3) (type_text-All t all.0))
      (omega arith, (omega arith, params_text-All (u ∷ ts) all.1))
