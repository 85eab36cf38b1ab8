-- ===== src/Jni/Sig.antt =====
-- classNameToSig of trace/src/JniTrace.cpp turns the text of a type into its descriptor.
use mathlib.Core.List.{reverse, reverse-append, reverse-reverse}
use android_prybar.Base.{
  ℕ, zero, suc, ◌≡◌, refl, ap, ◌∙◌, ◌≢◌, inl, inr, true, false, none, List, [], ◌∷◌, ◌++◌, arith,
  leb, ◌==◌, Bool-cases, length, get_or, replicate, All, length-append, All-append, bytes_of,
}
use android_prybar.Jni.{
  text_eq, primitive_sig, object_sig, strip_arrays, starts_with, ends_in_array, base_sig,
  class_name_to_sig,
}
use android_prybar.Jni.Types.{
  Element, void_type, boolean_type, byte_type, char_type, short_type, int_type, long_type,
  float_type, double_type, class_type, JavaType, IsNameChar, IsTypeChar, IsElement, element_text,
  element_descriptor, with_dims, type_text, type_descriptor, replicate-snoc, All-reverse, All-map,
}

-- The loop strips the "[]" of every dimension and no more.
strip_arrays-with_dims :
    (n : ℕ) (text : List ℕ)
    → strip_arrays (reverse text) ≡ ([], reverse text)
    → strip_arrays (reverse (with_dims n text)) ≡ (replicate n b'[', reverse text)
unfolding with_dims strip_arrays
strip_arrays-with_dims zero text h = h
strip_arrays-with_dims (suc n) text h =
    let back = reverse-append (with_dims n text) (b'[' ∷ b']' ∷ []) in
    rw (back, strip_arrays)
      (rw (strip_arrays-with_dims n text h)
        (ap (λ (p : List ℕ). (p, reverse text)) (replicate-snoc n b'[')))

strip_arrays-none : (r : List ℕ) → All (λ c. c ≢ b']') r → strip_arrays r ≡ ([], r)
unfolding strip_arrays
strip_arrays-none [] all = refl
strip_arrays-none (x ∷ []) all = refl
strip_arrays-none (x ∷ y ∷ rest) all =
    let other : (x == b']') ≡ false = ground (arith, all.0) in rw other

-- The texts of elements end in no "[]".
strip_arrays-element :
    (e : Element)
    → IsElement e
    → strip_arrays (reverse (element_text e)) ≡ ([], reverse (element_text e))
unfolding element_text strip_arrays
strip_arrays-element (class_type name) h =
    strip_arrays-none (reverse name)
      (All-reverse _ name (All-map IsNameChar (λ c. c ≢ b']') name (λ x p. p.5) h.1))
strip_arrays-element void_type h = refl
strip_arrays-element boolean_type h = refl
strip_arrays-element byte_type h = refl
strip_arrays-element char_type h = refl
strip_arrays-element short_type h = refl
strip_arrays-element int_type h = refl
strip_arrays-element long_type h = refl
strip_arrays-element float_type h = refl
strip_arrays-element double_type h = refl

base_sig-element : (e : Element) → IsElement e → base_sig (element_text e) ≡ element_descriptor e
unfolding element_text element_descriptor base_sig object_sig primitive_sig text_eq starts_with
base_sig-element (class_type (c ∷ cs)) h =
    let other : (c == b'[') ≡ false = ground (arith, h.1.0.4) in rw (h.2, other)
base_sig-element (class_type []) h = absurd (omega (arith, h.0))
base_sig-element void_type h = refl
base_sig-element boolean_type h = refl
base_sig-element byte_type h = refl
base_sig-element char_type h = refl
base_sig-element short_type h = refl
base_sig-element int_type h = refl
base_sig-element long_type h = refl
base_sig-element float_type h = refl
base_sig-element double_type h = refl

text_eq-array :
    (xs ys : List ℕ) → All (λ c. c ≢ b']') ys → text_eq (xs ++ b'[' ∷ b']' ∷ []) ys ≡ false
unfolding text_eq
text_eq-array [] [] all = refl
text_eq-array [] (y ∷ []) all = ground arith
text_eq-array [] (y ∷ z ∷ zs) all = let other = all.1.0 in ground (arith, other)
text_eq-array (x ∷ xs) [] all = refl
text_eq-array (x ∷ xs) (y ∷ ys) all = ground (arith, text_eq-array xs ys all.1)

-- A text that ends in "[]" is no primitive type.
primitive_sig-array : (text : List ℕ) → primitive_sig (text ++ b'[' ∷ b']' ∷ []) ≡ none
unfolding primitive_sig
primitive_sig-array text =
    let no = λ (word : List ℕ) (h : All (λ c. c ≢ b']') word). text_eq-array text word h in
    rw (
      no (bytes_of "void") (omega arith),
      no (bytes_of "boolean") (omega arith),
      no (bytes_of "byte") (omega arith),
      no (bytes_of "char") (omega arith),
      no (bytes_of "short") (omega arith),
      no (bytes_of "int") (omega arith),
      no (bytes_of "long") (omega arith),
      no (bytes_of "float") (omega arith),
      no (bytes_of "double") (omega arith),
    )

element_text-start :
    (e : Element) → IsElement e → (c : ℕ) × (cs : List ℕ) × (element_text e ≡ c ∷ cs) × (c ≢ b'[')
unfolding element_text
element_text-start (class_type (c ∷ cs)) h = (c, cs, refl, h.1.0.4)
element_text-start (class_type []) h = absurd (omega (arith, h.0))
element_text-start void_type h = (_, _, refl, omega arith)
element_text-start boolean_type h = (_, _, refl, omega arith)
element_text-start byte_type h = (_, _, refl, omega arith)
element_text-start char_type h = (_, _, refl, omega arith)
element_text-start short_type h = (_, _, refl, omega arith)
element_text-start int_type h = (_, _, refl, omega arith)
element_text-start long_type h = (_, _, refl, omega arith)
element_text-start float_type h = (_, _, refl, omega arith)
element_text-start double_type h = (_, _, refl, omega arith)

with_dims-start : (n c : ℕ) (cs : List ℕ) → (rest : List ℕ) × (with_dims n (c ∷ cs) ≡ c ∷ rest)
unfolding with_dims
with_dims-start zero c cs = (cs, refl)
with_dims-start (suc n) c cs =
    let (rest, e) = with_dims-start n c cs in (rest ++ b'[' ∷ b']' ∷ [], rw e)

ends_in_array-snoc : (c : ℕ) (text : List ℕ) → ends_in_array ((c ∷ text) ++ b'[' ∷ b']' ∷ []) ≡ true
unfolding ends_in_array
ends_in_array-snoc c text =
    let back = reverse-append (c ∷ text) (b'[' ∷ b']' ∷ []) in
    let long : leb 3 (length ((c ∷ text) ++ b'[' ∷ b']' ∷ [])) ≡ true =
      ground (arith, length-append text (b'[' ∷ b']' ∷ [])) in
    rw (back, long)

head-not : (r : List ℕ) → All (λ c. c ≢ b']') r → (get_or r 0 0 == b']') ≡ false
head-not [] all = refl
head-not (x ∷ r) all = ground (arith, all.0)

not_array : (name : List ℕ) → All (λ c. c ≢ b']') name → ends_in_array name ≡ false
unfolding ends_in_array
not_array name all =
    let head = head-not (reverse name) (All-reverse _ name all) in
    elim (Bool-cases (leb 3 (length name))) [ inl e ↦ rw (e, head) | inr e ↦ rw e ]

-- Without a "[]" at the end the two functions agree.
class_name_to_sig-base :
    (name : List ℕ) → ends_in_array name ≡ false → class_name_to_sig name ≡ base_sig name
unfolding class_name_to_sig base_sig
class_name_to_sig-base name e = rw e

element_text-All : (e : Element) → IsElement e → All IsTypeChar (element_text e)
unfolding element_text
element_text-All (class_type name) h =
    All-map IsNameChar IsTypeChar name (λ x p. (p.0, p.1, p.2, p.3)) h.1
element_text-All void_type h = omega arith
element_text-All boolean_type h = omega arith
element_text-All byte_type h = omega arith
element_text-All char_type h = omega arith
element_text-All short_type h = omega arith
element_text-All int_type h = omega arith
element_text-All long_type h = omega arith
element_text-All float_type h = omega arith
element_text-All double_type h = omega arith

element_text-open : (e : Element) → IsElement e → All (λ c. c ≢ b']') (element_text e)
unfolding element_text
element_text-open (class_type name) h = All-map IsNameChar (λ c. c ≢ b']') name (λ x p. p.5) h.1
element_text-open void_type h = omega arith
element_text-open boolean_type h = omega arith
element_text-open byte_type h = omega arith
element_text-open char_type h = omega arith
element_text-open short_type h = omega arith
element_text-open int_type h = omega arith
element_text-open long_type h = omega arith
element_text-open float_type h = omega arith
element_text-open double_type h = omega arith

with_dims-All : (n : ℕ) (text : List ℕ) → All IsTypeChar text → All IsTypeChar (with_dims n text)
unfolding with_dims
with_dims-All zero text all = all
with_dims-All (suc n) text all =
    All-append IsTypeChar (with_dims n text) (b'[' ∷ b']' ∷ []) (with_dims-All n text all)
      (omega arith)

-- The text of a type has no space, comma or parenthesis.
pub type_text-All : (t : JavaType) → IsElement t.element → All IsTypeChar (type_text t)
unfolding type_text
type_text-All t h = with_dims-All t.dims (element_text t.element) (element_text-All t.element h)

-- And it is not empty.
pub type_text-start :
    (t : JavaType) → IsElement t.element → (c : ℕ) × (cs : List ℕ) × (type_text t ≡ c ∷ cs)
unfolding type_text
type_text-start t h =
    let (c, cs, e, other) = element_text-start t.element h in
    let (rest, f) = with_dims-start t.dims c cs in (c, rest, rw e f)

class_name_to_sig-array :
    (c : ℕ) (rest prefix base : List ℕ)
    → c ≢ b'['
    → strip_arrays (reverse ((c ∷ rest) ++ b'[' ∷ b']' ∷ [])) ≡ (prefix, base)
    → class_name_to_sig ((c ∷ rest) ++ b'[' ∷ b']' ∷ []) ≡ prefix ++ base_sig (reverse base)
unfolding class_name_to_sig starts_with
class_name_to_sig-array c rest prefix base other stripped =
    let head : (c == b'[') ≡ false = ground arith in
    rw (primitive_sig-array (c ∷ rest), head, ends_in_array-snoc c rest, stripped)

with_dims-suc :
    (n : ℕ) (text whole : List ℕ)
    → with_dims n text ≡ whole
    → with_dims (suc n) text ≡ whole ++ b'[' ∷ b']' ∷ []
unfolding with_dims
with_dims-suc n text whole e = rw e

class_name_to_sig-with_dims :
    (n : ℕ) (e : Element)
    → IsElement e
    → class_name_to_sig (with_dims n (element_text e)) ≡ replicate n b'[' ++ element_descriptor e
unfolding with_dims
class_name_to_sig-with_dims zero e h =
    unfold with_dims in
    class_name_to_sig-base (element_text e) (not_array (element_text e) (element_text-open e h))
    ∙ base_sig-element e h
class_name_to_sig-with_dims (suc n) e h =
    let (c, cs, start, other) = element_text-start e h in
    let (rest, f) = with_dims-start n c cs in
    let text : with_dims (suc n) (element_text e) ≡ (c ∷ rest) ++ b'[' ∷ b']' ∷ [] =
      with_dims-suc n (element_text e) (c ∷ rest) (rw start f) in
    let stripped = strip_arrays-with_dims (suc n) (element_text e) (strip_arrays-element e h) in
    rw text (
      class_name_to_sig-array c rest (replicate (suc n) b'[') (reverse (element_text e)) other
        (rw text at stripped)
      ∙ ap (λ (b : List ℕ). replicate (suc n) b'[' ++ b)
          (ap base_sig (reverse-reverse (element_text e)) ∙ base_sig-element e h))

-- From the text that ART prints for a type, classNameToSig gives its descriptor; the type is a primitive
-- one, a class whose name is not empty, has none of the characters space , ( ) [ ] and is not a primitive
-- type's, or an array of these.
pub class_name_to_sig-type_text :
    (t : JavaType) → IsElement t.element → class_name_to_sig (type_text t) ≡ type_descriptor t
unfolding type_text type_descriptor
class_name_to_sig-type_text t h = class_name_to_sig-with_dims t.dims t.element h
