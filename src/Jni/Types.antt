-- ===== src/Jni/Types.antt =====
-- Java's types, as ART prints them and as JNI describes them: the two sides that classNameToSig of
-- trace/src/JniTrace.cpp relates.
use mathlib.Core.List.{reverse, reverse-cons}
use android_prybar.Base.{
  ℕ, zero, suc, ◌<◌, ◌≡◌, refl, sym, ap, subst, ◌≢◌, none, List, [], ◌∷◌, ◌++◌, arith, ◌==◌, length,
  replicate, All, All-append, All-replicate, bytes_of, if-all,
}
use android_prybar.Jni.{dot_to_slash, primitive_sig}

-- An element type: a primitive one (or void), or a class by its dotted name.
pub data Element : Type 0 where
  void_type boolean_type byte_type char_type short_type int_type long_type float_type : Element
  double_type : Element
  class_type : List ℕ → Element

-- An array has an element type and a number of dimensions.
pub record JavaType : Type 0 where
  pub element : Element
  pub dims : ℕ

-- A character of a class name, which has no punctuation of a type or of a list of parameters.
abbrev pub IsNameChar : ℕ → Type 0
IsNameChar c = (c ≢ b' ') × (c ≢ b',') × (c ≢ b'(') × (c ≢ b')') × (c ≢ b'[') × (c ≢ b']')

-- A character of the text of a type.
abbrev pub IsTypeChar : ℕ → Type 0
IsTypeChar c = (c ≢ b' ') × (c ≢ b',') × (c ≢ b'(') × (c ≢ b')')

-- A class name, which is no keyword.
abbrev pub IsClassName : List ℕ → Type 0
IsClassName name = (0 < length name) × All IsNameChar name × (primitive_sig name ≡ none)

abbrev pub IsElement : Element → Type 0
IsElement (class_type name) = IsClassName name
IsElement e = Unit {0}

-- What ART prints for an element.
unfoldable pub element_text : Element → List ℕ
element_text void_type = bytes_of "void"
element_text boolean_type = bytes_of "boolean"
element_text byte_type = bytes_of "byte"
element_text char_type = bytes_of "char"
element_text short_type = bytes_of "short"
element_text int_type = bytes_of "int"
element_text long_type = bytes_of "long"
element_text float_type = bytes_of "float"
element_text double_type = bytes_of "double"
element_text (class_type name) = name

-- JNI's descriptor of an element.
unfoldable pub element_descriptor : Element → List ℕ
element_descriptor void_type = bytes_of "V"
element_descriptor boolean_type = bytes_of "Z"
element_descriptor byte_type = bytes_of "B"
element_descriptor char_type = bytes_of "C"
element_descriptor short_type = bytes_of "S"
element_descriptor int_type = bytes_of "I"
element_descriptor long_type = bytes_of "J"
element_descriptor float_type = bytes_of "F"
element_descriptor double_type = bytes_of "D"
element_descriptor (class_type name) = b'L' ∷ dot_to_slash name ++ b';' ∷ []

unfoldable pub with_dims : ℕ → List ℕ → List ℕ
with_dims zero text = text
with_dims (suc n) text = with_dims n text ++ b'[' ∷ b']' ∷ []

-- What ART prints for a type, such as `int[][]`.
unfoldable pub type_text : JavaType → List ℕ
type_text t = with_dims t.dims (element_text t.element)

-- JNI's descriptor of a type, such as `[[I`.
unfoldable pub type_descriptor : JavaType → List ℕ
type_descriptor t = replicate t.dims b'[' ++ element_descriptor t.element

pub replicate-snoc : (n a : ℕ) → replicate n a ++ a ∷ [] ≡ a ∷ replicate n a
replicate-snoc zero a = refl
replicate-snoc (suc n) a = ap (◌∷◌ a) (replicate-snoc n a)

pub All-reverse : (P : ℕ → Type 0) (xs : List ℕ) → All P xs → All P (reverse xs)
All-reverse P [] all = tt
All-reverse P (x ∷ xs) all =
    subst (All P) (sym (reverse-cons x xs))
      (All-append P (reverse xs) (x ∷ []) (All-reverse P xs all.1) (all.0, tt))

pub All-map : (P Q : ℕ → Type 0) (xs : List ℕ) → ((x : ℕ) → P x → Q x) → All P xs → All Q xs
All-map P Q [] f all = tt
All-map P Q (x ∷ xs) f all = (f x all.0, All-map P Q xs f all.1)

dot_to_slash-All : (name : List ℕ) → All IsNameChar name → All (λ c. c ≢ b')') (dot_to_slash name)
unfolding dot_to_slash
dot_to_slash-All [] all = tt
dot_to_slash-All (c ∷ cs) all = (
  if-all (λ (x : ℕ). x ≢ b')') (c == b'.') b'/' c (omega arith) all.0.3,
  dot_to_slash-All cs all.1,
)

element_descriptor-All : (e : Element) → IsElement e → All (λ c. c ≢ b')') (element_descriptor e)
unfolding element_descriptor
element_descriptor-All (class_type name) h = (
  omega arith,
  All-append _ (dot_to_slash name) (b';' ∷ []) (dot_to_slash-All name h.1) (omega arith),
)
element_descriptor-All void_type h = omega arith
element_descriptor-All boolean_type h = omega arith
element_descriptor-All byte_type h = omega arith
element_descriptor-All char_type h = omega arith
element_descriptor-All short_type h = omega arith
element_descriptor-All int_type h = omega arith
element_descriptor-All long_type h = omega arith
element_descriptor-All float_type h = omega arith
element_descriptor-All double_type h = omega arith

-- A descriptor has no parenthesis at its end.
pub type_descriptor-All :
    (t : JavaType) → IsElement t.element → All (λ c. c ≢ b')') (type_descriptor t)
unfolding type_descriptor
type_descriptor-All t h =
    All-append _ (replicate t.dims b'[') (element_descriptor t.element)
      (All-replicate (λ c. c ≢ b')') t.dims b'[' (omega arith)) (element_descriptor-All t.element h)
