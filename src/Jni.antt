-- ===== src/Jni.antt =====
-- The names and signatures of trace/src/JniTrace.cpp: from what ART prints of a method or a field to
-- its JNI descriptor. Text is bytes.
pub mod Types
pub mod Sig
pub mod Texts
pub mod Pretty
mod Runs
use mathlib.Core.List.{reverse}
use android_prybar.Base.{
  ℕ, zero, suc, Bool, true, false, ◌&&◌, Option, none, some, List, [], ◌∷◌, ◌++◌, leb, ◌==◌,
  if◌then◌else◌, ◌>>=◌, length, get_or, bytes_of, from_option,
}

-- MethodInfo
pub record MethodInfo : Type 0 where
  pub class_name : List ℕ
  pub method_name : List ℕ
  pub signature : List ℕ

abbrev pub no_method : MethodInfo
no_method = record { class_name = []; method_name = []; signature = [] }

-- FieldInfo
pub record FieldInfo : Type 0 where
  pub class_name : List ℕ
  pub field_name : List ℕ
  pub type_sig : List ℕ

-- The FieldInfo that parsePrettyField starts from.
abbrev pub no_field : FieldInfo
no_field = record { class_name = []; field_name = bytes_of "?"; type_sig = bytes_of "?" }

-- dotToSlash, and the loops that do the same in place.
unfoldable pub dot_to_slash : List ℕ → List ℕ
dot_to_slash [] = []
dot_to_slash (c ∷ cs) = (if c == b'.' then b'/' else c) ∷ dot_to_slash cs

unfoldable pub text_eq : List ℕ → List ℕ → Bool
text_eq [] [] = true
text_eq [] (y ∷ ys) = false
text_eq (x ∷ xs) [] = false
text_eq (x ∷ xs) (y ∷ ys) = x == y && text_eq xs ys

-- The primitive types of classNameToSig.
unfoldable pub primitive_sig : List ℕ → Option (List ℕ)
primitive_sig name =
    if text_eq name (bytes_of "void")
    then some (bytes_of "V")
    else if text_eq name (bytes_of "boolean")
    then some (bytes_of "Z")
    else if text_eq name (bytes_of "byte")
    then some (bytes_of "B")
    else if text_eq name (bytes_of "char")
    then some (bytes_of "C")
    else if text_eq name (bytes_of "short")
    then some (bytes_of "S")
    else if text_eq name (bytes_of "int")
    then some (bytes_of "I")
    else if text_eq name (bytes_of "long")
    then some (bytes_of "J")
    else if text_eq name (bytes_of "float")
    then some (bytes_of "F")
    else if text_eq name (bytes_of "double")
    then some (bytes_of "D")
    else none

-- The object type of classNameToSig.
unfoldable pub object_sig : List ℕ → List ℕ
object_sig name = b'L' ∷ dot_to_slash name ++ b';' ∷ []

-- The loop that strips "[]", on the reversed name: one "[" for each, and the reversed base.
unfoldable pub strip_arrays : List ℕ → List ℕ × List ℕ
strip_arrays [] = ([], [])
strip_arrays (x ∷ []) = ([], x ∷ [])
strip_arrays (x ∷ y ∷ rest) =
    let (prefix, base) = strip_arrays rest in
    if x == b']' && y == b'[' then (prefix ++ b'[' ∷ [], base) else ([], x ∷ y ∷ rest)

unfoldable pub starts_with : ℕ → List ℕ → Bool
starts_with c [] = false
starts_with c (x ∷ xs) = x == c

-- `name.substr(name.size() - 2) == "[]"`
unfoldable pub ends_in_array : List ℕ → Bool
ends_in_array name =
    let r = reverse name in leb 3 (length name) && get_or r 0 0 == b']' && get_or r 1 0 == b'['

-- classNameToSig of a name that does not end in "[]".
unfoldable pub base_sig : List ℕ → List ℕ
base_sig name =
    from_option (if starts_with b'[' name then dot_to_slash name else object_sig name) (λ s. s)
      (primitive_sig name)

-- classNameToSig. Its call on the base takes no array branch, since the loop has stripped every "[]".
unfoldable pub class_name_to_sig : List ℕ → List ℕ
class_name_to_sig name =
    let (prefix, base) = strip_arrays (reverse name) in
    let other =
      if starts_with b'[' name
      then dot_to_slash name
      else if ends_in_array name
      then prefix ++ base_sig (reverse base)
      else object_sig name in
    from_option other (λ s. s) (primitive_sig name)

-- `find(c)` with the two `substr`: what stands before and after the first `c`.
unfoldable pub split_first : ℕ → List ℕ → Option (List ℕ × List ℕ)
split_first c [] = none
split_first c (x ∷ xs) =
    let later = (do (before, after) ← split_first c xs; some (x ∷ before, after)) in
    if x == c then some ([], xs) else later

-- `rfind(c)` with the two `substr`: what stands before and after the last `c`.
unfoldable pub split_last : ℕ → List ℕ → Option (List ℕ × List ℕ)
split_last c [] = none
split_last c (x ∷ xs) =
    let here = if x == c then some ([], xs) else none in
    from_option here (λ (s : List ℕ × List ℕ). some (x ∷ s.0, s.1)) (split_last c xs)

unfoldable pub skip_spaces : List ℕ → List ℕ
skip_spaces [] = []
skip_spaces (c ∷ cs) = if c == b' ' then skip_spaces cs else c ∷ cs

-- The loop of `pop_back`.
unfoldable pub trim_end : List ℕ → List ℕ
trim_end name = reverse (skip_spaces (reverse name))

-- `if (!paramType.empty()) sig += classNameToSig(paramType);`
unfoldable pub param_sig : List ℕ → List ℕ
param_sig [] = []
param_sig (c ∷ cs) = class_name_to_sig (c ∷ cs)

-- The loop over the parameters; `none` is out of fuel.
unfoldable pub param_loop : ℕ → List ℕ → Option (List ℕ)
param_loop zero params = none
param_loop (suc fuel) params =
    let start = skip_spaces params in
    let last = some (param_sig (trim_end start)) in
    let go_on = λ (s : List ℕ × List ℕ). (do
      sigs ← param_loop fuel s.1
      some (param_sig (trim_end s.0) ++ sigs)) in
    if length start == 0 then some [] else from_option last go_on (split_first b',' start)

-- What parsePrettyMethod cuts its text into.
pub record MethodParts : Type 0 where
  pub ret_type : List ℕ
  pub class_name : List ℕ
  pub method_name : List ℕ
  pub after_paren : List ℕ

-- The first half of parsePrettyMethod; `none` is an early return.
unfoldable pub method_parts : List ℕ → Option MethodParts
method_parts pretty = do
  (before_paren, after_paren) ← split_first b'(' pretty
  (ret_type, class_and_method) ← split_first b' ' before_paren
  (class_name, method_name) ← split_last b'.' class_and_method
  some (record {
    ret_type = ret_type;
    class_name = class_name;
    method_name = method_name;
    after_paren = after_paren;
  })

-- The text between the parentheses.
unfoldable pub params_of : MethodParts → List ℕ
params_of p = from_option [] (λ (s : List ℕ × List ℕ). s.0) (split_last b')' p.after_paren)

-- The second half of parsePrettyMethod, which builds the signature.
unfoldable pub method_of : MethodParts → Option MethodInfo
method_of p = do
  sigs ← param_loop (suc (length (params_of p))) (params_of p)
  some (record {
    class_name = dot_to_slash p.class_name;
    method_name = p.method_name;
    signature = b'(' ∷ sigs ++ b')' ∷ class_name_to_sig p.ret_type;
  })

-- parsePrettyMethod; `none` is out of fuel.
unfoldable pub parse_pretty_method : List ℕ → Option MethodInfo
parse_pretty_method pretty = from_option (some no_method) method_of (method_parts pretty)

-- parsePrettyField up to its early returns.
unfoldable pub field_parts : List ℕ → Option FieldInfo
field_parts pretty = do
  (field_type, rest) ← split_first b' ' pretty
  (class_name, field_name) ← split_last b'.' rest
  some (record {
    class_name = dot_to_slash class_name;
    field_name = field_name;
    type_sig = class_name_to_sig field_type;
  })

-- parsePrettyField
unfoldable pub parse_pretty_field : List ℕ → FieldInfo
parse_pretty_field pretty = from_option no_field (λ f. f) (field_parts pretty)

-- sigReturnType
unfoldable pub sig_return_type : List ℕ → List ℕ
sig_return_type sig = from_option [] (λ (s : List ℕ × List ℕ). s.1) (split_last b')' sig)
