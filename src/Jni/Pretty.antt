-- ===== src/Jni/Pretty.antt =====
-- parsePrettyMethod and parsePrettyField of trace/src/JniTrace.cpp on what ART prints.
use android_prybar.Base.{
  ℕ, suc, ◌≡◌, ◌≢◌, some, List, [], ◌∷◌, ◌++◌, arith, length, All, All-append,
}
use android_prybar.Jni.{
  dot_to_slash, method_parts, params_of, method_of, parse_pretty_method, field_parts,
  parse_pretty_field, sig_return_type,
}
use android_prybar.Jni.Types.{
  JavaType, IsTypeChar, type_text, type_descriptor, All-map, type_descriptor-All,
}
use android_prybar.Jni.Sig.{type_text-All, class_name_to_sig-type_text}
use android_prybar.Jni.Texts.{
  split_first-append, split_last-append, params_text, params_descriptor, IsType,
  param_loop-params_text, length-params_text,
}

-- A method: its class by the dotted name.
pub record Method : Type 0 where
  pub returns : JavaType
  pub class_name : List ℕ
  pub method_name : List ℕ
  pub params : List JavaType

-- Neither name has a parenthesis, and the method's own name has no dot.
abbrev pub IsMethod : Method → Type 0
IsMethod m =
    IsType m.returns
    × All IsType m.params
    × All (λ c. c ≢ b'(') m.class_name
    × All (λ c. (c ≢ b'(') × (c ≢ b'.')) m.method_name

-- ArtMethod::PrettyMethod(true), such as `void com.example.Foo.bar(int, long)`.
unfoldable pub method_text : Method → List ℕ
method_text m =
    (type_text m.returns ++ b' ' ∷ (m.class_name ++ b'.' ∷ m.method_name))
    ++ b'(' ∷ (params_text m.params ++ b')' ∷ [])

-- JNI's descriptor of a method.
unfoldable pub method_descriptor : Method → List ℕ
method_descriptor m = b'(' ∷ params_descriptor m.params ++ b')' ∷ type_descriptor m.returns

method_parts-method_text :
    (m : Method)
    → IsMethod m
    → method_parts (method_text m)
      ≡ some (record {
        ret_type = type_text m.returns;
        class_name = m.class_name;
        method_name = m.method_name;
        after_paren = params_text m.params ++ b')' ∷ [];
      })
unfolding method_parts method_text
method_parts-method_text m h =
    let returns = type_text-All m.returns h.0 in
    let name_at = m.class_name ++ b'.' ∷ m.method_name in
    let names : All (λ c. c ≢ b'(') (b' ' ∷ name_at) = (
      omega arith,
      All-append (λ c. c ≢ b'(') m.class_name (b'.' ∷ m.method_name) h.2
          (omega arith, All-map _ _ m.method_name (λ x p. p.0) h.3),
    ) in
    let before : All (λ c. c ≢ b'(') (type_text m.returns ++ b' ' ∷ name_at) =
      All-append (λ c. c ≢ b'(') (type_text m.returns) (b' ' ∷ name_at)
        (All-map IsTypeChar _ (type_text m.returns) (λ x p. p.2) returns) names in
    let spaces = All-map IsTypeChar (λ c. c ≢ b' ') (type_text m.returns) (λ x p. p.0) returns in
    let dots = All-map _ (λ c. c ≢ b'.') m.method_name (λ x p. p.1) h.3 in
    rw
      (split_first-append b'(' (type_text m.returns ++ b' ' ∷ name_at)
        (params_text m.params ++ b')' ∷ []) before)
      (rw (split_first-append b' ' (type_text m.returns) name_at spaces)
        (rw (split_last-append b'.' m.class_name m.method_name dots)))

-- parsePrettyMethod reads what ART prints of a method: the class with slashes, the name, and the JNI
-- descriptor of its parameters and of what it returns.
pub parse_pretty_method-method_text :
    (m : Method)
    → IsMethod m
    → parse_pretty_method (method_text m)
      ≡ some (record {
        class_name = dot_to_slash m.class_name;
        method_name = m.method_name;
        signature = method_descriptor m;
      })
unfolding parse_pretty_method method_descriptor method_of params_of
parse_pretty_method-method_text m h =
    let close = split_last-append b')' (params_text m.params) [] tt in
    let fits = length-params_text m.params h.1 in
    let sigs =
      param_loop-params_text m.params (suc (length (params_text m.params))) h.1
        (omega (arith, fits)) in
    rw (method_parts-method_text m h)
      (rw (close, method_of, params_of) (rw (sigs, class_name_to_sig-type_text m.returns h.0)))

-- A field.
pub record Field : Type 0 where
  pub field_type : JavaType
  pub class_name : List ℕ
  pub field_name : List ℕ

-- ArtField::PrettyField(true), such as `int com.example.Foo.count`.
unfoldable pub field_text : Field → List ℕ
field_text f = type_text f.field_type ++ b' ' ∷ (f.class_name ++ b'.' ∷ f.field_name)

-- parsePrettyField reads what ART prints of a field whose name has no dot: the class with slashes, the
-- name, and the JNI descriptor of its type.
pub parse_pretty_field-field_text :
    (f : Field)
    → IsType f.field_type
    → All (λ c. c ≢ b'.') f.field_name
    → parse_pretty_field (field_text f) ≡ record {
      class_name = dot_to_slash f.class_name;
      field_name = f.field_name;
      type_sig = type_descriptor f.field_type;
    }
unfolding parse_pretty_field field_parts field_text
parse_pretty_field-field_text f h names =
    let all = type_text-All f.field_type h in
    let chars = All-map IsTypeChar (λ c. c ≢ b' ') (type_text f.field_type) (λ x p. p.0) all in
    let rest = f.class_name ++ b'.' ∷ f.field_name in
    let space = split_first-append b' ' (type_text f.field_type) rest chars in
    let dot = split_last-append b'.' f.class_name f.field_name names in
    rw (space, parse_pretty_field, field_parts)
      (rw (dot, class_name_to_sig-type_text f.field_type h))

-- sigReturnType reads off the descriptor of what a method returns.
pub sig_return_type-method_descriptor :
    (m : Method) → IsMethod m → sig_return_type (method_descriptor m) ≡ type_descriptor m.returns
unfolding sig_return_type method_descriptor
sig_return_type-method_descriptor m h = rw (
    split_last-append b')' (b'(' ∷ params_descriptor m.params) (type_descriptor m.returns)
      (type_descriptor-All m.returns h.0))
