-- ===== src/Jni/Runs.antt =====
-- Runs of the parsers of trace/src/JniTrace.cpp.
use android_prybar.Base.{◌≡◌, refl, some, [], ◌∷◌, arith, bytes_of}
use android_prybar.Jni.{
  dot_to_slash, text_eq, primitive_sig, object_sig, strip_arrays, starts_with, ends_in_array,
  base_sig, class_name_to_sig, split_first, split_last, skip_spaces, param_loop, method_parts,
  params_of, method_of, parse_pretty_method, parse_pretty_field,
}
use android_prybar.Jni.Types.{
  byte_type, int_type, class_type, JavaType, IsElement, element_text, element_descriptor, with_dims,
  type_text, type_descriptor,
}
use android_prybar.Jni.Sig.{class_name_to_sig-type_text}
use android_prybar.Jni.Texts.{params_text, params_descriptor}
use android_prybar.Jni.Pretty.{
  Method, IsMethod, method_text, method_descriptor, parse_pretty_method-method_text, Field,
  field_text, parse_pretty_field-field_text,
}

-- `java.lang.String[] com.example.Foo.bar(int, java.lang.String, byte[][])`
abbrev string_type : JavaType
string_type = record { element = class_type (bytes_of "java.lang.String"); dims = 1 }

abbrev bar : Method
bar = record {
  returns = string_type;
  class_name = bytes_of "com.example.Foo";
  method_name = bytes_of "bar";
  params =
      record { element = int_type; dims = 0 }
      ∷ record { element = class_type (bytes_of "java.lang.String"); dims = 0 }
      ∷ record { element = byte_type; dims = 2 }
      ∷ [];
}

bar_text :
    method_text bar
    ≡ bytes_of "java.lang.String[] com.example.Foo.bar(int, java.lang.String, byte[][])"
unfolding method_text type_text with_dims element_text params_text
bar_text = refl

bar_descriptor : method_descriptor bar ≡ bytes_of "(ILjava/lang/String;[[B)[Ljava/lang/String;"
unfolding method_descriptor params_descriptor type_descriptor element_descriptor dot_to_slash
bar_descriptor = refl

-- A constructor that takes nothing, with a space between the parentheses.
init_parsed :
    parse_pretty_method (bytes_of "void A.B.<init>( )")
    ≡ some (record {
      class_name = bytes_of "A/B";
      method_name = bytes_of "<init>";
      signature = bytes_of "()V";
    })
unfolding parse_pretty_method method_parts method_of params_of split_first split_last param_loop
    skip_spaces dot_to_slash class_name_to_sig primitive_sig text_eq strip_arrays ends_in_array
    starts_with base_sig object_sig
init_parsed = refl

class_chars : IsElement (class_type (bytes_of "java.lang.String"))
class_chars = (omega arith, omega arith, unfold primitive_sig text_eq in refl)

bar-IsMethod : IsMethod bar
bar-IsMethod = (class_chars, (tt, (class_chars, (tt, tt))), omega arith, omega arith)

parse_pretty_method-method_text_example :
    parse_pretty_method (method_text bar)
    ≡ some (record {
      class_name = dot_to_slash bar.class_name;
      method_name = bar.method_name;
      signature = method_descriptor bar;
    })
parse_pretty_method-method_text_example = parse_pretty_method-method_text bar bar-IsMethod

abbrev count_field : Field
count_field = record {
  field_type = string_type;
  class_name = bytes_of "com.example.Foo";
  field_name = bytes_of "count";
}

parse_pretty_field-field_text_example : parse_pretty_field (field_text count_field) ≡ record {
  class_name = dot_to_slash count_field.class_name;
  field_name = count_field.field_name;
  type_sig = type_descriptor string_type;
}
parse_pretty_field-field_text_example =
    parse_pretty_field-field_text count_field class_chars (omega arith)

class_name_to_sig-type_text_example :
    class_name_to_sig (type_text string_type) ≡ type_descriptor string_type
class_name_to_sig-type_text_example = class_name_to_sig-type_text string_type class_chars
