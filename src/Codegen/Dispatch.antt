-- ===== src/Codegen/Dispatch.antt =====
-- codegen/src/dispatch.rs: the registry of the C functions that webgpu.yml declares. A `BTreeMap` is
-- the list of its entries, the last inserted first, found by the symbol.
pub mod Registered
use webgpu_native_js.Prelude.{
  ◌+◌, String, Bool, Option, none, some, List, [], ◌∷◌, ◌++◌, ◌==◌, if◌then◌else◌,
}
use webgpu_native_js.Codegen.{
  Name, chars, is_name, strip_prefix, unwrap_or, snake_case, pascal_case, c_type_name,
  c_function_name,
}

-- CodegenError, by the message it is made with
pub data CodegenError : Type 0 where
  duplicate_symbol no_symbol no_extra duplicate_extra lost_interface no_c_object :
      Name → CodegenError
  not_joined dead_skip duplicate_skip : Name → Name → CodegenError
  empty_reason : String → CodegenError
  dead_interface duplicate_interface : String → Name → CodegenError
  wrong_skips overlapping wrong_extras unaccounted : CodegenError

pub data Generated {ℓ} (A : Type ℓ) : Type ℓ where
  done : A → Generated A
  failed : CodegenError → Generated A

abbrev pub next {ℓ κ} : {A : Type ℓ} {B : Type κ} → (A → Generated B) → Generated A → Generated B
next f (failed error) = failed error
next f (done a) = f a

-- RustType: its base, and how it points to it
pub record RustType : Type 0 where
  pub base : Name
  pub pointer : Option Name

abbrev pub plain : Name → RustType
plain base = record { base = base; pointer = none }

pub record DispatchEntry : Type 0 where
  pub field : Name
  pub symbol : Name
  pub args : List (Name × RustType)
  pub result : Option RustType

pub record YamlValue : Type 0 where
  pub name : Name
  pub type_name : Option Name
  pub pointer : Option Name

pub record YamlFunction : Type 0 where
  pub name : Name
  pub returns : Option YamlValue
  pub args : List YamlValue
  pub callback : Option Name

pub record YamlStruct : Type 0 where
  pub name : Name
  pub free_members : Bool

pub record YamlObject : Type 0 where
  pub name : Name
  pub methods : List YamlFunction

pub record YamlRoot : Type 0 where
  pub structs : List YamlStruct
  pub functions : List YamlFunction
  pub objects : List YamlObject

abbrev pub field_name : Name → Name
field_name symbol = snake_case (unwrap_or symbol (strip_prefix (chars "wgpu") symbol))

-- The `match` on a base, with its last arm
abbrev pub base_name : List (String × String) → Name → Name
base_name [] base = base
base_name ((yaml, rust) ∷ names) base =
    let other = base_name names base in if is_name base (chars yaml) then chars rust else other

abbrev pub base_names : List (String × String)
base_names =
    ("uint16", "u16")
    ∷ ("uint32", "u32")
    ∷ ("uint64", "u64")
    ∷ ("int16", "i16")
    ∷ ("int32", "i32")
    ∷ ("int64", "i64")
    ∷ ("usize", "usize")
    ∷ ("bool", "WGPUBool")
    ∷ ("float32", "f32")
    ∷ ("float64", "f64")
    ∷ ("string", "WGPUStringView")
    ∷ ("string_with_default_empty", "WGPUStringView")
    ∷ ("nullable_string", "WGPUStringView")
    ∷ ("out_string", "WGPUStringView")
    ∷ ("c_void", "c_void")
    ∷ ("void", "c_void")
    ∷ []

abbrev pub and_then_some {ℓ κ} : {A : Type ℓ} {B : Type κ} → (A → Option B) → Option A → Option B
and_then_some f none = none
and_then_some f (some a) = f a

-- `strip_suffix('>')`
abbrev pub strip_angle : Name → Option Name
strip_angle [] = none
strip_angle (c ∷ []) = if c == 0x3e then some [] else none
strip_angle (c ∷ d ∷ cs) = and_then_some (λ rest. some (c ∷ rest)) (strip_angle (d ∷ cs))

abbrev pub or_else {ℓ} : {A : Type ℓ} → Option A → Option A → Option A
or_else none b = b
or_else (some a) b = some a

abbrev pub source_of : YamlValue → Name
source_of value = unwrap_or (chars "void") value.type_name

abbrev pub array_item : Name → Option Name
array_item source = strip_prefix (chars "array<") source

abbrev pub base_of : Name → Option Name → Name
base_of base none = base_name base_names base
base_of base (some name) = c_type_name name

abbrev pub kind_of : Name → Option Name
kind_of base = or_else (strip_prefix (chars "object.") base) (
    or_else (strip_prefix (chars "struct.") base)
      (or_else (strip_prefix (chars "enum.") base) (strip_prefix (chars "bitflag.") base)))

abbrev pub pointer_of : Option Name → Option Name → Option Name
pointer_of none pointer = pointer
pointer_of (some item) pointer = some (unwrap_or (chars "immutable") pointer)

abbrev pub value_type : YamlValue → RustType
value_type value =
    let source = source_of value in
    let base = unwrap_or source (and_then_some strip_angle (array_item source)) in
    record {
      base = base_of base (kind_of base);
      pointer = pointer_of (array_item source) value.pointer;
    }

abbrev pub counted : YamlValue → Option Name → List (Name × RustType)
counted value none = []
counted value (some item) = (snake_case value.name ++ chars "_count", plain (chars "usize")) ∷ []

abbrev pub append_argument : List (Name × RustType) → YamlValue → List (Name × RustType)
append_argument args value =
    args
    ++ counted value (array_item (source_of value))
    ++ ((snake_case value.name, value_type value) ∷ [])

abbrev pub append_arguments : List (Name × RustType) → List YamlValue → List (Name × RustType)
append_arguments args [] = args
append_arguments args (value ∷ values) = append_arguments (append_argument args value) values

abbrev pub function_symbol : Option Name → Name → Name
function_symbol none name = chars "wgpu" ++ pascal_case name
function_symbol (some object) name = c_function_name object name

abbrev pub receiver : Option Name → List (Name × RustType)
receiver none = []
receiver (some object) = (snake_case object, plain (c_type_name object)) ∷ []

abbrev pub callback_argument : Option Name → List (Name × RustType)
callback_argument none = []
callback_argument (some callback) =
    let name = unwrap_or callback (strip_prefix (chars "callback.") callback) in
    (chars "callback_info", plain (chars "WGPU" ++ pascal_case name ++ chars "CallbackInfo")) ∷ []

abbrev pub result_type : Option Name → Option YamlValue → Option RustType
result_type none returns = and_then_some (λ value. some (value_type value)) returns
result_type (some callback) returns = some (plain (chars "WGPUFuture"))

abbrev pub function_entry : Option Name → YamlFunction → DispatchEntry
function_entry object function =
    let symbol = function_symbol object function.name in
    record {
      field = field_name symbol;
      symbol = symbol;
      args =
          append_arguments (receiver object) function.args ++ callback_argument function.callback;
      result = result_type function.callback function.returns;
    }

-- The entries of a call with one argument and no result
abbrev pub unary_entry : Name → Name → DispatchEntry
unary_entry name symbol = record {
  field = field_name symbol;
  symbol = symbol;
  args = (snake_case name, plain (c_type_name name)) ∷ [];
  result = none;
}

abbrev pub get : List DispatchEntry → Name → Option DispatchEntry
get [] symbol = none
get (e ∷ es) symbol = let rest = get es symbol in if is_name symbol e.symbol then some e else rest

abbrev pub inserted :
    List DispatchEntry → DispatchEntry → Option DispatchEntry → Generated (List DispatchEntry)
inserted entries entry none = done (entry ∷ entries)
inserted entries entry (some old) = failed (duplicate_symbol entry.symbol)

unfoldable pub insert_entry : List DispatchEntry → DispatchEntry → Generated (List DispatchEntry)
insert_entry entries entry = inserted entries entry (get entries entry.symbol)

abbrev pub add_functions :
    Option Name → List YamlFunction → List DispatchEntry → Generated (List DispatchEntry)
add_functions object [] entries = done entries
add_functions object (f ∷ fs) entries =
    next (add_functions object fs) (insert_entry entries (function_entry object f))

abbrev pub free_symbol : Name → Name
free_symbol name = chars "wgpu" ++ pascal_case name ++ chars "FreeMembers"

abbrev pub add_structs : List YamlStruct → List DispatchEntry → Generated (List DispatchEntry)
add_structs [] entries = done entries
add_structs (s ∷ ss) entries = next (add_structs ss) (
    if s.free_members
    then insert_entry entries (unary_entry s.name (free_symbol s.name))
    else done entries)

abbrev pub counting_symbol : Name → String → Name
counting_symbol name suffix = chars "wgpu" ++ pascal_case name ++ chars suffix

abbrev pub add_counting : Name → List String → List DispatchEntry → Generated (List DispatchEntry)
add_counting name [] entries = done entries
add_counting name (suffix ∷ suffixes) entries =
    next (add_counting name suffixes)
      (insert_entry entries (unary_entry name (counting_symbol name suffix)))

abbrev pub add_objects : List YamlObject → List DispatchEntry → Generated (List DispatchEntry)
add_objects [] entries = done entries
add_objects (o ∷ os) entries = next (add_objects os) (
    next (add_counting o.name ("AddRef" ∷ "Release" ∷ []))
      (add_functions (some o.name) o.methods entries))

unfoldable pub dispatch_registry : YamlRoot → Generated (List DispatchEntry)
unfolding insert_entry
dispatch_registry yaml =
    next (add_objects yaml.objects)
      (next (add_structs yaml.structs) (add_functions none yaml.functions []))
