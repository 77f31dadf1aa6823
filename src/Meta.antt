-- ===== src/Meta.antt =====
-- src/observer/storage/common/field_meta.cpp and table_meta.cpp: the fields of a table. An int that
-- can be negative is a 32-bit pattern; the null pointer to a name is the empty name.
pub mod Offsets
use Prim.Native.String.{String}
use text.Mathlib.Text.{◌==◌ as same_string}
use miniob.Base.{
  ℕ, ◌+◌, ◌%◌, ◌^◌, Bool, true, false, not, ◌||◌, Option, none, some, List, [], ◌∷◌, ◌++◌, leb,
  ◌==◌, if◌then◌else◌,
}
use miniob.Rc.{Outcome, ok, err, ◌>>=◌, invalid_argument}
use miniob.Index.{AttrType}

-- parse_defs.h: an attribute of CREATE TABLE; `length` is a size_t.
pub record AttrInfo : Type 0 where
  pub name : String
  pub type : AttrType
  pub length : ℕ
  pub null_type : ℕ

pub record FieldMeta : Type 0 where
  pub name : String
  pub attr_type : AttrType
  pub attr_offset : ℕ
  pub attr_len : ℕ
  pub visible : Bool
  pub nullable : Bool

-- Without the indexes, which the table keeps too.
pub record TableMeta : Type 0 where
  pub name : String
  pub fields : List FieldMeta
  pub record_size : ℕ

abbrev pub is_undefined : AttrType → Bool
is_undefined AttrType.undefined = true
is_undefined _ = false

-- `attr_offset < 0 || attr_len <= 0`
abbrev pub bad_extent : ℕ → ℕ → Bool
bad_extent attr_offset attr_len = leb (2 ^ 31) attr_offset || attr_len == 0 || leb (2 ^ 31) attr_len

-- `FieldMeta::init`
unfoldable pub init_field : String → AttrType → ℕ → ℕ → Bool → Bool → Outcome FieldMeta
init_field name attr_type attr_offset attr_len visible null_def =
    if same_string name ""
    then err invalid_argument
    else if is_undefined attr_type || bad_extent attr_offset attr_len
    then err invalid_argument
    else ok (record {
      name = name;
      attr_type = attr_type;
      attr_offset = attr_offset;
      attr_len = attr_len;
      visible = visible;
      nullable = null_def;
    })

-- The field of `Trx::trx_field_name`, `trx_field_type` and `trx_field_len`.
unfoldable pub init_sys_fields : Outcome (List FieldMeta)
init_sys_fields = init_field "__trx" AttrType.ints 0 4 false false >>= λ field. ok (field ∷ [])

abbrev pub with_field : FieldMeta → List FieldMeta × ℕ → Outcome (List FieldMeta × ℕ)
with_field field (fields, field_offset) = ok (field ∷ fields, field_offset)

-- The loop of `TableMeta::init` over the attributes: their fields and the offset after them.
unfoldable pub init_fields : ℕ → List AttrInfo → Outcome (List FieldMeta × ℕ)
init_fields field_offset [] = ok ([], field_offset)
init_fields field_offset (attr_info ∷ attributes) =
    let rest = init_fields ((field_offset + attr_info.length) % 2 ^ 32) attributes in
    let nullable = not (attr_info.null_type == 0) in
    let field =
      init_field attr_info.name attr_info.type field_offset (attr_info.length % 2 ^ 32) true
        nullable in
    field >>= λ f. rest >>= with_field f

-- `sys_fields_.empty()` calls `init_sys_fields`.
abbrev pub ensure_sys_fields : List FieldMeta → Outcome (List FieldMeta)
ensure_sys_fields [] = init_sys_fields
ensure_sys_fields (f ∷ fields) = ok (f ∷ fields)

-- The offset after the last field.
abbrev pub end_of_fields : List FieldMeta → ℕ
end_of_fields [] = 0
end_of_fields (f ∷ []) = (f.attr_offset + f.attr_len) % 2 ^ 32
end_of_fields (f ∷ g ∷ fields) = end_of_fields (g ∷ fields)

abbrev pub init_with :
    String → List FieldMeta → List FieldMeta × ℕ → Outcome (List FieldMeta × TableMeta)
init_with name sys_fields (fields, field_offset) =
    ok (
      sys_fields,
      record { name = name; fields = sys_fields ++ fields; record_size = field_offset },
    )

-- `TableMeta::init`, with the static `sys_fields_` before and after it. A table whose metadata are
-- refused is dropped with what they hold by then.
unfoldable pub init : List FieldMeta → String → List AttrInfo → Outcome (List FieldMeta × TableMeta)
init sys_fields name [] = err invalid_argument
init sys_fields name (a ∷ attributes) =
    if same_string name ""
    then err invalid_argument
    else ensure_sys_fields sys_fields >>= λ sys.
        init_fields (end_of_fields sys) (a ∷ attributes) >>= init_with name sys

-- `TableMeta::field(const char *)` and `find_field_by_offset`, which look for the first field.
unfoldable pub field_named : List FieldMeta → String → Option FieldMeta
field_named [] name = none
field_named (f ∷ fields) name = if same_string f.name name then some f else field_named fields name

unfoldable pub find_field_by_offset : List FieldMeta → ℕ → Option FieldMeta
find_field_by_offset [] offset = none
find_field_by_offset (f ∷ fields) offset =
    if f.attr_offset == offset then some f else find_field_by_offset fields offset
