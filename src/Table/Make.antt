-- ===== src/Table/Make.antt =====
-- `Table::make_record` of src/observer/storage/common/table.cpp, which lays the values of an INSERT out
-- in a record, with `value_validation` of sql/parser/parse.cpp. Parameters are the day that
-- `DateValue::validate_data_format` and `to_raw_data` find in a text, and the number of records that
-- `do_unique_select` selects by a value of a column, if it succeeds.
pub mod Checks
pub mod Reads
use Prim.Native.String.{String}
use text.Mathlib.Text.{◌==◌ as same_string}
use miniob.Base.{
  ℕ, zero, suc, ◌+◌, ◌-◌, ◌%◌, ◌^◌, Bool, true, false, not, ◌&&◌, ◌||◌, Option, none, some, List,
  [], ◌∷◌, ◌==◌, if◌then◌else◌, Memory, memcpy, memset, write_u32,
}
use miniob.Rc.{
  Outcome, ok, err, ◌>>=◌, invalid_argument, schema_field_missing, schema_field_type_mismatch,
  schema_index_exist,
}
use miniob.Index.{AttrType}
use miniob.Meta.{FieldMeta}

-- parse_defs.h: a value and the bytes from its pointer on.
pub record Value : Type 0 where
  pub type : AttrType
  pub bytes : Memory

abbrev pub same_type : AttrType → AttrType → Bool
same_type AttrType.undefined AttrType.undefined = true
same_type AttrType.chars AttrType.chars = true
same_type AttrType.ints AttrType.ints = true
same_type AttrType.date AttrType.date = true
same_type AttrType.floats AttrType.floats = true
same_type AttrType.texts AttrType.texts = true
same_type AttrType.nulls AttrType.nulls = true
same_type _ _ = false

abbrev pub is_nulls : Value → Bool
is_nulls value = same_type value.type AttrType.nulls

-- Whether the types match, and the value after the call: a text for a date becomes a date.
unfoldable pub type_match : AttrType → Value → Bool × Value
type_match field_type value =
    if same_type field_type value.type
    then (true, value)
    else if same_type field_type AttrType.date && same_type value.type AttrType.chars
    then (true, record value { type = AttrType.date })
    else (false, value)

-- The value of a field in the record.
unfoldable pub store_value : Memory → FieldMeta → Value → Memory
store_value rec field value =
    if field.nullable
    then if is_nulls value
      then memset (write_u32 rec field.attr_offset 1) (field.attr_offset + 4) 0 (field.attr_len - 4)
      else memcpy (write_u32 rec field.attr_offset 0) (field.attr_offset + 4) value.bytes
          (field.attr_len - 4)
    else memcpy rec field.attr_offset value.bytes field.attr_len

-- The last loop of `make_record`.
unfoldable pub store_values : Memory → List FieldMeta → List Value → Memory
store_values rec (field ∷ fields) (value ∷ values) =
    store_values (store_value rec field value) fields values
store_values rec _ _ = rec

module _ (date_of : Memory → Option ℕ) where
  -- The value whose text is a day has the day written over its first four bytes.
  unfoldable pub value_validation : Value → Option Value
  value_validation value =
      if same_type value.type AttrType.date
      then elim (date_of value.bytes) [
        | some day ↦ some (record value { bytes = write_u32 value.bytes 0 (day % 2 ^ 32) })
        | none ↦ none
      ]
      else some value

  abbrev pub validated : Option Value → Outcome Value
  validated none = err invalid_argument
  validated (some value) = ok value

  -- One round of the first loop.
  unfoldable pub check_value : FieldMeta → Value → Outcome Value
  check_value field value =
      let (matched, typed) = type_match field.attr_type value in
      let checked = validated (value_validation typed) in
      if not field.nullable && is_nulls value
      then err schema_field_type_mismatch
      else if not matched && (not field.nullable || not (is_nulls typed))
      then err schema_field_type_mismatch
      else checked

  abbrev pub with_value : Value → List Value → Outcome (List Value)
  with_value value values = ok (value ∷ values)

  -- The first loop; the values after it.
  unfoldable pub check_values : List FieldMeta → List Value → Outcome (List Value)
  check_values [] [] = ok []
  check_values (field ∷ fields) (value ∷ values) =
      let rest = check_values fields values in
      check_value field value >>= λ checked. rest >>= with_value checked
  check_values _ _ = ok []

-- `value_num + sys_field_num() == field_num()`
abbrev pub same_length {ℓ κ} : {A : Type ℓ} {B : Type κ} → List A → List B → Bool
same_length [] [] = true
same_length (field ∷ fields) (value ∷ values) = same_length fields values
same_length _ _ = false

-- One round of the inner loop of `find_if_exist_unique_record`: the first field of an index is
-- compared with the column's name.
abbrev is_duplicate : Option ℕ → Bool
is_duplicate none = true
is_duplicate (some size) = not (size == 0)

module _ (do_unique_select : Value → String → Option ℕ) (unique_fields : List String) where
  -- `unique_fields` are the first fields of the unique indexes.
  unfoldable pub has_unique : List String → Value → FieldMeta → Bool
  has_unique [] value field = false
  has_unique (name ∷ names) value field =
      let rest = has_unique names value field in
      if same_string name field.name && is_duplicate (do_unique_select value field.name)
      then true
      else rest

  unfoldable pub find_if_exist_unique_record : List FieldMeta → List Value → Bool
  find_if_exist_unique_record (field ∷ fields) (value ∷ values) =
      let rest = find_if_exist_unique_record fields values in
      if has_unique unique_fields value field then true else rest
  find_if_exist_unique_record _ _ = false

  -- `make_record` on the fields after the transaction's one. The bytes of the new record are 0.
  unfoldable pub make_record : (Memory → Option ℕ) → List FieldMeta → List Value → Outcome Memory
  make_record date_of fields values =
      let checked = check_values date_of fields values in
      let made = checked >>= λ ready.
      if find_if_exist_unique_record fields ready
      then err schema_index_exist
      else ok (store_values (λ i. 0) fields ready) in
      if same_length fields values then made else err schema_field_missing

-- `RecordUpdater::make_record`: the new value over the old record.
unfoldable pub update_value : Memory → FieldMeta → Value → Memory
update_value old field value = memcpy old field.attr_offset value.bytes field.attr_len
