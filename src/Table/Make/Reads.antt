-- ===== src/Table/Make/Reads.antt =====
-- The values of an INSERT are read back from the record as conditions read its fields.
use Prim.Native.String.{String}
use miniob.Base.{
  ℕ, ◌+◌, ◌≤◌, ◌<◌, ◌≡◌, refl, sym, ◌∙◌, ◌⊎◌, inl, inr, true, false, not, ◌&&◌, Bool-cases, Option,
  List, [], ◌∷◌, ◌==◌, if◌then◌else◌, arith, Memory, memcpy, memset, read_u32, write_u32,
}
use miniob.Rc.{ok}
use miniob.Record.{Rid, Record}
use miniob.Filter.{FieldType, ConDesc, is_null, value_of}
use miniob.Meta.{FieldMeta}
use miniob.Meta.Offsets.{Consecutive}
use miniob.Rc.Results.{bind-ok, ok-injective, guard-ok}
use miniob.Table.Make.{
  Value, is_nulls, store_value, store_values, check_values, make_record, same_length, update_value,
}
use miniob.Table.Make.Checks.{ReadyAll, check_values-ReadyAll}

-- A nullable field has room for its null flag.
abbrev pub HasFlagRoom : FieldMeta → Type 0
HasFlagRoom field = (if field.nullable then 4 else 0) ≤ field.attr_len

abbrev pub HaveFlagRoom : List FieldMeta → Type 0
HaveFlagRoom [] = Unit
HaveFlagRoom (field ∷ fields) = HasFlagRoom field × HaveFlagRoom fields

-- The side of a condition that is a field of the table.
abbrev pub side : FieldMeta → ConDesc
side field = record {
  type = FieldType.cond_field;
  refers_outer = false;
  attr_offset = field.attr_offset;
  value = λ i. 0;
  nullable = field.nullable;
  isnull = false;
}

-- A condition reads the value from the field: whether it is null, and its bytes if it is not.
abbrev pub Reads : Record → FieldMeta → Value → Type 0
Reads rec field value =
    (is_null rec (side field) ≡ (field.nullable && is_nulls value))
    × ((i : ℕ)
        → (field.nullable && is_nulls value) ≡ false
        → (if field.nullable then 4 else 0) + i < field.attr_len
        → value_of rec (side field) i ≡ value.bytes i)

abbrev pub ReadsAll : Record → List FieldMeta → List Value → Type 0
ReadsAll rec (field ∷ fields) (value ∷ values) = Reads rec field value × ReadsAll rec fields values
ReadsAll rec _ _ = Unit

store_value-outside :
    (m : Memory) (field : FieldMeta) (value : Value) (i : ℕ)
    → HasFlagRoom field
    → (i < field.attr_offset) ⊎ (field.attr_offset + field.attr_len ≤ i)
    → store_value m field value i ≡ m i
unfolding store_value memcpy memset write_u32
store_value-outside m field value i room h = ground arith

store_values-before :
    (m : Memory) (fields : List FieldMeta) (values : List Value) (start end i : ℕ)
    → Consecutive start fields end
    → HaveFlagRoom fields
    → i < start
    → store_values m fields values i ≡ m i
unfolding store_values
store_values-before m [] values start end i c r h = refl
store_values-before m (field ∷ fields) [] start end i c r h = refl
store_values-before m (field ∷ fields) (value ∷ values) start end i (o, p, c) (r, rs) h =
    store_values-before (store_value m field value) fields values (start + field.attr_len) end i c
      rs (omega arith)
    ∙ store_value-outside m field value i r (inl (omega arith))

flag-agree :
    (a b : Memory) (field : FieldMeta)
    → HasFlagRoom field
    → field.nullable ≡ true
    → ((i : ℕ) → i < field.attr_offset + field.attr_len → a i ≡ b i)
    → read_u32 a field.attr_offset ≡ read_u32 b field.attr_offset
unfolding read_u32
flag-agree a b field room n agree = ground (
  arith,
  agree field.attr_offset,
  agree (field.attr_offset + 1),
  agree (field.attr_offset + 2),
  agree (field.attr_offset + 3),
)

-- The flag of a nullable field.
store_value-flag :
    (m : Memory) (field : FieldMeta) (value : Value)
    → field.nullable ≡ true
    → read_u32 (store_value m field value) field.attr_offset ≡ (if is_nulls value then 1 else 0)
unfolding store_value read_u32 memcpy memset write_u32
store_value-flag m field value n = ground arith

-- Two records that agree on a field's bytes read the same.
Reads-agree :
    (a b : Record) (field : FieldMeta) (value : Value)
    → HasFlagRoom field
    → ((i : ℕ) → i < field.attr_offset + field.attr_len → a.bytes i ≡ b.bytes i)
    → Reads b field value
    → Reads a field value
unfolding is_null value_of
Reads-agree a b field value room agree (null, bytes) = (
  ground (arith, flag-agree a.bytes b.bytes field room),
  λ i n h.
      agree (field.attr_offset + (if field.nullable then 4 else 0) + i) (omega arith) ∙ bytes i n h,
)

store_value-Reads :
    (rid : Rid) (m : Memory) (field : FieldMeta) (value : Value)
    → HasFlagRoom field
    → Reads (record { rid = rid; bytes = store_value m field value }) field value
unfolding is_null value_of store_value memcpy
store_value-Reads rid m field value room =
    (ground (arith, store_value-flag m field value), λ i n h. ground (arith, room))

store_values-ReadsAll :
    (rid : Rid) (m : Memory) (fields : List FieldMeta) (values : List Value) (start end : ℕ)
    → Consecutive start fields end
    → HaveFlagRoom fields
    → ReadsAll (record { rid = rid; bytes = store_values m fields values }) fields values
unfolding store_values
store_values-ReadsAll rid m [] values start end c r = tt
store_values-ReadsAll rid m (field ∷ fields) [] start end c r = tt
store_values-ReadsAll rid m (field ∷ fields) (value ∷ values) start end (o, p, c) (r, rs) =
    let m' = store_value m field value in
    (
      Reads-agree (record { rid = rid; bytes = store_values m' fields values })
          (record { rid = rid; bytes = m' }) field value r
          (λ i h.
            store_values-before m' fields values (start + field.attr_len) end i c rs (omega arith))
          (store_value-Reads rid m field value r),
      store_values-ReadsAll rid m' fields values (start + field.attr_len) end c rs,
    )

-- A record that holds the values of an INSERT, each as `Ready` says: `ready` are the values stored.
abbrev pub Made : (Memory → Option ℕ) → Rid → List FieldMeta → List Value → Memory → Type 0
Made date_of rid fields values bytes =
    (ready : List Value) × (same_length fields values ≡ true)
    × ReadyAll date_of fields values ready
    × ReadsAll (record { rid = rid; bytes = bytes }) fields ready

-- When `make_record` makes a record, there were as many values as the table has fields, none of them
-- null for a field that is not nullable, and each of its field's type, a text for a date or null. A
-- condition on any of the fields then finds in it whether that value was null, and if it was not: in a
-- date column the day of the value's text, modulo 2 ^ 32, as its first four bytes, as far as they are
-- in the field, and in any other column the value's bytes; whatever bytes the neighbouring fields got.
-- The fields lie one behind the other, and a nullable one has four bytes for its flag.
pub make_record-Made :
    (do_unique_select : Value → String → Option ℕ) (unique_fields : List String)
    (date_of : Memory → Option ℕ) (fields : List FieldMeta) (values : List Value) (bytes : Memory)
    (start end : ℕ) (rid : Rid)
    → Consecutive start fields end
    → HaveFlagRoom fields
    → make_record do_unique_select unique_fields date_of fields values ≡ ok bytes
    → Made date_of rid fields values bytes
unfolding make_record
make_record-Made do_unique_select unique_fields date_of fields values bytes start end rid c r h =
    elim (Bool-cases (same_length fields values)) [
      | inl e ↦
          let (ready, e', k) = bind-ok (check_values date_of fields values) _ bytes (rw e at h) in
          let stored =
            ok-injective (store_values (λ i. 0) fields ready) bytes (guard-ok _ _ _ bytes k) in
          (
            ready,
            e,
            check_values-ReadyAll date_of fields values ready e',
            rw (sym stored) (store_values-ReadsAll rid (λ i. 0) fields ready start end c r),
          )
      | inr e ↦ absurd (cc (rw e at h))
    ]

-- An UPDATE of a nullable field, whose length is at least four, writes the value over the null flag: a
-- condition then takes the field for null if and only if the first four bytes of the value are not all
-- zero, and its value for what follows those four bytes.
pub update_value-null :
    (rid : Rid) (old : Memory) (field : FieldMeta) (value : Value)
    → field.nullable ≡ true
    → 4 ≤ field.attr_len
    → (is_null (record { rid = rid; bytes = update_value old field value }) (side field)
        ≡ not (read_u32 value.bytes 0 == 0))
      × ((i : ℕ)
          → i + 4 < field.attr_len
          → value_of (record { rid = rid; bytes = update_value old field value }) (side field) i
            ≡ value.bytes (i + 4))
unfolding is_null value_of update_value memcpy read_u32
update_value-null rid old field value n room = (ground arith, λ i h. ground arith)
