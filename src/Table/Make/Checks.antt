-- ===== src/Table/Make/Checks.antt =====
-- What `make_record` makes of the values before it stores them.
use miniob.Base.{
  ℕ, ◌%◌, ◌^◌, ◌<◌, ◌≡◌, refl, sym, ap, ◌∙◌, ◌⊎◌, inl, inr, true, false, not, ◌&&◌, Bool-cases,
  Option-cases, Option, none, some, List, [], ◌∷◌, arith, Memory, read_u32, read-write_u32, Bool,
  ◌||◌,
}
use miniob.Index.{AttrType}
use miniob.Rc.{ok, ◌>>=◌}
use miniob.Meta.{FieldMeta}
use miniob.Rc.Results.{bind-ok, ok-injective}
use miniob.Table.Make.{
  Value, same_type, is_nulls, type_match, value_validation, validated, with_value, check_value,
  check_values,
}

some-injective {ℓ} : {A : Type ℓ} (a b : A) → some a ≡ some b → a ≡ b
some-injective a b h = cc

below_word : (n : ℕ) → n % 2 ^ 32 < 4294967296
below_word n = omega arith

same_type-eq : (a b : AttrType) → same_type a b ≡ true → a ≡ b
same_type-eq a b h = ground arith

-- The value is a text, or the bytes of a date, for a date column.
abbrev pub is_day : FieldMeta → Value → Bool
is_day field value = same_type field.attr_type AttrType.date && not (is_nulls value)

-- The column takes a value of this type.
abbrev pub is_taken : FieldMeta → Value → Bool
is_taken field value =
    same_type field.attr_type value.type
    || (same_type field.attr_type AttrType.date && same_type value.type AttrType.chars)
    || (field.nullable && is_nulls value)

-- What the second test of `check_value` refuses.
abbrev mismatched : FieldMeta → Bool × Value → Bool
mismatched field (matched, typed) = not matched && (not field.nullable || not (is_nulls typed))

module _ (field : FieldMeta) (value : Value) where
  type_match-keeps :
      (is_nulls (type_match field.attr_type value).1 ≡ is_nulls value)
      × ((type_match field.attr_type value).1.bytes ≡ value.bytes)
  unfolding type_match
  type_match-keeps = ground arith

  type_match-is_taken :
      mismatched field (type_match field.attr_type value) ≡ false → is_taken field value ≡ true
  unfolding type_match
  type_match-is_taken h = ground arith

  type_match-is_day :
      mismatched field (type_match field.attr_type value) ≡ false
      → same_type (type_match field.attr_type value).1.type AttrType.date ≡ is_day field value
  unfolding type_match
  type_match-is_day h = ground (
    arith,
    same_type-eq field.attr_type value.type,
    same_type-eq field.attr_type AttrType.date,
    same_type-eq value.type AttrType.date,
    same_type-eq value.type AttrType.nulls,
  )

  type_match-same :
      is_day field value ≡ false
      → mismatched field (type_match field.attr_type value) ≡ false
      → (type_match field.attr_type value).1 ≡ value
  unfolding type_match
  type_match-same d h = ground (arith, same_type-eq value.type AttrType.chars)

module _ (date_of : Memory → Option ℕ) where
  -- A value as it is stored: the column takes its type, a value for a date column has the day of its
  -- text in its first four bytes, and any other is unchanged.
  abbrev pub Ready : FieldMeta → Value → Value → Type 0
  Ready field value ready =
      ((is_nulls value && not field.nullable) ≡ false)
      × (is_taken field value ≡ true)
      × (is_nulls ready ≡ is_nulls value)
      × (((is_day field value ≡ false) × (ready ≡ value))
          ⊎ ((is_day field value ≡ true)
              × ((day : ℕ) × (date_of value.bytes ≡ some day)
                  × (read_u32 ready.bytes 0 ≡ day % 2 ^ 32))))

  validated-other :
      (value ready : Value)
      → same_type value.type AttrType.date ≡ false
      → value_validation date_of value ≡ some ready
      → ready ≡ value
  unfolding value_validation
  validated-other value ready e h = sym (some-injective value ready (rw e at h))

  validated_date :
      (value ready : Value)
      → same_type value.type AttrType.date ≡ true
      → value_validation date_of value ≡ some ready
      → (ready.type ≡ value.type)
        × ((day : ℕ) × (date_of value.bytes ≡ some day) × (read_u32 ready.bytes 0 ≡ day % 2 ^ 32))
  unfolding value_validation
  validated_date value ready e h = elim (Option-cases (date_of value.bytes)) [
    | inl n ↦ absurd (cc (rw (e, n) at h))
    | inr (day, d) ↦
        rw (sym (some-injective _ ready (rw (e, d) at h)))
          (refl, (day, d, read-write_u32 value.bytes 0 (day % 2 ^ 32) (below_word day)))
  ]

  validated-ok :
      (o : Option Value) (ready : Value) → validated date_of o ≡ ok ready → o ≡ some ready
  validated-ok none ready h = absurd (cc h)
  validated-ok (some value) ready h = cc h

  module _ (field : FieldMeta) (value ready : Value)
      (not_null : not field.nullable && is_nulls value ≡ false)
      (matches : mismatched field (type_match field.attr_type value) ≡ false)
      (h : value_validation date_of (type_match field.attr_type value).1 ≡ some ready) where
    day-Ready : is_day field value ≡ true → Ready field value ready
    day-Ready d =
        let (n, b) = type_match-keeps field value in
        let (t, (day, found, stored)) =
          validated_date (type_match field.attr_type value).1 ready
            (type_match-is_day field value matches ∙ d) h in
        (
          ground arith,
          type_match-is_taken field value matches,
          ap (λ t. same_type t AttrType.nulls) t ∙ n,
          inr (d, (day, ap date_of (sym b) ∙ found, stored)),
        )

    other-Ready : is_day field value ≡ false → Ready field value ready
    other-Ready d =
        let same =
          validated-other (type_match field.attr_type value).1 ready
            (type_match-is_day field value matches ∙ d) h
          ∙ type_match-same field value d matches in
        (
          ground arith,
          type_match-is_taken field value matches,
          ap (λ v. is_nulls v) same,
          inl (d, same),
        )

  check_value-Ready :
      (field : FieldMeta) (value ready : Value)
      → check_value date_of field value ≡ ok ready
      → Ready field value ready
  unfolding check_value
  check_value-Ready field value ready h = elim (Bool-cases (not field.nullable && is_nulls value)) [
    | inl e ↦ absurd (cc (rw e at h))
    | inr e ↦ elim (Bool-cases (mismatched field (type_match field.attr_type value))) [
      | inl m ↦ absurd (cc (rw m at (rw e at h)))
      | inr m ↦
          let k = validated-ok _ ready (rw m at (rw e at h)) in
          elim (Bool-cases (is_day field value)) [
            | inl d ↦ day-Ready field value ready e m k d
            | inr d ↦ other-Ready field value ready e m k d
          ]
    ]
  ]

  abbrev pub ReadyAll : List FieldMeta → List Value → List Value → Type 0
  ReadyAll (field ∷ fields) (value ∷ values) (ready ∷ others) =
      Ready field value ready × ReadyAll fields values others
  ReadyAll (field ∷ fields) (value ∷ values) [] = ⊥
  ReadyAll _ _ _ = Unit

  pub check_values-ReadyAll :
      (fields : List FieldMeta) (values ready : List Value)
      → check_values date_of fields values ≡ ok ready
      → ReadyAll fields values ready
  unfolding check_values
  check_values-ReadyAll [] values ready h = tt
  check_values-ReadyAll (field ∷ fields) [] ready h = tt
  check_values-ReadyAll (field ∷ fields) (value ∷ values) ready h =
      let (first, e, k) =
        bind-ok (check_value date_of field value)
          (λ checked. check_values date_of fields values >>= with_value date_of checked) ready h in
      let (others, e', k') =
        bind-ok (check_values date_of fields values) (with_value date_of first) ready k in
      rw (sym (ok-injective (first ∷ others) ready k'))
        (check_value-Ready field value first e, check_values-ReadyAll fields values others e')
