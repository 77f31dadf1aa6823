-- ===== src/Meta/Offsets.antt =====
-- The fields of a table lie one behind the other.
use Prim.Native.String.{String}
use text.Mathlib.Text.{◌==◌ as same_string}
use miniob.Base.{
  ℕ, ◌+◌, ◌%◌, ◌^◌, ◌<◌, ◌≡◌, refl, sym, ap, ◌⊎◌, inl, inr, Bool, true, false, not, List, [], ◌∷◌,
  ◌==◌, arith,
}
use miniob.Rc.{ok}
use miniob.Rc.Results.{bind-ok, bind-known, ok-injective, guard-ok}
use miniob.Index.{AttrType}
use miniob.Meta.{
  AttrInfo, FieldMeta, TableMeta, is_undefined, bad_extent, init_field, init_sys_fields,
  init_fields, with_field, ensure_sys_fields, init_with, init,
}

-- Each field begins where the one before it ends, and none is empty.
abbrev pub Consecutive : ℕ → List FieldMeta → ℕ → Type 0
Consecutive start [] end = start ≡ end
Consecutive start (f ∷ fields) end =
    (f.attr_offset ≡ start) × (0 < f.attr_len) × Consecutive (start + f.attr_len) fields end

-- The fields that a list of attributes stands for.
abbrev pub Describes : List AttrInfo → List FieldMeta → Type 0
Describes [] [] = Unit
Describes (a ∷ attributes) (f ∷ fields) =
    (f.name ≡ a.name)
    × (f.attr_type ≡ a.type)
    × (f.attr_len ≡ a.length % 2 ^ 32)
    × (f.nullable ≡ not (a.null_type == 0))
    × Describes attributes fields
Describes _ _ = ⊥

abbrev pub trx_field : FieldMeta
trx_field = record {
  name = "__trx";
  attr_type = AttrType.ints;
  attr_offset = 0;
  attr_len = 4;
  visible = false;
  nullable = false;
}

-- What the static `sys_fields_` can be.
abbrev pub IsSysFields : List FieldMeta → Type 0
IsSysFields sys_fields = (sys_fields ≡ []) ⊎ (sys_fields ≡ trx_field ∷ [])

-- Attributes that `FieldMeta::init` accepts, and whose fields end at `end`.
abbrev pub Fits : ℕ → List AttrInfo → ℕ → Type 0
Fits start [] end = start ≡ end
Fits start (a ∷ attributes) end =
    (same_string a.name "" ≡ false)
    × (is_undefined a.type ≡ false)
    × (0 < a.length)
    × (start + a.length < 2147483648)
    × Fits (start + a.length) attributes end

init_sys_fields-eq : init_sys_fields ≡ ok (trx_field ∷ [])
unfolding init_sys_fields init_field
init_sys_fields-eq = refl

-- A field that `FieldMeta::init` accepts.
abbrev Accepted : String → AttrType → ℕ → ℕ → Bool → Bool → FieldMeta → Type 0
Accepted name attr_type attr_offset attr_len visible null_def f =
    (f ≡ record {
      name = name;
      attr_type = attr_type;
      attr_offset = attr_offset;
      attr_len = attr_len;
      visible = visible;
      nullable = null_def;
    })
    × (attr_offset < 2147483648)
    × (0 < attr_len)
    × (attr_len < 2147483648)

init_field-Accepted :
    (name : String) (attr_type : AttrType) (attr_offset attr_len : ℕ) (visible null_def : Bool)
    (f : FieldMeta)
    → init_field name attr_type attr_offset attr_len visible null_def ≡ ok f
    → Accepted name attr_type attr_offset attr_len visible null_def f
unfolding init_field
init_field-Accepted name attr_type attr_offset attr_len visible null_def f h = ground arith

abbrev LaidOut : ℕ → List AttrInfo → List FieldMeta × ℕ → Type 0
LaidOut start attributes laid = Consecutive start laid.0 laid.1 × Describes attributes laid.0

no_wrap :
    (start len : ℕ)
    → start < 2147483648
    → len % 2 ^ 32 < 2147483648
    → start + len % 2 ^ 32 ≡ (start + len) % 2 ^ 32
no_wrap start len low high = omega arith

with_field-LaidOut :
    (start : ℕ) (a : AttrInfo) (attributes : List AttrInfo) (f : FieldMeta)
    (rest laid : List FieldMeta × ℕ)
    → Accepted a.name a.type start (a.length % 2 ^ 32) true (not (a.null_type == 0)) f
    → LaidOut ((start + a.length) % 2 ^ 32) attributes rest
    → with_field f rest ≡ ok laid
    → LaidOut start (a ∷ attributes) laid
with_field-LaidOut start a attributes f (fields, end) laid (e, low, positive, high) l h =
    rw (sym (ok-injective (f ∷ fields, end) laid h)) (
      (
        ap (λ g. g.attr_offset) e,
        rw (ap (λ g. g.attr_len) e) positive,
        rw (ap (λ g. g.attr_len) e, no_wrap start a.length low high) (l.0),
      ),
      (
        ap (λ g. g.name) e,
        ap (λ g. g.attr_type) e,
        ap (λ g. g.attr_len) e,
        ap (λ g. g.nullable) e,
        l.1,
      ),
    )

init_fields-LaidOut :
    (start : ℕ) (attributes : List AttrInfo) (laid : List FieldMeta × ℕ)
    → init_fields start attributes ≡ ok laid
    → LaidOut start attributes laid
unfolding init_fields
init_fields-LaidOut start [] laid h = rw (sym (ok-injective ([], start) laid h)) (refl, tt)
init_fields-LaidOut start (a ∷ attributes) laid h =
    let (f, e, k) = bind-ok _ _ laid h in
    let (rest, e', k') = bind-ok _ _ laid k in
    with_field-LaidOut start a attributes f rest laid
      (init_field-Accepted a.name a.type start (a.length % 2 ^ 32) true (not (a.null_type == 0)) f
        e)
      (init_fields-LaidOut ((start + a.length) % 2 ^ 32) attributes rest e') k'

small_length : (start len : ℕ) → start + len < 2147483648 → (start + len) % 2 ^ 32 ≡ start + len
small_length start len h = omega arith

good_extent :
    (start len : ℕ) → 0 < len → start + len < 2147483648 → bad_extent start (len % 2 ^ 32) ≡ false
good_extent start len p b = ground arith

init_field-succeeds :
    (name : String) (attr_type : AttrType) (attr_offset len : ℕ) (visible null_def : Bool)
    → same_string name "" ≡ false
    → is_undefined attr_type ≡ false
    → 0 < len
    → attr_offset + len < 2147483648
    → (f : FieldMeta) × (init_field name attr_type attr_offset (len % 2 ^ 32) visible null_def
        ≡ ok f)
unfolding init_field
init_field-succeeds name attr_type attr_offset len visible null_def n t p b = (
  record {
    name = name;
    attr_type = attr_type;
    attr_offset = attr_offset;
    attr_len = len % 2 ^ 32;
    visible = visible;
    nullable = null_def;
  },
  rw (n, t, good_extent attr_offset len p b) refl,
)

init_fields-succeeds :
    (start : ℕ) (attributes : List AttrInfo) (end : ℕ)
    → Fits start attributes end
    → (fields : List FieldMeta) × (init_fields start attributes ≡ ok (fields, end))
unfolding init_fields
init_fields-succeeds start [] end h = ([], ap (λ n. ok ([], n)) h)
init_fields-succeeds start (a ∷ attributes) end (n, t, p, b, h) =
    let (f, e) =
      init_field-succeeds a.name a.type start a.length true (not (a.null_type == 0)) n t p b in
    let (fields, e') = init_fields-succeeds (start + a.length) attributes end h in
    (f ∷ fields, rw (e, small_length start a.length b, e') refl)

-- What `init` makes of a table's attributes: the transaction's field first, then a field for each
-- attribute, one behind the other, the last one ending at the record's size.
abbrev pub Laid : List AttrInfo → List FieldMeta × TableMeta → Type 0
Laid attributes (sys_fields, meta) =
    (sys_fields ≡ trx_field ∷ [])
    × ((fields : List FieldMeta) × (meta.fields ≡ trx_field ∷ fields)
        × Describes attributes fields
        × Consecutive 4 fields meta.record_size)

ensure_sys_fields-eq :
    (sys_fields : List FieldMeta)
    → IsSysFields sys_fields
    → ensure_sys_fields sys_fields ≡ ok (trx_field ∷ [])
ensure_sys_fields-eq sys_fields (inl e) = rw e init_sys_fields-eq
ensure_sys_fields-eq sys_fields (inr e) = rw e refl

init_with-Laid :
    (name : String) (attributes : List AttrInfo) (laid : List FieldMeta × ℕ)
    (made : List FieldMeta × TableMeta)
    → LaidOut 4 attributes laid
    → init_with name (trx_field ∷ []) laid ≡ ok made
    → Laid attributes made
init_with-Laid name attributes (fields, end) made l h =
    rw (sym (ok-injective _ made h)) (refl, (fields, refl, l.1, l.0))

pub init-Laid :
    (sys_fields : List FieldMeta) (name : String) (attributes : List AttrInfo)
    → IsSysFields sys_fields
    → (made : List FieldMeta × TableMeta) → init sys_fields name attributes ≡ ok made
    → Laid attributes made
unfolding init
init-Laid sys_fields name [] is made h = absurd (cc h)
init-Laid sys_fields name (a ∷ attributes) is made h =
    let k = bind-known _ _ _ made (ensure_sys_fields-eq sys_fields is) (guard-ok _ _ _ made h) in
    let (laid, e, k') = bind-ok _ _ made k in
    init_with-Laid name (a ∷ attributes) laid made (init_fields-LaidOut 4 (a ∷ attributes) laid e)
      k'

-- `TableMeta::init` makes a table of every list of attributes that have names, types and lengths, if
-- the table has a name and the fields end below 2 ^ 31, whether the static `sys_fields_` is set or
-- not. Its fields are the transaction's field and behind it a field for each attribute, one behind
-- the other without a gap, and the record's size is where the last one ends.
pub init-succeeds :
    (sys_fields : List FieldMeta) (name : String) (a : AttrInfo) (attributes : List AttrInfo)
    (end : ℕ)
    → IsSysFields sys_fields
    → same_string name "" ≡ false
    → Fits 4 (a ∷ attributes) end
    → (made : List FieldMeta × TableMeta) × (init sys_fields name (a ∷ attributes) ≡ ok made)
      × Laid (a ∷ attributes) made
      × (made.1.record_size ≡ end)
unfolding init
init-succeeds sys_fields name a attributes end is n f =
    let (fields, e) = init_fields-succeeds 4 (a ∷ attributes) end f in
    let made : List FieldMeta × TableMeta =
      (trx_field ∷ [], record { name = name; fields = trx_field ∷ fields; record_size = end }) in
    let made-eq : init sys_fields name (a ∷ attributes) ≡ ok made =
      rw (n, ensure_sys_fields-eq sys_fields is, e) refl in
    (made, made-eq, init-Laid sys_fields name (a ∷ attributes) is made made-eq, refl)
