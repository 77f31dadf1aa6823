-- ===== src/Index/Order.antt =====
-- `CmpKey` is a total order on the keys of an index without float attributes.
use Prim.Native.Nat.{compare, Ordering}
use miniob.Base.{
  ℕ, zero, suc, ◌+◌, ◌%◌, ◌^◌, ◌≡◌, refl, ◌≢◌, Bool, true, false, List, [], ◌∷◌, arith, Memory,
  read_u32,
}
use miniob.Index.{
  AttrType, Attr, Floats, compare_int, compare_date, strncmp, cmp_rid, compare_attr, compare_key,
  cmp_key, total_length,
}

-- The result with its arguments exchanged.
abbrev pub flip : Ordering → Ordering
flip Ordering.lt = Ordering.gt
flip Ordering.eq = Ordering.eq
flip Ordering.gt = Ordering.lt

compare-flip : (a b : ℕ) → compare b a ≡ flip (compare a b)
compare-flip a b = ground arith

strncmp-flip : (n : ℕ) (a b : Memory) (p : ℕ) → strncmp n b a p ≡ flip (strncmp n a b p)
unfolding strncmp
strncmp-flip zero a b p = refl
strncmp-flip (suc n) a b p = ground (arith, strncmp-flip n a b (p + 1))

cmp_rid-flip : (a b : Memory) (p : ℕ) → cmp_rid b a p ≡ flip (cmp_rid a b p)
unfolding cmp_rid compare_int
cmp_rid-flip a b p = ground arith

-- No attribute is a float.
abbrev pub NoFloats : List Attr → Type 0
NoFloats [] = Unit
NoFloats (attr ∷ attrs) = (attr.type ≢ AttrType.floats) × NoFloats attrs

module _ (floats : Floats) where
  attr-flip :
      (a b : Memory) (type : AttrType) (n p : ℕ)
      → type ≢ AttrType.floats
      → compare_attr floats b a (record { type = type; length = n }) p
        ≡ flip (compare_attr floats a b (record { type = type; length = n }) p)
  unfolding compare_attr compare_int compare_date
  attr-flip a b AttrType.ints n p h = compare-flip _ _
  attr-flip a b AttrType.date n p h = compare-flip _ _
  attr-flip a b AttrType.chars n p h = strncmp-flip n a b p
  attr-flip a b AttrType.floats n p h = absurd (h refl)
  attr-flip a b _ n p h = refl

  compare_key-flip :
      (a b : Memory) (attrs : List Attr) (p : ℕ)
      → NoFloats attrs
      → compare_key floats b a attrs p ≡ flip (compare_key floats a b attrs p)
  unfolding compare_key
  compare_key-flip a b [] p h = refl
  compare_key-flip a b (attr ∷ attrs) p h = ground (
    arith,
    attr-flip a b attr.type attr.length p h.0,
    compare_key-flip a b attrs (p + attr.length) h.1,
  )

  -- On an index without float attributes, exchanging two keys exchanges below and above.
  pub cmp_key-flip :
      (a b : Memory) (attrs : List Attr)
      → NoFloats attrs
      → cmp_key floats attrs b a ≡ flip (cmp_key floats attrs a b)
  unfolding cmp_key
  cmp_key-flip a b attrs h =
      ground (arith, compare_key-flip a b attrs 0 h, cmp_rid-flip a b (total_length attrs))

abbrev pub is_lt : Ordering → Bool
is_lt Ordering.lt = true
is_lt _ = false

abbrev pub is_eq : Ordering → Bool
is_eq Ordering.eq = true
is_eq _ = false

abbrev pub is_gt : Ordering → Bool
is_gt Ordering.gt = true
is_gt _ = false

-- Three results, for `a` and `b`, `b` and `c`, and `a` and `c`, agree: below is transitive, and a key
-- that compares as equal may be put in the other's place.
abbrev pub agree : Ordering → Ordering → Ordering → Bool
agree Ordering.lt Ordering.gt o = true
agree Ordering.gt Ordering.lt o = true
agree Ordering.lt Ordering.lt o = is_lt o
agree Ordering.lt Ordering.eq o = is_lt o
agree Ordering.gt Ordering.gt o = is_gt o
agree Ordering.gt Ordering.eq o = is_gt o
agree Ordering.eq Ordering.lt o = is_lt o
agree Ordering.eq Ordering.gt o = is_gt o
agree Ordering.eq Ordering.eq o = is_eq o

compare-agree : (a b c : ℕ) → agree (compare a b) (compare b c) (compare a c) ≡ true
compare-agree a b c = ground arith

-- One result, then another where the first is `eq`.
abbrev next : Ordering → Ordering → Ordering
next Ordering.lt o = Ordering.lt
next Ordering.gt o = Ordering.gt
next Ordering.eq o = o

next-agree :
    (o₁ o₂ o₃ r₁ r₂ r₃ : Ordering)
    → agree o₁ o₂ o₃ ≡ true
    → agree r₁ r₂ r₃ ≡ true
    → agree (next o₁ r₁) (next o₂ r₂) (next o₃ r₃) ≡ true
next-agree o₁ o₂ o₃ r₁ r₂ r₃ h k = ground arith

strncmp-agree :
    (n : ℕ) (a b c : Memory) (p : ℕ)
    → agree (strncmp n a b p) (strncmp n b c p) (strncmp n a c p) ≡ true
unfolding strncmp
strncmp-agree zero a b c p = refl
strncmp-agree (suc n) a b c p = ground (arith, strncmp-agree n a b c (p + 1))

cmp_rid-agree :
    (a b c : Memory) (p : ℕ) → agree (cmp_rid a b p) (cmp_rid b c p) (cmp_rid a c p) ≡ true
unfolding cmp_rid compare_int
cmp_rid-agree a b c p =
    let q = λ (m : Memory) (i : ℕ). (read_u32 m i + 2 ^ 31) % 2 ^ 32 in
    ground (
      arith,
      next-agree _ _ _ _ _ _ (compare-agree (q a p) (q b p) (q c p))
          (compare-agree (q a (p + 4)) (q b (p + 4)) (q c (p + 4))),
    )

module _ (floats : Floats) where
  attr-agree :
      (a b c : Memory) (type : AttrType) (n p : ℕ)
      → type ≢ AttrType.floats
      → let attr : Attr = record { type = type; length = n } in
        agree
          (compare_attr floats a b attr p)
          (compare_attr floats b c attr p)
          (compare_attr floats a c attr p)
        ≡ true
  unfolding compare_attr compare_int compare_date
  attr-agree a b c AttrType.ints n p h =
      compare-agree ((read_u32 a p + 2 ^ 31) % 2 ^ 32) ((read_u32 b p + 2 ^ 31) % 2 ^ 32)
        ((read_u32 c p + 2 ^ 31) % 2 ^ 32)
  attr-agree a b c AttrType.date n p h = compare-agree (read_u32 a p) (read_u32 b p) (read_u32 c p)
  attr-agree a b c AttrType.chars n p h = strncmp-agree n a b c p
  attr-agree a b c AttrType.floats n p h = absurd (h refl)
  attr-agree a b c _ n p h = refl

  compare_key-next :
      (a b : Memory) (attr : Attr) (attrs : List Attr) (p : ℕ)
      → compare_key floats a b (attr ∷ attrs) p
        ≡ next (compare_attr floats a b attr p) (compare_key floats a b attrs (p + attr.length))
  unfolding compare_key
  compare_key-next a b attr attrs p = ground arith

  cmp_key-next :
      (a b : Memory) (attrs : List Attr)
      → cmp_key floats attrs a b
        ≡ next (compare_key floats a b attrs 0) (cmp_rid a b (total_length attrs))
  unfolding cmp_key
  cmp_key-next a b attrs = ground arith

  compare_key-agree :
      (a b c : Memory) (attrs : List Attr) (p : ℕ)
      → NoFloats attrs
      → agree
          (compare_key floats a b attrs p)
          (compare_key floats b c attrs p)
          (compare_key floats a c attrs p)
        ≡ true
  compare_key-agree a b c [] p h = unfold compare_key in refl
  compare_key-agree a b c (attr ∷ attrs) p h =
      rw
        (
          compare_key-next a b attr attrs p,
          compare_key-next b c attr attrs p,
          compare_key-next a c attr attrs p,
        )
        (next-agree _ _ _ _ _ _ (attr-agree a b c attr.type attr.length p h.0)
          (compare_key-agree a b c attrs (p + attr.length) h.1))

  -- On an index without float attributes the order of keys is transitive, below and above, and a key
  -- may be replaced by one that compares as equal to it.
  pub cmp_key-agree :
      (a b c : Memory) (attrs : List Attr)
      → NoFloats attrs
      → agree (cmp_key floats attrs a b) (cmp_key floats attrs b c) (cmp_key floats attrs a c)
        ≡ true
  cmp_key-agree a b c attrs h =
      rw (cmp_key-next a b attrs, cmp_key-next b c attrs, cmp_key-next a c attrs)
        (next-agree _ _ _ _ _ _ (compare_key-agree a b c attrs 0 h)
          (cmp_rid-agree a b c (total_length attrs)))
