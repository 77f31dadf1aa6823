-- ===== src/Tree/Pages/Descend.antt =====
-- The way from the root to a leaf: it ends, and a change of a leaf does not change it.
use Prim.Native.Nat.{Ordering}
use miniob.Base.{
  ℕ, zero, suc, ◌+◌, ◌≤◌, ◌<◌, ◌≡◌, inl, inr, refl, ◌∙◌, ap, Option, some, true, false, ◌==◌,
  if◌then◌else◌, arith, Bool-cases, Option-cases,
}
use miniob.Index.Order.{agree}
use miniob.Rc.{Outcome, ok}
use miniob.Tree.Node.{Node, KeyOrder, first_above, lookup}
use miniob.Tree.Node.Lookup.{first_above-le}
use miniob.Tree.Pages.{BplusTree, set_node, descend, child_for, find_leaf, get_entry, answer}

agree_eq_any : (p q : Ordering) → agree Ordering.eq p q ≡ true → q ≡ p
agree_eq_any p q h = ground arith

module _ {K : Type 0} where
  -- Every child of an inner node is a node of the tree, and on a lower level.
  abbrev pub Leveled : BplusTree K → (ℕ → ℕ) → Type 0
  Leveled tree level =
      (page : ℕ) (node : Node K)
      → tree.nodes page ≡ some node
      → node.is_leaf ≡ false
      → (i : ℕ) → i ≤ node.key_num
      → ((child : Node K) × (tree.nodes (node.rids i).page_num ≡ some child))
        × (level (node.rids i).page_num < level page)

  -- The page of a leaf.
  abbrev pub ReachesLeaf : BplusTree K → Option (Outcome ℕ) → Type 0
  ReachesLeaf tree r =
      (page : ℕ) × (leaf : Node K) × (r ≡ some (ok page))
      × (tree.nodes page ≡ some leaf)
      × (leaf.is_leaf ≡ true)

  pub descend-leaf :
      (fuel : ℕ) (tree : BplusTree K) (choose : Node K → ℕ) (page : ℕ) (node : Node K)
      → tree.nodes page ≡ some node
      → node.is_leaf ≡ true
      → descend (suc fuel) tree choose page ≡ some (ok page)
  unfolding descend
  descend-leaf fuel tree choose page node e l = ground arith

  pub descend-inner :
      (fuel : ℕ) (tree : BplusTree K) (choose : Node K → ℕ) (page : ℕ) (node : Node K)
      → tree.nodes page ≡ some node
      → node.is_leaf ≡ false
      → descend (suc fuel) tree choose page ≡ descend fuel tree choose (choose node)
  unfolding descend
  descend-inner fuel tree choose page node e l = ground arith

  descend-Reaches :
      (fuel : ℕ) (tree : BplusTree K) (choose : Node K → ℕ) (level : ℕ → ℕ) (page : ℕ)
      (node : Node K)
      → Leveled tree level
      → ((m : Node K) → (i : ℕ) × (i ≤ m.key_num) × (choose m ≡ (m.rids i).page_num))
      → level page < fuel
      → tree.nodes page ≡ some node
      → ReachesLeaf tree (descend fuel tree choose page)
  descend-Reaches zero tree choose level page node lv ch h e = absurd (omega arith)
  descend-Reaches (suc fuel) tree choose level page node lv ch h e =
      elim (Bool-cases node.is_leaf) [
        | inl l ↦ (page, node, descend-leaf fuel tree choose page node e l, e, l)
        | inr l ↦
            let (i, w, c) = ch node in
            let ((child, f), lower) = lv page node e l i w in
            let (p, leaf, r, g, t) =
              descend-Reaches fuel tree choose level (node.rids i).page_num child lv ch
                (omega arith) f in
            (
              p,
              leaf,
              descend-inner fuel tree choose page node e l ∙ ap (descend fuel tree choose) c ∙ r,
              g,
              t,
            )
      ]

  -- Writing a leaf over a leaf leaves every way as it is.
  pub descend-set_node :
      (fuel : ℕ) (tree : BplusTree K) (choose : Node K → ℕ) (at page : ℕ) (leaf leaf' : Node K)
      → tree.nodes at ≡ some leaf
      → leaf.is_leaf ≡ true
      → leaf'.is_leaf ≡ true
      → descend fuel (set_node tree at leaf') choose page ≡ descend fuel tree choose page
  unfolding descend
  descend-set_node zero tree choose at page leaf leaf' e l l' = refl
  descend-set_node (suc fuel) tree choose at page leaf leaf' e l l' =
      elim (Bool-cases (at == page)) [
        | inl t ↦
            let same : at ≡ page = ground arith in
            let e' : tree.nodes page ≡ some leaf = rw same at e in rw (t, e', l, l', descend)
        | inr t ↦ elim (Option-cases (tree.nodes page)) [
          | inl f ↦ rw (t, f, descend)
          | inr (node, f) ↦
              rw (t, f, descend)
                (ap (λ r. if node.is_leaf then some (ok page) else r)
                  (descend-set_node fuel tree choose at (choose node) leaf leaf' e l l'))
        ]
      ]

  -- More fuel changes nothing.
  descend-suc :
      (fuel : ℕ) (tree : BplusTree K) (choose : Node K → ℕ) (page : ℕ) (r : Outcome ℕ)
      → descend fuel tree choose page ≡ some r
      → descend (suc fuel) tree choose page ≡ some r
  unfolding descend
  descend-suc zero tree choose page r e = cc
  descend-suc (suc fuel) tree choose page r e = elim (Option-cases (tree.nodes page)) [
    | inl f ↦ ground arith
    | inr (node, f) ↦ ground (arith, descend-suc fuel tree choose (choose node) r)
  ]

module _ {K : Type 0} (o : KeyOrder K) where
  open o use {cmp, cmp-agree}

  -- In a tree whose levels fall from every node to its children, with more fuel than the root's level,
  -- `find_leaf` ends for every key, and at a leaf.
  pub find_leaf-Reaches :
      (fuel : ℕ) (tree : BplusTree K) (level : ℕ → ℕ) (root : Node K) (key : K)
      → Leveled tree level
      → level tree.root_page < fuel
      → tree.nodes tree.root_page ≡ some root
      → ReachesLeaf tree (find_leaf cmp fuel tree key)
  unfolding find_leaf
  find_leaf-Reaches fuel tree level root key lv h e =
      descend-Reaches fuel tree (child_for cmp key) level tree.root_page root lv
        (λ m. (
          first_above cmp m.key_num m.keys key 0,
          first_above-le o m.key_num m.keys key,
          unfold child_for in refl,
        ))
        h e

  -- Equal keys compare alike.
  pub cmp_congr : (a b c : K) → cmp a b ≡ Ordering.eq → cmp a c ≡ cmp b c
  cmp_congr a b c e = agree_eq_any (cmp b c) (cmp a c) (rw e at (cmp-agree a b c))

  first_above-congr :
      (n : ℕ) (keys : ℕ → K) (a b : K) (i : ℕ)
      → cmp a b ≡ Ordering.eq
      → first_above cmp n keys a i ≡ first_above cmp n keys b i
  unfolding first_above
  first_above-congr zero keys a b i e = refl
  first_above-congr (suc n) keys a b i e =
      ground (arith, cmp_congr a b (keys i) e, first_above-congr n keys a b (i + 1) e)

  descend-congr :
      (fuel : ℕ) (tree : BplusTree K) (a b : K) (page : ℕ)
      → cmp a b ≡ Ordering.eq
      → descend fuel tree (child_for cmp a) page ≡ descend fuel tree (child_for cmp b) page
  unfolding descend child_for
  descend-congr zero tree a b page e = refl
  descend-congr (suc fuel) tree a b page e = elim (Option-cases (tree.nodes page)) [
    | inl f ↦ rw (f, descend)
    | inr (node, f) ↦
        rw (f, descend)
          (ap (λ r. if node.is_leaf then some (ok page) else r)
            (ap (λ i. descend fuel tree (child_for cmp a) (node.rids i).page_num)
                (first_above-congr node.key_num node.keys a b 0 e)
              ∙ descend-congr fuel tree a b
                  (node.rids (first_above cmp node.key_num node.keys b 0)).page_num e))
  ]

  -- Equal keys belong in the same leaf.
  pub find_leaf-congr :
      (fuel : ℕ) (tree : BplusTree K) (a b : K)
      → cmp a b ≡ Ordering.eq
      → find_leaf cmp fuel tree a ≡ find_leaf cmp fuel tree b
  unfolding find_leaf
  find_leaf-congr fuel tree a b e = descend-congr fuel tree a b tree.root_page e

  pub find_leaf-set_node :
      (fuel : ℕ) (tree : BplusTree K) (key : K) (at : ℕ) (leaf leaf' : Node K)
      → tree.nodes at ≡ some leaf
      → leaf.is_leaf ≡ true
      → leaf'.is_leaf ≡ true
      → find_leaf cmp fuel (set_node tree at leaf') key ≡ find_leaf cmp fuel tree key
  unfolding find_leaf
  find_leaf-set_node fuel tree key at leaf leaf' e l l' =
      descend-set_node fuel tree (child_for cmp key) at tree.root_page leaf leaf' e l l'

  -- What `get_entry` returns where `find_leaf` leads.
  pub get_entry-find_leaf :
      (fuel : ℕ) (tree : BplusTree K) (key : K) (page : ℕ) (leaf : Node K)
      → find_leaf cmp fuel tree key ≡ some (ok page)
      → tree.nodes page ≡ some leaf
      → get_entry cmp fuel tree key ≡ some (answer (lookup cmp leaf key))
  unfolding get_entry
  get_entry-find_leaf fuel tree key page leaf e f = rw (e, f, get_entry)

  pub find_leaf-suc :
      (fuel : ℕ) (tree : BplusTree K) (key : K) (at : ℕ)
      → find_leaf cmp fuel tree key ≡ some (ok at)
      → find_leaf cmp (suc fuel) tree key ≡ some (ok at)
  unfolding find_leaf
  find_leaf-suc fuel tree key at e =
      descend-suc fuel tree (child_for cmp key) tree.root_page (ok at) e
