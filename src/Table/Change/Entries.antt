-- ===== src/Table/Change/Entries.antt =====
-- When the maintenance of a table's indexes succeeds, and what it leaves in them.
use miniob.Base.{
  ℕ, ◌≡◌, refl, ap, ◌∙◌, Bool, true, false, not, ◌&&◌, ◌||◌, Option, some, List, [], ◌∷◌, map,
  Memory, arith,
}
use miniob.Rc.{Rc, success, is_success}
use miniob.Record.{Rid, Record}
use miniob.Table.Change.{
  IndexOps, Table, Session, Done, is_invalid_key, insert_entries, insert_entry_of_indexes,
  delete_entries, delete_entry_of_indexes, update_record,
}

and_or_true : (b c : Bool) → (b && (c || true)) ≡ b
and_or_true b c = ground arith

is_success_success : is_success success ≡ true
unfolding is_success
is_success_success = refl

and_left : (a b : Bool) → a && b ≡ true → a ≡ true
and_left a b h = ground arith

and_right : (a b : Bool) → a && b ≡ true → b ≡ true
and_right a b h = ground arith

false_and : (a b : Bool) → a ≡ false → a && b ≡ false
false_and a b h = ground arith

map_twice {ℓ} : {A : Type ℓ} (f g : A → A) (l : List A) → map f (map g l) ≡ map (λ a. f (g a)) l
map_twice f g [] = refl
map_twice f g (a ∷ l) = ap (λ r. f (g a) ∷ r) (map_twice f g l)

-- The test of the loop of `delete_entry_of_indexes` when `error_on_not_exists` is false.
stops : (ok missing : Bool) → (not ok && (not missing || true)) ≡ not ok
stops ok missing = ground arith

module _ (ops : IndexOps) (rec : Memory) (rid : Rid) where
  open ops use {Index, insert_entry, delete_entry}

  -- Whether all of the indexes take the entry, each as it is.
  abbrev pub all_insert : List Index → Bool
  all_insert [] = true
  all_insert (index ∷ indexes) = is_success (insert_entry index rec rid).0 && all_insert indexes

  abbrev pub all_delete : List Index → Bool
  all_delete [] = true
  all_delete (index ∷ indexes) = is_success (delete_entry index rec rid).0 && all_delete indexes

  abbrev pub is_empty : List Index → Bool
  is_empty [] = true
  is_empty (_ ∷ _) = false

  insert_entries-all :
      (indexes : List Index) (rc : Rc)
      → is_success (insert_entries ops indexes rec rid rc).0
        ≡ (all_insert indexes && (not (is_empty indexes) || is_success rc))
  unfolding insert_entries
  insert_entries-all [] rc = refl
  insert_entries-all (index ∷ indexes) rc =
      ground (arith, insert_entries-all indexes (insert_entry index rec rid).0)

  insert_entries-map :
      (indexes : List Index) (rc : Rc)
      → all_insert indexes ≡ true
      → (insert_entries ops indexes rec rid rc).1
        ≡ map (λ index. (insert_entry index rec rid).1) indexes
  unfolding insert_entries
  insert_entries-map [] rc h = refl
  insert_entries-map (index ∷ indexes) rc h =
      let taken : is_success (insert_entry index rec rid).0 ≡ true = and_left _ _ h in
      rw taken (
        ap (λ rest. (insert_entry index rec rid).1 ∷ rest)
          (insert_entries-map indexes (insert_entry index rec rid).0 (and_right _ _ h)))

  -- `insert_entry_of_indexes` succeeds if and only if every unique index takes the entry and, when there
  -- is no unique index, every other index does: the refusal of another index is forgotten as soon as a
  -- unique index takes the entry.
  pub insert_entry_of_indexes-all :
      (table : Table ops)
      → is_success (insert_entry_of_indexes ops table rec rid).0 ≡ (
          all_insert table.unique_indexes
          && (not (is_empty table.unique_indexes) || all_insert table.indexes))
  unfolding insert_entry_of_indexes
  insert_entry_of_indexes-all table =
      insert_entries-all table.unique_indexes (insert_entries ops table.indexes rec rid success).0
      ∙ ap (λ b. all_insert table.unique_indexes && (not (is_empty table.unique_indexes) || b))
          (insert_entries-all table.indexes success
            ∙ ap (λ b. all_insert table.indexes && (not (is_empty table.indexes) || b))
                is_success_success
            ∙ and_or_true (all_insert table.indexes) (not (is_empty table.indexes)))

  delete_entries-all :
      (indexes : List Index)
      → (rc : Rc) → is_success rc ≡ true
      → is_success (delete_entries ops indexes rec rid false rc).0 ≡ all_delete indexes
  unfolding delete_entries
  delete_entries-all [] rc h = h
  delete_entries-all (index ∷ indexes) rc h =
      go (is_success (delete_entry index rec rid).0) refl
        (delete_entries-all indexes (delete_entry index rec rid).0)
    where
      go :
          (b : Bool)
          → is_success (delete_entry index rec rid).0 ≡ b
          → (is_success (delete_entry index rec rid).0 ≡ true
              → is_success
                  (delete_entries ops indexes rec rid false (delete_entry index rec rid).0).0
                ≡ all_delete indexes)
          → is_success (delete_entries ops (index ∷ indexes) rec rid false rc).0
            ≡ (is_success (delete_entry index rec rid).0 && all_delete indexes)
      go true e r =
          rw
            (
              delete_entries,
              stops (is_success (delete_entry index rec rid).0)
                  (is_invalid_key (delete_entry index rec rid).0),
              e,
            )
            (r e)
      go false e r =
          rw
            (
              delete_entries,
              stops (is_success (delete_entry index rec rid).0)
                  (is_invalid_key (delete_entry index rec rid).0),
              e,
            )
            e

  delete_entries-map :
      (indexes : List Index) (rc : Rc)
      → all_delete indexes ≡ true
      → (delete_entries ops indexes rec rid false rc).1
        ≡ map (λ index. (delete_entry index rec rid).1) indexes
  unfolding delete_entries
  delete_entries-map [] rc h = refl
  delete_entries-map (index ∷ indexes) rc h =
      let gone : is_success (delete_entry index rec rid).0 ≡ true = and_left _ _ h in
      rw
        (
          stops (is_success (delete_entry index rec rid).0)
              (is_invalid_key (delete_entry index rec rid).0),
          gone,
        )
        (ap (λ rest. (delete_entry index rec rid).1 ∷ rest)
          (delete_entries-map indexes (delete_entry index rec rid).0 (and_right _ _ h)))

module _ (ops : IndexOps) (table_id : ℕ) (table : Table ops) (session : Session)
    (old_record new_record : Record) where
  open ops use {Index, insert_entry, delete_entry}

  -- An index with the old record's entry taken out and the new one's put in.
  abbrev pub re_entered : Index → Index
  re_entered index =
      (insert_entry (delete_entry index old_record.bytes old_record.rid).1 new_record.bytes
        new_record.rid).1

  -- The other indexes without the old record's entry.
  abbrev pub without_old : List Index → List Index
  without_old = map (λ index. (delete_entry index old_record.bytes old_record.rid).1)

  -- What a refused update leaves: its error, the record file and the session as they were, and the new
  -- record's entry in each index that is not unique.
  abbrev pub HalfUpdated : Option (Done ops) → Type 0
  HalfUpdated result =
      (rc : Rc) × (after : Table ops) × (result ≡ some (rc, after, session))
      × (is_success rc ≡ false)
      × (after.file ≡ table.file)
      × (after.indexes ≡ map re_entered table.indexes)

  -- An update that a unique index refuses returns the error and leaves the record file and the session
  -- as they were, but each other index has lost the entry of the record in the file and has an entry
  -- for a record that is not there. It is so for every update whose old entry the other indexes give
  -- up and whose new entry they take.
  pub update_record-HalfUpdated :
      all_delete ops old_record.bytes old_record.rid table.indexes ≡ true
      → all_insert ops new_record.bytes new_record.rid (without_old table.indexes) ≡ true
      → all_insert ops new_record.bytes new_record.rid table.unique_indexes ≡ false
      → HalfUpdated (update_record ops table_id table session old_record new_record)
  unfolding update_record delete_entry_of_indexes insert_entry_of_indexes
  update_record-HalfUpdated d i u = (
    refusal,
    record table { indexes = entered.1; unique_indexes = uniques.1 },
    rw (gone, refused) refl,
    refused,
    refl,
    insert_entries-map ops new_record.bytes new_record.rid left.1 success
          (ap (all_insert ops new_record.bytes new_record.rid) without ∙ i)
        ∙ ap (map (λ index. (insert_entry index new_record.bytes new_record.rid).1)) without
        ∙ map_twice _ _ table.indexes,
  )
    where
      left : Rc × List Index
      left = delete_entries ops table.indexes old_record.bytes old_record.rid false success

      entered : Rc × List Index
      entered = insert_entries ops left.1 new_record.bytes new_record.rid success

      uniques : Rc × List Index
      uniques = insert_entries ops table.unique_indexes new_record.bytes new_record.rid entered.0

      refusal : Rc
      refusal = uniques.0

      without : left.1 ≡ without_old table.indexes
      without = delete_entries-map ops old_record.bytes old_record.rid table.indexes success d

      gone : is_success left.0 ≡ true
      gone =
          delete_entries-all ops old_record.bytes old_record.rid table.indexes success
            is_success_success
          ∙ d

      refused : is_success refusal ≡ false
      refused =
          insert_entries-all ops new_record.bytes new_record.rid table.unique_indexes entered.0
          ∙ false_and _ _ u
