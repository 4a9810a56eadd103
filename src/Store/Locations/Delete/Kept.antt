-- ===== src/Store/Locations/Delete/Kept.antt =====
-- DeleteLocation of internal/store/locations.go and the shelves of the batches.
use mathlib.Core.Path.{subst}
use inventory.Prelude.{
  ◌≡◌, refl, sym, ◌∙◌, Bool, true, false, not, ◌||◌, some, List, [], ◌∷◌, map, inl, inr, Bool-cases,
  Option-cases, select, exists, All,
}
use inventory.Prelude.Table.{find, insert}
use inventory.Store.Schema.{
  RowId, Instant, Product, Location, Batch, Inventory, Database, EntityType, location_entity,
  Tombstone, location_key, tombstone_key,
}
use inventory.Store.Tx.{
  Session, ◌>>=◌, pure, refuse_if, row_or, gets, put_tables, put_jobs, put_tombstones, new_id, Env,
}
use inventory.Store.Tx.Rules.{Returns, Returns-bind, Returns-weaken, in_tx-keeps, new_id-IsQuiet}
use inventory.Store.Tree.{location_node, tree_locations, require_in_tree, nodes}
use inventory.Store.Tree.Edits.{require_in_tree-Owned}
use inventory.Store.Sound.{Sound, IsPlaced}
use inventory.Store.Locations.Delete.{
  falls_with, lies_in, location_subtree, delete_location_row, record_tombstones, delete_location_tx,
  delete_location, is_under_one_of,
}
use inventory.Store.Locations.Delete.Cleared.{kept-stays, find-fallen, falls_by}

-- The tables without the rows that fall with one location, in none of which a batch lies.
abbrev Cleared : RowId → Inventory → Inventory → Type 0
Cleared id t t' =
    (t' ≡ record t {
      locations = select (λ l. not (falls_with (map location_node t.locations) id l)) t.locations;
    })
    × (exists (lies_in (select (falls_with (map location_node t.locations) id) t.locations))
          t.batches
        ≡ false)

delete_location_row-Cleared :
    (id : RowId) (s : Session)
    → Returns (λ _ s'. Cleared id s.db.tables s'.db.tables) (delete_location_row id s)
unfolding delete_location_row ◌>>=◌ put_jobs put_tables
delete_location_row-Cleared id s =
    elim (Bool-cases (
      exists
        (lies_in
          (select (falls_with (map location_node s.db.tables.locations) id) s.db.tables.locations))
        s.db.tables.batches)) [ inl held ↦ rw held tt | inr free ↦ rw free (refl, refl) ]

module _ (storage : RowId) (kind : EntityType) (k : RowId) where
  abbrev tombstone : RowId → Instant → Tombstone
  tombstone id now = record {
    id = id;
    storage_id = storage;
    entity_type = kind;
    entity_id = k;
    deleted_at = now;
  }

-- Tombstones are no part of the stock.
record_tombstones-quiet :
    (storage : RowId) (kind : EntityType) (ids : List RowId) (s : Session)
    → Returns (λ _ s'. s'.db.tables ≡ s.db.tables) (record_tombstones storage kind ids s)
unfolding record_tombstones pure ◌>>=◌ gets row_or put_tombstones
record_tombstones-quiet storage kind [] s = refl
record_tombstones-quiet storage kind (k ∷ ks) s =
    Returns-bind (λ _ s'. s'.db.tables ≡ s.db.tables) (λ _ s'. s'.db.tables ≡ s.db.tables) new_id _
      s (new_id-IsQuiet.at s)
      (λ id s' e.
        elim (Option-cases
          (insert tombstone_key (tombstone storage kind k id s'.clock.instant) s'.db.tombstones)) [
            | inl clash ↦ rw clash tt
            | inr new ↦ rw new.1 (
                Returns-weaken (λ _ s3. s3.db.tables ≡ s'.db.tables)
                  (λ _ s3. s3.db.tables ≡ s.db.tables) _ (record_tombstones-quiet storage kind ks _)
                  (λ _ s3 h. h ∙ e))
          ])

delete_location_tx-Cleared :
    (storage id : RowId) (s : Session)
    → Returns (λ _ s'. Cleared id s.db.tables s'.db.tables) (delete_location_tx storage id s)
unfolding delete_location_tx ◌>>=◌ gets refuse_if
delete_location_tx-Cleared storage id s =
    Returns-bind _ _ (require_in_tree tree_locations storage id) _ s
      (require_in_tree-Owned tree_locations storage id s)
      (λ _ s' (e, owned).
        rw e
          (elim (Bool-cases (
            exists (is_under_one_of (location_subtree (nodes tree_locations s.db.tables) id))
              s.db.tables.batches)) [
                | inl held ↦ rw held tt
                | inr free ↦ rw free (
                    Returns-bind _ _ (delete_location_row id) _ s (delete_location_row-Cleared id s)
                      (λ _ s'' cleared.
                        Returns-weaken (λ _ s3. s3.db.tables ≡ s''.db.tables)
                          (λ _ s3. Cleared id s.db.tables s3.db.tables) _
                          (record_tombstones-quiet storage location_entity
                            (location_subtree (nodes tree_locations s.db.tables) id) s'')
                          (λ _ s3 same. (same ∙ cleared.0, cleared.1))))
              ]))

module _ (products : List Product) (ls : List Location) (id : RowId) where
  abbrev fallen : List Location
  fallen = select (falls_with (map location_node ls) id) ls

  not_held : (b c : Bool) → b ≡ true → ¬ ((b || c) ≡ false)
  not_held true c h e = cc
  not_held false c h e = cc

  stands :
      (b : Batch) (l : Location)
      → find location_key b.location_id ls ≡ some l
      → lies_in fallen b ≡ false
      → falls_by ls id b.location_id ≡ false
  unfolding falls_with
  stands b l e h = elim (Bool-cases (falls_by ls id b.location_id)) [
    | inl out ↦ absurd (cc (find-fallen (falls_by ls id) b.location_id ls e out))
    | inr stays ↦ stays
  ]

  IsPlaced-kept :
      (bs : List Batch)
      → All (IsPlaced products ls) bs
      → exists (lies_in (select (falls_with (map location_node ls) id) ls)) bs ≡ false
      → All (IsPlaced products (select (λ l. not (falls_with (map location_node ls) id l)) ls)) bs
  unfolding falls_with
  IsPlaced-kept [] h e = tt
  IsPlaced-kept (b ∷ bs) h e = elim (Bool-cases (lies_in fallen b)) [
    | inl lies ↦ absurd (not_held (lies_in fallen b) (exists (lies_in fallen) bs) lies e)
    | inr apart ↦ (
      record {
        product = h.0.product;
        location = h.0.location;
        its_product = h.0.its_product;
        its_location =
            kept-stays (falls_by ls id) b.location_id ls
              (stands b h.0.location h.0.its_location apart)
            ∙ h.0.its_location;
        one_storage = h.0.one_storage;
      },
      IsPlaced-kept bs h.1 (rw apart at e),
    )
  ]

module _ (id : RowId) (t t' : Inventory) (cleared : Cleared id t t') where
  Cleared-Sound : Sound t → Sound t'
  Cleared-Sound h = subst Sound (sym cleared.0) (record {
    unique = h.unique;
    placed = IsPlaced-kept t.products t.locations id t.batches h.placed cleared.1;
    positive = h.positive;
    balance = h.balance;
  })

-- A sound stock stays sound under every DeleteLocation, whatever it answers: no batch is left without
-- its shelf.
pub delete_location-Sound :
    (env : Env) (storage id : RowId) (db : Database)
    → Sound db.tables
    → Sound (delete_location env storage id db).1.tables
unfolding delete_location
delete_location-Sound env storage id db h =
    in_tx-keeps (λ d. Sound d.tables) env _ db h
      (Returns-weaken (λ _ s. Cleared id db.tables s.db.tables) (λ _ s. Sound s.db.tables) _
        (delete_location_tx-Cleared storage id _)
        (λ _ s cleared. Cleared-Sound id db.tables s.db.tables cleared h))
