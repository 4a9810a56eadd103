-- ===== src/Store/Stocktake/Exact.antt =====
-- internal/store/stocktake.go: a confirm writes exactly what was counted.
use mathlib.Core.Path.{subst}
use inventory.Prelude.{
  ℤ, All, ◌≤◌, ◌<◌, ◌≡◌, refl, sym, ◌∙◌, ap, Bool, true, false, Option, none, some, List, [], ◌∷◌,
  map, select, inl, inr, Bool-cases, ◌==◌, ==_iff, arith,
}
use inventory.Prelude.Table.{find, Unique}
use inventory.Prelude.Table.Laws.{All-find}
use inventory.Store.Schema.{RowId, Instant, Batch, Inventory, Database, batch_key}
use inventory.Store.Tx.{ok, put_tables, Env}
use inventory.Store.Tx.Triple.{
  Triple, Triple-bind, Triple-gets, Triple-pure, Triple-strengthen, Triple-weaken, Triple-read,
  Triple-from_result, Triple-in_tx_ok,
}
use inventory.Store.RowSets.{has, match_batch_ids}
use inventory.Store.RowSets.Exact.{Once, match_ids_exactly}
use inventory.Store.Sound.{Sound}
use inventory.Store.Sound.Steps.{require_location-keeps}
use inventory.Store.Flow.Adjusted.{some-eq}
use inventory.Store.Locations.{update_location_row}
use inventory.Store.Stocktake.{
  StocktakeCount, FoundStock, StocktakeResult, is_held, batch_id_of, counted_id,
  lock_location_batches, audited, confirm_stocktake_tx, confirm_stocktake,
}
use inventory.Store.Stocktake.Rows.{Holds}
use inventory.Store.Stocktake.Counted.{
  same_id, count_of, apply_counts-other, apply_counts-own, add_found-Holds, Left, add_found-Left,
}

module _ (k : RowId) where
  count_of-some :
      (cs : List StocktakeCount)
      → has same_id k (map counted_id cs) ≡ true
      → (c : StocktakeCount) × (count_of k cs ≡ some c)
  unfolding count_of has
  count_of-some [] h = absurd (cc)
  count_of-some (c ∷ cs) h = elim (Bool-cases (c.batch_id == k)) [
    | inl here ↦ (c, rw here refl)
    | inr there ↦ rw there (count_of-some cs (rw there at h))
  ]

  not_among :
      (test : Batch → Bool) (bs : List Batch)
      → find batch_key k bs ≡ none
      → has same_id k (map batch_id_of (select test bs)) ≡ false
  unfolding find has
  not_among test [] h = refl
  not_among test (r ∷ rs) h = ground (arith, not_among test rs)

  -- Under unique ids the row of the id is what decides whether the id is selected.
  among-selected :
      (test : Batch → Bool) (bs : List Batch) {b : Batch}
      → Unique batch_key bs
      → find batch_key k bs ≡ some b
      → has same_id k (map batch_id_of (select test bs)) ≡ test b
  unfolding find has
  among-selected test [] u h = absurd (cc)
  among-selected test (r ∷ rs) {b} u h = elim (Bool-cases (r.id == k)) [
    | inl here ↦
        let same : r ≡ b = some-eq (rw here at h) in
        let id : r.id ≡ k = (==_iff r.id k).0 here in
        let rest = not_among test rs (subst (λ i. find batch_key i rs ≡ none) id u.0) in
        let told = ap test same in
        elim (Bool-cases (test r)) [
          | inl kept ↦ rw (kept, here) (sym kept ∙ told)
          | inr left ↦ rw (left, rest) (sym left ∙ told)
        ]
    | inr there ↦ ground (arith, among-selected test rs {b = b} u.1)
  ]

-- What a confirm leaves of a batch: one that the walked shelf held has the counted quantity, or is gone
-- if it was counted empty; any other batch is as it was.
abbrev pub Walked :
    RowId → RowId → List StocktakeCount → List FoundStock → Inventory → Batch → Inventory → Type 0
Walked storage place counts found t b t' =
    (is_held storage place t b ≡ true
      → (c : StocktakeCount) × (count_of b.id counts ≡ some c)
        × Left b.id place found c.quantity b t')
    × (is_held storage place t b ≡ false → find batch_key b.id t'.batches ≡ some b)

-- The audit of the shelf changes no batch.
audit_location-Holds :
    (k : RowId) (o : Option Batch) (place : RowId) (now : Instant)
    → Triple (Holds k o) (update_location_row place (audited now)) (Holds k o)
unfolding update_location_row put_tables
audit_location-Holds k o place now = record { at = λ s h. h }

audit_location-Left :
    (k place : RowId) (found : List FoundStock) (q : ℤ) (b : Batch) (now : Instant)
    → Triple
        (Left k place found q b)
        (update_location_row place (audited now))
        (Left k place found q b)
unfolding update_location_row put_tables
audit_location-Left k place found q b now = record { at = λ s h. h }

filled :
    (b : Batch) (bs : List Batch)
    → All (λ (r : Batch). 1 ≤ r.quantity) bs
    → find batch_key b.id bs ≡ some b
    → 0 < b.quantity
filled b bs h row = omega (arith, All-find batch_key (λ (r : Batch). 1 ≤ r.quantity) b.id bs h row)

module _ (storage place : RowId) (by : Option RowId) (counts : List StocktakeCount)
    (found : List FoundStock) (t : Inventory) (b : Batch) (unique : Unique batch_key t.batches)
    (row : find batch_key b.id t.batches ≡ some b) (full : 0 < b.quantity) where
  -- What the check of the ids says of the batch.
  named_or_not :
      match_batch_ids
          (map batch_id_of (select (is_held storage place t) t.batches))
          (map counted_id counts)
        ≡ ok tt
      → Once same_id ==_iff (map counted_id counts)
        × (has same_id b.id (map counted_id counts) ≡ is_held storage place t b)
  unfolding match_batch_ids
  named_or_not h =
      let (once, same) = (match_ids_exactly same_id ==_iff _ _).0 h in
      (once, same b.id ∙ among-selected b.id (is_held storage place t) t.batches unique row)

  confirm_stocktake_tx-held :
      is_held storage place t b ≡ true
      → Triple
          (λ t'. t' ≡ t)
          (confirm_stocktake_tx storage place by counts found)
          (λ t'.
            (c : StocktakeCount) × (count_of b.id counts ≡ some c)
            × Left b.id place found c.quantity b t')
  unfolding confirm_stocktake_tx lock_location_batches
  confirm_stocktake_tx-held held = require_location-keeps storage place (λ t1 l e there.
      Triple-strengthen (λ u e'. e' ∙ e)
        (Triple-read (λ u. map batch_id_of (select (is_held storage place u) u.batches)) _
          (Triple-from_result _ (λ _ exact.
            let (once, named) = named_or_not exact in
            let (c, first) = count_of-some b.id counts (named ∙ held) in
            Triple-weaken
              (Triple-bind
                (Triple-strengthen (λ u same. rw same row)
                  (apply_counts-own b.id b storage by counts full once first))
                (λ n. Triple-bind (add_found-Left b.id b c.quantity storage place by found) (λ ids.
                  Triple-gets _ (λ now.
                    Triple-bind (audit_location-Left b.id place found c.quantity b now)
                      (λ _. Triple-pure _ (λ u k. k))))))
              (λ u k. (c, first, k))))))

  confirm_stocktake_tx-elsewhere :
      is_held storage place t b ≡ false
      → Triple
          (λ t'. t' ≡ t)
          (confirm_stocktake_tx storage place by counts found)
          (Holds b.id (some b))
  unfolding confirm_stocktake_tx lock_location_batches
  confirm_stocktake_tx-elsewhere away = require_location-keeps storage place (λ t1 l e there.
      Triple-strengthen (λ u e'. e' ∙ e)
        (Triple-read (λ u. map batch_id_of (select (is_held storage place u) u.batches)) _
          (Triple-from_result _ (λ _ exact.
            let (once, named) = named_or_not exact in
            Triple-bind
              (Triple-strengthen (λ u same. rw same row)
                (apply_counts-other b.id (some b) storage by counts (named ∙ away)))
              (λ n. Triple-bind (add_found-Holds b.id b storage place by found) (λ ids.
                Triple-gets _ (λ now.
                  Triple-bind (audit_location-Holds b.id (some b) place now)
                    (λ _. Triple-pure _ (λ u k. k)))))))))

-- From a sound stock, a confirm of a stocktake that succeeds leaves of every batch what was counted. A
-- batch of the storage on the walked shelf has a count. If it was counted empty its row is gone, unless
-- the confirm created found stock under its id; else it holds exactly the counted quantity, which is not
-- zero, with all else as it was. Every other batch is as it was.
pub confirm_stocktake_exactly :
    (env : Env) (storage place : RowId) (by : Option RowId) (counts : List StocktakeCount)
    (found : List FoundStock) (db : Database) (b : Batch) {r : StocktakeResult}
    → Sound db.tables
    → find batch_key b.id db.tables.batches ≡ some b
    → (confirm_stocktake env storage place by counts found db).0 ≡ ok r
    → Walked storage place counts found db.tables b
        (confirm_stocktake env storage place by counts found db).1.tables
unfolding confirm_stocktake
confirm_stocktake_exactly env storage place by counts found db b h row done = (
  λ held.
      Triple-in_tx_ok env db
        (confirm_stocktake_tx-held storage place by counts found db.tables b h.unique row
          (filled b db.tables.batches h.positive row) held)
        done,
  λ away.
      Triple-in_tx_ok env db
        (confirm_stocktake_tx-elsewhere storage place by counts found db.tables b h.unique row
          (filled b db.tables.batches h.positive row) away)
        done,
)
