-- ===== src/Store/Stocktake/Counted.antt =====
-- internal/store/stocktake.go: what a confirmed walk leaves of each batch.
use mathlib.Core.Path.{subst}
use inventory.Prelude.{
  ℕ, ◌<◌, ◌||◌, refl, ◌≡◌, sym, ◌∙◌, Bool, true, false, Option, none, some, List, [], ◌∷◌, map, ℤ,
  pos, ◌+ℤ◌, ◌-ℤ◌, ◌⊎◌, inl, inr, Bool-cases, ◌==◌, ==_iff, if◌then◌else◌, int_laws, arith,
}
use inventory.Store.Schema.{RowId, audit, Batch, Inventory}
use inventory.Store.Tx.{Session, Tx}
use inventory.Store.Tx.Rules.{Returns, Returns-weaken}
use inventory.Store.Tx.Triple.{
  Triple, Triple-bind, Triple-tables, Triple-row_or, Triple-refuse_if, Triple-pure, Triple-if,
  Triple-strengthen, Triple-weaken,
}
use inventory.Store.Batches.{adjust_batch_tx, is_zero, set_quantity}
use inventory.Store.Batches.Update.{correct_quantity, set_batch_quantity}
use inventory.Store.RowSets.{has}
use inventory.Store.RowSets.Exact.{Once}
use inventory.Store.Sound.Adjust.{find_batch-row}
use inventory.Store.Flow.Adjusted.{some-eq}
use inventory.Store.Stocktake.{StocktakeCount, FoundStock, counted_id, apply_counts, add_found}
use inventory.Store.Stocktake.Rows.{
  Holds, Counted, Gone, own_key, create_batch_tx-none, adjust_batch_tx-other, adjust_batch_tx-own,
  create_batch_tx-Holds,
}

-- The same id, as a test.
abbrev pub same_id : RowId → RowId → Bool
same_id a b = a == b

-- The first count that names the id.
unfoldable pub count_of : RowId → List StocktakeCount → Option StocktakeCount
count_of k [] = none
count_of k (c ∷ cs) = if c.batch_id == k then some c else count_of k cs

is_zero-eq : (q : ℤ) (n : ℕ) → is_zero (q -ℤ pos n) ≡ true → q ≡ pos n
unfolding ◌-ℤ◌
is_zero-eq q n h = ground arith

module _ (k : RowId) where
  set_batch_quantity-other :
      (o : Option Batch) (storage id : RowId) (q : ℤ) (by : Option RowId)
      → (id == k) ≡ false
      → Triple (Holds k o) (set_batch_quantity storage id q by) (Holds k o)
  unfolding set_batch_quantity correct_quantity
  set_batch_quantity-other o storage id q by other = Triple-refuse_if _ _ (λ counted.
      Triple-tables (λ t h. Triple-row_or _ _ (λ b found.
        let apart = subst (λ i. (i == k) ≡ false) (sym (own_key k storage id t found)) other in
        Triple-strengthen (λ u e. subst (Holds k o) (sym e) h)
          (Triple-if (is_zero (q -ℤ pos b.quantity)) (λ _. Triple-pure _ (λ u g. g))
            (λ _.
              Triple-bind
                (Triple-bind (adjust_batch_tx-other k o storage b.id _ audit by apart)
                  (λ _. Triple-pure _ (λ u g. g)))
                (λ _. Triple-pure _ (λ u g. g)))))))

  to_the_count : (n : ℕ) (q : ℤ) → pos n +ℤ (q -ℤ pos n) ≡ q
  to_the_count n q = omega int_laws

  set_batch_quantity-own :
      (b : Batch) (storage : RowId) (q : ℤ) (by : Option RowId)
      → 0 < b.quantity
      → Triple (Holds k (some b)) (set_batch_quantity storage k q by) (Counted k q b)
  unfolding set_batch_quantity correct_quantity
  set_batch_quantity-own b storage q by full = Triple-refuse_if _ _ (λ counted.
      Triple-tables (λ t h. Triple-row_or _ _ (λ r found.
        let same : r ≡ b = some-eq (sym (find_batch-row storage k t found).0 ∙ h) in
        let here : r.id ≡ k = own_key k storage k t found in
        let moved : Triple (Holds k (some b))
            (adjust_batch_tx storage r.id (q -ℤ pos r.quantity) audit by) (Counted k q b) =
          rw (here, same)
            (Triple-weaken (adjust_batch_tx-own k b storage (q -ℤ pos b.quantity) audit by)
              (λ u g. rw to_the_count at g)) in
        Triple-strengthen (λ u e. subst (Holds k (some b)) (sym e) h)
          (Triple-if (is_zero (q -ℤ pos r.quantity))
            (λ unchanged.
              Triple-pure _ (λ u g.
                (b.quantity, is_zero-eq q b.quantity (rw same at unchanged), inr (full, g))))
            (λ _.
              Triple-bind (Triple-bind moved (λ _. Triple-pure _ (λ u g. g)))
                (λ _. Triple-pure _ (λ u g. g)))))))

  pub apply_counts-other :
      (o : Option Batch) (storage : RowId) (by : Option RowId) (cs : List StocktakeCount)
      → has same_id k (map counted_id cs) ≡ false
      → Triple (Holds k o) (apply_counts storage by cs) (Holds k o)
  unfolding apply_counts has
  apply_counts-other o storage by [] h = Triple-pure 0 (λ t g. g)
  apply_counts-other o storage by (c ∷ cs) h =
      Triple-bind (set_batch_quantity-other o storage c.batch_id c.quantity by (ground arith)) (λ r.
        Triple-bind (apply_counts-other o storage by cs (ground arith))
          (λ n. Triple-pure _ (λ t g. g)))

  -- What leaves every row under the id, or none, leaves what a count left.
  settled :
      {A : Type 0} (b : Batch) (q : ℤ) (m : Tx A)
      → ((o : Option Batch) → Triple (Holds k o) m (Holds k o))
      → Triple (Counted k q b) m (Counted k q b)
  settled b q m h = record { at = λ s (n, e, row). kept s n e row }
    where
      kept :
          (s : Session) (n : ℕ)
          → q ≡ pos n
          → ((n ≡ 0) × Holds k none s.db.tables)
            ⊎ ((0 < n) × Holds k (some (set_quantity n b)) s.db.tables)
          → Returns (λ _ s'. Counted k q b s'.db.tables) (m s)
      kept s n e (inl (empty, gone)) =
          Returns-weaken (λ _ s'. Holds k none s'.db.tables) _ (m s) ((h none).at s gone)
            (λ _ s' g. (n, e, inl (empty, g)))
      kept s n e (inr (full, there)) =
          Returns-weaken (λ _ s'. Holds k (some (set_quantity n b)) s'.db.tables) _ (m s)
            ((h (some (set_quantity n b))).at s there) (λ _ s' g. (n, e, inr (full, g)))

  pub apply_counts-own :
      (b : Batch) (storage : RowId) (by : Option RowId) (cs : List StocktakeCount)
      {c : StocktakeCount}
      → 0 < b.quantity
      → Once same_id ==_iff (map counted_id cs)
      → count_of k cs ≡ some c
      → Triple (Holds k (some b)) (apply_counts storage by cs) (Counted k c.quantity b)
  unfolding apply_counts count_of
  apply_counts-own b storage by [] full once e = absurd (cc)
  apply_counts-own b storage by (d ∷ ds) {c} full once e = elim (Bool-cases (d.batch_id == k)) [
    | inl here ↦
        let same : d ≡ c = some-eq (rw here at e) in
        let id : d.batch_id ≡ k = (==_iff d.batch_id k).0 here in
        let rest = subst (λ i. has same_id i (map counted_id ds) ≡ false) id once.0 in
        Triple-bind
          (subst
            (λ i.
              Triple (Holds k (some b)) (set_batch_quantity storage i d.quantity by)
                (Counted k c.quantity b))
            (sym id)
            (subst
              (λ (x : StocktakeCount).
                Triple (Holds k (some b)) (set_batch_quantity storage k d.quantity by)
                  (Counted k x.quantity b))
              same (set_batch_quantity-own b storage d.quantity by full)))
          (λ r.
            Triple-bind
              (settled b c.quantity (apply_counts storage by ds)
                (λ o. apply_counts-other o storage by ds rest))
              (λ n. Triple-pure _ (λ t g. g)))
    | inr there ↦
        Triple-bind (set_batch_quantity-other (some b) storage d.batch_id d.quantity by there) (λ r.
          Triple-bind (apply_counts-own b storage by ds full once.1 (rw there at e))
            (λ n. Triple-pure _ (λ t g. g)))
  ]

  pub add_found-Holds :
      (b : Batch) (storage place : RowId) (by : Option RowId) (fs : List FoundStock)
      → Triple (Holds k (some b)) (add_found storage place by fs) (Holds k (some b))
  unfolding add_found
  add_found-Holds b storage place by [] = Triple-pure [] (λ t h. h)
  add_found-Holds b storage place by (f ∷ fs) =
      Triple-bind (create_batch_tx-Holds k b storage place by f)
        (λ v. Triple-bind (add_found-Holds b storage place by fs) (λ ids. Triple-pure _ (λ t h. h)))

  more_found : (b : Bool) → b ≡ true → (a : Bool) → (a || b) ≡ true
  more_found b h true = refl
  more_found b h false = h

  first_found : (a b : Bool) → (a || false) ≡ true → (a || b) ≡ true
  first_found true b h = refl
  first_found false b h = absurd (cc)

  -- The rest of the found stock.
  Gone-more :
      (storage place : RowId) (by : Option RowId) (f : FoundStock) (fs : List FoundStock)
      → Triple (Holds k none) (add_found storage place by fs) (Gone k place fs)
      → Triple (Gone k place (f ∷ [])) (add_found storage place by fs) (Gone k place (f ∷ fs))
  Gone-more storage place by f fs ih = record { at = λ s g. rest s g }
    where
      wider : (t : Inventory) → Gone k place fs t → Gone k place (f ∷ fs) t
      wider t (inl none_) = inl none_
      wider t (inr (b, (at, one), h)) = inr (b, (at, more_found _ one _), h)

      rest :
          (s : Session)
          → Gone k place (f ∷ []) s.db.tables
          → Returns (λ _ s'. Gone k place (f ∷ fs) s'.db.tables) (add_found storage place by fs s)
      rest s (inl none_) =
          Returns-weaken (λ _ s'. Gone k place fs s'.db.tables) _ _ (ih.at s none_)
            (λ _ s' g. wider s'.db.tables g)
      rest s (inr (b, (at, one), h)) =
          Returns-weaken (λ _ s'. Holds k (some b) s'.db.tables) _ _
            ((add_found-Holds b storage place by fs).at s h)
            (λ _ s' g. inr (b, (at, first_found _ _ one), g))

  -- Found stock is created after an emptied row is gone.
  add_found-none :
      (storage place : RowId) (by : Option RowId) (fs : List FoundStock)
      → Triple (Holds k none) (add_found storage place by fs) (Gone k place fs)
  unfolding add_found
  add_found-none storage place by [] = Triple-pure [] (λ t h. inl h)
  add_found-none storage place by (f ∷ fs) =
      Triple-bind (create_batch_tx-none k storage place by f) (λ v.
        Triple-bind (Gone-more storage place by f fs (add_found-none storage place by fs))
          (λ ids. Triple-pure _ (λ t h. h)))

  -- What is left of a batch after its count and the found stock: none if it was counted empty, unless
  -- found stock was created under its id, and else the row with the counted quantity.
  abbrev pub Left : RowId → List FoundStock → ℤ → Batch → Inventory → Type 0
  Left place fs q b t =
      (n : ℕ) × (q ≡ pos n)
      × (((n ≡ 0) × Gone k place fs t) ⊎ ((0 < n) × Holds k (some (set_quantity n b)) t))

  pub add_found-Left :
      (b : Batch) (q : ℤ) (storage place : RowId) (by : Option RowId) (fs : List FoundStock)
      → Triple (Counted k q b) (add_found storage place by fs) (Left place fs q b)
  add_found-Left b q storage place by fs = record { at = λ s (n, e, row). kept s n e row }
    where
      kept :
          (s : Session) (n : ℕ)
          → q ≡ pos n
          → ((n ≡ 0) × Holds k none s.db.tables)
            ⊎ ((0 < n) × Holds k (some (set_quantity n b)) s.db.tables)
          → Returns (λ _ s'. Left place fs q b s'.db.tables) (add_found storage place by fs s)
      kept s n e (inl (empty, gone)) =
          Returns-weaken (λ _ s'. Gone k place fs s'.db.tables) _ _
            ((add_found-none storage place by fs).at s gone) (λ _ s' g. (n, e, inl (empty, g)))
      kept s n e (inr (full, there)) =
          Returns-weaken (λ _ s'. Holds k (some (set_quantity n b)) s'.db.tables) _ _
            ((add_found-Holds (set_quantity n b) storage place by fs).at s there)
            (λ _ s' g. (n, e, inr (full, g)))
