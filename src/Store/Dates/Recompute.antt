-- ===== src/Store/Dates/Recompute.antt =====
-- RecomputeDerivedExpiry as one pass over the batches.
use mathlib.Core.Option
use inventory.Prelude.{
  ℕ, ◌≡◌, refl, sym, ap, ◌∙◌, none, some, List, [], ◌∷◌, map, false, inl, inr, Bool-cases,
  Option-cases, ◌==◌, ==_iff, ==_refl, All,
}
use inventory.Prelude.Table.{find, Unique, update_where}
use inventory.Prelude.Table.Laws.{find-map}
use inventory.Expiry.{Resolution, resolve}
use inventory.Store.Schema.{RowId, Product, Batch, Inventory, Database, batch_key}
use inventory.Store.Tx.{Session, ok, ◌>>=◌, pure, row_or, gets, put_tables, Env}
use inventory.Store.Tx.Rules.{Returns, Returns-bind, Returns-weaken, in_tx-keeps, in_tx-succeeds}
use inventory.Store.Rows.{find_product}
use inventory.Store.ShelfLife.{rules_of, expiry_rules_for}
use inventory.Store.Dates.{
  DerivedBatch, load_derived_batches, is_redated, redated, date_of_row, is_derived,
  apply_derived_expiry, recompute_derived_expiry, recompute_derived_expiry_tx,
}
use inventory.Store.Dates.Cascade.{
  rederived, step, settle, settle-id, settle-user, settle-loaded, IsOnly,
}

-- A row of a table with unique ids is the one under its id.
abbrev IsSole : List Batch → Batch → Type 0
IsSole bs b = (find batch_key b.id bs ≡ some b) × IsOnly b bs

absent-IsOnly :
    (k : RowId) (b : Batch) (bs : List Batch) → k ≡ b.id → find batch_key k bs ≡ none → IsOnly b bs
unfolding find
absent-IsOnly k b [] e h = tt
absent-IsOnly k b (x ∷ bs) e h = elim (Bool-cases (x.id == k)) [
  | inl same ↦ absurd (cc (rw same at h))
  | inr other ↦
      (λ e'. absurd (cc (other, ==_refl k, e' ∙ sym e)), absent-IsOnly k b bs e (rw other at h))
]

IsSole-below :
    (x b : Batch) (bs : List Batch)
    → find batch_key x.id bs ≡ none
    → IsSole bs b
    → IsSole (x ∷ bs) b
unfolding find
IsSole-below x b bs h (found, only) = elim (Bool-cases (x.id == b.id)) [
  | inl same ↦ absurd (cc (found, h, (==_iff x.id b.id).0 same))
  | inr other ↦ (rw other found, (λ e. absurd (cc (other, ==_refl b.id, e)), only))
]

All-IsSole-below :
    (x : Batch) (all bs : List Batch)
    → find batch_key x.id all ≡ none
    → All (IsSole all) bs
    → All (IsSole (x ∷ all)) bs
All-IsSole-below x all [] h k = tt
All-IsSole-below x all (b ∷ bs) h k = (IsSole-below x b all h k.0, All-IsSole-below x all bs h k.1)

Unique-IsSole : (bs : List Batch) → Unique batch_key bs → All (IsSole bs) bs
unfolding find
Unique-IsSole [] u = tt
Unique-IsSole (x ∷ bs) u = (
  (rw (==_refl x.id) refl, (λ e. refl, absent-IsOnly x.id x bs refl u.0)),
  All-IsSole-below x bs bs u.0 (Unique-IsSole bs u.1),
)

module _ (r : Resolution) where
  pass_of_step :
      (d : DerivedBatch) (bs : List Batch)
      → update_where (is_redated d.id) (redated (date_of_row r d.created_at)) bs ≡ map (step r d) bs
  unfolding update_where
  pass_of_step d [] = refl
  pass_of_step d (b ∷ bs) = ap (λ l. step r d b ∷ l) (pass_of_step d bs)

  passes :
      (d : DerivedBatch) (ds : List DerivedBatch) (bs : List Batch)
      → map (settle r ds) (map (step r d) bs) ≡ map (settle r (d ∷ ds)) bs
  unfolding settle
  passes d ds [] = refl
  passes d ds (b ∷ bs) = ap (λ l. settle r ds (step r d b) ∷ l) (passes d ds bs)

  no_pass : (bs : List Batch) → map (settle r []) bs ≡ bs
  unfolding settle
  no_pass [] = refl
  no_pass (b ∷ bs) = ap (λ l. b ∷ l) (no_pass bs)

  -- The tables after the loop.
  abbrev Settled : List DerivedBatch → Session → Session → Type 0
  Settled ds s s' =
      s'.db.tables ≡ record s.db.tables { batches = map (settle r ds) s.db.tables.batches }

  apply-Settled :
      (ds : List DerivedBatch) (s : Session)
      → Returns (λ _ s'. Settled ds s s') (apply_derived_expiry ds r s)
  unfolding apply_derived_expiry pure ◌>>=◌ gets put_tables
  apply-Settled [] s =
      sym (ap (λ bs. record s.db.tables { batches = bs }) (no_pass s.db.tables.batches))
  apply-Settled (d ∷ ds) s =
      Returns-bind _ (λ _ s'. Settled (d ∷ ds) s s') (apply_derived_expiry ds r) _ _
        (apply-Settled ds _)
        (λ _ s' e.
          e
          ∙ ap (λ bs. record s.db.tables { batches = bs })
              (ap (map (settle r ds)) (pass_of_step d s.db.tables.batches)
                ∙ passes d ds s.db.tables.batches))

  settled_is-rederived :
      (product : RowId) (all bs : List Batch)
      → All (IsSole all) bs
      → map (settle r (load_derived_batches product all)) bs ≡ map (rederived r product) bs
  settled_is-rederived product all [] h = refl
  settled_is-rederived product all (b ∷ bs) h =
      cc (settle-loaded r product b all h.0.0 h.0.1, settled_is-rederived product all bs h.1)

module _ (storage product : RowId) (s : Session) where
  expiry_rules_for-reads :
      (p : Product)
      → find_product storage product s.db.tables ≡ some p
      → Returns
          (λ rules s'. (s' ≡ s) × (rules ≡ rules_of storage s.db.tables p))
          (expiry_rules_for storage product s)
  unfolding expiry_rules_for ◌>>=◌ gets row_or pure
  expiry_rules_for-reads p found = rw found (refl, refl)

  -- The rules that the cascade reads, and what it leaves.
  recompute-Settled :
      (p : Product)
      → find_product storage product s.db.tables ≡ some p
      → Returns
          (λ _ s'.
            Settled
              (resolve (rules_of storage s.db.tables p))
              (load_derived_batches product s.db.tables.batches)
              s
              s')
          (recompute_derived_expiry_tx storage product s)
  unfolding recompute_derived_expiry_tx ◌>>=◌ gets
  recompute-Settled p found =
      Returns-bind (λ rules s'. (s' ≡ s) × (rules ≡ rules_of storage s.db.tables p)) _
        (expiry_rules_for storage product) _ s (expiry_rules_for-reads p found)
        (λ rules s' (e, known). rw (e, known) (apply-Settled _ _ s))

-- From unique batch ids, a recompute that succeeds rewrites the batches in one pass: every batch of
-- the product whose date follows the rules gets the date that the resolved rules give its creation,
-- and every other batch, and every other table, stays.
pub recompute_derived_expiry_exactly :
    (env : Env) (storage product : RowId) (db : Database) (p : Product) {n : ℕ}
    → Unique batch_key db.tables.batches
    → find_product storage product db.tables ≡ some p
    → (recompute_derived_expiry env storage product db).0 ≡ ok n
    → (recompute_derived_expiry env storage product db).1.tables ≡ record db.tables {
      batches = map (rederived (resolve (rules_of storage db.tables p)) product) db.tables.batches;
    }
unfolding recompute_derived_expiry
recompute_derived_expiry_exactly env storage product db p u found done =
    in_tx-succeeds
      (λ d. d.tables ≡ record db.tables {
        batches =
            map
              (settle (resolve (rules_of storage db.tables p))
                (load_derived_batches product db.tables.batches))
              db.tables.batches;
      })
      env (recompute_derived_expiry_tx storage product) db
      (recompute-Settled storage product _ p found) done
    ∙ ap (λ bs. record db.tables { batches = bs })
        (settled_is-rederived (resolve (rules_of storage db.tables p)) product db.tables.batches
          db.tables.batches (Unique-IsSole db.tables.batches u))

expiry_rules_for-quiet :
    (storage product : RowId) (s : Session)
    → Returns (λ _ s'. s' ≡ s) (expiry_rules_for storage product s)
unfolding expiry_rules_for ◌>>=◌ gets row_or pure
expiry_rules_for-quiet storage product s =
    elim (Option-cases (find_product storage product s.db.tables)) [
      | inl absent ↦ rw absent tt
      | inr found ↦ rw found.1 refl
    ]

settled-user :
    (r : Resolution) (ds : List DerivedBatch) (b : Batch) (t t' : Inventory)
    → find batch_key b.id t.batches ≡ some b
    → is_derived b.expiration_source ≡ false
    → t' ≡ record t { batches = map (settle r ds) t.batches }
    → find batch_key b.id t'.batches ≡ some b
settled-user r ds b t t' found by_user e =
    ap (λ (u : Inventory). find batch_key b.id u.batches) e
    ∙ find-map batch_key b.id (settle r ds) t.batches (settle-id r ds)
    ∙ ap (Option.map (settle r ds)) found
    ∙ ap some (settle-user r ds b by_user)

-- RecomputeDerivedExpiry leaves every batch as it is whose date a person set, a cleared date
-- included, whatever it answers.
pub recompute_derived_expiry-user :
    (env : Env) (storage product : RowId) (db : Database) (b : Batch)
    → find batch_key b.id db.tables.batches ≡ some b
    → is_derived b.expiration_source ≡ false
    → find batch_key b.id (recompute_derived_expiry env storage product db).1.tables.batches
      ≡ some b
unfolding recompute_derived_expiry recompute_derived_expiry_tx ◌>>=◌ gets
recompute_derived_expiry-user env storage product db b found by_user =
    in_tx-keeps (λ d. find batch_key b.id d.tables.batches ≡ some b) env _ db found
      (Returns-bind (λ _ s'. s' ≡ start) _ (expiry_rules_for storage product) _ start
        (expiry_rules_for-quiet storage product start)
        (λ rules s' e. rw e (
          Returns-weaken
            (λ _ s''.
              Settled (resolve rules) (load_derived_batches product db.tables.batches) start s'')
            _ _
            (apply-Settled (resolve rules) (load_derived_batches product db.tables.batches) start)
            (λ _ s'' settled.
              settled-user (resolve rules) (load_derived_batches product db.tables.batches) b
                db.tables s''.db.tables found by_user settled))))
  where
    start : Session
    start = record { db = db; ids = env.ids; clock = env.clock }
