-- ===== src/Store/Consumption/Taken.antt =====
-- internal/store/consumption.go: what a confirm takes out of the stock.
use mathlib.Core.Path.{subst}
use inventory.Prelude.{
  ◌≡◌, sym, ◌∙◌, ap, Option, none, some, List, [], ◌∷◌, String, ℤ, pos, ◌+ℤ◌, ◌-ℤ◌, ltb_ℤ, pos_part,
  ◌==◌, if◌then◌else◌, int_laws, inl, inr, Bool-cases, ==_iff, arith,
}
use inventory.Store.Schema.{RowId, LogReason, consumption, Database}
use inventory.Store.Tx.{ok, Env}
use inventory.Store.Tx.Triple.{
  Triple, Triple-bind, Triple-gets, Triple-row_or, Triple-refuse_if, Triple-from_result,
  Triple-pure, Triple-fail, Triple-if, Triple-strengthen, Triple-in_tx_ok,
}
use inventory.Store.Tx.Answers.{
  Answers, Answers-then, Answers-bind, Answers-pure, Answers-fail, Answers-if, Answers-tables,
  Answers-row_or,
}
use inventory.Store.Batches.{apply_delta, adjust_batch_tx}
use inventory.Store.Sound.{of_product, stock, net, Sound}
use inventory.Store.Sound.Steps.{bump-keeps, require_product-keeps}
use inventory.Store.Sound.Confirmed.{consume_job-keeps, confirm_consumption-Sound}
use inventory.Store.Flow.{Logged, write_log-Logged, write_quantity-Logged, delete_batch-Logged}
use inventory.Store.Flow.Stock.{stock_of_net}
use inventory.Store.Consumption.{
  ConsumeBatchDecrement, ConsumeDecision, apply_decrements, apply_accepted, apply_decisions,
  confirm_consumption_tx, confirm_consumption,
}

module _ (p : RowId) where
  -- The units of `p` that the decrements of a row of product `q` name.
  unfoldable pub decremented : RowId → List ConsumeBatchDecrement → ℤ
  decremented q [] = pos 0
  decremented q (d ∷ ds) = of_product p q d.quantity +ℤ decremented q ds

  abbrev named_by : Option RowId → List ConsumeBatchDecrement → ℤ
  named_by none ds = pos 0
  named_by (some q) ds = decremented q ds

  -- The units of `p` that the accepted decisions name.
  unfoldable pub named : List ConsumeDecision → ℤ
  unfolding decremented
  named [] = pos 0
  named (d ∷ ds) = (if d.accept then named_by d.product_id d.decrements else pos 0) +ℤ named ds

  -- The answer of an adjustment is the product whose stock it moved.
  adjust_batch_tx-Answers :
      (k : ℤ) (storage batch : RowId) (delta : ℤ) (reason : LogReason) (user : Option RowId)
      → Answers
          (Logged p k)
          (adjust_batch_tx storage batch delta reason user)
          (λ q. Logged p (k +ℤ of_product p q delta))
  unfolding adjust_batch_tx apply_delta
  adjust_batch_tx-Answers k storage batch delta reason user = Answers-tables (λ t h.
      Answers-row_or _ _ (λ b found.
        Answers-if (ltb_ℤ (pos b.quantity +ℤ delta) (pos 0)) (λ _. Answers-fail _)
          (λ _.
            Answers-if (pos_part (pos b.quantity +ℤ delta) == 0)
              (λ _.
                Answers-bind
                  (Triple-strengthen (λ u e. subst (Logged p k) (sym e) h)
                    (delete_batch-Logged p k b.id))
                  (λ _.
                    Answers-bind (write_log-Logged p k b.product_id none delta reason user) (λ _.
                      Answers-bind (bump-keeps storage user reason b.id)
                        (λ _. Answers-pure b.product_id (λ u l. l)))))
              (λ _.
                Answers-bind
                  (Triple-strengthen (λ u e. subst (Logged p k) (sym e) h)
                    (write_quantity-Logged p k b.id _))
                  (λ _.
                    Answers-bind (write_log-Logged p k b.product_id (some b.id) delta reason user)
                      (λ _.
                        Answers-bind (bump-keeps storage user reason b.id)
                          (λ _. Answers-pure b.product_id (λ u l. l))))))))

  one_less :
      (q : RowId) (k n rest : ℤ)
      → k +ℤ of_product p q (pos 0 -ℤ n) -ℤ rest ≡ k -ℤ (of_product p q n +ℤ rest)
  one_less q k n rest = elim (Bool-cases (q == p)) [
    | inl same ↦ rw same (omega int_laws)
    | inr other ↦ rw other (omega int_laws)
  ]

  apply_decrements-Logged :
      (k : ℤ) (storage product : RowId) (user : Option RowId) (ds : List ConsumeBatchDecrement)
      → Triple
          (Logged p k)
          (apply_decrements storage product user ds)
          (Logged p (k -ℤ decremented product ds))
  unfolding apply_decrements decremented
  apply_decrements-Logged k storage product user [] = Triple-pure [] (λ t h. h ∙ omega int_laws)
  apply_decrements-Logged k storage product user (d ∷ ds) =
      Answers-then
        (adjust_batch_tx-Answers k storage d.batch_id (pos 0 -ℤ d.quantity) consumption user)
        (λ owner. Triple-refuse_if _ _ (λ own.
          let same : owner ≡ product = ground (arith, ==_iff owner product) in
          Triple-bind
            (Triple-strengthen (λ t h. rw (← same) h)
              (apply_decrements-Logged (k +ℤ of_product p product (pos 0 -ℤ d.quantity)) storage
                product user ds))
            (λ ids. Triple-pure _ (λ t h. h ∙ one_less product k d.quantity _))))

  apply_accepted-Logged :
      (k : ℤ) (storage : RowId) (user product : Option RowId) (ds : List ConsumeBatchDecrement)
      → Triple
          (Logged p k)
          (apply_accepted storage user product ds)
          (Logged p (k -ℤ named_by product ds))
  apply_accepted-Logged k storage user none ds = Triple-fail _
  apply_accepted-Logged k storage user (some q) ds =
      require_product-keeps storage q (λ t row h found. Triple-refuse_if _ _ (λ some_left.
        Triple-strengthen (λ u e. subst (Logged p k) (sym e) h)
          (apply_decrements-Logged k storage q user ds)))

  apply_decisions-Logged :
      (k : ℤ) (storage : RowId) (user : Option RowId) (ds : List ConsumeDecision)
      → Triple (Logged p k) (apply_decisions storage user ds) (Logged p (k -ℤ named ds))
  unfolding apply_decisions named
  apply_decisions-Logged k storage user [] = Triple-pure [] (λ t h. h ∙ omega int_laws)
  apply_decisions-Logged k storage user (d ∷ ds) =
      Triple-bind
        (Triple-if
          {R = Logged p (k -ℤ (if d.accept then named_by d.product_id d.decrements else pos 0))}
          d.accept
          (λ yes_. rw yes_ (apply_accepted-Logged k storage user d.product_id d.decrements))
          (λ no_. rw no_ (Triple-pure _ (λ t h. h ∙ omega int_laws))))
        (λ ids.
          Triple-bind
            (apply_decisions-Logged
              (k -ℤ (if d.accept then named_by d.product_id d.decrements else pos 0)) storage user
              ds)
            (λ more. Triple-pure _ (λ t h. h ∙ omega int_laws)))

minus_as_plus : (k n : ℤ) → k -ℤ n ≡ k +ℤ (pos 0 -ℤ n)
minus_as_plus k n = omega int_laws

-- From a sound stock, a confirm of a consumption proposal that succeeds takes out of every product's
-- stock exactly the units that the accepted decisions for the product name.
pub stock-confirm_consumption :
    (decode : Option String → Option (List String)) (env : Env) (storage job : RowId)
    (user : Option RowId) (decisions : List ConsumeDecision) (db : Database) (p : RowId)
    {ids : List RowId}
    → Sound db.tables
    → (confirm_consumption decode env storage job user decisions db).0 ≡ ok ids
    → stock p (confirm_consumption decode env storage job user decisions db).1.tables.batches
      ≡ stock p db.tables.batches +ℤ (pos 0 -ℤ named p decisions)
unfolding confirm_consumption confirm_consumption_tx
stock-confirm_consumption decode env storage job user decisions db p h done =
    stock_of_net p _ db.tables _ h
      (confirm_consumption-Sound decode env storage job user decisions db h)
      (Triple-in_tx_ok env db
        (Triple-gets _ (λ js. Triple-row_or _ _ (λ j found. Triple-refuse_if _ _ (λ ready.
          Triple-from_result _ (λ _ rows.
            Triple-bind
              (Triple-strengthen (λ t e. ap (λ u. net p u.logs) e)
                (apply_decisions-Logged p (net p db.tables.logs) storage user decisions))
              (λ ids. Triple-bind (consume_job-keeps storage job) (λ _.
                Triple-pure _
                  (λ t k. k ∙ minus_as_plus (net p db.tables.logs) (named p decisions)))))))))
        done)
