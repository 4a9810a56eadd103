-- ===== src/Tests/Stock.antt =====
-- The stock operations at the household.
use inventory.Prelude.{
  ◌≡◌, refl, none, some, [], ◌∷◌, pos, negsuc, ◌+ℤ◌, inl, inr, Bool-cases, ◌==◌, arith,
}
use inventory.Prelude.Table.{find}
use inventory.Store.Schema.{RowId, consumption, purchase, derived}
use inventory.Store.Tx.{ok}
use inventory.Store.Rows.{find_batch}
use inventory.Store.Containers.{blank}
use inventory.Store.Batches.{NewBatch, create_batch, adjust_batch}
use inventory.Store.Batches.Split.{SplitBatchInput, split_batch}
use inventory.Store.Batches.Update.{BatchPatch, update_batch}
use inventory.Store.Sound.{of_product, stock, net, Sound}
use inventory.Store.Sound.Create.{create_batch-Sound}
use inventory.Store.Sound.Adjust.{adjust_batch-Sound}
use inventory.Store.Sound.Divide.{split_batch-Sound}
use inventory.Store.Sound.Amend.{update_batch-Sound}
use inventory.Store.Flow.Stock.{stock-create_batch, stock-split_batch}
use inventory.Store.Flow.Adjusted.{stock-adjust_batch}
use inventory.Store.Flow.Amended.{stock-update_batch, counted}
use inventory.Tests.{milk, fridge, six_bottles, shelves, household, env, running}

household-balance : (p : RowId) → net p shelves.logs ≡ stock p shelves.batches
unfolding net stock ◌+ℤ◌
household-balance p = elim (Bool-cases (1 == p)) [ inl same ↦ rw same | inr other ↦ rw other ]

pub household-Sound : Sound household.tables
unfolding find
household-Sound = record {
  unique = (refl, tt);
  placed = (
    record {
      product = milk;
      location = fridge;
      its_product = refl;
      its_location = refl;
      one_storage = refl;
    },
    tt,
  );
  positive = (omega arith, tt);
  balance = household-balance;
}

abbrev two_more : NewBatch
two_more = record {
  product_id = 1;
  location_id = 11;
  quantity = pos 2;
  expiration_date = none;
  expiration_source = derived;
  reason = purchase;
  created_by = some 7;
  container_label = some "bag";
  container_type = none;
}

create_batch-Sound_example : Sound (create_batch env 100 two_more household).1.tables
create_batch-Sound_example = create_batch-Sound env 100 two_more household household-Sound

create_batch_runs :
    (create_batch env 100 two_more household).0
    ≡ ok (record {
      batch = record {
        id = 50;
        product_id = 1;
        location_id = 11;
        quantity = 2;
        expiration_date = some (pos 19730);
        expiration_source = derived;
        created_at = pos 1704110400;
        container_id = some 51;
      };
      container_label = some "bag";
      container_type = none;
    })
unfolding create_batch running
create_batch_runs = refl

stock-create_batch_example :
    stock 1 (create_batch env 100 two_more household).1.tables.batches
    ≡ stock 1 household.tables.batches +ℤ of_product 1 1 (pos 2)
stock-create_batch_example =
    stock-create_batch env 100 two_more household 1 household-Sound create_batch_runs

adjust_batch-Sound_example :
    Sound (adjust_batch env 100 20 (negsuc 5) consumption (some 7) household).1.tables
adjust_batch-Sound_example =
    adjust_batch-Sound env 100 20 (negsuc 5) consumption (some 7) household household-Sound

-- The last bottles go: the batch is deleted.
adjust_batch_runs : (adjust_batch env 100 20 (negsuc 5) consumption (some 7) household).0 ≡ ok tt
unfolding adjust_batch running
adjust_batch_runs = refl

stock-adjust_batch_example :
    stock 1 (adjust_batch env 100 20 (negsuc 5) consumption (some 7) household).1.tables.batches
    ≡ stock 1 household.tables.batches +ℤ of_product 1 1 (negsuc 5)
unfolding find_batch
stock-adjust_batch_example =
    stock-adjust_batch env 100 20 (some 7) household 1 (negsuc 5) consumption {b = six_bottles}
      household-Sound refl adjust_batch_runs

abbrev two_to_the_cellar : SplitBatchInput
two_to_the_cellar = record {
  quantity = pos 2;
  target_location_id = 11;
  container_disposition = blank;
}

split_batch-Sound_example : Sound (split_batch env 100 20 two_to_the_cellar none household).1.tables
split_batch-Sound_example =
    split_batch-Sound env 100 20 two_to_the_cellar none household household-Sound

stock-split_batch_example :
    stock 1 (split_batch env 100 20 two_to_the_cellar none household).1.tables.batches
    ≡ stock 1 household.tables.batches
stock-split_batch_example =
    stock-split_batch env 100 20 two_to_the_cellar none household 1 household-Sound

split_batch_runs :
    (split_batch env 100 20 two_to_the_cellar none household).1.tables.batches
    ≡ record six_bottles { quantity = 4 }
      ∷ (record six_bottles {
        id = 50;
        location_id = 11;
        quantity = 2;
        created_at = pos 1704110400;
        container_id = none;
      })
      ∷ []
unfolding split_batch running
split_batch_runs = refl

abbrev count_and_carry : BatchPatch
count_and_carry = record {
  quantity = some (pos 5);
  location_id = some 11;
  container_label = none;
  container_type = none;
}

update_batch-Sound_example :
    Sound (update_batch env 100 20 count_and_carry (some 7) household).1.tables
update_batch-Sound_example =
    update_batch-Sound env 100 20 count_and_carry (some 7) household household-Sound

update_batch_runs :
    (update_batch env 100 20 count_and_carry (some 7) household).0
    ≡ ok (
        some (record {
          batch = record six_bottles { quantity = 5; location_id = 11 };
          container_label = some "crate";
          container_type = none;
        }))
unfolding update_batch running
update_batch_runs = refl

stock-update_batch_example :
    stock 1 (update_batch env 100 20 count_and_carry (some 7) household).1.tables.batches
    ≡ stock 1 household.tables.batches +ℤ of_product 1 1 (counted (some (pos 5)) six_bottles)
unfolding find_batch
stock-update_batch_example =
    stock-update_batch env 100 20 count_and_carry (some 7) household 1 {b = six_bottles}
      household-Sound refl update_batch_runs
