-- ===== src/Tests/Dates.antt =====
-- The cascade of dates at a household with one date that a person set.
use inventory.Prelude.{◌≡◌, refl, none, some, [], ◌∷◌, map, pos}
use inventory.Prelude.Table.{find, Unique, update_where, count_where}
use inventory.Expiry.{resolve}
use inventory.Store.Schema.{user, Batch, Database, batch_key}
use inventory.Store.Tx.{ok}
use inventory.Store.ShelfLife.{rules_of}
use inventory.Store.Rows.{find_product}
use inventory.Store.Dates.{
  recompute_derived_expiry, load_derived_batches, reset_batch_expiration_to_derived,
}
use inventory.Store.Dates.Cascade.{rederived}
use inventory.Store.Dates.Recompute.{
  recompute_derived_expiry_exactly, recompute_derived_expiry-user,
}
use inventory.Tests.{milk, six_bottles, household, env, running}

abbrev opened : Batch
opened = record six_bottles {
  id = 21;
  quantity = 1;
  expiration_date = none;
  expiration_source = user;
}

abbrev kitchen : Database
kitchen = record household {
  tables = record household.tables { batches = six_bottles ∷ opened ∷ [] };
}

kitchen-Unique : Unique batch_key kitchen.tables.batches
unfolding find
kitchen-Unique = (refl, (refl, tt))

recompute_runs : (recompute_derived_expiry env 100 1 kitchen).0 ≡ ok 1
unfolding recompute_derived_expiry running load_derived_batches update_where count_where
recompute_runs = refl

recompute_derived_expiry_exactly_example :
    (recompute_derived_expiry env 100 1 kitchen).1.tables ≡ record kitchen.tables {
      batches =
          map (rederived (resolve (rules_of 100 kitchen.tables milk)) 1) kitchen.tables.batches;
    }
unfolding find_product find
recompute_derived_expiry_exactly_example =
    recompute_derived_expiry_exactly env 100 1 kitchen milk kitchen-Unique refl recompute_runs

-- Seven days after the day of the delivery.
recomputed :
    (recompute_derived_expiry env 100 1 kitchen).1.tables.batches
    ≡ record six_bottles { expiration_date = some (pos 8) } ∷ opened ∷ []
unfolding recompute_derived_expiry running load_derived_batches update_where count_where
recomputed = refl

recompute_derived_expiry-user_example :
    find batch_key 21 (recompute_derived_expiry env 100 1 kitchen).1.tables.batches ≡ some opened
unfolding find
recompute_derived_expiry-user_example =
    recompute_derived_expiry-user env 100 1 kitchen opened refl refl

reset_runs :
    (reset_batch_expiration_to_derived env 100 21 kitchen).1.tables.batches
    ≡ six_bottles
      ∷ record six_bottles { id = 21; quantity = 1; expiration_date = some (pos 8) }
      ∷ []
unfolding reset_batch_expiration_to_derived running
reset_runs = refl
