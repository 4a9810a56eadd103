-- ===== src/Store/Quests.antt =====
-- internal/store/quests.go: the weekly quests that a write may advance, and their pay-out.
pub mod Frame
use inventory.Prelude.{
  ℕ, Option, none, some, List, [], ◌∷◌, ◌++◌, Bool, true, false, not, ◌&&◌, ◌||◌, ℤ, pos, ◌+ℤ◌,
  ◌-ℤ◌, ltb_ℤ, leb_ℤ, ◌==◌, is_some, length, select, exists, member, if◌then◌else◌,
}
use inventory.Prelude.Table.{find, modify}
use inventory.Expiry.{Day, Time, floor_div, utc_day}
use inventory.Store.Schema.{
  RowId, LogReason, purchase, consumption, audit, vision_ingestion, move, blank, Product, Batch,
  InventoryLog, Inventory, GeneratorKind, GeneratorKind-discrete, stale_location, missing_expiry,
  uncategorized, imageless, untracked_reorder, expiring_soon, consumption_hygiene, first_mile,
  Params, id_list, location, start_count, absent, Quest, QuestContributor, Game, quest_key,
  product_key, batch_key,
}
use inventory.Store.Tx.{Result, ok, err, Session, Tx, ◌>>=◌, ◌>>◌, pure, put_game, when}
use inventory.Store.Rows.{find_product}
use inventory.Store.Progress.{bump_progress, monday_of, xp_for_ledger_reason}

-- What json.Unmarshal reads out of the params; a missing field is the zero value.
abbrev param_ids : Params → List RowId
param_ids (id_list ids) = ids
param_ids _ = []

abbrev param_location : Params → RowId
param_location (location l) = l
param_location _ = 0

abbrev param_start_count : Params → ℕ
param_start_count (start_count n) = n
param_start_count _ = 0

unfoldable pub qualifies_by_id : Params → Option RowId → Bool
qualifies_by_id params none = false
qualifies_by_id params (some target) = member target (param_ids params)

unfoldable pub quest_target_qualifies : GeneratorKind → Params → Option RowId → Bool
unfolding qualifies_by_id
quest_target_qualifies missing_expiry params target = qualifies_by_id params target
quest_target_qualifies uncategorized params target = qualifies_by_id params target
quest_target_qualifies imageless params target = qualifies_by_id params target
quest_target_qualifies untracked_reorder params target = qualifies_by_id params target
quest_target_qualifies expiring_soon params target = qualifies_by_id params target
quest_target_qualifies _ params target = true

-- `countMatching` over the products and over the batches.
unfoldable pub count_products : Params → (Product → Bool) → Inventory → ℤ
count_products params test t =
    pos (length (select (λ p. member p.id (param_ids params) && test p) t.products))

unfoldable pub count_batches : Params → (Batch → Bool) → Inventory → ℤ
count_batches params test t =
    pos (length (select (λ b. member b.id (param_ids params) && test b) t.batches))

-- expiration_date < CURRENT_DATE OR expiration_date >= CURRENT_DATE + 3, false of a NULL.
abbrev outside_critical : Day → Option Day → Bool
outside_critical today none = false
outside_critical today (some d) = ltb_ℤ d today || leb_ℤ (today +ℤ pos 3) d

abbrev batch_at : RowId → Option RowId → List Batch → Bool
batch_at place none bs = false
batch_at place (some b) bs = exists (λ row. row.id == b && row.location_id == place) bs

abbrev is_consumption : LogReason → Bool
is_consumption consumption = true
is_consumption _ = false

-- timestamp >= week_start, where the week starts at midnight UTC
abbrev pub since : Day → InventoryLog → Bool
since week l = leb_ℤ week (floor_div l.timestamp 86400)

abbrev one_if : Bool → ℤ
one_if true = pos 1
one_if false = pos 0

-- The clamp of first_mile's progress.
abbrev clamp_progress : ℤ → ℤ → ℤ
clamp_progress progress target =
    let positive = if ltb_ℤ progress (pos 0) then pos 0 else progress in
    if ltb_ℤ target positive then target else positive

unfoldable pub generator_progress : GeneratorKind → RowId → Quest → Day → Inventory → ℤ
unfolding count_products count_batches
generator_progress missing_expiry storage q today t =
    count_batches q.params (λ b. is_some b.expiration_date) t
generator_progress uncategorized storage q today t =
    count_products q.params (λ p. is_some p.category_id) t
generator_progress imageless storage q today t =
    count_products q.params (λ p. is_some p.image_url || is_some p.icon_name) t
generator_progress untracked_reorder storage q today t =
    count_products q.params (λ p. ltb_ℤ (pos 0) p.min_stock) t
generator_progress expiring_soon storage q today t =
    count_batches q.params (λ b. b.quantity == 0 || outside_critical today b.expiration_date) t
generator_progress stale_location storage q today t = one_if (
    exists (λ l. batch_at (param_location q.params) l.batch_id t.batches && since q.week_start l)
      t.logs)
generator_progress consumption_hygiene storage q today t = one_if (
    exists
      (λ l.
        is_some (find_product storage l.product_id t)
        && (is_consumption l.reason && since q.week_start l))
      t.logs)
generator_progress first_mile storage q today t =
    clamp_progress
      (pos (length (select (λ p. p.storage_id == storage) t.products))
        -ℤ pos (param_start_count q.params))
      q.target_count

unfoldable pub quest_progress : RowId → Quest → Day → Inventory → ℤ
quest_progress storage q today t = generator_progress q.generator storage q today t

abbrev same_generator : GeneratorKind → GeneratorKind → Bool
same_generator a b = elim (GeneratorKind-discrete a b) [ yes _ ↦ true | no _ ↦ false ]

abbrev is_open_quest : RowId → Day → GeneratorKind → Quest → Bool
is_open_quest storage week generator q =
    q.storage_id == storage
    && ((leb_ℤ q.week_start week && leb_ℤ week q.week_start)
        && (same_generator q.generator generator && not (is_some q.completed_at)))

unfoldable pub find_quest : RowId → Day → GeneratorKind → List Quest → Option Quest
find_quest storage week generator [] = none
find_quest storage week generator (q ∷ qs) =
    if is_open_quest storage week generator q then some q else find_quest storage week generator qs

-- INSERT INTO quest_contributors … ON CONFLICT DO NOTHING
unfoldable pub add_contributor : RowId → RowId → List QuestContributor → List QuestContributor
add_contributor quest user cs =
    if exists (λ c. c.quest_id == quest && c.user_id == user) cs
    then cs
    else cs ++ (record { quest_id = quest; user_id = user }) ∷ []

-- The loop that pays every contributor of the quest.
unfoldable pub pay_contributors : RowId → RowId → ℤ → List QuestContributor → Tx (Unit {0})
pay_contributors storage quest xp_reward [] = pure tt
pay_contributors storage quest xp_reward (c ∷ cs) =
    when (c.quest_id == quest) (bump_progress storage c.user_id xp_reward)
    >> pay_contributors storage quest xp_reward cs

unfoldable pub complete_quest : RowId → Quest → Tx (Unit {0})
unfolding pay_contributors
complete_quest storage q s =
    (put_game (record s.db.game {
      quests =
          modify quest_key q.id (λ r. record r { completed_at = some s.clock.instant })
            s.db.game.quests;
    })
        >> pay_contributors storage q.id q.xp_reward s.db.game.contributors)
      s

-- From the point where the quest's row is locked.
unfoldable pub advance_quest : RowId → RowId → Option RowId → Quest → Tx (Unit {0})
unfolding complete_quest add_contributor quest_progress quest_target_qualifies
advance_quest storage user target q s =
    if quest_target_qualifies q.generator q.params target
    then (put_game
            (record s.db.game { contributors = add_contributor q.id user s.db.game.contributors })
          >> when
              (not (ltb_ℤ (quest_progress storage q (utc_day s.clock) s.db.tables) q.target_count))
              (complete_quest storage q))
        s
    else ok (tt, s)

unfoldable pub advance_one_quest : RowId → RowId → GeneratorKind → Option RowId → Tx (Unit {0})
unfolding advance_quest find_quest
advance_one_quest storage user generator target s =
    elim (find_quest storage (monday_of s.clock) generator s.db.game.quests) [
      | none ↦ ok (tt, s)
      | some q ↦ advance_quest storage user target q s
    ]

-- `questRelevantGenerators` at the reasons of the ledger.
abbrev pub quest_relevant_generators : LogReason → List GeneratorKind
quest_relevant_generators purchase = first_mile ∷ stale_location ∷ []
quest_relevant_generators vision_ingestion = first_mile ∷ stale_location ∷ []
quest_relevant_generators consumption = consumption_hygiene ∷ expiring_soon ∷ []
quest_relevant_generators _ = []

-- The loop of `advanceQuests`.
unfoldable pub advance_quests : RowId → RowId → List GeneratorKind → Option RowId → Tx (Unit {0})
unfolding advance_one_quest
advance_quests storage user [] target = pure tt
advance_quests storage user (g ∷ gs) target =
    advance_one_quest storage user g target >> advance_quests storage user gs target

unfoldable pub bump_scored : RowId → RowId → LogReason → RowId → Option ℤ → Tx (Unit {0})
unfolding bump_progress advance_quests
bump_scored storage user reason batch none = pure tt
bump_scored storage user reason batch (some xp) =
    bump_progress storage user xp
    >> advance_quests storage user (quest_relevant_generators reason) (some batch)

unfoldable pub bump_for_ledger_reason : RowId → Option RowId → LogReason → RowId → Tx (Unit {0})
unfolding bump_scored xp_for_ledger_reason
bump_for_ledger_reason storage none reason batch = pure tt
bump_for_ledger_reason storage (some user) reason batch =
    bump_scored storage user reason batch (xp_for_ledger_reason reason)
