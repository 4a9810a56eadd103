-- ===== src/Store/Schema.antt =====
-- The rows that internal/store reads and writes, and the tables that hold them. A field is a column
-- that the modelled code reads or writes; ids are UUIDs, and `int` columns of stock are never
-- negative (a CHECK of the schema).
use inventory.Prelude.{ℕ, Option, List, String, ℤ}
use inventory.Expiry.{Day, ItemType}

abbrev pub RowId : Type 0
RowId = ℕ

-- An instant, in seconds.
abbrev pub Instant : Type 0
Instant = ℤ

-- `blank` is the empty string, which no column accepts.
pub data LogReason : Type 0 where
  purchase consumption audit vision_ingestion move blank : LogReason

-- `blank` is the empty string, which createBatch reads as `derived`.
pub data ExpirationSource : Type 0 where
  derived user blank : ExpirationSource

pub record Product : Type 0 where
  pub id : RowId
  pub storage_id : RowId
  pub name : String
  pub category_id : Option RowId
  pub catalog_id : Option RowId
  pub item_type : ItemType
  pub default_shelf_life_days : Option ℤ
  pub min_stock : ℤ
  pub image_url : Option String
  pub icon_name : Option String

pub record CatalogProduct : Type 0 where
  pub id : RowId
  pub default_shelf_life_days : Option ℤ

pub record Category : Type 0 where
  pub id : RowId
  pub storage_id : RowId
  pub parent_id : Option RowId
  pub name : String
  pub default_shelf_life_days : Option ℤ
  pub created_at : Instant
  pub updated_at : Instant

pub record Location : Type 0 where
  pub id : RowId
  pub storage_id : RowId
  pub parent_id : Option RowId
  pub name : String
  pub description : Option String
  pub created_at : Instant
  pub updated_at : Instant
  pub last_audited_at : Option Instant

pub record Container : Type 0 where
  pub id : RowId
  pub storage_id : RowId
  pub label : String
  pub container_type : Option String
  pub created_at : Instant
  pub destroyed_at : Option Instant

pub record Batch : Type 0 where
  pub id : RowId
  pub product_id : RowId
  pub location_id : RowId
  pub quantity : ℕ
  pub expiration_date : Option Day
  pub expiration_source : ExpirationSource
  pub created_at : Instant
  pub container_id : Option RowId

pub record InventoryLog : Type 0 where
  pub id : RowId
  pub product_id : RowId
  pub batch_id : Option RowId
  pub change_qty : ℤ
  pub reason : LogReason
  pub created_by : Option RowId
  pub timestamp : Instant

pub record UserProgress : Type 0 where
  pub storage_id : RowId
  pub user_id : RowId
  pub xp : ℤ
  pub level : ℕ
  pub last_active_week : Option Day
  pub recomputed_at : Instant

pub data GeneratorKind : Type 0 where
  stale_location missing_expiry uncategorized imageless : GeneratorKind
  untracked_reorder expiring_soon consumption_hygiene first_mile : GeneratorKind

pub GeneratorKind-discrete : Discrete GeneratorKind
GeneratorKind-discrete = hlevel

-- The JSON of `quests.params`, one shape to a constructor.
pub data Params : Type 0 where
  id_list : List RowId → Params
  location : RowId → Params
  start_count : ℕ → Params
  absent : Params

pub record Quest : Type 0 where
  pub id : RowId
  pub storage_id : RowId
  pub week_start : Day
  pub generator : GeneratorKind
  pub params : Params
  pub target_count : ℤ
  pub xp_reward : ℤ
  pub completed_at : Option Instant

pub record QuestContributor : Type 0 where
  pub quest_id : RowId
  pub user_id : RowId

pub data JobStatus : Type 0 where
  pending done failed consumed : JobStatus

pub data JobKind : Type 0 where
  shelf_ingestion product_photo shopping_list_photo consumption_photo : JobKind

-- The payload is the text of a JSON document.
pub record Job : Type 0 where
  pub id : RowId
  pub storage_id : RowId
  pub kind : JobKind
  pub status : JobStatus
  pub payload : Option String
  pub error : Option String
  pub created_by : Option RowId
  pub image_filename : Option String
  pub location_hint_id : Option RowId
  pub created_at : Instant
  pub updated_at : Instant
  pub lease_owner : Option RowId
  pub lease_expires_at : Option Instant

-- What the stock operations work on.
pub record Inventory : Type 0 where
  pub products : List Product
  pub catalog : List CatalogProduct
  pub categories : List Category
  pub locations : List Location
  pub containers : List Container
  pub batches : List Batch
  pub logs : List InventoryLog

-- The cache of scores.
pub record Game : Type 0 where
  pub progress : List UserProgress
  pub quests : List Quest
  pub contributors : List QuestContributor

-- What a client may hold a copy of.
pub data EntityType : Type 0 where
  product_entity category_entity location_entity shopping_list_entity shopping_list_item_entity :
      EntityType

-- The trace of a deletion.
pub record Tombstone : Type 0 where
  pub id : RowId
  pub storage_id : RowId
  pub entity_type : EntityType
  pub entity_id : RowId
  pub deleted_at : Instant

-- `storages` holds the ids of the rows of the table.
pub record Database : Type 0 where
  pub storages : List RowId
  pub tables : Inventory
  pub game : Game
  pub jobs : List Job
  pub tombstones : List Tombstone

-- The primary keys.
abbrev pub product_key : Product → RowId
product_key r = r.id

abbrev pub catalog_key : CatalogProduct → RowId
catalog_key r = r.id

abbrev pub category_key : Category → RowId
category_key r = r.id

abbrev pub location_key : Location → RowId
location_key r = r.id

abbrev pub container_key : Container → RowId
container_key r = r.id

abbrev pub batch_key : Batch → RowId
batch_key r = r.id

abbrev pub log_key : InventoryLog → RowId
log_key r = r.id

abbrev pub quest_key : Quest → RowId
quest_key r = r.id

abbrev pub job_key : Job → RowId
job_key r = r.id

abbrev pub tombstone_key : Tombstone → RowId
tombstone_key r = r.id
