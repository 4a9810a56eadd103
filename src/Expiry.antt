-- ===== src/Expiry.antt =====
-- internal/expiry/expiry.go: how long something keeps, the date that follows, and its urgency.
pub mod Chain
pub mod Bands
use inventory.Prelude.{
  ℕ, ◌/◌, Option, none, some, List, [], ◌∷◌, String, ℤ, pos, negsuc, ◌+ℤ◌, ltb_ℤ, if◌then◌else◌,
}

-- An instant in seconds since 1970 (UTC), in a zone that lies `offset` seconds east of UTC.
pub record Time : Type 0 where
  pub instant : ℤ
  pub offset : ℤ

-- Division that rounds down.
unfoldable pub floor_div : ℤ → ℕ → ℤ
floor_div (pos n) k = pos (n / k)
floor_div (negsuc n) k = negsuc (n / k)

-- A calendar day, as the number of days since 1970-01-01: a `time.Time` at midnight UTC.
abbrev pub Day : Type 0
Day = ℤ

-- `t.UTC().Truncate(24 * time.Hour)`
unfoldable pub utc_day : Time → Day
unfolding floor_div
utc_day t = floor_div t.instant 86400

unfoldable pub calendar_day : Time → Day
unfolding floor_div
calendar_day t = floor_div (t.instant +ℤ t.offset) 86400

-- The column is text: `other` stands for a value that the fallback map does not know.
pub data ItemType : Type 0 where
  perishable long_shelf_life non_perishable : ItemType
  other : String → ItemType

-- `itemTypeFallbackDays`; `none` is a missing key.
abbrev item_type_fallback_days : ItemType → Option (Option ℤ)
item_type_fallback_days perishable = some (some (pos 7))
item_type_fallback_days long_shelf_life = some (some (pos 365))
item_type_fallback_days non_perishable = some none
item_type_fallback_days (other _) = none

pub record Rules : Type 0 where
  pub product_days : Option ℤ
  pub catalog_days : Option ℤ
  pub category_days : List (Option ℤ)
  pub item_type : ItemType

pub data Source : Type 0 where
  product catalog category item_type unclassified : Source

pub record Resolution : Type 0 where
  pub days : Option ℤ
  pub source : Source

-- The end of the chain.
unfoldable pub resolve_item_type : ItemType → Resolution
resolve_item_type t = elim (item_type_fallback_days t) [
  | none ↦ record { days = none; source = unclassified }
  | some fallback ↦ record { days = fallback; source = item_type }
]

-- The loop over `rules.CategoryDays`.
unfoldable pub resolve_category : List (Option ℤ) → ItemType → Resolution
unfolding resolve_item_type
resolve_category [] t = resolve_item_type t
resolve_category (some d ∷ rest) t = record { days = some d; source = category }
resolve_category (none ∷ rest) t = resolve_category rest t

unfoldable pub resolve_catalog : Option ℤ → List (Option ℤ) → ItemType → Resolution
unfolding resolve_category
resolve_catalog (some d) cs t = record { days = some d; source = catalog }
resolve_catalog none cs t = resolve_category cs t

unfoldable pub resolve_product : Option ℤ → Rules → Resolution
unfolding resolve_catalog
resolve_product (some d) r = record { days = some d; source = product }
resolve_product none r = resolve_catalog r.catalog_days r.category_days r.item_type

unfoldable pub resolve : Rules → Resolution
unfolding resolve_product
resolve r = resolve_product r.product_days r

unfoldable pub date_for : Time → Resolution → Option Day
unfolding utc_day
date_for created_at r = elim r.days [ none ↦ none | some days ↦ some (utc_day created_at +ℤ days) ]

-- `undated` is UrgencyNone.
pub data Urgency : Type 0 where
  expired critical soon ok undated : Urgency

abbrev critical_within_days : ℤ
critical_within_days = pos 3

abbrev soon_within_days : ℤ
soon_within_days = pos 14

-- The `switch` of `Classify`, on the two calendar days.
unfoldable pub classify_days : Day → Day → Urgency
unfolding ◌+ℤ◌
classify_days day start =
    if ltb_ℤ day start
    then expired
    else if ltb_ℤ day (start +ℤ critical_within_days)
    then critical
    else if ltb_ℤ day (start +ℤ soon_within_days)
    then soon
    else ok

unfoldable pub classify : Option Time → Time → Urgency
unfolding classify_days calendar_day
classify none today = undated
classify (some date) today = classify_days (calendar_day date) (calendar_day today)
