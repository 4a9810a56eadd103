-- ===== src/Expiry/Chain.antt =====
-- The resolution chain of internal/expiry/expiry.go against its documented priority order.
use mathlib.Core.Path.{subst}
use inventory.Prelude.{
  ◌≡◌, refl, sym, ap, ◌↔◌, inl, inr, Option, none, some, List, [], ◌∷◌, ◌++◌, ℤ, arith, All,
  Option-cases,
}
use inventory.Expiry.{
  ItemType, Rules, Resolution, product, catalog, category, resolve, resolve_category,
  resolve_item_type,
}

-- A rule of the chain, with the source that it is reported under.
pub data Holds (r : Rules) : Resolution → Type 0 where
  by_product :
      (d : ℤ) → r.product_days ≡ some d → Holds r (record { days = some d; source = product })
  by_catalog :
      (d : ℤ)
      → r.product_days ≡ none
      → r.catalog_days ≡ some d
      → Holds r (record { days = some d; source = catalog })
  by_category :
      (d : ℤ) (nearer further : List (Option ℤ))
      → r.product_days ≡ none
      → r.catalog_days ≡ none
      → r.category_days ≡ nearer ++ some d ∷ further
      → All (λ o. o ≡ none) nearer
      → Holds r (record { days = some d; source = category })
  by_item_type :
      r.product_days ≡ none
      → r.catalog_days ≡ none
      → All (λ o. o ≡ none) r.category_days
      → Holds r (resolve_item_type r.item_type)

-- Where nothing before an entry is set, the walk over the categories stops at the entry.
resolve_category_first :
    (nearer further : List (Option ℤ)) (d : ℤ) (t : ItemType)
    → All (λ o. o ≡ none) nearer
    → resolve_category (nearer ++ some d ∷ further) t ≡ record { days = some d; source = category }
unfolding resolve_category
resolve_category_first [] further d t h = refl
resolve_category_first (some x ∷ nearer) further d t h = absurd (cc (h.0))
resolve_category_first (none ∷ nearer) further d t h = resolve_category_first nearer further d t h.1

resolve_category_unset :
    (cs : List (Option ℤ)) (t : ItemType)
    → All (λ o. o ≡ none) cs
    → resolve_category cs t ≡ resolve_item_type t
unfolding resolve_category
resolve_category_unset [] t h = refl
resolve_category_unset (some x ∷ cs) t h = absurd (cc (h.0))
resolve_category_unset (none ∷ cs) t h = resolve_category_unset cs t h.1

-- What the walk over the categories finds.
data CategoryHolds (cs : List (Option ℤ)) (t : ItemType) : Resolution → Type 0 where
  found :
      (d : ℤ) (nearer further : List (Option ℤ))
      → cs ≡ nearer ++ some d ∷ further
      → All (λ o. o ≡ none) nearer
      → CategoryHolds cs t (record { days = some d; source = category })
  unset : All (λ o. o ≡ none) cs → CategoryHolds cs t (resolve_item_type t)

further_up :
    (cs : List (Option ℤ)) (t : ItemType) {out : Resolution}
    → CategoryHolds cs t out
    → CategoryHolds (none ∷ cs) t out
further_up cs t (found d nearer further e h) =
    found d (none ∷ nearer) further (ap (λ l. none ∷ l) e) (refl, h)
further_up cs t (unset h) = unset (refl, h)

resolve_category-holds :
    (cs : List (Option ℤ)) (t : ItemType) → CategoryHolds cs t (resolve_category cs t)
unfolding resolve_category
resolve_category-holds [] t = unset tt
resolve_category-holds (some d ∷ cs) t = found d [] cs refl tt
resolve_category-holds (none ∷ cs) t = further_up cs t (resolve_category-holds cs t)

by_walk :
    (r : Rules) {out : Resolution}
    → r.product_days ≡ none
    → r.catalog_days ≡ none
    → CategoryHolds r.category_days r.item_type out
    → Holds r out
by_walk r p c (found d nearer further e h) = by_category d nearer further p c e h
by_walk r p c (unset h) = by_item_type p c h

resolve-walk :
    (r : Rules)
    → r.product_days ≡ none
    → r.catalog_days ≡ none
    → resolve r ≡ resolve_category r.category_days r.item_type
unfolding resolve
resolve-walk r p c = ground arith

resolve_unique : (r : Rules) {out : Resolution} → Holds r out → out ≡ resolve r
resolve_unique r (by_product d p) = unfold resolve in ground arith
resolve_unique r (by_catalog d p c) = unfold resolve in ground arith
resolve_unique r (by_category d nearer further p c e h) = cc (
  resolve-walk r p c,
  resolve_category_first nearer further d r.item_type h,
  ap (λ cs. resolve_category cs r.item_type) e,
)
resolve_unique r (by_item_type p c h) =
    cc (resolve-walk r p c, resolve_category_unset r.category_days r.item_type h)

resolve-Holds : (r : Rules) → Holds r (resolve r)
resolve-Holds r = elim (Option-cases r.product_days) [
  | inr p ↦ subst (Holds r) (resolve_unique r (by_product p.0 p.1)) (by_product p.0 p.1)
  | inl p ↦ elim (Option-cases r.catalog_days) [
    | inr c ↦ subst (Holds r) (resolve_unique r (by_catalog c.0 p c.1)) (by_catalog c.0 p c.1)
    | inl c ↦
        rw (resolve-walk r p c) (by_walk r p c (resolve_category-holds r.category_days r.item_type))
  ]
]

-- The resolution is the one that the chain's rules allow: the product's own value, else the
-- catalog's, else that of the nearest category with one, else the item type's fallback.
pub resolve_exactly : (r : Rules) (out : Resolution) → (resolve r ≡ out) ↔ Holds r out
resolve_exactly r out = (λ e. subst (Holds r) e (resolve-Holds r), λ h. sym (resolve_unique r h))
