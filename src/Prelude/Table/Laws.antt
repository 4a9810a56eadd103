-- ===== src/Prelude/Table/Laws.antt =====
-- The laws of tables: what a write does to lookups, to keys, to a predicate on rows, to a sum.
use inventory.Prelude.Tests.{◌==◌, if◌then◌else◌, Bool-cases, Option-cases, ==_iff}
use inventory.Prelude.Lists.{All}
use inventory.Prelude.Table.{find, modify, remove, insert, Unique, total}
use Prim.Native.Nat.{ℕ, ◌+◌}
use mathlib.Core.Path.{◌≡◌, refl, sym, subst}
use mathlib.Core.Logic.{inl, inr}
use mathlib.Core.List.{List, [], ◌∷◌, ◌++◌, map}
use mathlib.Core.Option
use mathlib.Core.Option.{Option, none, some}
use native.Mathlib.Omega.{arith}

some-eq : {B : Type 0} {a b : B} → some a ≡ some b → a ≡ b
some-eq h = cc

false-some : {B : Type 0} {b : B} → ◌≡◌ {A = Option B} none (some b) → ⊥
false-some h = cc

module _ {A : Type 0} (key : A → ℕ) where
  -- A row that is found has the key, and satisfies what all rows satisfy.
  pub key-find : (k : ℕ) (rs : List A) {r : A} → find key k rs ≡ some r → key r ≡ k
  unfolding find
  key-find k [] h = cc
  key-find k (x ∷ rs) h = elim (Bool-cases (key x == k)) [
    | inl e ↦ ground (arith, (==_iff (key x) k).0 e)
    | inr e ↦ key-find k rs (rw e at h)
  ]

  pub All-find {κ} :
      (P : A → Type κ) (k : ℕ) (rs : List A) {r : A} → All P rs → find key k rs ≡ some r → P r
  unfolding find
  All-find P k [] p h = absurd (cc)
  All-find P k (x ∷ rs) p h = elim (Bool-cases (key x == k)) [
    | inl e ↦ subst P (some-eq (rw e at h)) p.0
    | inr e ↦ All-find P k rs p.1 (rw e at h)
  ]

  pub find-append_none :
      (k : ℕ) (rs ss : List A) → find key k rs ≡ none → find key k (rs ++ ss) ≡ find key k ss
  unfolding find
  find-append_none k [] ss h = refl
  find-append_none k (x ∷ rs) ss h = ground (arith, find-append_none k rs ss)

  pub find-append_some :
      (k : ℕ) (rs ss : List A) {r : A} → find key k rs ≡ some r → find key k (rs ++ ss) ≡ some r
  unfolding find
  find-append_some k [] ss h = cc
  find-append_some k (x ∷ rs) ss {r} h = ground (arith, find-append_some k rs ss {r = r})

  pub find-remove :
      (k j : ℕ) (rs : List A)
      → find key j (remove key k rs) ≡ (if k == j then none else find key j rs)
  unfolding find remove
  find-remove k j [] = ground arith
  find-remove k j (x ∷ rs) = ground (arith, find-remove k j rs)

  pub find-modify :
      (k j : ℕ) (f : A → A) (rs : List A)
      → ((r : A) → key (f r) ≡ key r)
      → find key j (modify key k f rs)
        ≡ (if k == j then Option.map f (find key j rs) else find key j rs)
  unfolding find modify
  find-modify k j f [] keeps = ground arith
  find-modify k j f (x ∷ rs) keeps = ground (arith, keeps x, find-modify k j f rs keeps)

  pub Unique-modify :
      (k : ℕ) (f : A → A) (rs : List A)
      → ((r : A) → key (f r) ≡ key r)
      → Unique key rs
      → Unique key (modify key k f rs)
  unfolding modify
  Unique-modify k f [] keeps u = tt
  Unique-modify k f (x ∷ rs) keeps u = (
    ground (arith, keeps x, find-modify k (key x) f rs keeps, u.0),
    Unique-modify k f rs keeps u.1,
  )

  pub Unique-remove : (k : ℕ) (rs : List A) → Unique key rs → Unique key (remove key k rs)
  unfolding remove
  Unique-remove k [] u = tt
  Unique-remove k (x ∷ rs) u = elim (Bool-cases (key x == k)) [
    | inl e ↦ rw e (Unique-remove k rs u.1)
    | inr e ↦ rw e (ground (arith, find-remove k (key x) rs), Unique-remove k rs u.1)
  ]

  pub Unique-append :
      (r : A) (rs : List A) → find key (key r) rs ≡ none → Unique key rs → Unique key (rs ++ r ∷ [])
  unfolding find
  Unique-append r [] h u = (refl, tt)
  Unique-append r (x ∷ rs) h u = (
    rw (find-append_none (key x) rs (r ∷ []) u.0) (ground (arith, ==_iff (key x) (key r))),
    Unique-append r rs (ground arith) u.1,
  )

  -- A successful INSERT appends the row, whose key was new.
  pub insert-eq-some :
      (r : A) (rs : List A) {out : List A}
      → insert key r rs ≡ some out
      → (find key (key r) rs ≡ none) × (out ≡ rs ++ r ∷ [])
  unfolding insert
  insert-eq-some r rs h = elim (Option-cases (find key (key r) rs)) [
    | inl e ↦ (e, sym (some-eq (rw e at h)))
    | inr e ↦ absurd (false-some (rw e.1 at h))
  ]

  -- A predicate on rows: an UPDATE keeps it if it does so at the rows with the key.
  pub All-modify {κ} :
      (P : A → Type κ) (k : ℕ) (f : A → A) (rs : List A)
      → ((r : A) → key r ≡ k → P r → P (f r))
      → All P rs
      → All P (modify key k f rs)
  unfolding modify
  All-modify P k f [] keeps p = tt
  All-modify P k f (x ∷ rs) keeps p = elim (Bool-cases (key x == k)) [
    | inl e ↦ rw e (keeps x ((==_iff (key x) k).0 e) p.0, All-modify P k f rs keeps p.1)
    | inr e ↦ rw e (p.0, All-modify P k f rs keeps p.1)
  ]

  pub All-remove {κ} : (P : A → Type κ) (k : ℕ) (rs : List A) → All P rs → All P (remove key k rs)
  unfolding remove
  All-remove P k [] p = tt
  All-remove P k (x ∷ rs) p = elim (Bool-cases (key x == k)) [
    | inl e ↦ rw e (All-remove P k rs p.1)
    | inr e ↦ rw e (p.0, All-remove P k rs p.1)
  ]

  -- A key that is not there: the writes change nothing.
  total-modify-none :
      (w : A → ℕ) (k : ℕ) (f : A → A) (rs : List A)
      → find key k rs ≡ none
      → total w (modify key k f rs) ≡ total w rs
  unfolding find modify total
  total-modify-none w k f [] h = refl
  total-modify-none w k f (x ∷ rs) h = ground (arith, total-modify-none w k f rs)

  total-remove-none :
      (w : A → ℕ) (k : ℕ) (rs : List A)
      → find key k rs ≡ none
      → total w (remove key k rs) ≡ total w rs
  unfolding find remove total
  total-remove-none w k [] h = refl
  total-remove-none w k (x ∷ rs) h = ground (arith, total-remove-none w k rs)

  -- One row changes, by what the function does to the row that is found.
  pub total-modify :
      (w : A → ℕ) (k : ℕ) (f : A → A) (rs : List A) {r : A}
      → Unique key rs
      → find key k rs ≡ some r
      → total w (modify key k f rs) + w r ≡ total w rs + w (f r)
  unfolding find modify total
  total-modify w k f [] u h = absurd (cc)
  total-modify w k f (x ∷ rs) {r} u h = elim (Bool-cases (key x == k)) [
    | inl e ↦
        let same : x ≡ r = some-eq (rw e at h) in
        rw (e, ← same)
          (omega (arith, total-modify-none w k f rs (rw ((==_iff (key x) k).0 e) at u.0)))
    | inr e ↦ rw e (omega (arith, total-modify w k f rs u.1 (rw e at h)))
  ]

  pub total-remove :
      (w : A → ℕ) (k : ℕ) (rs : List A) {r : A}
      → Unique key rs
      → find key k rs ≡ some r
      → total w (remove key k rs) + w r ≡ total w rs
  unfolding find remove total
  total-remove w k [] u h = absurd (cc)
  total-remove w k (x ∷ rs) {r} u h = elim (Bool-cases (key x == k)) [
    | inl e ↦
        let same : x ≡ r = some-eq (rw e at h) in
        rw (e, ← same)
          (omega (arith, total-remove-none w k rs (rw ((==_iff (key x) k).0 e) at u.0)))
    | inr e ↦ rw e (omega (arith, total-remove w k rs u.1 (rw e at h)))
  ]

  pub modify-none :
      (k : ℕ) (f : A → A) (rs : List A) → find key k rs ≡ none → modify key k f rs ≡ rs
  unfolding find modify
  modify-none k f [] h = refl
  modify-none k f (x ∷ rs) h = ground (arith, modify-none k f rs)

  -- Only the row that is found changes.
  pub All-modify_one {κ} :
      (P : A → Type κ) (k : ℕ) (f : A → A) (rs : List A) {r : A}
      → Unique key rs
      → find key k rs ≡ some r
      → (P r → P (f r))
      → All P rs
      → All P (modify key k f rs)
  unfolding find modify
  All-modify_one P k f [] u h keeps p = tt
  All-modify_one P k f (x ∷ rs) {r} u h keeps p = elim (Bool-cases (key x == k)) [
    | inl e ↦
        let same : x ≡ r = some-eq (rw e at h) in
        rw (e, modify-none k f rs (rw ((==_iff (key x) k).0 e) at u.0))
          (subst (λ y. P (f y)) (sym same) (keeps (subst P same p.0)), p.1)
    | inr e ↦ rw e (p.0, All-modify_one P k f rs u.1 (rw e at h) keeps p.1)
  ]

  -- Writes that keep the summed column keep the sum.
  pub total-modify_same :
      (w : A → ℕ) (k : ℕ) (f : A → A) (rs : List A)
      → ((r : A) → w (f r) ≡ w r)
      → total w (modify key k f rs) ≡ total w rs
  unfolding modify total
  total-modify_same w k f [] same = refl
  total-modify_same w k f (x ∷ rs) same = ground (arith, same x, total-modify_same w k f rs same)

  pub find-map :
      (k : ℕ) (f : A → A) (rs : List A)
      → ((r : A) → key (f r) ≡ key r)
      → find key k (map f rs) ≡ Option.map f (find key k rs)
  unfolding find
  find-map k f [] keeps = refl
  find-map k f (x ∷ rs) keeps = ground (arith, keeps x, find-map k f rs keeps)

  pub Unique-map :
      (f : A → A) (rs : List A)
      → ((r : A) → key (f r) ≡ key r)
      → Unique key rs
      → Unique key (map f rs)
  Unique-map f [] keeps u = tt
  Unique-map f (x ∷ rs) keeps u =
      (rw (keeps x, find-map (key x) f rs keeps, u.0), Unique-map f rs keeps u.1)

pub total-map_same :
    {A : Type 0} (w : A → ℕ) (f : A → A) (rs : List A)
    → ((r : A) → w (f r) ≡ w r)
    → total w (map f rs) ≡ total w rs
unfolding total
total-map_same w f [] same = refl
total-map_same w f (x ∷ rs) same = ground (arith, same x, total-map_same w f rs same)

pub All-map {κ} :
    {A : Type 0} (P : A → Type κ) (f : A → A) (rs : List A)
    → ((r : A) → P r → P (f r))
    → All P rs
    → All P (map f rs)
All-map P f [] keeps p = tt
All-map P f (x ∷ rs) keeps p = (keeps x p.0, All-map P f rs keeps p.1)
