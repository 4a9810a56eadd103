-- ===== src/Gamification/Selection.antt =====
-- `SelectQuests` of internal/gamification/quests.go. The need of a candidate is a float64, here a
-- type with its `>`; the parameters of a candidate are not looked into, here any type.
pub mod Best
use inventory.Prelude.{ℕ, List, [], ◌∷◌, Bool, if◌then◌else◌, select, take}
use inventory.Store.Schema.{GeneratorKind}

module _ (Need Params : Type 0) where
  pub record Candidate : Type 0 where
    pub generator : GeneratorKind
    pub fires : Bool
    pub need : Need
    pub target_count : ℕ
    pub params : Params

module _ {Need Params : Type 0} (beats : Need → Need → Bool) where
  -- The stable sort: a candidate stays before those that it ties with and that come after it.
  unfoldable pub insert_ranked :
      Candidate Need Params → List (Candidate Need Params) → List (Candidate Need Params)
  insert_ranked c [] = c ∷ []
  insert_ranked c (d ∷ ds) =
      let rest = insert_ranked c ds in if beats d.need c.need then d ∷ rest else c ∷ d ∷ ds

  unfoldable pub ranked : List (Candidate Need Params) → List (Candidate Need Params)
  unfolding insert_ranked
  ranked [] = []
  ranked (c ∷ cs) = insert_ranked c (ranked cs)

  -- `SelectQuests`
  unfoldable pub select_quests : List (Candidate Need Params) → List (Candidate Need Params)
  unfolding ranked
  select_quests cs = take 3 (ranked (select (λ c. c.fires) cs))
