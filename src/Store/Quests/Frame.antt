-- ===== src/Store/Quests/Frame.antt =====
-- What scoring writes, and what it leaves.
use inventory.Prelude.{
  ◌≡◌, refl, ◌∙◌, Option, none, some, List, [], ◌∷◌, Bool, true, false, inl, inr, Bool-cases,
  Option-cases, ℤ, ◌+ℤ◌, ltb_ℤ, not,
}
use inventory.Store.Schema.{
  RowId, LogReason, GeneratorKind, UserProgress, Quest, QuestContributor, Game, quest_key,
}
use inventory.Store.Tx.{Session, Tx, ◌>>◌, pure, when, put_game}
use inventory.Store.Tx.Rules.{Returns, Returns-bind, Returns-weaken}
use inventory.Store.Progress.{
  ensure_progress, find_progress, write_progress, bump_progress, xp_for_ledger_reason, monday_of,
}
use inventory.Prelude.Table.{modify}
use inventory.Expiry.{utc_day}
use inventory.Store.Rows.{fits_int4}
use inventory.Store.Quests.{
  quest_target_qualifies, quest_progress, add_contributor, find_quest, quest_relevant_generators,
  pay_contributors, complete_quest, advance_quest, advance_one_quest, advance_quests, bump_scored,
  bump_for_ledger_reason,
}

pub record SameStock (s s' : Session) : Type 0 where
  pub tables : s'.db.tables ≡ s.db.tables
  pub jobs : s'.db.jobs ≡ s.db.jobs
  pub clock : s'.clock ≡ s.clock

SameStock-refl : (s : Session) → SameStock s s
SameStock-refl s = record { tables = refl; jobs = refl; clock = refl }

SameStock-trans : {r s t : Session} → SameStock r s → SameStock s t → SameStock r t
SameStock-trans a b = record {
  tables = b.tables ∙ a.tables;
  jobs = b.jobs ∙ a.jobs;
  clock = b.clock ∙ a.clock;
}

-- The step leaves the stock alone, wherever it starts.
pub record ScoresOnly (m : Tx (Unit {0})) : Type 0 where
  pub at : (s : Session) → Returns (λ _ s'. SameStock s s') (m s)

ScoresOnly-bind : (m k : Tx (Unit {0})) → ScoresOnly m → ScoresOnly k → ScoresOnly (m >> k)
ScoresOnly-bind m k hm hk = record {
  at = λ s.
      Returns-bind (λ _ s'. SameStock s s') (λ _ s'. SameStock s s') m (λ _. k) s (hm.at s)
        (λ _ s' q.
          Returns-weaken (λ _ t. SameStock s' t) (λ _ t. SameStock s t) (k s') (hk.at s')
            (λ _ t. SameStock-trans q));
}

ScoresOnly-when : (b : Bool) (m : Tx (Unit {0})) → ScoresOnly m → ScoresOnly (when b m)
unfolding when
ScoresOnly-when true m h = record { at = λ s. h.at s }
ScoresOnly-when false m h = record { at = λ s. SameStock-refl s }

put_game-ScoresOnly : (g : Game) → ScoresOnly (put_game g)
unfolding put_game
put_game-ScoresOnly g = record { at = λ s. record { tables = refl; jobs = refl; clock = refl } }

write_progress-keeps :
    (storage user : RowId) (xp : ℤ) (rows : List UserProgress) (p : UserProgress) (s : Session)
    → Returns (λ _ s'. SameStock s s') (write_progress storage user xp rows p s)
unfolding write_progress put_game
write_progress-keeps storage user xp rows p s = elim (Bool-cases (fits_int4 (p.xp +ℤ xp))) [
  | inl fits ↦ rw fits (record { tables = refl; jobs = refl; clock = refl })
  | inr over ↦ rw over tt
]

bump_progress-ScoresOnly :
    (storage user : RowId) (xp : ℤ) → ScoresOnly (bump_progress storage user xp)
unfolding bump_progress
bump_progress-ScoresOnly storage user xp = record {
  at = λ s.
      let rows = ensure_progress storage user s.clock.instant s.db.game.progress in
      elim (Option-cases (find_progress storage user rows)) [
        | inl missing ↦ rw (missing, bump_progress) tt
        | inr found ↦
            rw (found.1, bump_progress) (write_progress-keeps storage user xp rows found.0 s)
      ];
}

pay_contributors-ScoresOnly :
    (storage quest : RowId) (xp : ℤ) (cs : List QuestContributor)
    → ScoresOnly (pay_contributors storage quest xp cs)
unfolding pay_contributors pure
pay_contributors-ScoresOnly storage quest xp [] = record { at = SameStock-refl }
pay_contributors-ScoresOnly storage quest xp (c ∷ cs) =
    ScoresOnly-bind _ _ (ScoresOnly-when _ _ (bump_progress-ScoresOnly storage c.user_id xp))
      (pay_contributors-ScoresOnly storage quest xp cs)

complete_quest-ScoresOnly : (storage : RowId) (q : Quest) → ScoresOnly (complete_quest storage q)
unfolding complete_quest
complete_quest-ScoresOnly storage q = record {
  at = λ s.
      (ScoresOnly-bind _ _
          (put_game-ScoresOnly (record s.db.game {
            quests =
                modify quest_key q.id (λ r. record r { completed_at = some s.clock.instant })
                  s.db.game.quests;
          }))
          (pay_contributors-ScoresOnly storage q.id q.xp_reward s.db.game.contributors)).at
        s;
}

advance_quest-ScoresOnly :
    (storage user : RowId) (target : Option RowId) (q : Quest)
    → ScoresOnly (advance_quest storage user target q)
unfolding advance_quest
advance_quest-ScoresOnly storage user target q = record {
  at = λ s. elim (Bool-cases (quest_target_qualifies q.generator q.params target)) [
    | inl yes' ↦ rw yes' (
        (ScoresOnly-bind _ _
            (put_game-ScoresOnly (record s.db.game {
              contributors = add_contributor q.id user s.db.game.contributors;
            }))
            (ScoresOnly-when
              (not (ltb_ℤ (quest_progress storage q (utc_day s.clock) s.db.tables) q.target_count))
              _ (complete_quest-ScoresOnly storage q))).at
          s)
    | inr no' ↦ rw no' (SameStock-refl s)
  ];
}

advance_one_quest-ScoresOnly :
    (storage user : RowId) (g : GeneratorKind) (target : Option RowId)
    → ScoresOnly (advance_one_quest storage user g target)
unfolding advance_one_quest
advance_one_quest-ScoresOnly storage user g target = record {
  at = λ s. elim (Option-cases (find_quest storage (monday_of s.clock) g s.db.game.quests)) [
    | inl missing ↦ rw (missing, advance_one_quest) (SameStock-refl s)
    | inr found ↦
        rw (found.1, advance_one_quest)
          ((advance_quest-ScoresOnly storage user target found.0).at s)
  ];
}

advance_quests-ScoresOnly :
    (storage user : RowId) (gs : List GeneratorKind) (target : Option RowId)
    → ScoresOnly (advance_quests storage user gs target)
unfolding advance_quests pure
advance_quests-ScoresOnly storage user [] target = record { at = SameStock-refl }
advance_quests-ScoresOnly storage user (g ∷ gs) target =
    ScoresOnly-bind _ _ (advance_one_quest-ScoresOnly storage user g target)
      (advance_quests-ScoresOnly storage user gs target)

bump_scored-ScoresOnly :
    (storage user : RowId) (reason : LogReason) (batch : RowId) (xp : Option ℤ)
    → ScoresOnly (bump_scored storage user reason batch xp)
unfolding bump_scored pure
bump_scored-ScoresOnly storage user reason batch none = record { at = SameStock-refl }
bump_scored-ScoresOnly storage user reason batch (some xp) =
    ScoresOnly-bind _ _ (bump_progress-ScoresOnly storage user xp)
      (advance_quests-ScoresOnly storage user (quest_relevant_generators reason) (some batch))

pub bump_for_ledger_reason-ScoresOnly :
    (storage : RowId) (user : Option RowId) (reason : LogReason) (batch : RowId)
    → ScoresOnly (bump_for_ledger_reason storage user reason batch)
unfolding bump_for_ledger_reason pure
bump_for_ledger_reason-ScoresOnly storage none reason batch = record { at = SameStock-refl }
bump_for_ledger_reason-ScoresOnly storage (some user) reason batch =
    bump_scored-ScoresOnly storage user reason batch (xp_for_ledger_reason reason)
