-- ===== src/Store/Jobs/Life.antt =====
-- The life of a job: what a row in each status holds, the moves between statuses, and what each kind
-- of statement does to both.
use mathlib.Core.Path.{subst}
use mathlib.Core.Option
use inventory.Prelude.{
  ◌≡◌, refl, sym, Bool, true, false, Option, none, some, List, [], ◌∷◌, ◌++◌, String, inl, inr,
  Bool-cases, Option-cases, ==_iff, ◌==◌, if◌then◌else◌, All, All-append, select, arith,
}
use inventory.Prelude.Table.{find, modify, remove, insert, Unique, update_where}
use inventory.Prelude.Table.Laws.{
  find-append_none, find-append_some, find-remove, find-modify, Unique-modify, Unique-remove,
  Unique-append, insert-eq-some, All-remove, All-modify_one,
}
use inventory.Store.Schema.{
  RowId, Instant, JobStatus, pending, done, failed, consumed, Job, job_key,
}

-- What a row holds beside its status: a proposal while it waits for review and after, a message when
-- it failed, and neither while it is worked on.
abbrev pub Outcome : JobStatus → Option String → Option String → Type 0
Outcome pending none none = Unit
Outcome done (some _) none = Unit
Outcome failed none (some _) = Unit
Outcome consumed (some _) none = Unit
Outcome _ _ _ = ⊥

-- An owner has an expiry, and only a pending row has an owner.
abbrev pub Leased : JobStatus → Option RowId → Option Instant → Type 0
Leased pending (some _) (some _) = Unit
Leased _ none none = Unit
Leased _ _ _ = ⊥

abbrev pub IsJob : Job → Type 0
IsJob j = Outcome j.status j.payload j.error × Leased j.status j.lease_owner j.lease_expires_at

-- The moves of the state machine; nothing leaves `consumed`.
pub data Edge : JobStatus → JobStatus → Type 0 where
  stays : (s : JobStatus) → Edge s s
  completes : Edge pending done
  fails : Edge pending failed
  requeues_done : Edge done pending
  requeues_failed : Edge failed pending
  consumes : Edge done consumed

-- What one call does to the row under an id: nothing, create it pending, delete it, or move it.
pub data Transition : Option Job → Option Job → Type 0 where
  absent : Transition none none
  created : (j : Job) → j.status ≡ pending → Transition none (some j)
  gone : (j : Job) → Transition (some j) none
  moved : (j j' : Job) → Edge j.status j'.status → Transition (some j) (some j')

abbrev pub IsQueue : List Job → Type 0
IsQueue js = Unique job_key js × All IsJob js

-- From a queue in order, every row moves along the state machine, and the queue stays in order.
abbrev pub Lives : List Job → List Job → Type 0
Lives js js' =
    IsQueue js
    → ((id : RowId) → Transition (find job_key id js) (find job_key id js')) × IsQueue js'

same : (o : Option Job) → Transition o o
same none = absent
same (some j) = moved j j (stays j.status)

pub Lives-refl : (js : List Job) → Lives js js
Lives-refl js q = (λ id. same (find job_key id js), q)

lost : (o : Option Job) → Transition o none
lost none = absent
lost (some j) = gone j

pub Lives-remove : (id : RowId) (js : List Job) → Lives js (remove job_key id js)
Lives-remove id js q = (
  λ k. rw (find-remove job_key id k js) (elim (Bool-cases (id == k)) [
    | inl here ↦ rw here (lost (find job_key k js))
    | inr there ↦ rw there (same (find job_key k js))
  ]),
  (Unique-remove job_key id js q.0, All-remove job_key IsJob id js q.1),
)

appended :
    (j : Job) (js : List Job) (id : RowId)
    → j.status ≡ pending
    → Transition (find job_key id js) (find job_key id (js ++ j ∷ []))
unfolding find
appended j js id h = elim (Option-cases (find job_key id js)) [
  | inr old ↦ rw (old.1, find-append_some job_key id js (j ∷ []) old.1) (same (some old.0))
  | inl new ↦
      rw (new, find-append_none job_key id js (j ∷ []) new)
        (elim (Bool-cases (j.id == id)) [
          | inl here ↦ rw here (created j h)
          | inr there ↦ rw there absent
        ])
]

pub Lives-insert :
    (j : Job) (js : List Job) {out : List Job}
    → j.status ≡ pending
    → IsJob j
    → insert job_key j js ≡ some out
    → Lives js out
Lives-insert j js h ok e q =
    let (fresh, rows) = insert-eq-some job_key j js e in
    rw rows (
      λ id. appended j js id h,
      (Unique-append job_key j js fresh q.0, All-append IsJob js (j ∷ []) q.1 (ok, tt)),
    )

moved_by :
    (f : Job → Job) (r : Job) (o : Option Job)
    → o ≡ some r
    → Edge r.status (f r).status
    → Transition o (Option.map f o)
moved_by f r none e h = absurd (cc)
moved_by f r (some x) e h =
    let x-r : x ≡ r = cc in moved x (f x) (subst (λ y. Edge y.status (f y).status) (sym x-r) h)

-- An UPDATE of one row that was read.
pub Lives-modify :
    (id : RowId) (f : Job → Job) (js : List Job) (r : Job)
    → ((j : Job) → job_key (f j) ≡ job_key j)
    → find job_key id js ≡ some r
    → Edge r.status (f r).status
    → (IsJob r → IsJob (f r))
    → Lives js (modify job_key id f js)
Lives-modify id f js r keeps found edge ok q = (
  λ k. rw (find-modify job_key id k f js keeps) (elim (Bool-cases (id == k)) [
    | inl here ↦
        rw here (moved_by f r (find job_key k js) (rw ((==_iff id k).0 here) at found) edge)
    | inr there ↦ rw there (same (find job_key k js))
  ]),
  (
    Unique-modify job_key id f js keeps q.0,
    All-modify_one job_key IsJob id f js {r = r} q.0 found ok q.1,
  ),
)

module _ (test : Job → Bool) (f : Job → Job) (keeps : (j : Job) → job_key (f j) ≡ job_key j) where
  pub find-update_where :
      (k : RowId) (js : List Job)
      → find job_key k (update_where test f js)
        ≡ Option.map (λ j. if test j then f j else j) (find job_key k js)
  unfolding find update_where
  find-update_where k [] = refl
  find-update_where k (j ∷ js) = ground (arith, keeps j, find-update_where k js)

  Unique-update_where :
      (js : List Job) → Unique job_key js → Unique job_key (update_where test f js)
  unfolding update_where
  Unique-update_where [] u = tt
  Unique-update_where (j ∷ js) u =
      (ground (arith, keeps j, find-update_where (job_key j) js, u.0), Unique-update_where js u.1)

  All-update_where :
      ((j : Job) → test j ≡ true → IsJob j → IsJob (f j))
      → (js : List Job) → All IsJob js
      → All IsJob (update_where test f js)
  unfolding update_where
  All-update_where ok [] h = tt
  All-update_where ok (j ∷ js) h = (branch (test j) refl, All-update_where ok js h.1)
    where
      branch : (b : Bool) → test j ≡ b → IsJob (if b then f j else j)
      branch true e = ok j e h.0
      branch false e = h.0

  updated :
      ((j : Job) → test j ≡ true → Edge j.status (f j).status)
      → (o : Option Job) → Transition o (Option.map (λ j. if test j then f j else j) o)
  updated edge none = absent
  updated edge (some j) = branch (test j) refl
    where
      branch : (b : Bool) → test j ≡ b → Transition (some j) (some (if b then f j else j))
      branch true e = moved j (f j) (edge j e)
      branch false e = same (some j)

  -- An UPDATE of every row that meets a condition.
  pub Lives-update_where :
      ((j : Job) → test j ≡ true → Edge j.status (f j).status)
      → ((j : Job) → test j ≡ true → IsJob j → IsJob (f j))
      → (js : List Job) → Lives js (update_where test f js)
  Lives-update_where edge ok js q = (
    λ k. rw (find-update_where k js) (updated edge (find job_key k js)),
    (Unique-update_where js q.0, All-update_where ok js q.1),
  )

module _ (keep : Job → Bool) where
  find-select-none :
      (k : RowId) (js : List Job)
      → find job_key k js ≡ none
      → find job_key k (select keep js) ≡ none
  unfolding find
  find-select-none k [] h = refl
  find-select-none k (j ∷ js) h = ground (arith, find-select-none k js)

  Unique-select : (js : List Job) → Unique job_key js → Unique job_key (select keep js)
  Unique-select [] u = tt
  Unique-select (j ∷ js) u = elim (Bool-cases (keep j)) [
    | inl kept ↦ rw kept (find-select-none (job_key j) js u.0, Unique-select js u.1)
    | inr dropped ↦ rw dropped (Unique-select js u.1)
  ]

  All-select : (js : List Job) → All IsJob js → All IsJob (select keep js)
  All-select [] h = tt
  All-select (j ∷ js) h = elim (Bool-cases (keep j)) [
    | inl kept ↦ rw kept (h.0, All-select js h.1)
    | inr dropped ↦ rw dropped (All-select js h.1)
  ]

  selected :
      (k : RowId) (js : List Job)
      → Unique job_key js
      → Transition (find job_key k js) (find job_key k (select keep js))
  unfolding find
  selected k [] u = absent
  selected k (j ∷ js) u = elim (Bool-cases (j.id == k)) [
    | inr other ↦ elim (Bool-cases (keep j)) [
      | inl kept ↦ rw (kept, other) (selected k js u.1)
      | inr dropped ↦ rw (dropped, other) (selected k js u.1)
    ]
    | inl here ↦ elim (Bool-cases (keep j)) [
      | inl kept ↦ rw (kept, here) (same (some j))
      | inr dropped ↦
          rw (dropped, here)
            (rw (find-select-none k js (rw ((==_iff j.id k).0 here) at u.0)) (gone j))
    ]
  ]

  -- A DELETE of every row that is not kept.
  pub Lives-select : (js : List Job) → Lives js (select keep js)
  Lives-select js q = (λ k. selected k js q.0, (Unique-select js q.0, All-select js q.1))
