-- ===== src/Store/HolidayWeeks/Budget.antt =====
-- SetHolidayWeeks of internal/store/gamification.go: what it leaves, and the budget.
use inventory.Prelude.{
  ℕ, ◌≤◌, ◌≡◌, refl, sym, ap, ◌∙◌, List, [], Bool, true, false, not, ◌&&◌, ◌||◌, ◌==◌, ltb, leb,
  if◌then◌else◌, select, exists, member, Bool-cases, inl, inr, arith,
}
use inventory.Gamification.Holiday.{holiday_budget_weeks, max_weeks_in_window}
use inventory.Gamification.Holiday.Counts.{is_within, weeks_from}
use inventory.Gamification.Holiday.Spans.{max_weeks_in_window_exactly}
use inventory.Store.Tx.{Result, ok, err}
use inventory.Store.HolidayWeeks.{
  add_weeks, newly_exceeds_budget, final_weeks, is_inserted, write_weeks, set_holiday_weeks,
}
use inventory.Store.HolidayWeeks.Sets.{
  Once, IsPart, select-part, member-add_weeks, member-select, Once-add_weeks, Once-select,
  exists-false,
}

part-max :
    (xs ys : List ℕ) → Once xs → IsPart xs ys → max_weeks_in_window xs ≤ max_weeks_in_window ys
part-max xs ys once part =
    let (s, fullest) = (max_weeks_in_window_exactly xs).1 in
    omega (
      arith,
      fullest,
      select-part (is_within s) xs ys once part,
      (max_weeks_in_window_exactly ys).0 s,
    )

-- Which weeks the write leaves.
abbrev pub is_left : ℕ → List ℕ → List ℕ → ℕ → Bool
is_left current weeks existing w =
    if ltb w current
    then member w existing
    else if ltb current w
    then member w weeks
    else member w existing || member w weeks

written :
    (current : ℕ) (weeks existing : List ℕ) (w : ℕ)
    → member w (write_weeks current (final_weeks current (add_weeks weeks []) existing) existing)
      ≡ is_left current weeks existing w
written current weeks existing w =
    rw
      (
        member-add_weeks w
            (select (is_inserted current existing)
              (final_weeks current (add_weeks weeks []) existing))
            (select (λ v. not (ltb current v)) existing),
        member-select (is_inserted current existing) w
            (final_weeks current (add_weeks weeks []) existing),
        member-select (λ v. not (ltb current v)) w existing,
        member-add_weeks w (add_weeks weeks []) (select (λ v. leb v current) existing),
        member-add_weeks w weeks [],
        member-select (λ v. leb v current) w existing,
      )
      (table (member w weeks) (member w existing))
  where
    table :
        (asked old : Bool)
        → ((ltb current w || w == current && not old) && ((asked || false) || leb w current && old)
            || not (ltb current w) && old)
          ≡ (if ltb w current then old else if ltb current w then asked else old || asked)
    table true true = ground arith
    table true false = ground arith
    table false true = ground arith
    table false false = ground arith

abbrev rows_of : Result (List ℕ) → List ℕ
rows_of (ok rows) = rows
rows_of (err e) = []

member-write_weeks :
    (current : ℕ) (final existing : List ℕ) (w : ℕ)
    → member w (write_weeks current final existing) ≡ (
        is_inserted current existing w && member w final
        || not (ltb current w) && member w existing)
member-write_weeks current final existing w =
    rw
      (
        member-add_weeks w (select (is_inserted current existing) final)
            (select (λ v. not (ltb current v)) existing),
        member-select (is_inserted current existing) w final,
        member-select (λ v. not (ltb current v)) w existing,
      )
      refl

in_final :
    (current : ℕ) (weeks existing : List ℕ)
    → IsPart
        (write_weeks current (final_weeks current weeks existing) existing)
        (final_weeks current weeks existing)
in_final current weeks existing w m =
    kept (member w existing) (member w weeks) (is_inserted current existing w)
      (member w (final_weeks current weeks existing))
      (member-add_weeks w weeks (select (λ v. leb v current) existing)
        ∙ rw (member-select (λ v. leb v current) w existing) refl)
      (sym (member-write_weeks current (final_weeks current weeks existing) existing w) ∙ m)
  where
    kept :
        (old asked ins fin : Bool)
        → fin ≡ (asked || leb w current && old)
        → (ins && fin || not (ltb current w) && old) ≡ true
        → fin ≡ true
    kept old asked true true e h = refl
    kept old asked false true e h = refl
    kept true true ins false e h = ground arith
    kept true false true false e h = ground arith
    kept true false false false e h = ground arith
    kept false asked true false e h = ground arith
    kept false asked false false e h = ground arith

in_existing :
    (current : ℕ) (final existing : List ℕ)
    → exists (λ w. not (member w existing)) final ≡ false
    → IsPart (write_weeks current final existing) existing
in_existing current final existing e w m = elim (Bool-cases (member w final)) [
  | inl asked ↦
      double (member w existing) (exists-false (λ w. not (member w existing)) w final e asked)
  | inr other ↦
      kept (is_inserted current existing w) (member w final) (member w existing) other
        (sym (member-write_weeks current final existing w) ∙ m)
]
  where
    double : (b : Bool) → not b ≡ false → b ≡ true
    double b h = ground arith

    kept :
        (ins fin old : Bool)
        → fin ≡ false
        → (ins && fin || not (ltb current w) && old) ≡ true
        → old ≡ true
    kept ins fin true f h = refl
    kept true fin false f h = ground arith
    kept false fin false f h = ground arith

below :
    (new : Bool) (n : ℕ)
    → new ≡ true
    → (new && ltb holiday_budget_weeks n) ≡ false
    → n ≤ holiday_budget_weeks
below new n e h = ground arith

-- A write that the budget lets pass leaves at most eight weeks in a span.
write_weeks-budget :
    (current : ℕ) (weeks existing : List ℕ)
    → Once existing
    → max_weeks_in_window existing ≤ holiday_budget_weeks
    → newly_exceeds_budget existing (final_weeks current (add_weeks weeks []) existing) ≡ false
    → Once (write_weeks current (final_weeks current (add_weeks weeks []) existing) existing)
      × (max_weeks_in_window
            (write_weeks current (final_weeks current (add_weeks weeks []) existing) existing)
          ≤ holiday_budget_weeks)
unfolding newly_exceeds_budget
write_weeks-budget current weeks existing once within h =
    let final = final_weeks current (add_weeks weeks []) existing in
    let rows_once =
      Once-add_weeks (select (is_inserted current existing) final) _
        (Once-select (λ v. not (ltb current v)) existing once) in
    (
      rows_once,
      elim (Bool-cases (exists (λ w. not (member w existing)) final)) [
        | inl new ↦
            let small =
              part-max _ final rows_once (in_final current (add_weeks weeks []) existing) in
            let room =
              below (exists (λ w. not (member w existing)) final) (max_weeks_in_window final) new
                h in
            omega (arith)
        | inr none_new ↦
            let small =
              part-max _ existing rows_once (in_existing current final existing none_new) in
            omega (arith)
      ],
    )

-- From distinct weeks within the budget, a SetHolidayWeeks that succeeds leaves distinct weeks of which
-- no 52 weeks in a row hold more than eight. Of the weeks before the current one it leaves exactly those
-- on record, of the later ones exactly the requested, and the current week if it was on record or is
-- requested.
pub set_holiday_weeks-budget :
    (current : ℕ) (weeks existing : List ℕ) {rows : List ℕ}
    → Once existing
    → max_weeks_in_window existing ≤ holiday_budget_weeks
    → set_holiday_weeks current weeks existing ≡ ok rows
    → Once rows
      × ((s : ℕ) → weeks_from s rows ≤ holiday_budget_weeks)
      × ((w : ℕ) → member w rows ≡ is_left current weeks existing w)
unfolding set_holiday_weeks
set_holiday_weeks-budget current weeks existing {rows} once within h =
    elim (Bool-cases
      (exists (λ w. ltb w current && not (member w existing)) (add_weeks weeks []))) [
        | inl backdated ↦ (let clash = rw backdated at h in absurd (cc))
        | inr fine ↦
            elim (Bool-cases
              (newly_exceeds_budget existing (final_weeks current (add_weeks weeks []) existing))) [
                | inl over ↦ (let clash = rw (fine, over) at h in absurd (cc))
                | inr room ↦
                    let left = ap rows_of (rw (fine, room) at h) in
                    let (rows_once, most) =
                      write_weeks-budget current weeks existing once within room in
                    rw (sym left) (
                      rows_once,
                      (λ s. omega (
                        arith,
                        most,
                        (max_weeks_in_window_exactly (
                              write_weeks current
                                (final_weeks current (add_weeks weeks []) existing) existing)).0
                            s,
                      )),
                      written current weeks existing,
                    )
              ]
      ]
