-- ===== src/Store/RowSets/Exact.antt =====
-- Sets as lists of keys: how the size of a set and the loop of matchRowIDs behave.
use inventory.Prelude.{
  suc, ◌≤◌, ◌≡◌, refl, sym, ◌∙◌, ◌↔◌, List, [], ◌∷◌, Bool, true, false, not, ◌&&◌, ◌||◌, inl, inr,
  Bool-cases, select, ◌==◌, ==_refl, arith,
}
use inventory.Store.Tx.{Result, ok, err}
use inventory.Store.RowSets.{has, distinct, check_ids, compare_sizes, match_ids}

module _ {K : Type 0} (eq : K → K → Bool) (eq_iff : (a b : K) → (eq a b ≡ true) ↔ (a ≡ b)) where
  -- Every key of one list is in the other.
  abbrev Within : List K → List K → Type 0
  Within xs ys = (k : K) → has eq k xs ≡ true → has eq k ys ≡ true

  -- No key stands twice.
  abbrev pub Once : List K → Type 0
  Once [] = Unit
  Once (x ∷ xs) = (has eq x xs ≡ false) × Once xs

  eq_same : (k : K) → eq k k ≡ true
  eq_same k = (eq_iff k k).1 refl

  abbrev without : K → List K → List K
  without x = select (λ y. not (eq y x))

  has-same : (a b : K) (xs : List K) → eq a b ≡ true → has eq a xs ≡ has eq b xs
  has-same a b xs h = rw ((eq_iff a b).0 h) refl

  has-without : (x k : K) (xs : List K) → has eq k (without x xs) ≡ has eq k xs && not (eq k x)
  unfolding has
  has-without x k [] = refl
  has-without x k (y ∷ ys) = elim (Bool-cases (eq y k)) [
    | inl same ↦ rw ((eq_iff y k).0 same) (ground (arith, has-without x k ys, eq_same k))
    | inr other ↦ ground (arith, has-without x k ys)
  ]

  without-absent : (x : K) (xs : List K) → has eq x xs ≡ false → without x xs ≡ xs
  unfolding has
  without-absent x [] h = refl
  without-absent x (y ∷ ys) h = ground (arith, without-absent x ys)

  distinct-without :
      (x : K) (xs : List K) → has eq x xs ≡ true → distinct eq xs ≡ suc (distinct eq (without x xs))
  unfolding distinct has
  distinct-without x [] h = absurd (cc)
  distinct-without x (y ∷ ys) h = elim (Bool-cases (eq y x)) [
    | inl same ↦
        rw (same, (eq_iff y x).0 same)
          (elim (Bool-cases (has eq x ys)) [
            | inl again ↦ rw again (distinct-without x ys again)
            | inr gone ↦ rw (gone, without-absent x ys gone) refl
          ])
    | inr other ↦ rw (other, has-without x y ys, other) (ground (arith, distinct-without x ys))
  ]

  none_left : (ys : List K) → distinct eq ys ≤ 0 → (k : K) → has eq k ys ≡ false
  unfolding distinct has
  none_left [] h k = refl
  none_left (y ∷ ys) h k = elim (Bool-cases (has eq y ys)) [
    | inl again ↦ absurd (ground (arith, none_left ys (rw again at h) y))
    | inr new ↦ absurd (ground arith)
  ]

  -- A set that lies within another is not larger, and is the same set if it is as large.
  distinct-Within :
      (xs ys : List K)
      → Within xs ys
      → (distinct eq xs ≤ distinct eq ys) × (distinct eq xs ≡ distinct eq ys → Within ys xs)
  unfolding distinct has
  distinct-Within [] ys w = (omega arith, λ e k h. ground (arith, none_left ys (omega arith) k))
  distinct-Within (x ∷ xs) ys w = elim (Bool-cases (has eq x xs)) [
    | inl again ↦
        let (le, back) = distinct-Within xs ys (λ k h. w k (ground arith)) in
        rw again (le, λ e k h. ground (arith, back e k h))
    | inr new ↦
        let there = w x (ground (arith, eq_same x)) in
        let inside : Within xs (without x ys) = λ k h.
          rw (has-without x k ys, w k (ground arith))
            (elim (Bool-cases (eq k x)) [
              | inl same ↦ absurd (ground (arith, has-same k x xs same))
              | inr other ↦ rw other refl
            ]) in
        let (le, back) = distinct-Within xs (without x ys) inside in
        let size = distinct-without x ys there in
        rw new (
          omega arith,
          λ e k h. elim (Bool-cases (eq x k)) [
            | inl same ↦ rw same refl
            | inr other ↦ rw other (
                back (omega arith) k
                  (rw (has-without x k ys, h) (ground (arith, eq_iff x k, eq_iff k x))))
          ],
        )
  ]

  -- Two lists with the same keys have one size.
  distinct-same : (xs ys : List K) → Within xs ys → Within ys xs → distinct eq xs ≡ distinct eq ys
  distinct-same xs ys w v = omega (arith, (distinct-Within xs ys w).0, (distinct-Within ys xs v).0)

  -- What the loop accepts: known keys, none of them seen before or twice.
  check_ids-accepts :
      (issued seen ids : List K) {out : List K}
      → check_ids eq issued seen ids ≡ ok out
      → Once ids
        × Within ids issued
        × ((k : K) → has eq k ids ≡ true → has eq k seen ≡ false)
        × ((k : K) → has eq k out ≡ has eq k ids || has eq k seen)
  unfolding check_ids has
  check_ids-accepts issued seen [] h =
      (tt, λ k p. absurd (cc), λ k p. absurd (cc), λ k. ground arith)
  check_ids-accepts issued seen (k ∷ ks) {out} h = elim (Bool-cases (has eq k issued)) [
    | inr unknown ↦ absurd (ground arith)
    | inl known ↦ elim (Bool-cases (has eq k seen)) [
      | inl twice ↦ absurd (ground arith)
      | inr new ↦
          let h' : check_ids eq issued (k ∷ seen) ks ≡ ok out = rw (known, new) at h in
          let (once, within, fresh, all) = check_ids-accepts issued (k ∷ seen) ks h' in
          let apart : has eq k ks ≡ false = elim (Bool-cases (has eq k ks)) [
            | inr no_more ↦ no_more
            | inl more ↦ absurd (ground (arith, fresh k more, eq_same k))
          ] in
          (
            (apart, once),
            λ j p. elim (Bool-cases (eq k j)) [
              | inl same ↦ rw (← (eq_iff k j).0 same) known
              | inr other ↦ within j (ground arith)
            ],
            λ j p. elim (Bool-cases (eq k j)) [
              | inl same ↦ rw (← (eq_iff k j).0 same) new
              | inr other ↦ ground (arith, fresh j)
            ],
            λ j. ground (arith, all j),
          )
    ]
  ]

  -- The other way round: such ids pass.
  check_ids-passes :
      (issued seen ids : List K)
      → Once ids
      → Within ids issued
      → ((k : K) → has eq k ids ≡ true → has eq k seen ≡ false)
      → (out : List K) × (check_ids eq issued seen ids ≡ ok out)
  unfolding check_ids has
  check_ids-passes issued seen [] once within fresh = (seen, refl)
  check_ids-passes issued seen (k ∷ ks) once within fresh =
      let known = within k (ground (arith, eq_same k)) in
      let new = fresh k (ground (arith, eq_same k)) in
      let (out, e) =
        check_ids-passes issued (k ∷ seen) ks once.1 (λ j p. within j (ground arith))
          (λ j p. elim (Bool-cases (eq k j)) [
            | inl same ↦ absurd (ground (arith, has-same k j ks same))
            | inr other ↦ rw other (fresh j (ground arith))
          ]) in
      (out, rw (known, new) e)

  or-both : (a b c : Bool) → a ≡ b || c → c ≡ false → a ≡ b
  or-both a b c h e = ground arith

  sizes_agree :
      (issued out : List K)
      → compare_sizes eq issued (ok out) ≡ ok tt
      → distinct eq out ≡ distinct eq issued
  sizes_agree issued out h = elim (Bool-cases (distinct eq out == distinct eq issued)) [
    | inl same ↦ ground arith
    | inr other ↦ absurd (ground arith)
  ]

  same_keys : (xs ys : List K) → Within xs ys → Within ys xs → (k : K) → has eq k xs ≡ has eq k ys
  same_keys xs ys w v k = ground (arith, w k, v k)

  -- The check succeeds exactly when the ids are those that were issued, each once.
  pub match_ids_exactly :
      (issued ids : List K)
      → (match_ids eq issued ids ≡ ok tt) ↔ (Once ids × ((k : K) → has eq k ids ≡ has eq k issued))
  unfolding match_ids has
  match_ids_exactly issued ids = (there (check_ids eq issued [] ids) refl, back)
    where
      there :
          (r : Result (List K))
          → check_ids eq issued [] ids ≡ r
          → compare_sizes eq issued r ≡ ok tt
          → Once ids × ((k : K) → has eq k ids ≡ has eq k issued)
      there (err e) c h = absurd (cc)
      there (ok out) c h =
          let (once, within, _, all) = check_ids-accepts issued [] ids c in
          let keys : (k : K) → has eq k out ≡ has eq k ids = λ k. or-both _ _ _ (all k) refl in
          let inside : Within out issued = λ k p. within k (sym (keys k) ∙ p) in
          let outside = (distinct-Within out issued inside).1 (sizes_agree issued out h) in
          (once, same_keys ids issued within (λ k p. sym (keys k) ∙ outside k p))

      back :
          Once ids × ((k : K) → has eq k ids ≡ has eq k issued)
          → compare_sizes eq issued (check_ids eq issued [] ids) ≡ ok tt
      back (once, same) =
          let (out, e) =
            check_ids-passes issued [] ids once (λ k p. sym (same k) ∙ p) (λ k p. refl) in
          let (_, _, _, all) = check_ids-accepts issued [] ids e in
          let keys : (k : K) → has eq k out ≡ has eq k issued =
            λ k. or-both _ _ _ (all k) refl ∙ same k in
          rw e (
            rw
              (
                distinct-same out issued (λ k p. sym (keys k) ∙ p) (λ k p. keys k ∙ p),
                ==_refl (distinct eq issued),
              )
              refl)
