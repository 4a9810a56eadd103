-- ===== src/Gamification/Selection/Best.antt =====
-- What SelectQuests picks.
use mathlib.Core.List.{Permᴰ}
use mathlib.Core.List.Permᴰ
use inventory.Prelude.{
  ℕ, zero, suc, ◌≤◌, ◌≡◌, refl, ap, List, [], ◌∷◌, ◌++◌, Bool, true, false, inl, inr, ◌⊎◌,
  Bool-cases, All, select, take, length, arith,
}
use inventory.Gamification.Selection.{Candidate, insert_ranked, ranked, select_quests}

-- What `take` leaves.
abbrev pub rest {ℓ} : {A : Type ℓ} → ℕ → List A → List A
rest zero xs = xs
rest (suc n) [] = []
rest (suc n) (x ∷ xs) = rest n xs

take-rest : {A : Type 0} (n : ℕ) (xs : List A) → take n xs ++ rest n xs ≡ xs
take-rest zero xs = refl
take-rest (suc n) [] = refl
take-rest (suc n) (x ∷ xs) = ap (λ l. x ∷ l) (take-rest n xs)

length-take : {A : Type 0} (n : ℕ) (xs : List A) → length (take n xs) ≤ n
length-take zero xs = omega arith
length-take (suc n) [] = omega arith
length-take (suc n) (x ∷ xs) = omega (arith, length-take n xs)

rest_full : {A : Type 0} (n : ℕ) (xs : List A) → (rest n xs ≡ []) ⊎ (length (take n xs) ≡ n)
rest_full zero xs = inr refl
rest_full (suc n) [] = inl refl
rest_full (suc n) (x ∷ xs) = elim (rest_full n xs) [
  | inl empty ↦ inl empty
  | inr full ↦ inr (omega (arith, full))
]

module _ {A : Type 0} (P : A → Type 0) where
  All-take : (n : ℕ) (xs : List A) → All P xs → All P (take n xs)
  All-take zero xs h = tt
  All-take (suc n) [] h = tt
  All-take (suc n) (x ∷ xs) h = (h.0, All-take n xs h.1)

  All-rest : (n : ℕ) (xs : List A) → All P xs → All P (rest n xs)
  All-rest zero xs h = h
  All-rest (suc n) [] h = tt
  All-rest (suc n) (x ∷ xs) h = All-rest n xs h.1

module _ {Need Params : Type 0} (beats : Need → Need → Bool) where
  -- No later candidate beats an earlier one.
  abbrev Ranked : List (Candidate Need Params) → Type 0
  Ranked [] = Unit
  Ranked (c ∷ cs) = All (λ d. beats d.need c.need ≡ false) cs × Ranked cs

  All-insert_ranked :
      (P : Candidate Need Params → Type 0) (c : Candidate Need Params)
      (ds : List (Candidate Need Params))
      → P c
      → All P ds
      → All P (insert_ranked beats c ds)
  unfolding insert_ranked
  All-insert_ranked P c [] p h = (p, tt)
  All-insert_ranked P c (d ∷ ds) p h = elim (Bool-cases (beats d.need c.need)) [
    | inl first ↦ rw first (h.0, All-insert_ranked P c ds p h.1)
    | inr after ↦ rw after (p, h)
  ]

  insert_ranked-Perm :
      (c : Candidate Need Params) (ds : List (Candidate Need Params))
      → Permᴰ (insert_ranked beats c ds) (c ∷ ds)
  unfolding insert_ranked
  insert_ranked-Perm c [] = Permᴰ.refl _
  insert_ranked-Perm c (d ∷ ds) = elim (Bool-cases (beats d.need c.need)) [
    | inl first ↦
        rw first (Permᴰ.trans (Permᴰ.cons refl (insert_ranked-Perm c ds)) (Permᴰ.swap refl refl))
    | inr after ↦ rw after (Permᴰ.refl _)
  ]

  ranked-Perm : (cs : List (Candidate Need Params)) → Permᴰ (ranked beats cs) cs
  unfolding ranked
  ranked-Perm [] = Permᴰ.refl _
  ranked-Perm (c ∷ cs) =
      Permᴰ.trans (insert_ranked-Perm c (ranked beats cs)) (Permᴰ.cons refl (ranked-Perm cs))

  Ranked-take : (n : ℕ) (cs : List (Candidate Need Params)) → Ranked cs → Ranked (take n cs)
  Ranked-take zero cs h = tt
  Ranked-take (suc n) [] h = tt
  Ranked-take (suc n) (c ∷ cs) h = (All-take _ n cs h.0, Ranked-take n cs h.1)

  -- The candidate beats none of those.
  abbrev BeatsNone : List (Candidate Need Params) → Candidate Need Params → Type 0
  BeatsNone out d = All (λ s. beats d.need s.need ≡ false) out

  none_beaten : (ds : List (Candidate Need Params)) → All (BeatsNone []) ds
  none_beaten [] = tt
  none_beaten (d ∷ ds) = (tt, none_beaten ds)

  one_more :
      (c : Candidate Need Params) (out ds : List (Candidate Need Params))
      → All (λ d. beats d.need c.need ≡ false) ds
      → All (BeatsNone out) ds
      → All (BeatsNone (c ∷ out)) ds
  one_more c out [] h k = tt
  one_more c out (d ∷ ds) h k = ((h.0, k.0), one_more c out ds h.1 k.1)

  rest-BeatsNone :
      (n : ℕ) (cs : List (Candidate Need Params))
      → Ranked cs
      → All (BeatsNone (take n cs)) (rest n cs)
  rest-BeatsNone zero cs h = none_beaten cs
  rest-BeatsNone (suc n) [] h = tt
  rest-BeatsNone (suc n) (c ∷ cs) h =
      one_more c (take n cs) (rest n cs) (All-rest _ n cs h.0) (rest-BeatsNone n cs h.1)

  -- At most three of the candidates that fire, and the others beat none of them; three, unless there
  -- are no others.
  pub record IsSelection (cs out : List (Candidate Need Params)) : Type 0 where
    pub others : List (Candidate Need Params)
    pub all : Permᴰ (out ++ others) (select (λ c. c.fires) cs)
    few : length out ≤ 3
    full : (others ≡ []) ⊎ (length out ≡ 3)
    in_order : Ranked out
    best : All (BeatsNone out) others

module _ {Need Params : Type 0} (beats : Need → Need → Bool)
    (asym : (a b : Need) → beats a b ≡ true → beats b a ≡ false)
    (linked : (a b c : Need) → beats b a ≡ false → beats c b ≡ false → beats c a ≡ false) where
  All-linked :
      (c d : Candidate Need Params) (es : List (Candidate Need Params))
      → beats d.need c.need ≡ false
      → All (λ e. beats e.need d.need ≡ false) es
      → All (λ e. beats e.need c.need ≡ false) es
  All-linked c d [] k h = tt
  All-linked c d (e ∷ es) k h = (linked c.need d.need e.need k h.0, All-linked c d es k h.1)

  insert_ranked-Ranked :
      (c : Candidate Need Params) (ds : List (Candidate Need Params))
      → Ranked beats ds
      → Ranked beats (insert_ranked beats c ds)
  unfolding insert_ranked
  insert_ranked-Ranked c [] h = (tt, tt)
  insert_ranked-Ranked c (d ∷ ds) h = elim (Bool-cases (beats d.need c.need)) [
    | inl first ↦ rw first (
      All-insert_ranked beats (λ e. beats e.need d.need ≡ false) c ds (asym d.need c.need first)
          h.0,
      insert_ranked-Ranked c ds h.1,
    )
    | inr after ↦ rw after ((after, All-linked c d ds after h.0), h)
  ]

  ranked-Ranked : (cs : List (Candidate Need Params)) → Ranked beats (ranked beats cs)
  unfolding ranked
  ranked-Ranked [] = tt
  ranked-Ranked (c ∷ cs) = insert_ranked-Ranked c (ranked beats cs) (ranked-Ranked cs)

  -- Where `>` on the needs is asymmetric and not exceeding is transitive, SelectQuests answers, in the
  -- order of falling need, at most three candidates that fire such that no other candidate that fires
  -- has a greater need than any of them, and three unless fewer fire.
  pub select_quests-IsSelection :
      (cs : List (Candidate Need Params)) → IsSelection beats cs (select_quests beats cs)
  unfolding select_quests
  select_quests-IsSelection cs =
      let sorted = ranked beats (select (λ c. c.fires) cs) in
      let order = ranked-Ranked (select (λ c. c.fires) cs) in
      record {
        others = rest 3 sorted;
        all = rw (take-rest 3 sorted) (ranked-Perm beats (select (λ c. c.fires) cs));
        few = length-take 3 sorted;
        full = rest_full 3 sorted;
        in_order = Ranked-take beats 3 sorted order;
        best = rest-BeatsNone beats 3 sorted order;
      }
