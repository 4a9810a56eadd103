-- ===== src/Store/Tx/Rules.antt =====
-- Postconditions of transactions, with one rule for each way to build one.
use inventory.Prelude.{◌≡◌, refl, inl, inr, Bool-cases, List, [], ◌∷◌}
use inventory.Store.Schema.{RowId, Database}
use inventory.Store.Tx.{
  StoreError, Result, ok, err, Session, Tx, ◌>>=◌, Commit, committed, commit_refused, answer_lost,
  Env, in_tx, end_tx, take_id, new_id,
}

-- What holds of a successful result; an error satisfies every postcondition.
abbrev pub Returns : {A : Type 0} → (A → Session → Type 0) → Result (A × Session) → Type 0
Returns Q (ok (a, s)) = Q a s
Returns Q (err e) = Unit

-- Inversion of a successful step.
>>=-eq-ok :
    {A B : Type 0} (m : Tx A) (f : A → Tx B) (s : Session) {r : B × Session}
    → (m >>= f) s ≡ ok r
    → (a : A) × (s' : Session) × (m s ≡ ok (a, s')) × (f a s' ≡ ok r)
unfolding ◌>>=◌
>>=-eq-ok {A} {B} m f s {r} h = go (m s) refl h
  where
    go :
        (x : Result (A × Session))
        → m s ≡ x
        → ◌≡◌ {A = Result (B × Session)} (elim x [ ok (a, s') ↦ f a s' | err e ↦ err e ]) (ok r)
        → (a : A) × (s' : Session) × (m s ≡ ok (a, s')) × (f a s' ≡ ok r)
    go (ok (a, s')) e h' = (a, s', e, h')
    go (err x) e h' = absurd (cc)

pub Returns-bind :
    {A B : Type 0} (Q : A → Session → Type 0) (R : B → Session → Type 0) (m : Tx A) (f : A → Tx B)
    (s : Session)
    → Returns Q (m s)
    → ((a : A) (s' : Session) → Q a s' → Returns R (f a s'))
    → Returns R ((m >>= f) s)
unfolding ◌>>=◌
Returns-bind {A} {B} Q R m f s h k = go (m s) h
  where
    go :
        (r : Result (A × Session))
        → Returns Q r
        → Returns R (elim r [ ok (a, s') ↦ f a s' | err e ↦ err e ])
    go (ok (a, s')) q = k a s' q
    go (err e) q = tt

-- A weaker postcondition.
pub Returns-weaken :
    {A : Type 0} (Q R : A → Session → Type 0) (r : Result (A × Session))
    → Returns Q r
    → ((a : A) (s : Session) → Q a s → R a s)
    → Returns R r
Returns-weaken Q R (ok (a, s)) q k = k a s q
Returns-weaken Q R (err e) q k = tt

-- A step of which nothing needs to be known.
pub Returns-any : {A : Type 0} (r : Result (A × Session)) → Returns (λ _ _. Unit {0}) r
Returns-any (ok (a, s)) = tt
Returns-any (err e) = tt

-- Both postconditions.
pub Returns-and :
    {A : Type 0} (Q R : A → Session → Type 0) (r : Result (A × Session))
    → Returns Q r
    → Returns R r
    → Returns (λ a s. Q a s × R a s) r
Returns-and Q R (ok (a, s)) h k = (h, k)
Returns-and Q R (err e) h k = tt

end_tx_cases :
    {A : Type 0} (P : Database → Type 0) (commits : Commit) (db : Database)
    (r : Result (A × Session))
    → P db
    → Returns (λ _ s. P s.db) r
    → P (end_tx commits db r).1
unfolding end_tx
end_tx_cases P commits db (err e) p h = p
end_tx_cases P committed db (ok (a, s)) p h = h
end_tx_cases P commit_refused db (ok (a, s)) p h = p
end_tx_cases P answer_lost db (ok (a, s)) p h = h

-- What the body keeps, the transaction keeps, whether it commits or rolls back.
pub in_tx-keeps :
    {A : Type 0} (P : Database → Type 0) (env : Env) (fn : Tx A) (db : Database)
    → P db
    → Returns (λ _ s. P s.db) (fn (record { db = db; ids = env.ids; clock = env.clock }))
    → P (in_tx env fn db).1
unfolding in_tx
in_tx-keeps P env fn db p h = elim (Bool-cases env.begins) [
  | inl b ↦ rw b (end_tx_cases P env.commits db _ p h)
  | inr b ↦ rw b p
]

end_tx-succeeds :
    {A : Type 0} (P : Database → Type 0) (commits : Commit) (db : Database)
    (r : Result (A × Session)) {a : A}
    → Returns (λ _ s. P s.db) r
    → (end_tx commits db r).0 ≡ ok a
    → P (end_tx commits db r).1
unfolding end_tx
end_tx-succeeds P commits db (err e) h o = absurd (cc)
end_tx-succeeds P committed db (ok (a, s)) h o = h
end_tx-succeeds P commit_refused db (ok (a, s)) h o = absurd (cc)
end_tx-succeeds P answer_lost db (ok (a, s)) h o = absurd (cc)

not_both : {A : Type 0} {e : StoreError} {r : A} → ◌≡◌ {A = Result A} (err e) (ok r) → ⊥
not_both h = cc

-- A transaction that succeeds leaves what its body leaves.
pub in_tx-succeeds :
    {A : Type 0} (P : Database → Type 0) (env : Env) (fn : Tx A) (db : Database) {a : A}
    → Returns (λ _ s. P s.db) (fn (record { db = db; ids = env.ids; clock = env.clock }))
    → (in_tx env fn db).0 ≡ ok a
    → P (in_tx env fn db).1
unfolding in_tx
in_tx-succeeds P env fn db h o = elim (Bool-cases env.begins) [
  | inl begun ↦ rw begun (end_tx-succeeds P env.commits db _ h (rw begun at o))
  | inr refused ↦ absurd (not_both (rw refused at o))
]

-- The step leaves the stock as it is.
pub record IsQuiet {A : Type 0} (m : Tx A) : Type 0 where
  pub at : (s : Session) → Returns (λ _ s'. s'.db.tables ≡ s.db.tables) (m s)

pub new_id-IsQuiet : IsQuiet new_id
unfolding new_id
new_id-IsQuiet = record { at = λ s. take (s.ids) s }
  where
    take :
        (ids : List RowId) (s : Session)
        → Returns (λ _ s'. s'.db.tables ≡ s.db.tables) (take_id ids s)
    take [] s = tt
    take (i ∷ ids) s = refl
