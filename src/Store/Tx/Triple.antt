-- ===== src/Store/Tx/Triple.antt =====
-- Hoare triples about the stock tables: where the step succeeds from tables that satisfy `P`, it
-- leaves tables that satisfy `R`. One rule for each way to build a transaction.
use mathlib.Core.Path.{subst}
use inventory.Prelude.{◌≡◌, refl, sym, Bool, true, false, Option, none, some, if◌then◌else◌}
use inventory.Store.Schema.{Inventory, Database}
use inventory.Store.Tx.{
  StoreError, Result, ok, err, Session, Tx, ◌>>=◌, pure, fail, refuse_if, row_or, from_result, gets,
  when, Env, in_tx,
}
use inventory.Store.Tx.Rules.{
  Returns, Returns-bind, Returns-weaken, Returns-and, IsQuiet, in_tx-keeps, in_tx-succeeds,
}

pub record Triple {A : Type 0} (P : Inventory → Type 0) (m : Tx A) (R : Inventory → Type 0)
    : Type 0 where
  pub at : (s : Session) → P s.db.tables → Returns (λ _ s'. R s'.db.tables) (m s)

module _ {A B : Type 0} {P Q R : Inventory → Type 0} where
  pub Triple-bind :
      {m : Tx A} {f : A → Tx B} → Triple P m Q → ((a : A) → Triple Q (f a) R) → Triple P (m >>= f) R
  Triple-bind {m} {f} hm hf = record {
    at = λ s p.
        Returns-bind (λ _ s'. Q s'.db.tables) (λ _ s'. R s'.db.tables) m f s (hm.at s p)
          (λ a s' q. (hf a).at s' q);
  }

module _ {A : Type 0} {P R : Inventory → Type 0} where
  -- Reading the tables: what follows starts from exactly these.
  pub Triple-tables :
      {f : Inventory → Tx A}
      → ((t : Inventory) → P t → Triple (λ t'. t' ≡ t) (f t) R)
      → Triple P (gets (λ s. s.db.tables) >>= f) R
  unfolding ◌>>=◌ gets
  Triple-tables h = record { at = λ s p. (h s.db.tables p).at s refl }

  -- What follows may use a fact about the tables.
  Triple-exact : {m : Tx A} → ((t : Inventory) → P t → Triple (λ t'. t' ≡ t) m R) → Triple P m R
  Triple-exact h = record { at = λ s p. (h s.db.tables p).at s refl }

  pub Triple-fail : (e : StoreError) → Triple P (fail {A = A} e) R
  unfolding fail
  Triple-fail e = record { at = λ s p. tt }

  pub Triple-pure : (a : A) → ((t : Inventory) → P t → R t) → Triple P (pure a) R
  unfolding pure
  Triple-pure a h = record { at = λ s p. h s.db.tables p }

  pub Triple-if :
      (b : Bool) {m k : Tx A}
      → (b ≡ true → Triple P m R)
      → (b ≡ false → Triple P k R)
      → Triple P (if b then m else k) R
  Triple-if true hm hk = hm refl
  Triple-if false hm hk = hk refl

  pub Triple-refuse_if :
      (b : Bool) (e : StoreError) {k : Tx A}
      → (b ≡ false → Triple P k R)
      → Triple P (refuse_if b e >>= λ _. k) R
  unfolding ◌>>=◌ refuse_if
  Triple-refuse_if true e h = record { at = λ s p. tt }
  Triple-refuse_if false e h = record { at = λ s p. (h refl).at s p }

  pub Triple-row_or :
      {B : Type 0} (o : Option B) (e : StoreError) {f : B → Tx A}
      → ((b : B) → o ≡ some b → Triple P (f b) R)
      → Triple P (row_or o e >>= f) R
  unfolding ◌>>=◌ row_or
  Triple-row_or none e h = record { at = λ s p. tt }
  Triple-row_or (some b) e h = record { at = λ s p. (h b refl).at s p }

  pub Triple-from_result :
      {B : Type 0} (r : Result B) {f : B → Tx A}
      → ((b : B) → r ≡ ok b → Triple P (f b) R)
      → Triple P (from_result r >>= f) R
  unfolding ◌>>=◌ from_result
  Triple-from_result (err e) h = record { at = λ s p. tt }
  Triple-from_result (ok b) h = record { at = λ s p. (h b refl).at s p }

  -- A read of the clock.
  pub Triple-gets :
      {B : Type 0} (g : Session → B) {f : B → Tx A}
      → ((b : B) → Triple P (f b) R)
      → Triple P (gets g >>= f) R
  unfolding ◌>>=◌ gets
  Triple-gets g h = record { at = λ s p. (h (g s)).at s p }

-- A read of what the tables say, where they are known.
pub Triple-read :
    {A B : Type 0} {R : Inventory → Type 0} {t : Inventory} (g : Inventory → B) (f : B → Tx A)
    → Triple (λ t'. t' ≡ t) (f (g t)) R
    → Triple (λ t'. t' ≡ t) (gets (λ s. g s.db.tables) >>= f) R
unfolding ◌>>=◌ gets
Triple-read {R} g f h = record {
  at = λ s e. subst (λ u. Returns (λ _ s'. R s'.db.tables) (f (g u) s)) (sym e) (h.at s e);
}

pub Triple-weaken :
    {A : Type 0} {P Q R : Inventory → Type 0} {m : Tx A}
    → Triple P m Q
    → ((t : Inventory) → Q t → R t)
    → Triple P m R
Triple-weaken {Q} {R} {m} h k = record {
  at = λ s p.
      Returns-weaken (λ _ s'. Q s'.db.tables) (λ _ s'. R s'.db.tables) (m s) (h.at s p)
        (λ _ s' q. k s'.db.tables q);
}

pub Triple-strengthen :
    {A : Type 0} {P Q R : Inventory → Type 0} {m : Tx A}
    → ((t : Inventory) → P t → Q t)
    → Triple Q m R
    → Triple P m R
Triple-strengthen k h = record { at = λ s p. h.at s (k s.db.tables p) }

pub Triple-quiet : {A : Type 0} {P : Inventory → Type 0} {m : Tx A} → IsQuiet m → Triple P m P
Triple-quiet {P} {m} q = record {
  at = λ s p.
      Returns-weaken (λ _ s'. s'.db.tables ≡ s.db.tables) (λ _ s'. P s'.db.tables) (m s) (q.at s)
        (λ _ s' e. subst P (sym e) p);
}

pub Triple-when :
    {P : Inventory → Type 0} (b : Bool) {m : Tx (Unit {0})} → Triple P m P → Triple P (when b m) P
unfolding when
Triple-when true h = h
Triple-when false h = record { at = λ s p. p }

-- The transaction as a whole keeps what its body keeps, whether it commits or not.
pub Triple-in_tx :
    {A : Type 0} {P : Inventory → Type 0} {fn : Tx A} (env : Env) (db : Database)
    → Triple P fn P
    → P db.tables
    → P (in_tx env fn db).1.tables
Triple-in_tx {P} {fn} env db h p =
    in_tx-keeps (λ d. P d.tables) env fn db p
      (h.at (record { db = db; ids = env.ids; clock = env.clock }) p)

-- Two triples of one step.
pub Triple-and :
    {A : Type 0} {P R R' : Inventory → Type 0} {m : Tx A}
    → Triple P m R
    → Triple P m R'
    → Triple P m (λ t. R t × R' t)
Triple-and {R} {R'} {m} h h' = record {
  at = λ s p.
      Returns-and (λ _ s'. R s'.db.tables) (λ _ s'. R' s'.db.tables) (m s) (h.at s p) (h'.at s p);
}

-- A transaction that succeeds leaves what its body leaves.
pub Triple-in_tx_ok :
    {A : Type 0} {R : Inventory → Type 0} {fn : Tx A} (env : Env) (db : Database) {a : A}
    → Triple (λ t. t ≡ db.tables) fn R
    → (in_tx env fn db).0 ≡ ok a
    → R (in_tx env fn db).1.tables
Triple-in_tx_ok {R} {fn} env db h o =
    in_tx-succeeds (λ d. R d.tables) env fn db
      (h.at (record { db = db; ids = env.ids; clock = env.clock }) refl) o
