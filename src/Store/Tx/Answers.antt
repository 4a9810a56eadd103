-- ===== src/Store/Tx/Answers.antt =====
-- Triples whose postcondition names the answer of the step as well as the tables that it leaves.
use inventory.Prelude.{◌≡◌, refl, Bool, true, false, Option, none, some, if◌then◌else◌}
use inventory.Store.Schema.{Inventory}
use inventory.Store.Tx.{StoreError, Session, Tx, ◌>>=◌, pure, fail, gets, row_or}
use inventory.Store.Tx.Rules.{Returns, Returns-bind}
use inventory.Store.Tx.Triple.{Triple}

pub record Answers {A : Type 0} (P : Inventory → Type 0) (m : Tx A) (R : A → Inventory → Type 0)
    : Type 0 where
  pub at : (s : Session) → P s.db.tables → Returns (λ a s'. R a s'.db.tables) (m s)

module _ {A B : Type 0} {P : Inventory → Type 0} where
  -- What follows may use the answer.
  pub Answers-then :
      {Q : A → Inventory → Type 0} {R : Inventory → Type 0} {m : Tx A} {f : A → Tx B}
      → Answers P m Q
      → ((a : A) → Triple (Q a) (f a) R)
      → Triple P (m >>= f) R
  Answers-then {Q} {R} {m} {f} hm hf = record {
    at = λ s p.
        Returns-bind (λ a s'. Q a s'.db.tables) (λ _ s'. R s'.db.tables) m f s (hm.at s p)
          (λ a s' q. (hf a).at s' q);
  }

  pub Answers-bind :
      {Q : Inventory → Type 0} {R : B → Inventory → Type 0} {m : Tx A} {f : A → Tx B}
      → Triple P m Q
      → ((a : A) → Answers Q (f a) R)
      → Answers P (m >>= f) R
  Answers-bind {Q} {R} {m} {f} hm hf = record {
    at = λ s p.
        Returns-bind (λ _ s'. Q s'.db.tables) (λ b s'. R b s'.db.tables) m f s (hm.at s p)
          (λ a s' q. (hf a).at s' q);
  }

module _ {A : Type 0} {P : Inventory → Type 0} {R : A → Inventory → Type 0} where
  pub Answers-pure : (a : A) → ((t : Inventory) → P t → R a t) → Answers P (pure a) R
  unfolding pure
  Answers-pure a h = record { at = λ s p. h s.db.tables p }

  pub Answers-fail : (e : StoreError) → Answers P (fail e) R
  unfolding fail
  Answers-fail e = record { at = λ s p. tt }

  pub Answers-if :
      (b : Bool) {m k : Tx A}
      → (b ≡ true → Answers P m R)
      → (b ≡ false → Answers P k R)
      → Answers P (if b then m else k) R
  Answers-if true hm hk = hm refl
  Answers-if false hm hk = hk refl

  pub Answers-tables :
      {f : Inventory → Tx A}
      → ((t : Inventory) → P t → Answers (λ t'. t' ≡ t) (f t) R)
      → Answers P (gets (λ s. s.db.tables) >>= f) R
  unfolding ◌>>=◌ gets
  Answers-tables h = record { at = λ s p. (h s.db.tables p).at s refl }

  pub Answers-row_or :
      {B : Type 0} (o : Option B) (e : StoreError) {f : B → Tx A}
      → ((b : B) → o ≡ some b → Answers P (f b) R)
      → Answers P (row_or o e >>= f) R
  unfolding ◌>>=◌ row_or
  Answers-row_or none e h = record { at = λ s p. tt }
  Answers-row_or (some b) e h = record { at = λ s p. (h b refl).at s p }
