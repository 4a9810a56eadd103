-- ===== src/Images/Bytes.antt =====
-- Bytes of a file, and the outcome of reading them. A slice data[i:] is the list of what is left.
use inventory.Prelude.{
  ℕ, zero, suc, ◌+◌, ◌≤◌, ◌≡◌, refl, List, [], ◌∷◌, ◌++◌, Bool, true, false, ◌&&◌, ◌==◌, take,
  length, arith,
}

abbrev pub Bytes : Type 0
Bytes = List ℕ

-- The errors of internal/images; `codec` is one of the image libraries.
pub data ImageError : Type 0 where
  unsupported_format malformed truncated_length length_out_of_range : ImageError
  truncated_chunk too_large codec : ImageError

-- `stuck` is no Go value: a loop that ran out of fuel.
pub data Read {ℓ} (A : Type ℓ) : Type ℓ where
  ok : A → Read A
  err : ImageError → Read A
  stuck : Read A

infixl 5 ◌>>=◌
abbrev pub ◌>>=◌ {ℓ κ} : {A : Type ℓ} {B : Type κ} → Read A → (A → Read B) → Read B
ok a >>= f = f a
err e >>= f = err e
stuck >>= f = stuck

-- data[n:], for an n within the slice.
abbrev pub drop {ℓ} : {A : Type ℓ} → ℕ → List A → List A
drop zero xs = xs
drop (suc n) [] = []
drop (suc n) (x ∷ xs) = drop n xs

-- bytes.Equal
abbrev pub same_bytes : Bytes → Bytes → Bool
same_bytes [] [] = true
same_bytes (x ∷ xs) (y ∷ ys) = x == y && same_bytes xs ys
same_bytes _ _ = false

pub take-append : (xs ys : Bytes) → take (length xs) (xs ++ ys) ≡ xs
take-append [] ys = refl
take-append (x ∷ xs) ys = rw (take-append xs ys) refl

pub drop-append : (xs ys : Bytes) → drop (length xs) (xs ++ ys) ≡ ys
drop-append [] ys = refl
drop-append (x ∷ xs) ys = drop-append xs ys

pub length-take : (n : ℕ) (xs : Bytes) → n ≤ length xs → length (take n xs) ≡ n
length-take zero xs h = refl
length-take (suc n) [] h = absurd (omega arith)
length-take (suc n) (x ∷ xs) h = omega (arith, length-take n xs)

pub length-drop : (n : ℕ) (xs : Bytes) → length (drop n xs) ≤ length xs
length-drop zero xs = omega arith
length-drop (suc n) [] = omega arith
length-drop (suc n) (x ∷ xs) = omega (arith, length-drop n xs)

pub length-drop_within : (n : ℕ) (xs : Bytes) → n ≤ length xs → length (drop n xs) + n ≡ length xs
length-drop_within zero xs h = omega arith
length-drop_within (suc n) [] h = absurd (omega arith)
length-drop_within (suc n) (x ∷ xs) h = omega (arith, length-drop_within n xs)

-- The loop did not run out of fuel.
abbrev pub Ended {ℓ} : {A : Type ℓ} → Read A → Type 0
Ended (ok a) = Unit
Ended (err e) = Unit
Ended stuck = ⊥

pub Ended-bind {ℓ κ} :
    {A : Type ℓ} {B : Type κ} (r : Read A) (f : A → Read B)
    → Ended r
    → ((a : A) → Ended (f a))
    → Ended (r >>= f)
Ended-bind (ok a) f h k = k a
Ended-bind (err e) f h k = tt
Ended-bind stuck f h k = h

pub length-same_bytes : (xs ys : Bytes) → same_bytes xs ys ≡ true → length xs ≡ length ys
length-same_bytes [] [] h = refl
length-same_bytes [] (y ∷ ys) h = absurd (ground arith)
length-same_bytes (x ∷ xs) [] h = absurd (ground arith)
length-same_bytes (x ∷ xs) (y ∷ ys) h = ground (arith, length-same_bytes xs ys)

pub length-take_le : (n : ℕ) (xs : Bytes) → length (take n xs) ≤ length xs
length-take_le zero xs = omega arith
length-take_le (suc n) [] = omega arith
length-take_le (suc n) (x ∷ xs) = omega (arith, length-take_le n xs)
