-- ===== src/Images/Png/Chunks.antt =====
-- The chunks of a PNG file as a list: a reference for walkPNGChunks.
use inventory.Prelude.{
  ℕ, zero, suc, ◌+◌, ◌≡◌, refl, List, [], ◌∷◌, Bool, true, false, ltb, if◌then◌else◌, take, length,
  inl, inr, Bool-cases, arith,
}
use inventory.Images.Bytes.{Bytes, unsupported_format, truncated_chunk, Read, ok, err, stuck, drop}
use inventory.Images.Png.{is_png, is_iend, chunk_length, walk_chunks}

-- The length and the type of a chunk, byte for byte, and its data with the check sum.
pub record Chunk : Type 0 where
  pub a : ℕ
  pub b : ℕ
  pub c : ℕ
  pub d : ℕ
  pub t : ℕ
  pub u : ℕ
  pub v : ℕ
  pub w : ℕ
  pub body : Bytes

abbrev pub kind : Chunk → Bytes
kind k = k.t ∷ k.u ∷ k.v ∷ k.w ∷ []

abbrev pub whole : Chunk → Bytes
whole k = k.a ∷ k.b ∷ k.c ∷ k.d ∷ k.t ∷ k.u ∷ k.v ∷ k.w ∷ k.body

abbrev pub prepend : Chunk → Read (List Chunk) → Read (List Chunk)
prepend k (ok ks) = ok (k ∷ ks)
prepend k (err e) = err e
prepend k stuck = stuck

-- The chunks up to the end: a reference for walkPNGChunks.
unfoldable pub scan_chunks : ℕ → Bytes → Read (List Chunk)
scan_chunks zero left = stuck
scan_chunks (suc fuel) (a ∷ b ∷ c ∷ d ∷ t ∷ u ∷ v ∷ w ∷ rest) =
    let n = chunk_length a b c d + 4 in
    let k : Chunk = record {
      a = a;
      b = b;
      c = c;
      d = d;
      t = t;
      u = u;
      v = v;
      w = w;
      body = take n rest;
    } in
    let more = scan_chunks fuel (drop n rest) in
    if ltb (length rest) n
    then err truncated_chunk
    else if is_iend (kind k)
    then ok (k ∷ [])
    else prepend k more
scan_chunks (suc fuel) _ = ok []

unfoldable pub chunks : Bytes → Read (List Chunk)
unfolding scan_chunks is_png
chunks file =
    if is_png file then scan_chunks (length file) (drop 8 file) else err unsupported_format

eight : (n : ℕ) → 8 + n + 4 ≡ suc (suc (suc (suc (suc (suc (suc (suc (n + 4))))))))
eight n = omega arith

too_long : (l n : ℕ) (b : Bool) → ltb l (n + 4) ≡ b → ltb (l + 8) (8 + n + 4) ≡ b
too_long l n b h = ground arith

module _ {S : Type 0} (visit : S → Bytes → Bytes → S) where
  abbrev pub fold : S → List Chunk → S
  fold s [] = s
  fold s (k ∷ ks) = fold (visit s (kind k) (whole k)) ks

  abbrev pub finish : S → Read (List Chunk) → Read S
  finish s (ok ks) = ok (fold s ks)
  finish s (err e) = err e
  finish s stuck = stuck

  finish-prepend :
      (s : S) (k : Chunk) (r : Read (List Chunk))
      → finish (visit s (kind k) (whole k)) r ≡ finish s (prepend k r)
  finish-prepend s k (ok ks) = refl
  finish-prepend s k (err e) = refl
  finish-prepend s k stuck = refl

  -- A walk folds its visits over the chunks.
  pub walk_chunks-scan :
      (fuel : ℕ) (s : S) (left : Bytes)
      → walk_chunks visit fuel s left ≡ finish s (scan_chunks fuel left)
  unfolding walk_chunks scan_chunks
  walk_chunks-scan zero s left = refl
  walk_chunks-scan (suc fuel) s [] = refl
  walk_chunks-scan (suc fuel) s (a ∷ []) = refl
  walk_chunks-scan (suc fuel) s (a ∷ b ∷ []) = refl
  walk_chunks-scan (suc fuel) s (a ∷ b ∷ c ∷ []) = refl
  walk_chunks-scan (suc fuel) s (a ∷ b ∷ c ∷ d ∷ []) = refl
  walk_chunks-scan (suc fuel) s (a ∷ b ∷ c ∷ d ∷ t ∷ []) = refl
  walk_chunks-scan (suc fuel) s (a ∷ b ∷ c ∷ d ∷ t ∷ u ∷ []) = refl
  walk_chunks-scan (suc fuel) s (a ∷ b ∷ c ∷ d ∷ t ∷ u ∷ v ∷ []) = refl
  walk_chunks-scan (suc fuel) s (a ∷ b ∷ c ∷ d ∷ t ∷ u ∷ v ∷ w ∷ rest) =
      elim (Bool-cases (ltb (length rest) (chunk_length a b c d + 4))) [
        | inl short ↦ rw (too_long (length rest) (chunk_length a b c d) true short, short) refl
        | inr fits ↦
            rw
              (
                too_long (length rest) (chunk_length a b c d) false fits,
                fits,
                eight (chunk_length a b c d),
              )
              (elim (Bool-cases (is_iend (t ∷ u ∷ v ∷ w ∷ []))) [
                | inl end ↦ rw end refl
                | inr more ↦ rw (more, walk_chunks-scan fuel) (finish-prepend s _ _)
              ])
      ]
