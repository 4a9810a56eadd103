-- ===== src/Images/Png/Clean.antt =====
-- internal/images/strip.go: what the copy of a PNG file without its metadata holds.
use mathlib.Core.List.{append_assoc, append-nil}
use mathlib.Core.Path.{subst}
use inventory.Prelude.{
  ℕ, zero, suc, ◌+◌, ◌≤◌, ◌<◌, ◌≡◌, ◌≢◌, ==_refl, refl, sym, ap, ◌∙◌, List, [], ◌∷◌, ◌++◌, Bool,
  true, false, not, ◌||◌, ltb, length, length-append, inl, inr, Bool-cases, All, select, arith,
}
use inventory.Images.Bytes.{
  Bytes, Read, ok, err, stuck, drop, take-append, drop-append, length-take, same_bytes,
}
use inventory.Images.Png.{
  png_signature, is_png, png_metadata_chunk, is_iend, chunk_length, walk_png_chunks, copy_chunk,
  drop_png_metadata_chunks,
}
use inventory.Images.Png.Chunks.{
  Chunk, kind, whole, prepend, scan_chunks, chunks, fold, walk_chunks-scan,
}

abbrev pub is_kept : Chunk → Bool
is_kept k = not (png_metadata_chunk (kind k))

-- The chunks that are no metadata, in order.
abbrev pub kept : List Chunk → List Chunk
kept = select is_kept

unfoldable pub write_all : List Chunk → Bytes
write_all [] = []
write_all (k ∷ ks) = whole k ++ write_all ks

fold-copy : (out : Bytes) (ks : List Chunk) → fold copy_chunk out ks ≡ out ++ write_all (kept ks)
unfolding write_all
fold-copy out [] = sym (append-nil out)
fold-copy out (k ∷ ks) = elim (Bool-cases (png_metadata_chunk (kind k))) [
  | inl meta ↦ rw meta (fold-copy out ks)
  | inr other ↦
      rw other (fold-copy (out ++ whole k) ks ∙ append_assoc out (whole k) (write_all (kept ks)))
]

-- The length measures the data, and nothing follows the end chunk.
abbrev AreChunks : List Chunk → Type 0
AreChunks [] = Unit
AreChunks (k ∷ ks) =
    (length k.body ≡ chunk_length k.a k.b k.c k.d + 4)
    × (is_iend (kind k) ≡ true → ks ≡ [])
    × AreChunks ks

abbrev Found : Read (List Chunk) → Type 0
Found (ok ks) = AreChunks ks
Found (err e) = Unit
Found stuck = Unit

contrary : {b : Bool} → b ≡ false → b ≡ true → ⊥
contrary e e' = cc

prepend-Found :
    (k : Chunk) (r : Read (List Chunk))
    → length k.body ≡ chunk_length k.a k.b k.c k.d + 4
    → is_iend (kind k) ≡ false
    → Found r
    → Found (prepend k r)
prepend-Found k (ok ks) n e h = (n, (λ e'. absurd (contrary e e')), h)
prepend-Found k (err x) n e h = tt
prepend-Found k stuck n e h = tt

enough : (l n : ℕ) → ltb l n ≡ false → n ≤ l
enough l n h = ground arith

scan_chunks-Found : (fuel : ℕ) (left : Bytes) → Found (scan_chunks fuel left)
unfolding scan_chunks
scan_chunks-Found zero left = tt
scan_chunks-Found (suc fuel) [] = tt
scan_chunks-Found (suc fuel) (a ∷ []) = tt
scan_chunks-Found (suc fuel) (a ∷ b ∷ []) = tt
scan_chunks-Found (suc fuel) (a ∷ b ∷ c ∷ []) = tt
scan_chunks-Found (suc fuel) (a ∷ b ∷ c ∷ d ∷ []) = tt
scan_chunks-Found (suc fuel) (a ∷ b ∷ c ∷ d ∷ t ∷ []) = tt
scan_chunks-Found (suc fuel) (a ∷ b ∷ c ∷ d ∷ t ∷ u ∷ []) = tt
scan_chunks-Found (suc fuel) (a ∷ b ∷ c ∷ d ∷ t ∷ u ∷ v ∷ []) = tt
scan_chunks-Found (suc fuel) (a ∷ b ∷ c ∷ d ∷ t ∷ u ∷ v ∷ w ∷ rest) =
    elim (Bool-cases (ltb (length rest) (chunk_length a b c d + 4))) [
      | inl short ↦ rw short tt
      | inr fits ↦
          let size = length-take (chunk_length a b c d + 4) rest (enough _ _ fits) in
          rw fits (elim (Bool-cases (is_iend (t ∷ u ∷ v ∷ w ∷ []))) [
            | inl end ↦ rw end (size, (λ _. refl), tt)
            | inr more ↦ rw more (
                prepend-Found _ _ size more
                  (scan_chunks-Found fuel (drop (chunk_length a b c d + 4) rest)))
          ])
    ]

kept-AreChunks : (ks : List Chunk) → AreChunks ks → AreChunks (kept ks)
kept-AreChunks [] h = tt
kept-AreChunks (k ∷ ks) (n, last, h) = elim (Bool-cases (is_kept k)) [
  | inl yes_ ↦ rw yes_ (n, (λ e. ap kept (last e)), kept-AreChunks ks h)
  | inr no_ ↦ rw no_ (kept-AreChunks ks h)
]

body_fits : (p l n : ℕ) → p ≡ n → ltb (p + l) n ≡ false
body_fits p l n h = ground arith

-- Chunks that were written are read back.
scan_chunks-write_all :
    (ks : List Chunk) (fuel : ℕ)
    → AreChunks ks
    → length (write_all ks) < fuel
    → scan_chunks fuel (write_all ks) ≡ ok ks
unfolding write_all scan_chunks
scan_chunks-write_all ks zero h f = absurd (omega arith)
scan_chunks-write_all [] (suc fuel) h f = refl
scan_chunks-write_all (k ∷ ks) (suc fuel) (n, last, h) f =
    rw
      (
        ← n,
        length-append k.body (write_all ks),
        body_fits (length k.body) (length (write_all ks)) (length k.body) refl,
        take-append k.body (write_all ks),
        drop-append k.body (write_all ks),
      )
      (elim (Bool-cases (is_iend (kind k))) [
        | inl end ↦ rw (end, last end) refl
        | inr more ↦
            rw
              (
                more,
                scan_chunks-write_all ks fuel h
                    (omega (arith, length-append k.body (write_all ks))),
              )
              refl
      ])

same_bytes_refl : (xs : Bytes) → same_bytes xs xs ≡ true
same_bytes_refl [] = refl
same_bytes_refl (x ∷ xs) = ground (arith, same_bytes_refl xs, ==_refl x)

same_bytes-ne : (xs ys : Bytes) → same_bytes xs ys ≡ false → xs ≢ ys
same_bytes-ne xs ys h e = contrary h (subst (λ zs. same_bytes xs zs ≡ true) e (same_bytes_refl xs))

-- A chunk of another type than the four with metadata.
abbrev pub IsImageChunk : Chunk → Type 0
IsImageChunk k =
    (kind k ≢ b'e' ∷ b'X' ∷ b'I' ∷ b'f' ∷ [])
    × (kind k ≢ b't' ∷ b'E' ∷ b'X' ∷ b't' ∷ [])
    × (kind k ≢ b'i' ∷ b'T' ∷ b'X' ∷ b't' ∷ [])
    × (kind k ≢ b'z' ∷ b'T' ∷ b'X' ∷ b't' ∷ [])

neither : (a b : Bool) → (a || b) ≡ false → (a ≡ false) × (b ≡ false)
neither a b h = ground arith

image_chunk : (k : Chunk) → png_metadata_chunk (kind k) ≡ false → IsImageChunk k
image_chunk k h =
    let (e, rest) = neither _ _ h in
    let (t, rest') = neither _ _ rest in
    let (i, z) = neither _ _ rest' in
    (
      same_bytes-ne (kind k) _ e,
      same_bytes-ne (kind k) _ t,
      same_bytes-ne (kind k) _ i,
      same_bytes-ne (kind k) _ z,
    )

kept-IsImageChunk : (ks : List Chunk) → All IsImageChunk (kept ks)
kept-IsImageChunk [] = tt
kept-IsImageChunk (k ∷ ks) = elim (Bool-cases (png_metadata_chunk (kind k))) [
  | inl meta ↦ rw meta (kept-IsImageChunk ks)
  | inr other ↦ rw other (image_chunk k other, kept-IsImageChunk ks)
]

pub scanned :
    (file : Bytes) {ks : List Chunk}
    → chunks file ≡ ok ks
    → (is_png file ≡ true) × (scan_chunks (length file) (drop 8 file) ≡ ok ks)
unfolding chunks
scanned file h = elim (Bool-cases (is_png file)) [
  | inl png ↦ (png, rw png at h)
  | inr other ↦ absurd (ground arith)
]

copied_file :
    (file : Bytes) {ks : List Chunk}
    → chunks file ≡ ok ks
    → drop_png_metadata_chunks file ≡ ok (png_signature ++ write_all (kept ks))
unfolding drop_png_metadata_chunks walk_png_chunks
copied_file file h =
    let (png, found) = scanned file h in
    rw (png, walk_chunks-scan copy_chunk, found, fold-copy) refl

-- Where a file reads as PNG chunks, the copy succeeds, and reads as exactly the chunks that are no
-- metadata, in order: none of the types eXIf, tEXt, iTXt and zTXt is left, nor anything that followed
-- the end chunk.
pub drop_png_metadata_chunks-chunks :
    (file : Bytes) {ks : List Chunk}
    → chunks file ≡ ok ks
    → (out : Bytes) × (drop_png_metadata_chunks file ≡ ok out)
      × (chunks out ≡ ok (kept ks))
      × (out ≡ png_signature ++ write_all (kept ks))
      × All IsImageChunk (kept ks)
drop_png_metadata_chunks-chunks file {ks} h = (
  png_signature ++ write_all (kept ks),
  copied_file file h,
  unfold chunks is_png in
      scan_chunks-write_all (kept ks)
        (suc (suc (suc (suc (suc (suc (suc (suc (length (write_all (kept ks)))))))))))
        (kept-AreChunks ks
          (rw (scanned file h).1 at (scan_chunks-Found (length file) (drop 8 file))))
        (omega arith),
  refl,
  kept-IsImageChunk ks,
)
