-- ===== src/Images/Png.antt =====
-- internal/images/strip.go: the chunks of a PNG file, and the copy without metadata.
pub mod Chunks
pub mod Clean
use inventory.Prelude.{
  ℕ, zero, suc, ◌+◌, ◌*◌, List, [], ◌∷◌, ◌++◌, Bool, true, false, ◌||◌, ltb, if◌then◌else◌, take,
  length,
}
use inventory.Images.Bytes.{
  Bytes, unsupported_format, truncated_chunk, ImageError, Read, ok, err, stuck, ◌>>=◌, drop,
  same_bytes,
}

abbrev pub png_signature : Bytes
png_signature = 0x89 ∷ b'P' ∷ b'N' ∷ b'G' ∷ 13 ∷ 10 ∷ 0x1A ∷ 10 ∷ []

unfoldable pub is_png : Bytes → Bool
is_png file = same_bytes (take 8 file) png_signature

-- eXIf, tEXt, iTXt and zTXt.
abbrev pub png_metadata_chunk : Bytes → Bool
png_metadata_chunk t =
    same_bytes t (b'e' ∷ b'X' ∷ b'I' ∷ b'f' ∷ [])
    || (same_bytes t (b't' ∷ b'E' ∷ b'X' ∷ b't' ∷ [])
        || (same_bytes t (b'i' ∷ b'T' ∷ b'X' ∷ b't' ∷ [])
            || same_bytes t (b'z' ∷ b'T' ∷ b'X' ∷ b't' ∷ [])))

abbrev pub is_iend : Bytes → Bool
is_iend t = same_bytes t (b'I' ∷ b'E' ∷ b'N' ∷ b'D' ∷ [])

-- The length of a chunk's data: four bytes, the highest first. An int has 64 bits.
abbrev pub chunk_length : ℕ → ℕ → ℕ → ℕ → ℕ
chunk_length a b c d = ((a * 256 + b) * 256 + c) * 256 + d

module _ {S : Type 0} (visit : S → Bytes → Bytes → S) where
  -- After the check of the length: the chunk is data[i:end], with its header and its check sum. The
  -- visits of this package return no error.
  abbrev take_chunk : (S → Bytes → Read S) → S → Bytes → ℕ → Bytes → Read S
  take_chunk next s kind size left =
      if is_iend kind
      then ok (visit s kind (take size left))
      else next (visit s kind (take size left)) (drop size left)

  -- The loop of walkPNGChunks on data[i:], with fuel.
  unfoldable pub walk_chunks : ℕ → S → Bytes → Read S
  walk_chunks zero s left = stuck
  walk_chunks (suc fuel) s (a ∷ b ∷ c ∷ d ∷ t ∷ u ∷ v ∷ w ∷ rest) =
      let size = 8 + chunk_length a b c d + 4 in
      if ltb (length rest + 8) size
      then err truncated_chunk
      else take_chunk (walk_chunks fuel) s (t ∷ u ∷ v ∷ w ∷ []) size
          (a ∷ b ∷ c ∷ d ∷ t ∷ u ∷ v ∷ w ∷ rest)
  walk_chunks (suc fuel) s _ = ok s

  -- `walkPNGChunks`. Every round takes twelve bytes at least.
  unfoldable pub walk_png_chunks : S → Bytes → Read S
  unfolding is_png walk_chunks
  walk_png_chunks s file =
      if is_png file then walk_chunks (length file) s (drop 8 file) else err unsupported_format

-- The visit of dropPNGMetadataChunks: `out` is the buffer.
abbrev pub copy_chunk : Bytes → Bytes → Bytes → Bytes
copy_chunk out kind whole = if png_metadata_chunk kind then out else out ++ whole

-- `dropPNGMetadataChunks`
unfoldable pub drop_png_metadata_chunks : Bytes → Read Bytes
unfolding walk_png_chunks
drop_png_metadata_chunks file = walk_png_chunks copy_chunk png_signature file
