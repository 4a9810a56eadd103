-- ===== src/Images/Strip/Total.antt =====
-- internal/images/strip.go: Strip always ends, and what it answers where nothing is rotated.
use inventory.Prelude.{
  ℕ, zero, suc, ◌+◌, ◌*◌, take, ◌&&◌, ◌≤◌, ◌<◌, ◌≡◌, refl, List, [], ◌∷◌, ◌++◌, true, false, ltb,
  ◌⊎◌, if-keeps, length, All, inl, inr, Bool-cases, arith, Option, none, some,
}
use inventory.Images.Bytes.{
  Bytes, Read, ok, err, stuck, ◌>>=◌, drop, same_bytes, length-same_bytes, length-take_le, Ended,
  Ended-bind, length-drop_within,
}
use inventory.Images.Exif.{Orientation, needs_transform}
use inventory.Images.Jpeg.{
  marker_soi, copy_segment, is_jpeg, drop_jpeg_metadata_segments, walk_jpeg_segments,
}
use inventory.Images.Jpeg.Segments.{Segment}
use inventory.Images.Jpeg.Shape.{IsByte, walk_jpeg_segments-ends}
use inventory.Images.Jpeg.Clean.{
  scanned, segments, kept, EndsInScan, IsImageData, drop_jpeg_metadata_segments-segments,
}
use inventory.Images.Png.{
  png_signature, is_png, is_iend, chunk_length, walk_chunks, walk_png_chunks,
  drop_png_metadata_chunks,
}
use inventory.Images.Transform.{Image, apply_orientation}
use inventory.Images.Png.{copy_chunk}
use inventory.Images.Png.Chunks.{Chunk, chunks}
use inventory.Images.Png.Clean.{
  kept as kept_chunks, write_all, IsImageChunk, scanned as png_scanned,
  drop_png_metadata_chunks-chunks,
}
use inventory.Images.Strip.{
  visit_exif, visit_png, Codec, max_pixels, Format, jpeg, png, Stripped, jpeg_orientation,
  png_orientation, check_size, check_dimensions, or_codec, re_encode, copied_as, strip_jpeg,
  strip_png, strip,
}

still_enough : (l n : ℕ) → ltb (l + 8) n ≡ false → n ≤ l + 8
still_enough l n h = ground arith

module _ {S : Type 0} (visit : S → Bytes → Bytes → S) where
  -- A chunk takes twelve bytes at least.
  walk_chunks-ends :
      (fuel : ℕ) (s : S) (left : Bytes) → length left < fuel → Ended (walk_chunks visit fuel s left)
  unfolding walk_chunks
  walk_chunks-ends zero s left h = absurd (omega arith)
  walk_chunks-ends (suc fuel) s [] h = tt
  walk_chunks-ends (suc fuel) s (a ∷ []) h = tt
  walk_chunks-ends (suc fuel) s (a ∷ b ∷ []) h = tt
  walk_chunks-ends (suc fuel) s (a ∷ b ∷ c ∷ []) h = tt
  walk_chunks-ends (suc fuel) s (a ∷ b ∷ c ∷ d ∷ []) h = tt
  walk_chunks-ends (suc fuel) s (a ∷ b ∷ c ∷ d ∷ t ∷ []) h = tt
  walk_chunks-ends (suc fuel) s (a ∷ b ∷ c ∷ d ∷ t ∷ u ∷ []) h = tt
  walk_chunks-ends (suc fuel) s (a ∷ b ∷ c ∷ d ∷ t ∷ u ∷ v ∷ []) h = tt
  walk_chunks-ends (suc fuel) s (a ∷ b ∷ c ∷ d ∷ t ∷ u ∷ v ∷ w ∷ rest) h =
      let size = 8 + chunk_length a b c d + 4 in
      elim (Bool-cases (ltb (length rest + 8) size)) [
        | inl short ↦ rw short tt
        | inr fits ↦
            let left = a ∷ b ∷ c ∷ d ∷ t ∷ u ∷ v ∷ w ∷ rest in
            let within : size ≤ length left = omega (arith, still_enough (length rest) size fits) in
            let fewer = length-drop_within size left within in
            rw fits (
              if-keeps Ended (is_iend (t ∷ u ∷ v ∷ w ∷ [])) _ _ tt
                (walk_chunks-ends fuel _ (drop size left) (omega arith)))
      ]

  walk_png_chunks-ends : (s : S) (file : Bytes) → Ended (walk_png_chunks visit s file)
  unfolding walk_png_chunks is_png
  walk_png_chunks-ends s file = elim (Bool-cases (same_bytes (take 8 file) png_signature)) [
    | inr other ↦ rw other tt
    | inl png_ ↦
        let eight : 8 ≤ length file =
          omega
            (arith, length-same_bytes (take 8 file) png_signature png_, length-take_le 8 file) in
        rw png_ (
          walk_chunks-ends (length file) s (drop 8 file)
            (omega (arith, length-drop_within 8 file eight)))
  ]

module _ (lib : Codec) where
  check_dimensions-ends : (file : Bytes) (most : ℕ) → Ended (check_dimensions lib file most)
  unfolding check_dimensions
  check_dimensions-ends file most = sized (lib.config file)
    where
      sized : (size : Option (ℕ × ℕ)) → Ended (check_size lib most size)
      sized none = tt
      sized (some (w, h)) = if-keeps Ended (ltb 0 most && ltb most (w * h)) _ _ tt tt

  encoded : Format → Orientation → Option Bytes → Read Stripped
  encoded format o out = or_codec lib out >>= λ bytes.
      ok (record { content = bytes; format = format; orientation = o; re_encoded = true })

  encoded-ends :
      (format : Format) (o : Orientation) (out : Option Bytes) → Ended (encoded format o out)
  unfolding encoded
  encoded-ends format o none = tt
  encoded-ends format o (some out) = tt

  decoded-ends :
      (format : Format) (o : Orientation) (src : Option (Image lib.Pixel))
      → Ended (
          or_codec lib src >>= λ i.
          encoded format o (lib.encode format (apply_orientation lib.as_rgba lib.blank i o)))
  decoded-ends format o none = tt
  decoded-ends format o (some i) = encoded-ends format o _

  re_encode-ends :
      (format : Format) (o : Orientation) (file : Bytes) → Ended (re_encode lib format o file)
  unfolding re_encode encoded
  re_encode-ends format o file =
      Ended-bind (check_dimensions lib file max_pixels) _ (check_dimensions-ends file max_pixels)
        (λ _. decoded-ends format o (lib.decode format file))

  copied_as-ends :
      (format : Format) (o : Orientation) (r : Read Bytes)
      → Ended r
      → Ended (copied_as lib format o r)
  copied_as-ends format o (ok out) h = tt
  copied_as-ends format o (err e) h = tt
  copied_as-ends format o stuck h = h

  strip_jpeg-ends : (file : Bytes) → Ended (strip_jpeg lib file)
  unfolding strip_jpeg jpeg_orientation drop_jpeg_metadata_segments
  strip_jpeg-ends file =
      Ended-bind (jpeg_orientation file) _
        (Ended-bind (walk_jpeg_segments visit_exif 1 file) _
          (walk_jpeg_segments-ends visit_exif 1 file) (λ _. tt))
        (λ o. if-keeps Ended (needs_transform o) _ _ (re_encode-ends jpeg o file) (
          copied_as-ends jpeg o (drop_jpeg_metadata_segments file) (
            Ended-bind (walk_jpeg_segments copy_segment (0xFF ∷ marker_soi ∷ []) file) _
              (walk_jpeg_segments-ends copy_segment _ file) (λ _. tt))))

  strip_png-ends : (file : Bytes) → Ended (strip_png lib file)
  unfolding strip_png png_orientation drop_png_metadata_chunks
  strip_png-ends file =
      Ended-bind (png_orientation file) _ (walk_png_chunks-ends visit_png 1 file) (λ o.
        if-keeps Ended (needs_transform o) _ _ (re_encode-ends png o file) (
          copied_as-ends png o (drop_png_metadata_chunks file)
            (walk_png_chunks-ends copy_chunk png_signature file)))

  -- Strip ends on every file, whatever the codecs answer: no loop over segments or chunks runs on.
  pub strip-ends : (file : Bytes) → Ended (strip lib file)
  unfolding strip
  strip-ends file =
      if-keeps Ended (is_jpeg file) _ _ (strip_jpeg-ends file)
        (if-keeps Ended (is_png file) _ _ (strip_png-ends file) tt)

  -- A JPEG file of bytes that needs no rotation, and whose segments end in a scan or with the file, is
  -- stripped without a codec: the answer reads, up to its scan, as exactly the segments that are no
  -- metadata, in order, so that no APP0 to APP15 and no comment is left there. What followed the header
  -- of the scan follows as it was, whatever it holds.
  pub strip-jpeg :
      (file : Bytes) {o : Orientation} {gs : List Segment} {rest : Bytes}
      → All IsByte file
      → jpeg_orientation file ≡ ok o
      → needs_transform o ≡ false
      → segments file ≡ ok (gs, rest)
      → EndsInScan gs ⊎ (rest ≡ [])
      → (r : Stripped) × (strip lib file ≡ ok r)
        × (r.re_encoded ≡ false)
        × (segments r.content ≡ ok (kept gs, rest))
        × All IsImageData (kept gs)
  unfolding strip strip_jpeg
  strip-jpeg file {o} bytes turned upright found e =
      let (out, copied, reads, clean) = drop_jpeg_metadata_segments-segments file bytes found e in
      let is_one = (scanned file found).0 in
      (
        record { content = out; format = jpeg; orientation = o; re_encoded = false },
        rw (is_one, turned, upright, copied) refl,
        refl,
        reads,
        clean,
      )

  -- A file that reads as PNG chunks and needs no rotation is stripped without a codec: the answer reads
  -- as exactly the chunks that are no metadata, in order, without a chunk of the types eXIf, tEXt, iTXt
  -- and zTXt and without anything that followed the end chunk.
  pub strip-png :
      (file : Bytes) {o : Orientation} {ks : List Chunk}
      → is_jpeg file ≡ false
      → png_orientation file ≡ ok o
      → needs_transform o ≡ false
      → chunks file ≡ ok ks
      → (r : Stripped) × (strip lib file ≡ ok r)
        × (r.re_encoded ≡ false)
        × (r.content ≡ png_signature ++ write_all (kept_chunks ks))
        × (chunks r.content ≡ ok (kept_chunks ks))
        × All IsImageChunk (kept_chunks ks)
  unfolding strip strip_png
  strip-png file {o} {ks} other turned upright found =
      let (out, copied, reads, bytes, clean) = drop_png_metadata_chunks-chunks file found in
      let is_one = (png_scanned file found).0 in
      (
        record { content = out; format = png; orientation = o; re_encoded = false },
        rw (other, is_one, turned, upright, copied) refl,
        refl,
        bytes,
        reads,
        clean,
      )
