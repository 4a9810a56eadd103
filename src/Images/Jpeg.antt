-- ===== src/Images/Jpeg.antt =====
-- internal/images/strip.go: the segments of a JPEG file, and the copy without metadata.
pub mod Segments
pub mod Shape
pub mod Clean
use inventory.Prelude.{
  ℕ, zero, suc, ◌+◌, ◌-◌, ◌*◌, ◌/◌, ◌%◌, List, [], ◌∷◌, ◌++◌, Bool, true, false, ◌&&◌, ◌||◌, ◌==◌,
  ltb, leb, if◌then◌else◌, take, length,
}
use inventory.Images.Bytes.{
  Bytes, unsupported_format, malformed, truncated_length, length_out_of_range, Read, ok, err, stuck,
  ◌>>=◌, drop,
}

abbrev pub marker_soi : ℕ
marker_soi = 0xD8

abbrev pub marker_eoi : ℕ
marker_eoi = 0xD9

abbrev pub marker_sos : ℕ
marker_sos = 0xDA

abbrev pub marker_app1 : ℕ
marker_app1 = 0xE1

unfoldable pub is_jpeg : Bytes → Bool
is_jpeg (a ∷ b ∷ _) = a == 0xFF && b == marker_soi
is_jpeg _ = false

-- APP0 to APP15, and COM.
abbrev pub is_metadata_marker : ℕ → Bool
is_metadata_marker m = leb 0xE0 m && leb m 0xEF || m == 0xFE

-- TEM, and RST0 to RST7.
abbrev pub is_standalone_marker : ℕ → Bool
is_standalone_marker m = m == 0x01 || leb 0xD0 m && leb m 0xD7

-- The loop over fill bytes.
unfoldable pub skip_fill : Bytes → Bytes
skip_fill [] = []
skip_fill (b ∷ bs) = let rest = skip_fill bs in if b == 0xFF then rest else b ∷ bs

module _ {S : Type 0} (visit : S → ℕ → Bytes → S × Bool) where
  -- After the visit: stop where it says so or at the scan, else go on.
  abbrev pub visited : (S → Bytes → Read (S × Bytes)) → ℕ → Bytes → S × Bool → Read (S × Bytes)
  visited next marker rest (s, false) = ok (s, rest)
  visited next marker rest (s, true) = if marker == marker_sos then ok (s, rest) else next s rest

  -- A segment with its length: the two bytes, and the payload that they measure.
  unfoldable pub segment : (S → Bytes → Read (S × Bytes)) → S → ℕ → Bytes → Read (S × Bytes)
  segment next s marker (h ∷ l ∷ body) =
      let size = h * 256 + l in
      if ltb size 2 || ltb (length body + 2) size
      then err length_out_of_range
      else visited next marker (drop (size - 2) body) (visit s marker (take (size - 2) body))
  segment next s marker _ = err truncated_length

  -- At the byte after the fill bytes.
  unfoldable pub at_marker : (S → Bytes → Read (S × Bytes)) → S → Bytes → Read (S × Bytes)
  unfolding segment
  at_marker next s [] = ok (s, [])
  at_marker next s (m ∷ rest) =
      if m == marker_eoi
      then ok (s, rest)
      else if is_standalone_marker m || m == marker_soi
      then next s rest
      else segment next s m rest

  -- The loop of walkJPEGSegments on data[i:], with fuel. The answer is what the visits made of the
  -- state, and data[scanStart:].
  unfoldable pub walk_segments : ℕ → S → Bytes → Read (S × Bytes)
  unfolding at_marker skip_fill
  walk_segments zero s data_ = stuck
  walk_segments (suc fuel) s (a ∷ b ∷ rest) =
      if a == 0xFF then at_marker (walk_segments fuel) s (skip_fill (b ∷ rest)) else err malformed
  walk_segments (suc fuel) s _ = ok (s, [])

  -- `walkJPEGSegments`. Every round takes a byte at least.
  unfoldable pub walk_jpeg_segments : S → Bytes → Read (S × Bytes)
  unfolding is_jpeg walk_segments
  walk_jpeg_segments s data_ =
      if is_jpeg data_
      then walk_segments (length data_) s (drop 2 data_)
      else err unsupported_format

-- The bytes of a segment, with a two-byte length.
abbrev pub write_segment : ℕ → Bytes → Bytes
write_segment marker payload =
    let size = length payload + 2 in 0xFF ∷ marker ∷ size / 256 % 256 ∷ size % 256 ∷ payload

-- The visit of dropJPEGMetadataSegments: `out` is the buffer.
abbrev pub copy_segment : Bytes → ℕ → Bytes → Bytes × Bool
copy_segment out marker payload =
    if is_metadata_marker marker then (out, true) else (out ++ write_segment marker payload, true)

abbrev append_scan : Bytes × Bytes → Read Bytes
append_scan (out, scan) = ok (out ++ scan)

-- `dropJPEGMetadataSegments`
unfoldable pub drop_jpeg_metadata_segments : Bytes → Read Bytes
unfolding walk_jpeg_segments
drop_jpeg_metadata_segments data_ =
    walk_jpeg_segments copy_segment (0xFF ∷ marker_soi ∷ []) data_ >>= append_scan
