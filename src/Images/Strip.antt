-- ===== src/Images/Strip.antt =====
-- internal/images/strip.go: an upload is made upright and loses its metadata. The decoders and the
-- encoders of Go's image packages are a parameter.
pub mod Total
pub mod Turned
use inventory.Prelude.{
  ℕ, ◌+◌, ◌-◌, ◌*◌, List, [], ◌∷◌, Bool, true, false, not, ◌&&◌, ◌||◌, ◌==◌, ltb, if◌then◌else◌,
  take, length, Option, none, some,
}
use inventory.Images.Bytes.{
  Bytes, ImageError, unsupported_format, too_large, codec, Read, ok, err, ◌>>=◌, drop, same_bytes,
}
use inventory.Images.Exif.{
  Orientation, orientation_normal, needs_transform, exif_header, orientation_from_exif,
}
use inventory.Images.Transform.{Image, apply_orientation}
use inventory.Images.Jpeg.{is_jpeg, marker_app1, walk_jpeg_segments, drop_jpeg_metadata_segments}
use inventory.Images.Png.{is_png, walk_png_chunks, drop_png_metadata_chunks}

pub data Format : Type 0 where
  jpeg png : Format

-- `Result`, whose field Data is `content` here.
pub record Stripped : Type 0 where
  pub content : Bytes
  pub format : Format
  pub orientation : Orientation
  pub re_encoded : Bool

abbrev pub max_pixels : ℕ
max_pixels = 50000000

-- `DetectFormat`
unfoldable pub detect_format : Bytes → Read Format
unfolding is_jpeg is_png
detect_format file =
    if is_jpeg file then ok jpeg else if is_png file then ok png else err unsupported_format

-- The visit of jpegOrientation: the first EXIF segment counts, and stops the walk.
abbrev pub visit_exif : Orientation → ℕ → Bytes → Orientation × Bool
visit_exif o marker payload =
    if not (marker == marker_app1) || ltb (length payload) 6
    then (o, true)
    else if not (same_bytes (take 6 payload) exif_header)
    then (o, true)
    else (orientation_from_exif (drop 6 payload), false)

abbrev found_orientation : Orientation × Bytes → Read Orientation
found_orientation (o, _) = ok o

-- `jpegOrientation`
unfoldable pub jpeg_orientation : Bytes → Read Orientation
jpeg_orientation file = walk_jpeg_segments visit_exif orientation_normal file >>= found_orientation

-- The data of a chunk, without its header and its check sum; some writers put the EXIF header first.
abbrev without_header : Bytes → Bytes
without_header payload =
    if not (ltb (length payload) 6) && same_bytes (take 6 payload) exif_header
    then drop 6 payload
    else payload

-- The visit of pngOrientation.
abbrev pub visit_png : Orientation → Bytes → Bytes → Orientation
visit_png o kind whole =
    if same_bytes kind (b'e' ∷ b'X' ∷ b'I' ∷ b'f' ∷ [])
    then orientation_from_exif (without_header (take (length whole - 12) (drop 8 whole)))
    else o

-- `pngOrientation`
unfoldable pub png_orientation : Bytes → Read Orientation
png_orientation file = walk_png_chunks visit_png orientation_normal file

-- image.DecodeConfig, and Decode and Encode of image/jpeg and image/png; `none` is an error. A pixel is
-- a color.Color, and `as_rgba` is color.RGBAModel.Convert.
pub record Codec : Type 1 where
  pub Pixel : Type 0
  pub blank : Pixel
  pub as_rgba : Pixel → Pixel
  pub config : Bytes → Option (ℕ × ℕ)
  pub decode : Format → Bytes → Option (Image Pixel)
  pub encode : Format → Image Pixel → Option Bytes

module _ (lib : Codec) where
  open lib use {Pixel, blank, as_rgba, config, decode, encode}

  abbrev pub check_size : ℕ → Option (ℕ × ℕ) → Read (Unit {0})
  check_size most none = err codec
  check_size most (some (w, h)) = if ltb 0 most && ltb most (w * h) then err too_large else ok tt

  -- `CheckDimensions`
  unfoldable pub check_dimensions : Bytes → ℕ → Read (Unit {0})
  check_dimensions file most = check_size most (config file)

  abbrev pub or_codec {ℓ} : {A : Type ℓ} → Option A → Read A
  or_codec none = err codec
  or_codec (some a) = ok a

  -- The branch of a rotation: decode, turn, encode.
  unfoldable pub re_encode : Format → Orientation → Bytes → Read Stripped
  unfolding check_dimensions apply_orientation
  re_encode format o file = check_dimensions file max_pixels >>= λ _.
      or_codec (decode format file) >>= λ src.
      or_codec (encode format (apply_orientation as_rgba blank src o)) >>= λ out.
      ok (record { content = out; format = format; orientation = o; re_encoded = true })

  -- The other branch: what the copy without metadata is.
  abbrev pub copied_as : Format → Orientation → Read Bytes → Read Stripped
  copied_as format o r = r >>= λ out.
      ok (record { content = out; format = format; orientation = o; re_encoded = false })

  -- `stripJPEG`
  unfoldable pub strip_jpeg : Bytes → Read Stripped
  strip_jpeg file = jpeg_orientation file >>= λ o.
      if needs_transform o
      then re_encode jpeg o file
      else copied_as jpeg o (drop_jpeg_metadata_segments file)

  -- `stripPNG`
  unfoldable pub strip_png : Bytes → Read Stripped
  strip_png file = png_orientation file >>= λ o.
      if needs_transform o
      then re_encode png o file
      else copied_as png o (drop_png_metadata_chunks file)

  -- `Strip`
  unfoldable pub strip : Bytes → Read Stripped
  strip file =
      if is_jpeg file
      then strip_jpeg file
      else if is_png file
      then strip_png file
      else err unsupported_format
