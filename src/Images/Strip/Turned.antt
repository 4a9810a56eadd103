-- ===== src/Images/Strip/Turned.antt =====
-- internal/images/strip.go: a file that has to be rotated is decoded, turned and encoded.
use inventory.Prelude.{
  if◌then◌else◌, ℕ, ◌≡◌, refl, ◌≤◌, ◌<◌, ◌*◌, true, false, ◌&&◌, ltb, some, arith,
}
use inventory.Images.Bytes.{Bytes, ok, err, too_large, ◌>>=◌}
use inventory.Images.Exif.{Orientation, needs_transform}
use inventory.Images.Jpeg.{is_jpeg}
use inventory.Images.Transform.{Image, apply_orientation}
use inventory.Images.Transform.Upright.{
  is_upright, sides, stored_column, stored_row, apply_orientation-seen,
}
use inventory.Images.Strip.{
  Codec, max_pixels, jpeg, jpeg_orientation, check_dimensions, or_codec, re_encode, strip_jpeg,
  strip,
}

small : (most n : ℕ) → n ≤ most → (ltb 0 most && ltb most n) ≡ false
small most n h = ground arith

large : (most n : ℕ) → 0 < most → most < n → (ltb 0 most && ltb most n) ≡ true
large most n p h = ground arith

module _ (lib : Codec) where
  -- A JPEG file that needs a rotation, has at most 50,000,000 pixels by its header and decodes to an
  -- image is answered with what the encoder makes of the turned image, marked as encoded again, or with
  -- the encoder's error. The turned image has exchanged bounds where the EXIF standard lets the row 0
  -- lie at the left or at the right, and at each of its places stands, converted to RGBA, the decoded
  -- pixel that the standard's table of orientations puts there.
  pub strip-turned :
      (file : Bytes) {o : Orientation} {w h : ℕ} {src : Image lib.Pixel} (x y : ℕ)
      → is_jpeg file ≡ true
      → jpeg_orientation file ≡ ok o
      → needs_transform o ≡ true
      → lib.config file ≡ some (w, h)
      → w * h ≤ max_pixels
      → lib.decode jpeg file ≡ some src
      → x < (if is_upright (sides o).0 then src.height else src.width)
      → y < (if is_upright (sides o).0 then src.width else src.height)
      → let up = apply_orientation lib.as_rgba lib.blank src o in
        (strip lib file ≡ (
          or_codec lib (lib.encode jpeg up) >>= λ out.
          ok (record { content = out; format = jpeg; orientation = o; re_encoded = true })))
        × (up.width ≡ (if is_upright (sides o).0 then src.height else src.width))
        × (up.height ≡ (if is_upright (sides o).0 then src.width else src.height))
        × (up.at x y
            ≡ lib.as_rgba (
                src.at
                  (stored_column o up.width up.height x y)
                  (stored_row o up.width up.height x y)))
  unfolding strip strip_jpeg re_encode check_dimensions
  strip-turned file {o} {w} {h} {src} x y is_one read turned sized fits decoded in_x in_y =
      let (wide, high, seen) =
        apply_orientation-seen lib.as_rgba lib.blank src o x y turned in_x in_y in
      (
        rw (is_one, read, turned, sized, small max_pixels (w * h) fits, decoded) refl,
        wide,
        high,
        seen,
      )

  -- A JPEG file that needs a rotation and has more than 50,000,000 pixels by its header is refused.
  strip-too_large :
      (file : Bytes) {o : Orientation} {w h : ℕ}
      → is_jpeg file ≡ true
      → jpeg_orientation file ≡ ok o
      → needs_transform o ≡ true
      → lib.config file ≡ some (w, h)
      → max_pixels < w * h
      → strip lib file ≡ err too_large
  unfolding strip strip_jpeg re_encode check_dimensions
  strip-too_large file {o} {w} {h} is_one read turned sized over =
      rw (is_one, read, turned, sized, large max_pixels (w * h) (omega arith) over) refl
