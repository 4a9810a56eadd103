-- ===== src/Tests/Images.antt =====
-- Runs of the image files: an upright photograph, one that was taken sideways, and a drawing.
use inventory.Prelude.{
  ℕ, ◌≡◌, ◌<◌, ◌+◌, ◌*◌, refl, List, [], ◌∷◌, ◌++◌, true, false, some, inl, arith,
}
use inventory.Images.Bytes.{Bytes, ok, err, malformed, unsupported_format, Ended, ◌>>=◌}
use inventory.Images.Exif.{needs_transform, orientation_from_exif}
use inventory.Images.Transform.{Image, map_pixel, apply_orientation}
use inventory.Images.Jpeg.{is_jpeg, drop_jpeg_metadata_segments, walk_jpeg_segments}
use inventory.Images.Jpeg.Clean.{segments, IsImageData}
use inventory.Images.Jpeg.Segments.{Segment}
use inventory.Images.Png.{is_png, png_signature, walk_png_chunks}
use inventory.Images.Png.Chunks.{Chunk, chunks}
use inventory.Images.Png.Clean.{write_all, IsImageChunk}
use inventory.Images.Strip.{
  Codec, jpeg, Stripped, jpeg_orientation, png_orientation, or_codec, strip, re_encode, strip_jpeg,
}
use inventory.Images.Strip.Total.{strip-ends, strip-jpeg, strip-png}
use inventory.Images.Strip.Turned.{strip-turned}
use inventory.Prelude.{All}

-- A file with an annotation, a table and a scan.
abbrev photo : Bytes
photo =
    0xFF ∷ 0xD8 ∷ 0xFF ∷ 0xE1 ∷ 0 ∷ 4 ∷ 104 ∷ 105 ∷ 0xFF ∷ 0xDB ∷ 0 ∷ 3 ∷ 7 ∷ 0xFF ∷ 0xDA ∷ 0 ∷ 2
    ∷ 1 ∷ 2 ∷ 0xFF ∷ 0xD9 ∷ []

abbrev photo_segments : List Segment
photo_segments = (0xE1, 104 ∷ 105 ∷ []) ∷ (0xDB, 7 ∷ []) ∷ (0xDA, []) ∷ []

abbrev photo_scan : Bytes
photo_scan = 1 ∷ 2 ∷ 0xFF ∷ 0xD9 ∷ []

-- The EXIF segment of this one says: rotate a quarter clockwise.
abbrev sideways : Bytes
sideways =
    0xFF ∷ 0xD8 ∷ 0xFF ∷ 0xE1 ∷ 0 ∷ 34 ∷ 69 ∷ 120 ∷ 105 ∷ 102 ∷ 0 ∷ 0 ∷ 77 ∷ 77 ∷ 0 ∷ 42 ∷ 0 ∷ 0 ∷ 0
    ∷ 8 ∷ 0 ∷ 1 ∷ 1 ∷ 18 ∷ 0 ∷ 3 ∷ 0 ∷ 0 ∷ 0 ∷ 1 ∷ 0 ∷ 6 ∷ 0 ∷ 0 ∷ 0 ∷ 0 ∷ 0 ∷ 0 ∷ 0xFF ∷ 0xDA ∷ 0
    ∷ 2 ∷ 1 ∷ 2 ∷ []

-- A drawing with a text chunk, and the end chunk.
abbrev drawing : Bytes
drawing =
    png_signature
    ++ 0 ∷ 0 ∷ 0 ∷ 1 ∷ 116 ∷ 69 ∷ 88 ∷ 116 ∷ 65 ∷ 9 ∷ 9 ∷ 9 ∷ 9 ∷ 0 ∷ 0 ∷ 0 ∷ 0 ∷ 73 ∷ 69 ∷ 78 ∷ 68
      ∷ 8 ∷ 8 ∷ 8 ∷ 8 ∷ 5 ∷ []

abbrev text_chunk : Chunk
text_chunk = record {
  a = 0;
  b = 0;
  c = 0;
  d = 1;
  t = 116;
  u = 69;
  v = 88;
  w = 116;
  body = 65 ∷ 9 ∷ 9 ∷ 9 ∷ 9 ∷ [];
}

abbrev end_chunk : Chunk
end_chunk = record {
  a = 0;
  b = 0;
  c = 0;
  d = 0;
  t = 73;
  u = 69;
  v = 78;
  w = 68;
  body = 8 ∷ 8 ∷ 8 ∷ 8 ∷ [];
}

abbrev picture : Image ℕ
picture = record { width = 2; height = 3; at = λ x y. x + 2 * y }

-- A library that reads every file as that picture, counts ten up from a grey to RGBA, and writes the
-- bounds and a corner.
abbrev library : Codec
library = record {
  Pixel = ℕ;
  blank = 0;
  as_rgba = λ p. 10 + p;
  config = λ file. some (2, 3);
  decode = λ format file. some picture;
  encode = λ format image. some (image.width ∷ image.height ∷ image.at 0 0 ∷ []);
}

sideways_is_turned :
    strip library sideways
    ≡ ok (record { content = 3 ∷ 2 ∷ 14 ∷ []; format = jpeg; orientation = 6; re_encoded = true })
unfolding strip strip_jpeg jpeg_orientation walk_jpeg_segments orientation_from_exif needs_transform
    re_encode map_pixel
sideways_is_turned = refl

photo_is_copied :
    strip library photo
    ≡ ok (record {
      content = 0xFF ∷ 0xD8 ∷ 0xFF ∷ 0xDB ∷ 0 ∷ 3 ∷ 7 ∷ 0xFF ∷ 0xDA ∷ 0 ∷ 2 ∷ photo_scan;
      format = jpeg;
      orientation = 1;
      re_encoded = false;
    })
unfolding strip strip_jpeg jpeg_orientation drop_jpeg_metadata_segments orientation_from_exif
    needs_transform
photo_is_copied = refl

-- A picture that is not one.
text_is_refused : strip library (104 ∷ 105 ∷ []) ≡ err unsupported_format
unfolding strip is_jpeg is_png
text_is_refused = refl

torn_is_refused : strip library (0xFF ∷ 0xD8 ∷ 1 ∷ 2 ∷ []) ≡ err malformed
unfolding strip strip_jpeg jpeg_orientation walk_jpeg_segments
torn_is_refused = refl

-- Where a segment with a position follows an end marker, it stays.
after_end_stays :
    drop_jpeg_metadata_segments (0xFF ∷ 0xD8 ∷ 0xFF ∷ 0xD9 ∷ 0xFF ∷ 0xE1 ∷ 0 ∷ 3 ∷ 5 ∷ [])
    ≡ ok (0xFF ∷ 0xD8 ∷ 0xFF ∷ 0xE1 ∷ 0 ∷ 3 ∷ 5 ∷ [])
unfolding drop_jpeg_metadata_segments
after_end_stays = refl

strip-ends_example : Ended (strip library sideways)
strip-ends_example = strip-ends library sideways

photo_bytes : All (λ b. b < 256) photo
photo_bytes = ground arith

strip-jpeg_example :
    (r : Stripped) × (strip library photo ≡ ok r)
    × (r.re_encoded ≡ false)
    × (segments r.content ≡ ok ((0xDB, 7 ∷ []) ∷ (0xDA, []) ∷ [], photo_scan))
    × All IsImageData ((0xDB, 7 ∷ []) ∷ (0xDA, []) ∷ [])
unfolding segments jpeg_orientation walk_jpeg_segments needs_transform
strip-jpeg_example =
    strip-jpeg library photo {o = 1} {gs = photo_segments} {rest = photo_scan} photo_bytes refl refl
      refl (inl refl)

strip-png_example :
    (r : Stripped) × (strip library drawing ≡ ok r)
    × (r.re_encoded ≡ false)
    × (r.content ≡ png_signature ++ write_all (end_chunk ∷ []))
    × (chunks r.content ≡ ok (end_chunk ∷ []))
    × All IsImageChunk (end_chunk ∷ [])
unfolding chunks png_orientation walk_png_chunks needs_transform is_jpeg
strip-png_example =
    strip-png library drawing {o = 1} {ks = text_chunk ∷ end_chunk ∷ []} refl refl refl refl

strip-turned_example :
    let up = apply_orientation library.as_rgba 0 picture 6 in
    (strip library sideways ≡ (
      or_codec library (library.encode jpeg up) >>= λ out.
      ok (record { content = out; format = jpeg; orientation = 6; re_encoded = true })))
    × (up.width ≡ 3)
    × (up.height ≡ 2)
    × (up.at 2 1 ≡ 11)
unfolding jpeg_orientation walk_jpeg_segments orientation_from_exif needs_transform is_jpeg
    apply_orientation
strip-turned_example =
    strip-turned library sideways {o = 6} {w = 2} {h = 3} {src = picture} 2 1 refl refl refl refl
      (omega arith) refl (omega arith) (omega arith)
