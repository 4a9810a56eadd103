-- ===== src/Images/Exif/Bounds.antt =====
-- internal/images/exif.go: the orientation that is read is always one of the eight.
use inventory.Prelude.{
  ℕ, zero, suc, ◌+◌, ◌≤◌, ◌%◌, ltb, ◌==◌, ◌||◌, length, if-keeps, Option, none, some, arith,
}
use inventory.Images.Bytes.{Bytes}
use inventory.Images.Exif.{
  Orientation, ByteOrder, normalize_orientation, entry_orientation, find_orientation, read_ifd,
  byte_order, ordered, orientation_from_exif, uint, slice, min_entries,
}

abbrev IsDefined : Orientation → Type 0
IsDefined o = (1 ≤ o) × (o ≤ 8)

normalize_orientation-IsDefined : (raw : ℕ) → IsDefined (normalize_orientation raw)
unfolding normalize_orientation
normalize_orientation-IsDefined raw = ground arith

normal : IsDefined 1
normal = omega arith

entry_orientation-IsDefined :
    (order : ByteOrder) (entry : Bytes) → IsDefined (entry_orientation order entry)
unfolding entry_orientation
entry_orientation-IsDefined order entry =
    if-keeps IsDefined (uint order (slice 2 2 entry) == 3) _ _
      (normalize_orientation-IsDefined (uint order (slice 8 2 entry)))
      (if-keeps IsDefined (uint order (slice 2 2 entry) == 4) _ _
        (normalize_orientation-IsDefined (uint order (slice 8 4 entry) % 65536)) normal)

find_orientation-IsDefined :
    (n : ℕ) (order : ByteOrder) (payload : Bytes) (start : ℕ)
    → IsDefined (find_orientation n order payload start)
unfolding find_orientation
find_orientation-IsDefined zero order payload start = normal
find_orientation-IsDefined (suc n) order payload start =
    if-keeps IsDefined (ltb (length payload) (start + 12)) _ _ normal (
      if-keeps IsDefined (uint order (slice 0 2 (slice start 12 payload)) == 0x0112) _ _
        (entry_orientation-IsDefined order (slice start 12 payload))
        (find_orientation-IsDefined n order payload (start + 12)))

ordered-IsDefined : (payload : Bytes) (o : Option ByteOrder) → IsDefined (ordered payload o)
unfolding read_ifd
ordered-IsDefined payload none = normal
ordered-IsDefined payload (some order) =
    let offset = uint order (slice 4 4 payload) in
    if-keeps IsDefined (uint order (slice 2 2 payload) == 0x002A) _ _
      (if-keeps IsDefined (ltb (length payload) offset || ltb (length payload) (offset + 2)) _ _
        normal
        (find_orientation-IsDefined (min_entries (uint order (slice offset 2 payload))) order
          payload (offset + 2)))
      normal

-- Whatever the payload, the orientation that is read is one of the eight that are defined.
orientation_from_exif-IsDefined : (payload : Bytes) → IsDefined (orientation_from_exif payload)
unfolding orientation_from_exif
orientation_from_exif-IsDefined payload =
    if-keeps IsDefined (ltb (length payload) 8) _ _ normal
      (ordered-IsDefined payload (byte_order payload))
