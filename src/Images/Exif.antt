-- ===== src/Images/Exif.antt =====
-- internal/images/exif.go: the orientation tag of a bare EXIF payload.
pub mod Bounds
use inventory.Prelude.{
  ℕ, zero, suc, ◌+◌, ◌-◌, ◌*◌, ◌%◌, List, [], ◌∷◌, Bool, true, false, ◌&&◌, ◌||◌, ◌==◌, ltb, leb,
  if◌then◌else◌, take, length, Option, none, some,
}
use inventory.Images.Bytes.{Bytes, drop, same_bytes}

-- A uint16; the eight defined values are 1 to 8.
abbrev pub Orientation : Type 0
Orientation = ℕ

abbrev pub orientation_normal : Orientation
orientation_normal = 1

-- `NeedsTransform`; 9 is orientationFirstInvalid.
unfoldable pub needs_transform : Orientation → Bool
needs_transform o = ltb orientation_normal o && ltb o 9

abbrev pub exif_header : Bytes
exif_header = b'E' ∷ b'x' ∷ b'i' ∷ b'f' ∷ 0 ∷ 0 ∷ []

-- Anything outside 1 to 8 means no transform.
unfoldable pub normalize_orientation : ℕ → Orientation
normalize_orientation raw =
    if ltb raw orientation_normal || leb 9 raw then orientation_normal else raw

pub data ByteOrder : Type 0 where
  little_endian big_endian : ByteOrder

abbrev big : ℕ → Bytes → ℕ
big acc [] = acc
big acc (b ∷ bs) = big (acc * 256 + b) bs

abbrev little : Bytes → ℕ
little [] = 0
little (b ∷ bs) = b + 256 * little bs

-- The number that a slice of bytes spells.
unfoldable pub uint : ByteOrder → Bytes → ℕ
uint little_endian bs = little bs
uint big_endian bs = big 0 bs

-- data[from:from + n]
abbrev pub slice : ℕ → ℕ → Bytes → Bytes
slice from n bs = take n (drop from bs)

abbrev pub byte_order : Bytes → Option ByteOrder
byte_order p =
    if same_bytes (take 2 p) (b'I' ∷ b'I' ∷ [])
    then some little_endian
    else if same_bytes (take 2 p) (b'M' ∷ b'M' ∷ [])
    then some big_endian
    else none

-- The value of an orientation entry: a SHORT, or the low half of a LONG.
unfoldable pub entry_orientation : ByteOrder → Bytes → Orientation
unfolding uint normalize_orientation
entry_orientation order entry =
    let type_ = uint order (slice 2 2 entry) in
    if type_ == 3
    then normalize_orientation (uint order (slice 8 2 entry))
    else if type_ == 4
    then normalize_orientation (uint order (slice 8 4 entry) % 65536)
    else orientation_normal

-- The loop over the entries that are left, from the first of them on.
unfoldable pub find_orientation : ℕ → ByteOrder → Bytes → ℕ → Orientation
unfolding entry_orientation
find_orientation zero order payload start = orientation_normal
find_orientation (suc n) order payload start =
    let rest = find_orientation n order payload (start + 12) in
    let entry = slice start 12 payload in
    if ltb (length payload) (start + 12)
    then orientation_normal
    else if uint order (slice 0 2 entry) == 0x0112
    then entry_orientation order entry
    else rest

-- At most maxIFDEntries entries are read.
abbrev pub min_entries : ℕ → ℕ
min_entries n = if ltb 512 n then 512 else n

unfoldable pub read_ifd : ByteOrder → Bytes → Orientation
unfolding find_orientation
read_ifd order payload =
    let offset = uint order (slice 4 4 payload) in
    if uint order (slice 2 2 payload) == 0x002A
    then (if ltb (length payload) offset || ltb (length payload) (offset + 2)
        then orientation_normal
        else find_orientation (min_entries (uint order (slice offset 2 payload))) order payload
            (offset + 2))
    else orientation_normal

abbrev pub ordered : Bytes → Option ByteOrder → Orientation
ordered payload none = orientation_normal
ordered payload (some order) = read_ifd order payload

-- `orientationFromEXIF`
unfoldable pub orientation_from_exif : Bytes → Orientation
unfolding read_ifd
orientation_from_exif payload =
    if ltb (length payload) 8 then orientation_normal else ordered payload (byte_order payload)
