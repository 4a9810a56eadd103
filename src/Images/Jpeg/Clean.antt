-- ===== src/Images/Jpeg/Clean.antt =====
-- internal/images/strip.go: what the copy of a JPEG file without its metadata holds.
use mathlib.Core.List.{append_assoc, append-nil}
use inventory.Prelude.{
  ℕ, zero, suc, ◌+◌, ◌-◌, ◌*◌, ◌/◌, ◌%◌, ◌<◌, ◌≡◌, ◌≢◌, refl, sym, ap, ◌∙◌, List, [], ◌∷◌, ◌++◌,
  Bool, true, false, not, ◌||◌, ◌⊎◌, ◌==◌, ltb, if◌then◌else◌, length, length-append, inl, inr,
  Bool-cases, All, select, arith,
}
use inventory.Images.Bytes.{
  Bytes, unsupported_format, Read, ok, err, drop, take-append, drop-append,
}
use inventory.Images.Jpeg.{
  marker_soi, marker_eoi, marker_sos, is_jpeg, is_metadata_marker, skip_fill, write_segment,
  copy_segment, walk_jpeg_segments, drop_jpeg_metadata_segments,
}
use inventory.Images.Jpeg.Segments.{
  Segment, prepend, scan_segment, scan_marker, scan, fold, walk_segments-scan,
}
use inventory.Images.Jpeg.Shape.{IsByte, IsSegment, AreSegments, scan-AreSegments}

-- The segments of a file up to its scan, and the rest.
unfoldable pub segments : Bytes → Read (List Segment × Bytes)
unfolding scan is_jpeg
segments file = if is_jpeg file then scan (length file) (drop 2 file) else err unsupported_format

abbrev pub is_kept : Segment → Bool
is_kept (m, _) = not (is_metadata_marker m)

-- The segments that are no metadata, in order.
abbrev pub kept : List Segment → List Segment
kept = select is_kept

unfoldable pub write_all : List Segment → Bytes
write_all [] = []
write_all ((m, p) ∷ gs) = write_segment m p ++ write_all gs

abbrev copied : Bytes → ℕ → Bytes → Bytes
copied out m p = if is_metadata_marker m then out else out ++ write_segment m p

copy-goes_on : (out : Bytes) (m : ℕ) (p : Bytes) → copy_segment out m p ≡ (copied out m p, true)
copy-goes_on out m p = elim (Bool-cases (is_metadata_marker m)) [
  | inl meta ↦ rw meta refl
  | inr other ↦ rw other refl
]

fold-copied :
    (out : Bytes) (gs : List Segment)
    → fold copy_segment copied copy-goes_on out gs ≡ out ++ write_all (kept gs)
unfolding write_all
fold-copied out [] = sym (append-nil out)
fold-copied out ((m, p) ∷ gs) = elim (Bool-cases (is_metadata_marker m)) [
  | inl meta ↦ rw meta (fold-copied out gs)
  | inr other ↦ rw other (
      fold-copied (out ++ write_segment m p) gs
      ∙ append_assoc out (write_segment m p) (write_all (kept gs)))
]

-- The last segment is the header of the scan.
abbrev pub EndsInScan : List Segment → Type 0
EndsInScan [] = ⊥
EndsInScan ((m, _) ∷ []) = (m == marker_sos) ≡ true
EndsInScan (_ ∷ g ∷ gs) = EndsInScan (g ∷ gs)

EndsInScan-cons : (g : Segment) (gs : List Segment) → EndsInScan gs → EndsInScan (g ∷ gs)
EndsInScan-cons g [] h = absurd h
EndsInScan-cons g (x ∷ gs) h = h

scan_is_kept : (m : ℕ) → (m == marker_sos) ≡ true → not (is_metadata_marker m) ≡ true
scan_is_kept m h = ground arith

kept-EndsInScan : (gs : List Segment) → EndsInScan gs → EndsInScan (kept gs)
kept-EndsInScan [] h = h
kept-EndsInScan ((m, p) ∷ []) h = rw (scan_is_kept m h) h
kept-EndsInScan ((m, p) ∷ g ∷ gs) h = elim (Bool-cases (not (is_metadata_marker m))) [
  | inl yes_ ↦ rw yes_ (EndsInScan-cons (m, p) (kept (g ∷ gs)) (kept-EndsInScan (g ∷ gs) h))
  | inr no_ ↦ rw no_ (kept-EndsInScan (g ∷ gs) h)
]

kept-AreSegments : (gs : List Segment) → AreSegments gs → AreSegments (kept gs)
kept-AreSegments [] h = tt
kept-AreSegments ((m, p) ∷ gs) h = elim (Bool-cases (not (is_metadata_marker m))) [
  | inl yes_ ↦ rw yes_ (h.0, (λ e. ap kept (h.1 e)), kept-AreSegments gs h.2)
  | inr no_ ↦ rw no_ (kept-AreSegments gs h.2)
]

two_bytes : (n : ℕ) → n < 65536 → n / 256 % 256 * 256 + n % 256 ≡ n
two_bytes n h = omega arith

minus_two : (n : ℕ) → n + 2 - 2 ≡ n
minus_two n = omega arith

-- Reading a segment that was written.
scan_segment-write :
    (next : Bytes → Read (List Segment × Bytes)) (m : ℕ) (p rest : Bytes)
    → length p + 2 < 65536
    → scan_segment next m ((length p + 2) / 256 % 256 ∷ (length p + 2) % 256 ∷ p ++ rest)
      ≡ (if m == marker_sos then ok ((m, p) ∷ [], rest) else prepend (m, p) (next rest))
unfolding scan_segment
scan_segment-write next m p rest small =
    let all : length (p ++ rest) ≡ length p + length rest = length-append p rest in
    let fits : (ltb (length p + 2) 2 || ltb (length (p ++ rest) + 2) (length p + 2)) ≡ false =
      ground (arith, all) in
    rw
      (
        two_bytes (length p + 2) small,
        fits,
        minus_two (length p),
        take-append p rest,
        drop-append p rest,
      )
      refl

scan-write_segment :
    (fuel m : ℕ) (p rest : Bytes)
    → IsSegment (m, p)
    → scan (suc fuel) (write_segment m p ++ rest)
      ≡ (if m == marker_sos then ok ((m, p) ∷ [], rest) else prepend (m, p) (scan fuel rest))
unfolding scan scan_marker skip_fill
scan-write_segment fuel m p rest (f, e, s, small) =
    rw (f, e, s) (scan_segment-write (scan fuel) m p rest small)

-- Segments that were written are read back, up to the scan or to the end of the file.
scan-write_all :
    (gs : List Segment) (rest : Bytes) (fuel : ℕ)
    → AreSegments gs
    → EndsInScan gs ⊎ (rest ≡ [])
    → length (write_all gs ++ rest) < fuel
    → scan fuel (write_all gs ++ rest) ≡ ok (gs, rest)
unfolding write_all
scan-write_all gs rest zero h e f = absurd (omega arith)
scan-write_all [] rest (suc fuel) h (inl e) f = absurd e
scan-write_all [] rest (suc fuel) h (inr e) f = rw e (unfold scan in refl)
scan-write_all ((m, p) ∷ gs) rest (suc fuel) (g, last, gs_ok) e f =
    let fewer : length (write_all gs ++ rest) < fuel = omega (
      arith,
      length-append (p ++ write_all gs) rest,
      length-append p (write_all gs),
      length-append (write_all gs) rest,
    ) in
    ap (scan (suc fuel)) (append_assoc (write_segment m p) (write_all gs) rest)
    ∙ scan-write_segment fuel m p (write_all gs ++ rest) g
    ∙ elim (Bool-cases (m == marker_sos)) [
      | inl sos ↦ rw (sos, last sos) refl
      | inr other ↦ rw (other, scan-write_all gs rest fuel gs_ok (later gs e other) fewer) refl
    ]
  where
    later :
        (gs : List Segment)
        → EndsInScan ((m, p) ∷ gs) ⊎ (rest ≡ [])
        → (m == marker_sos) ≡ false
        → EndsInScan gs ⊎ (rest ≡ [])
    later gs (inr e') o = inr e'
    later [] (inl e') o = absurd (cc)
    later (g' ∷ gs') (inl e') o = inl e'

-- A marker of image data: neither APP0 to APP15 nor COM.
abbrev pub IsImageData : Segment → Type 0
IsImageData (m, _) = (m < 0xE0 ⊎ 0xEF < m) × (m ≢ 0xFE)

image_marker : (m : ℕ) → is_metadata_marker m ≡ false → (m < 0xE0 ⊎ 0xEF < m) × (m ≢ 0xFE)
image_marker m h = elim (Bool-cases (ltb m 0xE0)) [
  | inl low ↦ (inl (ground arith), λ e. ground arith)
  | inr high ↦ (inr (ground arith), λ e. ground arith)
]

kept-IsImageData : (gs : List Segment) → All IsImageData (kept gs)
kept-IsImageData [] = tt
kept-IsImageData ((m, p) ∷ gs) = elim (Bool-cases (is_metadata_marker m)) [
  | inl meta ↦ rw meta (kept-IsImageData gs)
  | inr other ↦ rw other (image_marker m other, kept-IsImageData gs)
]

pub scanned :
    (file : Bytes) {r : List Segment × Bytes}
    → segments file ≡ ok r
    → (is_jpeg file ≡ true) × (scan (length file) (drop 2 file) ≡ ok r)
unfolding segments
scanned file h = elim (Bool-cases (is_jpeg file)) [
  | inl jpeg ↦ (jpeg, rw jpeg at h)
  | inr other ↦ absurd (ground arith)
]

copied_file :
    (file : Bytes) {gs : List Segment} {rest : Bytes}
    → segments file ≡ ok (gs, rest)
    → drop_jpeg_metadata_segments file ≡ ok (0xFF ∷ marker_soi ∷ write_all (kept gs) ++ rest)
unfolding drop_jpeg_metadata_segments walk_jpeg_segments
copied_file file {gs} {rest} h =
    let (jpeg, found) = scanned file h in
    rw (jpeg, walk_segments-scan copy_segment copied copy-goes_on, found, fold-copied) refl

All-drop_two : (file : Bytes) → All IsByte file → All IsByte (drop 2 file)
All-drop_two [] h = h
All-drop_two (a ∷ []) h = tt
All-drop_two (a ∷ b ∷ rest) h = h.1.1

-- Where a file of bytes reads as JPEG segments that end in a scan or with the file, the copy succeeds,
-- and reads as exactly the segments that are no metadata, in order and with what followed them: no
-- APP0 to APP15 and no comment is left.
pub drop_jpeg_metadata_segments-segments :
    (file : Bytes) {gs : List Segment} {rest : Bytes}
    → All IsByte file
    → segments file ≡ ok (gs, rest)
    → EndsInScan gs ⊎ (rest ≡ [])
    → (out : Bytes) × (drop_jpeg_metadata_segments file ≡ ok out)
      × (segments out ≡ ok (kept gs, rest))
      × All IsImageData (kept gs)
drop_jpeg_metadata_segments-segments file {gs} {rest} bytes h e = (
  0xFF ∷ marker_soi ∷ write_all (kept gs) ++ rest,
  copied_file file h,
  unfold segments is_jpeg in
      scan-write_all (kept gs) rest (suc (suc (length (write_all (kept gs) ++ rest))))
        (kept-AreSegments gs (scan-AreSegments _ _ (All-drop_two file bytes) (scanned file h).1))
        (ends e) (omega arith),
  kept-IsImageData gs,
)
  where
    ends : EndsInScan gs ⊎ (rest ≡ []) → EndsInScan (kept gs) ⊎ (rest ≡ [])
    ends (inl s) = inl (kept-EndsInScan gs s)
    ends (inr s) = inr s

-- Whatever follows an end marker that comes before any scan is copied, a metadata segment too, while
-- the end marker itself is not.
drop_jpeg_metadata_segments-after_eoi :
    (rest : Bytes)
    → drop_jpeg_metadata_segments (0xFF ∷ marker_soi ∷ 0xFF ∷ marker_eoi ∷ rest)
      ≡ ok (0xFF ∷ marker_soi ∷ rest)
unfolding drop_jpeg_metadata_segments
drop_jpeg_metadata_segments-after_eoi rest = refl
