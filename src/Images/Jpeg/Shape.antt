-- ===== src/Images/Jpeg/Shape.antt =====
-- What walkJPEGSegments finds in a file of bytes, and that it ends.
use inventory.Prelude.{
  ℕ, zero, suc, ◌+◌, ◌-◌, ◌*◌, ◌≤◌, ◌<◌, ◌≡◌, refl, List, [], ◌∷◌, Bool, true, false, ◌&&◌, ◌||◌,
  ◌==◌, ltb, take, length, inl, inr, Bool-cases, All, if-keeps, arith,
}
use inventory.Images.Bytes.{Bytes, Ended, Read, ok, err, stuck, drop, length-drop, length-take}
use inventory.Images.Jpeg.{
  marker_soi, marker_eoi, marker_sos, is_standalone_marker, skip_fill, visited, segment, at_marker,
  walk_segments, is_jpeg, walk_jpeg_segments,
}
use inventory.Images.Jpeg.Segments.{Segment, prepend, scan_segment, scan_marker, scan}

length-skip_fill : (bs : Bytes) → length (skip_fill bs) ≤ length bs
unfolding skip_fill
length-skip_fill [] = omega arith
length-skip_fill (b ∷ bs) = ground (arith, length-skip_fill bs)

module _ {S : Type 0} (visit : S → ℕ → Bytes → S × Bool) where
  module _ (next : S → Bytes → Read (S × Bytes)) (n : ℕ)
      (ends : (s : S) (bs : Bytes) → length bs < n → Ended (next s bs)) where
    visited-ends :
        (m : ℕ) (rest : Bytes) (v : S × Bool)
        → length rest < n
        → Ended (visited visit next m rest v)
    visited-ends m rest (s, false) h = tt
    visited-ends m rest (s, true) h = elim (Bool-cases (m == marker_sos)) [
      | inl scan_ ↦ rw scan_ tt
      | inr more ↦ rw more (ends s rest h)
    ]

    segment-ends : (s : S) (m : ℕ) (bs : Bytes) → length bs < n → Ended (segment visit next s m bs)
    unfolding segment
    segment-ends s m [] h = tt
    segment-ends s m (a ∷ []) h = tt
    segment-ends s m (a ∷ b ∷ body) h =
        elim (Bool-cases (ltb (a * 256 + b) 2 || ltb (length body + 2) (a * 256 + b))) [
          | inl bad ↦ rw bad tt
          | inr good ↦
              rw good (visited-ends m _ _ (omega (arith, length-drop (a * 256 + b - 2) body)))
        ]

    at_marker-ends : (s : S) (bs : Bytes) → length bs ≤ n → Ended (at_marker visit next s bs)
    unfolding at_marker
    at_marker-ends s [] h = tt
    at_marker-ends s (m ∷ rest) h = elim (Bool-cases (m == marker_eoi)) [
      | inl end ↦ rw end tt
      | inr inside ↦ rw inside (elim (Bool-cases (is_standalone_marker m || m == marker_soi)) [
        | inl bare ↦ rw bare (ends s rest (omega arith))
        | inr sized ↦ rw sized (segment-ends s m rest (omega arith))
      ])
    ]

  -- More fuel than bytes is enough, whatever the visits do.
  walk_segments-ends :
      (fuel : ℕ) (s : S) (bs : Bytes) → length bs < fuel → Ended (walk_segments visit fuel s bs)
  unfolding walk_segments
  walk_segments-ends zero s bs h = absurd (omega arith)
  walk_segments-ends (suc fuel) s [] h = tt
  walk_segments-ends (suc fuel) s (a ∷ []) h = tt
  walk_segments-ends (suc fuel) s (a ∷ b ∷ rest) h = elim (Bool-cases (a == 0xFF)) [
    | inl marked ↦ rw marked (
        at_marker-ends (walk_segments visit fuel) fuel (λ s' bs k. walk_segments-ends fuel s' bs k)
          s (skip_fill (b ∷ rest)) (omega (arith, length-skip_fill (b ∷ rest))))
    | inr bad ↦ rw bad tt
  ]

-- `walkJPEGSegments` with any visits.
pub walk_jpeg_segments-ends :
    {S : Type 0} (visit : S → ℕ → Bytes → S × Bool) (s : S) (file : Bytes)
    → Ended (walk_jpeg_segments visit s file)
unfolding walk_jpeg_segments is_jpeg
walk_jpeg_segments-ends visit s [] = tt
walk_jpeg_segments-ends visit s (a ∷ []) = tt
walk_jpeg_segments-ends visit s (a ∷ b ∷ rest) = elim (Bool-cases (a == 0xFF && b == marker_soi)) [
  | inl jpeg ↦ rw jpeg (walk_segments-ends visit (suc (suc (length rest))) s rest (omega arith))
  | inr other ↦ rw other tt
]

abbrev pub IsByte : ℕ → Type 0
IsByte b = b < 256

-- A segment that the file can hold.
abbrev pub IsSegment : Segment → Type 0
IsSegment (m, p) =
    ((m == 0xFF) ≡ false)
    × ((m == marker_eoi) ≡ false)
    × ((is_standalone_marker m || m == marker_soi) ≡ false)
    × (length p + 2 < 65536)

-- Nothing follows the header of the scan.
abbrev IsLast : Segment → List Segment → Type 0
IsLast (m, _) gs = (m == marker_sos) ≡ true → gs ≡ []

abbrev pub AreSegments : List Segment → Type 0
AreSegments [] = Unit
AreSegments (g ∷ gs) = IsSegment g × IsLast g gs × AreSegments gs

abbrev Found : Read (List Segment × Bytes) → Type 0
Found (ok (gs, _)) = AreSegments gs
Found (err e) = Unit
Found stuck = Unit

contrary : {b : Bool} → b ≡ false → b ≡ true → ⊥
contrary e e' = cc

prepend-Found :
    (g : Segment) (r : Read (List Segment × Bytes))
    → IsSegment g
    → (g.0 == marker_sos) ≡ false
    → Found r
    → Found (prepend g r)
prepend-Found (m, p) (ok (gs, rest)) h e k = (h, λ e'. absurd (contrary e e'), k)
prepend-Found g (err e') h e k = tt
prepend-Found g stuck h e k = tt

All-drop : (n : ℕ) (bs : Bytes) → All IsByte bs → All IsByte (drop n bs)
All-drop zero bs h = h
All-drop (suc n) [] h = h
All-drop (suc n) (b ∷ bs) h = All-drop n bs h.1

All-skip_fill : (bs : Bytes) → All IsByte bs → All IsByte (skip_fill bs)
unfolding skip_fill
All-skip_fill [] h = tt
All-skip_fill (b ∷ bs) h = if-keeps (All IsByte) (b == 0xFF) _ _ (All-skip_fill bs h.1) h

-- No fill byte is left in front.
abbrev IsTrimmed : Bytes → Type 0
IsTrimmed [] = Unit
IsTrimmed (m ∷ _) = (m == 0xFF) ≡ false

skip_fill-IsTrimmed : (bs : Bytes) → IsTrimmed (skip_fill bs)
unfolding skip_fill
skip_fill-IsTrimmed [] = tt
skip_fill-IsTrimmed (b ∷ bs) = elim (Bool-cases (b == 0xFF)) [
  | inl fill ↦ rw fill (skip_fill-IsTrimmed bs)
  | inr other ↦ rw other other
]

module _ (next : Bytes → Read (List Segment × Bytes))
    (finds : (bs : Bytes) → All IsByte bs → Found (next bs)) where
  scan_segment-Found :
      (m : ℕ) (bs : Bytes)
      → (m == 0xFF) ≡ false
      → (m == marker_eoi) ≡ false
      → (is_standalone_marker m || m == marker_soi) ≡ false
      → All IsByte bs
      → Found (scan_segment next m bs)
  unfolding scan_segment
  scan_segment-Found m [] f e s h = tt
  scan_segment-Found m (a ∷ []) f e s h = tt
  scan_segment-Found m (a ∷ b ∷ body) f e s h =
      elim (Bool-cases (ltb (a * 256 + b) 2 || ltb (length body + 2) (a * 256 + b))) [
        | inl bad ↦ rw bad tt
        | inr good ↦
            let size : length (take (a * 256 + b - 2) body) ≡ a * 256 + b - 2 =
              length-take (a * 256 + b - 2) body (ground arith) in
            let small : length (take (a * 256 + b - 2) body) + 2 < 65536 =
              rw size (omega (arith, h.0, h.1.0)) in
            rw good (elim (Bool-cases (m == marker_sos)) [
              | inl last ↦ rw last ((f, e, s, small), (λ _. refl), tt)
              | inr more ↦ rw more (
                  prepend-Found _ _ (f, e, s, small) more
                    (finds _ (All-drop (a * 256 + b - 2) body h.1.1)))
            ])
      ]

  scan_marker-Found : (bs : Bytes) → IsTrimmed bs → All IsByte bs → Found (scan_marker next bs)
  unfolding scan_marker
  scan_marker-Found [] f h = tt
  scan_marker-Found (m ∷ rest) f h = elim (Bool-cases (m == marker_eoi)) [
    | inl end ↦ rw end tt
    | inr inside ↦ rw inside (elim (Bool-cases (is_standalone_marker m || m == marker_soi)) [
      | inl bare ↦ rw bare (finds rest h.1)
      | inr sized ↦ rw sized (scan_segment-Found m rest f inside sized h.1)
    ])
  ]

-- In a file of bytes every segment found has a marker of its own and a length of two bytes, and only
-- the last one can be the header of the scan.
scan-Found : (fuel : ℕ) (bs : Bytes) → All IsByte bs → Found (scan fuel bs)
unfolding scan
scan-Found zero bs h = tt
scan-Found (suc fuel) [] h = tt
scan-Found (suc fuel) (a ∷ []) h = tt
scan-Found (suc fuel) (a ∷ b ∷ rest) h = elim (Bool-cases (a == 0xFF)) [
  | inr bad ↦ rw bad tt
  | inl marked ↦ rw marked (
      scan_marker-Found (scan fuel) (λ bs k. scan-Found fuel bs k) (skip_fill (b ∷ rest))
        (skip_fill-IsTrimmed (b ∷ rest)) (All-skip_fill (b ∷ rest) h.1))
]

pub scan-AreSegments :
    (fuel : ℕ) (bs : Bytes) {gs : List Segment} {rest : Bytes}
    → All IsByte bs
    → scan fuel bs ≡ ok (gs, rest)
    → AreSegments gs
scan-AreSegments fuel bs h e = rw e at (scan-Found fuel bs h)
