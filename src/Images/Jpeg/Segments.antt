-- ===== src/Images/Jpeg/Segments.antt =====
-- The segments of a JPEG file as a list: a reference for walkJPEGSegments.
use inventory.Prelude.{
  ℕ, zero, suc, ◌+◌, ◌-◌, ◌*◌, ◌≡◌, refl, List, [], ◌∷◌, Bool, true, ◌||◌, ◌==◌, ltb, if◌then◌else◌,
  take, length, inl, inr, Bool-cases,
}
use inventory.Images.Bytes.{
  Bytes, malformed, truncated_length, length_out_of_range, Read, ok, err, stuck, drop,
}
use inventory.Images.Jpeg.{
  marker_soi, marker_eoi, marker_sos, is_standalone_marker, skip_fill, segment, at_marker,
  walk_segments,
}

abbrev pub Segment : Type 0
Segment = ℕ × Bytes

abbrev pub prepend : Segment → Read (List Segment × Bytes) → Read (List Segment × Bytes)
prepend g (ok (gs, rest)) = ok (g ∷ gs, rest)
prepend g (err e) = err e
prepend g stuck = stuck

unfoldable pub scan_segment :
    (Bytes → Read (List Segment × Bytes)) → ℕ → Bytes → Read (List Segment × Bytes)
scan_segment next m (h ∷ l ∷ body) =
    let size = h * 256 + l in
    let payload = take (size - 2) body in
    let rest = drop (size - 2) body in
    if ltb size 2 || ltb (length body + 2) size
    then err length_out_of_range
    else if m == marker_sos
    then ok ((m, payload) ∷ [], rest)
    else prepend (m, payload) (next rest)
scan_segment next m _ = err truncated_length

unfoldable pub scan_marker :
    (Bytes → Read (List Segment × Bytes)) → Bytes → Read (List Segment × Bytes)
unfolding scan_segment
scan_marker next [] = ok ([], [])
scan_marker next (m ∷ rest) =
    if m == marker_eoi
    then ok ([], rest)
    else if is_standalone_marker m || m == marker_soi
    then next rest
    else scan_segment next m rest

-- The segments up to the scan, and what follows them.
unfoldable pub scan : ℕ → Bytes → Read (List Segment × Bytes)
unfolding scan_marker skip_fill
scan zero bs = stuck
scan (suc fuel) (a ∷ b ∷ rest) =
    if a == 0xFF then scan_marker (scan fuel) (skip_fill (b ∷ rest)) else err malformed
scan (suc fuel) _ = ok ([], [])

module _ {S : Type 0} (visit : S → ℕ → Bytes → S × Bool) (step : S → ℕ → Bytes → S)
    (goes_on : (s : S) (m : ℕ) (p : Bytes) → visit s m p ≡ (step s m p, true)) where
  abbrev pub fold : S → List Segment → S
  fold s [] = s
  fold s ((m, p) ∷ gs) = fold (step s m p) gs

  abbrev pub finish : S → Read (List Segment × Bytes) → Read (S × Bytes)
  finish s (ok (gs, rest)) = ok (fold s gs, rest)
  finish s (err e) = err e
  finish s stuck = stuck

  finish-prepend :
      (s : S) (m : ℕ) (p : Bytes) (r : Read (List Segment × Bytes))
      → finish (step s m p) r ≡ finish s (prepend (m, p) r)
  finish-prepend s m p (ok (gs, rest)) = refl
  finish-prepend s m p (err e) = refl
  finish-prepend s m p stuck = refl

  module _ (next : S → Bytes → Read (S × Bytes)) (next' : Bytes → Read (List Segment × Bytes))
      (agree : (s : S) (bs : Bytes) → next s bs ≡ finish s (next' bs)) where
    segment-scan :
        (s : S) (m : ℕ) (bs : Bytes)
        → segment visit next s m bs ≡ finish s (scan_segment next' m bs)
    unfolding segment scan_segment
    segment-scan s m [] = refl
    segment-scan s m (h ∷ []) = refl
    segment-scan s m (h ∷ l ∷ body) =
        elim (Bool-cases (ltb (h * 256 + l) 2 || ltb (length body + 2) (h * 256 + l))) [
          | inl bad ↦ rw bad refl
          | inr good ↦
              rw (good, goes_on)
                (elim (Bool-cases (m == marker_sos)) [
                  | inl last ↦ rw last refl
                  | inr more ↦ rw (more, agree) (finish-prepend s m _ _)
                ])
        ]

    at_marker-scan :
        (s : S) (bs : Bytes) → at_marker visit next s bs ≡ finish s (scan_marker next' bs)
    unfolding at_marker scan_marker
    at_marker-scan s [] = refl
    at_marker-scan s (m ∷ rest) = elim (Bool-cases (m == marker_eoi)) [
      | inl end ↦ rw end refl
      | inr inside ↦ rw inside (elim (Bool-cases (is_standalone_marker m || m == marker_soi)) [
        | inl bare ↦ rw bare (agree s rest)
        | inr sized ↦ rw sized (segment-scan s m rest)
      ])
    ]

  -- A walk whose visits never stop it folds them over the segments.
  pub walk_segments-scan :
      (fuel : ℕ) (s : S) (bs : Bytes) → walk_segments visit fuel s bs ≡ finish s (scan fuel bs)
  unfolding walk_segments scan
  walk_segments-scan zero s bs = refl
  walk_segments-scan (suc fuel) s [] = refl
  walk_segments-scan (suc fuel) s (a ∷ []) = refl
  walk_segments-scan (suc fuel) s (a ∷ b ∷ rest) = elim (Bool-cases (a == 0xFF)) [
    | inl marked ↦ rw marked (
        at_marker-scan (walk_segments visit fuel) (scan fuel)
          (λ s' bs. walk_segments-scan fuel s' bs) s (skip_fill (b ∷ rest)))
    | inr bad ↦ rw bad refl
  ]
