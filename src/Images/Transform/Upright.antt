-- ===== src/Images/Transform/Upright.antt =====
-- internal/images/transform.go: every pixel of the source stands in the upright image, and back.
use mathlib.Core.Path.{subst}
use inventory.Prelude.{
  Bool, true, false, ◌-◌, ℕ, zero, suc, ◌≤◌, ◌<◌, ◌≡◌, refl, sym, ◌∙◌, ◌&&◌, ◌==◌, if◌then◌else◌,
  Bool-cases, ==_iff, ==_refl, inl, inr, arith,
}
use inventory.Images.Exif.{Orientation, needs_transform}
use inventory.Images.Transform.{
  Image, is_swapped, map_pixel, copy_row, copy_rows, apply_orientation,
}

-- The orientation that turns an upright image back: the two rotations by a quarter undo one another,
-- and each of the others undoes itself.
unfoldable pub undo : Orientation → Orientation
undo o = if o == 6 then 8 else if o == 8 then 6 else o

abbrev pub out_width : Orientation → ℕ → ℕ → ℕ
out_width o w h = if is_swapped o then h else w

abbrev pub out_height : Orientation → ℕ → ℕ → ℕ
out_height o w h = if is_swapped o then w else h

-- Every pixel lands inside the upright image, and the undoing orientation takes it back.
map_pixel-undo :
    (o : Orientation) (x y w h : ℕ)
    → x < w
    → y < h
    → ((map_pixel o x y w h).0 < out_width o w h)
      × ((map_pixel o x y w h).1 < out_height o w h)
      × (map_pixel
            (undo o)
            (map_pixel o x y w h).0
            (map_pixel o x y w h).1
            (out_width o w h)
            (out_height o w h)
          ≡ (x, y))
unfolding map_pixel undo
map_pixel-undo o x y w h hx hy = (ground arith, ground arith, ground arith)

-- Two pixels do not land on one place.
map_pixel-apart :
    (o : Orientation) (x y x' y' w h : ℕ)
    → x < w
    → y < h
    → x' < w
    → y' < h
    → (x == x' && y == y') ≡ false
    → ((map_pixel o x y w h).0 == (map_pixel o x' y' w h).0
        && (map_pixel o x y w h).1 == (map_pixel o x' y' w h).1)
      ≡ false
unfolding map_pixel
map_pixel-apart o x y x' y' w h hx hy hx' hy' e = ground arith

module _ {P : Type 0} (as_rgba : P → P) (o : Orientation) (src : Image P) where
  -- What stands where the pixel at (x, y) lands.
  abbrev landed : ℕ → ℕ → (ℕ → ℕ → P) → P
  landed x y f = f (map_pixel o x y src.width src.height).0 (map_pixel o x y src.width src.height).1

  -- A row leaves the places of the pixels of another.
  copy_row-other :
      (x y y' n : ℕ) (dst : ℕ → ℕ → P)
      → x < src.width
      → y < src.height
      → y' < src.height
      → n ≤ src.width
      → (y == y') ≡ false
      → landed x y (copy_row as_rgba o src y' n dst) ≡ landed x y dst
  unfolding copy_row
  copy_row-other x y y' zero dst hx hy hy' hn e = refl
  copy_row-other x y y' (suc n) dst hx hy hy' hn e =
      rw (map_pixel-apart o x y n y' src.width src.height hx hy (omega arith) hy' (ground arith))
        (copy_row-other x y y' n dst hx hy hy' (omega arith) e)

  copy_row-own :
      (x y n : ℕ) (dst : ℕ → ℕ → P)
      → x < n
      → y < src.height
      → n ≤ src.width
      → landed x y (copy_row as_rgba o src y n dst) ≡ as_rgba (src.at x y)
  unfolding copy_row
  copy_row-own x y zero dst hx hy hn = absurd (omega arith)
  copy_row-own x y (suc n) dst hx hy hn = elim (Bool-cases (x == n)) [
    | inl here ↦
        rw
          (
            (==_iff x n).0 here,
            ==_refl (map_pixel o n y src.width src.height).0,
            ==_refl (map_pixel o n y src.width src.height).1,
          )
          refl
    | inr there ↦
        rw
          (map_pixel-apart o x y n y src.width src.height (omega arith) hy (omega arith) hy
            (ground arith))
          (copy_row-own x y n dst (ground arith) hy (omega arith))
  ]

  copy_rows-own :
      (x y n : ℕ) (dst : ℕ → ℕ → P)
      → x < src.width
      → y < n
      → n ≤ src.height
      → landed x y (copy_rows as_rgba o src n dst) ≡ as_rgba (src.at x y)
  unfolding copy_rows
  copy_rows-own x y zero dst hx hy hn = absurd (omega arith)
  copy_rows-own x y (suc n) dst hx hy hn = elim (Bool-cases (y == n)) [
    | inl here ↦
        rw ((==_iff y n).0 here) (
          copy_row-own x n src.width (copy_rows as_rgba o src n dst) hx (omega arith) (omega arith))
    | inr there ↦
        copy_row-other x y n src.width (copy_rows as_rgba o src n dst) hx (omega arith)
          (omega arith) (omega arith) there
        ∙ copy_rows-own x y n dst hx (ground arith) (omega arith)
  ]

-- Of a file that needs a rotation, the pixel at (x, y) stands, converted, where its orientation maps it.
apply_orientation-at :
    {P : Type 0} (as_rgba : P → P) (blank : P) (src : Image P) (o : Orientation) (x y : ℕ)
    → needs_transform o ≡ true
    → x < src.width
    → y < src.height
    → (apply_orientation as_rgba blank src o).at
        (map_pixel o x y src.width src.height).0
        (map_pixel o x y src.width src.height).1
      ≡ as_rgba (src.at x y)
unfolding apply_orientation
apply_orientation-at as_rgba blank src o x y turned hx hy =
    rw turned (copy_rows-own as_rgba o src x y src.height (λ _ _. blank) hx hy (omega arith))

-- The sides of the picture as it is seen.
pub data Side : Type 0 where
  top bottom left right : Side

-- The EXIF standard's table of the tag 0x0112: the seen side at which the row 0 of the stored pixels
-- lies, and that of the column 0.
abbrev pub sides : Orientation → Side × Side
sides o =
    if o == 2
    then (top, right)
    else if o == 3
    then (bottom, right)
    else if o == 4
    then (bottom, left)
    else if o == 5
    then (left, top)
    else if o == 6
    then (right, top)
    else if o == 7
    then (right, bottom)
    else if o == 8
    then (left, bottom)
    else (top, left)

-- How far the place (x, y) of a w by h picture is from a side.
abbrev pub distance : Side → ℕ → ℕ → ℕ → ℕ → ℕ
distance top w h x y = y
distance bottom w h x y = h - 1 - y
distance left w h x y = x
distance right w h x y = w - 1 - x

-- The row 0 lies upright.
abbrev pub is_upright : Side → Bool
is_upright left = true
is_upright right = true
is_upright _ = false

-- The column and the row of the stored pixels that are seen at (x, y).
abbrev pub stored_column : Orientation → ℕ → ℕ → ℕ → ℕ → ℕ
stored_column o w h x y = distance (sides o).1 w h x y

abbrev pub stored_row : Orientation → ℕ → ℕ → ℕ → ℕ → ℕ
stored_row o w h x y = distance (sides o).0 w h x y

map_pixel-seen :
    (o x y w h : ℕ)
    → needs_transform o ≡ true
    → x < out_width o w h
    → y < out_height o w h
    → (stored_column o (out_width o w h) (out_height o w h) x y < w)
      × (stored_row o (out_width o w h) (out_height o w h) x y < h)
      × (map_pixel o
            (stored_column o (out_width o w h) (out_height o w h) x y)
            (stored_row o (out_width o w h) (out_height o w h) x y)
            w
            h
          ≡ (x, y))
unfolding map_pixel needs_transform
map_pixel-seen o x y w h turned hx hy = (ground arith, ground arith, ground arith)

seen_bounds :
    (o w h : ℕ)
    → needs_transform o ≡ true
    → (out_width o w h ≡ (if is_upright (sides o).0 then h else w))
      × (out_height o w h ≡ (if is_upright (sides o).0 then w else h))
unfolding needs_transform
seen_bounds o w h turned = (ground arith, ground arith)

turned_bounds :
    {P : Type 0} (as_rgba : P → P) (blank : P) (src : Image P) (o : Orientation)
    → needs_transform o ≡ true
    → ((apply_orientation as_rgba blank src o).width ≡ out_width o src.width src.height)
      × ((apply_orientation as_rgba blank src o).height ≡ out_height o src.width src.height)
unfolding apply_orientation
turned_bounds as_rgba blank src o turned = (rw turned refl, rw turned refl)

pair : {a b c d : ℕ} → a ≡ b → c ≡ d → ◌≡◌ {A = ℕ × ℕ} (a, c) (b, d)
pair h k = cc

apply_orientation-stored :
    {P : Type 0} (as_rgba : P → P) (blank : P) (src : Image P) (o : Orientation) (x y : ℕ)
    → needs_transform o ≡ true
    → x < out_width o src.width src.height
    → y < out_height o src.width src.height
    → let w = out_width o src.width src.height in
      let h = out_height o src.width src.height in
      (apply_orientation as_rgba blank src o).at x y
      ≡ as_rgba (src.at (stored_column o w h x y) (stored_row o w h x y))
apply_orientation-stored as_rgba blank src o x y turned hx hy =
    let (in_x, in_y, back) = map_pixel-seen o x y src.width src.height turned hx hy in
    subst
      (λ p.
        (apply_orientation as_rgba blank src o).at p.0 p.1
        ≡ as_rgba (
            src.at
              (stored_column o (out_width o src.width src.height)
                (out_height o src.width src.height) x y)
              (stored_row o (out_width o src.width src.height) (out_height o src.width src.height) x
                y)))
      back (apply_orientation-at as_rgba blank src o _ _ turned in_x in_y)

-- A file that needs a rotation, seen: its bounds are exchanged where the row 0 lies upright, and at each
-- place stands, converted, the stored pixel that the standard's table puts there.
pub apply_orientation-seen :
    {P : Type 0} (as_rgba : P → P) (blank : P) (src : Image P) (o : Orientation) (x y : ℕ)
    → needs_transform o ≡ true
    → x < (if is_upright (sides o).0 then src.height else src.width)
    → y < (if is_upright (sides o).0 then src.width else src.height)
    → let up = apply_orientation as_rgba blank src o in
      (up.width ≡ (if is_upright (sides o).0 then src.height else src.width))
      × (up.height ≡ (if is_upright (sides o).0 then src.width else src.height))
      × (up.at x y
          ≡ as_rgba (
              src.at
                (stored_column o up.width up.height x y)
                (stored_row o up.width up.height x y)))
apply_orientation-seen as_rgba blank src o x y turned hx hy =
    let (wide, high) = seen_bounds o src.width src.height turned in
    let (width_, height_) = turned_bounds as_rgba blank src o turned in
    (
      width_ ∙ wide,
      height_ ∙ high,
      subst
          (λ n.
            (apply_orientation as_rgba blank src o).at x y
            ≡ as_rgba (src.at (stored_column o n.0 n.1 x y) (stored_row o n.0 n.1 x y)))
          (sym (pair width_ height_))
          (apply_orientation-stored as_rgba blank src o x y turned
            (subst (λ n. x < n) (sym wide) hx) (subst (λ n. y < n) (sym high) hy)),
    )
