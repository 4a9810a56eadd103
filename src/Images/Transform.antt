-- ===== src/Images/Transform.antt =====
-- internal/images/transform.go: the pixels of an image are made upright. A pixel is of any type.
pub mod Upright
use inventory.Prelude.{ℕ, zero, suc, ◌+◌, ◌-◌, Bool, ◌&&◌, ◌||◌, ◌==◌, if◌then◌else◌}
use inventory.Images.Exif.{Orientation, needs_transform}

-- Bounds that begin at the origin, and the pixel at each place.
pub record Image (P : Type 0) : Type 0 where
  pub width : ℕ
  pub height : ℕ
  pub at : ℕ → ℕ → P

-- Orientations 5 to 8 exchange the axes.
abbrev pub is_swapped : Orientation → Bool
is_swapped o = o == 5 || (o == 6 || (o == 7 || o == 8))

-- Where the pixel at (x, y) of a w by h image lands. The loop asks only for x < w and y < h, where no
-- difference is negative.
unfoldable pub map_pixel : Orientation → ℕ → ℕ → ℕ → ℕ → ℕ × ℕ
map_pixel o x y w h =
    if o == 2
    then (w - 1 - x, y)
    else if o == 3
    then (w - 1 - x, h - 1 - y)
    else if o == 4
    then (x, h - 1 - y)
    else if o == 5
    then (y, x)
    else if o == 6
    then (h - 1 - y, x)
    else if o == 7
    then (h - 1 - y, w - 1 - x)
    else if o == 8
    then (y, w - 1 - x)
    else (x, y)

-- `as_rgba` is color.RGBAModel.Convert, which Set of an image.RGBA applies to every colour.
module _ {P : Type 0} (as_rgba : P → P) where
  -- dst.Set
  abbrev set_pixel : ℕ × ℕ → P → (ℕ → ℕ → P) → ℕ → ℕ → P
  set_pixel (dx, dy) p f a b = if a == dx && b == dy then as_rgba p else f a b

  -- The loop over x in a row, the first n of its pixels, in their order.
  unfoldable pub copy_row : Orientation → Image P → ℕ → ℕ → (ℕ → ℕ → P) → ℕ → ℕ → P
  copy_row o src y zero dst = dst
  copy_row o src y (suc n) dst =
      set_pixel (map_pixel o n y src.width src.height) (src.at n y) (copy_row o src y n dst)

  -- The loop over y, the first n rows.
  unfoldable pub copy_rows : Orientation → Image P → ℕ → (ℕ → ℕ → P) → ℕ → ℕ → P
  unfolding copy_row
  copy_rows o src zero dst = dst
  copy_rows o src (suc n) dst = copy_row o src n src.width (copy_rows o src n dst)

  -- `applyOrientation`. `blank` is the pixel of a new image.
  unfoldable pub apply_orientation : P → Image P → Orientation → Image P
  unfolding copy_rows needs_transform
  apply_orientation blank src o =
      if needs_transform o
      then record {
        width = if is_swapped o then src.height else src.width;
        height = if is_swapped o then src.width else src.height;
        at = copy_rows o src src.height (λ _ _. blank);
      }
      else src
