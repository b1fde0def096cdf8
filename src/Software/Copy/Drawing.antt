-- ===== src/Software/Copy/Drawing.antt =====
-- Where `blit_surface` draws on a frame, and where not.
use atria.Base.{
  ℕ, ◌+◌, ◌-◌, ◌*◌, ◌^◌, ◌≤◌, ◌<◌, ◌≡◌, refl, sym, ap, ◌∙◌, ◌⊎◌, inl, inr, some, List, length, ok,
  checked_mul, arith, subst, get_elem?,
}
use atria.Base.Int.{ℤ, pos, negsuc, pos_part, neg_part, ◌+ℤ◌, IsI32}
use atria.Compositor.Model.{SurfaceKey, Size, Point}
use atria.Software.Buffer.{Frame}
use atria.Software.Copy.{
  Copied, i64_fitting, blit_rows, blit_part, blit_wide, blit_at, blit_surface, checked_origin,
  visible_part,
}
use atria.Software.Copy.Pixels.{IsDrawn}
use atria.Software.Copy.Clipping.{
  IsSmall, first_in, last_in, origin-first, visible_part-shown, visible_part-hidden,
}
use atria.Software.Copy.Blit.{line_at, blit_rows-IsDrawn}

-- A frame whose rows are those of its pixels, an image of a surface that has all its pixels, and
-- coordinates and sizes as the code's types bound them.
pub record IsDrawable (size : Size) (source : List ℕ) (position offset : Point) (frame : Frame)
    : Type 0 where
  pub word : frame.layout.bytes_per_pixel < 2 ^ 8
  pub tight : frame.stride ≡ frame.size.width * frame.layout.bytes_per_pixel
  pub whole : length frame.bytes ≡ frame.size.height * frame.stride
  pub image : length source ≡ size.height * (size.width * frame.layout.bytes_per_pixel)
  pub narrow : size.width < 2 ^ 32
  pub short : size.height < 2 ^ 32
  pub frame_narrow : frame.size.width < 2 ^ 32
  pub frame_short : frame.size.height < 2 ^ 32
  pub addressed : length frame.bytes < 2 ^ 64
  pub image_addressed : length source < 2 ^ 64
  pub at_x : IsI32 position.x
  pub at_y : IsI32 position.y
  pub by_x : IsI32 offset.x
  pub by_y : IsI32 offset.y

i32_sum : (a b : ℤ) → IsI32 a → IsI32 b → IsSmall (a +ℤ b) × (i64_fitting (a +ℤ b) ≡ some (a +ℤ b))
unfolding i64_fitting ◌+ℤ◌
i32_sum a b h k = ground arith

split : (a b c : ℕ) → a ≤ b → a * c + (b - a) * c ≡ b * c
split a b c h = grind (arith, h)

scale : (a b c : ℕ) → a ≤ b → a * c ≤ b * c
scale a b c h = grind (arith, h)

next-row : (a b c : ℕ) → a < b → a * c + c ≤ b * c
next-row a b c h = grind (arith, h)

product-word : (m n : ℕ) → m < 2 ^ 32 → n < 2 ^ 8 → m * n < 2 ^ 64
product-word m n a b = grind (arith, a, b)

pub one-sign : (z : ℤ) → (pos_part z ≡ 0) ⊎ (neg_part z ≡ 0)
one-sign (pos n) = inr refl
one-sign (negsuc n) = inl refl

zero-row : (o : ℤ) (a b : ℕ) → o +ℤ pos a ≡ pos b → o +ℤ pos (a + 0) ≡ pos (b + 0)
zero-row o a b h = ap (λ n. o +ℤ pos n) (the_sum a) ∙ h ∙ ap (λ n. pos n) (sym (the_sum b))
  where
    the_sum : (n : ℕ) → n + 0 ≡ n
    the_sum n = omega arith

-- A column, or a row, that an extent at an origin does not reach.
abbrev pub IsOff : ℤ → ℕ → ℕ → Type 0
IsOff o extent c = (c + neg_part o < pos_part o) ⊎ (pos_part o + extent ≤ c + neg_part o)

module _ (surface : SurfaceKey) (size : Size) (source : List ℕ) (position offset : Point)
    (frame : Frame) (p : IsDrawable size source position offset frame) where
  abbrev pub bpp : ℕ
  bpp = frame.layout.bytes_per_pixel

  abbrev pub ox : ℤ
  ox = position.x +ℤ offset.x

  abbrev pub oy : ℤ
  oy = position.y +ℤ offset.y

  abbrev pub left : ℕ
  left = first_in ox size.width

  abbrev pub right : ℕ
  right = last_in ox size.width frame.size.width

  abbrev pub top : ℕ
  top = first_in oy size.height

  abbrev pub bottom : ℕ
  bottom = last_in oy size.height frame.size.height

  near_x : IsSmall ox
  near_x = (i32_sum position.x offset.x p.at_x p.by_x).0

  near_y : IsSmall oy
  near_y = (i32_sum position.y offset.y p.at_y p.by_y).0

  at_part :
      blit_surface surface size source position offset frame
      ≡ blit_part surface source oy
          (size.width * bpp)
          frame
          (visible_part surface size ox oy frame.size bpp)
  unfolding blit_surface blit_at blit_wide checked_origin
  at_part =
      rw ((i32_sum position.x offset.x p.at_x p.by_x).1)
        (rw ((i32_sum position.y offset.y p.at_y p.by_y).1) (rw multiplied refl))
    where
      multiplied : checked_mul size.width bpp ≡ some (size.width * bpp)
      multiplied = ground (arith, product-word size.width bpp p.narrow p.word)

  -- Where the rows that are visible start, in the image and in the frame.
  abbrev pub image_row : ℕ → ℕ
  image_row = line_at top (size.width * bpp) (left * bpp)

  abbrev pub frame_row : ℕ → ℕ
  frame_row = line_at (pos_part oy) frame.stride (pos_part ox * bpp)

  abbrev pub result : Copied
  result = blit_surface surface size source position offset frame

  pub hidden-part : (right ≤ left) ⊎ (bottom ≤ top) → (result.1 ≡ ok tt) × (result.0 ≡ frame.bytes)
  unfolding blit_part
  hidden-part none_seen =
      let same : result ≡ (frame.bytes, ok tt) =
        at_part
        ∙ ap (blit_part surface source oy (size.width * bpp) frame) (
            visible_part-hidden surface size frame.size ox oy bpp near_x near_y p.frame_narrow
              p.frame_short none_seen) in
      (ap (λ (t : Copied). t.1) same, ap (λ (t : Copied). t.0) same)

  frame-inside : right ≤ size.width → left < right → pos_part ox + (right - left) ≤ frame.size.width
  frame-inside below wide = omega arith

  pub part-IsDrawn :
      left < right
      → top < bottom
      → (result.1 ≡ ok tt)
        × IsDrawn source image_row frame_row
            ((right - left) * bpp)
            frame.bytes
            0
            (bottom - top)
            result.0
  unfolding blit_part
  part-IsDrawn wide high =
      let n = (right - left) * bpp in
      let columns = split left right bpp (omega (arith, wide)) in
      let image_columns = scale right size.width bpp (omega arith) in
      let frame_columns =
        scale (pos_part ox + (right - left)) frame.size.width bpp (omega (arith, wide)) in
      let frame_sum : pos_part ox * bpp + n ≤ frame.stride =
        grind (arith, frame_columns, p.tight) in
      let same : result
          ≡ blit_rows surface source frame.bytes oy (size.width * bpp) frame.stride n (left * bpp)
              (pos_part ox * bpp) (pos (top + 0)) (bottom - top) =
        at_part
        ∙ ap (blit_part surface source oy (size.width * bpp) frame) (
            visible_part-shown surface size frame.size ox oy bpp near_x near_y p.narrow
              p.frame_narrow p.frame_short p.word wide high)
        ∙ ap
            (λ m.
              blit_rows surface source frame.bytes oy (size.width * bpp) frame.stride n (left * bpp)
                (pos_part ox * bpp) (pos m) (bottom - top))
            (omega arith) in
      let (done, drawn) =
        blit_rows-IsDrawn surface source oy (size.width * bpp) frame.stride n (left * bpp)
          (pos_part ox * bpp) top (pos_part oy) frame.bytes 0 (bottom - top)
          (omega (arith, frame_sum)) (omega (arith, near_y, p.frame_short))
          (zero-row oy top (pos_part oy) (origin-first oy size.height (omega (arith, high))))
          p.image_addressed p.addressed
          (λ j low below. omega (
            arith,
            p.image,
            columns,
            image_columns,
            next-row (top + j) size.height (size.width * bpp) (omega (arith, below)),
          ))
          (λ j low below. omega (
            arith,
            p.whole,
            frame_sum,
            next-row (pos_part oy + j) frame.size.height frame.stride (omega (arith, below)),
          )) in
      (
        ap (λ (t : Copied). t.1) same ∙ done,
        subst
            (λ (t : Copied). IsDrawn source image_row frame_row n frame.bytes 0 (bottom - top) t.0)
            (sym same) drawn,
      )

  -- A pixel of the frame, and one of its bytes.
  abbrev pub frame_byte : ℕ → ℕ → ℕ → ℕ
  frame_byte column row k = row * frame.stride + (column * bpp + k)

  abbrev pub image_byte : ℕ → ℕ → ℕ → ℕ
  image_byte column row k = row * (size.width * bpp) + (column * bpp + k)

  pub covered :
      (at_column at_row column row k : ℕ)
      → left < right
      → top < bottom
      → at_column < size.width
      → at_row < size.height
      → column < frame.size.width
      → row < frame.size.height
      → k < bpp
      → pos_part ox + at_column ≡ column + neg_part ox
      → pos_part oy + at_row ≡ row + neg_part oy
      → get_elem? result.0 (frame_byte column row k)
        ≡ get_elem? source (image_byte at_column at_row k)
  covered at_column at_row column row k wide high in_width in_height in_frame below inside parts_x
        parts_y =
      let sign_x = one-sign ox in
      let sign_y = one-sign oy in
      let i = (at_column - left) * bpp + k in
      let j = at_row - top in
      let (done, drawn) = part-IsDrawn wide high in
      let columns = split left at_column bpp (omega (arith, parts_x)) in
      let frame_columns = split (pos_part ox) column bpp (omega (arith, parts_x, wide)) in
      let same_count : column - pos_part ox ≡ at_column - left = omega (arith, parts_x, wide) in
      let same_columns = ap (λ m. m * bpp) same_count in
      let within =
        next-row (at_column - left) (right - left) bpp
          (omega (arith, parts_x, in_width, in_frame)) in
      let row_here : top + j ≡ at_row = omega (arith, parts_y) in
      let line_here : pos_part oy + j ≡ row = omega (arith, parts_y, high) in
      ap (get_elem? result.0)
        (omega (arith, frame_columns, same_columns, ap (λ m. m * frame.stride) line_here))
      ∙ drawn.drawn j i (omega arith) (omega (arith, parts_y, in_height, below))
          (omega (arith, within, inside))
      ∙ ap (get_elem? source) (omega (arith, columns, ap (λ m. m * (size.width * bpp)) row_here))

  pub uncovered :
      (column row k : ℕ)
      → left < right
      → top < bottom
      → column < frame.size.width
      → row < frame.size.height
      → k < bpp
      → IsOff ox size.width column ⊎ IsOff oy size.height row
      → get_elem? result.0 (frame_byte column row k)
        ≡ get_elem? frame.bytes (frame_byte column row k)
  uncovered column row k wide high in_frame below inside off =
      let sign_x = one-sign ox in
      let sign_y = one-sign oy in
      let (done, drawn) = part-IsDrawn wide high in
      let frame_columns =
        scale (pos_part ox + (right - left)) frame.size.width bpp (omega (arith, wide)) in
      let n = (right - left) * bpp in
      let frame_sum : pos_part ox * bpp + n ≤ frame.stride =
        grind (arith, frame_columns, p.tight) in
      let in_row : column * bpp + k < frame.stride =
        omega (arith, next-row column frame.size.width bpp in_frame, p.tight, inside) in
      drawn.kept (frame_byte column row k) (λ j low high_enough.
        elim (three row (pos_part oy + j)) [
          | inl before ↦
              inl (omega (arith, next-row row (pos_part oy + j) frame.stride before, in_row))
          | inr (inl after) ↦
              inr (omega (arith, next-row (pos_part oy + j) row frame.stride after, frame_sum))
          | inr (inr same) ↦
              let line = ap (λ m. m * frame.stride) same in
              elim (columns_off row j column off same high_enough) [
                | inl short ↦
                    inl (omega (arith, line, next-row column (pos_part ox) bpp short, inside))
                | inr long ↦
                    let past : pos_part ox * bpp + n ≤ column * bpp =
                      grind (arith, scale (pos_part ox + (right - left)) column bpp long) in
                    inr (omega (arith, line, past))
              ]
        ])
    where
      three : (a b : ℕ) → (a < b) ⊎ (b < a) ⊎ (a ≡ b)
      three a b = omega arith

      columns_off :
          (row j column : ℕ)
          → IsOff ox size.width column ⊎ IsOff oy size.height row
          → row ≡ pos_part oy + j
          → j < 0 + (bottom - top)
          → (column < pos_part ox) ⊎ (pos_part ox + (right - left) ≤ column)
      columns_off row j column off same below =
          let sign_x = one-sign ox in let sign_y = one-sign oy in ground arith
