-- ===== src/Software/Copy/Pixels.antt =====
-- That `copy_rect` copies just the pixels of its rectangle.
use atria.Base.{
  ℕ, zero, suc, ◌+◌, ◌-◌, ◌*◌, ◌^◌, ◌≤◌, ◌<◌, ◌≡◌, refl, sym, ap, ◌∙◌, ◌⊎◌, inl, inr, some, List,
  ◌++◌, length, take, drop, get_elem?, ok, checked_mul, arith, length-append, length-take,
  length-drop, get_elem?-take, get_elem?-drop, get_elem?-append, get_elem?-append_past, subst,
}
use atria.Base.Int.{pos}
use atria.Compositor.Model.{Rect}
use atria.Software.Buffer.{PixelLayout}
use atria.Software.Copy.{
  Copied, copied, copy_range, row_start, copy_row, go_on, copy_rows, copy_wide, copy_at, copy_rect,
}

-- `n` bytes of a source are in the second list from `start` on, and else it is the first.
pub record IsWritten (source : List ℕ) (from : ℕ) (before : List ℕ) (start n : ℕ) (after : List ℕ)
    : Type 0 where
  pub same_length : length after ≡ length before
  pub inside : (i : ℕ) → i < n → get_elem? after (start + i) ≡ get_elem? source (from + i)
  pub outside : (p : ℕ) → (p < start) ⊎ (start + n ≤ p) → get_elem? after p ≡ get_elem? before p

pub copied-IsWritten :
    (source : List ℕ) (from : ℕ) (before : List ℕ) (start n : ℕ)
    → from + n ≤ length source
    → start + n ≤ length before
    → IsWritten source from before start n (copied source from before start n)
unfolding copied
copied-IsWritten source from before start n readable writable =
    let head = take start before in
    let body = take n (drop from source) in
    let tail = drop (start + n) before in
    let length_head : length head ≡ start = omega (arith, length-take start before) in
    let length_body : length body ≡ n =
      omega (arith, length-take n (drop from source), length-drop from source) in
    let length_both : length (head ++ body) ≡ start + n =
      omega (arith, length-append head body, length_head, length_body) in
    record {
      same_length =
          length-append (head ++ body) tail
          ∙ omega (arith, length_both, length-drop (start + n) before);
      inside = λ i h.
          get_elem?-append (head ++ body) tail (start + i) (omega (arith, length_both, h))
          ∙ get_elem?-append_past head body i (start + i) (omega (arith, length_head))
          ∙ get_elem?-take n (drop from source) i h
          ∙ get_elem?-drop from source i (from + i) (omega arith);
      outside = λ p away. elim away [
        | inl h ↦
            get_elem?-append (head ++ body) tail p (omega (arith, length_both, h))
            ∙ get_elem?-append head body p (omega (arith, length_head, h))
            ∙ get_elem?-take start before p h
        | inr h ↦
            get_elem?-append_past (head ++ body) tail (p - (start + n)) p
              (omega (arith, length_both, h))
            ∙ get_elem?-drop (start + n) before (p - (start + n)) p (omega (arith, h))
      ];
    }

pub copy_range-total :
    (source : List ℕ) (from : ℕ) (before : List ℕ) (start n : ℕ)
    → from + n ≤ length source
    → start + n ≤ length before
    → length source < 2 ^ 64
    → length before < 2 ^ 64
    → copy_range source from before start n ≡ ok (copied source from before start n)
unfolding copy_range
copy_range-total source from before start n readable writable small narrow = ground arith

-- The place of the first byte of a row.
abbrev pub byte_at : ℕ → ℕ → ℕ → ℕ → ℕ
byte_at line stride x pixel_bytes = line * stride + x * pixel_bytes

abbrev pub row_at : ℕ → ℕ → ℕ → ℕ → ℕ → ℕ
row_at y stride x pixel_bytes j = byte_at (y + j) stride x pixel_bytes

row_start-total :
    (x y row stride pixel_bytes limit : ℕ)
    → y + row < 2 ^ 64
    → byte_at (y + row) stride x pixel_bytes ≤ limit
    → limit < 2 ^ 64
    → row_start x y row stride pixel_bytes ≡ some (byte_at (y + row) stride x pixel_bytes)
unfolding row_start
row_start-total x y row stride pixel_bytes limit few fits small = ground arith

later-row :
    (y row j stride x pixel_bytes : ℕ)
    → row < j
    → byte_at (y + row) stride x pixel_bytes + stride ≤ byte_at (y + j) stride x pixel_bytes
later-row y row j stride x pixel_bytes after = grind (arith, after)

-- The rows from `row` on, `count` of them, lie in so many bytes, from where each starts.
abbrev pub Fits : ℕ → ℕ → (ℕ → ℕ) → ℕ → ℕ → Type 0
Fits n size start row count = (j : ℕ) → row ≤ j → j < row + count → start j + n ≤ size

module _ (source : List ℕ) (from start : ℕ → ℕ) (n : ℕ) where
  -- These rows are the source's, and every other byte is as it was.
  pub record IsDrawn (before : List ℕ) (row count : ℕ) (after : List ℕ) : Type 0 where
    pub drawn :
        (j i : ℕ)
        → row ≤ j
        → j < row + count
        → i < n
        → get_elem? after (start j + i) ≡ get_elem? source (from j + i)
    pub kept :
        (p : ℕ)
        → ((j : ℕ) → row ≤ j → j < row + count → (p < start j) ⊎ (start j + n ≤ p))
        → get_elem? after p ≡ get_elem? before p

  pub IsDrawn-none : (before : List ℕ) (row : ℕ) → IsDrawn before row 0 before
  IsDrawn-none before row = record {
    drawn = λ j i low high inside. absurd (omega (arith, low, high));
    kept = λ p away. refl;
  }

  pub IsDrawn-step :
      (before next after : List ℕ) (row count : ℕ)
      → ((j : ℕ) → row < j → start row + n ≤ start j)
      → IsWritten source (from row) before (start row) n next
      → IsDrawn next (row + 1) count after
      → IsDrawn before row (suc count) after
  IsDrawn-step before next after row count apart first others = record {
    drawn = λ j i low high inside. elim (leb-cases j row) [
      | inl e ↦
          let same : row ≡ j = omega (arith, e, low) in
          subst (λ k. get_elem? after (start k + i) ≡ get_elem? source (from k + i)) same
            (others.kept (start row + i)
                (λ k above below. inl (omega (arith, apart k (omega (arith, above)), inside)))
              ∙ first.inside i inside)
      | inr above ↦ others.drawn j i (omega (arith, above)) (omega (arith, high)) inside
    ];
    kept = λ p away.
        others.kept p (λ j low high. away j (omega (arith, low)) (omega (arith, high)))
        ∙ first.outside p (away row (omega arith) (omega arith));
  }
    where
      leb-cases : (a b : ℕ) → (a ≤ b) ⊎ (b < a)
      leb-cases a b = omega arith

module _ (source : List ℕ) (from_stride stride pixel_bytes n x y : ℕ) where
  -- Where a row starts in the source and in the destination.
  abbrev from_at : ℕ → ℕ
  from_at = row_at y from_stride x pixel_bytes

  abbrev to_at : ℕ → ℕ
  to_at = row_at y stride x pixel_bytes

  copy_rows-IsDrawn :
      (before : List ℕ) (row count : ℕ)
      → n ≤ stride
      → y + row + count ≤ 2 ^ 64
      → length source < 2 ^ 64
      → length before < 2 ^ 64
      → Fits n (length source) from_at row count
      → Fits n (length before) to_at row count
      → let after = copy_rows source from_stride before stride pixel_bytes n x y row count in
        (after.1 ≡ ok tt) × IsDrawn source from_at to_at n before row count after.0
  unfolding copy_rows copy_row go_on
  copy_rows-IsDrawn before row zero narrow few small short readable writable =
      (refl, IsDrawn-none source from_at to_at n before row)
  copy_rows-IsDrawn before row (suc count) narrow few small short readable writable =
      let a = from_at row in
      let b = to_at row in
      let next = copied source a before b n in
      let reads : a + n ≤ length source = readable row (omega arith) (omega arith) in
      let writes : b + n ≤ length before = writable row (omega arith) (omega arith) in
      let first = copied-IsWritten source a before b n reads writes in
      let same = first.same_length in
      let rest =
        copy_rows-IsDrawn next (row + 1) count narrow (omega (arith, few)) small
          (omega (arith, same, short))
          (λ j low high. readable j (omega (arith, low)) (omega (arith, high)))
          (λ j low high.
            omega (arith, same, writable j (omega (arith, low)) (omega (arith, high)))) in
      let row_copied : copy_row source before (row_start x y row from_stride pixel_bytes)
            (row_start x y row stride pixel_bytes) n
          ≡ ok next =
        ap (λ o. copy_row source before o (row_start x y row stride pixel_bytes) n)
          (row_start-total x y row from_stride pixel_bytes (length source) (omega (arith, few))
            (omega (arith, reads)) small)
        ∙ ap (λ o. copy_row source before (some a) o n)
            (row_start-total x y row stride pixel_bytes (length before) (omega (arith, few))
              (omega (arith, writes)) short)
        ∙ copy_range-total source a before b n reads writes small short in
      let step : copy_rows source from_stride before stride pixel_bytes n x y row (suc count)
          ≡ copy_rows source from_stride next stride pixel_bytes n x y (row + 1) count =
        ap
          (λ r.
            go_on before r
              (λ t. copy_rows source from_stride t stride pixel_bytes n x y (row + 1) count))
          row_copied in
      (
        ap (λ (r : Copied). r.1) step ∙ rest.0,
        subst (λ (r : Copied). IsDrawn source from_at to_at n before row (suc count) r.0) (sym step)
            (IsDrawn-step source from_at to_at n before next _ row count
              (λ j later. omega (arith, narrow, later-row y row j stride x pixel_bytes later)) first
              rest.1),
      )

-- Where a rectangle has its corner at no negative coordinate, its rows are no longer than the stride of
-- the destination, of 32 bits, and lie inside both lists of bytes, and neither the lists nor the lines go
-- beyond 64 bits, `copy_rect` succeeds; every byte of every row of the rectangle is then that of the
-- source in the same row and column, at the strides of the two; and every byte outside the rows is as it
-- was.
pub copy_rect-IsDrawn :
    (source : List ℕ) (from_stride : ℕ) (before : List ℕ) (stride : ℕ) (layout : PixelLayout)
    (r : Rect) (x y : ℕ)
    → r.x ≡ pos x
    → r.y ≡ pos y
    → r.width * layout.bytes_per_pixel ≤ stride
    → stride < 2 ^ 32
    → y + r.height ≤ 2 ^ 64
    → length source < 2 ^ 64
    → length before < 2 ^ 64
    → Fits
        (r.width * layout.bytes_per_pixel)
        (length source)
        (row_at y from_stride x layout.bytes_per_pixel)
        0
        r.height
    → Fits
        (r.width * layout.bytes_per_pixel)
        (length before)
        (row_at y stride x layout.bytes_per_pixel)
        0
        r.height
    → let after = copy_rect source from_stride before stride layout r in
      (after.1 ≡ ok tt)
      × IsDrawn source
          (row_at y from_stride x layout.bytes_per_pixel)
          (row_at y stride x layout.bytes_per_pixel)
          (r.width * layout.bytes_per_pixel)
          before
          0
          r.height
          after.0
unfolding copy_rect copy_at copy_wide
copy_rect-IsDrawn source from_stride before stride layout r x y left top narrow word few small short
      readable writable =
    let n = r.width * layout.bytes_per_pixel in
    let bytes : checked_mul r.width layout.bytes_per_pixel ≡ some n = ground arith in
    let at_corner : copy_rect source from_stride before stride layout r
        ≡ copy_rows source from_stride before stride layout.bytes_per_pixel n x y 0 r.height =
      ap (λ a. copy_at source from_stride before stride layout r a r.y) left
      ∙ ap (copy_at source from_stride before stride layout r (pos x)) top
      ∙ ap (copy_wide source from_stride before stride layout r x y) bytes in
    let (done, drawn) =
      copy_rows-IsDrawn source from_stride stride layout.bytes_per_pixel n x y before 0 r.height
        narrow (omega (arith, few)) small short readable writable in
    (
      ap (λ (t : Copied). t.1) at_corner ∙ done,
      subst
          (λ (t : Copied).
            IsDrawn source (row_at y from_stride x layout.bytes_per_pixel)
              (row_at y stride x layout.bytes_per_pixel) n before 0 r.height t.0)
          (sym at_corner) drawn,
    )
