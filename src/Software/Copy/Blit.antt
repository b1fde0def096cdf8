-- ===== src/Software/Copy/Blit.antt =====
-- That `blit_surface` draws what is visible of a surface.
use atria.Base.{
  ℕ, zero, suc, ◌+◌, ◌*◌, ◌^◌, ◌≤◌, ◌<◌, ◌≡◌, refl, sym, ap, ◌∙◌, some, List, length, ok, ok_or,
  ◌>>=◌, arith, subst,
}
use atria.Base.Int.{ℤ, pos, negsuc, ◌+ℤ◌}
use atria.Compositor.Model.{SurfaceKey}
use atria.Software.Copy.{
  ComposeError, Copied, copied, copy_range, go_on, scaled, u64_of, plus, i64_fitting, blit_rows,
}
use atria.Software.Copy.Pixels.{
  Fits, IsDrawn, IsDrawn-none, IsDrawn-step, copied-IsWritten, copy_range-total,
}

-- Where the row that is `j` after the first starts.
abbrev pub line_at : ℕ → ℕ → ℕ → ℕ → ℕ
line_at line stride offset j = (line + j) * stride + offset

later-line :
    (line stride offset j k : ℕ)
    → j < k
    → line_at line stride offset j + stride ≤ line_at line stride offset k
later-line line stride offset j k after = grind (arith, after)

-- The place of a row is computed where it is inside a list of bytes.
start-total :
    (line stride offset limit : ℕ)
    → line * stride + offset ≤ limit
    → limit < 2 ^ 64
    → plus (scaled (some (pos line)) stride) offset ≡ some (line * stride + offset)
unfolding plus scaled u64_of
start-total line stride offset limit inside small = ground arith

fitting-line :
    (origin row : ℤ) (line : ℕ)
    → origin +ℤ row ≡ pos line
    → line < 2 ^ 63
    → i64_fitting (origin +ℤ row) ≡ some (pos line)
unfolding i64_fitting
fitting-line origin row line e small = ap i64_fitting e ∙ fits line small
  where
    fits : (n : ℕ) → n < 2 ^ 63 → i64_fitting (pos n) ≡ some (pos n)
    fits n h = ground arith

next-line :
    (origin : ℤ) (a b : ℕ) → origin +ℤ pos a ≡ pos b → origin +ℤ (pos a +ℤ pos 1) ≡ pos (b + 1)
unfolding ◌+ℤ◌
next-line (pos n) a b h = ground arith
next-line (negsuc n) a b h = ground arith

next-row : (a j : ℕ) → pos (a + j) +ℤ pos 1 ≡ pos (a + (j + 1))
unfolding ◌+ℤ◌
next-row a j = ground arith

next-origin :
    (origin : ℤ) (a b j : ℕ)
    → origin +ℤ pos (a + j) ≡ pos (b + j)
    → origin +ℤ pos (a + (j + 1)) ≡ pos (b + (j + 1))
unfolding ◌+ℤ◌
next-origin (pos n) a b j h = ground arith
next-origin (negsuc n) a b j h = ground arith

module _ (surface : SurfaceKey) (source : List ℕ) (origin_y : ℤ)
    (from_stride stride n from_x x top line : ℕ) where
  abbrev pub from_at : ℕ → ℕ
  from_at = line_at top from_stride from_x

  abbrev pub to_at : ℕ → ℕ
  to_at = line_at line stride x

  abbrev pub drawn_rows : List ℕ → ℕ → ℕ → Copied
  drawn_rows before j count =
      blit_rows surface source before origin_y from_stride stride n from_x x (pos (top + j)) count

  pub blit_rows-IsDrawn :
      (before : List ℕ) (row count : ℕ)
      → n ≤ stride
      → line + row + count ≤ 2 ^ 63
      → origin_y +ℤ pos (top + row) ≡ pos (line + row)
      → length source < 2 ^ 64
      → length before < 2 ^ 64
      → Fits n (length source) from_at row count
      → Fits n (length before) to_at row count
      → ((drawn_rows before row count).1 ≡ ok tt)
        × IsDrawn source from_at to_at n before row count (drawn_rows before row count).0
  unfolding blit_rows go_on
  blit_rows-IsDrawn before row zero narrow few placed small short readable writable =
      (refl, IsDrawn-none source from_at to_at n before row)
  blit_rows-IsDrawn before row (suc count) narrow few placed small short readable writable =
      let a = from_at row in
      let b = to_at row in
      let next = copied source a before b n in
      let reads : a + n ≤ length source = readable row (omega arith) (omega arith) in
      let writes : b + n ≤ length before = writable row (omega arith) (omega arith) in
      let first = copied-IsWritten source a before b n reads writes in
      let same = first.same_length in
      let rest =
        blit_rows-IsDrawn next (row + 1) count narrow (omega (arith, few))
          (next-origin origin_y top line row placed) small (omega (arith, same, short))
          (λ j low high. readable j (omega (arith, low)) (omega (arith, high)))
          (λ j low high.
            omega (arith, same, writable j (omega (arith, low)) (omega (arith, high)))) in
      let overflow = ComposeError.geometry_overflow surface in
      let row_copied : (do
        p ← ok_or (plus (scaled (some (pos (top + row))) from_stride) from_x) overflow
        q ← ok_or (plus (scaled (i64_fitting (origin_y +ℤ pos (top + row))) stride) x) overflow
        copy_range source p before q n)
          ≡ ok next =
        rw (start-total (top + row) from_stride from_x (length source) (omega (arith, reads)) small)
          (rw (fitting-line origin_y (pos (top + row)) (line + row) placed (omega (arith, few))) (
            rw (start-total (line + row) stride x (length before) (omega (arith, writes)) short)
              (copy_range-total source a before b n reads writes small short))) in
      let step : drawn_rows before row (suc count) ≡ drawn_rows next (row + 1) count =
        ap
          (λ r. go_on before r (λ t.
            blit_rows surface source t origin_y from_stride stride n from_x x
              (pos (top + row) +ℤ pos 1) count))
          row_copied
        ∙ ap (λ z. blit_rows surface source next origin_y from_stride stride n from_x x z count)
            (next-row top row) in
      (
        ap (λ (r : Copied). r.1) step ∙ rest.0,
        subst (λ (r : Copied). IsDrawn source from_at to_at n before row (suc count) r.0) (sym step)
            (IsDrawn-step source from_at to_at n before next _ row count
              (λ j later. omega (arith, narrow, later-line line stride x row j later)) first
              rest.1),
      )
