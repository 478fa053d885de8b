-- ===== src/Filament/Font/Safe.antt =====
-- `drawText` of giga-filament.ino with the fonts of smooth_font.h: its reads and its pixels.
use mathlib.Core.Path.{subst}
use house_panel.Base.{
  ℕ, zero, suc, ◌+◌, ◌-◌, ◌*◌, ◌/◌, ◌%◌, ◌^◌, ◌≤◌, ◌<◌, ◌≡◌, refl, inl, inr, true, Option, none,
  some, List, [], ◌∷◌, ◌++◌, arith, ◌==◌, Bytes, length, get_elem?, Bool-cases, Option-cases,
}
use house_panel.Base.Int.{ℤ, pos, ◌+ℤ◌, ◌≤ℤ◌}
use house_panel.Filament.Font.{
  Raster, raster_size, row_byte, raster_byte, SmoothGlyph, SmoothFont, search_glyph, find_glyph,
  Pixel, shade, on_screen, alpha_of, draw_cell, after, draw_row, draw_rows, draw_glyphs, draw_text,
}
use house_panel.Filament.Font.Data.{clock_font, value_font, label_font, status_font}

-- The pixels of the glyph lie inside the array.
abbrev pub Fits : Raster → SmoothGlyph → Type 0
Fits p g = g.offset + (g.width * g.height + 1) / 2 ≤ raster_size p

abbrev pub AllFit : Raster → List SmoothGlyph → Type 0
AllFit p [] = Unit {0}
AllFit p (g ∷ gs) = Fits p g × AllFit p gs

-- A pixel of the 800 x 480 screen, in a colour of three bytes.
pub record OnScreen (q : Pixel) : Type 0 where
  pub left : pos 0 ≤ℤ q.px
  pub right : q.px ≤ℤ pos 799
  pub top : pos 0 ≤ℤ q.py
  pub bottom : q.py ≤ℤ pos 479
  pub red : q.red ≤ 255
  pub green : q.green ≤ 255
  pub blue : q.blue ≤ 255

abbrev pub AllOnScreen : List Pixel → Type 0
AllOnScreen [] = Unit {0}
AllOnScreen (q ∷ qs) = OnScreen q × AllOnScreen qs

-- The drawing came to its end, on the screen.
abbrev pub Draws : Option (List Pixel) → Type 0
Draws r = (ps : List Pixel) × (r ≡ some ps) × AllOnScreen ps

AllOnScreen-append : (ps qs : List Pixel) → AllOnScreen ps → AllOnScreen qs → AllOnScreen (ps ++ qs)
AllOnScreen-append [] qs hp hq = hq
AllOnScreen-append (p ∷ ps) qs hp hq = (hp.0, AllOnScreen-append ps qs hp.1 hq)

after-Draws : (a b : Option (List Pixel)) → Draws a → Draws b → Draws (after a b)
after-Draws none b (ps, e, h) (qs, f, k) = cc
after-Draws (some xs) none (ps, e, h) (qs, f, k) = cc
after-Draws (some xs) (some ys) (ps, e, h) (qs, f, k) = (ps ++ qs, cc, AllOnScreen-append ps qs h k)

-- A read below the size succeeds, with a byte.
pub raster_byte-lt :
    (p : Raster) (i : ℕ) → i < raster_size p → (b : ℕ) × (raster_byte p i ≡ some b) × (b < 256)
unfolding raster_byte raster_size row_byte
raster_byte-lt p i h = elim (Option-cases (get_elem? p.rows (i / 32))) [
  | inl e ↦ (
    row_byte p.tail p.tail_size (i - 32 * length p.rows),
    rw (e, raster_byte) (ground arith),
    omega arith,
  )
  | inr (row, e) ↦ (row_byte row 32 (i % 32), rw (e, raster_byte) refl, omega arith)
]

channel-le : (c alpha : ℕ) → c ≤ 255 → alpha ≤ 15 → c * alpha / 15 ≤ 255
channel-le c alpha h a = let top : c * alpha ≤ 255 * 15 = grind arith in omega arith

cell-lt : (row col w h : ℕ) → row < h → col < w → row * w + col < w * h
cell-lt row col w h p q = grind arith

shade-OnScreen :
    (color alpha : ℕ) (px py : ℤ)
    → alpha ≤ 15
    → on_screen alpha px py ≡ true
    → OnScreen (shade color alpha px py)
unfolding shade on_screen
shade-OnScreen color alpha px py a h = record {
  left = ground arith;
  right = ground arith;
  top = ground arith;
  bottom = ground arith;
  red = channel-le (color / 2 ^ 16 % 256) alpha (omega arith) a;
  green = channel-le (color / 2 ^ 8 % 256) alpha (omega arith) a;
  blue = channel-le (color % 256) alpha (omega arith) a;
}

alpha_of-le : (index packed : ℕ) → packed < 256 → alpha_of index packed ≤ 15
alpha_of-le index packed b = ground arith

draw_cell-Draws :
    (font : SmoothFont) (g : SmoothGlyph) (color : ℕ) (x y : ℤ) (row col : ℕ)
    → Fits font.pixels g
    → row < g.height
    → col < g.width
    → Draws (draw_cell font g color x y row col)
unfolding draw_cell
draw_cell-Draws font g color x y row col fits hr hc =
    let (packed, e, b) =
      raster_byte-lt font.pixels (g.offset + (row * g.width + col) / 2)
        (omega (arith, cell-lt row col g.width g.height hr hc)) in
    let alpha = alpha_of (row * g.width + col) packed in
    let px = x +ℤ g.left +ℤ pos col in
    let py = y +ℤ pos font.ascent +ℤ g.top +ℤ pos row in
    rw (e, draw_cell)
      (elim (Bool-cases (on_screen alpha px py)) [
        | inl seen ↦ (
          shade color alpha px py ∷ [],
          rw seen refl,
          (shade-OnScreen color alpha px py (alpha_of-le (row * g.width + col) packed b) seen, tt),
        )
        | inr hidden ↦ ([], rw hidden refl, tt)
      ])

draw_row-Draws :
    (font : SmoothFont) (g : SmoothGlyph) (color : ℕ) (x y : ℤ) (row n col : ℕ)
    → Fits font.pixels g
    → row < g.height
    → col + n ≤ g.width
    → Draws (draw_row font g color x y row n col)
unfolding draw_row
draw_row-Draws font g color x y row zero col fits hr hc = ([], refl, tt)
draw_row-Draws font g color x y row (suc n) col fits hr hc =
    after-Draws _ _ (draw_cell-Draws font g color x y row col fits hr (omega arith))
      (draw_row-Draws font g color x y row n (col + 1) fits hr (omega arith))

draw_rows-Draws :
    (font : SmoothFont) (g : SmoothGlyph) (color : ℕ) (x y : ℤ) (n row : ℕ)
    → Fits font.pixels g
    → row + n ≤ g.height
    → Draws (draw_rows font g color x y n row)
unfolding draw_rows
draw_rows-Draws font g color x y zero row fits hr = ([], refl, tt)
draw_rows-Draws font g color x y (suc n) row fits hr =
    after-Draws _ _ (draw_row-Draws font g color x y row g.width 0 fits (omega arith) (omega arith))
      (draw_rows-Draws font g color x y n (row + 1) fits (omega arith))

search_glyph-Fits :
    (p : Raster) (n : ℕ) (gs : List SmoothGlyph) (code : ℕ) (g : SmoothGlyph)
    → AllFit p gs
    → search_glyph n gs code ≡ some g
    → Fits p g
unfolding search_glyph
search_glyph-Fits p zero gs code g a e = cc
search_glyph-Fits p (suc n) [] code g a e = cc
search_glyph-Fits p (suc n) (h ∷ gs) code g a e = elim (Bool-cases (h.code == code)) [
  | inl hit ↦ let same : h ≡ g = ground arith in subst (Fits p) same a.0
  | inr miss ↦ search_glyph-Fits p n gs code g a.1 (rw miss at e)
]

draw_glyphs-Draws :
    (font : SmoothFont) (color : ℕ) (x y : ℤ) (text : Bytes)
    → AllFit font.pixels font.glyphs
    → Draws (draw_glyphs font color x y text)
unfolding draw_glyphs find_glyph
draw_glyphs-Draws font color x y [] a = ([], refl, tt)
draw_glyphs-Draws font color x y (ch ∷ text) a = elim (Option-cases (find_glyph font ch)) [
  | inl e ↦ rw (e, draw_glyphs) (draw_glyphs-Draws font color x y text a)
  | inr (g, e) ↦
      rw (e, draw_glyphs)
        (after-Draws _ _
          (draw_rows-Draws font g color x y g.height 0
            (search_glyph-Fits font.pixels font.count font.glyphs ch g a e) (omega arith))
          (draw_glyphs-Draws font color (x +ℤ pos g.advance) y text a))
]

-- The fonts that the screen is drawn with.
pub data PanelFont : SmoothFont → Type 0 where
  clock : PanelFont clock_font
  value : PanelFont value_font
  label : PanelFont label_font
  status : PanelFont status_font

PanelFont-AllFit : {font : SmoothFont} → PanelFont font → AllFit font.pixels font.glyphs
unfolding clock_font value_font label_font status_font raster_size
PanelFont-AllFit clock = omega arith
PanelFont-AllFit value = omega arith
PanelFont-AllFit label = omega arith
PanelFont-AllFit status = omega arith

-- Whatever text is drawn with a font of the panel, anywhere and in any colour, the drawing comes to
-- its end without a read behind the pixel array, and sets only pixels of the screen, with colours
-- of three bytes.
pub draw_text-Draws :
    {font : SmoothFont}
    → PanelFont font
    → (text : Bytes) (center y : ℤ) (color : ℕ) → Draws (draw_text font text center y color)
unfolding draw_text
draw_text-Draws {font} f text center y color =
    draw_glyphs-Draws font color _ y text (PanelFont-AllFit f)
