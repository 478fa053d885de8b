-- ===== src/Filament/Font.antt =====
-- smooth_font.h and the text drawing of giga-filament.ino: the types, `findGlyph` and `drawText`.
pub mod ClockPixelsA
pub mod ClockPixelsB
pub mod ClockPixelsC
pub mod ClockPixelsD
pub mod ClockPixelsE
pub mod ValuePixelsA
pub mod ValuePixelsB
pub mod ValuePixelsC
pub mod ValuePixelsD
pub mod LabelPixelsA
pub mod StatusPixelsA
pub mod Data
pub mod Safe
use house_panel.Base.{
  ℕ, zero, suc, ◌+◌, ◌-◌, ◌*◌, ◌/◌, ◌%◌, ◌^◌, ◌<◌, ◌≡◌, Bool, true, false, ◌&&◌, not, Option, none,
  some, List, [], ◌∷◌, ◌++◌, bit_and, ltb, ◌==◌, if◌then◌else◌, Bytes, length, get_elem?,
}
use house_panel.Base.Int.{ℤ, pos, negsuc, ◌+ℤ◌, ◌-ℤ◌, ltb_ℤ}

-- An array of bytes in rows of 32, the first byte of a row highest, and a last row of `tail_size`.
pub record Raster : Type 0 where
  pub rows : List ℕ
  pub tail : ℕ
  pub tail_size : ℕ

unfoldable pub raster_size : Raster → ℕ
raster_size p = 32 * length p.rows + p.tail_size

-- Byte `i` of a row of `n` bytes.
row_byte : ℕ → ℕ → ℕ → ℕ
row_byte row n i = row / 256 ^ (n - 1 - i) % 256

-- `pixels[i]`; `none` is a read behind the end.
unfoldable pub raster_byte : Raster → ℕ → Option ℕ
unfolding row_byte
raster_byte p i = elim (get_elem? p.rows (i / 32)) [
  | some row ↦ some (row_byte row 32 (i % 32))
  | none ↦
      if ltb i (32 * length p.rows + p.tail_size)
      then some (row_byte p.tail p.tail_size (i - 32 * length p.rows))
      else none
]

pub record SmoothGlyph : Type 0 where
  pub code : ℕ
  pub left : ℤ
  pub top : ℤ
  pub width : ℕ
  pub height : ℕ
  pub advance : ℕ
  pub offset : ℕ

abbrev pub glyph : ℕ → ℤ → ℤ → ℕ → ℕ → ℕ → ℕ → SmoothGlyph
glyph code left top width height advance offset = record {
  code = code;
  left = left;
  top = top;
  width = width;
  height = height;
  advance = advance;
  offset = offset;
}

pub record SmoothFont : Type 0 where
  pub glyphs : List SmoothGlyph
  pub pixels : Raster
  pub count : ℕ
  pub ascent : ℕ

-- The first `count` entries of the table; `none` is the null pointer.
search_glyph : ℕ → List SmoothGlyph → ℕ → Option SmoothGlyph
search_glyph zero gs code = none
search_glyph (suc n) [] code = none
search_glyph (suc n) (g ∷ gs) code = if g.code == code then some g else search_glyph n gs code

unfoldable pub find_glyph : SmoothFont → ℕ → Option SmoothGlyph
unfolding search_glyph
find_glyph font code = search_glyph font.count font.glyphs code

-- The first loop of `drawText`, and the one of `drawScreen` over the date.
unfoldable pub text_width : SmoothFont → Bytes → ℕ
text_width font [] = 0
text_width font (ch ∷ text) =
    (elim (find_glyph font ch) [ none ↦ 0 | some g ↦ g.advance ]) + text_width font text

-- A call of `display.set`.
pub record Pixel : Type 0 where
  pub px : ℤ
  pub py : ℤ
  pub red : ℕ
  pub green : ℕ
  pub blue : ℕ

-- The two pixels of a byte, the first in the high half.
abbrev pub alpha_of : ℕ → ℕ → ℕ
alpha_of index packed = if index % 2 == 1 then packed % 16 else packed / 16

shade : ℕ → ℕ → ℤ → ℤ → Pixel
shade color alpha px py = record {
  px = px;
  py = py;
  red = color / 2 ^ 16 % 256 * alpha / 15;
  green = color / 2 ^ 8 % 256 * alpha / 15;
  blue = color % 256 * alpha / 15;
}

-- `alpha && px >= 0 && px < 800 && py >= 0 && py < 480`
on_screen : ℕ → ℤ → ℤ → Bool
on_screen alpha px py =
    not (alpha == 0)
    && not (ltb_ℤ px (pos 0))
    && ltb_ℤ px (pos 800)
    && not (ltb_ℤ py (pos 0))
    && ltb_ℤ py (pos 480)

-- The body of the loops over rows and columns; `none` is a read behind the pixels.
unfoldable pub draw_cell : SmoothFont → SmoothGlyph → ℕ → ℤ → ℤ → ℕ → ℕ → Option (List Pixel)
unfolding shade on_screen
draw_cell font g color x y row col =
    elim (raster_byte font.pixels (g.offset + (row * g.width + col) / 2)) [
      | none ↦ none
      | some packed ↦
          let alpha = alpha_of (row * g.width + col) packed in
          let px = x +ℤ g.left +ℤ pos col in
          let py = y +ℤ pos font.ascent +ℤ g.top +ℤ pos row in
          some (if on_screen alpha px py then shade color alpha px py ∷ [] else [])
    ]

-- Both lists of calls, the first one first.
abbrev pub after : Option (List Pixel) → Option (List Pixel) → Option (List Pixel)
after none q = none
after (some ps) none = none
after (some ps) (some qs) = some (ps ++ qs)

-- The columns from `col` on, `n` of them, and so the rows.
draw_row : SmoothFont → SmoothGlyph → ℕ → ℤ → ℤ → ℕ → ℕ → ℕ → Option (List Pixel)
draw_row font g color x y row zero col = some []
draw_row font g color x y row (suc n) col =
    after (draw_cell font g color x y row col) (draw_row font g color x y row n (col + 1))

draw_rows : SmoothFont → SmoothGlyph → ℕ → ℤ → ℤ → ℕ → ℕ → Option (List Pixel)
unfolding draw_row
draw_rows font g color x y zero row = some []
draw_rows font g color x y (suc n) row =
    after (draw_row font g color x y row g.width 0) (draw_rows font g color x y n (row + 1))

draw_glyphs : SmoothFont → ℕ → ℤ → ℤ → Bytes → Option (List Pixel)
unfolding draw_rows
draw_glyphs font color x y [] = some []
draw_glyphs font color x y (ch ∷ text) = elim (find_glyph font ch) [
  | none ↦ draw_glyphs font color x y text
  | some g ↦
      after (draw_rows font g color x y g.height 0)
        (draw_glyphs font color (x +ℤ pos g.advance) y text)
]

-- `int x = center - width / 2`
unfoldable pub draw_text : SmoothFont → Bytes → ℤ → ℤ → ℕ → Option (List Pixel)
unfolding draw_glyphs
draw_text font text center y color =
    draw_glyphs font color (center -ℤ pos (text_width font text / 2)) y text
