-- ===== src/LargeFont.antt =====
-- firmware/housepanel-giga/montserrat_96.c, the font of the large clock, which LVGL draws. The digits'
-- and the colon's bitmaps are here, and all the tables.
pub mod DigitsA
pub mod DigitsB
pub mod DigitsC
pub mod DigitsD
pub mod DigitsE
pub mod Colon
pub mod Glyphs
pub mod Kerning
pub mod Layout
pub mod Pixels
mod Tests
use house_panel.Base.{ℕ}
use house_panel.Base.Int.{ℤ}

-- lv_font_fmt_txt_glyph_dsc_t
pub record GlyphDsc : Type 0 where
  pub bitmap_index : ℕ
  pub adv_w : ℕ
  pub box_w : ℕ
  pub box_h : ℕ
  pub ofs_x : ℤ
  pub ofs_y : ℤ

abbrev pub glyph_of : ℕ → ℕ → ℕ → ℕ → ℤ → ℤ → GlyphDsc
glyph_of bitmap_index adv_w box_w box_h ofs_x ofs_y = record {
  bitmap_index = bitmap_index;
  adv_w = adv_w;
  box_w = box_w;
  box_h = box_h;
  ofs_x = ofs_x;
  ofs_y = ofs_y;
}

-- The one map of characters: codes from `range_start`, ids from `glyph_id_start`.
abbrev pub range_start : ℕ
range_start = 32

abbrev pub range_length : ℕ
range_length = 95

abbrev pub glyph_id_start : ℕ
glyph_id_start = 1

-- `montserrat_96`
abbrev pub line_height : ℕ
line_height = 99

abbrev pub base_line : ℕ
base_line = 19
