-- ===== src/LargeFont/Tests.antt =====
-- The large font at single glyphs.
use house_panel.Base.{ℕ, ◌+◌, ◌-◌, ◌*◌, ◌/◌, ◌<◌, ◌≡◌, ◌≢◌, refl, some, arith, get_elem?}
use house_panel.Base.Int.{pos, neg, ◌+ℤ◌, ◌≤ℤ◌}
use house_panel.Filament.Font.{Raster, raster_size, raster_byte}
use house_panel.LargeFont.{GlyphDsc, glyph_of, line_height, base_line}
use house_panel.LargeFont.Glyphs.{glyph_dsc}
use house_panel.LargeFont.Kerning.{
  kern_left_class_mapping, kern_right_class_mapping, kern_class_values, right_class_cnt,
}
use house_panel.LargeFont.Layout.{
  bitmap_size, glyph_dsc_tiled, glyph_dsc_in_line, kern_classes_in_bounds,
}
use house_panel.LargeFont.DigitsA.{zero_bitmap}
use house_panel.LargeFont.Pixels.{read_parts, clock_parts, glyph_bitmap, clock_glyph_pixels}

-- "!" and the quotation mark
abbrev exclamation : GlyphDsc
exclamation = glyph_of 0 412 14 68 (pos 6) (neg 1)

abbrev quotation : GlyphDsc
quotation = glyph_of 476 601 26 26 (pos 6) (pos 41)

glyph_dsc_tiled_example :
    quotation.bitmap_index ≡ exclamation.bitmap_index + bitmap_size exclamation
unfolding glyph_dsc
glyph_dsc_tiled_example = glyph_dsc_tiled 2 exclamation quotation refl refl

glyph_dsc_in_line_example :
    (neg base_line ≤ℤ exclamation.ofs_y)
    × (exclamation.ofs_y +ℤ pos exclamation.box_h ≤ℤ pos (line_height - base_line))
unfolding glyph_dsc
glyph_dsc_in_line_example = glyph_dsc_in_line 2 exclamation refl

kern_classes_in_bounds_example :
    (a : ℕ) × (b : ℕ) × (get_elem? kern_left_class_mapping 17 ≡ some a)
    × (get_elem? kern_right_class_mapping 95 ≡ some b)
    × (a ≢ 0
        → b ≢ 0
        → (v : ℕ) × (raster_byte kern_class_values ((a - 1) * right_class_cnt + (b - 1)) ≡ some v)
          × (v < 256))
unfolding glyph_dsc
kern_classes_in_bounds_example = kern_classes_in_bounds 17 95 (omega arith) (omega arith)

-- The last pixel of the "0" is in the last byte before the "1".
clock_glyph_pixels_example :
    (d : GlyphDsc) × (p : Raster) × (get_elem? glyph_dsc 17 ≡ some d)
    × (get_elem? clock_parts 0 ≡ some p)
    × (68 < d.box_h
        → 55 < d.box_w
        → (b : ℕ) × (glyph_bitmap (d.bitmap_index + (68 * d.box_w + 55) / 2) ≡ some b)
          × (raster_byte p ((68 * d.box_w + 55) / 2) ≡ some b)
          × (b < 256))
clock_glyph_pixels_example = clock_glyph_pixels 0 68 55 (omega arith)

last_byte_run : glyph_bitmap 17_733 ≡ raster_byte zero_bitmap 1931
unfolding glyph_bitmap read_parts clock_parts raster_size raster_byte zero_bitmap
last_byte_run = refl
