-- ===== src/LargeFont/Layout.antt =====
-- montserrat_96.c: the tables of the large font and each other.
use house_panel.Base.{
  ℕ, zero, suc, ◌+◌, ◌-◌, ◌*◌, ◌/◌, ◌<◌, ◌≡◌, refl, Bool, true, ◌&&◌, some, List, [], ◌∷◌, arith,
  leb, not, ◌≢◌, ◌==◌, length, get_elem?, every-at, leb→le, get_elem?-lt,
}
use house_panel.Base.Int.{pos, neg, ◌+ℤ◌, ◌≤ℤ◌, ltb_ℤ}
use house_panel.Filament.Font.{raster_size, raster_byte}
use house_panel.Filament.Font.Safe.{raster_byte-lt}
use house_panel.LargeFont.{GlyphDsc, line_height, base_line}
use house_panel.LargeFont.Glyphs.{glyph_dsc}
use house_panel.LargeFont.Kerning.{
  kern_left_class_mapping, kern_right_class_mapping, kern_values_a, kern_values_b, kern_values_c,
  kern_class_values, left_class_cnt, right_class_cnt,
}

-- The bytes of a glyph at four bits a pixel.
abbrev pub bitmap_size : GlyphDsc → ℕ
bitmap_size g = (g.box_w * g.box_h + 1) / 2

-- The second glyph's bitmap begins where the first one's ends.
tiled : List GlyphDsc → Bool
tiled [] = true
tiled (g ∷ gs) =
    elim gs [ [] ↦ true | h ∷ hs ↦ h.bitmap_index == g.bitmap_index + bitmap_size g ] && tiled gs

tiled-step :
    (gs : List GlyphDsc) (i : ℕ) (g h : GlyphDsc)
    → tiled gs ≡ true
    → get_elem? gs i ≡ some g
    → get_elem? gs (suc i) ≡ some h
    → h.bitmap_index ≡ g.bitmap_index + bitmap_size g
unfolding tiled
tiled-step [] i g h t e f = cc
tiled-step (a ∷ []) zero g h t e f = cc
tiled-step (a ∷ b ∷ gs) zero g h t e f = ground arith
tiled-step (a ∷ gs) (suc i) g h t e f = tiled-step gs i g h (ground arith) e f

-- The bitmaps stand one behind the other: each glyph's begins at the byte after the last one of the
-- glyph before.
pub glyph_dsc_tiled :
    (i : ℕ) (g h : GlyphDsc)
    → get_elem? glyph_dsc i ≡ some g
    → get_elem? glyph_dsc (suc i) ≡ some h
    → h.bitmap_index ≡ g.bitmap_index + bitmap_size g
unfolding tiled glyph_dsc
glyph_dsc_tiled i g h e f = tiled-step glyph_dsc i g h refl e f

in_line : GlyphDsc → Bool
in_line g =
    not (ltb_ℤ g.ofs_y (neg base_line))
    && not (ltb_ℤ (pos (line_height - base_line)) (g.ofs_y +ℤ pos g.box_h))

in_line-le :
    (g : GlyphDsc)
    → in_line g ≡ true
    → (neg base_line ≤ℤ g.ofs_y) × (g.ofs_y +ℤ pos g.box_h ≤ℤ pos (line_height - base_line))
unfolding in_line
in_line-le g h = ground arith

-- No glyph stands below the line's bottom or above its top: LVGL gives the line `line_height` rows,
-- `base_line` of them below the baseline.
pub glyph_dsc_in_line :
    (i : ℕ) (g : GlyphDsc)
    → get_elem? glyph_dsc i ≡ some g
    → (neg base_line ≤ℤ g.ofs_y) × (g.ofs_y +ℤ pos g.box_h ≤ℤ pos (line_height - base_line))
unfolding in_line glyph_dsc ◌+ℤ◌
glyph_dsc_in_line i g e = in_line-le g (every-at in_line glyph_dsc i g refl e)

left_ok : ℕ → Bool
left_ok c = leb c left_class_cnt

right_ok : ℕ → Bool
right_ok c = leb c right_class_cnt

values_size : raster_size kern_class_values ≡ left_class_cnt * right_class_cnt
unfolding raster_size kern_class_values kern_values_a kern_values_b kern_values_c
values_size = refl

-- Each glyph has a left and a right class, and for two classes other than 0 the table has a value: the
-- index of a pair never leaves the array.
pub kern_classes_in_bounds :
    (l r : ℕ)
    → l < length glyph_dsc
    → r < length glyph_dsc
    → (a : ℕ) × (b : ℕ) × (get_elem? kern_left_class_mapping l ≡ some a)
      × (get_elem? kern_right_class_mapping r ≡ some b)
      × (a ≢ 0
          → b ≢ 0
          → (v : ℕ) × (raster_byte kern_class_values ((a - 1) * right_class_cnt + (b - 1)) ≡ some v)
            × (v < 256))
unfolding glyph_dsc kern_left_class_mapping kern_right_class_mapping left_ok right_ok
kern_classes_in_bounds l r hl hr =
    let (a, e) = get_elem?-lt kern_left_class_mapping l (omega arith) in
    let (b, f) = get_elem?-lt kern_right_class_mapping r (omega arith) in
    let low = leb→le a left_class_cnt (every-at left_ok kern_left_class_mapping l a refl e) in
    let high = leb→le b right_class_cnt (every-at right_ok kern_right_class_mapping r b refl f) in
    (
      a,
      b,
      e,
      f,
      λ ha hb.
          raster_byte-lt kern_class_values ((a - 1) * right_class_cnt + (b - 1))
            (omega (arith, values_size)),
    )
