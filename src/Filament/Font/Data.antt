-- ===== src/Filament/Font/Data.antt =====
-- The four fonts of giga-filament/smooth_font.h: the pixel arrays, the glyph tables and the fonts.
use house_panel.Filament.Font.ClockPixelsA.{clock_pixels_a}
use house_panel.Filament.Font.ClockPixelsB.{clock_pixels_b}
use house_panel.Filament.Font.ClockPixelsC.{clock_pixels_c}
use house_panel.Filament.Font.ClockPixelsD.{clock_pixels_d}
use house_panel.Filament.Font.ClockPixelsE.{clock_pixels_e}
use house_panel.Filament.Font.ValuePixelsA.{value_pixels_a}
use house_panel.Filament.Font.ValuePixelsB.{value_pixels_b}
use house_panel.Filament.Font.ValuePixelsC.{value_pixels_c}
use house_panel.Filament.Font.ValuePixelsD.{value_pixels_d}
use house_panel.Filament.Font.LabelPixelsA.{label_pixels_a}
use house_panel.Filament.Font.StatusPixelsA.{status_pixels_a}
use house_panel.Base.{List, [], ◌∷◌, ◌++◌}
use house_panel.Base.Int.{pos, neg}
use house_panel.Filament.Font.{Raster, SmoothGlyph, SmoothFont, glyph}

unfoldable pub clock_font_pixels : Raster
unfolding clock_pixels_a clock_pixels_b clock_pixels_c clock_pixels_d clock_pixels_e
clock_font_pixels = record {
  rows =
      (clock_pixels_a
        ++ (clock_pixels_b ++ (clock_pixels_c ++ (clock_pixels_d ++ (clock_pixels_e)))));
  tail = 0xdfffffc10000000000000000019dfd810000000000;
  tail_size = 21;
}

unfoldable pub clock_font_glyphs : List SmoothGlyph
clock_font_glyphs =
    glyph 45 (pos 0) (neg 33) 38 33 38 0
    ∷ glyph 48 (pos 0) (neg 75) 60 76 60 627
    ∷ glyph 49 (pos 0) (neg 74) 60 74 60 2907
    ∷ glyph 50 (pos 0) (neg 75) 60 75 60 5127
    ∷ glyph 51 (pos 0) (neg 75) 60 76 60 7377
    ∷ glyph 52 (pos 0) (neg 74) 60 74 60 9657
    ∷ glyph 53 (pos 0) (neg 74) 60 75 60 11877
    ∷ glyph 54 (pos 0) (neg 74) 60 75 60 14127
    ∷ glyph 55 (pos 0) (neg 74) 60 74 60 16377
    ∷ glyph 56 (pos 0) (neg 75) 60 76 60 18597
    ∷ glyph 57 (pos 0) (neg 75) 60 75 60 20877
    ∷ glyph 58 (pos 0) (neg 50) 25 51 25 23127
    ∷ []

unfoldable pub clock_font : SmoothFont
unfolding clock_font_glyphs clock_font_pixels
clock_font = record {
  glyphs = clock_font_glyphs;
  pixels = clock_font_pixels;
  count = 12;
  ascent = 103;
}

unfoldable pub value_font_pixels : Raster
unfolding value_pixels_a value_pixels_b value_pixels_c value_pixels_d
value_font_pixels = record {
  rows = (value_pixels_a ++ (value_pixels_b ++ (value_pixels_c ++ (value_pixels_d))));
  tail = 0x000000000000000000000000000000000000000000000000000000000000;
  tail_size = 30;
}

unfoldable pub value_font_glyphs : List SmoothGlyph
value_font_glyphs =
    glyph 32 (pos 0) (pos 0) 18 0 18 0
    ∷ glyph 37 (pos 0) (neg 53) 58 54 58 0
    ∷ glyph 45 (pos 0) (neg 24) 27 24 27 1566
    ∷ glyph 46 (pos 0) (neg 8) 17 9 17 1890
    ∷ glyph 48 (pos 0) (neg 53) 42 54 42 1967
    ∷ glyph 49 (pos 0) (neg 52) 42 52 42 3101
    ∷ glyph 50 (pos 0) (neg 53) 42 53 42 4193
    ∷ glyph 51 (pos 0) (neg 53) 42 54 42 5306
    ∷ glyph 52 (pos 0) (neg 52) 42 52 42 6440
    ∷ glyph 53 (pos 0) (neg 52) 42 53 42 7532
    ∷ glyph 54 (pos 0) (neg 52) 42 53 42 8645
    ∷ glyph 55 (pos 0) (neg 52) 42 52 42 9758
    ∷ glyph 56 (pos 0) (neg 53) 42 54 42 10850
    ∷ glyph 57 (pos 0) (neg 53) 42 53 42 11984
    ∷ glyph 67 (pos 0) (neg 53) 48 54 48 13097
    ∷ glyph 70 (pos 0) (neg 52) 41 52 41 14393
    ∷ glyph 176 (pos 0) (neg 53) 30 53 30 15459
    ∷ []

unfoldable pub value_font : SmoothFont
unfolding value_font_glyphs value_font_pixels
value_font = record {
  glyphs = value_font_glyphs;
  pixels = value_font_pixels;
  count = 17;
  ascent = 72;
}

unfoldable pub label_font_pixels : Raster
unfolding label_pixels_a
label_font_pixels = record {
  rows = (label_pixels_a);
  tail = 0x0000000000afa0000000;
  tail_size = 10;
}

unfoldable pub label_font_glyphs : List SmoothGlyph
label_font_glyphs =
    glyph 32 (pos 0) (pos 0) 6 0 6 0
    ∷ glyph 45 (pos 0) (neg 8) 9 8 9 0
    ∷ glyph 48 (pos 0) (neg 17) 14 17 14 36
    ∷ glyph 49 (pos 0) (neg 17) 14 17 14 155
    ∷ glyph 50 (pos 0) (neg 17) 14 17 14 274
    ∷ glyph 51 (pos 0) (neg 17) 14 17 14 393
    ∷ glyph 52 (pos 0) (neg 17) 14 17 14 512
    ∷ glyph 53 (pos 0) (neg 17) 14 17 14 631
    ∷ glyph 54 (pos 0) (neg 17) 14 17 14 750
    ∷ glyph 55 (pos 0) (neg 17) 14 17 14 869
    ∷ glyph 56 (pos 0) (neg 17) 14 17 14 988
    ∷ glyph 57 (pos 0) (neg 17) 14 17 14 1107
    ∷ glyph 65 (pos 0) (neg 17) 17 17 16 1226
    ∷ glyph 66 (pos 0) (neg 17) 16 17 16 1371
    ∷ glyph 68 (pos 0) (neg 17) 18 17 18 1507
    ∷ glyph 69 (pos 0) (neg 17) 14 17 14 1660
    ∷ glyph 70 (pos 0) (neg 17) 14 17 14 1779
    ∷ glyph 72 (pos 0) (neg 17) 18 17 18 1898
    ∷ glyph 73 (pos 0) (neg 17) 7 17 7 2051
    ∷ glyph 76 (pos 0) (neg 17) 12 17 12 2111
    ∷ glyph 77 (pos 0) (neg 17) 22 17 22 2213
    ∷ glyph 78 (pos 0) (neg 17) 18 17 18 2400
    ∷ glyph 79 (pos 0) (neg 17) 19 17 19 2553
    ∷ glyph 80 (pos 0) (neg 17) 14 17 14 2715
    ∷ glyph 82 (pos 0) (neg 17) 15 17 15 2834
    ∷ glyph 84 (pos 0) (neg 17) 14 17 14 2962
    ∷ glyph 85 (pos 0) (neg 17) 18 17 18 3081
    ∷ glyph 88 (pos 0) (neg 17) 16 17 16 3234
    ∷ glyph 89 (pos 0) (neg 17) 15 17 15 3370
    ∷ []

unfoldable pub label_font : SmoothFont
unfolding label_font_glyphs label_font_pixels
label_font = record {
  glyphs = label_font_glyphs;
  pixels = label_font_pixels;
  count = 29;
  ascent = 24;
}

unfoldable pub status_font_pixels : Raster
unfolding status_pixels_a
status_font_pixels = record {
  rows = (status_pixels_a);
  tail = 0x00000000cff3000000006fc00000;
  tail_size = 14;
}

unfoldable pub status_font_glyphs : List SmoothGlyph
status_font_glyphs =
    glyph 32 (pos 0) (pos 0) 6 0 6 0
    ∷ glyph 46 (pos 0) (neg 2) 5 2 5 0
    ∷ glyph 67 (pos 0) (neg 15) 15 15 15 5
    ∷ glyph 76 (pos 0) (neg 15) 11 15 11 118
    ∷ glyph 87 (pos 0) (neg 15) 23 15 23 201
    ∷ glyph 97 (pos 0) (neg 11) 11 11 11 374
    ∷ glyph 99 (pos 0) (neg 11) 11 11 10 435
    ∷ glyph 100 (pos 0) (neg 16) 12 16 12 496
    ∷ glyph 101 (pos 0) (neg 11) 12 11 12 592
    ∷ glyph 102 (pos 0) (neg 15) 8 15 8 658
    ∷ glyph 103 (pos 0) (neg 11) 11 15 11 718
    ∷ glyph 104 (pos 0) (neg 16) 12 16 12 801
    ∷ glyph 105 (pos 0) (neg 16) 5 16 5 897
    ∷ glyph 110 (pos 0) (neg 11) 12 11 12 937
    ∷ glyph 111 (pos 0) (neg 11) 12 11 12 1003
    ∷ glyph 114 (pos 0) (neg 11) 8 11 8 1069
    ∷ glyph 115 (pos 0) (neg 11) 10 11 10 1113
    ∷ glyph 116 (pos 0) (neg 15) 8 15 8 1168
    ∷ glyph 118 (pos 0) (neg 11) 12 11 11 1228
    ∷ []

unfoldable pub status_font : SmoothFont
unfolding status_font_glyphs status_font_pixels
status_font = record {
  glyphs = status_font_glyphs;
  pixels = status_font_pixels;
  count = 19;
  ascent = 22;
}
