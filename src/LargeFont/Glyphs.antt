-- ===== src/LargeFont/Glyphs.antt =====
-- montserrat_96.c: the descriptors of the glyphs, in the order of their ids.
use house_panel.Base.{List, [], ◌∷◌}
use house_panel.Base.Int.{pos, neg}
use house_panel.LargeFont.{GlyphDsc, glyph_of}

unfoldable pub glyph_dsc : List GlyphDsc
glyph_dsc =
    glyph_of 0 0 0 0 (pos 0) (pos 0)
    ∷ glyph_of 0 413 0 0 (pos 0) (pos 0)
    ∷ glyph_of 0 412 14 68 (pos 6) (neg 1)
    ∷ glyph_of 476 601 26 26 (pos 6) (pos 41)
    ∷ glyph_of 814 1080 63 67 (pos 2) (pos 0)
    ∷ glyph_of 2925 954 53 90 (pos 3) (neg 12)
    ∷ glyph_of 5310 1295 75 69 (pos 3) (neg 1)
    ∷ glyph_of 7898 1054 61 69 (pos 4) (neg 1)
    ∷ glyph_of 10003 323 9 26 (pos 6) (pos 41)
    ∷ glyph_of 10120 518 21 89 (pos 9) (neg 18)
    ∷ glyph_of 11055 519 21 89 (pos 3) (neg 18)
    ∷ glyph_of 11990 614 36 36 (pos 1) (pos 35)
    ∷ glyph_of 12638 894 44 42 (pos 6) (pos 12)
    ∷ glyph_of 13562 349 14 27 (pos 4) (neg 14)
    ∷ glyph_of 13751 588 27 8 (pos 5) (pos 22)
    ∷ glyph_of 13859 349 14 14 (pos 4) (neg 1)
    ∷ glyph_of 13957 541 41 90 (neg 3) (neg 10)
    ∷ glyph_of 15802 1025 56 69 (pos 4) (neg 1)
    ∷ glyph_of 17734 568 26 67 (pos 0) (pos 0)
    ∷ glyph_of 18605 882 51 68 (pos 1) (pos 0)
    ∷ glyph_of 20339 879 51 68 (pos 0) (neg 1)
    ∷ glyph_of 22073 1028 61 67 (pos 3) (pos 0)
    ∷ glyph_of 24117 882 51 68 (pos 1) (neg 1)
    ∷ glyph_of 25851 948 53 69 (pos 4) (neg 1)
    ∷ glyph_of 27680 919 52 67 (pos 2) (pos 0)
    ∷ glyph_of 29422 989 54 69 (pos 4) (neg 1)
    ∷ glyph_of 31285 948 53 69 (pos 2) (neg 1)
    ∷ glyph_of 33114 349 14 52 (pos 4) (neg 1)
    ∷ glyph_of 33478 349 14 65 (pos 4) (neg 14)
    ∷ glyph_of 33933 894 44 43 (pos 6) (pos 12)
    ∷ glyph_of 34879 894 44 30 (pos 6) (pos 18)
    ∷ glyph_of 35539 894 44 43 (pos 6) (pos 12)
    ∷ glyph_of 36485 880 49 69 (pos 0) (neg 1)
    ∷ glyph_of 38176 1588 91 87 (pos 4) (neg 19)
    ∷ glyph_of 42135 1124 72 67 (neg 1) (pos 0)
    ∷ glyph_of 44547 1163 58 67 (pos 10) (pos 0)
    ∷ glyph_of 46490 1111 62 69 (pos 4) (neg 1)
    ∷ glyph_of 48629 1269 65 67 (pos 10) (pos 0)
    ∷ glyph_of 50807 1029 49 67 (pos 10) (pos 0)
    ∷ glyph_of 52449 975 48 67 (pos 10) (pos 0)
    ∷ glyph_of 54057 1186 63 69 (pos 4) (neg 1)
    ∷ glyph_of 56231 1247 58 67 (pos 10) (pos 0)
    ∷ glyph_of 58174 476 10 67 (pos 10) (pos 0)
    ∷ glyph_of 58509 788 41 68 (neg 1) (neg 1)
    ∷ glyph_of 59903 1104 59 67 (pos 10) (pos 0)
    ∷ glyph_of 61880 912 47 67 (pos 10) (pos 0)
    ∷ glyph_of 63455 1467 72 67 (pos 10) (pos 0)
    ∷ glyph_of 65867 1247 58 67 (pos 10) (pos 0)
    ∷ glyph_of 67810 1290 73 69 (pos 4) (neg 1)
    ∷ glyph_of 70329 1109 55 67 (pos 10) (pos 0)
    ∷ glyph_of 72172 1290 76 82 (pos 4) (neg 14)
    ∷ glyph_of 75288 1117 56 67 (pos 10) (pos 0)
    ∷ glyph_of 77164 954 53 69 (pos 3) (neg 1)
    ∷ glyph_of 78993 902 56 67 (pos 0) (pos 0)
    ∷ glyph_of 80869 1215 58 68 (pos 9) (neg 1)
    ∷ glyph_of 82841 1094 70 67 (neg 1) (pos 0)
    ∷ glyph_of 85186 1730 103 67 (pos 3) (pos 0)
    ∷ glyph_of 88637 1034 63 67 (pos 1) (pos 0)
    ∷ glyph_of 90748 994 64 67 (neg 1) (pos 0)
    ∷ glyph_of 92892 1009 57 67 (pos 4) (pos 0)
    ∷ glyph_of 94802 511 21 89 (pos 10) (neg 18)
    ∷ glyph_of 95737 541 41 90 (neg 4) (neg 10)
    ∷ glyph_of 97582 511 21 89 (pos 1) (neg 18)
    ∷ glyph_of 98517 895 42 40 (pos 7) (pos 14)
    ∷ glyph_of 99357 768 48 6 (pos 0) (neg 6)
    ∷ glyph_of 99501 922 25 13 (pos 11) (pos 58)
    ∷ glyph_of 99664 919 46 52 (pos 4) (neg 1)
    ∷ glyph_of 100860 1048 54 72 (pos 8) (neg 1)
    ∷ glyph_of 102804 877 48 52 (pos 4) (neg 1)
    ∷ glyph_of 104052 1048 53 72 (pos 4) (neg 1)
    ∷ glyph_of 105960 940 51 52 (pos 4) (neg 1)
    ∷ glyph_of 107286 542 37 72 (pos 1) (pos 0)
    ∷ glyph_of 108618 1060 54 70 (pos 4) (neg 19)
    ∷ glyph_of 110508 1046 50 71 (pos 8) (pos 0)
    ∷ glyph_of 112283 429 13 72 (pos 7) (pos 0)
    ∷ glyph_of 112751 436 30 92 (neg 9) (neg 19)
    ∷ glyph_of 114131 946 51 71 (pos 8) (pos 0)
    ∷ glyph_of 115942 429 10 71 (pos 8) (pos 0)
    ∷ glyph_of 116297 1624 86 51 (pos 8) (pos 0)
    ∷ glyph_of 118490 1046 50 51 (pos 8) (pos 0)
    ∷ glyph_of 119765 975 53 52 (pos 4) (neg 1)
    ∷ glyph_of 121143 1048 54 69 (pos 8) (neg 18)
    ∷ glyph_of 123006 1048 53 69 (pos 4) (neg 18)
    ∷ glyph_of 124835 630 29 51 (pos 8) (pos 0)
    ∷ glyph_of 125575 770 44 52 (pos 2) (neg 1)
    ∷ glyph_of 126719 636 37 63 (pos 1) (neg 1)
    ∷ glyph_of 127885 1040 49 52 (pos 8) (neg 1)
    ∷ glyph_of 129159 859 55 51 (neg 1) (pos 0)
    ∷ glyph_of 130562 1381 86 51 (pos 0) (pos 0)
    ∷ glyph_of 132755 848 51 51 (pos 1) (pos 0)
    ∷ glyph_of 134056 859 57 70 (neg 3) (neg 19)
    ∷ glyph_of 136051 800 44 51 (pos 3) (pos 0)
    ∷ glyph_of 137173 539 27 89 (pos 5) (neg 18)
    ∷ glyph_of 138375 459 9 89 (pos 10) (neg 18)
    ∷ glyph_of 138776 539 28 89 (pos 1) (neg 18)
    ∷ glyph_of 140022 894 46 17 (pos 5) (pos 25)
    ∷ []
