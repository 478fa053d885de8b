-- ===== src/LargeFont/Colon.antt =====
-- montserrat_96.c, glyph_bitmap: lines 4222 to 4268, 32 bytes to a row, the first byte highest.
use house_panel.Base.{[], ◌∷◌}
use house_panel.Filament.Font.{Raster}

unfoldable pub colon_bitmap : Raster
colon_bitmap = record {
  rows =
      0x00018dffc70000004effffffe20003fffffffffe100dffffffffff904fffffff
      ∷ 0xfffff07ffffffffffff38ffffffffffff47ffffffffffff34ffffffffffff00d
      ∷ 0xffffffffff9004fffffffffe10005fffffffd20000029effd800000000000000
      ∷ 0x0000000000000000000000000000000000000000000000000000000000000000
      ∷ 0x0000000000000000000000000000000000000000000000000000000000000000
      ∷ 0x0000000000000000000000000000000000000000000000000000000000000000
      ∷ 0x0000000000000000000000000000000000000000000000000000000000000000
      ∷ 0x0000000000000000000000000000000000000000000000000000000000000000
      ∷ 0x00000000000000000000000016885100000009ffffff700000cffffffffa0009
      ∷ 0xffffffffff602fffffffffffd06ffffffffffff28ffffffffffff38fffffffff
      ∷ 0xfff36ffffffffffff11fffffffffffc009ffffffffff4000bffffffff7000008 ∷ [];
  tail = 0xfffffe500000001577400000;
  tail_size = 12;
}
