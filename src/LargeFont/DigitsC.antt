-- ===== src/LargeFont/DigitsC.antt =====
-- montserrat_96.c, glyph_bitmap: lines 2828 to 3303, 32 bytes to a row, the first byte highest.
use house_panel.Base.{ℕ, List, [], ◌∷◌, ◌++◌}
use house_panel.Filament.Font.{Raster}

unfoldable pub four_upper : List ℕ
four_upper =
    0x0000000000000000000000000000000000178888888881000000000000000000
    ∷ 0x0000000000000000000000000000000cfffffffff90000000000000000000000
    ∷ 0x0000000000000000000000000008fffffffffc00000000000000000000000000
    ∷ 0x000000000000000000000005fffffffffe200000000000000000000000000000
    ∷ 0x00000000000000000002ffffffffff4000000000000000000000000000000000
    ∷ 0x0000000000000000dfffffffff70000000000000000000000000000000000000
    ∷ 0x000000000000afffffffffb00000000000000000000000000000000000000000
    ∷ 0x000000007fffffffffd100000000000000000000000000000000000000000000
    ∷ 0x00004ffffffffff3000000000000000000000000000000000000000000000000
    ∷ 0x1efffffffff60000000000000000000000000000000000000000000000000cff
    ∷ 0xfffffff900000000000000000000000000000000000000000000000009ffffff
    ∷ 0xfffc00000000000000000000000000000000000000000000000006fffffffffe
    ∷ 0x10000000000000000000000000000000000000000000000003ffffffffff4000
    ∷ 0x0000000000000000000000000000000000000000000001efffffffff70000000
    ∷ 0x000000000000000000000000000000000000000000bfffffffffb00000000000
    ∷ 0x000000000000000000000000000000000000008fffffffffd100000000000000
    ∷ 0x00000000000000000000000000000000005ffffffffff3000000000000000000
    ∷ 0x0000000000000000000000000000002ffffffffff50000000000000000000000
    ∷ 0x000000000000000000000000000dfffffffff900000000000000000000000000
    ∷ 0x00000000000000000000000afffffffffc000000000000000000000000000000
    ∷ 0x00000000000000000007fffffffffe1000000000000000000000000000000000
    ∷ 0x0000000000000004ffffffffff40000000000000000000000000000000000000
    ∷ 0x000000000001efffffffff700000000000000000000000000000000000000000
    ∷ 0x00000000cfffffffffb000000000000000000000000000000000000000000000
    ∷ 0x00009fffffffffd0000000000000000000000000000000000000000000000000
    ∷ 0x6ffffffffff20000000000000000000000000000000000000000000000003fff
    ∷ 0xfffffff50000000000000000000000000000000000000000000000001dffffff
    ∷ 0xfff900000000000000bffffffff40000000000000000000000000bfffffffffc
    ∷ 0x000000000000000bffffffff40000000000000000000000008fffffffffe1000
    ∷ 0x000000000000bffffffff4000000000000000000000004ffffffffff40000000
    ∷ 0x000000000bffffffff400000000000000000000002ffffffffff700000000000
    ∷ 0x000000bffffffff40000000000000000000000dfffffffffb000000000000000
    ∷ 0x000bffffffff4000000000000000000000afffffffffd0000000000000000000
    ∷ 0xbffffffff4000000000000000000007ffffffffff20000000000000000000bff
    ∷ 0xffffff400000000000000000003ffffffffff500000000000000000000bfffff
    ∷ 0xfff40000000000000000001efffffffff9000000000000000000000bffffffff
    ∷ 0x4000000000000000000cfffffffffc0000000000000000000000bffffffff400 ∷ []

unfoldable pub four_bitmap : Raster
unfolding four_upper
four_bitmap = record {
  rows =
      four_upper
      ++ (0x0000000000000009fffffffffe10000000000000000000000bffffffff400000
          ∷ 0x000000000005ffffffffff400000000000000000000000bffffffff400000000
          ∷ 0x00000002ffffffffff7000000000000000000000000bffffffff400000000000
          ∷ 0x0001dfffffffffc3333333333333333333333333cffffffff733333333333300
          ∷ 0xbffffffffffffffffffffffffffffffffffffffffffffffffffffffffff15fff
          ∷ 0xffffffffffffffffffffffffffffffffffffffffffffffffffffffff15ffffff
          ∷ 0xfffffffffffffffffffffffffffffffffffffffffffffffffffff15fffffffff
          ∷ 0xffffffffffffffffffffffffffffffffffffffffffffffffff15ffffffffffff
          ∷ 0xfffffffffffffffffffffffffffffffffffffffffffffff15fffffffffffffff
          ∷ 0xffffffffffffffffffffffffffffffffffffffffffff15ffffffffffffffffff
          ∷ 0xfffffffffffffffffffffffffffffffffffffffff15fffffffffffffffffffff
          ∷ 0xffffffffffffffffffffffffffffffffffffff10000000000000000000000000
          ∷ 0x0000000000000fffffffff400000000000000000000000000000000000000000
          ∷ 0x0000000000fffffffff400000000000000000000000000000000000000000000
          ∷ 0x0000000fffffffff400000000000000000000000000000000000000000000000
          ∷ 0x0000fffffffff400000000000000000000000000000000000000000000000000
          ∷ 0x0fffffffff4000000000000000000000000000000000000000000000000000ff
          ∷ 0xfffffff4000000000000000000000000000000000000000000000000000fffff
          ∷ 0xffff4000000000000000000000000000000000000000000000000000ffffffff
          ∷ 0xf4000000000000000000000000000000000000000000000000000fffffffff40
          ∷ 0x00000000000000000000000000000000000000000000000000fffffffff40000
          ∷ 0x00000000000000000000000000000000000000000000000fffffffff40000000
          ∷ 0x00000000000000000000000000000000000000000000fffffffff40000000000
          ∷ 0x00000000000000000000000000000000000000000fffffffff40000000000000
          ∷ 0x00000000000000000000000000000000000000fffffffff40000000000000000
          ∷ 0x00000000000000000000000000000000000fffffffff40000000000000000000 ∷ []);
  tail = 0x00000000000000000000000000000000fffffffff400000000000000;
  tail_size = 28;
}

unfoldable pub five_upper : List ℕ
five_upper =
    0x000000000ffffffffffffffffffffffffffffffffffffff0000000000001ffff
    ∷ 0xffffffffffffffffffffffffffffffffff0000000000002fffffffffffffffff
    ∷ 0xfffffffffffffffffffff0000000000004ffffffffffffffffffffffffffffff
    ∷ 0xffffffff0000000000006ffffffffffffffffffffffffffffffffffffff00000
    ∷ 0x00000007ffffffffffffffffffffffffffffffffffffff0000000000009fffff
    ∷ 0xfffffffffffffffffffffffffffffffff000000000000affffffffffffffffff
    ∷ 0xffffffffffffffffffff000000000000cffffffff54444444444444444444444
    ∷ 0x4444444000000000000effffffff000000000000000000000000000000000000
    ∷ 0x000000ffffffffe000000000000000000000000000000000000000001fffffff
    ∷ 0xfd000000000000000000000000000000000000000003ffffffffb00000000000
    ∷ 0x0000000000000000000000000000004ffffffff9000000000000000000000000
    ∷ 0x000000000000000006ffffffff80000000000000000000000000000000000000
    ∷ 0x00007ffffffff6000000000000000000000000000000000000000009ffffffff
    ∷ 0x500000000000000000000000000000000000000000bffffffff3000000000000
    ∷ 0x00000000000000000000000000000cffffffff20000000000000000000000000
    ∷ 0x0000000000000000effffffff000000000000000000000000000000000000000
    ∷ 0x000ffffffffe000000000000000000000000000000000000000001ffffffffd0
    ∷ 0x00000000000000000000000000000000000000003ffffffffb00000000000000
    ∷ 0x0000000000000000000000000004ffffffffa000000000000000000000000000
    ∷ 0x000000000000006ffffffff80000000000000000000000000000000000000000
    ∷ 0x08ffffffff6000000000000000000000000000000000000000009ffffffff844
    ∷ 0x444444433100000000000000000000000000000bfffffffffffffffffffffffd
    ∷ 0xa8510000000000000000000000dffffffffffffffffffffffffffffe94000000
    ∷ 0x0000000000000efffffffffffffffffffffffffffffffe810000000000000000
    ∷ 0xfffffffffffffffffffffffffffffffffff8000000000000001fffffffffffff
    ∷ 0xfffffffffffffffffffffffe40000000000003ffffffffffffffffffffffffff
    ∷ 0xffffffffffff7000000000005fffffffffffffffffffffffffffffffffffffff
    ∷ 0x800000000006ffffffffffffffffffffffffffffffffffffffff700000000000
    ∷ 0x0000000000000000012457adffffffffffffffff400000000000000000000000
    ∷ 0x0000000000015afffffffffffffe100000000000000000000000000000000000
    ∷ 0x018ffffffffffff8000000000000000000000000000000000000002cffffffff
    ∷ 0xfff1000000000000000000000000000000000000000bffffffffff7000000000
    ∷ 0x0000000000000000000000000000000dfffffffffd0000000000000000000000
    ∷ 0x0000000000000000004ffffffffff10000000000000000000000000000000000
    ∷ 0x000000cfffffffff500000000000000000000000000000000000000006ffffff
    ∷ 0xfff700000000000000000000000000000000000000002fffffffffa000000000
    ∷ 0x00000000000000000000000000000000fffffffffb0000000000000000000000 ∷ []

unfoldable pub five_bitmap : Raster
unfolding five_upper
five_bitmap = record {
  rows =
      five_upper
      ++ (0x0000000000000000000effffffffb00000000000000000000000000000000000
          ∷ 0x000000effffffffb00000000000000000000000000000000000000000fffffff
          ∷ 0xffa00000000000000000000000000000000000000001fffffffff90000000000
          ∷ 0x0000000000000000000000000000005fffffffff600000000000000000000000
          ∷ 0x00000000000000000afffffffff300005b000000000000000000000000000000
          ∷ 0x0002ffffffffff00000dfd20000000000000000000000000000000cfffffffff
          ∷ 0xa00007ffff8000000000000000000000000000009ffffffffff40001ffffffe6
          ∷ 0x000000000000000000000000009ffffffffffd0000affffffffe710000000000
          ∷ 0x000000000004dfffffffffff50004ffffffffffffb6100000000000000005bff
          ∷ 0xffffffffffc0000dfffffffffffffffea753100001258bfffffffffffffff200
          ∷ 0x02effffffffffffffffffffffffffffffffffffffffffff5000002dfffffffff
          ∷ 0xfffffffffffffffffffffffffffffffff6000000008fffffffffffffffffffff
          ∷ 0xfffffffffffffffffff600000000002cffffffffffffffffffffffffffffffff
          ∷ 0xffffe300000000000004bfffffffffffffffffffffffffffffffff9100000000
          ∷ 0x0000000039effffffffffffffffffffffffffffb200000000000000000000059
          ∷ 0xeffffffffffffffffffffffe8200000000000000000000000000269cffffffff
          ∷ 0xffffffeb73000000000000000000000000000000000013566777654200000000 ∷ []);
  tail = 0x000000000000;
  tail_size = 6;
}
