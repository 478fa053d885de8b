-- ===== src/LargeFont/DigitsA.antt =====
-- montserrat_96.c, glyph_bitmap: lines 2035 to 2388, 32 bytes to a row, the first byte highest.
use house_panel.Base.{ℕ, List, [], ◌∷◌, ◌++◌}
use house_panel.Filament.Font.{Raster}

unfoldable pub zero_upper : List ℕ
zero_upper =
    0x000000000000000000000379cdffffeca7300000000000000000000000000000
    ∷ 0x00000000004affffffffffffffffa40000000000000000000000000000000000
    ∷ 0x6dffffffffffffffffffffd60000000000000000000000000000004dffffffff
    ∷ 0xffffffffffffffffd40000000000000000000000000009ffffffffffffffffff
    ∷ 0xffffffffffa0000000000000000000000002cfffffffffffffffffffffffffff
    ∷ 0xfffd20000000000000000000003efffffffffffffffffffffffffffffffff300
    ∷ 0x000000000000000003ffffffffffffffffffffffffffffffffffff3000000000
    ∷ 0x000000002effffffffffffffda9889adffffffffffffffe20000000000000000
    ∷ 0xeffffffffffffc610000000016cffffffffffffe100000000000000affffffff
    ∷ 0xfffd4000000000000004dfffffffffffa00000000000005fffffffffff900000
    ∷ 0x00000000000008fffffffffff6000000000001fffffffffff600000000000000
    ∷ 0x0000005fffffffffff100000000009ffffffffff600000000000000000000005
    ∷ 0xffffffffff90000000002ffffffffff80000000000000000000000008fffffff
    ∷ 0xfff200000000afffffffffc00000000000000000000000000cfffffffffa0000
    ∷ 0x0001ffffffffff2000000000000000000000000002ffffffffff10000007ffff
    ∷ 0xfffff900000000000000000000000000008fffffffff7000000dfffffffff100
    ∷ 0x000000000000000000000000001fffffffffd000003fffffffffa00000000000
    ∷ 0x00000000000000000009fffffffff300008fffffffff30000000000000000000
    ∷ 0x000000000003fffffffff80000cffffffffe0000000000000000000000000000
    ∷ 0x0000effffffffc0000fffffffff9000000000000000000000000000000009fff
    ∷ 0xffffff1004fffffffff5000000000000000000000000000000005fffffffff50
    ∷ 0x08fffffffff2000000000000000000000000000000001fffffffff800affffff
    ∷ 0xffe0000000000000000000000000000000000effffffffb00cffffffffc00000
    ∷ 0x00000000000000000000000000000bffffffffd00fffffffffa0000000000000
    ∷ 0x0000000000000000000009fffffffff01fffffffff7000000000000000000000
    ∷ 0x00000000000007fffffffff13fffffffff600000000000000000000000000000
    ∷ 0x000006fffffffff33fffffffff500000000000000000000000000000000004ff
    ∷ 0xfffffff44fffffffff400000000000000000000000000000000003fffffffff4
    ∷ 0x5fffffffff300000000000000000000000000000000003fffffffff55fffffff
    ∷ 0xff300000000000000000000000000000000003fffffffff66fffffffff300000
    ∷ 0x000000000000000000000000000002fffffffff65fffffffff30000000000000
    ∷ 0x0000000000000000000003fffffffff54fffffffff4000000000000000000000
    ∷ 0x00000000000003fffffffff54fffffffff400000000000000000000000000000
    ∷ 0x000004fffffffff43fffffffff500000000000000000000000000000000005ff
    ∷ 0xfffffff32fffffffff700000000000000000000000000000000006fffffffff2
    ∷ 0x0fffffffff800000000000000000000000000000000008fffffffff00effffff
    ∷ 0xffb0000000000000000000000000000000000affffffffe00bffffffffd00000 ∷ []

unfoldable pub zero_bitmap : Raster
unfolding zero_upper
zero_bitmap = record {
  rows =
      zero_upper
      ++ (0x00000000000000000000000000000dffffffffc009fffffffff0000000000000
          ∷ 0x000000000000000000000fffffffff9006fffffffff300000000000000000000
          ∷ 0x0000000000003fffffffff7002fffffffff70000000000000000000000000000
          ∷ 0x00007fffffffff3000effffffffc00000000000000000000000000000000bfff
          ∷ 0xfffffe0000afffffffff10000000000000000000000000000001fffffffffb00
          ∷ 0x006fffffffff70000000000000000000000000000006fffffffff600001fffff
          ∷ 0xffffd000000000000000000000000000000dfffffffff100000afffffffff500
          ∷ 0x000000000000000000000000004fffffffffa0000004fffffffffd0000000000
          ∷ 0x000000000000000000cfffffffff40000000dfffffffff700000000000000000
          ∷ 0x0000000007fffffffffe000000006ffffffffff2000000000000000000000000
          ∷ 0x2ffffffffff6000000000dfffffffffd100000000000000000000001dfffffff
          ∷ 0xffd00000000004ffffffffffc1000000000000000000000cffffffffff500000
          ∷ 0x000000bffffffffffd20000000000000000001cffffffffffb0000000000001e
          ∷ 0xffffffffffe500000000000000005effffffffffe100000000000004ffffffff
          ∷ 0xffffc40000000000004cffffffffffff50000000000000008fffffffffffffe9
          ∷ 0x521000259dfffffffffffff9000000000000000009ffffffffffffffffffffff
          ∷ 0xffffffffffffffa0000000000000000000afffffffffffffffffffffffffffff
          ∷ 0xfffffa0000000000000000000009ffffffffffffffffffffffffffffffff9000
          ∷ 0x000000000000000000005ffffffffffffffffffffffffffffff5000000000000
          ∷ 0x00000000000002cffffffffffffffffffffffffffc2000000000000000000000
          ∷ 0x00000006effffffffffffffffffffffe60000000000000000000000000000000
          ∷ 0x06cffffffffffffffffffc600000000000000000000000000000000000027bff
          ∷ 0xffffffffffb72000000000000000000000000000000000000000000246777764 ∷ []);
  tail = 0x200000000000000000000000;
  tail_size = 12;
}

unfoldable pub one_bitmap : Raster
one_bitmap = record {
  rows =
      0x3ffffffffffffffffffffffff73ffffffffffffffffffffffff73fffffffffff
      ∷ 0xfffffffffffff73ffffffffffffffffffffffff73fffffffffffffffffffffff
      ∷ 0xf73ffffffffffffffffffffffff73ffffffffffffffffffffffff73fffffffff
      ∷ 0xfffffffffffffff71444444444444445fffffffff70000000000000001ffffff
      ∷ 0xfff70000000000000001fffffffff70000000000000001fffffffff700000000
      ∷ 0x00000001fffffffff70000000000000001fffffffff70000000000000001ffff
      ∷ 0xfffff70000000000000001fffffffff70000000000000001fffffffff7000000
      ∷ 0x0000000001fffffffff70000000000000001fffffffff70000000000000001ff
      ∷ 0xfffffff70000000000000001fffffffff70000000000000001fffffffff70000
      ∷ 0x000000000001fffffffff70000000000000001fffffffff70000000000000001
      ∷ 0xfffffffff70000000000000001fffffffff70000000000000001fffffffff700
      ∷ 0x00000000000001fffffffff70000000000000001fffffffff700000000000000
      ∷ 0x01fffffffff70000000000000001fffffffff70000000000000001fffffffff7
      ∷ 0x0000000000000001fffffffff70000000000000001fffffffff7000000000000
      ∷ 0x0001fffffffff70000000000000001fffffffff70000000000000001ffffffff
      ∷ 0xf70000000000000001fffffffff70000000000000001fffffffff70000000000
      ∷ 0x000001fffffffff70000000000000001fffffffff70000000000000001ffffff
      ∷ 0xfff70000000000000001fffffffff70000000000000001fffffffff700000000
      ∷ 0x00000001fffffffff70000000000000001fffffffff70000000000000001ffff
      ∷ 0xfffff70000000000000001fffffffff70000000000000001fffffffff7000000
      ∷ 0x0000000001fffffffff70000000000000001fffffffff70000000000000001ff
      ∷ 0xfffffff70000000000000001fffffffff70000000000000001fffffffff70000
      ∷ 0x000000000001fffffffff70000000000000001fffffffff70000000000000001
      ∷ 0xfffffffff70000000000000001fffffffff70000000000000001fffffffff700
      ∷ 0x00000000000001fffffffff70000000000000001fffffffff700000000000000
      ∷ 0x01fffffffff70000000000000001fffffffff70000000000000001fffffffff7
      ∷ 0x0000000000000001fffffffff70000000000000001fffffffff7000000000000 ∷ [];
  tail = 0x0001fffffffff7;
  tail_size = 7;
}
