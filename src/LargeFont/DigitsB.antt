-- ===== src/LargeFont/DigitsB.antt =====
-- montserrat_96.c, glyph_bitmap: lines 2390 to 2826, 32 bytes to a row, the first byte highest.
use house_panel.Base.{ℕ, List, [], ◌∷◌, ◌++◌}
use house_panel.Filament.Font.{Raster}

unfoldable pub two_upper : List ℕ
two_upper =
    0x0000000000000000000135667766431000000000000000000000000000000000
    ∷ 0x0159dfffffffffffffeb7200000000000000000000000000017dffffffffffff
    ∷ 0xfffffffffd7100000000000000000000004bfffffffffffffffffffffffffff8
    ∷ 0x10000000000000000004cffffffffffffffffffffffffffffffe500000000000
    ∷ 0x00001affffffffffffffffffffffffffffffffff900000000000004effffffff
    ∷ 0xffffffffffffffffffffffffffffb000000000007fffffffffffffffffffffff
    ∷ 0xffffffffffffffffb000000000afffffffffffffffffffffffffffffffffffff
    ∷ 0xffff900000009fffffffffffffffc853110012369dffffffffffffff4000006f
    ∷ 0xffffffffffffb500000000000000039ffffffffffffd0000009ffffffffffa20
    ∷ 0x0000000000000000003cfffffffffff60000007fffffffd30000000000000000
    ∷ 0x0000000bffffffffffc00000005fffffa00000000000000000000000000cffff
    ∷ 0xffffff200000003eff80000000000000000000000000002ffffffffff6000000
    ∷ 0x002d9000000000000000000000000000009fffffffffa0000000000000000000
    ∷ 0x0000000000000000000003fffffffffc00000000000000000000000000000000
    ∷ 0x000000000effffffffe00000000000000000000000000000000000000000cfff
    ∷ 0xfffffe00000000000000000000000000000000000000000bffffffffe0000000
    ∷ 0x0000000000000000000000000000000000affffffffe00000000000000000000
    ∷ 0x000000000000000000000bffffffffd000000000000000000000000000000000
    ∷ 0x00000000effffffffa00000000000000000000000000000000000000001fffff
    ∷ 0xffff800000000000000000000000000000000000000005fffffffff500000000
    ∷ 0x00000000000000000000000000000000bfffffffff0000000000000000000000
    ∷ 0x0000000000000000002fffffffffb00000000000000000000000000000000000
    ∷ 0x000009fffffffff50000000000000000000000000000000000000003ffffffff
    ∷ 0xfe0000000000000000000000000000000000000000dfffffffff800000000000
    ∷ 0x0000000000000000000000000000afffffffffe0000000000000000000000000
    ∷ 0x000000000000007ffffffffff500000000000000000000000000000000000000
    ∷ 0x5ffffffffffa000000000000000000000000000000000000005ffffffffffd10
    ∷ 0x0000000000000000000000000000000000005fffffffffff3000000000000000
    ∷ 0x00000000000000000000005fffffffffff500000000000000000000000000000
    ∷ 0x000000005fffffffffff600000000000000000000000000000000000006fffff
    ∷ 0xffffff700000000000000000000000000000000000007fffffffffff80000000
    ∷ 0x0000000000000000000000000000007fffffffffff8000000000000000000000
    ∷ 0x00000000000000008fffffffffff700000000000000000000000000000000000
    ∷ 0x009fffffffffff600000000000000000000000000000000000009fffffffffff
    ∷ 0x60000000000000000000000000000000000000afffffffffff50000000000000
    ∷ 0x000000000000000000000000afffffffffff4000000000000000000000000000
    ∷ 0x0000000000bfffffffffff40000000000000000000000000000000000000bfff ∷ []

unfoldable pub two_bitmap : Raster
unfolding two_upper
two_bitmap = record {
  rows =
      two_upper
      ++ (0xffffffff30000000000000000000000000000000000000cffffffffffe300000
          ∷ 0x00000000000000000000000000000001cffffffffffe20000000000000000000
          ∷ 0x000000000000000001dffffffffffe2000000000000000000000000000000000
          ∷ 0x0001dffffffffffd20000000000000000000000000000000000002dfffffffff
          ∷ 0xfd10000000000000000000000000000000000002effffffffffd100000000000
          ∷ 0x00000000000000000000000002effffffffffc10000000000000000000000000
          ∷ 0x000000000003effffffffffc00000000000000000000000000000000000003ff
          ∷ 0xfffffffffb00000000000000000000000000000000000004fffffffffffb0000
          ∷ 0x0000000000000000000000000000000004fffffffffffa000000000000000000
          ∷ 0x00000000000000000005fffffffffff900000000000000000000000000000000
          ∷ 0x000005fffffffffffd44444444444444444444444444444444440006ffffffff
          ∷ 0xffffffffffffffffffffffffffffffffffffffd005ffffffffffffffffffffff
          ∷ 0xfffffffffffffffffffffffffd007fffffffffffffffffffffffffffffffffff
          ∷ 0xffffffffffffd007fffffffffffffffffffffffffffffffffffffffffffffffd
          ∷ 0x007fffffffffffffffffffffffffffffffffffffffffffffffd007ffffffffff
          ∷ 0xfffffffffffffffffffffffffffffffffffffd007fffffffffffffffffffffff
          ∷ 0xffffffffffffffffffffffffd007ffffffffffffffffffffffffffffffffffff ∷ []);
  tail = 0xfffffffffffd;
  tail_size = 6;
}

unfoldable pub three_upper : List ℕ
three_upper =
    0x0007fffffffffffffffffffffffffffffffffffffffffffe0000007fffffffff
    ∷ 0xffffffffffffffffffffffffffffffffffe0000007ffffffffffffffffffffff
    ∷ 0xfffffffffffffffffffffe0000007fffffffffffffffffffffffffffffffffff
    ∷ 0xffffffffe0000007fffffffffffffffffffffffffffffffffffffffffffe0000
    ∷ 0x007fffffffffffffffffffffffffffffffffffffffffffe0000007ffffffffff
    ∷ 0xfffffffffffffffffffffffffffffffffc0000007fffffffffffffffffffffff
    ∷ 0xfffffffffffffffffffe2000000244444444444444444444444444444449ffff
    ∷ 0xffffff4000000000000000000000000000000000000002efffffffff70000000
    ∷ 0x00000000000000000000000000000000dfffffffffa000000000000000000000
    ∷ 0x000000000000000000bfffffffffc00000000000000000000000000000000000
    ∷ 0x00008fffffffffe1000000000000000000000000000000000000005fffffffff
    ∷ 0xf3000000000000000000000000000000000000003ffffffffff5000000000000
    ∷ 0x000000000000000000000000001efffffffff800000000000000000000000000
    ∷ 0x0000000000000cfffffffffb000000000000000000000000000000000000000a
    ∷ 0xfffffffffd1000000000000000000000000000000000000007ffffffffff2000
    ∷ 0x000000000000000000000000000000000004ffffffffff400000000000000000
    ∷ 0x0000000000000000000002ffffffffff70000000000000000000000000000000
    ∷ 0x00000001dfffffffffa000000000000000000000000000000000000000bfffff
    ∷ 0xffffc0000000000000000000000000000000000000009fffffffffe100000000
    ∷ 0x0000000000000000000000000000006ffffffffff30000000000000000000000
    ∷ 0x00000000000000003ffffffffff6000000000000000000000000000000000000
    ∷ 0x001efffffffff9000000000000000000000000000000000000000cfffffffffc
    ∷ 0x000000000000000000000000000000000000000afffffffffffdb85100000000
    ∷ 0x00000000000000000000000000fffffffffffffffffd82000000000000000000
    ∷ 0x0000000000000ffffffffffffffffffffc400000000000000000000000000000
    ∷ 0xffffffffffffffffffffffc3000000000000000000000000000fffffffffffff
    ∷ 0xfffffffffff700000000000000000000000000fffffffffffffffffffffffffb
    ∷ 0x0000000000000000000000000ffffffffffffffffffffffffffb000000000000
    ∷ 0x0000000000008999999abceffffffffffffffffa000000000000000000000000
    ∷ 0x0000000000149efffffffffffff6000000000000000000000000000000000000
    ∷ 0x04cffffffffffff1000000000000000000000000000000000000006fffffffff
    ∷ 0xffa0000000000000000000000000000000000000003effffffffff2000000000
    ∷ 0x0000000000000000000000000000003ffffffffff80000000000000000000000
    ∷ 0x0000000000000000007fffffffffd00000000000000000000000000000000000
    ∷ 0x000000efffffffff100000000000000000000000000000000000000009ffffff
    ∷ 0xfff400000000000000000000000000000000000000004fffffffff6000000000
    ∷ 0x00000000000000000000000000000002fffffffff80000000000000000000000 ∷ []

unfoldable pub three_bitmap : Raster
unfolding three_upper
three_bitmap = record {
  rows =
      three_upper
      ++ (0x0000000000000000000fffffffff900000000000000000000000000000000000
          ∷ 0x000000fffffffff900000000000000000000000000000000000000001fffffff
          ∷ 0xff700000000000000000000000000000000000000003fffffffff60000000000
          ∷ 0x0000000000000000000000000000007fffffffff400000000000000000000000
          ∷ 0x00000000000000000cfffffffff100007a000000000000000000000000000000
          ∷ 0x0004fffffffffd00001ffc20000000000000000000000000000000dfffffffff
          ∷ 0x80000affff600000000000000000000000000000affffffffff20003ffffffd5
          ∷ 0x00000000000000000000000000bffffffffffb0000dffffffffd710000000000
          ∷ 0x000000000005efffffffffff30006ffffffffffffb6100000000000000006cff
          ∷ 0xffffffffffa0001efffffffffffffffda753100001258bffffffffffffffd000
          ∷ 0x04fffffffffffffffffffffffffffffffffffffffffffff3000003efffffffff
          ∷ 0xfffffffffffffffffffffffffffffffff400000001afffffffffffffffffffff
          ∷ 0xffffffffffffffffffe300000000004dffffffffffffffffffffffffffffffff
          ∷ 0xffffc100000000000005dfffffffffffffffffffffffffffffffff7000000000
          ∷ 0x000000004afffffffffffffffffffffffffffff910000000000000000000016b
          ∷ 0xfffffffffffffffffffffffd600000000000000000000000000037adffffffff
          ∷ 0xffffffda62000000000000000000000000000000000023567777654200000000 ∷ []);
  tail = 0x000000000000;
  tail_size = 6;
}
