-- ===== src/LargeFont/DigitsD.antt =====
-- montserrat_96.c, glyph_bitmap: lines 3305 to 3754, 32 bytes to a row, the first byte highest.
use house_panel.Base.{ℕ, List, [], ◌∷◌, ◌++◌}
use house_panel.Filament.Font.{Raster}

unfoldable pub six_upper : List ℕ
six_upper =
    0x000000000000000000000000368bceffffedca85200000000000000000000000
    ∷ 0x00000000016bfffffffffffffffffffc72000000000000000000000000004bff
    ∷ 0xfffffffffffffffffffffffc600000000000000000000005dfffffffffffffff
    ∷ 0xffffffffffffffe60000000000000000002cffffffffffffffffffffffffffff
    ∷ 0xffffc000000000000000006ffffffffffffffffffffffffffffffffff5000000
    ∷ 0x0000000000bffffffffffffffffffffffffffffffffffd0000000000000001cf
    ∷ 0xffffffffffffffffffffffffffffffffff5000000000000002dfffffffffffff
    ∷ 0xffda8644344569cfffffffd000000000000001dfffffffffffffb61000000000
    ∷ 0x0000039efff500000000000000bffffffffffffa2000000000000000000005ed
    ∷ 0x000000000000008fffffffffffc3000000000000000000000000200000000000
    ∷ 0x004fffffffffff90000000000000000000000000000000000000000effffffff
    ∷ 0xff600000000000000000000000000000000000000008ffffffffff6000000000
    ∷ 0x00000000000000000000000000000002ffffffffff8000000000000000000000
    ∷ 0x000000000000000000009fffffffffb000000000000000000000000000000000
    ∷ 0x000000001ffffffffff2000000000000000000000000000000000000000007ff
    ∷ 0xfffffff7000000000000000000000000000000000000000000dffffffffe0000
    ∷ 0x000000000000000000000000000000000000003fffffffff8000000000000000
    ∷ 0x0000000000000000000000000008fffffffff200000000000000000000000000
    ∷ 0x0000000000000000cffffffffc00000000000000000000000000000000000000
    ∷ 0x00001fffffffff70000000000000000000000000000000000000000005ffffff
    ∷ 0xfff30000000000000000000000000000000000000000008fffffffff00000000
    ∷ 0x00000000000000000000000000000000000affffffffc0000000000000000000
    ∷ 0x000000000000000000000000cffffffffa00000000000014699abaa974200000
    ∷ 0x0000000000000fffffffff800000000059efffffffffffffea60000000000000
    ∷ 0x01fffffffff600000019effffffffffffffffffff93000000000002fffffffff
    ∷ 0x4000019fffffffffffffffffffffffffa20000000003fffffffff40004efffff
    ∷ 0xfffffffffffffffffffffff6000000004fffffffff3007ffffffffffffffffff
    ∷ 0xfffffffffffffa00000005fffffffff308ffffffffffffffffffffffffffffff
    ∷ 0xfffc0000005fffffffff37fffffffffffffffffffffffffffffffffffc000006
    ∷ 0xfffffffff8fffffffffffc7421001247bffffffffffffffa00005fffffffffff
    ∷ 0xfffffffe7100000000000006cffffffffffff60005fffffffffffffffff80000
    ∷ 0x000000000000006fffffffffffe1004fffffffffffffffe40000000000000000
    ∷ 0x00001cffffffffff8003ffffffffffffffe200000000000000000000000cffff
    ∷ 0xffffff102ffffffffffffff30000000000000000000000001efffffffff600ff
    ∷ 0xfffffffffff6000000000000000000000000004fffffffffc00ffffffffffffd
    ∷ 0x0000000000000000000000000000cfffffffff00cfffffffffff600000000000
    ∷ 0x000000000000000005fffffffff30afffffffffff00000000000000000000000 ∷ []

unfoldable pub six_bitmap : Raster
unfolding six_upper
six_bitmap = record {
  rows =
      six_upper
      ++ (0x0000001fffffffff607ffffffffffc000000000000000000000000000000dfff
          ∷ 0xfffff804ffffffffff9000000000000000000000000000000bffffffff900fff
          ∷ 0xfffffff8000000000000000000000000000000bffffffff900cfffffffff8000
          ∷ 0x000000000000000000000000000bffffffff9007fffffffffa00000000000000
          ∷ 0x0000000000000000cffffffff8002fffffffffc0000000000000000000000000
          ∷ 0x00000effffffff6000cfffffffff100000000000000000000000000002ffffff
          ∷ 0xfff30006fffffffff600000000000000000000000000007fffffffff00000eff
          ∷ 0xffffffd0000000000000000000000000000dffffffffc000007fffffffff7000
          ∷ 0x000000000000000000000006fffffffff7000000efffffffff40000000000000
          ∷ 0x000000000002ffffffffff10000005ffffffffff300000000000000000000002
          ∷ 0xefffffffff900000000cffffffffff6000000000000000000004effffffffff1
          ∷ 0x000000001effffffffffb2000000000000000008fffffffffff700000000004f
          ∷ 0xfffffffffffb400000000000028ffffffffffffb0000000000006fffffffffff
          ∷ 0xfffb86443457aefffffffffffffe100000000000007fffffffffffffffffffff
          ∷ 0xfffffffffffffffe20000000000000005fffffffffffffffffffffffffffffff
          ∷ 0xfffe2000000000000000003efffffffffffffffffffffffffffffffb10000000
          ∷ 0x00000000000009fffffffffffffffffffffffffffff700000000000000000000
          ∷ 0x0002afffffffffffffffffffffffff910000000000000000000000000028efff
          ∷ 0xffffffffffffffffe71000000000000000000000000000000038bfffffffffff
          ∷ 0xffc7300000000000000000000000000000000000000135677765410000000000 ∷ []);
  tail = 0x0000000000;
  tail_size = 5;
}

unfoldable pub seven_upper : List ℕ
seven_upper =
    0x2ffffffffffffffffffffffffffffffffffffffffffffffffff92fffffffffff
    ∷ 0xfffffffffffffffffffffffffffffffffffffff92fffffffffffffffffffffff
    ∷ 0xfffffffffffffffffffffffffff92fffffffffffffffffffffffffffffffffff
    ∷ 0xfffffffffffffff92fffffffffffffffffffffffffffffffffffffffffffffff
    ∷ 0xfff92ffffffffffffffffffffffffffffffffffffffffffffffffff92fffffff
    ∷ 0xfffffffffffffffffffffffffffffffffffffffffff82fffffffffffffffffff
    ∷ 0xfffffffffffffffffffffffffffffff12fffffffff5444444444444444444444
    ∷ 0x444444448fffffffffa02fffffffff100000000000000000000000000000bfff
    ∷ 0xffffff302fffffffff100000000000000000000000000003fffffffffc002fff
    ∷ 0xffffff10000000000000000000000000000afffffffff4002fffffffff100000
    ∷ 0x00000000000000000000001fffffffffd0002fffffffff100000000000000000
    ∷ 0x00000000008fffffffff60002fffffffff1000000000000000000000000000ff
    ∷ 0xfffffffe00002fffffffff1000000000000000000000000007fffffffff80000
    ∷ 0x2fffffffff100000000000000000000000000efffffffff100002fffffffff10
    ∷ 0x0000000000000000000000005fffffffff9000002fffffffff10000000000000
    ∷ 0x000000000000cfffffffff2000002fffffffff10000000000000000000000004
    ∷ 0xfffffffffb00000004444444440000000000000000000000000bfffffffff400
    ∷ 0x000000000000000000000000000000000000002fffffffffd000000000000000
    ∷ 0x00000000000000000000000000afffffffff5000000000000000000000000000
    ∷ 0x00000000000001fffffffffe0000000000000000000000000000000000000000
    ∷ 0x08fffffffff700000000000000000000000000000000000000000efffffffff1
    ∷ 0x00000000000000000000000000000000000000007fffffffff90000000000000
    ∷ 0x0000000000000000000000000000dfffffffff20000000000000000000000000
    ∷ 0x0000000000000005fffffffffa00000000000000000000000000000000000000
    ∷ 0x000cfffffffff300000000000000000000000000000000000000003fffffffff
    ∷ 0xc00000000000000000000000000000000000000000bfffffffff500000000000
    ∷ 0x000000000000000000000000000002fffffffffd000000000000000000000000
    ∷ 0x000000000000000009fffffffff7000000000000000000000000000000000000
    ∷ 0x00001ffffffffff000000000000000000000000000000000000000008fffffff
    ∷ 0xff800000000000000000000000000000000000000000efffffffff1000000000
    ∷ 0x00000000000000000000000000000006fffffffffa0000000000000000000000
    ∷ 0x0000000000000000000dfffffffff30000000000000000000000000000000000
    ∷ 0x0000005fffffffffb00000000000000000000000000000000000000000cfffff
    ∷ 0xffff400000000000000000000000000000000000000003fffffffffd00000000
    ∷ 0x000000000000000000000000000000000afffffffff600000000000000000000
    ∷ 0x000000000000000000002fffffffffe000000000000000000000000000000000
    ∷ 0x000000009fffffffff800000000000000000000000000000000000000001ffff ∷ []

unfoldable pub seven_bitmap : Raster
unfolding seven_upper
seven_bitmap = record {
  rows =
      seven_upper
      ++ (0xffffff100000000000000000000000000000000000000007fffffffff9000000
          ∷ 0x00000000000000000000000000000000000efffffffff2000000000000000000
          ∷ 0x00000000000000000000006fffffffffb0000000000000000000000000000000
          ∷ 0x0000000000dfffffffff400000000000000000000000000000000000000004ff
          ∷ 0xfffffffc00000000000000000000000000000000000000000cfffffffff50000
          ∷ 0x0000000000000000000000000000000000003fffffffffe00000000000000000
          ∷ 0x000000000000000000000000afffffffff700000000000000000000000000000
          ∷ 0x000000000002ffffffffff100000000000000000000000000000000000000009
          ∷ 0xfffffffff900000000000000000000000000000000000000001ffffffffff200
          ∷ 0x000000000000000000000000000000000000007fffffffffa000000000000000
          ∷ 0x00000000000000000000000000efffffffff3000000000000000000000000000
          ∷ 0x00000000000006fffffffffc0000000000000000000000000000000000000000
          ∷ 0x0dfffffffff500000000000000000000000000000000000000004fffffffffd0
          ∷ 0x0000000000000000000000000000000000000000bfffffffff60000000000000
          ∷ 0x0000000000000000000000000003fffffffffe00000000000000000000000000
          ∷ 0x000000000000000afffffffff800000000000000000000000000000000000000
          ∷ 0x001ffffffffff100000000000000000000000000000000000000008fffffffff ∷ []);
  tail = 0xa000000000000000000000000000;
  tail_size = 14;
}
