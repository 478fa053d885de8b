-- ===== src/LargeFont/DigitsE.antt =====
-- montserrat_96.c, glyph_bitmap: lines 3756 to 4220, 32 bytes to a row, the first byte highest.
use house_panel.Base.{ℕ, List, [], ◌∷◌, ◌++◌}
use house_panel.Filament.Font.{Raster}

unfoldable pub eight_upper : List ℕ
eight_upper =
    0x000000000000000000013579aabbaa9753000000000000000000000000000000
    ∷ 0x00000059dffffffffffffffffc83000000000000000000000000000003afffff
    ∷ 0xffffffffffffffffffe810000000000000000000000003bfffffffffffffffff
    ∷ 0xfffffffffffa20000000000000000000009fffffffffffffffffffffffffffff
    ∷ 0xfff70000000000000000003effffffffffffffffffffffffffffffffffc10000
    ∷ 0x000000000004fffffffffffffffffffffffffffffffffffffe20000000000000
    ∷ 0x3fffffffffffffffffffffffffffffffffffffffe1000000000002efffffffff
    ∷ 0xffffd96321001247aefffffffffffffd00000000000cffffffffffff93000000
    ∷ 0x000000004bffffffffffff90000000005fffffffffffb2000000000000000000
    ∷ 0x4dfffffffffff300000000dffffffffff700000000000000000000009fffffff
    ∷ 0xfffb00000004ffffffffff70000000000000000000000009ffffffffff100000
    ∷ 0x0afffffffffb00000000000000000000000000cfffffffff7000000effffffff
    ∷ 0xf1000000000000000000000000003fffffffffb000001fffffffffb000000000
    ∷ 0x0000000000000000000cffffffffe000003fffffffff60000000000000000000
    ∷ 0x0000000007fffffffff000004fffffffff400000000000000000000000000004
    ∷ 0xfffffffff200005fffffffff200000000000000000000000000003fffffffff2
    ∷ 0x00005fffffffff200000000000000000000000000004fffffffff200004fffff
    ∷ 0xffff400000000000000000000000000005fffffffff100002fffffffff700000
    ∷ 0x000000000000000000000008ffffffffe000000effffffffc000000000000000
    ∷ 0x0000000000000dffffffffb000000afffffffff2000000000000000000000000
    ∷ 0x004fffffffff70000005fffffffffc00000000000000000000000000dfffffff
    ∷ 0xff10000000efffffffff9000000000000000000000000afffffffffa00000000
    ∷ 0x6ffffffffff90000000000000000000000bffffffffff2000000000cffffffff
    ∷ 0xffd40000000000000000006effffffffff800000000001efffffffffffb60000
    ∷ 0x00000000027dfffffffffffb0000000000002efffffffffffffda76544567adf
    ∷ 0xffffffffffffc000000000000002dfffffffffffffffffffffffffffffffffff
    ∷ 0xfb00000000000000000affffffffffffffffffffffffffffffffff7000000000
    ∷ 0x00000000004cffffffffffffffffffffffffffffffa200000000000000000000
    ∷ 0x3affffffffffffffffffffffffffffff810000000000000000003cffffffffff
    ∷ 0xffffffffffffffffffffffffa10000000000000009ffffffffffffffffffffff
    ∷ 0xffffffffffffffff60000000000002dfffffffffffffffffffffffffffffffff
    ∷ 0xfffffffa00000000003efffffffffffffda742210012358bffffffffffffffc0
    ∷ 0x00000002efffffffffffe8300000000000000005affffffffffffb0000000dff
    ∷ 0xfffffffff80000000000000000000002afffffffffff9000007ffffffffffc10
    ∷ 0x000000000000000000000004effffffffff40001ffffffffffb0000000000000
    ∷ 0x000000000000001dfffffffffd0008fffffffffd000000000000000000000000
    ∷ 0x000002ffffffffff400efffffffff30000000000000000000000000000006fff ∷ []

unfoldable pub eight_bitmap : Raster
unfolding eight_upper
eight_bitmap = record {
  rows =
      eight_upper
      ++ (0xffffffb03fffffffffa00000000000000000000000000000000dfffffffff06f
          ∷ 0xffffffff4000000000000000000000000000000007fffffffff39fffffffff00
          ∷ 0x00000000000000000000000000000003fffffffff6affffffffe000000000000
          ∷ 0x0000000000000000000001fffffffff7bffffffffd0000000000000000000000
          ∷ 0x000000000000fffffffff8bffffffffd00000000000000000000000000000000
          ∷ 0x00fffffffff8afffffffff0000000000000000000000000000000002ffffffff
          ∷ 0xf79fffffffff2000000000000000000000000000000005fffffffff67fffffff
          ∷ 0xff700000000000000000000000000000000afffffffff43fffffffffd0000000
          ∷ 0x0000000000000000000000001ffffffffff00ffffffffff60000000000000000
          ∷ 0x00000000000000afffffffffc009ffffffffff20000000000000000000000000
          ∷ 0x0006ffffffffff6003ffffffffffe2000000000000000000000000005fffffff
          ∷ 0xffff0000bfffffffffff50000000000000000000000008fffffffffff700001f
          ∷ 0xfffffffffffc3000000000000000000006efffffffffffd0000006ffffffffff
          ∷ 0xfffc710000000000000039efffffffffffff300000008fffffffffffffffeb86
          ∷ 0x54344569cffffffffffffffff5000000000affffffffffffffffffffffffffff
          ∷ 0xffffffffffffff7000000000007fffffffffffffffffffffffffffffffffffff
          ∷ 0xfff500000000000004effffffffffffffffffffffffffffffffffffc30000000
          ∷ 0x0000000009ffffffffffffffffffffffffffffffffff70000000000000000000
          ∷ 0x19fffffffffffffffffffffffffffffe70000000000000000000000016bfffff
          ∷ 0xfffffffffffffffffffa50000000000000000000000000000158beffffffffff
          ∷ 0xffffea7400000000000000000000000000000000000012466777765420000000 ∷ []);
  tail = 0x00000000000000;
  tail_size = 7;
}

unfoldable pub nine_upper : List ℕ
nine_upper =
    0x0000000000000000002479aabba9753000000000000000000000000000000000
    ∷ 0x00005aeffffffffffffffc8300000000000000000000000000000029ffffffff
    ∷ 0xfffffffffffffd8100000000000000000000000001afffffffffffffffffffff
    ∷ 0xfffff8000000000000000000000007fffffffffffffffffffffffffffffe5000
    ∷ 0x00000000000000001bffffffffffffffffffffffffffffffff90000000000000
    ∷ 0x00001dffffffffffffffffffffffffffffffffffc1000000000000001dffffff
    ∷ 0xffffffffffffffffffffffffffffffd10000000000000cfffffffffffffb7421
    ∷ 0x001247bfffffffffffffc0000000000009fffffffffffe7100000000000005cf
    ∷ 0xffffffffffb00000000004fffffffffff80000000000000000005effffffffff
    ∷ 0x7000000000dfffffffffe4000000000000000000001bffffffffff200000006f
    ∷ 0xfffffffff200000000000000000000000afffffffffc0000000dfffffffff400
    ∷ 0x00000000000000000000000cfffffffff5000002fffffffffa00000000000000
    ∷ 0x0000000000001fffffffffd000008fffffffff20000000000000000000000000
    ∷ 0x008fffffffff40000bffffffffb00000000000000000000000000001ffffffff
    ∷ 0xfc0000fffffffff600000000000000000000000000000bfffffffff1001fffff
    ∷ 0xffff3000000000000000000000000000007fffffffff7003fffffffff1000000
    ∷ 0x000000000000000000000004fffffffffc004fffffffff000000000000000000
    ∷ 0x0000000000003ffffffffff104fffffffff00000000000000000000000000000
    ∷ 0x03ffffffffff404fffffffff1000000000000000000000000000004fffffffff
    ∷ 0xf803fffffffff3000000000000000000000000000007ffffffffffb01fffffff
    ∷ 0xff600000000000000000000000000000bffffffffffe00effffffffb00000000
    ∷ 0x000000000000000000001ffffffffffff10bfffffffff1000000000000000000
    ∷ 0x0000000008ffffffffffff307fffffffff9000000000000000000000000002ff
    ∷ 0xfffffffffff401ffffffffff40000000000000000000000000dfffffffffffff
    ∷ 0x600bfffffffffe200000000000000000000000bffffffffffffff7003fffffff
    ∷ 0xfffe4000000000000000000001cfffffffffffffff8000bfffffffffff800000
    ∷ 0x00000000000006effffffffffffffff90002ffffffffffffe710000000000000
    ∷ 0x6dffffffffffffffffff900005ffffffffffffffc8521000146bfffffffffff9
    ∷ 0xfffffffff9000009fffffffffffffffffffffffffffffffffffc0fffffffff90
    ∷ 0x000009fffffffffffffffffffffffffffffffffc10fffffffff800000007ffff
    ∷ 0xfffffffffffffffffffffffffffb000fffffffff7000000004efffffffffffff
    ∷ 0xfffffffffffffff70000fffffffff700000000008fffffffffffffffffffffff
    ∷ 0xffb200001fffffffff60000000000018effffffffffffffffffffa30000003ff
    ∷ 0xfffffff40000000000000059dfffffffffffffeb61000000004fffffffff2000
    ∷ 0x0000000000000014699abaa97520000000000006fffffffff000000000000000
    ∷ 0x00000000000000000000000000009ffffffffd00000000000000000000000000
    ∷ 0x00000000000000000cffffffffa0000000000000000000000000000000000000 ∷ []

unfoldable pub nine_bitmap : Raster
unfolding nine_upper
nine_bitmap = record {
  rows =
      nine_upper
      ++ (0x000000fffffffff70000000000000000000000000000000000000000004fffff
          ∷ 0xffff20000000000000000000000000000000000000000009ffffffffe0000000
          ∷ 0x000000000000000000000000000000000000fffffffffa000000000000000000
          ∷ 0x0000000000000000000000006fffffffff500000000000000000000000000000
          ∷ 0x0000000000000dffffffffe00000000000000000000000000000000000000000
          ∷ 0x06fffffffff8000000000000000000000000000000000000000001efffffffff
          ∷ 0x100000000000000000000000000000000000000000bfffffffffa00000000000
          ∷ 0x0000000000000000000000000000008ffffffffff10000000000000000000000
          ∷ 0x0000000000000000007ffffffffff70000000000000000000000000000000000
          ∷ 0x0000008ffffffffffd0000000000000000000000000000000000000001cfffff
          ∷ 0xffffff3000000000000057000000000000000000000007ffffffffffff600000
          ∷ 0x000000000dfe710000000000000000017effffffffffff9000000000000005ff
          ∷ 0xfffc742000000000147cffffffffffffffb000000000000000dffffffffffddc
          ∷ 0xbbcdffffffffffffffffffa0000000000000005fffffffffffffffffffffffff
          ∷ 0xffffffffff90000000000000000dffffffffffffffffffffffffffffffffff70
          ∷ 0x0000000000000005fffffffffffffffffffffffffffffffffc20000000000000
          ∷ 0x00009fffffffffffffffffffffffffffffffe6000000000000000000005cffff
          ∷ 0xfffffffffffffffffffffffd600000000000000000000000039effffffffffff
          ∷ 0xfffffffffea40000000000000000000000000000037adfffffffffffffeb8400
          ∷ 0x0000000000000000000000000000000000024566776543100000000000000000 ∷ []);
  tail = 0x0000000000;
  tail_size = 5;
}
