-- ===== src/Filament/Font/ClockPixelsB.antt =====
-- smooth_font.h, clockFontPixels: lines 157 to 305, 32 bytes to a row, the first byte highest.
use house_panel.Base.{ℕ, List, [], ◌∷◌}

unfoldable pub clock_pixels_b : List ℕ
clock_pixels_b =
    0x00000000000000000000000000003ffffc000000000000000000000000000000
    ∷ 0x0000000000000000000000003ffffc0000000000000000000000000000000000
    ∷ 0x000000000000000000003ffffc00000000000000000000000000000000000000
    ∷ 0x00000000000000003ffffc000000000000000000000000000000000000000000
    ∷ 0x0000000000003ffffc0000000000000000000000000000000000000000000000
    ∷ 0x000000003ffffc00000000000000000000000000000000000000000000000000
    ∷ 0x00003ffffc000000000000000000000000000000000000000000000000000000
    ∷ 0x3ffffc00000000000000000000000000000000000002ffffffffffffffffffff
    ∷ 0xfffffffffffffffffd0000000000000000000002ffffffffffffffffffffffff
    ∷ 0xfffffffffffffd0000000000000000000002ffffffffffffffffffffffffffff
    ∷ 0xfffffffffd0000000000000000000002ffffffffffffffffffffffffffffffff
    ∷ 0xfffffd0000000000000000000000000000000148aceefeecb851000000000000
    ∷ 0x00000000000000000000000000000005bfffffffffffffffc610000000000000
    ∷ 0x00000000000000000000000007efffffffffffffffffffe81000000000000000
    ∷ 0x00000000000000000004dfffffffffffffffffffffffe6000000000000000000
    ∷ 0x000000000000008fffffffea631101247befffffffa100000000000000000000
    ∷ 0x000000001bffffffd500000000000006cffffffc100000000000000000000000
    ∷ 0x0001bfffffe5000000000000000005efffffc10000000000000000000000000a
    ∷ 0xfffffb100000000000000000001bfffffb0000000000000000000000007fffff
    ∷ 0x900000000000000000000000afffff700000000000000000000003fffffa0000
    ∷ 0x000000000000000000000bffffe2000000000000000000000cffffb000000000
    ∷ 0x000000000000000001effff9000000000000000000005ffffe20000000000000
    ∷ 0x000000000000006fffff20000000000000000000dffff6000000000000000000
    ∷ 0x00000000000dffff70000000000000000004ffffd00000000000000000000000
    ∷ 0x00000007ffffc000000000000000000affff6000000000000000000000000000
    ∷ 0x0002fffff100000000000000001ffffe10000000000000000000000000000000
    ∷ 0xdffff500000000000000005ffffa00000000000000000000000000000000afff
    ∷ 0xf700000000000000009ffff6000000000000000000000000000000008ffff900
    ∷ 0x00000000000000cffff2000000000000000000000000000000006ffffa000000
    ∷ 0x0000000000ffffd0000000000000000000000000000000006ffffb0000000000
    ∷ 0x000002dfff50000000000000000000000000000000006ffffb00000000000000
    ∷ 0x00012100000000000000000000000000000000006ffffa000000000000000000
    ∷ 0x0000000000000000000000000000000000008ffff90000000000000000000000
    ∷ 0x00000000000000000000000000000000affff700000000000000000000000000
    ∷ 0x0000000000000000000000000000cffff5000000000000000000000000000000
    ∷ 0x000000000000000000000001fffff20000000000000000000000000000000000
    ∷ 0x00000000000000000005ffffe000000000000000000000000000000000000000
    ∷ 0x000000000000000bffff90000000000000000000000000000000000000000000
    ∷ 0x00000000002fffff400000000000000000000000000000000000000000000000
    ∷ 0x0000008ffffc0000000000000000000000000000000000000000000000000000
    ∷ 0x01effff6000000000000000000000000000000000000000000000000000009ff
    ∷ 0xffe100000000000000000000000000000000000000000000000000002fffff60
    ∷ 0x0000000000000000000000000000000000000000000000000000bffffc000000
    ∷ 0x000000000000000000000000000000000000000000000007fffff40000000000
    ∷ 0x0000000000000000000000000000000000000000002fffff9000000000000000
    ∷ 0x00000000000000000000000000000000000001cffffd10000000000000000000
    ∷ 0x000000000000000000000000000000000afffff3000000000000000000000000
    ∷ 0x00000000000000000000000000007fffff600000000000000000000000000000
    ∷ 0x000000000000000000000005fffff90000000000000000000000000000000000
    ∷ 0x0000000000000000004fffffb000000000000000000000000000000000000000
    ∷ 0x00000000000003effffc10000000000000000000000000000000000000000000
    ∷ 0x000000002effffd1000000000000000000000000000000000000000000000000
    ∷ 0x0002dffffd20000000000000000000000000000000000000000000000000001d
    ∷ 0xffffe20000000000000000000000000000000000000000000000000001cffffe
    ∷ 0x30000000000000000000000000000000000000000000000000001cffffe30000
    ∷ 0x000000000000000000000000000000000000000000000001cffffe4000000000
    ∷ 0x0000000000000000000000000000000000000000001bfffff400000000000000
    ∷ 0x00000000000000000000000000000000000001bfffff40000000000000000000
    ∷ 0x000000000000000000000000000000000bfffff5000000000000000000000000
    ∷ 0x0000000000000000000000000000bfffff500000000000000000000000000000
    ∷ 0x00000000000000000000000afffff60000000000000000000000000000000000
    ∷ 0x000000000000000000afffff6000000000000000000000000000000000000000
    ∷ 0x0000000000000afffff700000000000000000000000000000000000000000000
    ∷ 0x000000009fffff70000000000000000000000000000000000000000000000000
    ∷ 0x0009fffff800000000000000000000000000000000000000000000000000008f
    ∷ 0xffff900000000000000000000000000000000000000000000000000008fffff9
    ∷ 0x00000000000000000000000000000000000000000000000000008fffffa00000
    ∷ 0x000000000000000000000000000000000000000000000007fffffa0000000000
    ∷ 0x0000000000000000000000000000000000000000007fffffa000000000000000
    ∷ 0x00000000000000000000000000000000000006fffffb00000000000000000000
    ∷ 0x000000000000000000000000000000006fffffb1000000000000000000000000
    ∷ 0x0000000000000000000000000006fffffc100000000000000000000000000000
    ∷ 0x00000000000000000000005fffffc10000000000000000000000000000000000
    ∷ 0x000000000000000005fffffc1000000000000000000000000000000000000000
    ∷ 0x0000000000005fffffd100000000000000000000000000000000000000000000
    ∷ 0x00000004fffffd20000000000000000000000000000000000000000000000000
    ∷ 0x004fffffd20000000000000000000000000000000000000000000000000004ef
    ∷ 0xfffe20000000000000000000000000000000000000000000000000003efffff8
    ∷ 0x8acdefffffffffffffffffffffffffffffffffc2000000000000cfffffffffff
    ∷ 0xfffffffffffffffffffffffffffffffffff6000000000000ffffffffffffffff
    ∷ 0xfffffffffffffffffffffffffffffff7000000000000ffffffffffffffffffff
    ∷ 0xfffffffffffffffffffffffffff700000000000000000000000000000147acde
    ∷ 0xffedb96300000000000000000000000000000000000000000016bfffffffffff
    ∷ 0xffffe93000000000000000000000000000000000000018efffffffffffffffff
    ∷ 0xfffb400000000000000000000000000000000006efffffffffffffffffffffff
    ∷ 0xfa10000000000000000000000000000001afffffffea7421012369dfffffffd3
    ∷ 0x00000000000000000000000000001cffffffd6100000000000039ffffffe4000
    ∷ 0x000000000000000000000001dfffffe5000000000000000002affffff3000000
    ∷ 0x0000000000000000000cfffffa1000000000000000000006fffffe1000000000
    ∷ 0x000000000000009fffff8000000000000000000000005fffffb0000000000000
    ∷ 0x0000000004fffff800000000000000000000000007fffff50000000000000000
    ∷ 0x00000dffffa000000000000000000000000000bffffc00000000000000000000
    ∷ 0x6ffffe10000000000000000000000000003fffff40000000000000000000dfff
    ∷ 0xf400000000000000000000000000000affff90000000000000000005ffffc000
    ∷ 0x0000000000000000000000000004ffffd000000000000000000affff50000000
    ∷ 0x000000000000000000000000effff200000000000000000efffe000000000000
    ∷ 0x00000000000000000000bffff400000000000000004ffffa0000000000000000
    ∷ 0x00000000000000009ffff600000000000000007ffff600000000000000000000
    ∷ 0x0000000000007ffff70000000000000000affff1000000000000000000000000
    ∷ 0x000000006ffff800000000000000009dff800000000000000000000000000000
    ∷ 0x00006ffff8000000000000000000110000000000000000000000000000000000
    ∷ 0x6ffff70000000000000000000000000000000000000000000000000000008fff
    ∷ 0xf5000000000000000000000000000000000000000000000000000000affff300
    ∷ 0x0000000000000000000000000000000000000000000000000000dfffe0000000
    ∷ 0x000000000000000000000000000000000000000000000003ffffa00000000000
    ∷ 0x00000000000000000000000000000000000000000008ffff5000000000000000
    ∷ 0x000000000000000000000000000000000000001efffd00000000000000000000
    ∷ 0x00000000000000000000000000000000009ffff6000000000000000000000000
    ∷ 0x000000000000000000000000000005ffffc00000000000000000000000000000
    ∷ 0x0000000000000000000000003efffe2000000000000000000000000000000000
    ∷ 0x00000000000000000004effff500000000000000000000000000000000000000
    ∷ 0x000000000000018fffff40000000000000000000000000000000000000000000
    ∷ 0x000000006dffffe4000000000000000000000000000000000000000000000000
    ∷ 0x028dfffffa10000000000000000000000000000000000000000000113479dfff
    ∷ 0xfffb400000000000000000000000000000000000000000000cffffffffffe930
    ∷ 0x000000000000000000000000000000000000000000000cfffffffffb40000000
    ∷ 0x00000000000000000000000000000000000000000cfffffffffffeb500000000
    ∷ 0x0000000000000000000000000000000000000cffffffffffffffe81000000000
    ∷ 0x00000000000000000000000000000000001123479cffffffffe6000000000000
    ∷ 0x0000000000000000000000000000000000000015afffffffb100000000000000
    ∷ 0x000000000000000000000000000000000000017efffffd200000000000000000
    ∷ 0x0000000000000000000000000000000000019fffffd200000000000000000000
    ∷ 0x0000000000000000000000000000000005fffffc100000000000000000000000
    ∷ 0x0000000000000000000000000000004fffff9000000000000000000000000000
    ∷ 0x0000000000000000000000000006fffff3000000000000000000000000000000
    ∷ 0x000000000000000000000000affffa0000000000000000000000000000000000
    ∷ 0x000000000000000000002fffff20000000000000000000000000000000000000
    ∷ 0x00000000000000000affff700000000000000000000000000000000000000000
    ∷ 0x00000000000005ffffb000000000000000000000000000000000000000000000
    ∷ 0x0000000001fffff0000000000000000000000000000000000000000000000000
    ∷ 0x000000dffff20000000000000000000000000000000000000000000000000000
    ∷ 0x00bffff40000000000000000000000000000000000000000000000000000009f
    ∷ 0xfff50000000000000000000000000000000000000000000000000000008ffff6
    ∷ 0x0000000000000000000000000000000000000000000000000000008ffff50000
    ∷ 0x0000000017bb200000000000000000000000000000000000009ffff500000000
    ∷ 0x0002ffffc0000000000000000000000000000000000000bffff3000000000000
    ∷ 0xdffff2000000000000000000000000000000000000effff10000000000008fff
    ∷ 0xf8000000000000000000000000000000000003ffffd00000000000003ffffd00
    ∷ 0x0000000000000000000000000000000008ffff900000000000000cffff500000
    ∷ 0x00000000000000000000000000001effff4000000000000006ffffc000000000
    ∷ 0x0000000000000000000000007ffffd0000000000000001effff6000000000000
    ∷ 0x00000000000000000001effff600000000000000008ffffe2000000000000000
    ∷ 0x000000000000000affffd000000000000000001effffb0000000000000000000
    ∷ 0x00000000007fffff50000000000000000006fffff90000000000000000000000
    ∷ 0x000006fffffa00000000000000000000bfffff90000000000000000000000000
    ∷ 0x7fffffd1000000000000000000001dfffffb10000000000000000000001affff
    ∷ 0xfe200000000000000000000002efffffe700000000000000000006efffffe200
    ∷ 0x00000000000000000000002dffffffd72000000000000017dffffffc20000000
    ∷ 0x00000000000000000001bffffffffc85310001357bffffffff91000000000000 ∷ []
