-- ===== src/Filament/Font/ClockPixelsE.antt =====
-- smooth_font.h, clockFontPixels: lines 604 to 750, 32 bytes to a row, the first byte highest.
use house_panel.Base.{ℕ, List, [], ◌∷◌}

unfoldable pub clock_pixels_e : List ℕ
clock_pixels_e =
    0xf200000000000000000efffe00000000000000000000000000000000affff400
    ∷ 0x000000000000000ffffd000000000000000000000000000000008ffff5000000
    ∷ 0x00000000001ffffc000000000000000000000000000000007ffff60000000000
    ∷ 0x0000001ffffb000000000000000000000000000000007ffff600000000000000
    ∷ 0x000ffffc000000000000000000000000000000008ffff500000000000000000e
    ∷ 0xfffe00000000000000000000000000000000affff400000000000000000dffff
    ∷ 0x10000000000000000000000000000000bffff1000000000000000009ffff4000
    ∷ 0x0000000000000000000000000000ffffd0000000000000000006ffff80000000
    ∷ 0x000000000000000000000004ffff90000000000000000002ffffc00000000000
    ∷ 0x00000000000000000008ffff40000000000000000000bffff300000000000000
    ∷ 0x000000000000001efffd000000000000000000004ffffb000000000000000000
    ∷ 0x00000000007ffff6000000000000000000000bffff5000000000000000000000
    ∷ 0x000002efffc00000000000000000000003ffffe2000000000000000000000000
    ∷ 0x1cffff3000000000000000000000007ffffd200000000000000000000000bfff
    ∷ 0xf500000000000000000000000009ffffd3000000000000000000001bffff7000
    ∷ 0x0000000000000000000000009fffff80000000000000000005efffe600000000
    ∷ 0x0000000000000000000006fffffd7100000000000005cffffd30000000000000
    ∷ 0x0000000000000000003cffffffb7421001246aeffffe60000000000000000000
    ∷ 0x00000000000000005cfffffffffffffffffffc71000000000000000000000000
    ∷ 0x0000000000000039ffffffffffffffffa3000000000000000000000000000000
    ∷ 0x0000000015aeffffffffffffffffffe930000000000000000000000000000000
    ∷ 0x0029effffffffffffffffffffffffb40000000000000000000000000000019ff
    ∷ 0xfffffda74321012469cffffffff91000000000000000000000000005efffffd8
    ∷ 0x20000000000000016cffffffe40000000000000000000000008fffffe6000000
    ∷ 0x000000000000004cffffff500000000000000000000009fffffa100000000000
    ∷ 0x0000000000006ffffff6000000000000000000009fffff600000000000000000
    ∷ 0x0000000003efffff30000000000000000005fffff60000000000000000000000
    ∷ 0x0000002effffd100000000000000002effff8000000000000000000000000000
    ∷ 0x0004fffff900000000000000009ffffc00000000000000000000000000000000
    ∷ 0x7fffff1000000000000001fffff3000000000000000000000000000000000dff
    ∷ 0xff8000000000000008ffffb00000000000000000000000000000000006ffffe0
    ∷ 0x0000000000000dffff500000000000000000000000000000000000effff40000
    ∷ 0x000000002fffff100000000000000000000000000000000000affff800000000
    ∷ 0x00006ffffb0000000000000000000000000000000000006ffffb000000000000
    ∷ 0x8ffff90000000000000000000000000000000000004ffffd000000000000afff
    ∷ 0xf70000000000000000000000000000000000002fffff000000000000bffff600
    ∷ 0x00000000000000000000000000000000001fffff100000000000bffff5000000
    ∷ 0x0000000000000000000000000000000fffff100000000000bffff60000000000
    ∷ 0x000000000000000000000000001fffff000000000000affff700000000000000
    ∷ 0x00000000000000000000002fffff0000000000009ffff9000000000000000000
    ∷ 0x0000000000000000004ffffd0000000000007ffffb0000000000000000000000
    ∷ 0x000000000000007ffffb0000000000004fffff10000000000000000000000000
    ∷ 0x0000000000affff80000000000000effff500000000000000000000000000000
    ∷ 0x000001fffff40000000000000affffb000000000000000000000000000000000
    ∷ 0x07ffffe000000000000004fffff4000000000000000000000000000000001eff
    ∷ 0xff8000000000000000cffffd000000000000000000000000000000009ffffe20
    ∷ 0x000000000000004fffff90000000000000000000000000000004fffff8000000
    ∷ 0x00000000000afffff700000000000000000000000000003effffd10000000000
    ∷ 0x00000001dfffff8000000000000000000000000004efffff3000000000000000
    ∷ 0x00003efffffa1000000000000000000000019ffffff600000000000000000000
    ∷ 0x04efffffe7100000000000000000005dffffff7000000000000000000000003e
    ∷ 0xffffffe820000000000000017dfffffff600000000000000000000000001bfff
    ∷ 0xfffffd964210012358cffffffffd300000000000000000000000000006efffff
    ∷ 0xfffffffffffffffffffffe8000000000000000000000000000000017dfffffff
    ∷ 0xfffffffffffffffe810000000000000000000000000000000000049dffffffff
    ∷ 0xffffffffea500000000000000000000000000000000000000000258aceeffeed
    ∷ 0xb963000000000000000000000000000000000000000000000259bdeffedca730
    ∷ 0x00000000000000000000000000000000000000000027cffffffffffffffe9300
    ∷ 0x0000000000000000000000000000000000002affffffffffffffffffffb30000
    ∷ 0x00000000000000000000000000000019ffffffffffffffffffffffff91000000
    ∷ 0x00000000000000000000000004dfffffffb8531001248bfffffffd3000000000
    ∷ 0x000000000000000000006ffffffd6100000000000028efffffe4000000000000
    ∷ 0x0000000000000008fffffe60000000000000000019ffffff5000000000000000
    ∷ 0x00000000007fffffb1000000000000000000004dffffe3000000000000000000
    ∷ 0x000005fffff8000000000000000000000002dffffd1000000000000000000000
    ∷ 0x2effff800000000000000000000000001dffffa000000000000000000000bfff
    ∷ 0xfa0000000000000000000000000002effff400000000000000000006ffffd100
    ∷ 0x000000000000000000000000006ffffc0000000000000000000dffff40000000
    ∷ 0x00000000000000000000000cffff4000000000000000005ffffb000000000000
    ∷ 0x00000000000000000004ffffb00000000000000000bffff40000000000000000
    ∷ 0x0000000000000000cffff10000000000000002ffffd000000000000000000000
    ∷ 0x0000000000007ffff60000000000000006ffff90000000000000000000000000
    ∷ 0x000000002ffffa000000000000000affff500000000000000000000000000000
    ∷ 0x00000dfffd000000000000000dffff2000000000000000000000000000000000
    ∷ 0x0affff100000000000000ffffe000000000000000000000000000000000008ff
    ∷ 0xff300000000000001ffffd000000000000000000000000000000000006ffff50
    ∷ 0x0000000000002ffffc000000000000000000000000000000000005ffff600000
    ∷ 0x000000003ffffc000000000000000000000000000000000005ffff7000000000
    ∷ 0x00002ffffd000000000000000000000000000000000005ffff70000000000000
    ∷ 0x2ffffe000000000000000000000000000000000007ffff600000000000000fff
    ∷ 0xff100000000000000000000000000000000009ffff500000000000000dffff30
    ∷ 0x000000000000000000000000000000000dffff400000000000000bffff600000
    ∷ 0x00000000000000000000000000002fffff1000000000000008ffffa000000000
    ∷ 0x0000000000000000000000007ffffe0000000000000004ffffe1000000000000
    ∷ 0x00000000000000000000dffffa0000000000000000effff60000000000000000
    ∷ 0x0000000000000006fffff600000000000000009ffffd00000000000000000000
    ∷ 0x00000000001dfffff100000000000000002fffff600000000000000000000000
    ∷ 0x0000009fffffa000000000000000000affffe200000000000000000000000000
    ∷ 0x06ffffff40000000000000000002effffc100000000000000000000000005fff
    ∷ 0xfffd000000000000000000007fffffb1000000000000000000000006fffffff6
    ∷ 0x000000000000000000000bfffffc20000000000000000000019fffffffd00000
    ∷ 0x000000000000000001cfffffe70000000000000000005dfffbffff5000000000
    ∷ 0x000000000000001cffffffd6100000000000016cffff8cfffc00000000000000
    ∷ 0x000000000001affffffffb7421001247beffffe58ffff3000000000000000000
    ∷ 0x0000000006effffffffffffffffffffffb23ffff900000000000000000000000
    ∷ 0x00000029fffffffffffffffffffc501dfffd1000000000000000000000000000
    ∷ 0x000028dfffffffffffffea40009ffff500000000000000000000000000000000
    ∷ 0x00036acdeffeca84000004ffffa0000000000000000000000000000000000000
    ∷ 0x00000000000000001dfffe100000000000000000000000000000000000000000
    ∷ 0x000000000000affff50000000000000000000000000000000000000000000000
    ∷ 0x00000006ffffa000000000000000000000000000000000000000000000000000
    ∷ 0x002efffe100000000000000000000000000000000000000000000000000000cf
    ∷ 0xfff4000000000000000000000000000000000000000000000000000008ffff90
    ∷ 0x00000000000000000000000000000000000000000000000000004ffffd100000
    ∷ 0x000000000000000000000000000000000000000000000001effff40000000000
    ∷ 0x0000000000000000000000000000000000000000000bffff9000000000000000
    ∷ 0x000000000000000000000000000000000000007ffffd10000000000000000000
    ∷ 0x0000000000000000000000000000000003fffff4000000000000000000000000
    ∷ 0x00000000000000000000000000001dffff800000000000000000000000000000
    ∷ 0x0000000000000000000000009ffffd1000000000000000000000000000000000
    ∷ 0x00000000000000000005fffff300000000000000000000000000000000000000
    ∷ 0x000000000000002effff80000000000000000000000000000000000000000000
    ∷ 0x0000000000bffffc000000000000000000000000000000000000000000000000
    ∷ 0x000007fffff30000000000000000000000000000000000000000000000000000
    ∷ 0x3fffff800000000000000000000000000000000000000000000000000001dfff
    ∷ 0xfc000000000000000000000000000000000000000000000000000009fffff300
    ∷ 0x000000000000000000000000000000000000000000000000005fffff70000000
    ∷ 0x0000000000000000000000000000000000000000000002effffc000000000000
    ∷ 0x00000000000000000000000000000000000000000cfffff20000000000000000
    ∷ 0x0000000000000000000000000000000000008fffff7000000000000000000000
    ∷ 0x00000000000000000000000000000003fffffb00000000000000000000000000
    ∷ 0x000000000000000000000000001dffffe2000000000000000000000000000000
    ∷ 0x0000000000000000000000afffff600000000000000000000000000000000000
    ∷ 0x000000000000000006fffffb0000000000000000000000000000000000000000
    ∷ 0x0000000000002effffe200000000000000000000000000000000000000000000
    ∷ 0x00000000cfffff60000000000000000000000000000000000000000000000000
    ∷ 0x0008ffffd700000000000000000000000000000000000000000000018dfd7000
    ∷ 0x0000000000000001dfffffb10000000000000000afffffff8000000000000000
    ∷ 0x2ffffffffe1000000000000005fffffffff3000000000000005fffffffff3000
    ∷ 0x000000000002fffffffff1000000000000000bfffffff900000000000000002d
    ∷ 0xfffffc10000000000000000019dfd81000000000000000000000000000000000
    ∷ 0x0000000000000000000000000000000000000000000000000000000000000000
    ∷ 0x0000000000000000000000000000000000000000000000000000000000000000
    ∷ 0x0000000000000000000000000000000000000000000000000000000000000000
    ∷ 0x0000000000000000000000000000000000000000000000000000000000000000
    ∷ 0x0000000000000000000000000000000000000000000000000000000000000000
    ∷ 0x0000000000000000000000000000000000000000000000000000000000000000
    ∷ 0x0000000000000000000000000000000000000000000000000000000000000000
    ∷ 0x0000000000000000000000000000000000000000000000000000000000000000
    ∷ 0x0000000000000000000000000000000000000000000000000000000000000000
    ∷ 0x0000000000000000000000000000000000000000000000000000000000000000
    ∷ 0x0000000000000000000000000000000000000000000000000000000000000000
    ∷ 0x0000000000000000000000000000000000000000000000000000000018dfd700
    ∷ 0x00000000000000001dfffffb10000000000000000afffffff800000000000000
    ∷ 0x02ffffffffe1000000000000005fffffffff3000000000000005fffffffff300
    ∷ 0x0000000000002fffffffff1000000000000000bfffffff900000000000000002 ∷ []
