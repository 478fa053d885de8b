-- ===== src/Filament/Font/ClockPixelsA.antt =====
-- smooth_font.h, clockFontPixels: lines 8 to 156, 32 bytes to a row, the first byte highest.
use house_panel.Base.{ℕ, List, [], ◌∷◌}

unfoldable pub clock_pixels_a : List ℕ
clock_pixels_a =
    0x0000000cfffffffffffffffffffffff50000000000000cffffffffffffffffff
    ∷ 0xfffff50000000000000cfffffffffffffffffffffff50000000000000cffffff
    ∷ 0xfffffffffffffffff50000000000000000000000000000000000000000000000
    ∷ 0x0000000000000000000000000000000000000000000000000000000000000000
    ∷ 0x0000000000000000000000000000000000000000000000000000000000000000
    ∷ 0x0000000000000000000000000000000000000000000000000000000000000000
    ∷ 0x0000000000000000000000000000000000000000000000000000000000000000
    ∷ 0x0000000000000000000000000000000000000000000000000000000000000000
    ∷ 0x0000000000000000000000000000000000000000000000000000000000000000
    ∷ 0x0000000000000000000000000000000000000000000000000000000000000000
    ∷ 0x0000000000000000000000000000000000000000000000000000000000000000
    ∷ 0x0000000000000000000000000000000000000000000000000000000000000000
    ∷ 0x0000000000000000000000000000000000000000000000000000000000000000
    ∷ 0x0000000000000000000000000000000000000000000000000000000000000000
    ∷ 0x0000000000000000000000000000000000000000000000000000000000000000
    ∷ 0x0000000000000000000000000000000000000000000000000000000000000000
    ∷ 0x0000000000000000000000000000000000000000000000000000000000000000
    ∷ 0x0000000000000000000000000000000000000000000000000000000000000000
    ∷ 0x0000000000000000000000000000000000000000000000000000000000000000
    ∷ 0x0000000000000000000000000000000000000000000000000000000000000158
    ∷ 0xbdeffedb962000000000000000000000000000000000000000000016bfffffff
    ∷ 0xfffffffc710000000000000000000000000000000000000018efffffffffffff
    ∷ 0xffffff92000000000000000000000000000000000005efffffffffffffffffff
    ∷ 0xfffe8000000000000000000000000000000001afffffffe9631101358dffffff
    ∷ 0xfc2000000000000000000000000000002dffffffa400000000000039efffffe4
    ∷ 0x0000000000000000000000000002dfffffc300000000000000002affffff5000
    ∷ 0x00000000000000000000002efffff7000000000000000000004efffff4000000
    ∷ 0x000000000000000001cfffff400000000000000000000002dffffe3000000000
    ∷ 0x0000000000000afffff40000000000000000000000002dffffd1000000000000
    ∷ 0x000000006fffff5000000000000000000000000002effff90000000000000000
    ∷ 0x0002effff900000000000000000000000000005fffff40000000000000000009
    ∷ 0xffffd000000000000000000000000000000affffd000000000000000002fffff
    ∷ 0x40000000000000000000000000000001effff60000000000000000affffa0000
    ∷ 0x00000000000000000000000000007ffffe1000000000000002fffff300000000
    ∷ 0x0000000000000000000000001effff6000000000000008ffffa0000000000000
    ∷ 0x0000000000000000000007ffffc00000000000000effff400000000000000000
    ∷ 0x000000000000000001fffff30000000000005ffffd0000000000000000000000
    ∷ 0x00000000000000affff9000000000000affff800000000000000000000000000
    ∷ 0x00000000004ffffe000000000000effff3000000000000000000000000000000
    ∷ 0x0000000effff400000000004ffffd00000000000000000000000000000000000
    ∷ 0x000affff800000000008ffff9000000000000000000000000000000000000006
    ∷ 0xffffc0000000000bffff6000000000000000000000000000000000000002ffff
    ∷ 0xf1000000000effff2000000000000000000000000000000000000000effff400
    ∷ 0x0000002ffffe0000000000000000000000000000000000000000bffff7000000
    ∷ 0x005ffffb00000000000000000000000000000000000000008ffff9000000007f
    ∷ 0xfff900000000000000000000000000000000000000006ffffc000000009ffff7
    ∷ 0x00000000000000000000000000000000000000004ffffe00000000bffff50000
    ∷ 0x0000000000000000000000000000000000002fffff10000000dffff400000000
    ∷ 0x000000000000000000000000000000000fffff20000000effff2000000000000
    ∷ 0x00000000000000000000000000000effff40000000fffff10000000000000000
    ∷ 0x0000000000000000000000000dffff50000001fffff000000000000000000000
    ∷ 0x000000000000000000000cffff60000002fffff0000000000000000000000000
    ∷ 0x00000000000000000bffff60000002ffffe00000000000000000000000000000
    ∷ 0x0000000000000bffff70000002ffffe000000000000000000000000000000000
    ∷ 0x000000000bffff70000003ffffe0000000000000000000000000000000000000
    ∷ 0x00000affff80000003ffffe00000000000000000000000000000000000000000
    ∷ 0x0affff80000002ffffe000000000000000000000000000000000000000000bff
    ∷ 0xff70000002ffffe000000000000000000000000000000000000000000bffff70
    ∷ 0x000002fffff000000000000000000000000000000000000000000bffff600000
    ∷ 0x01fffff000000000000000000000000000000000000000000cffff60000000ff
    ∷ 0xfff100000000000000000000000000000000000000000dffff50000000effff2
    ∷ 0x00000000000000000000000000000000000000000effff40000000dffff40000
    ∷ 0x0000000000000000000000000000000000000fffff20000000bffff500000000
    ∷ 0x000000000000000000000000000000002fffff100000009ffff7000000000000
    ∷ 0x00000000000000000000000000004ffffe000000007ffff90000000000000000
    ∷ 0x0000000000000000000000006ffffc000000005ffffb00000000000000000000
    ∷ 0x000000000000000000008ffff9000000002ffffe000000000000000000000000
    ∷ 0x0000000000000000bffff7000000000effff2000000000000000000000000000
    ∷ 0x000000000000effff4000000000bffff50000000000000000000000000000000
    ∷ 0x00000002fffff10000000008ffff900000000000000000000000000000000000
    ∷ 0x0006ffffc00000000004ffffd00000000000000000000000000000000000000a
    ∷ 0xffff800000000000effff30000000000000000000000000000000000000effff
    ∷ 0x400000000000affff70000000000000000000000000000000000004ffffe0000
    ∷ 0x000000005ffffd000000000000000000000000000000000000affff900000000
    ∷ 0x00000effff400000000000000000000000000000000001effff3000000000000
    ∷ 0x08ffffa00000000000000000000000000000000006ffffc000000000000002ff
    ∷ 0xfff2000000000000000000000000000000000dffff6000000000000000affff9
    ∷ 0x000000000000000000000000000000006ffffe10000000000000003fffff3000
    ∷ 0x0000000000000000000000000001effff6000000000000000009ffffc0000000
    ∷ 0x000000000000000000000009ffffd0000000000000000002effff80000000000
    ∷ 0x0000000000000000004fffff400000000000000000006fffff50000000000000
    ∷ 0x00000000000002effff9000000000000000000000affffe30000000000000000
    ∷ 0x000000001dffffd10000000000000000000001cffffe40000000000000000000
    ∷ 0x0002dffffe3000000000000000000000002efffff6000000000000000000004e
    ∷ 0xfffff400000000000000000000000002dfffffb3000000000000000019ffffff
    ∷ 0x50000000000000000000000000002dffffffa400000000000028efffffe40000
    ∷ 0x00000000000000000000000001afffffffd9631001258cfffffffc2000000000
    ∷ 0x000000000000000000000006efffffffffffffffffffffff8000000000000000
    ∷ 0x0000000000000000000018efffffffffffffffffffa200000000000000000000
    ∷ 0x00000000000000000016cffffffffffffffd7100000000000000000000000000
    ∷ 0x00000000000000000158bdeffedb962000000000000000000000000000000000
    ∷ 0x000000000000000000000afffc00000000000000000000000000000000000000
    ∷ 0x0000000000000001bffffc000000000000000000000000000000000000000000
    ∷ 0x00000000001cfffffc0000000000000000000000000000000000000000000000
    ∷ 0x000002dffffffc00000000000000000000000000000000000000000000000000
    ∷ 0x3efffffffc00000000000000000000000000000000000000000000000004efff
    ∷ 0xfffffc0000000000000000000000000000000000000000000000006fffffffff
    ∷ 0xfc000000000000000000000000000000000000000000000007ffffff8ffffc00
    ∷ 0x000000000000000000000000000000000000000000009ffffff52ffffc000000
    ∷ 0x000000000000000000000000000000000000000afffffe303ffffc0000000000
    ∷ 0x0000000000000000000000000000000001bfffffd2003ffffc00000000000000
    ∷ 0x00000000000000000000000000002cfffffc10003ffffc000000000000000000
    ∷ 0x000000000000000000000002dfffffb100003ffffc0000000000000000000000
    ∷ 0x0000000000000000003efffff90000003ffffc00000000000000000000000000
    ∷ 0x00000000000005efffff700000003ffffc000000000000000000000000000000
    ∷ 0x000000006ffffff6000000003ffffc0000000000000000000000000000000000
    ∷ 0x0007fffffe40000000003ffffc0000000000000000000000000000000000009f
    ∷ 0xffffd300000000003ffffc00000000000000000000000000000000000afffffc
    ∷ 0x2000000000003ffffc00000000000000000000000000000000002effffb10000
    ∷ 0x000000003ffffc000000000000000000000000000000000006fffa0000000000
    ∷ 0x00003ffffc0000000000000000000000000000000000007c7000000000000000
    ∷ 0x3ffffc0000000000000000000000000000000000000000000000000000003fff
    ∷ 0xfc0000000000000000000000000000000000000000000000000000003ffffc00
    ∷ 0x00000000000000000000000000000000000000000000000000003ffffc000000
    ∷ 0x0000000000000000000000000000000000000000000000003ffffc0000000000
    ∷ 0x000000000000000000000000000000000000000000003ffffc00000000000000
    ∷ 0x00000000000000000000000000000000000000003ffffc000000000000000000
    ∷ 0x0000000000000000000000000000000000003ffffc0000000000000000000000
    ∷ 0x000000000000000000000000000000003ffffc00000000000000000000000000
    ∷ 0x00000000000000000000000000003ffffc000000000000000000000000000000
    ∷ 0x0000000000000000000000003ffffc0000000000000000000000000000000000
    ∷ 0x000000000000000000003ffffc00000000000000000000000000000000000000
    ∷ 0x00000000000000003ffffc000000000000000000000000000000000000000000
    ∷ 0x0000000000003ffffc0000000000000000000000000000000000000000000000
    ∷ 0x000000003ffffc00000000000000000000000000000000000000000000000000
    ∷ 0x00003ffffc000000000000000000000000000000000000000000000000000000
    ∷ 0x3ffffc0000000000000000000000000000000000000000000000000000003fff
    ∷ 0xfc0000000000000000000000000000000000000000000000000000003ffffc00
    ∷ 0x00000000000000000000000000000000000000000000000000003ffffc000000
    ∷ 0x0000000000000000000000000000000000000000000000003ffffc0000000000
    ∷ 0x000000000000000000000000000000000000000000003ffffc00000000000000
    ∷ 0x00000000000000000000000000000000000000003ffffc000000000000000000
    ∷ 0x0000000000000000000000000000000000003ffffc0000000000000000000000
    ∷ 0x000000000000000000000000000000003ffffc00000000000000000000000000
    ∷ 0x00000000000000000000000000003ffffc000000000000000000000000000000
    ∷ 0x0000000000000000000000003ffffc0000000000000000000000000000000000
    ∷ 0x000000000000000000003ffffc00000000000000000000000000000000000000
    ∷ 0x00000000000000003ffffc000000000000000000000000000000000000000000
    ∷ 0x0000000000003ffffc0000000000000000000000000000000000000000000000
    ∷ 0x000000003ffffc00000000000000000000000000000000000000000000000000
    ∷ 0x00003ffffc000000000000000000000000000000000000000000000000000000
    ∷ 0x3ffffc0000000000000000000000000000000000000000000000000000003fff
    ∷ 0xfc0000000000000000000000000000000000000000000000000000003ffffc00
    ∷ 0x00000000000000000000000000000000000000000000000000003ffffc000000
    ∷ 0x0000000000000000000000000000000000000000000000003ffffc0000000000
    ∷ 0x000000000000000000000000000000000000000000003ffffc00000000000000
    ∷ 0x00000000000000000000000000000000000000003ffffc000000000000000000
    ∷ 0x0000000000000000000000000000000000003ffffc0000000000000000000000
    ∷ 0x000000000000000000000000000000003ffffc00000000000000000000000000 ∷ []
