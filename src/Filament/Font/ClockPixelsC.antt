-- ===== src/Filament/Font/ClockPixelsC.antt =====
-- smooth_font.h, clockFontPixels: lines 306 to 454, 32 bytes to a row, the first byte highest.
use house_panel.Base.{ℕ, List, [], ◌∷◌}

unfoldable pub clock_pixels_c : List ℕ
clock_pixels_c =
    0x000000000000000006efffffffffffffffffffffffffc4000000000000000000
    ∷ 0x0000000000000018efffffffffffffffffffffc5000000000000000000000000
    ∷ 0x00000000000016bffffffffffffffffe94000000000000000000000000000000
    ∷ 0x00000000000147abdeeffedb9630000000000000000000000000000000000000
    ∷ 0x0000000000000000000000004ffff80000000000000000000000000000000000
    ∷ 0x00000000000000000002effff800000000000000000000000000000000000000
    ∷ 0x000000000000000bfffff8000000000000000000000000000000000000000000
    ∷ 0x00000000008ffffff80000000000000000000000000000000000000000000000
    ∷ 0x000004fffffff800000000000000000000000000000000000000000000000000
    ∷ 0x2efffffff800000000000000000000000000000000000000000000000000bfff
    ∷ 0xfdfff800000000000000000000000000000000000000000000000008ffff9aff
    ∷ 0xf80000000000000000000000000000000000000000000000004ffffc1bfff800
    ∷ 0x0000000000000000000000000000000000000000000002efffe20cfff8000000
    ∷ 0x00000000000000000000000000000000000000000bffff500dfff80000000000
    ∷ 0x0000000000000000000000000000000000008ffff9000dfff800000000000000
    ∷ 0x00000000000000000000000000000004ffffc1000dfff8000000000000000000
    ∷ 0x000000000000000000000000002efffe20000dfff80000000000000000000000
    ∷ 0x0000000000000000000000bffff600000dfff800000000000000000000000000
    ∷ 0x000000000000000008ffff9000000dfff8000000000000000000000000000000
    ∷ 0x0000000000004ffffd1000000dfff80000000000000000000000000000000000
    ∷ 0x00000002efffe30000000dfff800000000000000000000000000000000000000
    ∷ 0x000bffff600000000dfff800000000000000000000000000000000000000008f
    ∷ 0xfffa000000000dfff80000000000000000000000000000000000000004ffffd1
    ∷ 0x000000000dfff8000000000000000000000000000000000000002efffe300000
    ∷ 0x00000dfff800000000000000000000000000000000000000bffff60000000000
    ∷ 0x0dfff800000000000000000000000000000000000008ffffa000000000000dff
    ∷ 0xf80000000000000000000000000000000000004ffffd1000000000000dfff800
    ∷ 0x0000000000000000000000000000000002effff30000000000000dfff8000000
    ∷ 0x00000000000000000000000000000bffff600000000000000dfff80000000000
    ∷ 0x0000000000000000000000008ffffa000000000000000dfff800000000000000
    ∷ 0x00000000000000000004ffffd1000000000000000dfff8000000000000000000
    ∷ 0x000000000000002effff30000000000000000dfff80000000000000000000000
    ∷ 0x0000000000bffff600000000000000000dfff800000000000000000000000000
    ∷ 0x000008ffffa000000000000000000dfff8000000000000000000000000000000
    ∷ 0x4ffffd1000000000000000000dfff8000000000000000000000000000002efff
    ∷ 0xf30000000000000000000dfff800000000000000000000000000000cffff6000
    ∷ 0x00000000000000000dfff800000000000000000000000000008ffffa00000000
    ∷ 0x0000000000000dfff80000000000000000000000000004ffffd1000000000000
    ∷ 0x000000000dfff8000000000000000000000000002effff300000000000000000
    ∷ 0x00000dfff800000000000000000000000000cffff70000000000000000000000
    ∷ 0x0dfff800000000000000000000000008ffffa000000000000000000000000dff
    ∷ 0xf80000000000000000000000004ffffd1000000000000000000000000dfff800
    ∷ 0x0000000000000000000002effff30000000000000000000000000dfff8000000
    ∷ 0x00000000000000000cffff700000000000000000000000000dfff80000000000
    ∷ 0x0000000000008ffffb000000000000000000000000000dfff800000000000000
    ∷ 0x00000004ffffd1000000000000000000000000000dfff8000000000000000000
    ∷ 0x002effff30000000000000000000000000000dfff800000000000000000000cf
    ∷ 0xfff700000000000000000000000000000dfff800000000000000000008ffffb0
    ∷ 0x00000000000000000000000000000dfff80000000000000000004ffffd100000
    ∷ 0x0000000000000000000000000dfff8000000000000000000cfffffffffffffff
    ∷ 0xfffffffffffffffffffffffffffffffffffffff00000afffffffffffffffffff
    ∷ 0xfffffffffffffffffffffffffffffffffff000007fffffffffffffffffffffff
    ∷ 0xfffffffffffffffffffffffffffffff000001cffffffffffffffffffffffffff
    ∷ 0xffffffffffffffffffffffffffa0000000000000000000000000000000000000
    ∷ 0x00000dfff8000000000000000000000000000000000000000000000000000000
    ∷ 0x0dfff80000000000000000000000000000000000000000000000000000000dff
    ∷ 0xf80000000000000000000000000000000000000000000000000000000dfff800
    ∷ 0x00000000000000000000000000000000000000000000000000000dfff8000000
    ∷ 0x0000000000000000000000000000000000000000000000000dfff80000000000
    ∷ 0x000000000000000000000000000000000000000000000dfff800000000000000
    ∷ 0x00000000000000000000000000000000000000000dfff8000000000000000000
    ∷ 0x0000000000000000000000000000000000000dfff80000000000000000000000
    ∷ 0x000000000000000000000000000000000dfff800000000000000000000000000
    ∷ 0x00000000000000000000000000000dfff8000000000000000000000000000000
    ∷ 0x0000000000000000000000000dfff80000000000000000000000000000000000
    ∷ 0x000000000000000000000dfff800000000000000000000000000000000000000
    ∷ 0x00000000000000000dfff8000000000000000000000000000000000000000000
    ∷ 0x0000000000000dfff80000000000000000000000000000000000000000000000
    ∷ 0x000000000dfff800000000000000000000000000000000000000000000000000
    ∷ 0x00000dfff8000000000000000000000000000000000000000000000000000000
    ∷ 0x0dfff80000000000000000000000000000000000000000000000000000000dff
    ∷ 0xf80000000000000000000000000000000000000000000000000000000dfff800
    ∷ 0x00000000000000000000000000000000000000000000000000000dfff8000000
    ∷ 0x000000000000000000000000003fffffffffffffffffffffffffffffffff0000
    ∷ 0x00000000000000000000005fffffffffffffffffffffffffffffffff00000000
    ∷ 0x0000000000000000008ffffffffffffffffffffffffffffffffd000000000000
    ∷ 0x00000000000000bffffffffffffffffffffffffffffffec30000000000000000
    ∷ 0x0000000000dfff60000000000000000000000000000000000000000000000000
    ∷ 0x000001ffff300000000000000000000000000000000000000000000000000000
    ∷ 0x03ffff10000000000000000000000000000000000000000000000000000006ff
    ∷ 0xfd00000000000000000000000000000000000000000000000000000008fffb00
    ∷ 0x00000000000000000000000000000000000000000000000000000bfff8000000
    ∷ 0x0000000000000000000000000000000000000000000000000efff60000000000
    ∷ 0x000000000000000000000000000000000000000000001ffff300000000000000
    ∷ 0x00000000000000000000000000000000000000004ffff1000000000000000000
    ∷ 0x0000000000000000000000000000000000006fffd00000000000000000000000
    ∷ 0x000000000000000000000000000000009fffb000000000000000000000000000
    ∷ 0x0000000000000000000000000000cfff80000000000000000000000000000000
    ∷ 0x000000000000000000000000efff500000000000000000000000000000000000
    ∷ 0x00000000000000000002ffff3000000000000000000000000000000000000000
    ∷ 0x0000000000000004ffff00000000000000000000000000000000000000000000
    ∷ 0x000000000007fffd000000000000000000000000000000000000000000000000
    ∷ 0x00000009fffa0000000000000000000000000000000000000000000000000000
    ∷ 0x000cfff80000000000000000000000000000000000000000000000000000000e
    ∷ 0xfff50000000000000000000000000000000000000000000000000000002ffff3
    ∷ 0x0000000000000000000000000000000000000000000000000000005ffff00000
    ∷ 0x000000000000000000000000000000000000000000000000007fffd000000000
    ∷ 0x0000000000000000000000000000000000000000000000afffa0000000000000
    ∷ 0x000000000000000000000000000000000000000000cfff700000000000000000
    ∷ 0x00000000000000000000000000000000000000ffff5001469acdeeffedca7410
    ∷ 0x0000000000000000000000000000000003ffff8adffffffffffffffffffb6100
    ∷ 0x000000000000000000000000000005fffffffffffffffffffffffffffe920000
    ∷ 0x00000000000000000000000008ffffffffffffffffffffffffffffff80000000
    ∷ 0x000000000000000000000afffffffeb8642110012469cffffffffc3000000000
    ∷ 0x000000000000000004aefe952000000000000000027dffffffe4000000000000
    ∷ 0x00000000000000002000000000000000000000006effffff5000000000000000
    ∷ 0x00000000000000000000000000000000000001afffffe3000000000000000000
    ∷ 0x000000000000000000000000000000000007fffffd1000000000000000000000
    ∷ 0x000000000000000000000000000000007fffffa0000000000000000000000000
    ∷ 0x000000000000000000000000000009fffff30000000000000000000000000000
    ∷ 0x00000000000000000000000001dffffb00000000000000000000000000000000
    ∷ 0x00000000000000000000005fffff200000000000000000000000000000000000
    ∷ 0x0000000000000000000cffff8000000000000000000000000000000000000000
    ∷ 0x0000000000000006ffffd0000000000000000000000000000000000000000000
    ∷ 0x000000000001fffff20000000000000000000000000000000000000000000000
    ∷ 0x00000000cffff600000000000000000000000000000000000000000000000000
    ∷ 0x00009ffff9000000000000000000000000000000000000000000000000000000
    ∷ 0x6ffffb0000000000000000000000000000000000000000000000000000004fff
    ∷ 0xfc0000000000000000000000000000000000000000000000000000002ffffd00
    ∷ 0x00000000000000000000000000000000000000000000000000002ffffe000000
    ∷ 0x0000000000000000000000000000000000000000000000002ffffe0000000000
    ∷ 0x000000000000000000000000000000000000000000002ffffd00000000000000
    ∷ 0x00000000000000000000000000000000000000003ffffd000000000000000000
    ∷ 0x0000000000000000000000000000000000005ffffb0000000000000000000000
    ∷ 0x000000000000000000000000000000006ffff900000000000000000000000000
    ∷ 0x00000000000000000000000000009ffff7000000000000000000000000000000
    ∷ 0x000000000000000000000000dffff30000000000000000000000000000000000
    ∷ 0x00000000000000000002ffffe000000000000000000000000000000000000000
    ∷ 0x0000000000000007ffffa0000000000000000000000000000000000000000000
    ∷ 0x00000000000cffff500000000000000000000000000000000000000000000000
    ∷ 0x0000004ffffe0000000000000000000000000000000000000000000000000000
    ∷ 0x00cffff7000000000000000000000000000000000000000000000000000006ff
    ∷ 0xffe100000000000000000000000000000000000000000000000000002effff50
    ∷ 0x0000000000000000000000000000000000000000000000000001cffffb000000
    ∷ 0x00000000000000000000000000000000000000000000001cffffe10000000000
    ∷ 0x00000000001bfb3000000000000000000000000002cfffff3000000000000000
    ∷ 0x0000009ffff92000000000000000000000005efffff400000000000000000000
    ∷ 0x05fffffff9300000000000000000003bfffffe4000000000000000000000008f
    ∷ 0xfffffffb61000000000000015bffffffd300000000000000000000000003cfff
    ∷ 0xffffffc96321001247befffffffa100000000000000000000000000005dfffff
    ∷ 0xfffffffffffffffffffffc4000000000000000000000000000000005bfffffff
    ∷ 0xfffffffffffffffc500000000000000000000000000000000000026bffffffff
    ∷ 0xffffffffd83000000000000000000000000000000000000000000369bdeefeed
    ∷ 0xb962000000000000000000000000000000000000000000000000000000000000
    ∷ 0x0019effff30000000000000000000000000000000000000000000000000000bf
    ∷ 0xffff600000000000000000000000000000000000000000000000000007fffffa
    ∷ 0x00000000000000000000000000000000000000000000000000003fffffd10000
    ∷ 0x000000000000000000000000000000000000000000000001dfffff3000000000
    ∷ 0x0000000000000000000000000000000000000000000afffff600000000000000 ∷ []
