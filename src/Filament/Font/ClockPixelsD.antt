-- ===== src/Filament/Font/ClockPixelsD.antt =====
-- smooth_font.h, clockFontPixels: lines 455 to 603, 32 bytes to a row, the first byte highest.
use house_panel.Base.{ℕ, List, [], ◌∷◌}

unfoldable pub clock_pixels_d : List ℕ
clock_pixels_d =
    0x000000000000000000000000000000000000006fffffa0000000000000000000
    ∷ 0x0000000000000000000000000000000003effffd100000000000000000000000
    ∷ 0x00000000000000000000000000001dfffff30000000000000000000000000000
    ∷ 0x0000000000000000000000009fffff7000000000000000000000000000000000
    ∷ 0x00000000000000000005fffffa00000000000000000000000000000000000000
    ∷ 0x000000000000002effffd1000000000000000000000000000000000000000000
    ∷ 0x0000000000cfffff300000000000000000000000000000000000000000000000
    ∷ 0x000008fffff70000000000000000000000000000000000000000000000000000
    ∷ 0x4fffffb00000000000000000000000000000000000000000000000000002efff
    ∷ 0xfd10000000000000000000000000000000000000000000000000000bfffff300
    ∷ 0x000000000000000000000000000000000000000000000000008fffff70000000
    ∷ 0x0000000000000000000000000000000000000000000004fffffb000000000000
    ∷ 0x00000000000000000000000000000000000000001dffffd10000000000000000
    ∷ 0x000000000000000000000000000000000000bfffff4000000000000000000000
    ∷ 0x00000000000000000000000000000007fffff700000000000000000000000000
    ∷ 0x000000000000000000000000003fffffb0000000000000000000000000000000
    ∷ 0x0000000000000000000001dffffe100000000000000000000000000000000000
    ∷ 0x00000000000000000afffff40000000000000000000000000000000000000000
    ∷ 0x0000000000006fffff7000000000000000000000000000000000000000000000
    ∷ 0x00000002effffb00000000000000000000000000000000000000000000000000
    ∷ 0x001cffffe100000000000000000000000000000000000000000000000000009f
    ∷ 0xffff400000000000000000000000000000000000000000000000000004fffff8
    ∷ 0x00000000000000000000000000000000000000000000000000001effffb00000
    ∷ 0x269cdefeedb8510000000000000000000000000000000000affffe20017dffff
    ∷ 0xffffffffffb600000000000000000000000000000005fffff5019fffffffffff
    ∷ 0xffffffffe700000000000000000000000000001effff906effffffffffffffff
    ∷ 0xffffffd4000000000000000000000000009ffffe2bfffffc85311012469dffff
    ∷ 0xffff80000000000000000000000003fffff7dfffd7100000000000003affffff
    ∷ 0xfa10000000000000000000000bffffcdffe60000000000000000002affffffb0
    ∷ 0x000000000000000000004ffffffff910000000000000000000005efffffa0000
    ∷ 0x0000000000000000bfffffff60000000000000000000000003dfffff60000000
    ∷ 0x000000000003ffffffe4000000000000000000000000002effffe20000000000
    ∷ 0x0000000affffff500000000000000000000000000003fffffa00000000000000
    ∷ 0x001efffff70000000000000000000000000000007fffff20000000000000006f
    ∷ 0xffffc00000000000000000000000000000000dffff9000000000000000bfffff
    ∷ 0x3000000000000000000000000000000006ffffe100000000000000effffa0000
    ∷ 0x000000000000000000000000000000effff500000000000004fffff300000000
    ∷ 0x000000000000000000000000009ffffa00000000000007ffffd0000000000000
    ∷ 0x00000000000000000000004ffffd0000000000000affff800000000000000000
    ∷ 0x0000000000000000001fffff1000000000000cffff4000000000000000000000
    ∷ 0x000000000000000cffff3000000000000dffff20000000000000000000000000
    ∷ 0x00000000000affff5000000000000effff000000000000000000000000000000
    ∷ 0x00000009ffff6000000000000dfffe0000000000000000000000000000000000
    ∷ 0x0008ffff6000000000000dfffe00000000000000000000000000000000000008
    ∷ 0xffff6000000000000cfffe00000000000000000000000000000000000008ffff
    ∷ 0x5000000000000affff10000000000000000000000000000000000009ffff4000
    ∷ 0x0000000009ffff2000000000000000000000000000000000000bffff20000000
    ∷ 0x000006ffff5000000000000000000000000000000000000effff000000000000
    ∷ 0x03ffff8000000000000000000000000000000000002ffffc00000000000000ef
    ∷ 0xffc000000000000000000000000000000000006ffff800000000000000affff2
    ∷ 0x0000000000000000000000000000000000bffff4000000000000005ffff80000
    ∷ 0x000000000000000000000000000003ffffd0000000000000001efffe10000000
    ∷ 0x0000000000000000000000000affff700000000000000008ffff800000000000
    ∷ 0x000000000000000000003ffffe100000000000000002fffff200000000000000
    ∷ 0x0000000000000001dffff70000000000000000008ffffc100000000000000000
    ∷ 0x00000000000affffd00000000000000000001dffffa000000000000000000000
    ∷ 0x0000008fffff3000000000000000000004fffffa000000000000000000000000
    ∷ 0x09fffff700000000000000000000006fffffc20000000000000000000002cfff
    ∷ 0xff80000000000000000000000008fffffe600000000000000000018ffffff900
    ∷ 0x0000000000000000000000007ffffffd61000000000000038effffff70000000
    ∷ 0x0000000000000000000005efffffffb74210012469dfffffffd4000000000000
    ∷ 0x0000000000000000002afffffffffffffffffffffffff9100000000000000000
    ∷ 0x00000000000000004bfffffffffffffffffffff9200000000000000000000000
    ∷ 0x0000000000000039efffffffffffffffc7100000000000000000000000000000
    ∷ 0x0000000000000369bdeffeeca85100000000000000000000000000008fffffff
    ∷ 0xfffffffffffffffffffffffffffffffffffffffff700000000008fffffffffff
    ∷ 0xfffffffffffffffffffffffffffffffffffff700000000007fffffffffffffff
    ∷ 0xfffffffffffffffffffffffffffffffff600000000003effffffffffffffffff
    ∷ 0xfffffffffffffffffffffffffffff40000000000000000000000000000000000
    ∷ 0x00000000000000000002efffd000000000000000000000000000000000000000
    ∷ 0x000000000000000bffff60000000000000000000000000000000000000000000
    ∷ 0x00000000004ffffd000000000000000000000000000000000000000000000000
    ∷ 0x000000cffff60000000000000000000000000000000000000000000000000000
    ∷ 0x04ffffd000000000000000000000000000000000000000000000000000000cff
    ∷ 0xff6000000000000000000000000000000000000000000000000000005ffffd00
    ∷ 0x0000000000000000000000000000000000000000000000000000cffff6000000
    ∷ 0x000000000000000000000000000000000000000000000005ffffd00000000000
    ∷ 0x0000000000000000000000000000000000000000000cffff6000000000000000
    ∷ 0x000000000000000000000000000000000000005ffffd00000000000000000000
    ∷ 0x0000000000000000000000000000000000cffff6000000000000000000000000
    ∷ 0x000000000000000000000000000005ffffd00000000000000000000000000000
    ∷ 0x0000000000000000000000000cffff6000000000000000000000000000000000
    ∷ 0x000000000000000000005ffffd00000000000000000000000000000000000000
    ∷ 0x0000000000000000cffff6000000000000000000000000000000000000000000
    ∷ 0x000000000005ffffd00000000000000000000000000000000000000000000000
    ∷ 0x0000000dffff6000000000000000000000000000000000000000000000000000
    ∷ 0x005ffffd000000000000000000000000000000000000000000000000000000df
    ∷ 0xfff6000000000000000000000000000000000000000000000000000005ffffd0
    ∷ 0x00000000000000000000000000000000000000000000000000000dffff600000
    ∷ 0x0000000000000000000000000000000000000000000000005ffffd0000000000
    ∷ 0x00000000000000000000000000000000000000000000dffff600000000000000
    ∷ 0x0000000000000000000000000000000000000006ffffd0000000000000000000
    ∷ 0x00000000000000000000000000000000000dffff600000000000000000000000
    ∷ 0x0000000000000000000000000000006ffffd0000000000000000000000000000
    ∷ 0x00000000000000000000000000dffff600000000000000000000000000000000
    ∷ 0x0000000000000000000006ffffd0000000000000000000000000000000000000
    ∷ 0x00000000000000000dffff600000000000000000000000000000000000000000
    ∷ 0x0000000000006ffffd0000000000000000000000000000000000000000000000
    ∷ 0x00000000dffff600000000000000000000000000000000000000000000000000
    ∷ 0x0006ffffd000000000000000000000000000000000000000000000000000000d
    ∷ 0xffff6000000000000000000000000000000000000000000000000000006ffffd
    ∷ 0x000000000000000000000000000000000000000000000000000000dffff60000
    ∷ 0x00000000000000000000000000000000000000000000000006ffffd000000000
    ∷ 0x000000000000000000000000000000000000000000000dffff60000000000000
    ∷ 0x00000000000000000000000000000000000000006ffffd000000000000000000
    ∷ 0x000000000000000000000000000000000000dffff60000000000000000000000
    ∷ 0x00000000000000000000000000000006ffffd000000000000000000000000000
    ∷ 0x000000000000000000000000000dffff60000000000000000000000000000000
    ∷ 0x00000000000000000000007ffffd000000000000000000000000000000000000
    ∷ 0x000000000000000001effff60000000000000000000000000000000000000000
    ∷ 0x00000000000007ffffd000000000000000000000000000000000000000000000
    ∷ 0x000000001effff60000000000000000000000000000000000000000000000000
    ∷ 0x00007ffffd000000000000000000000000000000000000000000000000000001
    ∷ 0xeffff6000000000000000000000000000000000000000000000000000007ffff
    ∷ 0xd000000000000000000000000000000000000000000000000000001effff6000
    ∷ 0x000000000000000000000000000000000000000000000000007ffffd00000000
    ∷ 0x0000000000000000000000000000000000000000000001effff6000000000000
    ∷ 0x000000000000000000000000000000000000000007ffffd00000000000000000
    ∷ 0x0000000000000000000000000000000000001effff6000000000000000000000
    ∷ 0x000000000000000000000000000000007ffffd00000000000000000000000000
    ∷ 0x0000000000000000000000000001effff6000000000000000000000000000000
    ∷ 0x000000000000000000000007ffffd00000000000000000000000000000000000
    ∷ 0x0000000000000000001effff6000000000000000000000000000000000000000
    ∷ 0x000000000000007ffffd00000000000000000000000000000000000000000000
    ∷ 0x0000000001effff6000000000000000000000000000000000000000000000000
    ∷ 0x000007ffffd00000000000000000000000000000000000000000000000000000
    ∷ 0x1effff6000000000000000000000000000000000000000000000000000008fff
    ∷ 0xfd000000000000000000000000000000000000000000000000000001effff600
    ∷ 0x0000000000000000000000000000000000000000000000000008ffffd0000000
    ∷ 0x00000000000000000000000000000000000000000000001effff600000000000
    ∷ 0x0000000000000000000000000000000000000000008ffffd0000000000000000
    ∷ 0x00000000000000000000000000000000000001effff600000000000000000000
    ∷ 0x0000000000000000000000000000000008ffffd0000000000000000000000000
    ∷ 0x00000000000000000000000000001effeb200000000000000000000000000000
    ∷ 0x000000000000000000000000000000000369bdeffedca7410000000000000000
    ∷ 0x0000000000000000000000000028dffffffffffffffea5000000000000000000
    ∷ 0x000000000000000000003bffffffffffffffffffffd600000000000000000000
    ∷ 0x0000000000000019ffffffffffffffffffffffffc30000000000000000000000
    ∷ 0x0000000003dfffffffb8531001247aefffffff70000000000000000000000000
    ∷ 0x00005efffffe8100000000000006dffffff90000000000000000000000000004
    ∷ 0xffffff81000000000000000006efffffa00000000000000000000000002effff
    ∷ 0xe4000000000000000000002cfffff7000000000000000000000000cffffd2000
    ∷ 0x00000000000000000000afffff400000000000000000000007ffffe200000000
    ∷ 0x00000000000000000bffffd0000000000000000000001effff40000000000000
    ∷ 0x00000000000002effff6000000000000000000008ffffa000000000000000000
    ∷ 0x00000000006ffffd00000000000000000000effff20000000000000000000000
    ∷ 0x0000000dffff40000000000000000004ffffb000000000000000000000000000
    ∷ 0x0007ffff90000000000000000008ffff60000000000000000000000000000002
    ∷ 0xffffd000000000000000000bffff20000000000000000000000000000000dfff ∷ []
