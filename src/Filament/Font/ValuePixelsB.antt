-- ===== src/Filament/Font/ValuePixelsB.antt =====
-- smooth_font.h, valueFontPixels: lines 918 to 1066, 32 bytes to a row, the first byte highest.
use house_panel.Base.{ℕ, List, [], ◌∷◌}

unfoldable pub value_pixels_b : List ℕ
value_pixels_b =
    0x00000001cffffffa000000000000000000000000000000000bffffffc1000000
    ∷ 0x00000000000000000000000000affffffd200000000000000000000000000000
    ∷ 0x0009ffffffe2000000000000000000000000000000008ffffffe300000000000
    ∷ 0x0000000000000000000007ffffffe4000000000000000000000000000000007f
    ∷ 0xffffff4000000000000000000000000000000006fffffff50000000000000000
    ∷ 0x00000000000000006fffffff5000000000000000000000000000000006ffffff
    ∷ 0xf6000000000000000000000000000000005fffffff7000000000000000000000
    ∷ 0x000000000005fffffff7000000000000000000000000000000004fffffff8000
    ∷ 0x000000000000000000000000000004fffffff800000000000000000000000000
    ∷ 0x0000004effffff9000000000000000000000000000000003effffff900000000
    ∷ 0x0000000000000000000000003effffffa0000000000000000000000000000000
    ∷ 0x03effffffa000000000000000000000000000000002effffffb0000000000000
    ∷ 0x00000000000000000002effffffb100000000000000000000000000000002dff
    ∷ 0xffffd69bdeffffffffffffffffffc200000000dfffffffffffffffffffffffff
    ∷ 0xfffffffa00000006fffffffffffffffffffffffffffffffffc00000009ffffff
    ∷ 0xfffffffffffffffffffffffffffc00000009ffffffffffffffffffffffffffff
    ∷ 0xfffffc00000009fffffffffffffffffffffffffffffffffc0000000000000000
    ∷ 0x000269cdefedb8410000000000000000000000000016cffffffffffffe820000
    ∷ 0x00000000000000000005efffffffffffffffff8000000000000000000001bfff
    ∷ 0xfffffffffffffffffb1000000000000000001dffffffffffffffffffffffd100
    ∷ 0x00000000000001cfffffffe95210248efffffffb0000000000000009fffffff9
    ∷ 0x10000000018fffffff700000000000003fffffff50000000000005ffffffe100
    ∷ 0x0000000000affffff4000000000000007ffffff8000000000001ffffff800000
    ∷ 0x00000000000dfffffd000000000007fffffe100000000000000006ffffff2000
    ∷ 0x0000000bfffff9000000000000000002ffffff50000000000efffff400000000
    ∷ 0x0000000000dfffff70000000003fffffc0000000000000000000cfffff800000
    ∷ 0x000003589820000000000000000000bfffff8000000000000000000000000000
    ∷ 0x00000000bfffff700000000000000000000000000000000000cfffff60000000
    ∷ 0x0000000000000000000000000000efffff300000000000000000000000000000
    ∷ 0x000004ffffff00000000000000000000000000000000000afffffa0000000000
    ∷ 0x0000000000000000000000002ffffff400000000000000000000000000000000
    ∷ 0x01dfffffb0000000000000000000000000000000003cfffffe20000000000000
    ∷ 0x00000000000000000028ffffffe30000000000000000000000000001247bffff
    ∷ 0xfffd3000000000000000000000000000dfffffffffff81000000000000000000
    ∷ 0x0000000000dffffffffe71000000000000000000000000000000dfffffffffd8
    ∷ 0x200000000000000000000000000000dffffffffffffa20000000000000000000
    ∷ 0x00000000dfffffffffffffe600000000000000000000000000011247aeffffff
    ∷ 0xff70000000000000000000000000000000005cfffffff6000000000000000000
    ∷ 0x00000000000000008ffffffe200000000000000000000000000000000007ffff
    ∷ 0xff900000000000000000000000000000000000cfffffe1000000000000000000
    ∷ 0x00000000000000005ffffff400000000000000000000000000000000001fffff
    ∷ 0xf800000000000000000000000000000000000dfffff900000000000000000000
    ∷ 0x000000000000000bfffffb00000000003410000000000000000000000bfffffb
    ∷ 0x000000017dffe3000000000000000000000cfffffa0000000bfffffb00000000
    ∷ 0x0000000000000efffff800000006ffffff400000000000000000004ffffff500
    ∷ 0x000001efffffb0000000000000000000bffffff1000000008ffffff600000000
    ∷ 0x0000000005ffffffa0000000002ffffffe30000000000000002effffff300000
    ∷ 0x000008ffffffe400000000000004effffff9000000000000dfffffff81000000
    ∷ 0x00018fffffffd10000000000003efffffffe94210135aefffffffe3000000000
    ∷ 0x000004efffffffffffffffffffffffe300000000000000003dffffffffffffff
    ∷ 0xfffffffc200000000000000000019ffffffffffffffffffe7000000000000000
    ∷ 0x000000029efffffffffffffd610000000000000000000000000158bdefffeca7
    ∷ 0x300000000000000000000000000000000000000007fffffd0000000000000000
    ∷ 0x0000000000000000003ffffffd0000000000000000000000000000000001dfff
    ∷ 0xfffd000000000000000000000000000000000bfffffffd000000000000000000
    ∷ 0x000000000000007ffffffffd00000000000000000000000000000004ffffffff
    ∷ 0xfd0000000000000000000000000000001dfffffffffd00000000000000000000
    ∷ 0x0000000000bfffffdffffd000000000000000000000000000007fffffb8ffffd
    ∷ 0x00000000000000000000000000004fffffe2affffd0000000000000000000000
    ∷ 0x000001efffff40affffd000000000000000000000000000bfffff800bffffd00
    ∷ 0x0000000000000000000000008fffffc000bffffd000000000000000000000000
    ∷ 0x04fffffe2000bffffd0000000000000000000000001efffff50000bffffd0000
    ∷ 0x00000000000000000000bfffff900000bffffd000000000000000000000008ff
    ∷ 0xfffd100000bffffd00000000000000000000004ffffff3000000bffffd000000
    ∷ 0x0000000000000002efffff60000000bffffd000000000000000000000bfffffa
    ∷ 0x00000000bffffd000000000000000000008fffffd100000000bffffd00000000
    ∷ 0x000000000004ffffff4000000000bffffd0000000000000000002efffff70000
    ∷ 0x000000bffffd000000000000000000cfffffb00000000000bffffd0000000000
    ∷ 0x00000008fffffe100000000000bffffd00000000000000005ffffff400000000
    ∷ 0x0000bffffd0000000000000002efffff80000000000000bffffd000000000000
    ∷ 0x000cfffffc00000000000000bffffd000000000000009fffffe2000000000000
    ∷ 0x00bffffd00000000000005ffffff5000000000000000bffffd0000000000002e
    ∷ 0xfffff90000000000000000bffffd000000000000cfffffd10000000000000000
    ∷ 0xbffffd000000000009ffffff300000000000000000bffffd00000000001fffff
    ∷ 0xfffffffffffffffffffffffffffffffffb000effffffffffffffffffffffffff
    ∷ 0xfffffffffffb000bfffffffffffffffffffffffffffffffffffffb0008ffffff
    ∷ 0xfffffffffffffffffffffffffffffffa0001bfffffffffffffffffffffffffff
    ∷ 0xffffffffe50000000000000000000000000000bffffd00000000000000000000
    ∷ 0x0000000000000000bffffd000000000000000000000000000000000000bffffd
    ∷ 0x000000000000000000000000000000000000bffffd0000000000000000000000
    ∷ 0x00000000000000bffffd000000000000000000000000000000000000bffffd00
    ∷ 0x0000000000000000000000000000000000bffffd000000000000000000000000
    ∷ 0x000000000000bffffd000000000000000000000000000000000000bffffd0000
    ∷ 0x00000000000000000000000000000000bffffd00000000000000000000000000
    ∷ 0x0000000000bffffd000000000000000000000000000000000000bffffd000000
    ∷ 0x000000000000000000000000000000bffffd0000000000000000000000000000
    ∷ 0x00000000bffffd000000000000000000003ffffffffffffffffffffffff50000
    ∷ 0x0000000000005ffffffffffffffffffffffff500000000000000008fffffffff
    ∷ 0xfffffffffffffff50000000000000000affffffffffffffffffffffff4000000
    ∷ 0x0000000000cfffffffffffffffffffffffd00000000000000000ffffffffffff
    ∷ 0xffffffffffeb200000000000000002fffff50000000000000000000000000000
    ∷ 0x00000005fffff2000000000000000000000000000000000007fffff000000000
    ∷ 0x000000000000000000000000000affffd0000000000000000000000000000000
    ∷ 0x00000cffffa000000000000000000000000000000000000effff800000000000
    ∷ 0x0000000000000000000000002fffff5000000000000000000000000000000000
    ∷ 0x004fffff3000000000000000000000000000000000007fffff10000000000000
    ∷ 0x00000000000000000000009ffffd000000000000000000000000000000000000
    ∷ 0xcffffb000000000000000000000000000000000000effff80000000000000000
    ∷ 0x00000000000000000002fffff6000000000000000000000000000000000004ff
    ∷ 0xfff4000000000000000000000000000000000006fffff568bcdefeeca7300000
    ∷ 0x000000000000000009fffffffffffffffffffd610000000000000000000bffff
    ∷ 0xfffffffffffffffffd5000000000000000000efffffffffffffffffffffffa10
    ∷ 0x000000000000001fffffffffffffffffffffffffc1000000000000001aeffffc
    ∷ 0x8531001359effffffffb0000000000000000048610000000000006efffffff70
    ∷ 0x000000000000000000000000000000002cffffffe20000000000000000000000
    ∷ 0x000000000001cffffff800000000000000000000000000000000002ffffffe00
    ∷ 0x0000000000000000000000000000000009ffffff400000000000000000000000
    ∷ 0x000000000003ffffff800000000000000000000000000000000000efffffb000
    ∷ 0x00000000000000000000000000000000afffffd0000000000000000000000000
    ∷ 0x00000000009fffffe000000000000000000000000000000000008fffffe00000
    ∷ 0x0000000000000000000000000000009fffffd000000000000000000000000000
    ∷ 0x00000000afffffc00000000000000000000000000000000000cfffffa0000000
    ∷ 0x0000000000000000000000000001ffffff700000000000000000000000000000
    ∷ 0x000004ffffff40000000000000000000000000000000000bfffffe0000000000
    ∷ 0x0000000000000000000000003ffffff800000000000000000000000000000000
    ∷ 0x01cffffff2000000000000397100000000000000000affffff80000000000002
    ∷ 0xeffe6000000000000001bffffffd1000000000000cfffffc5000000000005dff
    ∷ 0xfffff30000000000008ffffffffe952101248dffffffff400000000000007fff
    ∷ 0xffffffffffffffffffffffe40000000000000003cffffffffffffffffffffffc
    ∷ 0x20000000000000000005cffffffffffffffffffe700000000000000000000004
    ∷ 0xaefffffffffffffc610000000000000000000000000047aceefeec9620000000
    ∷ 0x00000000000000000000000000000000006cfffffd1000000000000000000000
    ∷ 0x00000000000afffffff4000000000000000000000000000000006fffffff7000
    ∷ 0x000000000000000000000000000003fffffffb00000000000000000000000000
    ∷ 0x0000001dffffffd1000000000000000000000000000000009fffffff30000000
    ∷ 0x00000000000000000000000005fffffff7000000000000000000000000000000
    ∷ 0x002effffffa000000000000000000000000000000000cffffffd100000000000
    ∷ 0x0000000000000000000008fffffff3000000000000000000000000000000004f
    ∷ 0xffffff6000000000000000000000000000000001effffffa0000000000000000
    ∷ 0x00000000000000000bffffffd1000000000000000000000000000000007fffff
    ∷ 0xff3000000000000000000000000000000003fffffff600000000000000000000
    ∷ 0x0000000000001dffffffa000000000000000000000000000000000affffffd10
    ∷ 0x00000000000000000000000000000006fffffff3000000000000000000000000
    ∷ 0x000000003fffffff6000000000000000000000000000000001dffffffa000000
    ∷ 0x0000000000000000000000000009ffffffd10000000000000000000000000000
    ∷ 0x00004fffffff3048bdefedb73000000000000000000001dffffff77dffffffff
    ∷ 0xfffd60000000000000000008ffffffedfffffffffffffffd4000000000000000
    ∷ 0x2ffffffffffffffffffffffffff7000000000000009fffffffffffffffffffff
    ∷ 0xffffff80000000000001ffffffffffe95210237bfffffffff6000000000008ff
    ∷ 0xffffffe710000000002affffffff20000000000dfffffffd200000000000006f
    ∷ 0xffffffa0000000003fffffffc10000000000000006fffffff4000000007fffff
    ∷ 0xfe2000000000000000009ffffffa00000000bffffff70000000000000000001e
    ∷ 0xfffffe00000000dfffffe000000000000000000009ffffff40000000ffffff90
    ∷ 0x00000000000000000004ffffff60000001ffffff5000000000000000000000ff
    ∷ 0xffff80000001ffffff2000000000000000000000efffff90000001ffffff1000
    ∷ 0x000000000000000000cfffff90000000ffffff1000000000000000000000cfff
    ∷ 0xff90000000dfffff3000000000000000000000efffff70000000bfffff500000
    ∷ 0x0000000000000001ffffff500000007fffff8000000000000000000005ffffff
    ∷ 0x100000003fffffd00000000000000000000afffffc000000000dfffff4000000 ∷ []
