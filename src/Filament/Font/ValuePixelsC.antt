-- ===== src/Filament/Font/ValuePixelsC.antt =====
-- smooth_font.h, valueFontPixels: lines 1067 to 1215, 32 bytes to a row, the first byte highest.
use house_panel.Base.{ℕ, List, [], ◌∷◌}

unfoldable pub value_pixels_c : List ℕ
value_pixels_c =
    0x0000000000003ffffff70000000008fffffc000000000000000000bfffffe100
    ∷ 0x00000001efffff800000000000000009ffffff8000000000007ffffff8000000
    ∷ 0x00000001affffffd1000000000000cffffffb300000000005dfffffff3000000
    ∷ 0x00000002efffffffb73201248dffffffff50000000000000003effffffffffff
    ∷ 0xffffffffffe5000000000000000002cffffffffffffffffffffd300000000000
    ∷ 0x0000000018fffffffffffffffffe81000000000000000000000028efffffffff
    ∷ 0xfffe8100000000000000000000000000048bdeffedb840000000000000000002
    ∷ 0xffffffffffffffffffffffffffffffffffe0000002ffffffffffffffffffffff
    ∷ 0xffffffffffffe0000002ffffffffffffffffffffffffffffffffffe0000002ff
    ∷ 0xffffffffffffffffffffffffffffffffd0000001ffffffffffffffffffffffff
    ∷ 0xffffffffffb00000008fffffffffffffffffffffffffffffffff600000000000
    ∷ 0x000000000000000000000001effffe1000000000000000000000000000000000
    ∷ 0x0bfffff800000000000000000000000000000000005fffffe100000000000000
    ∷ 0x00000000000000000000dfffff800000000000000000000000000000000006ff
    ∷ 0xfffe10000000000000000000000000000000000dfffff8000000000000000000
    ∷ 0x00000000000000006ffffff10000000000000000000000000000000000dfffff
    ∷ 0x900000000000000000000000000000000006ffffff2000000000000000000000
    ∷ 0x0000000000000dfffff900000000000000000000000000000000006ffffff200
    ∷ 0x00000000000000000000000000000000dfffff90000000000000000000000000
    ∷ 0x0000000006ffffff20000000000000000000000000000000000dfffff9000000
    ∷ 0x00000000000000000000000000007ffffff20000000000000000000000000000
    ∷ 0x000001efffff900000000000000000000000000000000007ffffff2000000000
    ∷ 0x0000000000000000000000001efffffa00000000000000000000000000000000
    ∷ 0x007ffffff20000000000000000000000000000000001efffffa0000000000000
    ∷ 0x0000000000000000000007ffffff30000000000000000000000000000000001e
    ∷ 0xfffffa00000000000000000000000000000000007ffffff30000000000000000
    ∷ 0x000000000000000001efffffa00000000000000000000000000000000007ffff
    ∷ 0xff30000000000000000000000000000000001efffffb00000000000000000000
    ∷ 0x000000000000008ffffff30000000000000000000000000000000001efffffb0
    ∷ 0x0000000000000000000000000000000008ffffff300000000000000000000000
    ∷ 0x00000000001efffffb00000000000000000000000000000000008ffffff40000
    ∷ 0x000000000000000000000000000001efffffb000000000000000000000000000
    ∷ 0x00000008ffffff40000000000000000000000000000000001efffffc00000000
    ∷ 0x000000000000000000000000008ffffff4000000000000000000000000000000
    ∷ 0x0001efffffc00000000000000000000000000000000008ffffff400000000000
    ∷ 0x00000000000000000000001efffffc0000000000000000000000000000000000
    ∷ 0x9ffffff50000000000000000000000000000000002ffffffc000000000000000
    ∷ 0x00000000000000000009ffffff50000000000000000000000000000000002fff
    ∷ 0xfffc00000000000000000000000000000000009ffffff5000000000000000000
    ∷ 0x0000000000000002ffffffc00000000000000000000000000000000009ffffff
    ∷ 0x30000000000000000000000000000000002ffffec40000000000000000000000
    ∷ 0x000000000000000000038bdeffeca7200000000000000000000000000016dfff
    ∷ 0xfffffffffc50000000000000000000000005effffffffffffffffd4000000000
    ∷ 0x0000000000009ffffffffffffffffffff70000000000000000000bffffffffff
    ∷ 0xffffffffffff900000000000000000afffffffd84201259efffffff700000000
    ∷ 0x00000006fffffff700000000019fffffff400000000000001efffffe40000000
    ∷ 0x000006ffffffc00000000000008ffffff5000000000000009ffffff500000000
    ∷ 0x0000efffffa0000000000000000efffffb000000000003ffffff400000000000
    ∷ 0x000007ffffff100000000007fffffe000000000000000003ffffff4000000000
    ∷ 0x09fffffb000000000000000000efffff60000000000afffff900000000000000
    ∷ 0x0000dfffff70000000000afffff9000000000000000000cfffff600000000009
    ∷ 0xfffffa000000000000000000dfffff500000000008fffffc0000000000000000
    ∷ 0x00ffffff300000000005fffffe000000000000000003ffffff100000000001ff
    ∷ 0xffff500000000000000008fffffb000000000000bfffffb0000000000000001e
    ∷ 0xfffff50000000000004ffffff5000000000000009fffffc00000000000000bff
    ∷ 0xfffe40000000000007ffffff3000000000000001dfffffe700000000019fffff
    ∷ 0xf600000000000000003dffffffd84201249effffff50000000000000000002bf
    ∷ 0xffffffffffffffffffc30000000000000000000006dfffffffffffffffc50000
    ∷ 0x000000000000000000005dfffffffffffffffa40000000000000000000017eff
    ∷ 0xfffffffffffffffffc4000000000000000004dfffffffffffffffffffffff800
    ∷ 0x00000000000007ffffffffb63101247cffffffffa00000000000007fffffff92
    ∷ 0x00000000003cfffffff9000000000004fffffff5000000000000008fffffff40
    ∷ 0x000000001dffffff400000000000000008ffffffd0000000006ffffff9000000
    ∷ 0x000000000000cffffff400000000cfffffe10000000000000000004ffffffa00
    ∷ 0x000001ffffffa00000000000000000000efffffd00000004ffffff6000000000
    ∷ 0x00000000000affffff10000006ffffff4000000000000000000008ffffff2000
    ∷ 0x0007ffffff2000000000000000000006ffffff30000008ffffff200000000000
    ∷ 0x0000000006ffffff40000007ffffff3000000000000000000007ffffff300000
    ∷ 0x05ffffff6000000000000000000009ffffff10000003ffffffa0000000000000
    ∷ 0x0000000efffffd00000000efffffe10000000000000000004ffffff900000000
    ∷ 0x9ffffff9000000000000000000cffffff4000000003fffffff50000000000000
    ∷ 0x0008ffffffc0000000000affffffe5000000000000008fffffff400000000001
    ∷ 0xefffffff9200000000004cfffffffa0000000000004fffffffffa63201247cff
    ∷ 0xffffffc100000000000004effffffffffffffffffffffffc1000000000000000
    ∷ 0x3cffffffffffffffffffffff910000000000000000007effffffffffffffffff
    ∷ 0xd400000000000000000000016cffffffffffffffb40000000000000000000000
    ∷ 0x0000269cdeffedb9510000000000000000000000000000037bdeffeca6200000
    ∷ 0x000000000000000000000007dffffffffffffb40000000000000000000000006
    ∷ 0xdffffffffffffffffb3000000000000000000001afffffffffffffffffffe500
    ∷ 0x00000000000000002dffffffffffffffffffffff700000000000000001dfffff
    ∷ 0xffd8420125affffffff5000000000000000bffffffd50000000002affffffe30
    ∷ 0x0000000000008ffffffb10000000000006ffffffc0000000000002ffffffc000
    ∷ 0x0000000000007ffffff5000000000009fffffe20000000000000000bfffffc00
    ∷ 0x000000001ffffff7000000000000000003ffffff30000000006fffffe1000000
    ∷ 0x000000000000bfffff8000000000bfffffa00000000000000000006fffffc000
    ∷ 0x000000efffff700000000000000000002ffffff000000001ffffff5000000000
    ∷ 0x00000000000ffffff200000002ffffff300000000000000000000efffff30000
    ∷ 0x0003ffffff300000000000000000000efffff400000003ffffff400000000000
    ∷ 0x000000000ffffff400000002ffffff600000000000000000002ffffff3000000
    ∷ 0x00ffffff900000000000000000006ffffff200000000dfffffd0000000000000
    ∷ 0x000000bfffffe0000000009ffffff4000000000000000003ffffffc000000000
    ∷ 0x5ffffffb00000000000000000cffffff80000000000dffffff70000000000000
    ∷ 0x009fffffff400000000006fffffff500000000000009fffffffd000000000000
    ∷ 0xdfffffff910000000003cffffffff80000000000003efffffffe95210237bfff
    ∷ 0xfffffff200000000000005ffffffffffffffffffffffffff9000000000000000
    ∷ 0x6fffffffffffffffffffffffff200000000000000003dfffffffffffffffaaff
    ∷ 0xfff800000000000000000006dfffffffffffb45fffffd1000000000000000000
    ∷ 0x00038bdefeca6202efffff40000000000000000000000000000000000cfffff9
    ∷ 0x00000000000000000000000000000000009fffffd10000000000000000000000
    ∷ 0x000000000005ffffff40000000000000000000000000000000002efffff90000
    ∷ 0x000000000000000000000000000001dfffffd100000000000000000000000000
    ∷ 0x0000000affffff30000000000000000000000000000000006ffffff800000000
    ∷ 0x00000000000000000000000003ffffffc0000000000000000000000000000000
    ∷ 0x001dffffff3000000000000000000000000000000000bffffff7000000000000
    ∷ 0x0000000000000000000007ffffffc0000000000000000000000000000000004f
    ∷ 0xfffffe2000000000000000000000000000000002effffff70000000000000000
    ∷ 0x00000000000000000bffffffb0000000000000000000000000000000008fffff
    ∷ 0xfe2000000000000000000000000000000005fffffff600000000000000000000
    ∷ 0x0000000000002effffffb000000000000000000000000000000000cffffffe10
    ∷ 0x00000000000000000000000000000009fffffff5000000000000000000000000
    ∷ 0x000000006fffffffa000000000000000000000000000000003efffffd7000000
    ∷ 0x000000000000000000000000000000000000000158aceefeedb9620000000000
    ∷ 0x0000000000000000000016cfffffffffffffffd8300000000000000000000000
    ∷ 0x0029fffffffffffffffffffffb300000000000000000000018ffffffffffffff
    ∷ 0xfffffffffffa20000000000000000003dfffffffffffffffffffffffffffe500
    ∷ 0x000000000000006fffffffffffffffffffffffffffffff9000000000000008ff
    ∷ 0xffffffffea7421001358dffffffffff80000000000008fffffffffd610000000
    ∷ 0x0000039fffffffe2000000000006ffffffffe6000000000000000002afffff60
    ∷ 0x00000000003ffffffffb1000000000000000000005effb000000000001dfffff
    ∷ 0xffa000000000000000000000001881000000000008fffffffa00000000000000
    ∷ 0x0000000000000000000000002fffffffc1000000000000000000000000000000
    ∷ 0x00000000afffffff3000000000000000000000000000000000000002fffffff8
    ∷ 0x0000000000000000000000000000000000000008ffffffe10000000000000000
    ∷ 0x00000000000000000000000dffffff8000000000000000000000000000000000
    ∷ 0x0000003fffffff20000000000000000000000000000000000000008ffffffc00
    ∷ 0x00000000000000000000000000000000000000bffffff7000000000000000000
    ∷ 0x0000000000000000000000effffff40000000000000000000000000000000000
    ∷ 0x000002fffffff10000000000000000000000000000000000000004ffffffd000
    ∷ 0x00000000000000000000000000000000000006ffffffb0000000000000000000
    ∷ 0x0000000000000000000007ffffffa00000000000000000000000000000000000
    ∷ 0x000008ffffff900000000000000000000000000000000000000008ffffff8000
    ∷ 0x00000000000000000000000000000000000008ffffff80000000000000000000
    ∷ 0x0000000000000000000008ffffff900000000000000000000000000000000000
    ∷ 0x000007ffffffa00000000000000000000000000000000000000006ffffffb000
    ∷ 0x00000000000000000000000000000000000004ffffffd0000000000000000000
    ∷ 0x0000000000000000000002fffffff10000000000000000000000000000000000
    ∷ 0x000000effffff40000000000000000000000000000000000000000cffffff800
    ∷ 0x000000000000000000000000000000000000008ffffffc000000000000000000
    ∷ 0x00000000000000000000004fffffff3000000000000000000000000000000000
    ∷ 0x0000000effffff900000000000000000000000000000000000000009ffffffe1
    ∷ 0x0000000000000000000000000000000000000003fffffff90000000000000000
    ∷ 0x000000000000000000000000bfffffff30000000000000000000000000000000
    ∷ 0x000000004fffffffd1000000000000000000000000000000000000000bffffff
    ∷ 0xfb0000000000000000000000000052000000000002efffffffa0000000000000
    ∷ 0x00000000001bfe3000000000006ffffffffc2000000000000000000002cfffe2
    ∷ 0x00000000000affffffffe60000000000000000006efffffd100000000001cfff
    ∷ 0xffffffc5100000000000016dffffffff4000000000001cffffffffffea642100
    ∷ 0x1247aefffffffff500000000000001bffffffffffffffffffffffffffffffe40
    ∷ 0x0000000000000008ffffffffffffffffffffffffffffc2000000000000000000 ∷ []
