-- ===== src/Filament/Font/ValuePixelsA.antt =====
-- smooth_font.h, valueFontPixels: lines 769 to 917, 32 bytes to a row, the first byte highest.
use house_panel.Base.{ℕ, List, [], ◌∷◌}

unfoldable pub value_pixels_a : List ℕ
value_pixels_a =
    0x000000000048cdfec94000000000000000000000000000000000000000000000
    ∷ 0x003cfffffffffd4000000000000000000000003cffffa000000000000007ffff
    ∷ 0xfffffffff80000000000000000000002effffd100000000000007fffffffffff
    ∷ 0xffff900000000000000000000cfffff300000000000004fffffd62015cfffff6
    ∷ 0x0000000000000000008fffff700000000000000dffffa00000008ffffe200000
    ∷ 0x000000000004fffffb000000000000006ffffd000000000bffff800000000000
    ∷ 0x00001effffd100000000000000cffff50000000002ffffe100000000000000bf
    ∷ 0xffff4000000000000002ffffe00000000000bffff400000000000007fffff700
    ∷ 0x00000000000006ffff9000000000006ffff80000000000004fffffb000000000
    ∷ 0x00000009ffff6000000000003ffffb000000000001dffffe1000000000000000
    ∷ 0x0affff4000000000001ffffd00000000000bfffff400000000000000000bffff
    ∷ 0x3000000000000ffffe00000000007fffff8000000000000000000cffff300000
    ∷ 0x0000000ffffe0000000003fffffc0000000000000000000cffff300000000000
    ∷ 0x0ffffe000000001dffffe20000000000000000000affff4000000000001ffffd
    ∷ 0x00000000afffff5000000000000000000009ffff6000000000003ffffb000000
    ∷ 0x06fffff90000000000000000000006ffff9000000000006ffff80000003fffff
    ∷ 0xc00000000000000000000002ffffd00000000000affff4000001dffffe200000
    ∷ 0x000000000000000000dffff40000000001ffffe000000afffff5000000000000
    ∷ 0x0000000000006ffffc000000000affff7000006fffff90000000000000000000
    ∷ 0x0000001effff900000007ffffe100002effffc10000000000000000000000000
    ∷ 0x04fffffc52015bfffff400001cffffe200000000000000000000000000008fff
    ∷ 0xffffffffffff7000009fffff60000000000000000000000000000007ffffffff
    ∷ 0xfffff6000005fffffa000000000000000000000000000000003cfffffffffb30
    ∷ 0x00002effffd1000000000000000000000000000000000048cefec830000000cf
    ∷ 0xffff3000000000000000000000000000000000000000000000000009fffff600
    ∷ 0x0000000000000000000000000000000000000000000000005fffffa000000016
    ∷ 0xbdeedb720000000000000000000000000000000002effffd10000018ffffffff
    ∷ 0xffa20000000000000000000000000000000cfffff3000002dffffffffffffe40
    ∷ 0x00000000000000000000000000008fffff7000002efffffffffffffff4000000
    ∷ 0x0000000000000000000004fffffb000000cfffff831137effffe200000000000
    ∷ 0x000000000000001effffd1000007ffffe30000001cffffb00000000000000000
    ∷ 0x00000000bfffff4000001effff4000000002effff30000000000000000000000
    ∷ 0x07fffff70000006ffffb00000000007ffff900000000000000000000004fffff
    ∷ 0xb0000000affff500000000002ffffe0000000000000000000001dffffe100000
    ∷ 0x00effff100000000000cffff200000000000000000000bfffff400000001ffff
    ∷ 0xe0000000000009ffff500000000000000000007fffff8000000002ffffc00000
    ∷ 0x00000008ffff60000000000000000003fffffc0000000004ffffb00000000000
    ∷ 0x07ffff7000000000000000001dffffe20000000004ffffb0000000000007ffff
    ∷ 0x800000000000000000afffff500000000003ffffc0000000000008ffff600000
    ∷ 0x000000000006fffff9000000000002ffffd0000000000009ffff500000000000
    ∷ 0x00003fffffc0000000000000effff100000000000cffff3000000000000001df
    ∷ 0xfffe20000000000000affff500000000001ffffd000000000000000afffff500
    ∷ 0x0000000000006ffffa00000000007ffff9000000000000006fffff9000000000
    ∷ 0x0000001effff4000000001effff200000000000002effffc1000000000000000
    ∷ 0x08ffffe20000001cffffa00000000000001cffffe2000000000000000000cfff
    ∷ 0xff831127effffd100000000000009fffff600000000000000000002effffffff
    ∷ 0xffffffe300000000000005fffffa0000000000000000000002dffffffffffffd
    ∷ 0x300000000000002effffa0000000000000000000000018ffffffffff81000000
    ∷ 0x000000000000000000000000000000000000000016bdeedb6200000000000000
    ∷ 0x8fffffffffffffffff4000000008fffffffffffffffff4000000008fffffffff
    ∷ 0xffffffff4000000008fffffffffffffffff4000000008fffffffffffffffff40
    ∷ 0x0000000000000000000000000000000000000000000000000000000000000000
    ∷ 0x0000000000000000000000000000000000000000000000000000000000000000
    ∷ 0x0000000000000000000000000000000000000000000000000000000000000000
    ∷ 0x0000000000000000000000000000000000000000000000000000000000000000
    ∷ 0x0000000000000000000000000000000000000000000000000000000000000000
    ∷ 0x0000000000000000000000000000000000000000000000000000000000000000
    ∷ 0x0000000000000000000000000000000000000000000000000000000000000000
    ∷ 0x0000000000000000000000000000000000000000000000000000000000000000
    ∷ 0x00000000007dfd700000000000cfffffb0000000007fffffff700000000dffff
    ∷ 0xfffd00000000fffffffff00000000dfffffffd000000008fffffff8000000000
    ∷ 0xcfffffc100000000018dfd8100000000000000000000027acefeec9510000000
    ∷ 0x0000000000000000000005cffffffffffffa30000000000000000000000003cf
    ∷ 0xfffffffffffffffa10000000000000000000007fffffffffffffffffffe40000
    ∷ 0x0000000000000008ffffffffffffffffffffff5000000000000000008fffffff
    ∷ 0xe9520126bffffffff40000000000000005fffffff91000000003cffffffe2000
    ∷ 0x00000000002effffff6000000000000affffffb0000000000000affffff60000
    ∷ 0x0000000000affffff6000000000003ffffffa0000000000000001dfffffe1000
    ∷ 0x0000000bfffffe100000000000000005ffffff70000000002ffffff800000000
    ∷ 0x0000000000cfffffd0000000009ffffff10000000000000000005ffffff40000
    ∷ 0x0000efffffa00000000000000000000efffffa00000004ffffff500000000000
    ∷ 0x000000000afffffe00000008ffffff1000000000000000000005ffffff400000
    ∷ 0x0bfffffc0000000000000000000001ffffff7000000ffffff900000000000000
    ∷ 0x00000000dfffffb000002ffffff60000000000000000000000afffffe000005f
    ∷ 0xfffff400000000000000000000008ffffff100007ffffff20000000000000000
    ∷ 0x0000006ffffff300009ffffff000000000000000000000005ffffff50000afff
    ∷ 0xffe000000000000000000000003ffffff60000bfffffd0000000000000000000
    ∷ 0x00002ffffff70000cfffffc000000000000000000000002ffffff80000cfffff
    ∷ 0xc000000000000000000000001ffffff80000cfffffc000000000000000000000
    ∷ 0x001ffffff90000dfffffc000000000000000000000001ffffff90000cfffffc0
    ∷ 0x00000000000000000000001ffffff80000cfffffc00000000000000000000000
    ∷ 0x2ffffff80000bfffffd000000000000000000000002ffffff70000afffffe000
    ∷ 0x000000000000000000003ffffff600009ffffff000000000000000000000005f
    ∷ 0xfffff500007ffffff200000000000000000000006ffffff300005ffffff40000
    ∷ 0x0000000000000000008ffffff100003ffffff60000000000000000000000afff
    ∷ 0xffe000000ffffff90000000000000000000000dfffffb000000cfffffc000000
    ∷ 0x0000000000000001ffffff80000008ffffff1000000000000000000005ffffff
    ∷ 0x40000004ffffff500000000000000000000afffffe10000000efffffa0000000
    ∷ 0x0000000000000efffffa000000009ffffff10000000000000000005ffffff500
    ∷ 0x0000003ffffff7000000000000000000cfffffd0000000000bfffffe10000000
    ∷ 0x0000000005ffffff700000000004ffffffa0000000000000001dfffffe100000
    ∷ 0x000000bffffff600000000000000affffff60000000000002effffff50000000
    ∷ 0x00000affffffc000000000000006fffffff91000000003cffffffe2000000000
    ∷ 0x0000008fffffffe9420126bffffffff4000000000000000009ffffffffffffff
    ∷ 0xffffffff500000000000000000007fffffffffffffffffffe400000000000000
    ∷ 0x00000003cffffffffffffffffa10000000000000000000000005cfffffffffff
    ∷ 0xfa3000000000000000000000000000027adeffec951000000000000000000000
    ∷ 0x000000000000005fffff800000000000000000000000000000000006ffffff80
    ∷ 0x000000000000000000000000000000008fffffff800000000000000000000000
    ∷ 0x000000000affffffff80000000000000000000000000000001bfffffffff8000
    ∷ 0x000000000000000000000000002dffffffffff80000000000000000000000000
    ∷ 0x0003efffffffffff80000000000000000000000000004effffffffffff800000
    ∷ 0x0000000000000000000006ffffffffefffff800000000000000000000000008f
    ∷ 0xffffffe4dfffff80000000000000000000000009fffffffd20efffff80000000
    ∷ 0x0000000000000001bfffffffc100efffff80000000000000000000002cffffff
    ∷ 0xfa0000efffff8000000000000000000000dfffffff800000efffff8000000000
    ∷ 0x0000000000006ffffff6000000efffff80000000000000000000000afffe4000
    ∷ 0x0000efffff800000000000000000000001bfd200000000efffff800000000000
    ∷ 0x000000000000010000000000efffff8000000000000000000000000000000000
    ∷ 0x00efffff800000000000000000000000000000000000efffff80000000000000
    ∷ 0x0000000000000000000000efffff800000000000000000000000000000000000
    ∷ 0xefffff800000000000000000000000000000000000efffff8000000000000000
    ∷ 0x00000000000000000000efffff800000000000000000000000000000000000ef
    ∷ 0xffff800000000000000000000000000000000000efffff800000000000000000
    ∷ 0x000000000000000000efffff800000000000000000000000000000000000efff
    ∷ 0xff800000000000000000000000000000000000efffff80000000000000000000
    ∷ 0x0000000000000000efffff800000000000000000000000000000000000efffff
    ∷ 0x800000000000000000000000000000000000efffff8000000000000000000000
    ∷ 0x00000000000000efffff800000000000000000000000000000000000efffff80
    ∷ 0x0000000000000000000000000000000000efffff800000000000000000000000
    ∷ 0x000000000000efffff800000000000000000000000000000000000efffff8000
    ∷ 0x00000000000000000000000000000000efffff80000000000000000000000000
    ∷ 0x0000000000efffff800000000000000000000000000000000000efffff800000
    ∷ 0x000000000000000000000000000000efffff8000000000000000000000000000
    ∷ 0x00000000efffff800000000000000000000000000000000000efffff80000000
    ∷ 0x0000000000000000000000000000efffff800000000000000000000000000000
    ∷ 0x000000efffff800000000000000000000000000000000000efffff8000000000
    ∷ 0x00000000000000000000000000efffff8000000000000000000000000fffffff
    ∷ 0xffffffffffffffffffffa00000000000000fffffffffffffffffffffffffffa0
    ∷ 0x0000000000000fffffffffffffffffffffffffffa00000000000000fffffffff
    ∷ 0xffffffffffffffffffa00000000000000fffffffffffffffffffffffffffa000
    ∷ 0x00000000000000000269cdefecb7300000000000000000000000000005cfffff
    ∷ 0xfffffffe71000000000000000000000004dffffffffffffffffe700000000000
    ∷ 0x00000000008ffffffffffffffffffffb1000000000000000000affffffffffff
    ∷ 0xffffffffffc10000000000000000afffffffe94211259efffffffb0000000000
    ∷ 0x000007fffffff810000000018fffffff700000000000002efffffe4000000000
    ∷ 0x0005ffffffe1000000000000affffff4000000000000007ffffff90000000000
    ∷ 0x02ffffff70000000000000000dfffffe100000000008fffffe00000000000000
    ∷ 0x0007ffffff40000000000dfffff7000000000000000002ffffff80000000002f
    ∷ 0xfffff3000000000000000000efffffa0000000005fffffc00000000000000000
    ∷ 0x00dfffffb0000000004adffe30000000000000000000cfffffc0000000000001
    ∷ 0x1000000000000000000000dfffffb00000000000000000000000000000000000
    ∷ 0xefffffa00000000000000000000000000000000003ffffff8000000000000000
    ∷ 0x00000000000000000006ffffff50000000000000000000000000000000000cff
    ∷ 0xffff10000000000000000000000000000000002ffffffb000000000000000000
    ∷ 0x0000000000000000affffff50000000000000000000000000000000003ffffff
    ∷ 0xd0000000000000000000000000000000000cffffff5000000000000000000000
    ∷ 0x0000000000007ffffffc0000000000000000000000000000000003fffffff300
    ∷ 0x0000000000000000000000000000002effffff70000000000000000000000000 ∷ []
