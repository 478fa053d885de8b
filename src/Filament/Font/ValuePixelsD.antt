-- ===== src/Filament/Font/ValuePixelsD.antt =====
-- smooth_font.h, valueFontPixels: lines 1216 to 1276, 32 bytes to a row, the first byte highest.
use house_panel.Base.{ℕ, List, [], ◌∷◌}

unfoldable pub value_pixels_d : List ℕ
value_pixels_d =
    0x3cfffffffffffffffffffffffff800000000000000000000005dffffffffffff
    ∷ 0xfffffffff92000000000000000000000000049efffffffffffffffc710000000
    ∷ 0x00000000000000000000000379cdeffedca8510000000000000000006fffffff
    ∷ 0xffffffffffffffffffffffff6000000006ffffffffffffffffffffffffffffff
    ∷ 0xf6000000006fffffffffffffffffffffffffffffff6000000006ffffffffffff
    ∷ 0xfffffffffffffffffff6000000006fffffffffffffffffffffffffffffff6000
    ∷ 0x000006ffffff90000000000000000000000000000000006ffffff90000000000
    ∷ 0x000000000000000000000006ffffff9000000000000000000000000000000000
    ∷ 0x6ffffff90000000000000000000000000000000006ffffff9000000000000000
    ∷ 0x0000000000000000006ffffff90000000000000000000000000000000006ffff
    ∷ 0xff90000000000000000000000000000000006ffffff900000000000000000000
    ∷ 0x00000000000006ffffff90000000000000000000000000000000006ffffff900
    ∷ 0x00000000000000000000000000000006ffffff90000000000000000000000000
    ∷ 0x000000006ffffff90000000000000000000000000000000006ffffff90000000
    ∷ 0x000000000000000000000000006ffffff9000000000000000000000000000000
    ∷ 0x0006ffffff90000000000000000000000000000000006ffffff9000000000000
    ∷ 0x0000000000000000000006ffffff90000000000000000000000000000000006f
    ∷ 0xfffff90000000000000000000000000000000006ffffff900000000000000000
    ∷ 0x00000000000000006ffffff90000000000000000000000000000000006ffffff
    ∷ 0xfffffffffffffffffffffc0000000000006fffffffffffffffffffffffffffc0
    ∷ 0x000000000006fffffffffffffffffffffffffffc0000000000006fffffffffff
    ∷ 0xffffffffffffffffc0000000000006fffffffffffffffffffffffffffc000000
    ∷ 0x0000006ffffff90000000000000000000000000000000006ffffff9000000000
    ∷ 0x0000000000000000000000006ffffff900000000000000000000000000000000
    ∷ 0x06ffffff90000000000000000000000000000000006ffffff900000000000000
    ∷ 0x00000000000000000006ffffff90000000000000000000000000000000006fff
    ∷ 0xfff90000000000000000000000000000000006ffffff90000000000000000000
    ∷ 0x000000000000006ffffff90000000000000000000000000000000006ffffff90
    ∷ 0x000000000000000000000000000000006ffffff9000000000000000000000000
    ∷ 0x0000000006ffffff90000000000000000000000000000000006ffffff9000000
    ∷ 0x0000000000000000000000000006ffffff900000000000000000000000000000
    ∷ 0x00006ffffff90000000000000000000000000000000006ffffff900000000000
    ∷ 0x00000000000000000000006ffffff90000000000000000000000000000000006
    ∷ 0xffffff90000000000000000000000000000000006ffffff90000000000000000
    ∷ 0x000000000000000006ffffff90000000000000000000000000000000006fffff
    ∷ 0xf90000000000000000000000000000000006ffffff9000000000000000000000
    ∷ 0x000000000000000027bdeeda6100000000000000000029ffffffffff81000000
    ∷ 0x0000000004effffffffffffd300000000000006fffffffffffffffe400000000
    ∷ 0x0004fffffffffffffffffe20000000001efffffd621137efffffc0000000007f
    ∷ 0xffff7000000019fffff500000000effff600000000009ffffc00000004ffffa0
    ∷ 0x00000000000dffff20000008ffff30000000000006ffff6000000afffe000000
    ∷ 0x00000002ffff8000000bfffc00000000000000ffff9000000bfffc0000000000
    ∷ 0x0000ffff9000000afffe00000000000002ffff80000008ffff30000000000006
    ∷ 0xffff60000004ffffa000000000000dffff20000000effff600000000009ffffc
    ∷ 0x000000007fffff7000000019fffff5000000001dfffffc621137dfffffc00000
    ∷ 0x000003fffffffffffffffffe2000000000005fffffffffffffffe30000000000
    ∷ 0x0004effffffffffffd200000000000000019fffffffffe810000000000000000
    ∷ 0x0027bdeeda610000000000000000000000000000000000000000000000000000
    ∷ 0x0000000000000000000000000000000000000000000000000000000000000000
    ∷ 0x0000000000000000000000000000000000000000000000000000000000000000
    ∷ 0x0000000000000000000000000000000000000000000000000000000000000000
    ∷ 0x0000000000000000000000000000000000000000000000000000000000000000
    ∷ 0x0000000000000000000000000000000000000000000000000000000000000000
    ∷ 0x0000000000000000000000000000000000000000000000000000000000000000
    ∷ 0x0000000000000000000000000000000000000000000000000000000000000000
    ∷ 0x0000000000000000000000000000000000000000000000000000000000000000
    ∷ 0x0000000000000000000000000000000000000000000000000000000000000000
    ∷ 0x0000000000000000000000000000000000000000000000000000000000000000
    ∷ 0x0000000000000000000000000000000000000000000000000000000000000000
    ∷ 0x0000000000000000000000000000000000000000000000000000000000000000 ∷ []
