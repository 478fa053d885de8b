-- ===== src/Filament/Font/StatusPixelsA.antt =====
-- smooth_font.h, statusFontPixels: lines 1445 to 1485, 32 bytes to a row, the first byte highest.
use house_panel.Base.{ℕ, List, [], ◌∷◌}

unfoldable pub status_pixels_a : List ℕ
status_pixels_a =
    0x07ea007ea0000006adfec71000003dfffffffe40003efd620139fa000dfb1000
    ∷ 0x00010006fe100000000000af8000000000000df5000000000000ef4000000000
    ∷ 0x000df5000000000000bf80000000000006fe1000000000001dfb100000023000
    ∷ 0x4ffd620138fe10004efffffffe40000017befec7100000ff200000000ff20000
    ∷ 0x0000ff200000000ff200000000ff200000000ff200000000ff200000000ff200
    ∷ 0x000000ff200000000ff200000000ff200000000ff200000000ff200000000fff
    ∷ 0xfffffe00ffffffffe07fc00000008f70000000df42ff2000000efd0000004fe0
    ∷ 0x0df7000004fff3000009f9008fc00000afaf800000df4003ff10001ed2fe0000
    ∷ 0x3fe0000df60005f80bf40008f900008fb000bf306f9000cf500003ff101fc001
    ∷ 0xfe002fe000000df506f7000af507fa0000008fa0cf20005fa0bf50000003fe2f
    ∷ 0xb00000ef2fe10000000dfaf6000009fafa000000008fff1000004fff50000000
    ∷ 0x03ffb0000000efe1000000000df500000009fa0000000029dfe800004efffffb
    ∷ 0x0006d7214ef3000000008f6000000006f700027bdeff8006fc6216f802fc0000
    ∷ 0x6f803fa00009f801ee303aef8003beec61e8000005beec500009ffffff7005ff
    ∷ 0x72139500cf700000000ff100000001fe000000000ff100000000cf7000000006
    ∷ 0xff7213a9000affffff600006cfeb4000000000003fc0000000003fc000000000
    ∷ 0x3fc0000000003fc0000000003fc00006cfd83fc000afffffcfc005ff7214cfc0
    ∷ 0x0bf700003fc00ef200003fc00ff000003fc00ff100003fc00df500004fc008fd
    ∷ 0x4116efc001dfffff4fc0002aeeb30dc00005befc7000009ffffffb0006fd4114
    ∷ 0xcf600cf200002fa00fffffffffb01fd0000000000ff1000000000bf900000000
    ∷ 0x05ff82127e40009ffffffe300005befd81000004bee6003ffff600afa20000bf
    ∷ 0x30007ffffff65efffff600bf400000bf400000bf400000bf400000bf400000bf
    ∷ 0x400000bf400000bf400000bf4000002adfffffe02efffffffd0af9202af810bf
    ∷ 0x10003f8008f9202af7001bfffffd10008edfd920003f6000000006f920000000
    ∷ 0x3fffffec7002bfffffff81ea100016fb4fb310139f71dfffffffb1017cefeb60
    ∷ 0x0007f80000000007f80000000007f80000000007f80000000007f80000000007
    ∷ 0xf819eeb30007f9cffffe2007ffa303df8007fa00005fb007f800002fc007f800
    ∷ 0x002fc007f800002fc007f800002fc007f800002fc007f800002fc007f800002f
    ∷ 0xc007eb007eb000000000000000005f9005f9005f9005f9005f9005f9005f9005
    ∷ 0xf9005f9005f9005f9007f35cffb30007fcfffffe2007ffa303df8007fa00005f
    ∷ 0xb007f800002fc007f800002fc007f800002fc007f800002fc007f800002fc007
    ∷ 0xf800002fc007f800002fc00005befd8100009ffffffe2005fe7213cfc00cf600
    ∷ 0x001ef40ff1000009f71ff0000008f80ff1000009f70cf600001ef405fe6213cf
    ∷ 0xc0009ffffffe200005befd910007f34cfa07f8fffb07ffa20007fd000007f800
    ∷ 0x0007f8000007f8000007f8000007f8000007f8000007f80000005ceea30007ff
    ∷ 0xfffe300ef71148100ce000000004ea3000000017bd9200000001ae300000004f
    ∷ 0x900a8202bf801cfffffe20018dfd920000171000005f3000007f3000009f3000
    ∷ 0x6dfffff67ffffff600cf300000cf300000cf300000cf300000cf300000cf3000
    ∷ 0x00bf7041008ffff7001aee918f7000001ed02fd000007f700bf40000df1005fa
    ∷ 0x0004fa0000df100af400007f701fc000001fd07f6000000af4de10000004fbf9 ∷ []
