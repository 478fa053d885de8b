-- ===== src/Filament/Font/LabelPixelsA.antt =====
-- smooth_font.h, labelFontPixels: lines 1300 to 1409, 32 bytes to a row, the first byte highest.
use house_panel.Base.{ℕ, List, [], ◌∷◌}

unfoldable pub label_pixels_a : List ℕ
label_pixels_a =
    0x08fffff6008fffff600000000000000000000000000000000000000000000000
    ∷ 0x0000000000007ceec60000001cffffffb10000bfd5116efa0005ff200004ff30
    ∷ 0x0bf9000000af900ef40000005fd02ff10000002ff13ff00000001ff24fe00000
    ∷ 0x000ff33ff00000001ff22ff10000002ff10ef40000005fd00bf9000000af9005
    ∷ 0xff200004ff4000bfd5116efa00001cffffffb10000007ceec600000000007fc0
    ∷ 0x000000000affc000000001cfefc00000003dfb6fc0000000cf905fc000000025
    ∷ 0x005fc000000000005fc000000000005fc000000000005fc000000000005fc000
    ∷ 0x000000005fc000000000005fc000000000005fc000000000005fc00000000000
    ∷ 0x5fc00000000fffffffff30000fffffffff3000007cefc81000001cffffffd200
    ∷ 0x00afd5115efb0002ff200005ff2006fa000000ff400010000001ff3000000000
    ∷ 0x04fe00000000000bf600000000007fb00000000006fd10000000006fd2000000
    ∷ 0x0007fd20000000007fd20000000007fd20000000008fd20000000007ffdeffff
    ∷ 0xff700dffffffffff9000005befd81000000affffffe300007fe6114dfc0001ef
    ∷ 0x300002ff2005fb000000ef200021000003fd00000000026df400000000fffb20
    ∷ 0x00000000ffffb100000000025cfd000000000001df500000000000af8009d300
    ∷ 0x0000af8009fb000002ef4002efb3015efc00004fffffffd20000039dfec71000
    ∷ 0x00000000bf900000000007ff90000000003fef9000000001de6f900000000af6
    ∷ 0x4f900000006fa04f90000003ed104f9000001cf3004f9000009f60004f900005
    ∷ 0xfa00004f90002ed100004f90009ffffffffffff47ffffffffffff3000000004f
    ∷ 0x9000000000004f9000000000004f9000000000004f90000007fffffffc000009
    ∷ 0xfffffff800000cf100000000000ed000000000002fa000000000005f70000000
    ∷ 0x00007fdefec7100000afffffffc100003641027efa000000000005ff10000000
    ∷ 0x0000ef400000000000df400000000001ff200010000009fc0004fb4103aff400
    ∷ 0x03dfffffff60000017cefd92000000000004df50000000001ef80000000000bf
    ∷ 0xa00000000008fc10000000004fd20000000002ee30000000000cfacfeb400000
    ∷ 0x7ffffffff70001efd5114cff3006fe200001df9009f80000006fc00af6000000
    ∷ 0x4fd009f80000006fb005fe100001df6000dfc4115dfd00003dffffffd2000001
    ∷ 0x8ceec710000bfffffffffff009ffffffffffd000000000009f700000000002fe
    ∷ 0x10000000000af700000000003fe10000000000af700000000003fe1000000000
    ∷ 0x0bf700000000004fe10000000000bf700000000004fe10000000000cf7000000
    ∷ 0x00005fe10000000000cf700000000005fe10000000000de50000000000018dfe
    ∷ 0xc71000002dffffffd10000cfd4115dfa0002ff200003ff1003fe000000ff2001
    ∷ 0xef200003fe00007fd4115df8000006efffff8000001afffffd600001dfb4114c
    ∷ 0xfa0008fc000001df500bf60000008fa00cf70000008fb00afc000001df8003ff
    ∷ 0xb4114cff30006ffffffff60000039dffd9200000018ceec60000003dffffffc1
    ∷ 0x0001dfc4115dfa0006fd100002ef200af7000000bf500bf7000000bf6009fc00
    ∷ 0x0002ff5003ffa3126dff10008ffffffffa000005beeb8ff20000000001ef7000
    ∷ 0x0000000bfc00000000007fe20000000004ff50000000001dfa0000000000bfd1
    ∷ 0x0000000007fe300000000000004ff70000000000000affd0000000000001ffdf
    ∷ 0x5000000000007fc8fb00000000000df63ff20000000004ff10cf8000000000af
    ∷ 0xa006fe000000001ff4001ef500000007fd0000afb0000000df700004ff200000
    ∷ 0x4ff200000df800000bffffffffffe00002ffffffffffff50008fe10000000cfb
    ∷ 0x000df9000000005ff205ff2000000000df80bf900000000006fe1000cfffffed
    ∷ 0x93000000cfffffffff700000cf800014cff30000cf8000001df90000cf800000
    ∷ 0x0afb0000cf8000000af90000cf8000001ef40000cf800015cf800000cfffffff
    ∷ 0xe5000000cffffffffe800000cf8000026efa0000cf80000004ff2000cf800000
    ∷ 0x00ff4000cf80000004ff2000cf8000026efc0000cfffffffffd20000cffffffe
    ∷ 0xb6000000cffffffec830000000cffffffffff9100000cf8000014affc10000cf
    ∷ 0x800000004efa0000cf8000000006ff3000cf8000000000df9000cf8000000000
    ∷ 0x8fd000cf80000000005ff000cf80000000005ff100cf80000000005ff000cf80
    ∷ 0x000000008fd000cf8000000000df9000cf8000000006ff3000cf800000004efa
    ∷ 0x0000cf80000149ffc10000cffffffffffa100000cffffffec830000000cfffff
    ∷ 0xffffc000cfffffffffc000cf800000000000cf800000000000cf800000000000
    ∷ 0xcf800000000000cf800000000000cf800000000000cffffffff30000cfffffff
    ∷ 0xf30000cf800000000000cf800000000000cf800000000000cf800000000000cf
    ∷ 0x800000000000cfffffffffc000cfffffffffc000cfffffffffc000cfffffffff
    ∷ 0xc000cf800000000000cf800000000000cf800000000000cf800000000000cf80
    ∷ 0x0000000000cf800000000000cffffffff90000cffffffff90000cf8000000000
    ∷ 0x00cf800000000000cf800000000000cf800000000000cf800000000000cf8000
    ∷ 0x00000000cf800000000000cf8000000003ff2000cf8000000003ff2000cf8000
    ∷ 0x000003ff2000cf8000000003ff2000cf8000000003ff2000cf8000000003ff20
    ∷ 0x00cf8000000003ff2000cf8000000003ff2000cfffffffffffff2000cfffffff
    ∷ 0xffffff2000cf8000000003ff2000cf8000000003ff2000cf8000000003ff2000
    ∷ 0xcf8000000003ff2000cf8000000003ff2000cf8000000003ff2000cf80000000
    ∷ 0x03ff2000cf80000cf80000cf80000cf80000cf80000cf80000cf80000cf80000
    ∷ 0xcf80000cf80000cf80000cf80000cf80000cf80000cf80000cf80000cf800000
    ∷ 0xcf8000000000cf8000000000cf8000000000cf8000000000cf8000000000cf80
    ∷ 0x00000000cf8000000000cf8000000000cf8000000000cf8000000000cf800000
    ∷ 0x0000cf8000000000cf8000000000cf8000000000cf8000000000cffffffffe00
    ∷ 0xcffffffffe00cfb0000000000007ff1000cff500000000001eff1000cffd0000
    ∷ 0x0000009fff1000cfef7000000003feef1000cf6fe10000000bf6ef1000cf4af9
    ∷ 0x0000004fd0ef1000cf42ef300000cf50ef1000cf408fb00006fc00ef1000cf40
    ∷ 0x1df5001ef400ef1000cf4006fd008fa000ef1000cf4000cf72ef2000ef1000cf
    ∷ 0x40004fe9f90000ef1000cf40000affe10000ef1000cf400002ff700000ef1000
    ∷ 0xcf40000057000000ef1000cf40000000000000ef1000cf40000000000000ef10
    ∷ 0x00ce4000000000ef2000cfe200000000ef2000cffc00000000ef2000cfef9000
    ∷ 0x0000ef2000cf6ef5000000ef2000cf46fe200000ef2000cf409fd10000ef2000
    ∷ 0xcf400cfa0000ef2000cf4002ef6000ef2000cf40005ff300ef2000cf400008fd
    ∷ 0x10ef2000cf400000bfb0ef2000cf4000001ef7df2000cf40000004ffff2000cf
    ∷ 0x400000007fff2000cf400000000aff2000cf4000000001cf200000017befec82
    ∷ 0x0000000007effffffff900000009ffb52014affb000006ff700000004ff90001
    ∷ 0xef90000000006ff3006ff10000000000df900afb000000000008fd00cf900000
    ∷ 0x0000006ff00df8000000000005ff10cf9000000000006ff00afb000000000008
    ∷ 0xfd006ff10000000000df9001ef90000000006ff30006ff700000004ef9000009
    ∷ 0xffb51014affc10000007effffffff900000000017befec8200000000cfffffeb
    ∷ 0x710000cffffffffd3000cf800026efd000cf8000003ff600cf8000000cf900cf
    ∷ 0x8000000afa00cf8000000cf900cf8000004ff500cf800138ffc000cffffffffc
    ∷ 0x1000cfffffeb600000cf800000000000cf800000000000cf800000000000cf80
    ∷ 0x0000000000cf800000000000cf800000000000cfffffeb7100000cffffffffd2
    ∷ 0x0000cf800026efc0000cf8000004ff3000cf8000000ef5000cf8000000ff4000
    ∷ 0xcf8000006fe1000cf800138ff70000cffffffff600000cffffff91000000cf80
    ∷ 0x19fe2000000cf8000cfc000000cf80002ef800000cf800005ff50000cf800000
    ∷ 0x9fe2000cf8000000cfc000cf80000002df80affffffffffffcaffffffffffffc
    ∷ 0x000001ff400000000001ff400000000001ff400000000001ff400000000001ff
    ∷ 0x400000000001ff400000000001ff400000000001ff400000000001ff40000000
    ∷ 0x0001ff400000000001ff400000000001ff400000000001ff400000000001ff40
    ∷ 0x0000000001ff40000000ff400000000afa0000ff400000000afa0000ff400000
    ∷ 0x000afa0000ff400000000afa0000ff400000000afa0000ff400000000afa0000
    ∷ 0xff400000000afa0000ff400000000afa0000ff400000000afa0000ff40000000
    ∷ 0x0afa0000ff500000000afa0000df700000000cf80000afb00000002ff500004f
    ∷ 0xf6000000bfd000000aff93014cff400000009fffffffe50000000004adfec810
    ∷ 0x00003ff700000000bfb007ff30000006fe2000cfc000002ef600002ef70000bf
    ∷ 0xa0000006ff3007fe10000000bfc03ff4000000002ef7cf900000000006fffd10
    ∷ 0x0000000001effa00000000000afcff50000000005ff29fe100000002ef701dfa
    ∷ 0x0000000bfc0004ff5000006fe20000afe10002ef6000001efa000bfb00000005
    ∷ 0xff506fe200000000afe1afc000000000cfa2ef700000007fe106fe1000002ef6
    ∷ 0x000cfa00000afc00003ff30004ff3000009fc000cf80000001ef607fd1000000
    ∷ 0x05fe2ef5000000000bfcfb00000000002ffe200000000000afa000000000000a
    ∷ 0xfa000000000000afa000000000000afa000000000000afa000000000000afa00 ∷ []
