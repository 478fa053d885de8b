-- ===== src/LargeFont/Kerning.antt =====
-- montserrat_96.c: the tables of kerning. A value is an int8_t, here as its byte in two's complement,
-- 32 values to a row, the first one highest.
use house_panel.Base.{ℕ, List, [], ◌∷◌, ◌++◌}
use house_panel.Filament.Font.{Raster}

unfoldable pub kern_left_class_mapping : List ℕ
kern_left_class_mapping =
    0 ∷ 0 ∷ 1 ∷ 2 ∷ 0 ∷ 3 ∷ 4 ∷ 5 ∷ 2 ∷ 6 ∷ 7 ∷ 8 ∷ 9 ∷ 10 ∷ 9 ∷ 10 ∷ 11 ∷ 12 ∷ 0 ∷ 13 ∷ 14 ∷ 15
    ∷ 16 ∷ 17 ∷ 18 ∷ 19 ∷ 12 ∷ 20 ∷ 20 ∷ 0 ∷ 0 ∷ 0 ∷ 21 ∷ 22 ∷ 23 ∷ 24 ∷ 25 ∷ 22 ∷ 26 ∷ 27 ∷ 28 ∷ 29
    ∷ 29 ∷ 30 ∷ 31 ∷ 32 ∷ 29 ∷ 29 ∷ 22 ∷ 33 ∷ 34 ∷ 35 ∷ 3 ∷ 36 ∷ 30 ∷ 37 ∷ 37 ∷ 38 ∷ 39 ∷ 40 ∷ 41
    ∷ 42 ∷ 43 ∷ 0 ∷ 44 ∷ 0 ∷ 45 ∷ 46 ∷ 47 ∷ 48 ∷ 49 ∷ 50 ∷ 51 ∷ 45 ∷ 52 ∷ 52 ∷ 53 ∷ 48 ∷ 45 ∷ 45
    ∷ 46 ∷ 46 ∷ 54 ∷ 55 ∷ 56 ∷ 57 ∷ 51 ∷ 58 ∷ 58 ∷ 59 ∷ 58 ∷ 60 ∷ 41 ∷ 0 ∷ 0 ∷ 9 ∷ []

unfoldable pub kern_right_class_mapping : List ℕ
kern_right_class_mapping =
    0 ∷ 0 ∷ 1 ∷ 2 ∷ 0 ∷ 3 ∷ 4 ∷ 5 ∷ 2 ∷ 6 ∷ 7 ∷ 8 ∷ 9 ∷ 10 ∷ 9 ∷ 10 ∷ 11 ∷ 12 ∷ 13 ∷ 14 ∷ 15 ∷ 16
    ∷ 17 ∷ 12 ∷ 18 ∷ 19 ∷ 20 ∷ 21 ∷ 21 ∷ 0 ∷ 0 ∷ 0 ∷ 22 ∷ 23 ∷ 24 ∷ 25 ∷ 23 ∷ 25 ∷ 25 ∷ 25 ∷ 23 ∷ 25
    ∷ 25 ∷ 26 ∷ 25 ∷ 25 ∷ 25 ∷ 25 ∷ 23 ∷ 25 ∷ 23 ∷ 25 ∷ 3 ∷ 27 ∷ 28 ∷ 29 ∷ 29 ∷ 30 ∷ 31 ∷ 32 ∷ 33
    ∷ 34 ∷ 35 ∷ 0 ∷ 36 ∷ 0 ∷ 37 ∷ 38 ∷ 39 ∷ 39 ∷ 39 ∷ 0 ∷ 39 ∷ 38 ∷ 40 ∷ 41 ∷ 38 ∷ 38 ∷ 42 ∷ 42 ∷ 39
    ∷ 42 ∷ 39 ∷ 42 ∷ 43 ∷ 44 ∷ 45 ∷ 46 ∷ 46 ∷ 47 ∷ 46 ∷ 48 ∷ 0 ∷ 0 ∷ 35 ∷ 9 ∷ []

unfoldable pub kern_values_a : List ℕ
kern_values_a =
    0x0003000000000000000300000800000000060000000000000000000000000000
    ∷ 0x0000030000000000000000000000000003260017ed00000000d1cd0628130ede
    ∷ 0x062a0324081b00000000000000000000003307fa000000000000000000000000
    ∷ 0x00e70000000000ef0e110000f800fa0800f800f8fcef00000000f80000f5f300
    ∷ 0x00f800ef000000000000000000f8f80000e900990000ef0011190100ef08081c
    ∷ 0x11f2110000d00000000000000000000000e10000000000000000000000000000
    ∷ 0xf6d600defa00000000022100e7f9fd0300f20000fac100000000000000000000
    ∷ 0x00bcf920000000000000000000000000000000000000000000001c00080000ef
    ∷ 0x0000000000000000000000000000000000200703000000000000000000000000
    ∷ 0x0000000000000000000000000000000000000000000000000000e10000000000
    ∷ 0x0000000000000000000000000000000006110819f8000011f8e48c06171102f5
    ∷ 0x001f001b001b00b100f619001cf81108000003f80000f2440044001900240b0e
    ∷ 0x000000e10000000003fa0006f1f5ef0600f8000000de00000000000000000000
    ∷ 0x00c9000000000000000000000000000003d100cb00000000fa0054f6f50808f8
    ∷ 0x00f5080000d30000000000000000000000ae0008000000000000000000000000
    ∷ 0x00330000e1001c00c6aec6ef190000c7000aed00f30000000000000000000000
    ∷ 0x00161999000000000000000000000000000600000000000606f6ef00fdfdf800
    ∷ 0x00fa000000ef00f900edef00ebe4e4f000ef00ef00000000f90000080006f800
    ∷ 0x00000008fa000000fa0808fd000000f000fd000000000003000bfa00f600f200
    ∷ 0x00fa00190000f80000000000fd03fafa00f800f8000000000000000000fcfc00
    ∷ 0xf8f60000000000030000fa00f8f8f8000000000000000000fb00000000faf500
    ∷ 0x00e7fae7110000ef08111700ebfdf600fdd808fa06d308000003d400d3f9b6fa
    ∷ 0x00d6001118000b000000000200f1f500000000f8000000f80000000000fcfc00
    ∷ 0xfcf500000000000000f8f800faf6f90000f80000000000000000000000f9f900
    ∷ 0x00fa00ef080000f6040808000000000000fa0000000000060000f800f8faf600
    ∷ 0x0000000000000700f900000000f7f3000019fa03e5000017d6d4dcef0800f9c9
    ∷ 0xf100f100ef0df1ca00e9000004fd07fa000801e7e000d6eceeece7f6e9fef0e9
    ∷ 0x000300f80000000600080000000000000000000000f800fc00fdf800f2ededfd
    ∷ 0x00e7000000000000f90000000003fb0000080000000000000000290000000000
    ∷ 0x0006000000f80000000000000000000000f10008000000000000000000000000
    ∷ 0xfa000000f000000000d6e7000000f3d60000f80800e900000000000000000000
    ∷ 0xf20000f000000000000000000000000000f1000000000a0006efef00f8f8f600
    ∷ 0x0000000000e700f800f3f800edebe7f900ef00e700000000440000040000f500
    ∷ 0x00dc0000000000b1f11c19f9dc0008f300d6fcf508c5f80b000de2f3e1e4dc00
    ∷ 0x00cd00300000fc000000fcfcf8e9e4fe00000000000000000003000000000000
    ∷ 0x00000000000000000000f800fcf8f30000ef00f8000000000000000000000000
    ∷ 0x0000fd00ef000011fd0b00ed08fafdeaf800f5f8fa00f3f20000f9fdfaf2f600 ∷ []

unfoldable pub kern_values_b : List ℕ
kern_values_b =
    0x00f80008fa00ed000000ef00f200f2f20000000000000000ef0800f400faf6e6
    ∷ 0xfafafafdfaf6fd0000000000f8f9f9000000000afa00fa000000faf6faf8f6f8
    ∷ 0x0722fd00e900fa1100f8dcf50d0100d8f208f20600faf9e500f3040000f20000
    ∷ 0x000808eff000f2f8f3f8f800f204f0f200000000000000000008000000000000
    ∷ 0x0000000000000000000000000000000000f20000000000000000000000000000
    ∷ 0x00000000000000000000000000000000000000000000000000000000fa000000
    ∷ 0x00000000000000000000000000000000000000000000000000f9f80000000000
    ∷ 0x00000000000000f30000f50000f8f800000000f800000000fc0000000000fa00
    ∷ 0x0000f300ef000000e40006ed1102fad80000edf800deebe80000dcf8dee0d700
    ∷ 0xea000739f500edf8fdf8f2e9f1e1dded0000fa00030000c5f81913ede10003e6
    ∷ 0x00d6faf811b2f5030000c9f6d4f8c20000c500320300fa00000000fcfae0fa00
    ∷ 0x00000000e500f800fde8d80000fcf3e7f800fa00000000daf8e4e5f9f2ebf8f2
    ∷ 0x00eff8e4f300f6f0f8f0000400fae40000f1000000000a0006ef2300f8f8f600
    ∷ 0x0000000000e700f800f3f800edebe7f900ef072200000000440000040000f500
    ∷ 0x0000000000000000fe0000000000faef0000000000fc000000f8f80000eff800
    ∷ 0x00ef000efc00000000000004000000001107f800e5f20019e4e5efef220f08b6
    ∷ 0xfa11f800f809f8e200f808f5f9e7f90000191100e800d1f519f5e003f5e4e4f8
    ∷ 0x0800f300e900071cede1deeb190003c2f908f2faed00ede1f3f3f90000edeef8
    ∷ 0x001913f8d100d1f400e2cffde5f2e4e80000f500eff800f8f1000ee4080000d3
    ∷ 0x00f8edf2fae7ebe4ed00e7f8edf0e7f800000328f200e7f800f8efede9e8e0f5
    ∷ 0x1100f300d6f60511e5e1efe41cf804b1f111edf2e100e7dcf6f8f9f8eee7fd00
    ∷ 0x001918fac900cded14e0c6efe2dcd6e400000000f6000008f61106f0110000e6
    ∷ 0xfd00fd000303f9000000000000f80000000007190200f600000000fafaf60000
    ∷ 0x0307000000000700f90020000f0303f500110000000700000000000000000000
    ∷ 0x0019001800000000000000000000000000cd00f80e00190000540aefef0808fa
    ∷ 0x03d6000029cd0000000000000000000000c62077000000000000000000000000
    ∷ 0x0000000000000000000000000000000000000000000000000000f20000f0f800
    ∷ 0x0000000000000000000000000000000000fa00e90000030000086deff91b17e9
    ∷ 0x0800000808f50000000000000000000000921800000000000000000000000000
    ∷ 0x000000e8000000e900000000edfc000000ed00f600d800000000000000000000
    ∷ 0x00c70000000003000000000000f8000000f300e9000000f208f60000e9f8ed00
    ∷ 0x00e900f800d800f70000bbf0def7e10000c700e9fc0000000000000000f3f1f9
    ∷ 0x00000000ed00ed0bf71100faedfaf2f000f6fcfa06e9fd000000b5f9f400ed00
    ∷ 0xfad8f80000faf9000000000600faf2fa00000000000000000000000000000000
    ∷ 0x0000000000000000000000000000000000000000000000000000000b00000000
    ∷ 0x00ed00fa000000ef08000000e9f8ef0000e800f800d800000000ae00efe1d600
    ∷ 0x00c700faf30000000000000000f8f3fc0300000ef5001a2af8f8e70a2a0e13e9 ∷ []

unfoldable pub kern_values_c : List ℕ
kern_values_c =
    0x0a240a19131700000000000000000000003528f1f800f9442444000000080000
    ∷ 0x0000f2000000000000000000fa00000000000000000c00000000b9f6f9ddd600
    ∷ 0x00c700000000000000000000000000000000f2000000000000000000fa000000
    ∷ 0x00000000000c00000000b9f6f9ddd60000de0000000000000000000000000000
    ∷ 0x00000000f9000000ed0800f8070f08e700fef908000700000000eb00f8faef00
    ∷ 0xf8de0035f800edfa00faf200f8e8eff60000f2000000000000000000fa000000
    ∷ 0x00000000000c00000000b9f6f9ddd60000c70000000000002a00000000000000
    ∷ 0x0000f200e5f6f819f8f8de03fb03fae9021302070307ecdef600e0f0e9dcdf00
    ∷ 0xf2eff6f5f9faf6fa00fafd0d000dfa00000000000000000000000000faf8f800
    ∷ 0x00e900fc00f20000000000000000000000cd0000000000000000000000f8f800
    ∷ 0x00000000f90000f2f80800f2f0fa00e7faedfaf600f200000000000000000000
    ∷ 0x00c7001b0000f100000000f500f800000000fa00ed000024f5e4e6060909fee8
    ∷ 0x060d0619061cfae90000de0000e7e90000ef00f5f200f300f300fa0d00f9e7f8
    ∷ 0x0000f800ef00000bed0008f8070100e400fafd00f809f9000000ddf6ed00e700
    ∷ 0x00d8001ff800f1000500f800f8e700f800000000fa000008f5030000f6fa00f6
    ∷ 0x0000000000000000000000000000000000cb00130000f9000000000200f8f800 ∷ []

unfoldable pub kern_class_values : Raster
unfolding kern_values_a kern_values_b kern_values_c
kern_class_values = record {
  rows = kern_values_a ++ (kern_values_b ++ kern_values_c);
  tail = 0;
  tail_size = 0;
}

-- `kern_classes`
abbrev pub left_class_cnt : ℕ
left_class_cnt = 60

abbrev pub right_class_cnt : ℕ
right_class_cnt = 48
