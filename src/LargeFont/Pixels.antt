-- ===== src/LargeFont/Pixels.antt =====
-- The glyphs of the large clock: "HH:MM" in the digits and the colon.
use house_panel.Base.{
  ℕ, ◌+◌, ◌-◌, ◌*◌, ◌/◌, ◌<◌, ◌≡◌, refl, Bool, true, none, some, List, [], ◌∷◌, arith, ◌==◌,
  get_elem?, zero, suc, ◌≤◌, ◌∙◌, ap, ◌&&◌, Option, ltb, drop, if◌then◌else◌, get_elem?-lt,
}
use house_panel.Filament.Font.{Raster, raster_size, raster_byte}
use house_panel.Filament.Font.Safe.{raster_byte-lt}
use house_panel.LargeFont.{GlyphDsc, range_start, glyph_id_start}
use house_panel.LargeFont.Glyphs.{glyph_dsc}
use house_panel.LargeFont.Layout.{bitmap_size}
use house_panel.LargeFont.DigitsA.{zero_bitmap, one_bitmap}
use house_panel.LargeFont.DigitsB.{two_bitmap, three_bitmap}
use house_panel.LargeFont.DigitsC.{four_bitmap, five_bitmap}
use house_panel.LargeFont.DigitsD.{six_bitmap, seven_bitmap}
use house_panel.LargeFont.DigitsE.{eight_bitmap, nine_bitmap}
use house_panel.LargeFont.Colon.{colon_bitmap}

-- The glyphs "0" to ":" stand one behind the other in `glyph_bitmap`, from this byte on.
abbrev pub clock_start : ℕ
clock_start = 15_802

-- Their bitmaps, each from the comment that names its character to the next one.
unfoldable pub clock_parts : List Raster
clock_parts =
    zero_bitmap ∷ one_bitmap ∷ two_bitmap ∷ three_bitmap ∷ four_bitmap ∷ five_bitmap ∷ six_bitmap
    ∷ seven_bitmap ∷ eight_bitmap ∷ nine_bitmap ∷ colon_bitmap ∷ []

-- Byte `i` of arrays that stand one behind the other.
unfoldable pub read_parts : List Raster → ℕ → Option ℕ
read_parts [] i = none
read_parts (p ∷ ps) i =
    let rest = read_parts ps (i - raster_size p) in
    if ltb i (raster_size p) then raster_byte p i else rest

-- `glyph_bitmap[i]`; `none` before the "0" and behind the ":", where the other characters stand.
unfoldable pub glyph_bitmap : ℕ → Option ℕ
glyph_bitmap i = if ltb i clock_start then none else read_parts clock_parts (i - clock_start)

-- Descriptors and parts agree: each part begins at the descriptor's `bitmap_index` and has the bytes of its
-- box; `at` is where the first one begins.
agree : ℕ → List GlyphDsc → List Raster → Bool
agree at [] ps = true
agree at (d ∷ ds) [] = true
agree at (d ∷ ds) (p ∷ ps) =
    d.bitmap_index == at && raster_size p == bitmap_size d && agree (at + raster_size p) ds ps

pixel-lt : (row col w h : ℕ) → row < h → col < w → (row * w + col) / 2 < (w * h + 1) / 2
pixel-lt row col w h p q = let inside : row * w + col < w * h = grind arith in omega (arith, inside)

read_parts-first :
    (p : Raster) (ps : List Raster) (n m : ℕ)
    → n ≡ m
    → m < raster_size p
    → read_parts (p ∷ ps) n ≡ raster_byte p m
unfolding read_parts
read_parts-first p ps n m e h = ground arith

read_parts-rest :
    (p : Raster) (ps : List Raster) (n : ℕ)
    → raster_size p ≤ n
    → read_parts (p ∷ ps) n ≡ read_parts ps (n - raster_size p)
unfolding read_parts
read_parts-rest p ps n h = ground arith

-- A byte of a part is where the descriptor says.
record Found (at : ℕ) (ps : List Raster) (d : GlyphDsc) (p : Raster) (n : ℕ) : Type 0 where
  behind : at ≤ d.bitmap_index
  byte : read_parts ps (d.bitmap_index + n - at) ≡ raster_byte p n
  inside : n < raster_size p

agree-Found :
    (at : ℕ) (ds : List GlyphDsc) (ps : List Raster) (i : ℕ) (d : GlyphDsc) (p : Raster) (n : ℕ)
    → agree at ds ps ≡ true
    → get_elem? ds i ≡ some d
    → get_elem? ps i ≡ some p
    → n < bitmap_size d
    → Found at ps d p n
unfolding agree
agree-Found at [] ps i d p n h e g l = cc
agree-Found at (d' ∷ ds) [] i d p n h e g l = cc
agree-Found at (d' ∷ ds) (p' ∷ ps) zero d p n h e g l =
    let here : d.bitmap_index ≡ at = ground arith in
    let size : raster_size p ≡ bitmap_size d = ground arith in
    let own : p' ≡ p = ground arith in
    let inside : n < raster_size p = omega (arith, size) in
    record {
      behind = omega (arith, here);
      byte =
          ap (λ q. read_parts (q ∷ ps) (d.bitmap_index + n - at)) own
          ∙ read_parts-first p ps (d.bitmap_index + n - at) n (omega (arith, here)) inside;
      inside = inside;
    }
agree-Found at (d' ∷ ds) (p' ∷ ps) (suc i) d p n h e g l =
    let q = agree-Found (at + raster_size p') ds ps i d p n (ground arith) e g l in
    record {
      behind = omega (arith, q.behind);
      byte =
          read_parts-rest p' ps (d.bitmap_index + n - at) (omega (arith, q.behind))
          ∙ ap (read_parts ps) (omega (arith, q.behind))
          ∙ q.byte;
      inside = q.inside;
    }

all_agree : agree clock_start (drop 17 glyph_dsc) clock_parts ≡ true
unfolding agree clock_parts glyph_dsc raster_size zero_bitmap one_bitmap two_bitmap three_bitmap
    four_bitmap five_bitmap six_bitmap seven_bitmap eight_bitmap nine_bitmap colon_bitmap
all_agree = refl

glyph_bitmap-at :
    (n : ℕ) → clock_start ≤ n → glyph_bitmap n ≡ read_parts clock_parts (n - clock_start)
unfolding glyph_bitmap
glyph_bitmap-at n h = ground arith

get_elem?-drop :
    {A : Type 0} (xs : List A) (n i : ℕ) → get_elem? xs (n + i) ≡ get_elem? (drop n xs) i
get_elem?-drop xs zero i = ap (get_elem? xs) (omega arith)
get_elem?-drop [] (suc n) i = refl
get_elem?-drop (x ∷ xs) (suc n) i =
    let next : suc n + i ≡ suc (n + i) = omega arith in
    ap (get_elem? (x ∷ xs)) next ∙ get_elem?-drop xs n i

-- Each pixel of the box of a digit or the colon, rows one behind the other at four bits a pixel from the
-- descriptor's `bitmap_index` on, is in a byte of `glyph_bitmap`, and this is the byte of the character's own
-- bitmap: no byte of a neighbour is read. The glyphs count from "0".
pub clock_glyph_pixels :
    (i row col : ℕ)
    → i < 11
    → (d : GlyphDsc) × (p : Raster) × (get_elem? glyph_dsc (b'0' + i - range_start + glyph_id_start)
        ≡ some d)
      × (get_elem? clock_parts i ≡ some p)
      × (row < d.box_h
          → col < d.box_w
          → (b : ℕ) × (glyph_bitmap (d.bitmap_index + (row * d.box_w + col) / 2) ≡ some b)
            × (raster_byte p ((row * d.box_w + col) / 2) ≡ some b)
            × (b < 256))
unfolding glyph_dsc clock_parts
clock_glyph_pixels i row col h =
    let (d, e) = get_elem?-lt (drop 17 glyph_dsc) i (omega arith) in
    let (p, g) = get_elem?-lt clock_parts i (omega arith) in
    let id : b'0' + i - range_start + glyph_id_start ≡ 17 + i = omega arith in
    let own : get_elem? glyph_dsc (b'0' + i - range_start + glyph_id_start) ≡ some d =
      ap (get_elem? glyph_dsc) id ∙ get_elem?-drop glyph_dsc 17 i ∙ e in
    (
      d,
      p,
      own,
      g,
      λ in_row in_col.
          let n = (row * d.box_w + col) / 2 in
          let q =
            agree-Found clock_start (drop 17 glyph_dsc) clock_parts i d p n all_agree e g
              (pixel-lt row col d.box_w d.box_h in_row in_col) in
          let (b, byte, small) = raster_byte-lt p n q.inside in
          (
            b,
            glyph_bitmap-at (d.bitmap_index + n) (omega (arith, q.behind)) ∙ q.byte ∙ byte,
            byte,
            small,
          ),
    )
