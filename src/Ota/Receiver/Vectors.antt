-- ===== src/Ota/Receiver/Vectors.antt =====
-- The check of the image's first two words in OtaReceiver::feed: the initial stack pointer and the
-- reset vector.
use house_panel.Base.{
  ℕ, ◌+◌, ◌%◌, ◌^◌, ◌<◌, ◌≤◌, ◌≡◌, Bool, true, not, ◌&&◌, arith, ltb, leb, ◌==◌, Bytes, take, drop,
  ◌*◌, get_or, refl, [], ◌∷◌,
}
use house_panel.Ota.Bits.{le32}

abbrev pub stack_word : Bytes → ℕ
stack_word vectors = le32 (take 4 vectors)

abbrev pub reset_word : Bytes → ℕ
reset_word vectors = le32 (take 4 (drop 4 vectors))

-- The words are 32 bits wide; `stack & 7` and `reset & 1` are remainders.
unfoldable pub vectors_ok : Bytes → ℕ → Bool
vectors_ok vectors image_size =
    not (leb (stack_word vectors) 0x2400_0000)
    && not (ltb 0x2408_0000 (stack_word vectors))
    && stack_word vectors % 8 == 0
    && reset_word vectors % 2 == 1
    && not (ltb (reset_word vectors) 0x0804_0000)
    && not (leb ((0x0804_0000 + image_size) % 2 ^ 32) (reset_word vectors))

-- The 32-bit number whose lowest byte is byte `i`.
pub word_at : Bytes → ℕ → ℕ
word_at xs i =
    (get_or xs i 0
      + 256 * get_or xs (i + 1) 0
      + 65_536 * get_or xs (i + 2) 0
      + 16_777_216 * get_or xs (i + 3) 0)
    % 2 ^ 32

stack_word-is : (xs : Bytes) → stack_word xs ≡ word_at xs 0
unfolding le32 word_at
stack_word-is [] = omega arith
stack_word-is (a ∷ []) = omega arith
stack_word-is (a ∷ b ∷ []) = omega arith
stack_word-is (a ∷ b ∷ c ∷ []) = omega arith
stack_word-is (a ∷ b ∷ c ∷ d ∷ xs) = omega arith

reset_word-is : (xs : Bytes) → reset_word xs ≡ word_at xs 4
unfolding word_at le32
reset_word-is [] = refl
reset_word-is (a ∷ []) = refl
reset_word-is (a ∷ b ∷ []) = refl
reset_word-is (a ∷ b ∷ c ∷ []) = refl
reset_word-is (a ∷ b ∷ c ∷ d ∷ xs) = stack_word-is xs

-- A stack in the RAM and aligned to 8 bytes, and a Thumb reset vector, which is odd, that points into the
-- image, where the image lies at 0x08040000: by the little-endian words at bytes 0 and 4.
pub record IsBootable (vectors : Bytes) (image_size : ℕ) : Type 0 where
  pub stack_low : 0x2400_0000 < word_at vectors 0
  pub stack_high : word_at vectors 0 ≤ 0x2408_0000
  pub stack_aligned : get_or vectors 0 0 % 8 ≡ 0
  pub reset_thumb : get_or vectors 4 0 % 2 ≡ 1
  pub reset_low : 0x0804_0000 ≤ word_at vectors 4
  pub reset_high : word_at vectors 4 < 0x0804_0000 + image_size

-- A vector table that passes the check has an aligned stack pointer in the RAM, and a Thumb reset vector
-- that points into the image, also where `0x08040000 + image_size` wraps; the stack pointer is the
-- little-endian word of the bytes 0 to 3 and the reset vector that of the bytes 4 to 7.
pub vectors_ok-IsBootable :
    (vectors : Bytes) (image_size : ℕ)
    → vectors_ok vectors image_size ≡ true
    → IsBootable vectors image_size
unfolding vectors_ok word_at
vectors_ok-IsBootable vectors image_size h =
    let stack = stack_word-is vectors in
    let reset = reset_word-is vectors in
    let aligned : stack_word vectors % 8 ≡ 0 = ground arith in
    let thumb : reset_word vectors % 2 ≡ 1 = ground arith in
    record {
      stack_low = ground (arith, stack);
      stack_high = ground (arith, stack);
      stack_aligned = omega (arith, stack, aligned);
      reset_thumb = omega (arith, reset, thumb);
      reset_low = ground (arith, reset);
      reset_high = ground (arith, reset);
    }
