-- ===== src/Sha/Fips.antt =====
-- What FIPS 180-4 says of the blocks of sha1sum.c and sha256.c: the schedule, in which each word is a
-- function of the sixteen before it, and the functions on words, under the standard's names. The
-- children are the constants, and the two block functions and their comparison with the transforms.
use secure_kernel_loader.Base.{
  ℕ, zero, suc, ◌+◌, ◌-◌, List, [], ◌∷◌, get_or, u32, bit_and, bit_or, bit_xor, ◌<<<◌, ◌>>>◌, not32,
}
pub mod Words
pub mod Ring
pub mod Constants
pub mod Block1
pub mod Loops1
pub mod Block256
pub mod Loops256

-- The first n words of a list, the newest first.
unfoldable pub newest : ℕ → List ℕ → List ℕ
newest zero words = []
newest (suc n) words = get_or words n 0 ∷ newest n words

-- The schedule up to word 15 + n, the newest first, where `next` gives a word from those before it.
unfoldable pub past : (List ℕ → ℕ) → List ℕ → ℕ → List ℕ
unfolding newest
past next words zero = newest 16 words
past next words (suc n) = let before = past next words n in next before ∷ before

-- Word t of a schedule of 16 + n words.
abbrev pub word : (List ℕ → ℕ) → List ℕ → ℕ → ℕ → ℕ
word next words n t = get_or (past next words n) (15 + n - t) 0

-- W(t - k), where the newest of the words before t is W(t - 1).
abbrev pub back : List ℕ → ℕ → ℕ
back before k = get_or before (k - 1) 0

abbrev pub rotl : ℕ → ℕ → ℕ
rotl n x = bit_or (u32 (x <<< n)) (x >>> (32 - n))

abbrev pub rotr : ℕ → ℕ → ℕ
rotr n x = bit_or (x >>> n) (u32 (x <<< (32 - n)))

abbrev pub ch : ℕ → ℕ → ℕ → ℕ
ch x y z = bit_xor (bit_and x y) (bit_and (not32 x) z)

abbrev pub maj : ℕ → ℕ → ℕ → ℕ
maj x y z = bit_xor (bit_xor (bit_and x y) (bit_and x z)) (bit_and y z)

abbrev pub parity : ℕ → ℕ → ℕ → ℕ
parity x y z = bit_xor (bit_xor x y) z
