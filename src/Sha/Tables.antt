-- ===== src/Sha/Tables.antt =====
-- test-sha1.c and test-sha256.c: the two programs that compare the digests of a table of messages
-- with those that they expect. Their functions of the C library stand for what they do: strlen and
-- memcmp for the length and the comparison of lists, printf for the characters that it prints.
use secure_kernel_loader.Base.{
  ℕ, zero, suc, ◌+◌, ◌*◌, ◌/◌, ◌%◌, ◌^◌, Bool, true, false, ◌&&◌, List, [], ◌∷◌, ◌++◌, length,
  replicate, ◌==◌, if◌then◌else◌, get_be32, be64,
}
use secure_kernel_loader.EventLog.Records.{codes}
use secure_kernel_loader.Printk.{hex_digit}
use secure_kernel_loader.Sha.Stream.{output}
use secure_kernel_loader.Sha.Sha1.{sha1sum}
use secure_kernel_loader.Sha.Sha256.{sha256sum}

-- struct test, with the hash as the bytes that it has in memory.
pub record Test : Type 0 where
  pub msg : List ℕ
  pub hash : List ℕ

-- HASH of test-sha1.c: words of 32 bits, each through cpu_to_be32.
abbrev pub hash32 : List ℕ → List ℕ → Test
unfolding output
hash32 msg words = record { msg = msg; hash = output words }

-- HASH of test-sha256.c: words of 64 bits, each through cpu_to_be64.
abbrev pub output64 : List ℕ → List ℕ
output64 [] = []
output64 (w ∷ ws) = be64 w ++ output64 ws

abbrev pub hash64 : List ℕ → List ℕ → Test
hash64 msg words = record { msg = msg; hash = output64 words }

abbrev pub tests1 : List Test
tests1 =
    hash32 ([]) (0xda39a3ee ∷ 0x5e6b4b0d ∷ 0x3255bfef ∷ 0x95601890 ∷ 0xafd80709 ∷ [])
    ∷ hash32 (codes "a") (0x86f7e437 ∷ 0xfaa5a7fc ∷ 0xe15d1ddc ∷ 0xb9eaeaea ∷ 0x377667b8 ∷ [])
    ∷ hash32 (codes "abc") (0xa9993e36 ∷ 0x4706816a ∷ 0xba3e2571 ∷ 0x7850c26c ∷ 0x9cd0d89d ∷ [])
    ∷ hash32 (codes "The quick brown fox jumps over the lazy dog")
        (0x2fd4e1c6 ∷ 0x7a2d28fc ∷ 0xed849ee1 ∷ 0xbb76e739 ∷ 0x1b93eb12 ∷ [])
    ∷ hash32 (replicate 40 32) (0x108a95c4 ∷ 0x27e99c98 ∷ 0xffec5980 ∷ 0xf74ae18d ∷ 0xd7e6a6f1 ∷ [])
    ∷ hash32 (replicate 50 32) (0x346729de ∷ 0xbaf8c9e1 ∷ 0x042ae6e3 ∷ 0x82768fc2 ∷ 0xc172c351 ∷ [])
    ∷ hash32 (replicate 60 32) (0x3c82ec78 ∷ 0xda97a701 ∷ 0x6b999152 ∷ 0x468f3488 ∷ 0x16c55e28 ∷ [])
    ∷ hash32 (replicate 70 32) (0x6f2a4b80 ∷ 0x7e4fd5ac ∷ 0xcdae059f ∷ 0x9ec553b1 ∷ 0xa6872a27 ∷ [])
    ∷ []

abbrev pub tests256 : List Test
tests256 =
    hash64 ([])
      (0xe3b0c44298fc1c14 ∷ 0x9afbf4c8996fb924 ∷ 0x27ae41e4649b934c ∷ 0xa495991b7852b855 ∷ [])
    ∷ hash64 (codes "a")
        (0xca978112ca1bbdca ∷ 0xfac231b39a23dc4d ∷ 0xa786eff8147c4e72 ∷ 0xb9807785afee48bb ∷ [])
    ∷ hash64 (codes "abc")
        (0xba7816bf8f01cfea ∷ 0x414140de5dae2223 ∷ 0xb00361a396177a9c ∷ 0xb410ff61f20015ad ∷ [])
    ∷ hash64 (codes "The quick brown fox jumps over the lazy dog")
        (0xd7a8fbb307d78094 ∷ 0x69ca9abcb0082e4f ∷ 0x8d5651e46d3cdb76 ∷ 0x2d02d0bf37c9e592 ∷ [])
    ∷ hash64 (replicate 40 32)
        (0x7ea876d646ae9ac0 ∷ 0xdc26b5dade35c8ca ∷ 0x70498aaef0464db2 ∷ 0x247d0afbe823d62d ∷ [])
    ∷ hash64 (replicate 50 32)
        (0x4c38d6d8bd1c5a30 ∷ 0x61e0c20067679faa ∷ 0x28868831d7b83880 ∷ 0x0e3b64729af34354 ∷ [])
    ∷ hash64 (replicate 60 32)
        (0x6a9c3911d69fdb86 ∷ 0xd4b5a6b93dbdd9d5 ∷ 0xd3b1125551416b7a ∷ 0xf129b29936ae48e2 ∷ [])
    ∷ hash64 (replicate 70 32)
        (0xf5d88515972d5d9b ∷ 0xdf69f17f5cfde6d0 ∷ 0x33357f359c155efb ∷ 0xdf18ca64a6dd6335 ∷ [])
    ∷ []

-- memcmp( ) == 0 of blocks of the same size.
abbrev pub same_bytes : List ℕ → List ℕ → Bool
same_bytes [] [] = true
same_bytes [] (y ∷ ys) = false
same_bytes (x ∷ xs) [] = false
same_bytes (x ∷ xs) (y ∷ ys) = (x == y) && same_bytes xs ys

-- printf of a word in hexadecimal, with n digits.
abbrev pub hex_word : ℕ → ℕ → List ℕ
unfolding hex_digit
hex_word zero w = []
hex_word (suc n) w = hex_word n (w / 16) ++ hex_digit (w % 16) ∷ []

abbrev pub get_be64 : List ℕ → ℕ → ℕ
get_be64 bytes i = get_be32 bytes i * 2 ^ 32 + get_be32 bytes (i + 4)

-- dump_hash from the word j on, with the words that are left.
unfoldable pub dump_hash32 : ℕ → ℕ → List ℕ → List ℕ
unfolding hex_word
dump_hash32 zero j hash = []
dump_hash32 (suc left) j hash = hex_word 8 (get_be32 hash (4 * j)) ++ dump_hash32 left (j + 1) hash

unfoldable pub dump_hash64 : ℕ → ℕ → List ℕ → List ℕ
unfolding hex_word
dump_hash64 zero j hash = []
dump_hash64 (suc left) j hash = hex_word 16 (get_be64 hash (8 * j)) ++ dump_hash64 left (j + 1) hash

module _ (sum : List ℕ → ℕ → List ℕ) (dump_hash : List ℕ → List ℕ) where
  -- What is printed of a test that fails.
  unfoldable pub report : Test → List ℕ → List ℕ
  report t hash =
      codes "Fail: Message '"
      ++ (t.msg
          ++ (codes "'\n  Got:      "
              ++ (dump_hash hash ++ (codes "\n  Expected: " ++ (dump_hash t.hash ++ codes "\n")))))

  -- The loop, with `fail` and what has been printed.
  unfoldable pub run_tests : List Test → Bool → List ℕ → Bool × List ℕ
  unfolding report
  run_tests [] fail printed = (fail, printed)
  run_tests (t ∷ ts) fail printed =
      let hash = sum t.msg (length t.msg) in
      let passed = run_tests ts fail printed in
      let failed = run_tests ts true (printed ++ report t hash) in
      if same_bytes hash t.hash then passed else failed

  -- What main returns, and prints.
  unfoldable pub run_all : List Test → Bool × List ℕ
  unfolding run_tests
  run_all tests =
      let (fail, printed) = run_tests tests false [] in
      (fail, if fail then printed else printed ++ codes "All ok\n")

abbrev pub test_sha1 : Bool × List ℕ
unfolding run_all
test_sha1 = run_all sha1sum (dump_hash32 5 0) tests1

abbrev pub test_sha256 : Bool × List ℕ
unfolding run_all
test_sha256 = run_all sha256sum (dump_hash64 4 0) tests256
