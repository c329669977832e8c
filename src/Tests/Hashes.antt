-- ===== src/Tests/Hashes.antt =====
-- The vectors of test-sha1.c and test-sha256.c.
use secure_kernel_loader.Base.{◌≡◌, ◌↔◌, refl, true, false, replicate, [], ◌∷◌}
use secure_kernel_loader.EventLog.Records.{codes}
use secure_kernel_loader.Sha.Stream.{output, once_loop}
use secure_kernel_loader.Sha.Sha1.{sha1sum}
use secure_kernel_loader.Sha.Sha256.{sha256sum}
use secure_kernel_loader.Sha.Fips.Constants.{h1_fips, h256_fips}
use secure_kernel_loader.Sha.Fips.Block1.{block1}
use secure_kernel_loader.Sha.Fips.Block256.{block256}
use secure_kernel_loader.Sha.Digest.{fips_digest}
use secure_kernel_loader.Sha.Tables.{
  dump_hash32, dump_hash64, report, run_tests, run_all, tests1, test_sha1, test_sha256,
}
use secure_kernel_loader.Sha.Expects.{Expects, run_all-Expects}
use secure_kernel_loader.Printk.{hex_digit}

sha1_abc :
    sha1sum (codes "abc") 3
    ≡ output (0xa9993e36 ∷ 0x4706816a ∷ 0xba3e2571 ∷ 0x7850c26c ∷ 0x9cd0d89d ∷ [])
unfolding sha1sum once_loop
sha1_abc = refl

sha256_abc :
    sha256sum (codes "abc") 3
    ≡ output (
        0xba7816bf ∷ 0x8f01cfea ∷ 0x414140de ∷ 0x5dae2223 ∷ 0xb00361a3 ∷ 0x96177a9c ∷ 0xb410ff61
        ∷ 0xf20015ad ∷ [])
unfolding sha256sum once_loop
sha256_abc = refl

-- Both programs with their own tables, and the message that they print.
sha1_passes : test_sha1 ≡ (false, codes "All ok\n")
unfolding run_all run_tests sha1sum once_loop output
sha1_passes = refl

sha256_passes : test_sha256 ≡ (false, codes "All ok\n")
unfolding run_all run_tests sha256sum once_loop output
sha256_passes = refl

run_all-Expects_example :
    (((run_all sha1sum (dump_hash32 5 0) tests1).0 ≡ false)
      ↔ Expects (fips_digest block1 h1_fips) tests1)
    × (((run_all sha256sum (dump_hash64 4 0) tests1).0 ≡ false)
        ↔ Expects (fips_digest block256 h256_fips) tests1)
run_all-Expects_example = run_all-Expects tests1

-- A table whose digest is wrong.
report_lem :
    run_all sha1sum (dump_hash32 5 0) (record { msg = codes "abc"; hash = replicate 20 0 } ∷ []) ≡ (
      true,
      codes
          "Fail: Message 'abc'\n  Got:      a9993e364706816aba3e25717850c26c9cd0d89d\n  Expected: 0000000000000000000000000000000000000000\n",
    )
unfolding run_all run_tests report dump_hash32 hex_digit sha1sum once_loop output
report_lem = refl
