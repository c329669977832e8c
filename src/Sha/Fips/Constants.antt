-- ===== src/Sha/Fips/Constants.antt =====
-- The constants of FIPS 180-4: the initial hash values of sections 5.3.1 and 5.3.3, and the words K
-- of section 4.2.2, which the standard defines by the roots of the first primes.
use secure_kernel_loader.Base.{
  ℕ, zero, suc, ◌+◌, ◌*◌, ◌%◌, ◌^◌, ◌≡◌, refl, List, [], ◌∷◌, take, map, leb, if◌then◌else◌,
}
use secure_kernel_loader.Sha.Sha1.{sha1_init}
use secure_kernel_loader.Sha.Sha256.{k256, sha256_init}

-- The first 64 primes.
abbrev primes : List ℕ
primes =
    2 ∷ 3 ∷ 5 ∷ 7 ∷ 11 ∷ 13 ∷ 17 ∷ 19 ∷ 23 ∷ 29 ∷ 31 ∷ 37 ∷ 41 ∷ 43 ∷ 47 ∷ 53 ∷ 59 ∷ 61 ∷ 67 ∷ 71
    ∷ 73 ∷ 79 ∷ 83 ∷ 89 ∷ 97 ∷ 101 ∷ 103 ∷ 107 ∷ 109 ∷ 113 ∷ 127 ∷ 131 ∷ 137 ∷ 139 ∷ 149 ∷ 151 ∷ 157
    ∷ 163 ∷ 167 ∷ 173 ∷ 179 ∷ 181 ∷ 191 ∷ 193 ∷ 197 ∷ 199 ∷ 211 ∷ 223 ∷ 227 ∷ 229 ∷ 233 ∷ 239 ∷ 241
    ∷ 251 ∷ 257 ∷ 263 ∷ 269 ∷ 271 ∷ 277 ∷ 281 ∷ 283 ∷ 293 ∷ 307 ∷ 311 ∷ []

-- The largest number of the form r + x, with x of `bits` bits, whose power e is at most n.
unfoldable root : ℕ → ℕ → ℕ → ℕ → ℕ
root e n zero r = r
root e n (suc bits) r = root e n bits (if leb ((r + 2 ^ bits) ^ e) n then r + 2 ^ bits else r)

-- The first 32 bits of the fractional part of the root e of p.
unfoldable fraction : ℕ → ℕ → ℕ
unfolding root
fraction e p = root e (p * (2 ^ 32) ^ e) 40 0 % 2 ^ 32

-- The words K of SHA-256: of the cube roots of the first 64 primes.
unfoldable pub k_fips : List ℕ
unfolding fraction
k_fips = map (fraction 3) primes

-- The initial hash value of SHA-256: of the square roots of the first 8 primes.
unfoldable pub h256_fips : List ℕ
unfolding fraction
h256_fips = map (fraction 2) (take 8 primes)

-- The initial hash value of SHA-1.
abbrev pub h1_fips : List ℕ
h1_fips = 0x67452301 ∷ 0xEFCDAB89 ∷ 0x98BADCFE ∷ 0x10325476 ∷ 0xC3D2E1F0 ∷ []

pub k256_lem : k_fips ≡ k256
unfolding k_fips fraction root
k256_lem = refl

pub sha256_init_lem : h256_fips ≡ sha256_init.h
unfolding h256_fips sha256_init fraction root
sha256_init_lem = refl

pub sha1_init_lem : h1_fips ≡ sha1_init.h
unfolding sha1_init
sha1_init_lem = refl
