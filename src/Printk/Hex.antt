-- ===== src/Printk/Hex.antt =====
-- Reading back what print_u64 and print_p print.
use mathlib.Core.List.{append_assoc}
use secure_kernel_loader.Base.{
  ◌>>=◌, some_bind, bind_some, ◌==◌, ℕ, zero, suc, ◌+◌, ◌-◌, ◌*◌, ◌/◌, ◌%◌, ◌^◌, ◌≤◌, ◌<◌, ◌≡◌,
  refl, ap, sym, ◌∙◌, if_false, Option, none, some, List, [], ◌∷◌, ◌++◌, leb, ◌&&◌, if◌then◌else◌,
  arith, length, length-append,
}
use secure_kernel_loader.EventLog.Records.{codes}
use secure_kernel_loader.Printk.{hex_digit, hex_text, fill_hex, print, print_u64}
use native.Mathlib.Nat.{pow-suc}

-- The value of a digit in lower case, and of digits with the highest first behind a value.
unfoldable pub digit_value : ℕ → Option ℕ
digit_value c =
    if leb 48 c && leb c 57
    then some (c - 48)
    else if leb 97 c && leb c 102
    then some (c - 87)
    else none

unfoldable pub read_hex : List ℕ → ℕ → Option ℕ
unfolding digit_value
read_hex [] n = some n
read_hex (c ∷ cs) n = digit_value c >>= (λ d. read_hex cs (n * 16 + d))

-- The lowest n digits of a number, the highest of them first.
unfoldable pub hex_digits : ℕ → ℕ → List ℕ
hex_digits zero p = []
hex_digits (suc n) p = hex_digits n (p / 16) ++ (hex_digit (p % 16) ∷ [])

digit_value-hex_digit : (d : ℕ) → d < 16 → digit_value (hex_digit d) ≡ some d
unfolding digit_value hex_digit
digit_value-hex_digit d h = ground arith

read_hex-append :
    (cs : List ℕ) (c n v d : ℕ)
    → read_hex cs n ≡ some v
    → digit_value c ≡ some d
    → read_hex (cs ++ (c ∷ [])) n ≡ some (v * 16 + d)
unfolding read_hex
read_hex-append [] c n v d h k =
    let e : n ≡ v = cc in some_bind (digit_value c) _ d (v * 16 + d) k (rw e refl)
read_hex-append (x ∷ cs) c n v d h k =
    let (y, e, f) = bind_some (digit_value x) _ v h in
    some_bind (digit_value x) _ y (v * 16 + d) e (read_hex-append cs c (n * 16 + y) v d f k)

read_hex-hex_digits : (n p : ℕ) → p < 16 ^ n → read_hex (hex_digits n p) 0 ≡ some p
unfolding read_hex hex_digits
read_hex-hex_digits zero p h = ap some (omega arith)
read_hex-hex_digits (suc n) p h =
    read_hex-append (hex_digits n (p / 16)) (hex_digit (p % 16)) 0 (p / 16) (p % 16)
      (read_hex-hex_digits n (p / 16) (omega (arith, pow-suc 16 n)))
      (digit_value-hex_digit (p % 16) (omega arith))
    ∙ ap some (omega arith)

length-hex_digits : (n p : ℕ) → length (hex_digits n p) ≡ n
unfolding hex_digits
length-hex_digits zero p = refl
length-hex_digits (suc n) p = omega (
  arith,
  length-append (hex_digits n (p / 16)) (hex_digit (p % 16) ∷ []),
  length-hex_digits n (p / 16),
)

-- A digit is printed as it is.
print-hex_digit : (d : ℕ) (t : List ℕ) → d < 16 → print (hex_digit d ∷ t) ≡ hex_digit d ∷ print t
unfolding print hex_digit
print-hex_digit d t h =
    let c : ℕ = if leb 10 d then d + 97 - 10 else d + 48 in
    let range : (48 ≤ c) × (c ≤ 102) = (ground arith, ground arith) in
    if_false (c == 0) [] _ (ground (arith, range))
    ∙ if_false (c == 10) _ (c ∷ print t) (ground (arith, range))

print-hex_digits : (n p : ℕ) (t : List ℕ) → print (hex_digits n p ++ t) ≡ hex_digits n p ++ print t
unfolding hex_digits
print-hex_digits zero p t = refl
print-hex_digits (suc n) p t =
    let c = hex_digit (p % 16) in
    ap print (append_assoc (hex_digits n (p / 16)) (c ∷ []) t)
    ∙ (print-hex_digits n (p / 16) (c ∷ t)
        ∙ (ap (◌++◌ (hex_digits n (p / 16))) (print-hex_digit (p % 16) t (omega arith))
            ∙ sym (append_assoc (hex_digits n (p / 16)) (c ∷ []) (print t))))

hex_text-hex_digits : (p : ℕ) → hex_text p ≡ codes "0x" ++ (hex_digits 16 p ++ (58 ∷ 32 ∷ 0 ∷ []))
unfolding hex_text hex_digits fill_hex
hex_text-hex_digits p = refl

-- For a number below 2 ^ 64, print_u64 prints 0x, sixteen digits that read back as the number, a
-- colon and a space.
pub print_u64-read_hex :
    (p : ℕ)
    → p < 2 ^ 64
    → (ds : List ℕ) × (print_u64 p ≡ codes "0x" ++ (ds ++ codes ": "))
      × (length ds ≡ 16)
      × (read_hex ds 0 ≡ some p)
unfolding print_u64
print_u64-read_hex p h = (
  hex_digits 16 p,
  ap print (hex_text-hex_digits p)
      ∙ ap (λ (t : List ℕ). 48 ∷ 120 ∷ t) (print-hex_digits 16 p (58 ∷ 32 ∷ 0 ∷ [])),
  length-hex_digits 16 p,
  read_hex-hex_digits 16 p (omega arith),
)
