-- ===== src/Printk.antt =====
-- printk.c, the debug output over the serial port. A string is the list of its characters. What a
-- function prints is the list of the characters that it hands to print_char, which does not look at
-- what was printed; the serial port is a parameter, whose polls take fuel.
pub mod Hex
use secure_kernel_loader.Base.{
  ◌>>=◌, ℕ, zero, suc, ◌+◌, ◌-◌, ◌*◌, ◌/◌, ◌%◌, Bool, true, false, ◌&&◌, ◌||◌, Option, none, some,
  List, [], ◌∷◌, ◌++◌, ◌==◌, ◌/=◌, ltb, leb, if◌then◌else◌, set, replicate, bit_and, ◌>>>◌, u8,
}
use secure_kernel_loader.Base.Memory.{Memory}
use secure_kernel_loader.EventLog.Records.{codes}

pub record Serial (U : Type 0) : Type 0 where
  pub inb : U → ℕ → U × ℕ
  pub outb : U → ℕ → ℕ → U

module _ {U : Type 0} (port : Serial U) (fuel : ℕ) where
  -- while ( !(inb(0x3f8 + 5) & 0x20) ), then the character.
  unfoldable pub wait_empty : ℕ → U → Option U
  wait_empty zero u = none
  wait_empty (suc n) u =
      let (u1, status) = port.inb u 0x3fd in
      let again = wait_empty n u1 in if bit_and status 0x20 == 0 then again else some u1

  unfoldable pub print_char : U → ℕ → Option U
  unfolding wait_empty
  print_char u c = do u1 ← wait_empty fuel u; some (port.outb u1 c 0x3f8)

  -- The characters that a function prints, one after the other.
  unfoldable pub print_chars : U → List ℕ → Option U
  unfolding print_char
  print_chars u [] = some u
  print_chars u (c ∷ cs) = print_char u c >>= (λ u'. print_chars u' cs)

-- print: up to the zero that ends the string, with a return before each newline.
unfoldable pub print : List ℕ → List ℕ
print [] = []
print (c ∷ cs) =
    let rest = c ∷ print cs in if c == 0 then [] else if c == 10 then 13 ∷ rest else rest

-- The character of a digit.
unfoldable pub hex_digit : ℕ → ℕ
hex_digit d = if leb 10 d then d + 97 - 10 else d + 48

-- The loop of print_p and print_u64, with `n` rounds left, which fills `tmp` from the end.
unfoldable pub fill_hex : ℕ → ℕ → List ℕ → ℕ → List ℕ
unfolding hex_digit
fill_hex zero i tmp p = tmp
fill_hex (suc n) i tmp p =
    let q = p >>> 4 in
    let low = set tmp (17 - 2 * i) (hex_digit (p % 16)) in
    let both = set low (16 - 2 * i) (hex_digit (q % 16)) in fill_hex n (i + 1) both (q >>> 4)

-- What print_p and print_u64, which are the same on 64 bits, leave in `tmp`.
unfoldable pub hex_text : ℕ → List ℕ
unfolding fill_hex
hex_text p = set (set (set (fill_hex 8 0 (codes "0x" ++ replicate 19 0) p) 18 58) 19 32) 20 0

unfoldable pub print_u64 : ℕ → List ℕ
unfolding print hex_text
print_u64 p = print (hex_text p)

abbrev pub print_p : ℕ → List ℕ
print_p p = print_u64 p

unfoldable pub print_b : ℕ → List ℕ
unfolding print hex_digit
print_b p = print (hex_digit ((p >>> 4) % 16) ∷ hex_digit (p % 16) ∷ 32 ∷ 0 ∷ [])

abbrev pub isprint : ℕ → Bool
isprint c = leb 32 c && leb c 126

-- Whether all of the n bytes at an address are v: the loops that end at the first other byte.
unfoldable pub all_bytes : Memory → ℕ → ℕ → ℕ → Bool
all_bytes m a zero v = true
all_bytes m a (suc n) v = if m a /= v then false else all_bytes m (a + 1) n v

-- The loops over a line's bytes that print them, as numbers and as characters.
unfoldable pub print_bytes : Memory → ℕ → ℕ → List ℕ
unfolding print_b
print_bytes m a zero = []
print_bytes m a (suc n) = print_b (m a) ++ print_bytes m (a + 1) n

unfoldable pub print_ascii : Memory → ℕ → ℕ → List ℕ
print_ascii m a zero = []
print_ascii m a (suc n) = (if isprint (m a) then m a else 46) ∷ print_ascii m (a + 1) n

unfoldable pub print_line : Memory → ℕ → List ℕ
unfolding print_u64 print_bytes print_ascii print
print_line m a =
    print_p a ++ (print_bytes m a 16 ++ (codes "  " ++ (print_ascii m a 16 ++ print (codes "\n"))))

-- The rounds of the loop of hexdump, with the counts all_zero and all_one.
unfoldable pub hexdump_lines : ℕ → Memory → ℕ → ℕ → ℕ → List ℕ
unfolding all_bytes print_line
hexdump_lines zero m a all_zero all_one = []
hexdump_lines (suc n) m a all_zero all_one =
    let zeros = if all_bytes m a 16 0 then all_zero + 1 else 0 in
    let ones = if all_bytes m a 16 0xff then all_one + 1 else 0 in
    let shown =
      if ltb zeros 2 && ltb ones 2
      then print_line m a
      else if (zeros == 2) || (ones == 2)
      then print (codes "...\n")
      else [] in
    shown ++ hexdump_lines n m (a + 16) zeros ones

-- A line for each 16 bytes begun.
unfoldable pub hexdump : Memory → ℕ → ℕ → List ℕ
unfolding hexdump_lines
hexdump m memory length = hexdump_lines ((length + 15) / 16) m memory 0 0
