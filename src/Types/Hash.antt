-- ===== src/Types/Hash.antt =====
-- common/types.go: a 32-byte hash or a 20-byte address is the number that its bytes spell,
-- the first byte highest. `String` writes it as "0x" and two lower-case hex digits for each byte.
use babyboy.Prelude.{
  ℕ, zero, suc, ◌+◌, ◌-◌, ◌/◌, ◌%◌, ◌^◌, ◌<◌, ◌≡◌, refl, Bool, true, false, not, ◌&&◌, ◌||◌, List,
  [], ◌∷◌, ◌++◌, length, length-append, ltb, ◌==◌, if◌then◌else◌, arith,
}
use native.Mathlib.Nat.{pow-suc}

abbrev pub Hash : Type 0
Hash = ℕ

abbrev pub Address : Type 0
Address = ℕ

-- The length of the array type, which `len` returns for each value of it.
abbrev pub hash_len : Hash → ℕ
hash_len h = 32

-- The character of a hex digit.
digit : ℕ → ℕ
digit d = if ltb d 10 then b'0' + d else b'a' + (d - 10)

-- The last `w` hex digits of a number.
hex_digits : ℕ → ℕ → List ℕ
hex_digits zero n = []
hex_digits (suc w) n = hex_digits w (n / 16) ++ (digit (n % 16) ∷ [])

unfoldable pub hash_string : Hash → List ℕ
unfolding hex_digits digit
hash_string h = b'0' ∷ b'x' ∷ hex_digits 64 h

-- Go's `>` on strings: the first character that differs decides.
unfoldable pub string_gt : List ℕ → List ℕ → Bool
string_gt [] ys = false
string_gt (x ∷ xs) [] = true
string_gt (x ∷ xs) (y ∷ ys) = ltb y x || (not (ltb x y) && string_gt xs ys)

pub hash_gt : Hash → Hash → Bool
hash_gt a b = string_gt (hash_string a) (hash_string b)

-- The last characters decide between texts that agree before.
string_gt-snoc :
    (xs ys : List ℕ) (x y : ℕ)
    → length xs ≡ length ys
    → string_gt (xs ++ (x ∷ [])) (ys ++ (y ∷ []))
      ≡ (string_gt xs ys || (not (string_gt ys xs) && ltb y x))
unfolding string_gt
string_gt-snoc [] [] x y h = ground arith
string_gt-snoc [] (b ∷ ys) x y h = absurd (omega arith)
string_gt-snoc (a ∷ xs) [] x y h = absurd (omega arith)
string_gt-snoc (a ∷ xs) (b ∷ ys) x y h = ground (arith, string_gt-snoc xs ys x y)

length-hex_digits : (w n : ℕ) → length (hex_digits w n) ≡ w
unfolding hex_digits
length-hex_digits zero n = refl
length-hex_digits (suc w) n = omega (
  arith,
  length-append (hex_digits w (n / 16)) (digit (n % 16) ∷ []),
  length-hex_digits w (n / 16),
)

digit_mono : (a b : ℕ) → a < 16 → b < 16 → ltb (digit a) (digit b) ≡ ltb a b
unfolding digit
digit_mono a b ha hb = ground arith

string_gt-hex_digits :
    (w a b : ℕ) → a < 16 ^ w → b < 16 ^ w → string_gt (hex_digits w a) (hex_digits w b) ≡ ltb b a
unfolding hex_digits
string_gt-hex_digits zero a b ha hb = unfold string_gt in ground arith
string_gt-hex_digits (suc w) a b ha hb = ground (
  arith,
  string_gt-snoc (hex_digits w (a / 16)) (hex_digits w (b / 16)) (digit (a % 16)) (digit (b % 16)),
  length-hex_digits w (a / 16),
  length-hex_digits w (b / 16),
  digit_mono (b % 16) (a % 16),
  string_gt-hex_digits w (a / 16) (b / 16),
  string_gt-hex_digits w (b / 16) (a / 16),
  pow-suc 16 w,
)

-- The order of the strings of two hashes is the order of the hashes as numbers.
pub string_gt-hash_string :
    (a b : Hash) → a < 2 ^ 256 → b < 2 ^ 256 → string_gt (hash_string a) (hash_string b) ≡ ltb b a
unfolding hash_string string_gt
string_gt-hash_string a b ha hb = ground (arith, string_gt-hex_digits 64 a b ha hb)

pub hash_string-length : (h : Hash) → length (hash_string h) ≡ 66
unfolding hash_string
hash_string-length h = ground (arith, length-hex_digits 64 h)

-- Go's `==` on strings.
unfoldable pub string_eq : List ℕ → List ℕ → Bool
string_eq [] [] = true
string_eq [] (y ∷ ys) = false
string_eq (x ∷ xs) [] = false
string_eq (x ∷ xs) (y ∷ ys) = x == y && string_eq xs ys

pub string_eq_refl : (xs : List ℕ) → string_eq xs xs ≡ true
unfolding string_eq
string_eq_refl [] = refl
string_eq_refl (x ∷ xs) = ground (arith, string_eq_refl xs)
