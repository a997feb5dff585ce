-- ===== src/Int64.antt =====
-- Go's `int64` and `int`: a word is its bit pattern, a number below 2 ^ 64.
use babyboy.Prelude.{ℕ, ◌+◌, ◌-◌, ◌%◌, ◌^◌, ◌<◌, ◌≡◌, Bool, true, ltb, arith}

-- The signed order is the order of the patterns moved by half the range.
abbrev pub rank : ℕ → ℕ
rank x = (x + 2 ^ 63) % 2 ^ 64

abbrev pub slt : ℕ → ℕ → Bool
slt a b = ltb (rank a) (rank b)

abbrev pub add64 : ℕ → ℕ → ℕ
add64 a b = (a + b) % 2 ^ 64

abbrev pub sub64 : ℕ → ℕ → ℕ
sub64 a b = (a + 2 ^ 64 - b) % 2 ^ 64

-- -1
abbrev pub minus_one : ℕ
minus_one = 2 ^ 64 - 1

pub slt-add64_one : (a : ℕ) → a < 2 ^ 64 → slt a (2 ^ 63 - 1) ≡ true → slt a (add64 a 1) ≡ true
slt-add64_one a h k = ground arith
