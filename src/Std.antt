-- ===== src/Std.antt =====
-- What the extension uses of `std::string`: `find`, `substr`, `std::stoi` and `std::to_string`, with the exceptions they throw and the
-- wrap-around of `size_t`.
use tierdb_duckdb.Prelude.{
  ℕ, zero, suc, ◌+◌, ◌-◌, ◌*◌, ◌%◌, ◌/◌, ◌^◌, ◌≢◌, arith, ℤ, pos, negsuc, Text, text, Bool, false,
  ◌&&◌, ◌||◌, [], ◌∷◌, length, take, drop, ltb, leb, ◌==◌, if◌then◌else◌,
}
use tierdb_duckdb.Outcome.{Outcome, ok, throw, fault, foreign}

abbrev pub size_max : ℕ
size_max = 2 ^ 64

-- `std::string::npos`
abbrev pub npos : ℕ
npos = 2 ^ 64 - 1

-- `a - b` on `size_t`.
abbrev pub size_sub : ℕ → ℕ → ℕ
size_sub a b = (a + size_max - b) % size_max

abbrev pub std_error {ℓ} : {A : Type ℓ} → Text → Outcome A
std_error what = throw (record { kind = foreign; message = what })

-- `s.find(c)`, counted from `i`.
unfoldable pub find_from : ℕ → ℕ → Text → ℕ
find_from i c [] = npos
find_from i c (d ∷ s) = let rest = find_from (suc i) c s in if d == c then i else rest

-- `s.substr(start, count)`
unfoldable pub substr : Text → ℕ → ℕ → Outcome Text
substr s start count =
    if ltb (length s) start
    then std_error (text "basic_string::substr")
    else ok (take count (drop start s))

-- `s.substr(start)`
abbrev pub substr_from : Text → ℕ → Outcome Text
substr_from s start = substr s start npos

is_space : ℕ → Bool
is_space c = c == 32 || (leb 9 c && leb c 13)

unfoldable pub is_digit : ℕ → Bool
is_digit c = leb b'0' c && leb c b'9'

unfoldable pub skip_spaces : Text → Text
unfolding is_space
skip_spaces [] = []
skip_spaces (c ∷ s) = if is_space c then skip_spaces s else c ∷ s

-- The digits at the front, as a number on top of `acc`; what follows them is not read.
unfoldable pub read_digits : ℕ → Text → ℕ
unfolding is_digit
read_digits acc [] = acc
read_digits acc (c ∷ s) =
    let rest = read_digits (acc * 10 + (c - b'0')) s in if is_digit c then rest else acc

starts_with_digit : Text → Bool
unfolding is_digit
starts_with_digit [] = false
starts_with_digit (c ∷ s) = is_digit c

-- The value in the range of an `int`, whose magnitude is at most `most`.
in_int : ℕ → (ℕ → ℤ) → Text → Outcome ℤ
unfolding starts_with_digit read_digits
in_int most sign s =
    if starts_with_digit s
    then (let n = read_digits 0 s in if leb n most then ok (sign n) else std_error (text "stoi"))
    else std_error (text "stoi")

negate : ℕ → ℤ
negate zero = pos zero
negate (suc n) = negsuc n

signed : Text → Outcome ℤ
unfolding in_int negate
signed [] = std_error (text "stoi")
signed (c ∷ s) =
    if c == b'-'
    then in_int (2 ^ 31) negate s
    else if c == b'+'
    then in_int (2 ^ 31 - 1) pos s
    else in_int (2 ^ 31 - 1) pos (c ∷ s)

-- `std::stoi(s)`: `std::invalid_argument` without a digit, `std::out_of_range` past an `int`.
unfoldable pub stoi : Text → Outcome ℤ
unfolding signed skip_spaces
stoi s = signed (skip_spaces s)

-- `static_cast<uint8_t>(n)`
unfoldable pub to_uint8 : ℤ → ℕ
to_uint8 (pos n) = n % 256
to_uint8 (negsuc n) = 255 - n % 256

-- `std::stoi` ends with a number or an exception.
pub stoi-ne-fault : (s : Text) → stoi s ≢ fault
unfolding stoi signed in_int
stoi-ne-fault s h = ended (skip_spaces s) h
  where
    ended : (t : Text) → signed t ≢ fault
    ended [] q = cc
    ended (c ∷ t) q = ground arith

digits : ℕ → ℕ → Text → Text
digits zero n acc = acc
digits (suc left) n acc =
    let rest = digits left (n / 10) ((b'0' + n % 10) ∷ acc) in
    if ltb n 10 then (b'0' + n) ∷ acc else rest

-- `std::to_string` of a 64-bit number, which has twenty digits at most.
unfoldable pub to_string : ℕ → Text
unfolding digits
to_string n = digits 20 n []
