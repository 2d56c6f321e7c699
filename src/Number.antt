-- ===== src/Number.antt =====
-- `std::stoi` and `std::stoll`: leading white space, a sign, digits, and then anything.
use irods_client_http_api.Prelude.{
  ℕ, ◌+◌, ◌-◌, ◌*◌, ◌≤◌, ◌≡◌, refl, Bool, true, false, ◌&&◌, ◌||◌, [], ◌∷◌, Option, none, some,
  ◌==◌, leb, if◌then◌else◌, arith, Bytes, text,
}
use irods_client_http_api.Http.{ℤ, pos, negsuc}

abbrev is_space : ℕ → Bool
is_space c = c == 32 || (leb 9 c && leb c 13)

abbrev is_digit : ℕ → Bool
is_digit c = leb b'0' c && leb c b'9'

-- The digits from the front, after the value read so far.
digits_from : ℕ → Bytes → ℕ
digits_from acc [] = acc
digits_from acc (c ∷ s) =
    let rest = digits_from (acc * 10 + (c - b'0')) s in if is_digit c then rest else acc

-- The number at the front; `none` is `std::invalid_argument`.
magnitude : Bytes → Option ℕ
unfolding digits_from
magnitude [] = none
magnitude (c ∷ s) = if is_digit c then some (digits_from 0 (c ∷ s)) else none

negate : ℕ → ℤ
negate n = if n == 0 then pos 0 else negsuc (n - 1)

-- `none` is an exception: no number, or one that is greater than `largest` or less than
-- -(largest + 1).
signed_within : ℕ → Bool → Option ℕ → Option ℤ
unfolding negate
signed_within largest minus none = none
signed_within largest true (some n) = if leb n (largest + 1) then some (negate n) else none
signed_within largest false (some n) = if leb n largest then some (pos n) else none

unsigned_text : ℕ → Bytes → Option ℤ
unfolding magnitude signed_within
unsigned_text largest [] = none
unsigned_text largest (c ∷ s) =
    if c == b'-'
    then signed_within largest true (magnitude s)
    else if c == b'+'
    then signed_within largest false (magnitude s)
    else signed_within largest false (magnitude (c ∷ s))

trimmed_number : ℕ → Bytes → Option ℤ
unfolding unsigned_text
trimmed_number largest [] = none
trimmed_number largest (c ∷ s) =
    let rest = trimmed_number largest s in
    if is_space c then rest else unsigned_text largest (c ∷ s)

abbrev int_max : ℕ
int_max = 2147483647

abbrev long_long_max : ℕ
long_long_max = 9223372036854775807

unfoldable pub stoi : Bytes → Option ℤ
unfolding trimmed_number
stoi = trimmed_number int_max

unfoldable pub stoll : Bytes → Option ℤ
unfolding trimmed_number
stoll = trimmed_number long_long_max

abbrev pub InRange : ℕ → Option ℤ → Type 0
InRange largest none = Unit {0}
InRange largest (some (pos n)) = n ≤ largest
InRange largest (some (negsuc n)) = n ≤ largest

signed_within-InRange :
    (largest : ℕ) (minus : Bool) (o : Option ℕ) → InRange largest (signed_within largest minus o)
unfolding signed_within
signed_within-InRange largest minus none = tt
signed_within-InRange largest true (some n) = ground arith
signed_within-InRange largest false (some n) = ground arith

unsigned_text-InRange : (largest : ℕ) (s : Bytes) → InRange largest (unsigned_text largest s)
unfolding unsigned_text
unsigned_text-InRange largest [] = tt
unsigned_text-InRange largest (c ∷ s) = ground (
  arith,
  signed_within-InRange largest true (magnitude s),
  signed_within-InRange largest false (magnitude s),
  signed_within-InRange largest false (magnitude (c ∷ s)),
)

trimmed_number-InRange : (largest : ℕ) (s : Bytes) → InRange largest (trimmed_number largest s)
unfolding trimmed_number
trimmed_number-InRange largest [] = tt
trimmed_number-InRange largest (c ∷ s) =
    ground (arith, trimmed_number-InRange largest s, unsigned_text-InRange largest (c ∷ s))

-- What `stoi` reads fits into an `int`.
pub stoi-InRange : (s : Bytes) → InRange int_max (stoi s)
unfolding stoi
stoi-InRange = trimmed_number-InRange int_max

stoi-minus : stoi (text " -12x") ≡ some (negsuc 11)
unfolding stoi
stoi-minus = refl

stoi-too-large : stoi (text "2147483648") ≡ none
unfolding stoi
stoi-too-large = refl
