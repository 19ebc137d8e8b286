-- ===== src/Reader/Int64.antt =====
-- `parseInt64` of internal/graph/redis.go. An int64 is its bit pattern, a number below 2 ^ 64.
use otel_k8s_graph.Base.{
  ℕ, zero, suc, ◌+◌, ◌-◌, ◌<◌, Text, [], ◌∷◌, Option, none, some, Bool, true, ◌&&◌, ◌||◌,
  text_DecEq, nat_DecEq, if◌then◌else◌, ◌==◌, ltb, leb, is_some, map_option, ◌≡◌, false, refl, ◌∙◌,
  arith,
}
use otel_k8s_graph.Base.{ℤ, pos, negsuc, digits, itoa, ◌*◌, ◌%◌, ◌/◌}

abbrev pub int64_mod : ℕ
int64_mod = 18_446_744_073_709_551_616

-- The loop over the digits, from a value so far.
unfoldable pub accumulate : Text → ℕ → Option ℕ
accumulate [] v = some v
accumulate (c ∷ s) v =
    let rest = accumulate s ((v * 10 + (c - b'0')) % int64_mod) in
    if ltb c b'0' || ltb b'9' c then none else rest

-- v = -v
abbrev pub negate : ℕ → ℕ
negate v = (int64_mod - v) % int64_mod

-- `none` is errInvalidInt.
unfoldable pub parse_int64 : Text → Option ℕ
unfolding accumulate
parse_int64 [] = accumulate [] 0
parse_int64 (c ∷ s) = if c == b'-' then map_option negate (accumulate s 0) else accumulate (c ∷ s) 0

-- The pattern of an integer, as a conversion to int64 gives it.
abbrev pub int64_of : ℤ → ℕ
int64_of (pos n) = n % int64_mod
int64_of (negsuc n) = negate (suc n % int64_mod)

accumulate-digits :
    (fuel n : ℕ) (done : Text)
    → n < fuel
    → accumulate (digits fuel n done) 0 ≡ accumulate done (n % int64_mod)
unfolding accumulate digits
accumulate-digits zero n done h = absurd (omega arith)
accumulate-digits (suc fuel) n done h =
    ground (arith, accumulate-digits fuel (n / 10) ((b'0' + n % 10) ∷ done))

parse_int64-digits :
    (fuel n : ℕ) (done : Text)
    → n < fuel
    → parse_int64 (digits fuel n done) ≡ accumulate done (n % int64_mod)
unfolding parse_int64 digits
parse_int64-digits zero n done h = absurd (omega arith)
parse_int64-digits (suc fuel) n done h =
    ground (arith, parse_int64-digits fuel (n / 10) ((b'0' + n % 10) ∷ done))

-- What strconv writes for an integer, `parseInt64` reads back as its 64 bits; beyond the range of
-- an int64 it wraps round without an error.
pub parse_int64-itoa : (z : ℤ) → parse_int64 (itoa z) ≡ some (int64_of z)
unfolding itoa
parse_int64-itoa (pos n) =
    parse_int64-digits (suc n) n [] (omega arith) ∙ (unfold accumulate in refl)
parse_int64-itoa (negsuc n) =
    unfold parse_int64 in ground (arith, accumulate-digits (suc (suc n)) (suc n) [])

-- Are all bytes digits?
unfoldable pub all_digits : Text → Bool
all_digits [] = true
all_digits (c ∷ s) = leb b'0' c && leb c b'9' && all_digits s

accumulate_some : (s : Text) (v : ℕ) → is_some (accumulate s v) ≡ all_digits s
unfolding accumulate all_digits
accumulate_some [] v = refl
accumulate_some (c ∷ s) v = ground (arith, accumulate_some s ((v * 10 + (c - b'0')) % int64_mod))

unfoldable pub unsigned : Text → Text
unsigned [] = []
unsigned (c ∷ s) = if c == b'-' then s else c ∷ s

-- `parseInt64` refuses a text exactly if some byte behind an optional minus sign is not a digit. It
-- refuses neither an empty text nor a lone sign.
pub parse_int64_some : (s : Text) → is_some (parse_int64 s) ≡ all_digits (unsigned s)
unfolding parse_int64 unsigned
parse_int64_some [] = accumulate_some [] 0
parse_int64_some (c ∷ s) = ground (arith, accumulate_some s 0, accumulate_some (c ∷ s) 0)

accumulate-lt : (s : Text) (v w : ℕ) → v < int64_mod → accumulate s v ≡ some w → w < int64_mod
unfolding accumulate
accumulate-lt [] v w h p = ground arith
accumulate-lt (c ∷ s) v w h p =
    ground (arith, accumulate-lt s ((v * 10 + (c - b'0')) % int64_mod) w)

-- No number is written as an empty text.
digits_cons : (fuel n c : ℕ) (done : Text) → (digits fuel n (c ∷ done) == []) ≡ false
unfolding digits
digits_cons zero n c done = ground arith
digits_cons (suc fuel) n c done =
    ground (arith, digits_cons fuel (n / 10) (b'0' + n % 10) (c ∷ done))

pub itoa_cons : (n : ℕ) → (itoa (pos n) == []) ≡ false
unfolding itoa digits
itoa_cons n = ground (arith, digits_cons n (n / 10) (b'0' + n % 10) [])
