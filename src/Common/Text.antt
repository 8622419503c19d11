-- ===== src/Common/Text.antt =====
-- What the program uses of Go's packages strings and strconv. A text is walked character by character;
-- `strings.ToLower` is modelled on the letters A to Z.
use Prim.Native.Nat.{ℕ, zero, suc, ◌+◌, ◌-◌, ◌*◌, compare, Ordering}
use Prim.Native.Char.{Char, code}
use Prim.Native.String.{String, ◌++◌ as ◌<>◌}
use mathlib.Core.Path.{◌≡◌, sym, ap, ◌∙◌}
use mathlib.Core.Bool.{Bool, true, false, ◌&&◌}
use mathlib.Core.Logic.{inl, inr}
use mathlib.Core.Option.{Option, none, some, some_inj, none-ne-some}
use mathlib.Core.List.{List, [], ◌∷◌}
use native.Mathlib.Omega.{arith}
use text.Mathlib.TextEquality.{Char-path}
use text.Mathlib.TextLemmas.{nil-append, cons-append}
use nebularr_operator.Common.Equality.{if◌then◌else◌, Bool-cases}
use nebularr_operator.Common.Int.{ℤ, pos, negsuc}

abbrev pub leb : ℕ → ℕ → Bool
leb a b = elim (compare a b) [ Ordering.gt ↦ false | _ ↦ true ]

char_at : List Char → ℕ → Char → Char
char_at [] i c = c
char_at (x ∷ xs) zero c = x
char_at (x ∷ xs) (suc i) c = char_at xs i c

lower_letters : List Char
lower_letters =
    "a" ∷ "b" ∷ "c" ∷ "d" ∷ "e" ∷ "f" ∷ "g" ∷ "h" ∷ "i" ∷ "j" ∷ "k" ∷ "l" ∷ "m" ∷ "n" ∷ "o" ∷ "p"
    ∷ "q" ∷ "r" ∷ "s" ∷ "t" ∷ "u" ∷ "v" ∷ "w" ∷ "x" ∷ "y" ∷ "z" ∷ []

lower_char : Char → Char
unfolding char_at lower_letters
lower_char c = if leb b'A' (code c) then char_at lower_letters (code c - b'A') c else c

-- `strings.ToLower`
unfoldable pub to_lower : String → String
unfolding lower_char
to_lower String.[] = String.[]
to_lower (String.◌∷◌ c s) = String.◌∷◌ (lower_char c) (to_lower s)

unfoldable pub same_char : Char → Char → Bool
same_char c d = elim (compare (code c) (code d)) [ Ordering.eq ↦ true | _ ↦ false ]

-- `strings.HasPrefix` and `strings.TrimPrefix`: what follows the prefix, if it is one.
unfoldable pub strip_prefix : String → String → Option String
unfolding same_char
strip_prefix String.[] s = some s
strip_prefix (String.◌∷◌ c p) String.[] = none
strip_prefix (String.◌∷◌ c p) (String.◌∷◌ d s) =
    let rest = strip_prefix p s in if same_char c d then rest else none

found : Option String → Bool
found none = false
found (some _) = true

-- `strings.Contains`
unfoldable pub has_part : String → String → Bool
unfolding strip_prefix found
has_part String.[] part = found (strip_prefix part String.[])
has_part (String.◌∷◌ c s) part =
    let rest = has_part s part in if found (strip_prefix part (String.◌∷◌ c s)) then true else rest

abbrev neg : ℕ → ℤ
neg zero = pos 0
neg (suc n) = negsuc n

pub data Digits : Type 0 where
  number : ℕ → Digits
  syntax_error range_error : Digits

abbrev pub two_63 : ℕ
two_63 = 9223372036854775808

abbrev pub two_64 : ℕ
two_64 = 18446744073709551616

-- The loop of `strconv.ParseUint` for base 10, which stops at what is no digit and at an overflow.
unfoldable pub parse_digits : ℕ → String → Digits
parse_digits n String.[] = number n
parse_digits n (String.◌∷◌ c s) =
    let rest = parse_digits (n * 10 + (code c - b'0')) s in
    if leb b'0' (code c) && leb (code c) b'9'
    then if leb two_64 (n * 10 + (code c - b'0')) then range_error else rest
    else syntax_error

-- The value, which is that of the closest number for a range error, and whether there is an error.
abbrev pub signed : Bool → Digits → ℤ × Bool
signed negative (number n) =
    if negative
    then if leb n two_63 then (neg n, false) else (negsuc (two_63 - 1), true)
    else if leb two_63 n
    then (pos (two_63 - 1), true)
    else (pos n, false)
signed negative range_error = (if negative then negsuc (two_63 - 1) else pos (two_63 - 1), true)
signed negative syntax_error = (pos 0, true)

-- A text of digits, which is not empty.
unfoldable pub unsigned : String → Digits
unfolding parse_digits
unsigned String.[] = syntax_error
unsigned (String.◌∷◌ c s) = parse_digits 0 (String.◌∷◌ c s)

-- `strconv.Atoi`
unfoldable pub atoi : String → ℤ × Bool
unfolding unsigned same_char
atoi String.[] = (pos 0, true)
atoi (String.◌∷◌ c s) =
    if same_char c "-"
    then signed true (unsigned s)
    else if same_char c "+"
    then signed false (unsigned s)
    else signed false (unsigned (String.◌∷◌ c s))

same_char_refl : (c : Char) → same_char c c ≡ true
unfolding same_char
same_char_refl c = ground arith

same_char-eq : (c d : Char) → same_char c d ≡ true → c ≡ d
unfolding same_char
same_char-eq c d h = Char-path c d (ground arith)

-- What `strings.TrimPrefix` leaves of a text that begins with the prefix.
pub strip_prefix-append : (p s : String) → strip_prefix p (p <> s) ≡ some s
unfolding strip_prefix
strip_prefix-append String.[] s = ap some (nil-append s)
strip_prefix-append (String.◌∷◌ c p) s =
    ap (strip_prefix (String.◌∷◌ c p)) (cons-append c p s)
    ∙ rw (same_char_refl c) (strip_prefix-append p s)

pub strip_prefix-some : (p s rest : String) → strip_prefix p s ≡ some rest → s ≡ p <> rest
unfolding strip_prefix
strip_prefix-some String.[] s rest h = some_inj.0 h ∙ sym (nil-append rest)
strip_prefix-some (String.◌∷◌ c p) String.[] rest h = absurd (none-ne-some rest h)
strip_prefix-some (String.◌∷◌ c p) (String.◌∷◌ d s) rest h = elim (Bool-cases (same_char c d)) [
  | inl e ↦
      ap (λ (x : Char). String.◌∷◌ x s) (sym (same_char-eq c d e))
      ∙ (ap (String.◌∷◌ c) (strip_prefix-some p s rest (rw e at h)) ∙ sym (cons-append c p rest))
  | inr e ↦ absurd (none-ne-some rest (rw e at h))
]
