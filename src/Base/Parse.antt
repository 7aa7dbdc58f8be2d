-- ===== src/Base/Parse.antt =====
-- `parseInt` of JavaScript in base ten, with `none` for NaN.
use Prim.Native.Char.{code}
use Prim.Native.Nat.{ℕ, ◌+◌, ◌-◌, ◌*◌, max}
use Prim.Native.String.{String, [], ◌∷◌}
use mathlib.Core.Bool.{Bool, true, false, ◌&&◌, ◌||◌}
use mathlib.Core.Option.{Option, none, some}
use open_balena_api.Base.Tests.{leb, ◌==◌, if◌then◌else◌}

abbrev pub is_digit : ℕ → Bool
is_digit c = leb b'0' c && leb c b'9'

-- The white space that `parseInt` skips.
abbrev is_space : ℕ → Bool
is_space c =
    (leb 9 c && leb c 13)
    || (c == 0x20)
    || (c == 0xa0)
    || (c == 0x1680)
    || (leb 0x2000 c && leb c 0x200a)
    || (c == 0x2028)
    || (c == 0x2029)
    || (c == 0x202f)
    || (c == 0x205f)
    || (c == 0x3000)
    || (c == 0xfeff)

abbrev digit_onto : Option ℕ → ℕ → ℕ
digit_onto none d = d - b'0'
digit_onto (some n) d = n * 10 + (d - b'0')

-- The digits at the front of a text, after those read so far.
digits_from : Option ℕ → String → Option ℕ
digits_from acc [] = acc
digits_from acc (c ∷ s) =
    let more = digits_from (some (digit_onto acc (code c))) s in
    if is_digit (code c) then more else acc

-- A number and whether a minus sign stands before it.
pub record Signed : Type 0 where
  pub negative : Bool
  pub magnitude : ℕ

abbrev signed : Bool → Option ℕ → Option Signed
signed b none = none
signed b (some n) = some (record { negative = b; magnitude = n })

signed_digits : String → Option Signed
unfolding digits_from
signed_digits [] = none
signed_digits (c ∷ s) =
    if code c == b'-'
    then signed true (digits_from none s)
    else if code c == b'+'
    then signed false (digits_from none s)
    else signed false (digits_from none (c ∷ s))

unfoldable pub parse_int : String → Option Signed
unfolding signed_digits
parse_int [] = none
parse_int (c ∷ s) =
    let rest = parse_int s in if is_space (code c) then rest else signed_digits (c ∷ s)

-- `Math.max(n || least, least)`, for a number that may be NaN or negative
abbrev pub at_least : ℕ → Option Signed → ℕ
at_least least none = least
at_least least (some n) = if n.negative then least else max n.magnitude least
