-- ===== src/Base/Regex.antt =====
-- Regular expressions of JavaScript over texts, as far as the source uses them: greedy and with
-- backtracking, the first alternative first, with capture groups. A round of a star that reads
-- nothing ends it, so the length of the text bounds the rounds.
pub mod Laws
use Prim.Native.Char.{code}
use Prim.Native.Nat.{ℕ, zero, suc, ◌-◌}
use Prim.Native.String.{String, [], ◌∷◌}
use mathlib.Core.Bool.{Bool, true, false, ◌&&◌, ◌||◌}
use mathlib.Core.Option.{Option, none, some}
use mathlib.Core.List.{List}
use open_balena_api.Base.Tests.{leb, ltb, ◌==◌, if◌then◌else◌, is_some}

pub data Regex : Type 0 where
  empty : Regex
  class : (ℕ → Bool) → Regex
  seq alt : Regex → Regex → Regex
  star : Regex → Regex
  group : ℕ → Regex → Regex
  at_start at_end : Regex

abbrev pub all_of : List Regex → Regex
all_of List.[] = empty
all_of ((List.◌∷◌) r List.[]) = r
all_of ((List.◌∷◌) r ((List.◌∷◌) q rs)) = seq r (all_of ((List.◌∷◌) q rs))

abbrev pub plus : Regex → Regex
plus r = seq r (star r)

abbrev pub optional : Regex → Regex
optional r = alt r empty

abbrev pub literal : String → Regex
literal [] = empty
literal (c ∷ s) = seq (class (λ d. d == code c)) (literal s)

abbrev pub in_range : ℕ → ℕ → ℕ → Bool
in_range lo hi c = leb lo c && leb c hi

abbrev pub digit : ℕ → Bool
digit c = in_range b'0' b'9' c

abbrev pub lower : ℕ → Bool
lower c = in_range b'a' b'z' c

abbrev pub upper : ℕ → Bool
upper c = in_range b'A' b'Z' c

-- `\w`
abbrev pub word : ℕ → Bool
word c = lower c || upper c || digit c || c == b'_'

abbrev count : String → ℕ
count [] = 0
count (c ∷ s) = suc (count s)

take : ℕ → String → String
take zero s = ""
take (suc n) [] = ""
take (suc n) (c ∷ s) = c ∷ take n s

pub record Cursor : Type 0 where
  pub rest : String
  pub first : Bool
  pub groups : List (ℕ × String)

abbrev Next : Type 0
Next = Cursor → Option Cursor

-- What stands between two cursors.
between : Cursor → Cursor → String
unfolding take
between a b = take (count a.rest - count b.rest) a.rest

step_class : (ℕ → Bool) → Next → Bool → List (ℕ × String) → String → Option Cursor
step_class p k b g [] = none
step_class p k b g (c ∷ s) =
    if p (code c) then k (record { rest = s; first = false; groups = g }) else none

abbrev is_nil : String → Bool
is_nil [] = true
is_nil (c ∷ s) = false

-- A star whose rounds are those of `m`, on fuel.
rounds : ℕ → (Next → Next) → Next → Next
rounds zero m k a = k a
rounds (suc n) m k a =
    elim (m (λ b. elim (ltb (count b.rest) (count a.rest)) [ true ↦ rounds n m k b | false ↦ none ])
      a) [ some r ↦ some r | none ↦ k a ]

match_then : Regex → Next → Next
unfolding step_class rounds between
match_then empty k a = k a
match_then (class p) k a = step_class p k a.first a.groups a.rest
match_then (seq r q) k a = match_then r (match_then q k) a
match_then (alt r q) k a =
    let other = match_then q k a in elim (match_then r k a) [ some b ↦ some b | none ↦ other ]
match_then (star r) k a = rounds (suc (count a.rest)) (match_then r) k a
match_then (group n r) k a =
    match_then r (λ b. k (record b { groups = List.◌∷◌ (n, between a b) b.groups })) a
match_then at_start k a = if a.first then k a else none
match_then at_end k a = if is_nil a.rest then k a else none

-- The first match that begins at this place or further on.
search_from : Regex → Bool → String → Option Cursor
search_from r first [] = match_then r some (record { rest = []; first = first; groups = List.[] })
search_from r first (c ∷ s) =
    let later = search_from r false s in
    elim (match_then r some (record { rest = c ∷ s; first = first; groups = List.[] })) [
      | some a ↦ some a
      | none ↦ later
    ]

-- `s.match(r)`: the cursor behind the match, with its groups.
unfoldable pub exec : Regex → String → Option Cursor
unfolding search_from match_then
exec r s = search_from r true s

-- `r.test(s)`
unfoldable pub test : Regex → String → Bool
unfolding exec
test r s = is_some (exec r s)

-- The text of a group in a match; a group that took no part has none.
unfoldable pub group_of : ℕ → List (ℕ × String) → Option String
group_of n List.[] = none
group_of n ((List.◌∷◌) (m, t) g) = if m == n then some t else group_of n g
