-- ===== src/Prelude/Regex.antt =====
-- Python's `re`, for patterns that end in one group: `search` tries the places of the text
-- from the left, and at each place the ways through the pattern in the order in which `re` backtracks.
use Prim.Native.Char.{code}
use Prim.Native.Nat.{ℕ, zero, suc, ◌+◌}
use Prim.Native.String.{String}
use mathlib.Core.Bool.{Bool, ◌&&◌, ◌||◌}
use mathlib.Core.Option.{Option, none, some}
use mathlib.Core.List.{List, [], ◌∷◌, ◌++◌}
use nance_peer_lend_borrow_p.Prelude.Tests.{leb, ◌==◌, if◌then◌else◌}
use nance_peer_lend_borrow_p.Prelude.Text.{is_space, text_len}

-- The lower case of a character that ends up among the ASCII letters; Python takes the dotless i, the long
-- s and the Kelvin sign for i, s and k. Other characters stand for themselves.
abbrev pub fold : ℕ → ℕ
fold c =
    if leb 65 c && leb c 90
    then c + 32
    else if c == 304 || c == 305
    then 105
    else if c == 383
    then 115
    else if c == 8490
    then 107
    else c

-- The ways through a part of a pattern: what is left of the text after each.
abbrev pub Lead : Type 0
Lead = String → List String

abbrev pub digit_char : ℕ → Bool
digit_char c = leb 48 c && leb c 57

-- A small letter or a digit of ASCII.
abbrev pub alphanumeric : ℕ → Bool
alphanumeric c = digit_char c || (leb 97 c && leb c 122)

-- A class under IGNORECASE.
abbrev pub any_case : (ℕ → Bool) → ℕ → Bool
any_case p c = p (fold c)

-- One character of a class.
unfoldable pub one : (ℕ → Bool) → Lead
one p String.[] = []
one p (String.◌∷◌ c s) = if p (code c) then s ∷ [] else []

-- A literal text, written here in lower case.
unfoldable pub literal : String → Lead
literal String.[] s = s ∷ []
literal (String.◌∷◌ d t) String.[] = []
literal (String.◌∷◌ d t) (String.◌∷◌ c s) = if fold (code c) == code d then literal t s else []

-- `\s*`: the longest run first
unfoldable pub spaces : Lead
spaces String.[] = String.[] ∷ []
spaces (String.◌∷◌ c s) =
    let rest = spaces s ++ (String.◌∷◌ c s ∷ []) in
    if is_space (code c) then rest else String.◌∷◌ c s ∷ []

-- `p?`
unfoldable pub optional : Lead → Lead
optional p s = p s ++ (s ∷ [])

-- `p|q`
unfoldable pub either : Lead → Lead → Lead
either p q s = p s ++ q s

unfoldable pub each : Lead → List String → List String
each p [] = []
each p (s ∷ ss) = p s ++ each p ss

-- `pq`
infixl 20 ◌then◌
unfoldable pub ◌then◌ : Lead → Lead → Lead
(p then q) s = each q (p s)

-- A group at the end of the pattern: what it matches, with the rest of the text.
abbrev pub Group : Type 0
Group = String → Option String

-- The longest text of a class at the start of a text.
unfoldable pub run : (ℕ → Bool) → String → String
run p String.[] = String.[]
run p (String.◌∷◌ c s) = let rest = run p s in if p (code c) then String.◌∷◌ c rest else String.[]

-- `s[:n]`
unfoldable pub text_take : ℕ → String → String
text_take zero s = String.[]
text_take (suc n) String.[] = String.[]
text_take (suc n) (String.◌∷◌ c s) = String.◌∷◌ c (text_take n s)

-- `([…]{low})`
unfoldable pub at_least : ℕ → (ℕ → Bool) → Group
at_least low p s = let found = run p s in if leb low (text_len found) then some found else none

-- `([…]{low,high})`
unfoldable pub between : ℕ → ℕ → (ℕ → Bool) → Group
between low high p s =
    let found = run p s in if leb low (text_len found) then some (text_take high found) else none

abbrev pub capture_or : Option String → Option String → Option String
capture_or none later = later
capture_or (some t) later = some t

unfoldable pub first_capture : Group → List String → Option String
first_capture g [] = none
first_capture g (s ∷ ss) = capture_or (g s) (first_capture g ss)

-- `pattern.search(text)` with `match.group(1)`
unfoldable pub search_group : Lead → Group → String → Option String
search_group p g String.[] = first_capture g (p String.[])
search_group p g (String.◌∷◌ c s) =
    capture_or (first_capture g (p (String.◌∷◌ c s))) (search_group p g s)

-- Opens the engine where a pattern is run on a text.
unfoldable pub regex : Unit {0}
unfolding one literal spaces optional either each ◌then◌ run text_take at_least between
    first_capture search_group is_space text_len
regex = tt
