-- ===== src/Prelude/Text.antt =====
-- Python's `str`: `strip`, `len` and `str(int)` on the native texts.
use Prim.Native.Char.{Char, code}
use Prim.Native.Nat.{ℕ, zero, suc, ◌/◌, ◌%◌}
use Prim.Native.String.{String, ◌++◌}
use mathlib.Core.Bool.{Bool, true, false, ◌&&◌, ◌||◌}
use nance_peer_lend_borrow_p.Prelude.Tests.{leb, ltb, ◌==◌, if◌then◌else◌}

-- `str.isspace` of one character: the code points that `strip` removes.
unfoldable pub is_space : ℕ → Bool
is_space c =
    (leb 9 c && leb c 13)
    || (leb 28 c && leb c 32)
    || c == 133
    || c == 160
    || c == 5760
    || (leb 8192 c && leb c 8202)
    || c == 8232
    || c == 8233
    || c == 8239
    || c == 8287
    || c == 12288

-- `not s`
abbrev pub is_empty : String → Bool
is_empty String.[] = true
is_empty (String.◌∷◌ c s) = false

unfoldable pub lstrip : String → String
lstrip String.[] = String.[]
lstrip (String.◌∷◌ c s) = if is_space (code c) then lstrip s else String.◌∷◌ c s

-- A character goes in front of what is left of the rest, unless both are space.
abbrev pub keep_front : Char → String → String
keep_front c String.[] = if is_space (code c) then String.[] else String.◌∷◌ c String.[]
keep_front c (String.◌∷◌ d r) = String.◌∷◌ c (String.◌∷◌ d r)

unfoldable pub rstrip : String → String
rstrip String.[] = String.[]
rstrip (String.◌∷◌ c s) = keep_front c (rstrip s)

unfoldable pub strip : String → String
unfolding lstrip rstrip is_space
strip s = rstrip (lstrip s)

-- `len(s)`
unfoldable pub text_len : String → ℕ
text_len String.[] = 0
text_len (String.◌∷◌ c s) = suc (text_len s)

abbrev pub digit : ℕ → String
digit zero = "0"
digit (suc zero) = "1"
digit (suc (suc zero)) = "2"
digit (suc (suc (suc zero))) = "3"
digit (suc (suc (suc (suc zero)))) = "4"
digit (suc (suc (suc (suc (suc zero))))) = "5"
digit (suc (suc (suc (suc (suc (suc zero)))))) = "6"
digit (suc (suc (suc (suc (suc (suc (suc zero))))))) = "7"
digit (suc (suc (suc (suc (suc (suc (suc (suc zero)))))))) = "8"
digit _ = "9"

unfoldable pub decimal : ℕ → ℕ → String
decimal zero n = ""
decimal (suc fuel) n =
    let rest = decimal fuel (n / 10) in if ltb n 10 then digit n else rest ++ digit (n % 10)

-- `str(n)`: a number has at most as many digits as its successor counts.
unfoldable pub show : ℕ → String
unfolding decimal
show n = decimal (suc n) n

-- `s + t`
unfoldable pub text_append : String → String → String
text_append s t = s ++ t

-- `s.startswith(t)`
unfoldable pub begins : String → String → Bool
begins s String.[] = true
begins String.[] (String.◌∷◌ d t) = false
begins (String.◌∷◌ c s) (String.◌∷◌ d t) = code c == code d && begins s t

-- `t in s`
unfoldable pub contains : String → String → Bool
unfolding begins
contains t String.[] = begins String.[] t
contains t (String.◌∷◌ c s) = begins (String.◌∷◌ c s) t || contains t s
