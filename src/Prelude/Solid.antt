-- ===== src/Prelude/Solid.antt =====
-- Texts without white space, which `str.strip` leaves as they are.
use Prim.Native.Char.{code}
use Prim.Native.String.{String, ◌++◌}
use text.Mathlib.TextLemmas.{nil-append, cons-append}
use mathlib.Core.Path.{◌≡◌, refl, ap}
use mathlib.Core.Bool.{Bool, true, not, ◌&&◌}
use native.Mathlib.Omega.{arith}
use nance_peer_lend_borrow_p.Prelude.Text.{is_space, keep_front, lstrip, rstrip, strip}

-- No character is white space.
abbrev pub is_solid : String → Bool
is_solid String.[] = true
is_solid (String.◌∷◌ c s) = not (is_space (code c)) && is_solid s

lstrip-solid : (s : String) → is_solid s ≡ true → lstrip s ≡ s
unfolding lstrip
lstrip-solid String.[] h = refl
lstrip-solid (String.◌∷◌ c s) h = ground (arith, h)

rstrip-solid : (s : String) → is_solid s ≡ true → rstrip s ≡ s
unfolding rstrip
rstrip-solid String.[] h = refl
rstrip-solid (String.◌∷◌ c String.[]) h = ground (arith, h)
rstrip-solid (String.◌∷◌ c (String.◌∷◌ d s)) h =
    ap (keep_front c) (rstrip-solid (String.◌∷◌ d s) (ground (arith, h)))

pub strip-solid : (s : String) → is_solid s ≡ true → strip s ≡ s
unfolding strip
strip-solid s h = rw (lstrip-solid s h) (rstrip-solid s h)

pub append_solid : (s t : String) → is_solid s ≡ true → is_solid t ≡ true → is_solid (s ++ t) ≡ true
append_solid String.[] t h k = rw (nil-append t) k
append_solid (String.◌∷◌ c s) t h k = rw (cons-append c s t) (ground (arith, h, append_solid s t))
