-- ===== src/Prelude/Strip.antt =====
-- `str.strip()`: the text without the white space at its ends.
use Prim.Native.Nat.{ℕ, zero, suc, ◌≤◌}
use mathlib.Core.Path.{◌≡◌, refl, ap, ◌∙◌}
use mathlib.Core.Bool.{Bool, false, ◌&&◌, ◌||◌}
use mathlib.Core.Option.{some}
use mathlib.Core.List.{[], ◌∷◌}
use closer_os.Prelude.Tests.{leb, ◌==◌, if◌then◌else◌}
use closer_os.Prelude.Values.{Text}
use closer_os.Prelude.Lists.{length, get_elem?, is_empty}
use native.Mathlib.Omega.{arith}

-- `str.isspace()` of one character
unfoldable pub is_space : ℕ → Bool
is_space c =
    (leb 9 c && leb c 13)
    || (leb 28 c && leb c 32)
    || c == 0x85
    || c == 0xa0
    || c == 0x1680
    || (leb 0x2000 c && leb c 0x200a)
    || c == 0x2028
    || c == 0x2029
    || c == 0x202f
    || c == 0x205f
    || c == 0x3000

unfoldable pub lstrip : Text → Text
lstrip [] = []
lstrip (c ∷ cs) = if is_space c then lstrip cs else c ∷ cs

unfoldable pub rstrip : Text → Text
rstrip [] = []
rstrip (c ∷ cs) = let rest = rstrip cs in if is_space c && is_empty rest then [] else c ∷ rest

unfoldable pub strip : Text → Text
unfolding lstrip rstrip
strip t = rstrip (lstrip t)

rstrip-rstrip : (t : Text) → rstrip (rstrip t) ≡ rstrip t
unfolding rstrip
rstrip-rstrip [] = refl
rstrip-rstrip (c ∷ cs) = ground (arith, rstrip-rstrip cs)

lstrip-strip : (t : Text) → lstrip (strip t) ≡ strip t
unfolding strip lstrip rstrip
lstrip-strip [] = refl
lstrip-strip (c ∷ cs) = ground (arith, lstrip-strip cs)

pub strip-strip : (t : Text) → strip (strip t) ≡ strip t
unfolding strip
strip-strip t = ap rstrip (lstrip-strip t) ∙ rstrip-rstrip (lstrip t)

rstrip-visible :
    (t : Text) (i c : ℕ) → get_elem? t i ≡ some c → is_space c ≡ false → is_empty (rstrip t) ≡ false
unfolding rstrip
rstrip-visible [] i c at v = ground arith
rstrip-visible (d ∷ t) zero c at v = ground arith
rstrip-visible (d ∷ t) (suc i) c at v = ground (arith, rstrip-visible t i c)

-- A text with a character that is not white space is not stripped to nothing.
pub strip-visible :
    (t : Text) (i c : ℕ) → get_elem? t i ≡ some c → is_space c ≡ false → is_empty (strip t) ≡ false
unfolding strip lstrip
strip-visible [] i c at v = ground arith
strip-visible (d ∷ t) zero c at v = ground (arith, rstrip-visible (d ∷ t) 0 c)
strip-visible (d ∷ t) (suc i) c at v =
    ground (arith, strip-visible t i c, rstrip-visible (d ∷ t) (suc i) c)

length-rstrip-le : (t : Text) → length (rstrip t) ≤ length t
unfolding rstrip
length-rstrip-le [] = omega arith
length-rstrip-le (c ∷ t) = ground (arith, length-rstrip-le t)

length-lstrip-le : (t : Text) → length (lstrip t) ≤ length t
unfolding lstrip
length-lstrip-le [] = omega arith
length-lstrip-le (c ∷ t) = ground (arith, length-lstrip-le t)

pub length-strip-le : (t : Text) → length (strip t) ≤ length t
unfolding strip
length-strip-le t = omega (arith, length-lstrip-le t, length-rstrip-le (lstrip t))
