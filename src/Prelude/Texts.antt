-- ===== src/Prelude/Texts.antt =====
-- What the source uses of Python's `str` and `re`, over the native text.
use Prim.Native.Nat.{ℕ, zero, suc}
use Prim.Native.Char.{code}
use Prim.Native.String.{String}
use mathlib.Core.Bool.{Bool, true, false, ◌&&◌, ◌||◌}
use mathlib.Core.List.{List, [], ◌∷◌}
use text.Mathlib.Text.{◌==◌}
use gb_industrial_energy_dat.Prelude.Tests.{leb, nat_eq, if◌then◌else◌}

-- The code points of a text.
abbrev pub codes : String → List ℕ
codes String.[] = []
codes (String.◌∷◌ c s) = code c ∷ codes s

abbrev pub text_length : String → ℕ
text_length String.[] = 0
text_length (String.◌∷◌ c s) = suc (text_length s)

-- The code points that `str.isspace` accepts.
abbrev pub is_space : ℕ → Bool
is_space c =
    (leb 9 c && leb c 13)
    || (leb 28 c && leb c 32)
    || nat_eq c 133
    || nat_eq c 160
    || nat_eq c 5760
    || (leb 8192 c && leb c 8202)
    || nat_eq c 8232
    || nat_eq c 8233
    || nat_eq c 8239
    || nat_eq c 8287
    || nat_eq c 12288

unfoldable pub lstrip : String → String
lstrip String.[] = String.[]
lstrip (String.◌∷◌ c s) = let rest = lstrip s in if is_space (code c) then rest else String.◌∷◌ c s

unfoldable pub rstrip : String → String
rstrip String.[] = String.[]
rstrip (String.◌∷◌ c s) =
    let rest = rstrip s in
    if is_space (code c) && (rest == "") then String.[] else String.◌∷◌ c rest

-- `s.strip()`
unfoldable pub strip : String → String
unfolding lstrip rstrip
strip s = rstrip (lstrip s)

-- Character classes of the patterns.
abbrev pub is_digit : ℕ → Bool
is_digit c = leb b'0' c && leb c b'9'

abbrev pub is_lower : ℕ → Bool
is_lower c = leb b'a' c && leb c b'z'

abbrev pub is_alpha : ℕ → Bool
is_alpha c = is_lower c || (leb b'A' c && leb c b'Z')

abbrev pub is_alnum : ℕ → Bool
is_alnum c = is_alpha c || is_digit c

-- `[a-f0-9]`
abbrev pub is_hex : ℕ → Bool
is_hex c = (leb b'a' c && leb c b'f') || is_digit c

-- `[class]{n}` as a full match
unfoldable pub exactly : ℕ → (ℕ → Bool) → List ℕ → Bool
exactly zero p [] = true
exactly zero p (c ∷ cs) = false
exactly (suc n) p [] = false
exactly (suc n) p (c ∷ cs) = p c && exactly n p cs

-- `[class]{0,n}` as a full match
unfoldable pub at_most : ℕ → (ℕ → Bool) → List ℕ → Bool
at_most n p [] = true
at_most zero p (c ∷ cs) = false
at_most (suc n) p (c ∷ cs) = p c && at_most n p cs

-- a literal prefix, and a match of what follows it
unfoldable pub after_prefix : List ℕ → (List ℕ → Bool) → List ℕ → Bool
after_prefix [] rest cs = rest cs
after_prefix (p ∷ ps) rest [] = false
after_prefix (p ∷ ps) rest (c ∷ cs) = nat_eq p c && after_prefix ps rest cs

-- `[first][others]{0,n}` as a full match
unfoldable pub first_then : (ℕ → Bool) → ℕ → (ℕ → Bool) → List ℕ → Bool
first_then p n q [] = false
first_then p n q (c ∷ cs) = p c && at_most n q cs

-- `a + b`
unfoldable pub joined : String → String → String
joined String.[] t = t
joined (String.◌∷◌ c s) t = String.◌∷◌ c (joined s t)
