-- ===== src/Prelude/Text.antt =====
-- Python's `str` as the list of its code points, and what the program asks of it.
use Prim.Native.Nat.{ℕ}
use Prim.Native.Char.{code}
use Prim.Native.String.{String}
use mathlib.Core.Path.{◌≡◌, refl}
use mathlib.Core.Logic.{◌↔◌}
use mathlib.Core.Bool.{Bool, true, false, ◌&&◌, ◌||◌}
use mathlib.Core.List.{List, [], ◌∷◌}
use native.Mathlib.Omega.{arith}
use my_kg_codebase.Prelude.Tests.{◌==◌, ltb, leb, if◌then◌else◌}
use my_kg_codebase.Prelude.Lists.{is_empty}

abbrev pub Text : Type 0
Text = List ℕ

-- The text of a literal.
abbrev pub codes : String → Text
codes String.[] = []
codes (String.◌∷◌ c s) = code c ∷ codes s

-- a == b
unfoldable pub text_eq : Text → Text → Bool
text_eq [] [] = true
text_eq (a ∷ s) (b ∷ t) = a == b && text_eq s t
text_eq _ _ = false

pub text_eq_sound : (s t : Text) → text_eq s t ≡ true → s ≡ t
unfolding text_eq
text_eq_sound [] [] h = refl
text_eq_sound (a ∷ s) (b ∷ t) h = ground (arith, text_eq_sound s t)
text_eq_sound [] (b ∷ t) h = ground arith
text_eq_sound (a ∷ s) [] h = ground arith

pub text_eq_refl : (s : Text) → text_eq s s ≡ true
unfolding text_eq
text_eq_refl [] = refl
text_eq_refl (a ∷ s) = ground (arith, text_eq_refl s)

pub text_eq_complete : (s t : Text) → s ≡ t → text_eq s t ≡ true
text_eq_complete s t e = rw e (text_eq_refl t)

pub text_eq_iff : (s t : Text) → (text_eq s t ≡ true) ↔ (s ≡ t)
text_eq_iff s t = (text_eq_sound s t, text_eq_complete s t)

-- x in xs, for a sequence of texts
unfoldable pub contains : Text → List Text → Bool
contains x [] = false
contains x (y ∷ ys) = text_eq x y || contains x ys

pub contains-later :
    (x y : Text) (ys : List Text)
    → text_eq x y ≡ false
    → contains x (y ∷ ys) ≡ true
    → contains x ys ≡ true
unfolding contains
contains-later x y ys h c = ground arith

-- a < b, by code points
unfoldable pub text_lt : Text → Text → Bool
text_lt [] [] = false
text_lt [] (b ∷ t) = true
text_lt (a ∷ s) [] = false
text_lt (a ∷ s) (b ∷ t) = ltb a b || (a == b && text_lt s t)

-- s.startswith(prefix)
unfoldable pub starts_with : Text → Text → Bool
starts_with s [] = true
starts_with [] (p ∷ ps) = false
starts_with (c ∷ s) (p ∷ ps) = c == p && starts_with s ps

-- The text behind a prefix of this length.
abbrev pub drop_like : Text → Text → Text
drop_like [] s = s
drop_like (p ∷ ps) [] = []
drop_like (p ∷ ps) (c ∷ s) = drop_like ps s

-- sub in s
unfoldable pub has_text : Text → Text → Bool
unfolding starts_with
has_text sub [] = is_empty sub
has_text sub (c ∷ s) = starts_with (c ∷ s) sub || has_text sub s

-- s.rsplit(sep, maxsplit=1)[0]: what stands before the last occurrence, or the whole text.
unfoldable pub before_last : Text → Text → Text
unfolding starts_with has_text
before_last sep [] = []
before_last sep (c ∷ s) =
    let rest = before_last sep s in
    if has_text sep s then c ∷ rest else if starts_with (c ∷ s) sep then [] else c ∷ s

-- str.isspace() for one character
unfoldable pub is_space : ℕ → Bool
is_space c =
    (leb 9 c && leb c 13)
    || (leb 28 c && leb c 32)
    || c == 133
    || c == 160
    || c == 5760
    || (leb 8192 c && leb c 8202)
    || c == 8232
    || c == 8233
    || c == 8239
    || c == 8287
    || c == 12288

-- s.lstrip()
unfoldable pub lstrip : Text → Text
unfolding is_space
lstrip [] = []
lstrip (c ∷ s) = if is_space c then lstrip s else c ∷ s

-- s.rstrip()
unfoldable pub rstrip : Text → Text
unfolding is_space
rstrip [] = []
rstrip (c ∷ s) = elim (rstrip s) [ [] ↦ if is_space c then [] else c ∷ [] | d ∷ t ↦ c ∷ d ∷ t ]

-- s.strip()
unfoldable pub strip : Text → Text
unfolding lstrip rstrip
strip s = rstrip (lstrip s)
