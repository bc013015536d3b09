-- ===== src/Prelude/Decimal.antt =====
-- Python's str of a natural number, and that a text which begins with one tells it.
use Prim.Native.Nat.{ℕ, zero, suc, ◌+◌, ◌-◌, ◌*◌, ◌/◌, ◌%◌, ◌<◌}
use mathlib.Core.Path.{◌≡◌, refl, sym, ap, ◌∙◌}
use mathlib.Core.Logic.{◌≢◌, inl, inr}
use mathlib.Core.List.{[], ◌∷◌, ◌++◌}
use native.Mathlib.Omega.{arith}
use my_kg_codebase.Prelude.Tests.{ltb, if◌then◌else◌, Bool-cases}
use my_kg_codebase.Prelude.Lists.{All}
use my_kg_codebase.Prelude.Text.{Text}

-- The digits of a number that has at most so many.
digits_within : ℕ → ℕ → Text
digits_within zero n = []
digits_within (suc places) n =
    let front = digits_within places (n / 10) in
    if ltb n 10 then (b'0' + n) ∷ [] else front ++ (b'0' + n % 10) ∷ []

-- str(n): a number has at most one place more than its value.
unfoldable pub digits : ℕ → Text
unfolding digits_within
digits n = digits_within (suc n) n

-- The number that a text of digits stands for, behind what was read before.
value_from : ℕ → Text → ℕ
value_from n [] = n
value_from n (c ∷ s) = value_from (n * 10 + (c - b'0')) s

value_from-append :
    (n c : ℕ) (s : Text) → value_from n (s ++ c ∷ []) ≡ value_from n s * 10 + (c - b'0')
unfolding value_from
value_from-append n c [] = refl
value_from-append n c (d ∷ s) = value_from-append (n * 10 + (d - b'0')) c s

value_from-digits_within : (places n : ℕ) → n < places → value_from 0 (digits_within places n) ≡ n
unfolding digits_within value_from
value_from-digits_within zero n h = absurd (omega arith)
value_from-digits_within (suc places) n h = elim (Bool-cases (ltb n 10)) [
  | inl e ↦ rw e (omega arith)
  | inr e ↦
      let small : n / 10 < places = ground (arith, e, h) in
      rw
        (
          e,
          value_from-append 0 (b'0' + n % 10) (digits_within places (n / 10)),
          value_from-digits_within places (n / 10) small,
        )
        (omega arith)
]

digits_inj : (m n : ℕ) → digits m ≡ digits n → m ≡ n
unfolding digits
digits_inj m n h =
    sym (value_from-digits_within (suc m) m (omega arith))
    ∙ ap (value_from 0) h
    ∙ value_from-digits_within (suc n) n (omega arith)

-- A character that is not the colon.
abbrev NotColon : ℕ → Type 0
NotColon c = c ≢ b':'

All-snoc : (s : Text) (c : ℕ) → All NotColon s → NotColon c → All NotColon (s ++ c ∷ [])
All-snoc [] c h k = (k, tt)
All-snoc (d ∷ s) c h k = (h.0, All-snoc s c h.1 k)

digits_within-colon : (places n : ℕ) → All NotColon (digits_within places n)
unfolding digits_within
digits_within-colon zero n = tt
digits_within-colon (suc places) n = elim (Bool-cases (ltb n 10)) [
  | inl e ↦ rw e ((λ h. ground (arith, e, h)), tt)
  | inr e ↦ rw e (
      All-snoc (digits_within places (n / 10)) (b'0' + n % 10) (digits_within-colon places (n / 10))
        (λ h. omega arith))
]

-- A text without colons ends where the first colon stands.
colon_split :
    (s t u v : Text)
    → All NotColon s
    → All NotColon t
    → s ++ (b':' ∷ u) ≡ t ++ (b':' ∷ v)
    → (s ≡ t) × (u ≡ v)
colon_split [] [] u v a b h = (refl, cc h)
colon_split [] (d ∷ t) u v a b h = absurd (b.0 (cc h))
colon_split (c ∷ s) [] u v a b h = absurd (a.0 (cc h))
colon_split (c ∷ s) (d ∷ t) u v a b h =
    let (same, rest) = colon_split s t u v a.1 b.1 (cc h) in (cc (h, same), rest)

-- A number before a colon, and what follows the colon, can be told from the text.
pub digits_colon_inj :
    (m n : ℕ) (u v : Text) → digits m ++ (b':' ∷ u) ≡ digits n ++ (b':' ∷ v) → (m ≡ n) × (u ≡ v)
unfolding digits
digits_colon_inj m n u v h =
    let (same, rest) =
      colon_split (digits m) (digits n) u v (digits_within-colon (suc m) m)
        (digits_within-colon (suc n) n) h in
    (digits_inj m n same, rest)
