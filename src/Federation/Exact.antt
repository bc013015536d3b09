-- ===== src/Federation/Exact.antt =====
-- What makes a resolution exact: the loop of _resolve in src/codekg/federation.py.
use my_kg_codebase.Prelude.{
  ◌≡◌, ◌≢◌, refl, sym, subst, Bool, true, false, ◌||◌, inl, inr, List, [], ◌∷◌, arith, Bool-cases,
  List-cases,
}
use my_kg_codebase.Federation.Facts.{Fact, is_truthy, signature_known}
use my_kg_codebase.Federation.Session.{Clock, Session, Action, query}
use my_kg_codebase.Federation.Sound.{Yields}
use my_kg_codebase.Federation.Resolve.{
  exact, Candidates, Resolution, is_unverified, is_conditional, is_single, classify, settle,
  settle_or, with_condition,
}

-- An exact resolution has one candidate, whose signature takes the call, and nothing speaks against
-- it.
abbrev pub IsExact : Fact → Resolution → Type 0
IsExact evidence r =
    r.status ≡ exact
    → (candidate : Fact) × (r.candidates ≡ candidate ∷ [])
      × (signature_known evidence candidate ≡ true)
      × (evidence.dynamic ≡ false)
      × (is_truthy evidence.condition ≡ false)
      × (is_truthy candidate.condition ≡ false)
      × (is_unverified evidence ≡ false)
      × (r.truncated ≡ false)

classify-exact :
    (evidence : Fact) (found : Candidates)
    → classify evidence found ≡ exact
    → (found.truncated ≡ false)
      × (is_unverified evidence ≡ false)
      × (is_conditional evidence found.items ≡ false)
      × (is_single evidence found.items ≡ true)
unfolding classify
classify-exact evidence found h = elim (Bool-cases found.truncated) [
  | inl a ↦ absurd (ground (arith, h, a))
  | inr a ↦ elim (Bool-cases (is_unverified evidence)) [
    | inl b ↦ absurd (ground (arith, h, a, b))
    | inr b ↦ elim (Bool-cases (is_conditional evidence found.items)) [
      | inl c ↦ absurd (ground (arith, h, a, b, c))
      | inr c ↦ elim (Bool-cases (is_single evidence found.items)) [
        | inl d ↦ (a, b, c, d)
        | inr d ↦ absurd (ground (arith, h, a, b, c, d))
      ]
    ]
  ]
]

is_single-shape :
    (evidence : Fact) (items : List Fact)
    → is_single evidence items ≡ true
    → (candidate : Fact) × (items ≡ candidate ∷ []) × (signature_known evidence candidate ≡ true)
unfolding is_single
is_single-shape evidence [] h = absurd (ground (arith, h))
is_single-shape evidence (candidate ∷ []) h = (candidate, refl, h)
is_single-shape evidence (candidate ∷ next ∷ items) h = absurd (ground (arith, h))

pub settle-IsExact :
    (evidence : Fact) (of_application : Bool) (found : Candidates)
    → evidence.dynamic ≡ false
    → IsExact evidence (with_condition evidence (settle evidence of_application found))
unfolding settle with_condition
settle-IsExact evidence of_application found still h =
    let (whole, verified, plain, single) = classify-exact evidence found h in
    let (candidate, same, known) = is_single-shape evidence found.items single in
    let plain' : is_conditional evidence (candidate ∷ []) ≡ false =
      subst (λ items. is_conditional evidence items ≡ false) same plain in
    (candidate, same, known, still, ground (arith, plain'), ground (arith, plain'), verified, whole)

pub query-answer :
    {A : Type 0} (clock : Clock) (answer : A) (s : Session)
    → Yields clock (λ a t. a ≡ answer) (query clock answer s)
unfolding query
query-answer clock answer s =
    elim (Bool-cases (clock.expired s.readings || clock.interrupted s.readings)) [
      | inl e ↦ rw e (s.readings, e)
      | inr e ↦ rw e refl
    ]

pub settle_or-Yields :
    (clock : Clock) (P : Resolution → Session → Type 0) (expected : Candidates) (evidence : Fact)
    (of_application : Bool) (further : Action Resolution) (found : Candidates) (t : Session)
    → found ≡ expected
    → (expected.items ≢ [] → P (settle evidence of_application expected) t)
    → (expected.items ≡ [] → (u : Session) → Yields clock P (further u))
    → Yields clock P (settle_or evidence of_application further found t)
unfolding settle_or
settle_or-Yields clock P expected evidence of_application further found t same settled rest =
    subst (λ c. Yields clock P (settle_or evidence of_application further c t)) (sym same)
      (elim (List-cases expected.items) [
        | inl e ↦ rw (settle_or, e) (rest e t)
        | inr (x, xs, e) ↦ rw (settle_or, e) (settled (λ h. absurd (ground (arith, h, e))))
      ])
