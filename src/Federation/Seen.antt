-- ===== src/Federation/Seen.antt =====
-- What the loop over the rows keeps: _python_reachable of src/codekg/federation.py.
-- src/codekg/federation.py.
use my_kg_codebase.Prelude.{
  ◌≡◌, refl, sym, ap, subst, true, false, ◌||◌, ◌⊎◌, inl, inr, Option, none, some, List, [], ◌∷◌,
  ◌++◌, length, leb, arith, Bool-cases,
}
use my_kg_codebase.Prelude.Text.{
  Text, contains, contains-later, text_eq, text_eq_refl, text_eq_sound,
}
use my_kg_codebase.Prelude.Occurs.{Occurs, Occurs-left, Occurs-right}
use my_kg_codebase.Federation.Reach.{
  CallRow, CallGraph, Visit, Reached, called, Scan, counting, see, scan_rows,
}

abbrev pub keys_of : List Visit → List Text
keys_of [] = []
keys_of (visit ∷ visits) = visit.key ∷ keys_of visits

keys_of-append : (a b : List Visit) → keys_of (a ++ b) ≡ keys_of a ++ keys_of b
keys_of-append [] b = refl
keys_of-append (visit ∷ a) b = ap (λ keys. visit.key ∷ keys) (keys_of-append a b)

-- The callables to which exact calls lead from the start, along any rows.
pub data Leads {Owner : Type 0} (graph : CallGraph Owner) (start : Text) : Text → Type 0 where
  here : Leads graph start start
  call :
      {key : Text}
      → Leads graph start key
      → (row : CallRow) (child : Text) → Occurs row (graph.rows key)
      → row.key ≡ some child
      → Leads graph start child

-- The key was seen.
abbrev pub IsSeen : Text → List Text → Type 0
IsSeen key seen = contains key seen ≡ true

-- The key waits in the queue, or its visit is done.
abbrev pub IsPending : List Text → List Visit → Text → Type 0
IsPending done queue key = Occurs key (keys_of queue) ⊎ Occurs key done

contains-cons : (key other : Text) (seen : List Text) → IsSeen key seen → IsSeen key (other ∷ seen)
unfolding contains
contains-cons key other seen h = ground (arith, h)

pub contains_first : (key : Text) (seen : List Text) → IsSeen key (key ∷ seen)
unfolding contains
contains_first key seen = ground (arith, text_eq_refl key)

pub only_seen : (key start : Text) → IsSeen key (start ∷ []) → key ≡ start
unfolding contains
only_seen key start h = text_eq_sound key start (ground (arith, h))

-- The keys that are seen wait or are done; of those that are done, the owner is found and the
-- callees are seen.
pub record Closed {Owner : Type 0} (graph : CallGraph Owner) (start : Text) (done seen : List Text)
    (queue : List Visit) (owners : List (Reached Owner)) : Type 0 where
  pub started : IsSeen start seen
  pub pending : (key : Text) → IsSeen key seen → IsPending done queue key
  pub owned :
      (key : Text) (owner : Owner)
      → Occurs key done
      → graph.python_owner key ≡ some owner
      → (found : Reached Owner) × Occurs found owners × (found.owner ≡ owner)
  pub followed :
      (key : Text)
      → Occurs key done
      → (row : CallRow) → Occurs row (graph.rows key)
      → (child : Text) → row.key ≡ some child
      → IsSeen child seen

-- What the loop over the rows keeps, when it does not break: more keys are seen, each new one waits.
pub record Grows (scan later : Scan) : Type 0 where
  pub unbroken : later.truncated ≡ false → scan.truncated ≡ false
  pub kept : (key : Text) → IsSeen key scan.seen → IsSeen key later.seen
  pub waits :
      (key : Text) → IsSeen key later.seen → IsSeen key scan.seen ⊎ Occurs key (keys_of later.queue)
  pub stays : (key : Text) → Occurs key (keys_of scan.queue) → Occurs key (keys_of later.queue)

see-Grows :
    (visit : Visit) (row : CallRow) (key : Option Text) (scan : Scan)
    → Grows scan (see visit row key scan)
unfolding see
see-Grows visit row none scan = record {
  unbroken = λ h. h;
  kept = λ k h. h;
  waits = λ k h. inl h;
  stays = λ k o. o;
}
see-Grows visit row (some child) scan = elim (Bool-cases (contains child scan.seen)) [
  | inl known ↦
      rw known
        (record { unbroken = λ h. h; kept = λ k h. h; waits = λ k h. inl h; stays = λ k o. o })
  | inr fresh ↦
      let more = called visit child row ∷ [] in
      let split = keys_of-append scan.queue more in
      rw fresh (record {
        unbroken = λ h. h;
        kept = λ k h. contains-cons k child scan.seen h;
        waits = λ k h. elim (Bool-cases (text_eq k child)) [
          | inl e ↦ inr (
              subst (Occurs k) (sym split) (
                Occurs-right k (keys_of scan.queue) (keys_of more) (inl (text_eq_sound k child e))))
          | inr e ↦ inl (contains-later k child scan.seen e h)
        ];
        stays = λ k o.
            subst (Occurs k) (sym split) (Occurs-left k (keys_of scan.queue) (keys_of more) o);
      })
]

see-IsSeen :
    (visit : Visit) (row : CallRow) (child : Text) (scan : Scan)
    → IsSeen child (see visit row (some child) scan).seen
unfolding see
see-IsSeen visit row child scan = elim (Bool-cases (contains child scan.seen)) [
  | inl known ↦ rw known known
  | inr fresh ↦ rw fresh (contains_first child scan.seen)
]

Grows-trans : (a b c : Scan) → Grows a b → Grows b c → Grows a c
Grows-trans a b c g h = record {
  unbroken = λ e. g.unbroken (h.unbroken e);
  kept = λ k e. h.kept k (g.kept k e);
  waits = λ k e. elim (h.waits k e) [
    | inr o ↦ inr o
    | inl f ↦ elim (g.waits k f) [ inl x ↦ inl x | inr o ↦ inr (h.stays k o) ]
  ];
  stays = λ k o. h.stays k (g.stays k o);
}

-- Without a break, the callee of each row is seen.
pub scan_rows-Grows :
    (visit : Visit) (rows : List CallRow) (scan : Scan)
    → Grows scan (scan_rows visit rows scan)
      × ((scan_rows visit rows scan).truncated ≡ false
          → (row : CallRow) → Occurs row rows
          → (child : Text) → row.key ≡ some child
          → IsSeen child (scan_rows visit rows scan).seen)
unfolding scan_rows
scan_rows-Grows visit [] scan = (
  record { unbroken = λ h. h; kept = λ k h. h; waits = λ k h. inl h; stays = λ k o. o },
  λ e row o. absurd o,
)
scan_rows-Grows visit (row ∷ rows) scan =
    elim (Bool-cases (leb 1000 (length scan.seen) || leb 10000 scan.edges)) [
      | inl full ↦
          rw (scan_rows, full)
            (
              record {
                unbroken = λ h. absurd (ground (arith, h));
                kept = λ k h. h;
                waits = λ k h. inl h;
                stays = λ k o. o;
              },
              λ h. absurd (ground (arith, h)),
            )
      | inr room ↦
          let next = see visit row row.key (counting scan) in
          let (grows, sees) = scan_rows-Grows visit rows next in
          let seen_now = see-Grows visit row row.key (counting scan) in
          let first : Grows scan next = record {
            unbroken = seen_now.unbroken;
            kept = seen_now.kept;
            waits = seen_now.waits;
            stays = seen_now.stays;
          } in
          rw (scan_rows, room)
            (
              Grows-trans scan next (scan_rows visit rows next) first grows,
              λ e other o child named. elim o [
                | inr p ↦ sees e other p child named
                | inl same ↦
                    let named' : row.key ≡ some child =
                      subst (λ r. r.key ≡ some child) same named in
                    grows.kept child (
                      subst (λ k. IsSeen child (see visit row k (counting scan)).seen) (sym named')
                        (see-IsSeen visit row child (counting scan)))
              ],
            )
    ]
