-- ===== src/Scope/Order.antt =====
-- Sorting drops no record and adds none.
use keel_verifier.Base.{
  suc, length, ap, ◌∙◌, ◌≡◌, ◌↔◌, ◌⊎◌, inl, inr, refl, List, [], ◌∷◌, ◌++◌, Bool-cases,
}
use keel_verifier.Trust.Select.Laws.{Among}
use keel_verifier.Scope.{Evidence, Segment, in_order, insert, sorted, ordered_scope_evidence}

Among-insert : (a e : Evidence) (xs : List Evidence) → Among a (insert e xs) ↔ Among a (e ∷ xs)
unfolding insert
Among-insert a e [] = ((λ h. h), (λ h. h))
Among-insert a e (x ∷ xs) = elim (Bool-cases (in_order e x)) [
  | inl i ↦ rw i ((λ h. h), (λ h. h))
  | inr i ↦ rw i (
    (λ h. elim h [
      | inl s ↦ inr (inl s)
      | inr m ↦ elim ((Among-insert a e xs).0 m) [ inl s ↦ inl s | inr n ↦ inr (inr n) ]
    ]),
    (λ h. elim h [
      | inl s ↦ inr ((Among-insert a e xs).1 (inl s))
      | inr m ↦ elim m [ inl s ↦ inl s | inr n ↦ inr ((Among-insert a e xs).1 (inr n)) ]
    ]),
  )
]

Among-sorted : (a : Evidence) (xs : List Evidence) → Among a (sorted xs) ↔ Among a xs
unfolding sorted
Among-sorted a [] = ((λ h. h), (λ h. h))
Among-sorted a (x ∷ xs) = (
  (λ h. elim ((Among-insert a x (sorted xs)).0 h) [
    | inl s ↦ inl s
    | inr m ↦ inr ((Among-sorted a xs).0 m)
  ]),
  (λ h.
      (Among-insert a x (sorted xs)).1
        (elim h [ inl s ↦ inl s | inr m ↦ inr ((Among-sorted a xs).1 m) ])),
)

pub Among-append :
    (a : Evidence) (xs ys : List Evidence) → Among a xs ⊎ Among a ys → Among a (xs ++ ys)
Among-append a [] ys (inl h) = absurd h
Among-append a [] ys (inr h) = h
Among-append a (x ∷ xs) ys (inl (inl s)) = inl s
Among-append a (x ∷ xs) ys (inl (inr h)) = inr (Among-append a xs ys (inl h))
Among-append a (x ∷ xs) ys (inr h) = inr (Among-append a xs ys (inr h))

-- Every record that a segment supplies stands in its order.
pub Among-ordered_scope_evidence :
    (a : Evidence) (segment : Segment)
    → Among a segment.disclosure_records ⊎ Among a segment.proof_bridge_records
    → Among a (ordered_scope_evidence segment)
unfolding ordered_scope_evidence
Among-ordered_scope_evidence a segment h = (Among-sorted a _).1 (Among-append a _ _ h)

length-insert : (e : Evidence) (xs : List Evidence) → length (insert e xs) ≡ suc (length xs)
unfolding insert
length-insert e [] = refl
length-insert e (x ∷ xs) = elim (Bool-cases (in_order e x)) [
  | inl i ↦ rw i refl
  | inr i ↦ rw i (ap suc (length-insert e xs))
]

pub length-sorted : (xs : List Evidence) → length (sorted xs) ≡ length xs
unfolding sorted
length-sorted [] = refl
length-sorted (x ∷ xs) = length-insert x (sorted xs) ∙ ap suc (length-sorted xs)
