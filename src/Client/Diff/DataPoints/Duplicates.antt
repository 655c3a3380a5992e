-- ===== src/Client/Diff/DataPoints/Duplicates.antt =====
-- The length test finds exactly the lists in which an external_id stands twice.
use nfcompose.Shared.{
  String, ◌+◌, ◌≤◌, ◌≡◌, ◌↔◌, refl, Bool, true, false, not, List, [], ◌∷◌, arith, length, contains,
  Distinct, if◌then◌else◌, eq_iff, Bool-cases, inl, inr, ◌&&◌,
}
use nfcompose.Client.Models.{DataPoint}
use nfcompose.Client.Diff.DataPoints.{add_ids, has_duplicates}

abbrev pub ids : List DataPoint → List String
ids [] = []
ids (x ∷ xs) = x.external_id ∷ ids xs

-- No text of `xs` is in `seen` or stands twice in `xs`.
fresh_after : List String → List String → Bool
fresh_after seen [] = true
fresh_after seen (x ∷ xs) =
    not (contains seen x) && fresh_after (if contains seen x then seen else x ∷ seen) xs

length-add_ids-le :
    (seen : List String) (xs : List DataPoint) → length (add_ids seen xs) ≤ length seen + length xs
unfolding add_ids
length-add_ids-le seen [] = omega arith
length-add_ids-le seen (x ∷ xs) =
    ground (arith, length-add_ids-le seen xs, length-add_ids-le (x.external_id ∷ seen) xs)

length-add_ids :
    (seen : List String) (xs : List DataPoint)
    → (length (add_ids seen xs) ≡ length seen + length xs) ↔ (fresh_after seen (ids xs) ≡ true)
unfolding add_ids fresh_after
length-add_ids seen [] = (λ h. refl, λ h. omega arith)
length-add_ids seen (x ∷ xs) = elim (Bool-cases (contains seen x.external_id)) [
  | inl old ↦ (λ h. absurd (ground (arith, length-add_ids-le seen xs)), λ h. ground arith)
  | inr fresh ↦ (
    λ h. ground (arith, length-add_ids (x.external_id ∷ seen) xs),
    λ h. ground (arith, length-add_ids (x.external_id ∷ seen) xs),
  )
]

fresh_after-Distinct :
    (seen xs : List String)
    → fresh_after seen xs ≡ true
    → Distinct xs × ((k : String) → (contains xs k && contains seen k) ≡ false)
unfolding fresh_after
fresh_after-Distinct seen [] h = (tt, λ k. refl)
fresh_after-Distinct seen (x ∷ xs) h = elim (Bool-cases (contains seen x)) [
  | inl old ↦ absurd (ground (arith, old))
  | inr fresh ↦
      let (u, apart) = fresh_after-Distinct (x ∷ seen) xs (ground (arith, fresh)) in
      ((ground (arith, apart x, eq_iff x x), u), λ k. ground (arith, apart k, fresh, eq_iff x k))
]

Distinct→fresh_after :
    (seen xs : List String)
    → Distinct xs
    → ((k : String) → (contains xs k && contains seen k) ≡ false)
    → fresh_after seen xs ≡ true
unfolding fresh_after
Distinct→fresh_after seen [] u apart = refl
Distinct→fresh_after seen (x ∷ xs) (new, u) apart = ground (
  arith,
  apart x,
  eq_iff x x,
  Distinct→fresh_after (x ∷ seen) xs u (λ k. ground (arith, apart k, new, eq_iff x k)),
)

pub has_duplicates_iff : (xs : List DataPoint) → (has_duplicates xs ≡ false) ↔ Distinct (ids xs)
unfolding has_duplicates
has_duplicates_iff xs = (
  λ h. (fresh_after-Distinct [] (ids xs) ((length-add_ids [] xs).0 (ground arith))).0,
  λ u.
      ground
        (arith, (length-add_ids [] xs).1 (Distinct→fresh_after [] (ids xs) u (λ k. ground arith))),
)
