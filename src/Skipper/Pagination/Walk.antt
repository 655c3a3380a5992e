-- ===== src/Skipper/Pagination/Walk.antt =====
-- Following the links from page to page.
use nfcompose.Shared.{
  String, ℕ, zero, suc, ◌≤◌, ◌<◌, ◌≡◌, refl, sym, ap, ◌∙◌, Option, none, some, List, [], ◌∷◌, ◌++◌,
  length, arith, if◌then◌else◌, inl, inr, Bool-cases, eq_refl, ltb, leb,
}
use nfcompose.Shared.Result.{Result, ok, err, ◌>>=◌}
use mathlib.Core.Path.{subst}
use mathlib.Core.List.{append_assoc, append-nil}
use nfcompose.Skipper.Pagination.{take, drop, get_elem?, is_last_id, paginate}
use nfcompose.Skipper.Pagination.Slices.{length-drop, take_all}
use nfcompose.Skipper.Pagination.Reference.{one_less, unseen, first_page, paginate-first_page}

split_at {ℓ} :
    {A : Type ℓ} (m : ℕ) (xs : List A)
    → m < length xs
    → (z : A) × (get_elem? xs m ≡ some z)
      × (xs ≡ take m xs ++ (z ∷ drop (suc m) xs))
      × (take (suc m) xs ≡ take m xs ++ (z ∷ []))
unfolding take drop get_elem?
split_at m [] h = ground (arith, h)
split_at zero (x ∷ xs) h = (x, refl, refl, refl)
split_at (suc m) (x ∷ xs) h =
    let rest = split_at m xs (ground (arith, h)) in
    (rest.0, rest.1, ap (λ ys. x ∷ ys) rest.2, ap (λ ys. x ∷ ys) rest.3)

-- The elements of an id, and the ids that are after another one, by their place in the order of the
-- database. `decode_last_id` is the decoding of the query parameter and its reading as an id, which
-- raises for a text that is none.
module _ {A : Type 0} (id : A → ℕ) (encode_last_id : A → String)
    (decode_last_id : String → Result ℕ) where
  -- `queryset.filter(id__gte=last_id_query)`
  unfoldable pub from_id : ℕ → List A → List A
  from_id last [] = []
  from_id last (x ∷ xs) = let rest = from_id last xs in if leb last (id x) then x ∷ rest else rest

  unfoldable pub fetch : Option String → List A → Result (List A)
  fetch none queryset = ok queryset
  fetch (some raw) queryset = elim (decode_last_id raw) [
    | err e ↦ err e
    | ok last ↦ ok (from_id last queryset)
  ]

  -- The elements of the pages, from one link to the next, for at most so many requests.
  unfoldable pub pages : ℕ → ℕ → Option String → List A → Result (List A)
  pages zero page_size raw queryset = ok []
  pages (suc requests) page_size raw queryset = do
    fetched ← fetch raw queryset
    rest ← (elim (paginate encode_last_id page_size raw fetched).next_last_id_object [
      | none ↦ ok []
      | some x ↦ pages requests page_size (some (encode_last_id x)) queryset
    ])
    ok ((paginate encode_last_id page_size raw fetched).elements ++ rest)

  abbrev pub AllAfter : ℕ → List A → Type 0
  AllAfter last [] = Unit
  AllAfter last (x ∷ xs) = (last < id x) × AllAfter last xs

  -- `order_by('id')`, where no two elements have the same id.
  abbrev pub IsAscending : List A → Type 0
  IsAscending [] = Unit
  IsAscending (x ∷ xs) = AllAfter (id x) xs × IsAscending xs

  from_id-AllAfter : (last : ℕ) (xs : List A) → AllAfter last xs → from_id last xs ≡ xs
  unfolding from_id
  from_id-AllAfter last [] h = refl
  from_id-AllAfter last (x ∷ xs) (here, h) = ground (arith, here, from_id-AllAfter last xs h)

  after_middle :
      (last : ℕ) (xs : List A) (x : A) (ys : List A) → AllAfter last (xs ++ (x ∷ ys)) → last < id x
  after_middle last [] x ys (here, h) = here
  after_middle last (a ∷ xs) x ys (here, h) = after_middle last xs x ys h

  from_id_lem :
      (xs : List A) (x : A) (ys : List A)
      → IsAscending (xs ++ (x ∷ ys))
      → from_id (id x) (xs ++ (x ∷ ys)) ≡ x ∷ ys
  unfolding from_id
  from_id_lem [] x ys (after, u) = ground (arith, from_id-AllAfter (id x) ys after)
  from_id_lem (a ∷ xs) x ys (after, u) =
      ground (arith, after_middle (id a) xs x ys after, from_id_lem xs x ys u)

  module _ (decoded : (x : A) → decode_last_id (encode_last_id x) ≡ ok (id x)) where
    fetch_next :
        (queryset xs : List A) (x : A) (ys : List A)
        → IsAscending queryset
        → queryset ≡ xs ++ (x ∷ ys)
        → fetch (some (encode_last_id x)) queryset ≡ ok (x ∷ ys)
    unfolding fetch
    fetch_next queryset xs x ys u q =
        rw (decoded x, fetch)
          (ap (λ rest. ok rest)
            (ap (from_id (id x)) q ∙ from_id_lem xs x ys (subst IsAscending q u)))

    unseen_next :
        (x : A) (ys : List A) → unseen encode_last_id (some (encode_last_id x)) (x ∷ ys) ≡ ys
    unfolding unseen is_last_id
    unseen_next x ys = rw (eq_refl (encode_last_id x)) refl

    pages_left :
        (requests m : ℕ) (raw : Option String) (queryset fetched before left : List A)
        → IsAscending queryset
        → queryset ≡ before ++ left
        → fetch raw queryset ≡ ok fetched
        → unseen encode_last_id raw fetched ≡ left
        → length left ≤ requests
        → pages requests (suc m) raw queryset ≡ ok left
    unfolding pages first_page
    pages_left zero m raw queryset fetched before [] u q f e h = refl
    pages_left zero m raw queryset fetched before (x ∷ left) u q f e h = ground (arith, h)
    pages_left (suc requests) m raw queryset fetched before left u q f e h =
        let page : paginate encode_last_id (suc m) raw fetched
            ≡ first_page encode_last_id (suc m) left =
          paginate-first_page encode_last_id m raw fetched
          ∙ ap (first_page encode_last_id (suc m)) e in
        elim (Bool-cases (ltb (suc m) (length left))) [
          | inl more ↦
              let (z, at, split, taken) = split_at m left (ground (arith, more)) in
              let whole : left ≡ take (suc m) left ++ drop (suc m) left =
                split
                ∙ sym (append_assoc (take m left) (z ∷ []) (drop (suc m) left))
                ∙ ap (λ ys. ys ++ drop (suc m) left) (sym taken) in
              let rest =
                pages_left requests m (some (encode_last_id z)) queryset (z ∷ drop (suc m) left)
                  (before ++ take (suc m) left) (drop (suc m) left) u
                  (q ∙ ap (λ ys. before ++ ys) whole ∙ sym (append_assoc before _ _))
                  (fetch_next queryset (before ++ take m left) z (drop (suc m) left) u
                    (q ∙ ap (λ ys. before ++ ys) split ∙ sym (append_assoc before _ _)))
                  (unseen_next z (drop (suc m) left))
                  (ground (arith, h, length-drop (suc m) left)) in
              rw (f, page, first_page, more, one_less encode_last_id m, at, rest)
                (ap (λ ys. ok ys) (sym whole))
          | inr fits ↦
              rw (f, page, first_page, fits, take_all (suc m) left (ground (arith, fits)))
                (ap (λ ys. ok ys) (append-nil left))
        ]

    all_unseen : (queryset : List A) → unseen encode_last_id none queryset ≡ queryset
    unfolding unseen is_last_id
    all_unseen [] = refl
    all_unseen (x ∷ xs) = refl

    -- Of a queryset that is ordered by ids which all differ, where the id that an element is encoded
    -- to is decoded to its id: following the links to the next page from the first one on, with a
    -- page size of at least one and as many requests as there are elements, raises nothing and gives
    -- every element of the queryset once, in its order.
    pub pages_all :
        (requests m : ℕ) (queryset : List A)
        → IsAscending queryset
        → length queryset ≤ requests
        → pages requests (suc m) none queryset ≡ ok queryset
    unfolding fetch
    pages_all requests m queryset u h =
        pages_left requests m none queryset queryset [] queryset u refl refl (all_unseen queryset) h
