-- ===== src/Skipper/Pagination/Reference.antt =====
-- What a page is: the first elements after the last one seen, and where the next page starts.
use nfcompose.Shared.{
  String, ℕ, zero, suc, ◌+◌, ◌-◌, ◌≤◌, ◌<◌, ◌≡◌, refl, sym, ◌∙◌, true, false, Option, none, List,
  [], ◌∷◌, length, arith, ltb, eqb, if◌then◌else◌, inl, inr, Bool-cases,
}
use nfcompose.Skipper.Pagination.{
  take, drop, drop_last, get_elem?, Page, is_last_id, additional_minus, page_after, page_from,
  page_of, paginate,
}
use nfcompose.Skipper.Pagination.Slices.{length-take, take-take, take_all, get_elem?-take}

module _ {ℓ} {A : Type ℓ} (encode_last_id : A → String) where
  -- The elements that the page is made of: not the one that the query names, if it comes first.
  unfoldable pub unseen : Option String → List A → List A
  unseen raw [] = []
  unseen raw (x ∷ xs) = if is_last_id encode_last_id raw x then xs else x ∷ xs

  -- The first page_size elements. If there are more, the last of these is where the next page starts.
  unfoldable pub first_page : ℕ → List A → Page A
  first_page page_size xs = record {
    elements = take page_size xs;
    next_last_id_object = if ltb page_size (length xs) then get_elem? xs (page_size - 1) else none;
  }

  cut_from :
      (n : ℕ) (qs : List A)
      → length qs ≤ n + 2
      → n < length qs
      → length qs - (1 + additional_minus encode_last_id n qs) ≡ n
  unfolding additional_minus
  cut_from n qs h more = ground (arith, h, more)

  index_from :
      (n : ℕ) (qs : List A)
      → length qs ≤ n + 2
      → n < length qs
      → length qs - 2 - additional_minus encode_last_id n qs ≡ n - 1
  unfolding additional_minus
  index_from n qs h more = ground (arith, h, more)

  page_from_lem :
      (n : ℕ) (qs : List A) → length qs ≤ n + 2 → page_from encode_last_id n qs ≡ first_page n qs
  unfolding page_from first_page drop_last
  page_from_lem n qs h = elim (Bool-cases (ltb n (length qs))) [
    | inl more ↦
        rw (more, cut_from n qs h (ground (arith, more)), index_from n qs h (ground (arith, more)))
          refl
    | inr fits ↦ rw (fits, take_all n qs (ground (arith, fits))) refl
  ]

  cut_after :
      (n : ℕ) (x : A) (xs : List A)
      → length xs ≤ n + 1
      → drop_last (additional_minus encode_last_id n (x ∷ xs)) xs ≡ take n xs
  unfolding additional_minus drop_last
  cut_after n x xs h = elim (Bool-cases (eqb (length xs) (n + 1))) [
    | inl full ↦
        let cut : length xs - additional_minus encode_last_id n (x ∷ xs) ≡ n =
          ground (arith, full) in
        rw (cut) refl
    | inr fits ↦
        let cut : length xs - additional_minus encode_last_id n (x ∷ xs) ≡ length xs =
          ground (arith, fits) in
        rw (cut, take_all (length xs) xs (ground arith), take_all n xs (ground (arith, h, fits)))
          refl
  ]

  index_after :
      (m : ℕ) (x : A) (xs : List A)
      → length xs ≤ suc m + 1
      → suc m < length xs
      → length (x ∷ xs) - 1 - additional_minus encode_last_id (suc m) (x ∷ xs) ≡ suc m
  unfolding additional_minus
  index_after m x xs h more = ground (arith, h, more)

  pub one_less : (m : ℕ) → suc m - 1 ≡ m
  one_less m = omega arith

  fetched : (m : ℕ) (x : A) (xs : List A) → take (suc m + 2) (x ∷ xs) ≡ x ∷ take (suc m + 1) xs
  unfolding take
  fetched m x xs = let more : suc m + 2 ≡ suc (suc m + 1) = omega arith in rw (more) refl

  take-nil : (k : ℕ) → take {A = A} k [] ≡ []
  unfolding take
  take-nil zero = refl
  take-nil (suc k) = refl

  page_after_lem :
      (m : ℕ) (x : A) (xs : List A)
      → length xs ≤ suc m + 1
      → page_after encode_last_id (suc m) (x ∷ xs) ≡ first_page (suc m) xs
  unfolding page_after first_page drop get_elem?
  page_after_lem m x xs h = elim (Bool-cases (ltb (suc m) (length xs))) [
    | inl more ↦
        let over : ltb (suc m + 1) (length (x ∷ xs)) ≡ true = ground (arith, more) in
        rw
          (
            cut_after (suc m) x xs h,
            more,
            over,
            index_after m x xs h (ground (arith, more)),
            one_less m,
          )
          refl
    | inr fits ↦
        let under : ltb (suc m + 1) (length (x ∷ xs)) ≡ false = ground (arith, fits) in
        rw (cut_after (suc m) x xs h, fits, under) refl
  ]

  -- The first page of a list is that of its first elements, with one more.
  first_page-take :
      (m k : ℕ) (xs : List A) → suc m < k → first_page (suc m) (take k xs) ≡ first_page (suc m) xs
  unfolding first_page
  first_page-take m k xs h =
      let same : ltb (suc m) (length (take k xs)) ≡ ltb (suc m) (length xs) =
        ground (arith, h, length-take k xs) in
      rw
        (
          same,
          take-take (suc m) k xs (ground (arith, h)),
          one_less m,
          get_elem?-take k m xs (ground (arith, h)),
        )
        refl

  -- For a page size of at least one, the page that `paginate_queryset` returns and the object that
  -- its next link names are these: the first page_size elements of the queryset without the one that
  -- the query names, if that comes first; and the last of them, if there are more elements.
  pub paginate-first_page :
      (m : ℕ) (raw : Option String) (queryset : List A)
      → paginate encode_last_id (suc m) raw queryset ≡ first_page (suc m) (unseen raw queryset)
  unfolding paginate page_of unseen first_page
  paginate-first_page m raw [] =
      rw (paginate, take-nil (suc m + 2), take-nil (suc m)) (ground arith)
  paginate-first_page m raw (x ∷ xs) = elim (Bool-cases (is_last_id encode_last_id raw x)) [
    | inl seen ↦
        rw (paginate, fetched m x xs, page_of, seen)
          (page_after_lem m x (take (suc m + 1) xs) (ground (arith, length-take (suc m + 1) xs))
            ∙ first_page-take m (suc m + 1) xs (ground arith))
    | inr new ↦
        rw (paginate, fetched m x xs, page_of, new, sym (fetched m x xs))
          (page_from_lem (suc m) (take (suc m + 2) (x ∷ xs))
              (ground (arith, length-take (suc m + 2) (x ∷ xs)))
            ∙ first_page-take m (suc m + 2) (x ∷ xs) (ground arith))
  ]
