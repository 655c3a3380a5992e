-- ===== src/Skipper/Pagination.antt =====
-- The pages of skipper/skipper/pagination.py: what `paginate_queryset` makes of the elements that it
-- has fetched, at most two more than fit on a page.
pub mod Slices
pub mod Reference
pub mod Walk
use nfcompose.Shared.{
  String, ℕ, zero, suc, ◌+◌, ◌-◌, Bool, true, false, ◌&&◌, Option, none, some, List, [], ◌∷◌,
  length, ltb, eqb, if◌then◌else◌, ◌==◌,
}

module _ {ℓ} {A : Type ℓ} where
  -- `xs[0:n]`, `xs[n:]`, `xs[:-n]` and `xs[i]`.
  unfoldable pub take : ℕ → List A → List A
  take zero xs = []
  take (suc n) [] = []
  take (suc n) (x ∷ xs) = x ∷ take n xs

  unfoldable pub drop : ℕ → List A → List A
  drop zero xs = xs
  drop (suc n) [] = []
  drop (suc n) (x ∷ xs) = drop n xs

  unfoldable pub drop_last : ℕ → List A → List A
  drop_last n xs = take (length xs - n) xs

  unfoldable pub get_elem? : List A → ℕ → Option A
  get_elem? [] i = none
  get_elem? (x ∷ xs) zero = some x
  get_elem? (x ∷ xs) (suc i) = get_elem? xs i

pub record Page {ℓ} (A : Type ℓ) : Type ℓ where
  pub elements : List A
  pub next_last_id_object : Option A

module _ {ℓ} {A : Type ℓ} (encode_last_id : A → String) where
  -- `first_id == raw_last_id_query`, with a query.
  unfoldable pub is_last_id : Option String → A → Bool
  is_last_id none x = false
  is_last_id (some raw) x = encode_last_id x == raw

  -- `_additional_minus`
  unfoldable pub additional_minus : ℕ → List A → ℕ
  additional_minus page_size qs = if eqb (length qs) (page_size + 2) then 1 else 0

  -- The page when the element of the query's id is the first that was fetched.
  unfoldable pub page_after : ℕ → List A → Page A
  page_after page_size qs = record {
    elements = drop_last (additional_minus page_size qs) (drop 1 qs);
    next_last_id_object =
        if ltb (page_size + 1) (length qs)
        then get_elem? qs (length qs - 1 - additional_minus page_size qs)
        else none;
  }

  -- The page when it is not.
  unfoldable pub page_from : ℕ → List A → Page A
  page_from page_size qs = record {
    elements =
        if ltb page_size (length qs) then drop_last (1 + additional_minus page_size qs) qs else qs;
    next_last_id_object =
        if ltb page_size (length qs)
        then get_elem? qs (length qs - 2 - additional_minus page_size qs)
        else none;
  }

  unfoldable pub page_of : ℕ → Option String → List A → Page A
  page_of page_size raw_last_id_query [] = record { elements = []; next_last_id_object = none }
  page_of page_size raw_last_id_query (x ∷ xs) =
      if is_last_id raw_last_id_query x
      then page_after page_size (x ∷ xs)
      else page_from page_size (x ∷ xs)

  unfoldable pub paginate : ℕ → Option String → List A → Page A
  paginate page_size raw_last_id_query queryset =
      page_of page_size raw_last_id_query (take (page_size + 2) queryset)
