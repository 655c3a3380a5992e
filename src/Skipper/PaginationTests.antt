-- ===== src/Skipper/PaginationTests.antt =====
-- Pages of a list of texts, and the theorem on them.
use nfcompose.Shared.Result.{Result, ok}
use Prim.Native.String.{count}
use nfcompose.Shared.{String, ℕ, ◌≡◌, refl, arith, none, some, List, [], ◌∷◌}
use nfcompose.Skipper.Pagination.{
  take, drop, drop_last, get_elem?, is_last_id, additional_minus, page_after, page_of, paginate,
}
use nfcompose.Skipper.Pagination.Walk.{pages, pages_all}
use nfcompose.Skipper.Pagination.Reference.{unseen, first_page, paginate-first_page}

abbrev identity : String → String
identity s = s

abbrev rows : List String
rows = "a" ∷ "b" ∷ "c" ∷ "d" ∷ []

-- The page of two that follows "b"; "d" starts the next one.
second_page :
    paginate identity 2 (some "b") ("b" ∷ "c" ∷ "d" ∷ "e" ∷ "f" ∷ [])
    ≡ record { elements = "c" ∷ "d" ∷ []; next_last_id_object = some "d" }
unfolding paginate page_of is_last_id page_after additional_minus drop_last drop take get_elem?
second_page = refl

paginate-first_page_example :
    paginate identity 2 (some "a") rows ≡ first_page identity 2 (unseen identity (some "a") rows)
paginate-first_page_example = paginate-first_page identity 1 (some "a") rows

-- Ids by the length of their text.
abbrev numbers : List String
numbers = "i" ∷ "ii" ∷ "iii" ∷ "iiii" ∷ []

abbrev read_number : String → Result ℕ
read_number text = ok (count text)

pages_all_example : pages count identity read_number 4 2 none numbers ≡ ok numbers
pages_all_example =
    pages_all count identity read_number (λ x. refl) 4 1 numbers
      (
        (omega arith, (omega arith, (omega arith, tt))),
        ((omega arith, (omega arith, tt)), ((omega arith, tt), (tt, tt))),
      )
      (omega arith)
