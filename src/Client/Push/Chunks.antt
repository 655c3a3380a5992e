-- ===== src/Client/Push/Chunks.antt =====
-- `chunks` of client/compose_client/library/service/pusher.py, and the requests that data points
-- without files are sent in.
use nfcompose.Shared.{
  String, ℕ, zero, suc, ◌≤◌, ◌≡◌, refl, ap, ◌∙◌, Bool, some, List, [], ◌∷◌, ◌++◌, length, arith,
  min,
}
use nfcompose.Shared.Result.{Result, ok, err, value_error}
use nfcompose.Shared.Value.{Value, bool, list, Items, nil, cons}
use nfcompose.Client.Rest.{post, ApiClient, Action, pure, lift, ◌>>=◌, send, url_of, for_each}
use nfcompose.Shared.Texts.{joined}
use nfcompose.Client.Push.{base_path}
use nfcompose.Skipper.Pagination.{take, drop}
use nfcompose.Skipper.Pagination.Slices.{length-take, length-drop}

module _ {A : Type 0} where
  -- The element that the loop takes and `itertools.islice(iterator, size - 1)`. A list has at most as
  -- many chunks as elements.
  unfoldable pub chunks_within : ℕ → ℕ → List A → List (List A)
  chunks_within turns more [] = []
  chunks_within zero more (first ∷ rest) = []
  chunks_within (suc turns) more (first ∷ rest) =
      (first ∷ take more rest) ∷ chunks_within turns more (drop more rest)

  -- A size of 0 makes islice raise for the first element.
  unfoldable pub chunks : List A → ℕ → Result (List (List A))
  chunks [] size = ok []
  chunks (first ∷ rest) zero = err value_error
  chunks (first ∷ rest) (suc more) = ok (chunks_within (length (first ∷ rest)) more (first ∷ rest))

  abbrev pub concat : List (List A) → List A
  concat [] = []
  concat (xs ∷ xss) = xs ++ concat xss

  -- Every chunk has an element, and all but the last have the given number of them, which the last
  -- does not exceed.
  abbrev pub AreFull : ℕ → List (List A) → Type 0
  AreFull size [] = Unit
  AreFull size (last ∷ []) = (1 ≤ length last) × (length last ≤ size)
  AreFull size (xs ∷ ys ∷ xss) = (length xs ≡ size) × AreFull size (ys ∷ xss)

  take-drop : (n : ℕ) (xs : List A) → take n xs ++ drop n xs ≡ xs
  unfolding take drop
  take-drop zero xs = refl
  take-drop (suc n) [] = refl
  take-drop (suc n) (x ∷ xs) = ap (λ rest. x ∷ rest) (take-drop n xs)

  append_assoc : (xs ys zs : List A) → (xs ++ ys) ++ zs ≡ xs ++ (ys ++ zs)
  append_assoc [] ys zs = refl
  append_assoc (x ∷ xs) ys zs = ap (λ rest. x ∷ rest) (append_assoc xs ys zs)

  concat-chunks :
      (turns more : ℕ) (xs : List A) → length xs ≤ turns → concat (chunks_within turns more xs) ≡ xs
  unfolding chunks_within
  concat-chunks turns more [] h = refl
  concat-chunks zero more (x ∷ xs) h = absurd (omega arith)
  concat-chunks (suc turns) more (x ∷ xs) h =
      ap (λ rest. x ∷ rest)
        (ap (λ rest. take more xs ++ rest)
            (concat-chunks turns more (drop more xs) (omega (arith, length-drop more xs)))
          ∙ take-drop more xs)

  nil_of_length : (xs : List A) → length xs ≡ 0 → xs ≡ []
  nil_of_length [] h = refl
  nil_of_length (x ∷ xs) h = absurd (omega (arith, h))

  full_cons :
      (more : ℕ) (first rest : List A) (xss : List (List A))
      → length first ≡ suc (min more (length rest))
      → ((length rest ≤ more) → xss ≡ [])
      → AreFull (suc more) xss
      → AreFull (suc more) (first ∷ xss)
  full_cons more first rest [] e none_left h = ground (arith, e)
  full_cons more first rest (xs ∷ xss) e none_left h = ground (arith, e, none_left, h)

  chunks-AreFull :
      (turns more : ℕ) (xs : List A)
      → length xs ≤ turns
      → AreFull (suc more) (chunks_within turns more xs)
  unfolding chunks_within
  chunks-AreFull turns more [] h = tt
  chunks-AreFull zero more (x ∷ xs) h = absurd (omega arith)
  chunks-AreFull (suc turns) more (x ∷ xs) h =
      full_cons more (x ∷ take more xs) xs (chunks_within turns more (drop more xs))
        (ap suc (length-take more xs))
        (λ short.
          ap (chunks_within turns more)
            (nil_of_length (drop more xs) (omega (arith, length-drop more xs))))
        (chunks-AreFull turns more (drop more xs) (omega (arith, length-drop more xs)))

  -- With a size of at least 1 the chunks are computed, hold the elements in their order, each of
  -- them once, and have that size, but for the last one, which has between 1 and so many.
  pub chunks-AreFull-concat :
      (xs : List A) (more : ℕ)
      → (xss : List (List A)) × (chunks xs (suc more) ≡ ok xss)
        × (concat xss ≡ xs)
        × AreFull (suc more) xss
  unfolding chunks
  chunks-AreFull-concat [] more = ([], refl, refl, tt)
  chunks-AreFull-concat (x ∷ xs) more = (
    _,
    refl,
    concat-chunks _ more (x ∷ xs) (omega arith),
    chunks-AreFull _ more (x ∷ xs) (omega arith),
  )

abbrev pub value_items : List Value → Items
value_items [] = nil
value_items (v ∷ vs) = cons v (value_items vs)

-- The loop of `DataPointPusher.push` over the chunks, where no fact holds files. `to_dict` has been
-- applied to the data points.
unfoldable pub push_batch : ApiClient → String → Bool → List Value → Action Unit
push_batch client data_series_external_id asynchronous chunk = do
  _ ←
      send client post
        (url_of client (joined (base_path ∷ data_series_external_id ∷ "/bulk/datapoint/" ∷ [])))
        (some (("batch", list (value_items chunk)) ∷ ("async", bool asynchronous) ∷ []))
  pure tt

unfoldable pub push_data_points : ApiClient → ℕ → String → Bool → List Value → Action Unit
push_data_points client batch_size data_series_external_id asynchronous points = do
  batches ← lift (chunks points batch_size)
  for_each batches (push_batch client data_series_external_id asynchronous)
