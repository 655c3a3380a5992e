-- ===== src/Skipper/Events/Sanitize.antt =====
-- What is kept of a consumer's response: `sanitize_response_untrusted`, `sanitize_headers_untrusted`
-- and the test for trusted targets.
use nfcompose.Shared.{
  String, ℕ, zero, suc, Bool, true, false, not, ◌&&◌, ◌||◌, List, [], ◌∷◌, ltb, leb, eqb, ◌==◌,
  if◌then◌else◌, contains,
}
use nfcompose.Shared.Dict.{Dict}
use Prim.Native.Char.{code}
use Prim.Native.String.{count, ◌++◌}

abbrev pub max_response_length : ℕ
max_response_length = 1024

abbrev pub response_headers_allow_list : List String
response_headers_allow_list =
    "Content-Disposition" ∷ "Content-Encoding" ∷ "Content-Language" ∷ "Content-Length"
    ∷ "Content-Location" ∷ "Content-Range" ∷ "Content-Type" ∷ "Retry-After" ∷ []

-- `x[0:n]`
unfoldable pub first_characters : ℕ → String → String
first_characters zero x = ""
first_characters (suc n) String.[] = ""
first_characters (suc n) (String.◌∷◌ c x) = String.◌∷◌ c (first_characters n x)

unfoldable pub sanitize_response_untrusted : String → String
sanitize_response_untrusted x =
    if ltb max_response_length (count x) then first_characters max_response_length x ++ "..." else x

-- `{k: v for k, v in x.items() if k in allowed}`
unfoldable pub items_in : List String → Dict String → Dict String
items_in allowed [] = []
items_in allowed ((k, v) ∷ x) =
    let rest = items_in allowed x in if contains allowed k then (k, v) ∷ rest else rest

unfoldable pub sanitize_headers_untrusted : Dict String → Dict String
sanitize_headers_untrusted x = items_in response_headers_allow_list x

-- The pattern `.*.local:[0-9]+`, matched against the whole text.
unfoldable pub is_digits : String → Bool
is_digits String.[] = true
is_digits (String.◌∷◌ c s) = leb 48 (code c) && leb (code c) 57 && is_digits s

-- The rest of the second text, if it begins with the first.
unfoldable pub is_port_after : String → String → Bool
is_port_after String.[] String.[] = false
is_port_after String.[] (String.◌∷◌ d s) = is_digits (String.◌∷◌ d s)
is_port_after (String.◌∷◌ c p) String.[] = false
is_port_after (String.◌∷◌ c p) (String.◌∷◌ d s) =
    String.◌∷◌ c "" == String.◌∷◌ d "" && is_port_after p s

unfoldable pub is_trusted_consumer_target : String → Bool
is_trusted_consumer_target String.[] = false
is_trusted_consumer_target (String.◌∷◌ c s) =
    let later = is_trusted_consumer_target s in
    not (eqb (code c) 10) && (is_port_after "local:" s || later)
