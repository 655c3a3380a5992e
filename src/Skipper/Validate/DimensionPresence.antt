-- ===== src/Skipper/Validate/DimensionPresence.antt =====
-- Which dimensions a payload must have, and the errors about those that are missing.
use nfcompose.Shared.{
  String, ◌≡◌, refl, Bool, false, not, ◌&&◌, Option, none, some, List, [], ◌∷◌, map, arith,
  contains, Distinct, if◌then◌else◌, ◌==◌, eq_iff, select, contains-select, is_some,
}
use nfcompose.Shared.Sets.{IsSetOrder}
use nfcompose.Shared.Dict.{Dict, lookup, has}
use nfcompose.Shared.Value.{Value}
use nfcompose.Skipper.Structure.{SeriesId, id_eq, DataSeriesDimensionQueryInfo}
use nfcompose.Skipper.Validate.Contract.{Message, dimension_not_set, messages}
use nfcompose.Skipper.Validate.Dimensions.{required_dimension_ids, validate_dim_ids}
use nfcompose.Skipper.Validate.Messages.{messages-nil, messages-append_for_each}

abbrev pub dimension_id : DataSeriesDimensionQueryInfo → String
dimension_id d = d.dataseries_dimension.external_id

-- The dimension of an external id, if there is one: whether it is optional, and what it refers to.
unfoldable pub dimension_at : String → List DataSeriesDimensionQueryInfo → Option (Bool × SeriesId)
dimension_at k [] = none
dimension_at k (d ∷ ds) =
    if dimension_id d == k
    then some (d.dimension.optional, d.dimension.reference.id)
    else dimension_at k ds

-- A dimension is required unless it is optional or refers to its own data series.
abbrev pub is_required : SeriesId → Option (Bool × SeriesId) → Bool
is_required series none = false
is_required series (some d) = not (id_eq d.1 series) && not d.0

pub dimension_at_absent :
    (k : String) (ds : List DataSeriesDimensionQueryInfo)
    → contains (map dimension_id ds) k ≡ false
    → dimension_at k ds ≡ none
unfolding dimension_at
dimension_at_absent k [] h = refl
dimension_at_absent k (d ∷ ds) h = ground (arith, dimension_at_absent k ds)

contains-required_dimension_ids :
    (series : SeriesId) (k : String) (ds : List DataSeriesDimensionQueryInfo)
    → Distinct (map dimension_id ds)
    → contains (required_dimension_ids series ds) k ≡ is_required series (dimension_at k ds)
unfolding required_dimension_ids dimension_at
contains-required_dimension_ids series k [] u = refl
contains-required_dimension_ids series k (d ∷ ds) (fresh, u) = ground (
  arith,
  contains-required_dimension_ids series k ds u,
  dimension_at_absent k ds,
  eq_iff (dimension_id d) k,
)

-- The error about a key that is missing.
abbrev pub missing_errors :
    SeriesId → Bool → String → Option (Bool × SeriesId) → Option Value → List Message
missing_errors series partial k dimension v =
    if not partial && (is_required series dimension && not (is_some v))
    then dimension_not_set k ∷ []
    else []

pub messages-validate_dim_ids :
    (set_order : List String → List String) (O : IsSetOrder set_order) (series : SeriesId)
    (ds : List DataSeriesDimensionQueryInfo) (partial : Bool) (attrs : Dict Value) (k : String)
    → Distinct (map dimension_id ds)
    → messages k (validate_dim_ids set_order series ds partial attrs)
      ≡ missing_errors series partial k (dimension_at k ds) (lookup k attrs)
unfolding validate_dim_ids
messages-validate_dim_ids set_order O series ds partial attrs k u =
    let missing : List String =
      select (λ j. not (has attrs j)) (required_dimension_ids series ds) in
    ground (
      arith,
      messages-append_for_each dimension_not_set k [] (set_order missing) (O.distinct _),
      O.members missing k,
      contains-select (λ j. not (has attrs j)) (required_dimension_ids series ds) k,
      contains-required_dimension_ids series k ds u,
      messages-nil k,
    )
