-- ===== src/Skipper/ValidateTests.antt =====
-- The theorems on all checks of a data point, at inputs that meet their hypotheses.
use nfcompose.Shared.{String, ◌≡◌, refl, ◌↔◌, true, false, none, some, is_some}
use nfcompose.Shared.Sets.{last_seen, last_seen-IsSetOrder}
use nfcompose.Shared.Dict.{Dict, lookup}
use nfcompose.Shared.Value.{ℤ, pos, negsuc, Value, str}
use nfcompose.Skipper.Structure.{uuid, values}
use nfcompose.Skipper.Validate.{fact_kinds, validate, facts_of}
use nfcompose.Skipper.Validate.Contract.{
  float_fact, string_fact, text_fact, timestamp_fact, json_fact, image_fact, file_fact,
  boolean_fact, passed, mapping, DataPointData,
}
use nfcompose.Skipper.Validate.ExternalIds.{IsAllowed}
use nfcompose.Skipper.Validate.Composed.{value_after, IsWellFormed, total-Fits}
use nfcompose.Skipper.Validate.Accepts.{accepted, value_then, IsFineAt}
use nfcompose.Skipper.Validate.Iff.{validate_iff}
use nfcompose.Skipper.Validate.Patch.{patched, validate_patch_iff}
use nfcompose.Skipper.Samples.{
  patch_request, patch, to_float, digest, attrs, data_point, accessor, request,
}

floats_total : (z : ℤ) → is_some (to_float z) ≡ true
floats_total (pos n) = refl
floats_total (negsuc n) = refl

request-IsWellFormed : IsWellFormed to_float request
unfolding facts_of values
request-IsWellFormed float_fact = (refl, (refl, tt))
request-IsWellFormed string_fact = (refl, tt)
request-IsWellFormed text_fact = tt
request-IsWellFormed timestamp_fact = tt
request-IsWellFormed json_fact = tt
request-IsWellFormed image_fact = tt
request-IsWellFormed file_fact = tt
request-IsWellFormed boolean_fact = tt

validate_iff_example :
    (attrs' : Dict Value) × ((k : String)
      → lookup k attrs'
        ≡ value_after to_float request fact_kinds k
            (value_then last_seen to_float digest request attrs k))
    × ((d : DataPointData)
        → (validate last_seen to_float digest request data_point ≡ passed d) ↔ (
            ((k : String) → IsFineAt last_seen to_float digest request attrs k)
            × ((s : String) × IsAllowed digest accessor
                  (uuid "weather")
                  (some (str "monday"))
                  false
                  none
                  s
                × (d
                    ≡ accepted last_seen to_float digest request
                        (record data_point { payload = some (mapping attrs') })
                        s))))
unfolding values
validate_iff_example =
    validate_iff last_seen to_float digest request last_seen-IsSetOrder request-IsWellFormed
      data_point attrs refl (refl, tt)
      (λ k. total-Fits to_float floats_total request fact_kinds k _) refl

patch_request-IsWellFormed : IsWellFormed to_float patch_request
patch_request-IsWellFormed kind = request-IsWellFormed kind

validate_patch_iff_example :
    (attrs' : Dict Value) × ((k : String)
      → lookup k attrs'
        ≡ value_after to_float patch_request fact_kinds k
            (value_then last_seen to_float digest patch_request attrs k))
    × ((d : DataPointData)
        → (validate last_seen to_float digest patch_request patch ≡ passed d) ↔ (
            ((k : String) → IsFineAt last_seen to_float digest patch_request attrs k)
            × (d
                ≡ patched last_seen to_float digest patch_request last_seen-IsSetOrder
                    patch_request-IsWellFormed patch attrs
                    (record patch { payload = some (mapping attrs') })
                    none
                    "weather-monday")))
unfolding values
validate_patch_iff_example =
    validate_patch_iff last_seen to_float digest patch_request last_seen-IsSetOrder
      patch_request-IsWellFormed patch attrs "weather-monday" refl refl refl refl (refl, tt)
      (λ k. total-Fits to_float floats_total patch_request fact_kinds k _)
