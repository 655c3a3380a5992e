-- ===== src/Client/Tests/DomainAliases.antt =====
-- Two aliases and their inverse.
use nfcompose.Shared.{String, ◌≡◌, refl, ◌↔◌, some, [], ◌∷◌}
use nfcompose.Shared.Dict.{Dict, lookup, keys}
use nfcompose.Client.DomainAliases.{invert_dict, values, invert_dict_inverse}

abbrev aliases : Dict String
aliases = ("compose.test.local", "compose.test") ∷ ("skipper.test.local", "skipper.test") ∷ []

invert_dict_inverse_example :
    (e : Dict String) × (invert_dict aliases ≡ some e)
    × ((k v : String) → (lookup v e ≡ some k) ↔ (lookup k aliases ≡ some v))
unfolding keys values
invert_dict_inverse_example = invert_dict_inverse aliases (refl, (refl, tt)) (refl, (refl, tt))
