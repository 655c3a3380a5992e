-- ===== src/Client/Tests/Structure.antt =====
-- A run of the push of a structure, and the theorem on it at an input that meets its hypotheses.
use nfcompose.Shared.{String, ◌≡◌, refl, sym, [], ◌∷◌, map}
use nfcompose.Shared.Result.{ok}
use nfcompose.Shared.Dict.{Dict, insert, lookup, getitem}
use nfcompose.Shared.Value.{str}
use nfcompose.Client.Operation.{create, delete, update, KeyedOperation, Payload}
use nfcompose.Client.Diff.Models.{DataSeriesStructureDiff}
use nfcompose.Client.Diff.Child.{operation}
use nfcompose.Client.Rest.{◌>>◌}
use nfcompose.Client.Push.{
  StructureType, dimensions, resolved, resolve_key, url_in, structure_operations,
  delete_structure_elements, create_update_structure_elements,
}
use nfcompose.Client.Push.Phases.{phases, logged}
use nfcompose.Client.Push.Structure.{
  Elem, structure_request, structure_phases, untagged, operations_at,
  push_structure-structure_phases,
}
use nfcompose.Client.Samples.{named}
use nfcompose.Client.Tests.Push.{client, answers}
use mathlib.Core.Path.{subst}
use mathlib.Core.List.{Memᴰ}

abbrev station : Payload
station = ("reference", str "stations") ∷ []

-- A fact is replaced, a fact is renamed, and a dimension that refers to the stations is new.
abbrev structure : DataSeriesStructureDiff
structure = record {
  float_facts =
      operation delete "temp" (named "Temperature") ∷ operation create "temp" (named "Heat") ∷ [];
  string_facts = [];
  text_facts = operation update "note" (named "Note") ∷ [];
  timestamp_facts = [];
  image_facts = [];
  file_facts = [];
  json_facts = [];
  boolean_facts = [];
  dimensions = operation create "station" station ∷ [];
}

abbrev urls : Dict String
urls = ("stations", "/stations/") ∷ []

abbrev payload_of : Elem → Payload
payload_of (dimensions, op) = ("reference", str "/stations/") ∷ []
payload_of (_, op) = op.payload

abbrev Resolves : Elem → Type 0
Resolves elem = resolved urls elem.0 elem.1.payload ≡ ok (payload_of elem)

listed :
    (elem a b c d : Elem)
    → Resolves a
    → Resolves b
    → Resolves c
    → Resolves d
    → Memᴰ elem (a ∷ b ∷ c ∷ d ∷ [])
    → Resolves elem
listed elem a b c d ra rb rc rd (Memᴰ.head e) = subst Resolves (sym e) ra
listed elem a b c d ra rb rc rd (Memᴰ.tail (Memᴰ.head e)) = subst Resolves (sym e) rb
listed elem a b c d ra rb rc rd (Memᴰ.tail (Memᴰ.tail (Memᴰ.head e))) = subst Resolves (sym e) rc
listed elem a b c d ra rb rc rd (Memᴰ.tail (Memᴰ.tail (Memᴰ.tail (Memᴰ.head e)))) =
    subst Resolves (sym e) rd
listed elem a b c d ra rb rc rd (Memᴰ.tail (Memᴰ.tail (Memᴰ.tail (Memᴰ.tail m)))) = elim m [ ]

resolves :
    (t : StructureType) (op : KeyedOperation)
    → Memᴰ (t, op) (structure_operations structure)
    → resolved urls t op.payload ≡ ok (payload_of (t, op))
unfolding structure_operations resolved resolve_key url_in lookup getitem insert
resolves t op m = listed (t, op) _ _ _ _ refl refl refl refl m

push_structure-structure_phases_example :
    ((delete_structure_elements client structure "weather"
          >> create_update_structure_elements client structure "weather" urls)
        []
      ≡ (
        ok tt,
        logged
            (map
              (structure_request client "weather" payload_of)
              (structure_phases (structure_operations structure)))
            [],
      ))
    × ((t : StructureType)
        → untagged t (structure_phases (structure_operations structure))
          ≡ phases (operations_at t structure))
push_structure-structure_phases_example =
    push_structure-structure_phases structure client answers "weather" urls payload_of resolves []
