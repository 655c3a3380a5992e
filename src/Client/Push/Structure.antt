-- ===== src/Client/Push/Structure.antt =====
-- The push of the structure of a data series: the requests for its facts and dimensions.
use nfcompose.Shared.{
  String, ◌≡◌, refl, ap, Bool, true, false, List, [], ◌∷◌, ◌++◌, map, arith, if◌then◌else◌,
}
use nfcompose.Shared.Result.{ok}
use nfcompose.Shared.Dict.{Dict}
use nfcompose.Client.Operation.{OperationType, create, update, KeyedOperation, Payload}
use nfcompose.Client.Diff.Models.{DataSeriesStructureDiff}
use nfcompose.Client.Rest.{RestRequest, ApiClient, lift, ◌>>=◌, ◌>>◌}
use nfcompose.Client.Push.Members.{mem-of_type}
use nfcompose.Client.Push.Phases.{
  phases, request_for, logged, Answers, for_each_ok, logged-phases, delete_child_ok,
  create_child_ok, update_child_ok,
}
use mathlib.Core.List.{Memᴰ}
use nfcompose.Client.Push.{
  StructureType, float_facts, string_facts, text_facts, timestamp_facts, image_facts, file_facts,
  json_facts, boolean_facts, dimensions, path_elem, of_type, type_of, tagged, tagged_type,
  structure_operations, resolved, child_url, delete_child, create_child, update_child,
  delete_structure_elements, create_update_structure_elements,
}

abbrev pub Elem : Type 0
Elem = StructureType × KeyedOperation

-- The operations in the order in which they are sent.
unfoldable pub structure_phases : List Elem → List Elem
structure_phases ops =
    of_type tagged_type OperationType.delete ops
    ++ (of_type tagged_type create ops ++ of_type tagged_type update ops)

unfoldable pub is_same : StructureType → StructureType → Bool
is_same float_facts float_facts = true
is_same string_facts string_facts = true
is_same text_facts text_facts = true
is_same timestamp_facts timestamp_facts = true
is_same image_facts image_facts = true
is_same file_facts file_facts = true
is_same json_facts json_facts = true
is_same boolean_facts boolean_facts = true
is_same dimensions dimensions = true
is_same _ _ = false

-- The operations on the elements of one type, in their order.
unfoldable pub untagged : StructureType → List Elem → List KeyedOperation
untagged t [] = []
untagged t ((u, op) ∷ ops) = let rest = untagged t ops in if is_same u t then op ∷ rest else rest

abbrev pub operations_at : StructureType → DataSeriesStructureDiff → List KeyedOperation
operations_at float_facts diff = diff.float_facts
operations_at string_facts diff = diff.string_facts
operations_at text_facts diff = diff.text_facts
operations_at timestamp_facts diff = diff.timestamp_facts
operations_at image_facts diff = diff.image_facts
operations_at file_facts diff = diff.file_facts
operations_at json_facts diff = diff.json_facts
operations_at boolean_facts diff = diff.boolean_facts
operations_at dimensions diff = diff.dimensions

append-nil : {A : Type 0} → (xs : List A) → xs ++ [] ≡ xs
append-nil [] = refl
append-nil (x ∷ xs) = ap (λ ys. x ∷ ys) (append-nil xs)

untagged-append :
    (t : StructureType) (xs ys : List Elem) → untagged t (xs ++ ys) ≡ untagged t xs ++ untagged t ys
unfolding untagged
untagged-append t [] ys = refl
untagged-append t ((u, op) ∷ xs) ys = ground (arith, untagged-append t xs ys)

untagged-of_type :
    (t : StructureType) (ty : OperationType) (ops : List Elem)
    → untagged t (of_type tagged_type ty ops) ≡ of_type type_of ty (untagged t ops)
unfolding untagged of_type
untagged-of_type t ty [] = refl
untagged-of_type t ty ((u, op) ∷ ops) = ground (arith, untagged-of_type t ty ops)

untagged-tagged :
    (t u : StructureType) (ops : List KeyedOperation)
    → untagged t (tagged u ops) ≡ (if is_same u t then ops else [])
unfolding untagged
untagged-tagged t u [] = ground arith
untagged-tagged t u (op ∷ ops) = ground (arith, untagged-tagged t u ops)

untagged-structure :
    (t : StructureType) (diff : DataSeriesStructureDiff)
    → untagged t (structure_operations diff) ≡ operations_at t diff
unfolding structure_operations is_same
untagged-structure float_facts diff = simp (untagged-append, untagged-tagged, append-nil)
untagged-structure string_facts diff = simp (untagged-append, untagged-tagged, append-nil)
untagged-structure text_facts diff = simp (untagged-append, untagged-tagged, append-nil)
untagged-structure timestamp_facts diff = simp (untagged-append, untagged-tagged, append-nil)
untagged-structure image_facts diff = simp (untagged-append, untagged-tagged, append-nil)
untagged-structure file_facts diff = simp (untagged-append, untagged-tagged, append-nil)
untagged-structure json_facts diff = simp (untagged-append, untagged-tagged, append-nil)
untagged-structure boolean_facts diff = simp (untagged-append, untagged-tagged, append-nil)
untagged-structure dimensions diff = simp (untagged-append, untagged-tagged)

-- Of each type the operations are sent in the order of the phases.
untagged-structure_phases :
    (t : StructureType) (diff : DataSeriesStructureDiff)
    → untagged t (structure_phases (structure_operations diff)) ≡ phases (operations_at t diff)
unfolding structure_phases phases
untagged-structure_phases t diff =
    rw
      (
        untagged-append,
        untagged-append,
        untagged-of_type t OperationType.delete,
        untagged-of_type t create,
        untagged-of_type t update,
        untagged-structure t diff,
      )
      refl

-- The operation as it is sent, with its payload resolved.
abbrev pub with_payload : (Elem → Payload) → Elem → KeyedOperation
with_payload payload_of (t, op) = record {
  key = op.key;
  operation_type = op.operation_type;
  payload = payload_of (t, op);
}

-- The request for an operation on an element of the structure.
unfoldable pub structure_request : ApiClient → String → (Elem → Payload) → Elem → RestRequest
structure_request client ds payload_of (t, op) =
    request_for client ds (path_elem t) (with_payload payload_of (t, op))

module _ (diff : DataSeriesStructureDiff) (client : ApiClient) (answers : Answers client)
    (ds : String) (urls : Dict String) (payload_of : Elem → Payload)
    (resolves : (t : StructureType) (op : KeyedOperation)
      → Memᴰ (t, op) (structure_operations diff)
      → resolved urls t op.payload ≡ ok (payload_of (t, op)))
    (log : List RestRequest) where
  deleted_ok :
      (elem : Elem) (l : List RestRequest)
      → tagged_type elem ≡ OperationType.delete
      → delete_child client ds (path_elem elem.0) elem.1 l
        ≡ (ok tt, structure_request client ds payload_of elem ∷ l)
  unfolding delete_child child_url structure_request
  deleted_ok (t, op) l e =
      delete_child_ok client answers ds (path_elem t) (with_payload payload_of (t, op)) l e

  created_ok :
      (elem : Elem) (l : List RestRequest)
      → Memᴰ elem (structure_operations diff)
      → tagged_type elem ≡ create
      → (lift (resolved urls elem.0 elem.1.payload) >>= λ payload.
            create_child client ds (path_elem elem.0) payload)
          l
        ≡ (ok tt, structure_request client ds payload_of elem ∷ l)
  unfolding ◌>>=◌ lift structure_request
  created_ok (t, op) l m e =
      rw (resolves t op m)
        (create_child_ok client answers ds (path_elem t) (with_payload payload_of (t, op)) l e)

  updated_ok :
      (elem : Elem) (l : List RestRequest)
      → Memᴰ elem (structure_operations diff)
      → tagged_type elem ≡ update
      → (lift (resolved urls elem.0 elem.1.payload) >>= λ payload.
            update_child client ds (path_elem elem.0) elem.1 payload)
          l
        ≡ (ok tt, structure_request client ds payload_of elem ∷ l)
  unfolding ◌>>=◌ lift update_child child_url structure_request
  updated_ok (t, op) l m e =
      rw (resolves t op m)
        (update_child_ok client answers ds (path_elem t) (with_payload payload_of (t, op)) l e)

  -- The push of the structure of a data series, where every reference of a dimension is resolved and
  -- the server answers every request: the deletions and then the creations and updates succeed, and
  -- send one request for each operation of the structure diff, with the path of the type of its
  -- element and its resolved payload: the DELETEs of all nine types first, then all CREATEs, then
  -- all UPDATEs. Among them the operations on the elements of one type, in the order in which they
  -- are sent, are those of the diff of this type, DELETEs first, then CREATEs, then UPDATEs.
  pub push_structure-structure_phases :
      ((delete_structure_elements client diff ds
            >> create_update_structure_elements client diff ds urls)
          log
        ≡ (
          ok tt,
          logged
              (map
                (structure_request client ds payload_of)
                (structure_phases (structure_operations diff)))
              log,
        ))
      × ((t : StructureType)
          → untagged t (structure_phases (structure_operations diff))
            ≡ phases (operations_at t diff))
  unfolding delete_structure_elements create_update_structure_elements ◌>>=◌ lift structure_phases
      structure_request
  push_structure-structure_phases =
      let ops = structure_operations diff in
      let request = structure_request client ds payload_of in
      (
        rw
            (
              for_each_ok request (of_type tagged_type OperationType.delete ops) _ log
                  λ elem m l. deleted_ok elem l (mem-of_type tagged_type _ ops elem m).1,
              for_each_ok request (of_type tagged_type create ops) _ _ λ elem m l.
                  let (has, e) = mem-of_type tagged_type _ ops elem m in created_ok elem l has e,
              for_each_ok request (of_type tagged_type update ops) _ _ λ elem m l.
                  let (has, e) = mem-of_type tagged_type _ ops elem m in updated_ok elem l has e,
              logged-phases request (of_type tagged_type OperationType.delete ops)
                  (of_type tagged_type create ops) (of_type tagged_type update ops) log,
            )
            refl,
        λ t. untagged-structure_phases t diff,
      )
