-- ===== src/Client/Push/Phases.antt =====
-- The push of the operations on the children of a data series: first the DELETEs, then the CREATEs,
-- then the UPDATEs. The operations of the diff lead from the base to the target in this order too.
use nfcompose.Shared.{
  String, ◌≡◌, refl, ap, ◌∙◌, Bool, Option, none, some, List, [], ◌∷◌, ◌++◌, map, arith,
}
use nfcompose.Shared.Result.{ok}
use nfcompose.Shared.Sets.{IsSetOrder}
use nfcompose.Shared.Value.{Value}
use nfcompose.Client.Operation.{
  OperationType, create, update, KeyedOperation, Identifiable, Payload,
}
use nfcompose.Client.Diff.Remote.{about, run-about, about-append, Transforms}
use nfcompose.Client.Diff.Child.{list_diff_dataseries_child}
use nfcompose.Client.Diff.Child.Latest.{latest}
use nfcompose.Client.Diff.Child.Plan.{plan}
use nfcompose.Client.Diff.Child.Transforms.{
  held, wanted, child_ops, run-plan, list_diff_dataseries_child-plan,
}
use nfcompose.Client.Rest.{
  Method, post, patch, RestRequest, ApiClient, Action, pure, ◌>>=◌, ◌>>◌, send, for_each,
}
use nfcompose.Client.Push.Members.{mem-of_type}
use mathlib.Core.List.{Memᴰ}
use nfcompose.Client.Push.{
  of_type, type_of, children_url, child_url, delete_child, create_child, update_child,
  simple_child_migrate_delete, simple_child_migrate_create_update,
}

-- The operations in the order in which they are sent.
unfoldable pub phases : List KeyedOperation → List KeyedOperation
phases ops =
    of_type type_of OperationType.delete ops
    ++ (of_type type_of create ops ++ of_type type_of update ops)

about-of_type :
    (k : String) (t : OperationType) (ops : List KeyedOperation)
    → about k (of_type type_of t ops) ≡ of_type type_of t (about k ops)
unfolding about of_type
about-of_type k t [] = refl
about-of_type k t (op ∷ ops) = ground (arith, about-of_type k t ops)

about-phases :
    (k : String) (ops : List KeyedOperation) → about k (phases ops) ≡ phases (about k ops)
unfolding phases
about-phases k ops =
    rw
      (
        about-append,
        about-append,
        about-of_type k OperationType.delete,
        about-of_type k create,
        about-of_type k update,
      )
      refl

module _ {A : Type 0} (I : Identifiable A) where
  -- For one key the planned operations are in this order already.
  phases-plan :
      (recreate : A → A → Bool) (delete_missing : Bool) (k : String) (b t : Option A)
      → phases (plan I (child_ops I recreate) delete_missing k b t)
        ≡ plan I (child_ops I recreate) delete_missing k b t
  unfolding phases of_type
  phases-plan recreate delete_missing k none none = refl
  phases-plan recreate delete_missing k (some b) none = ground arith
  phases-plan recreate delete_missing k none (some t) = refl
  phases-plan recreate delete_missing k (some b) (some t) = ground arith

-- The request for an operation.
unfoldable pub request_for : ApiClient → String → String → KeyedOperation → RestRequest
request_for client ds child_type op = elim op.operation_type [
  | OperationType.delete ↦ record {
    method = Method.delete;
    url = child_url client ds child_type op;
    json = none;
  }
  | create ↦ record {
    method = post;
    url = children_url client ds child_type;
    json = some op.payload;
  }
  | update ↦ record {
    method = patch;
    url = child_url client ds child_type op;
    json = some op.payload;
  }
]

-- The log after these requests, the last one first.
abbrev pub logged : List RestRequest → List RestRequest → List RestRequest
logged [] log = log
logged (r ∷ rs) log = logged rs (r ∷ log)

logged-append : (xs ys log : List RestRequest) → logged (xs ++ ys) log ≡ logged ys (logged xs log)
logged-append [] ys log = refl
logged-append (x ∷ xs) ys log = logged-append xs ys (x ∷ log)

module _ {B : Type 0} (request : B → RestRequest) where
  pub for_each_ok :
      (ops : List B) (body : B → Action Unit) (log : List RestRequest)
      → ((op : B) → Memᴰ op ops → (l : List RestRequest) → body op l ≡ (ok tt, request op ∷ l))
      → for_each ops body log ≡ (ok tt, logged (map request ops) log)
  unfolding for_each ◌>>=◌ pure
  for_each_ok [] body log each = refl
  for_each_ok (op ∷ ops) body log each =
      rw (each op (Memᴰ.head refl) log) (for_each_ok ops body _ (λ o m. each o (Memᴰ.tail m)))

  map-append : (xs ys : List B) → map request (xs ++ ys) ≡ map request xs ++ map request ys
  map-append [] ys = refl
  map-append (x ∷ xs) ys = ap (λ rest. request x ∷ rest) (map-append xs ys)

  pub logged-phases :
      (xs ys zs : List B) (log : List RestRequest)
      → logged (map request (xs ++ (ys ++ zs))) log
        ≡ logged (map request zs) (logged (map request ys) (logged (map request xs) log))
  logged-phases xs ys zs log =
      rw (map-append xs (ys ++ zs), map-append ys zs)
        (logged-append (map request xs) (map request ys ++ map request zs) log
          ∙ logged-append (map request ys) (map request zs) (logged (map request xs) log))

-- The server answers every request.
abbrev pub Answers : ApiClient → Type 0
Answers client = (log : List RestRequest) → (v : Value) × (client.answer log ≡ ok v)

module _ (client : ApiClient) (answers : Answers client) (ds child_type : String) where
  pub send_ok :
      (method : Method) (url : String) (json : Option Payload) (log : List RestRequest)
      → (send client method url json >>= λ _. pure tt) log
        ≡ (ok tt, record { method = method; url = url; json = json } ∷ log)
  unfolding send ◌>>=◌ pure
  send_ok method url json log =
      let (v, e) = answers (record { method = method; url = url; json = json } ∷ log) in rw (e) refl

  pub delete_child_ok :
      (op : KeyedOperation) (log : List RestRequest)
      → op.operation_type ≡ OperationType.delete
      → delete_child client ds child_type op log
        ≡ (ok tt, request_for client ds child_type op ∷ log)
  unfolding delete_child request_for child_url
  delete_child_ok op log e = rw (e, request_for) (send_ok _ _ _ log)

  pub create_child_ok :
      (op : KeyedOperation) (log : List RestRequest)
      → op.operation_type ≡ create
      → create_child client ds child_type op.payload log
        ≡ (ok tt, request_for client ds child_type op ∷ log)
  unfolding create_child request_for
  create_child_ok op log e = rw (e, request_for) (send_ok _ _ _ log)

  pub update_child_ok :
      (op : KeyedOperation) (log : List RestRequest)
      → op.operation_type ≡ update
      → update_child client ds child_type op op.payload log
        ≡ (ok tt, request_for client ds child_type op ∷ log)
  unfolding update_child request_for child_url
  update_child_ok op log e = rw (e, request_for) (send_ok _ _ _ log)

  pub migrate_ok :
      (ops : List KeyedOperation) (log : List RestRequest)
      → (simple_child_migrate_delete client ds child_type ops
            >> simple_child_migrate_create_update client ds child_type ops)
          log
        ≡ (ok tt, logged (map (request_for client ds child_type) (phases ops)) log)
  unfolding simple_child_migrate_delete simple_child_migrate_create_update ◌>>=◌ phases
  migrate_ok ops log =
      let request = request_for client ds child_type in
      let deletes = of_type type_of OperationType.delete ops in
      let creates = of_type type_of create ops in
      let updates = of_type type_of update ops in
      rw
        (
          for_each_ok request deletes _ log
              λ op m l. delete_child_ok op l (mem-of_type type_of _ ops op m).1,
          for_each_ok request creates _ _
              λ op m l. create_child_ok op l (mem-of_type type_of _ ops op m).1,
          for_each_ok request updates _ _
              λ op m l. update_child_ok op l (mem-of_type type_of _ ops op m).1,
          logged-phases request deletes creates updates log,
        )
        refl

module _ {A : Type 0} (I : Identifiable A) {set_order : List String → List String}
    (O : IsSetOrder set_order) (base target : List A) (delete_missing : Bool)
    (recreate : A → A → Bool) (client : ApiClient) (answers : Answers client)
    (ds child_type : String) (log : List RestRequest) where
  -- The diff of the children of a kind, pushed to a server that answers every request: the deletions
  -- and then the creations and updates succeed, and send one request for each operation of the
  -- diff, all DELETEs first, then the CREATEs, then the UPDATEs. Carried out in this order on an
  -- instance that holds the base, the operations are all accepted, also those that delete a child
  -- and create it anew, and leave under every key what the diff is to leave: the target's child, or
  -- the base's where `==` does not tell the two apart or where missing ones are not to be deleted.
  pub push_children-Transforms :
      (os : List KeyedOperation) × (list_diff_dataseries_child set_order I base target
          delete_missing recreate
        ≡ ok os)
      × ((simple_child_migrate_delete client ds child_type os
              >> simple_child_migrate_create_update client ds child_type os)
            log
          ≡ (ok tt, logged (map (request_for client ds child_type) (phases os)) log))
      × Transforms
          (λ k. held I (latest I.key k base))
          (λ k. wanted I delete_missing (latest I.key k base) (latest I.key k target))
          (phases os)
  push_children-Transforms =
      let (os, built, mine) =
        list_diff_dataseries_child-plan I O base target delete_missing recreate in
      (
        os,
        built,
        migrate_ok client answers ds child_type os log,
        λ k.
            run-about k (phases os) _
            ∙ rw (about-phases k os, mine k, phases-plan I recreate delete_missing k)
                (run-plan I recreate delete_missing k (latest I.key k base)
                  (latest I.key k target)),
      )
