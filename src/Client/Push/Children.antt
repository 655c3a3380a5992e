-- ===== src/Client/Push/Children.antt =====
-- The requests for the children of one data series are called for by the diff.
use nfcompose.Shared.{String, ◌≡◌, refl, false, List}
use nfcompose.Shared.Dict.{Dict}
use nfcompose.Client.Operation.{OperationType, create, update, KeyedOperation, Payload}
use nfcompose.Client.Diff.Models.{DataSeriesDefinitionDiff}
use nfcompose.Client.Rest.{RestRequest, ApiClient}
use nfcompose.Client.Rest.Sends.{
  Sends, pure-Sends, send-Sends, bind-Sends, lift-Sends, if-Sends, for_each-Sends,
}
use nfcompose.Client.Push.{
  type_of, tagged_type, delete_child, create_child, update_child, simple_child_migrate_delete,
  simple_child_migrate_create_update, delete_consumers, create_update_consumers, if_indexes,
  delete_indexes, create_update_indexes, delete_structure_elements,
  create_update_structure_elements,
}
use nfcompose.Client.Push.Series.{Converters, has_type}
use nfcompose.Client.Push.Justified.{
  Kind, consumer, index, element, kind_path, Has, IsSent, Justified, reads, child_deleted,
  child_created, child_updated,
}
use nfcompose.Client.Push.Served.{HasUrls, resolved-IsSent}
use nfcompose.Client.Push.Members.{mem-of_type}
use mathlib.Core.List.{Memᴰ}

module _ (client : ApiClient) (converters : Converters) (diffs : List DataSeriesDefinitionDiff)
    (diff : DataSeriesDefinitionDiff) (listed : Memᴰ diff diffs) where
  abbrev pub P : RestRequest → Type 0
  P = Justified client converters diffs

  module _ (kept : has_type diff.data_series create ≡ false) where
    delete_child-Sends :
        (kind : Kind) (op : KeyedOperation)
        → Has diff kind op
        → op.operation_type ≡ OperationType.delete
        → Sends P (delete_child client diff.external_id (kind_path kind) op)
    unfolding delete_child
    delete_child-Sends kind op has e =
        bind-Sends _ _ (send-Sends _ _ _ _ (child_deleted diff kind op listed kept has e))
          (λ _. pure-Sends tt)

    pub delete_consumers-Sends : Sends P (delete_consumers client diff.external_id diff.consumers)
    unfolding delete_consumers simple_child_migrate_delete
    delete_consumers-Sends =
        for_each-Sends _ _ λ op m.
          let (has, e) = mem-of_type type_of _ _ op m in delete_child-Sends consumer op has e

    pub delete_indexes-Sends : Sends P (delete_indexes client diff.external_id diff.indexes)
    unfolding delete_indexes if_indexes simple_child_migrate_delete
    delete_indexes-Sends = bind-Sends _ _ (send-Sends _ _ _ _ (reads _)) λ json.
        if-Sends _ _ _
          (λ _. for_each-Sends _ _ λ op m.
            let (has, e) = mem-of_type type_of _ _ op m in delete_child-Sends index op has e)
          (λ _. pure-Sends tt)

    pub delete_structure-Sends :
        Sends P (delete_structure_elements client diff.structure diff.external_id)
    unfolding delete_structure_elements
    delete_structure-Sends = for_each-Sends _ _ λ x m.
        let (has, e) = mem-of_type tagged_type _ _ x m in delete_child-Sends (element x.0) x.1 has e

  module _ (kept : has_type diff.data_series OperationType.delete ≡ false) where
    create_child-Sends :
        (kind : Kind) (op : KeyedOperation) (payload : Payload)
        → Has diff kind op
        → op.operation_type ≡ create
        → IsSent client converters kind op payload
        → Sends P (create_child client diff.external_id (kind_path kind) payload)
    unfolding create_child
    create_child-Sends kind op payload has e same =
        bind-Sends _ _
          (send-Sends _ _ _ _ (child_created diff kind op payload listed kept has e same))
          (λ _. pure-Sends tt)

    update_child-Sends :
        (kind : Kind) (op : KeyedOperation) (payload : Payload)
        → Has diff kind op
        → op.operation_type ≡ update
        → IsSent client converters kind op payload
        → Sends P (update_child client diff.external_id (kind_path kind) op payload)
    unfolding update_child
    update_child-Sends kind op payload has e same =
        bind-Sends _ _
          (send-Sends _ _ _ _ (child_updated diff kind op payload listed kept has e same))
          (λ _. pure-Sends tt)

    pub create_update_consumers-Sends :
        Sends P (create_update_consumers client diff.external_id diff.consumers)
    unfolding create_update_consumers simple_child_migrate_create_update IsSent
    create_update_consumers-Sends =
        bind-Sends _ _
          (for_each-Sends _ _ λ op m.
            let (has, e) = mem-of_type type_of _ _ op m in
            create_child-Sends consumer op op.payload has e refl)
          (λ _. for_each-Sends _ _ λ op m.
            let (has, e) = mem-of_type type_of _ _ op m in
            update_child-Sends consumer op op.payload has e refl)

    pub create_update_indexes-Sends :
        Sends P (create_update_indexes client diff.external_id diff.indexes)
    unfolding create_update_indexes if_indexes simple_child_migrate_create_update IsSent
    create_update_indexes-Sends = bind-Sends _ _ (send-Sends _ _ _ _ (reads _)) λ json.
        if-Sends _ _ _
          (λ _.
            bind-Sends _ _
              (for_each-Sends _ _ λ op m.
                let (has, e) = mem-of_type type_of _ _ op m in
                create_child-Sends index op op.payload has e refl)
              (λ _. for_each-Sends _ _ λ op m.
                let (has, e) = mem-of_type type_of _ _ op m in
                update_child-Sends index op op.payload has e refl))
          (λ _. pure-Sends tt)

    pub create_update_structure-Sends :
        (urls : Dict String)
        → HasUrls client converters urls
        → Sends P (create_update_structure_elements client diff.structure diff.external_id urls)
    unfolding create_update_structure_elements
    create_update_structure-Sends urls known =
        bind-Sends _ _
          (for_each-Sends _ _ λ x m.
            let (has, e) = mem-of_type tagged_type _ _ x m in
            lift-Sends _ _ λ payload sent.
              create_child-Sends (element x.0) x.1 payload has e
                (resolved-IsSent client converters urls known x.0 x.1 payload sent))
          (λ _. for_each-Sends _ _ λ x m.
            let (has, e) = mem-of_type tagged_type _ _ x m in
            lift-Sends _ _ λ payload sent.
              update_child-Sends (element x.0) x.1 payload has e
                (resolved-IsSent client converters urls known x.0 x.1 payload sent))
