-- ===== src/Client/Push/Safety.antt =====
-- The push of data series sends only requests that the diffs call for.
use nfcompose.Shared.{String, ℕ, zero, suc, refl, sym, Option, none, some, List, [], ◌∷◌, arith}
use nfcompose.Shared.Result.{Result}
use nfcompose.Shared.Dict.{Dict, getitem, lookup-nil}
use nfcompose.Shared.Value.{Value}
use nfcompose.Client.Operation.{KeyedOperation}
use nfcompose.Client.Diff.Models.{DataSeriesDefinitionDiff}
use nfcompose.Client.Rest.{put, RestRequest, ApiClient, Action, read_paginated_all}
use nfcompose.Client.Rest.Sends.{
  Sends, pure-Sends, send-Sends, bind-Sends, raise-Sends, lift-Sends, if-Sends, for_each-Sends,
  given-Sends,
}
use nfcompose.Client.Push.{key_text, type_of}
use nfcompose.Client.Push.Series.{
  Converters, permission_url, delete_series, written, create_series, update_series,
  migrate_bare_data_series, delete_children, create_update_children, put_permission,
  put_permissions, read_groups, read_data_series, push_data_series,
}
use nfcompose.Client.Push.Justified.{
  Justified, reads, series_deleted, series_created, series_updated, permission_put,
}
use nfcompose.Client.Push.Served.{HasIds, read-Gives, url_by_external_id-HasUrls, id_by_name-HasIds}
use nfcompose.Client.Push.Members.{mem-of_type, mem-series_operations, lookup-getitem}
use nfcompose.Client.Push.Children.{
  delete_consumers-Sends, delete_indexes-Sends, delete_structure-Sends,
  create_update_consumers-Sends, create_update_indexes-Sends, create_update_structure-Sends,
}
use mathlib.Core.List.{Memᴰ}
use mathlib.Core.List.Memᴰ

module _ (client : ApiClient) (converters : Converters) (pages : ℕ)
    (diffs : List DataSeriesDefinitionDiff) where
  abbrev Q : RestRequest → Type 0
  Q = Justified client converters diffs

  read-Sends :
      {A : Type 0} (converter : Value → Result A) (data_key : String) (n : ℕ) (url : Option String)
      (found : List A)
      → Sends Q (read_paginated_all converter client data_key n url found)
  unfolding read_paginated_all
  read-Sends converter data_key n none found = pure-Sends found
  read-Sends converter data_key zero (some url) found = raise-Sends _
  read-Sends converter data_key (suc n) (some url) found =
      bind-Sends _ _ (send-Sends _ _ _ _ (reads url)) λ page. lift-Sends _ _ λ parsed _.
        lift-Sends _ _
          λ new _. lift-Sends _ _ λ following _. read-Sends converter data_key n following _

  written-Sends :
      (ops : List KeyedOperation) (write : KeyedOperation → Action Value) (urls : Dict String)
      → ((op : KeyedOperation) → Memᴰ op ops → Sends Q (write op))
      → Sends Q (written client converters pages ops write urls)
  unfolding written
  written-Sends [] write urls each = pure-Sends urls
  written-Sends (op ∷ ops) write urls each =
      bind-Sends _ _ (each op (Memᴰ.head refl))
        λ json. lift-Sends _ _ λ series _. written-Sends ops write _ (λ o m. each o (Memᴰ.tail m))

  bare-Sends : Sends Q (migrate_bare_data_series client converters pages diffs)
  unfolding migrate_bare_data_series delete_series create_series update_series
  bare-Sends =
      bind-Sends _ _
        (for_each-Sends _ _ λ op m.
          let (has, e) = mem-of_type type_of _ _ op m in
          let (diff, listed, same) = mem-series_operations diffs op has in
          bind-Sends _ _ (send-Sends _ _ _ _ (series_deleted diff op listed same e))
            (λ _. pure-Sends tt))
        (λ _.
          bind-Sends _ _
            (written-Sends _ _ _ λ op m.
              let (has, e) = mem-of_type type_of _ _ op m in
              let (diff, listed, same) = mem-series_operations diffs op has in
              send-Sends _ _ _ _ (series_created diff op listed same e))
            (λ created. written-Sends _ _ _ λ op m.
              let (has, e) = mem-of_type type_of _ _ op m in
              let (diff, listed, same) = mem-series_operations diffs op has in
              send-Sends _ _ _ _ (series_updated diff op listed same e)))

  put_permissions-Sends :
      (ids : Dict String) (diff : DataSeriesDefinitionDiff)
      → Memᴰ diff diffs
      → HasIds client converters ids
      → Sends Q (put_permissions client converters pages ids diff)
  unfolding put_permissions put_permission getitem
  put_permissions-Sends ids diff listed known = for_each-Sends _ _ λ change m.
      if-Sends _ _ _ (λ _. pure-Sends tt)
        λ kept. lift-Sends _ _ λ id found.
          let (group, from, its, same) =
            known (key_text change.key) id (lookup-getitem ids (key_text change.key) id found) in
          bind-Sends _ _
            (send-Sends client put (permission_url client diff.external_id id) (some change.payload)
              (rw (sym same) (permission_put diff change group listed m kept from its)))
            (λ _. pure-Sends tt)

  -- Whatever the server answers, and also where the push fails on the way: each request that a push
  -- of data series sends is a GET, or one that an operation of a diff calls for. A child is deleted,
  -- created or updated with the method, URL and payload of its operation, where a dimension's payload
  -- has, in place of the external id that its reference names, the URL of a data series with that id
  -- that is on a page which the server answered to a GET. No child is deleted of a data series that
  -- the diff creates, and none is created or updated of one that it deletes. A data series is deleted,
  -- created or updated as its own operation says, and a permission is put for a change that is not a
  -- DELETE, under the id of a group of the change's name, which is on such a page too.
  pub push_data_series-Sends :
      Sends (Justified client converters diffs) (push_data_series client converters pages diffs)
  unfolding push_data_series delete_children create_update_children read_data_series read_groups
  push_data_series-Sends =
      bind-Sends _ _
        (for_each-Sends _ _ λ diff m.
          if-Sends _ _ _ (λ _. pure-Sends tt)
            λ kept. bind-Sends _ _ (delete_indexes-Sends client converters diffs diff m kept) λ _.
              bind-Sends _ _ (delete_structure-Sends client converters diffs diff m kept)
                λ _. delete_consumers-Sends client converters diffs diff m kept)
        (λ _. bind-Sends _ _ bare-Sends λ _.
          given-Sends _ _ (read-Sends _ _ _ _ _)
            (read-Gives client converters.data_series _ _ [] (λ x m. absurd (Memᴰ.not-nil m)))
            λ series all.
              bind-Sends _ _
                (for_each-Sends _ _ λ diff m.
                  if-Sends _ _ _ (λ _. pure-Sends tt)
                    λ kept.
                      bind-Sends _ _
                        (create_update_structure-Sends client converters diffs diff m kept _ (
                          url_by_external_id-HasUrls client converters series []
                            (λ name url e. absurd (ground (arith, e, lookup-nil {V = String} name)))
                            all))
                        λ _.
                          bind-Sends _ _
                            (create_update_consumers-Sends client converters diffs diff m kept)
                            λ _. create_update_indexes-Sends client converters diffs diff m kept)
                (λ _.
                  given-Sends _ _ (read-Sends _ _ _ _ _)
                    (read-Gives client converters.group _ _ [] (λ x m. absurd (Memᴰ.not-nil m)))
                    λ groups found. for_each-Sends _ _ λ diff m. put_permissions-Sends _ diff m (
                      id_by_name-HasIds client converters groups []
                        (λ name id e. absurd (ground (arith, e, lookup-nil {V = String} name)))
                        found)))
