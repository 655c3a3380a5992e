-- ===== src/Client/Diff/DataSeries/Reaches.antt =====
-- `diff_data_series` succeeds and does what `Reaches` says.
use nfcompose.Shared.{
  String, ◌≡◌, refl, sym, ◌∙◌, Bool, true, false, Option, none, some, List, [], ◌∷◌, eq_iff,
  Bool-cases, inl, inr,
}
use nfcompose.Shared.Result.{ok}
use nfcompose.Shared.Sets.{IsSetOrder}
use nfcompose.Client.Models.{Runtime, DataSeries, DataSeriesDefinition, GroupPermissionsOnObject}
use nfcompose.Client.Operation.{KeyedOperation, create, delete}
use nfcompose.Client.Serializer
use nfcompose.Client.Serializer.{Serializer}
use nfcompose.Client.Diff.Models.{DataSeriesDefinitionDiff}
use nfcompose.Client.Diff.Child.{operation}
use nfcompose.Client.Diff.Child.Latest.{latest}
use nfcompose.Client.Diff.Groups.Transforms.{WritesPermissions}
use nfcompose.Client.Diff.DataSeries.{
  DiffOptions, diff_data_series, definition_diff, update_op_ds, childless, no_structure_diff,
}
use nfcompose.Client.Diff.All.Covers.{HasKey}
use nfcompose.Client.Diff.Leads.{
  Leads, Grants, IfIncluded, operations_of, Leads-nil, Leads-nothing, Grants-nothing, Grants-nil,
  created, deleted, updated,
}
use nfcompose.Client.Diff.DataSeries.Reached.{ReachesStructure, Reaches}
use nfcompose.Client.Diff.DataSeries.Children.{
  structure_diff-Reaches, index_diff-Leads, consumer_diff-Leads, permission_diff-Grants,
}

abbrev pub series_key : DataSeriesDefinition → String
series_key d = d.data_series.external_id

-- The children's part of the promise.
record ReachesChildren (rt : Runtime) (ser : Serializer) (opts : DiffOptions)
    (b t : DataSeriesDefinition) (drops revokes : Bool) (d : DataSeriesDefinitionDiff)
    : Type 0 where
  structure : ReachesStructure ser true b.structure t.structure d.structure
  indexes : Leads (Serializer.indexes ser) true b.indexes t.indexes d.indexes
  consumers :
      IfIncluded opts.include_consumers d.consumers
        (Leads (Serializer.consumers ser rt) drops b.consumers t.consumers d.consumers)
  group_permissions : IfIncluded opts.include_group_permissions d.group_permissions (
      Grants ser.object_permissions revokes b.group_permissions t.group_permissions
        d.group_permissions)

module _ (rt : Runtime) (ser : Serializer) (O : IsSetOrder rt.set_order)
    (W : WritesPermissions ser.object_permissions) (opts : DiffOptions) where
  definition_diff-Reaches :
      (id : String) (op : Option KeyedOperation) (b t : DataSeriesDefinition) (drops revokes : Bool)
      → (d : DataSeriesDefinitionDiff) × (definition_diff rt ser opts id op b t drops revokes
          ≡ ok d)
        × (d.external_id ≡ id)
        × (d.data_series ≡ op)
        × ReachesChildren rt ser opts b t drops revokes d
  unfolding definition_diff
  definition_diff-Reaches id op b t drops revokes =
      let (s, built_s, structure) = structure_diff-Reaches rt ser O b.structure t.structure in
      let (xs, built_xs, indexes) = index_diff-Leads rt ser O b.indexes t.indexes in
      let (cs, built_cs, consumers) =
        consumer_diff-Leads rt ser O opts.include_consumers b.consumers t.consumers drops in
      let (gs, built_gs, permissions) =
        permission_diff-Grants rt ser O W opts.include_group_permissions b.group_permissions
          t.group_permissions revokes in
      (
        record {
          external_id = id;
          data_series = op;
          structure = s;
          group_permissions = gs;
          consumers = cs;
          indexes = xs;
        },
        rw built_s (rw built_xs (rw built_cs (rw built_gs))),
        refl,
        refl,
        record {
          structure = structure;
          indexes = indexes;
          consumers = consumers;
          group_permissions = permissions;
        },
      )

  series_updated :
      (b t : DataSeries)
      → b.external_id ≡ t.external_id
      → Leads
          (Serializer.series ser rt)
          false
          (b ∷ [])
          (t ∷ [])
          (operations_of (update_op_ds rt ser b t))
  unfolding update_op_ds
  series_updated b t h = updated (Serializer.series ser rt) b t h

  -- No base: whatever is said of removals, nothing is removed.
  included_nil :
      (included : Bool) (removes' : Bool) (cs : List KeyedOperation) (t : DataSeriesDefinition)
      → IfIncluded included cs (Leads (Serializer.consumers ser rt) false [] t.consumers cs)
      → IfIncluded included cs (Leads (Serializer.consumers ser rt) removes' [] t.consumers cs)
  included_nil true removes' cs t h =
      Leads-nil (Serializer.consumers ser rt) false removes' t.consumers cs h
  included_nil false removes' cs t h = h

  granted_nil :
      (included : Bool) (revokes' : Bool) (gs : List KeyedOperation)
      (t : List GroupPermissionsOnObject)
      → IfIncluded included gs (Grants ser.object_permissions false [] t gs)
      → IfIncluded included gs (Grants ser.object_permissions revokes' [] t gs)
  unfolding latest
  granted_nil true revokes' gs t h = Grants-nil ser.object_permissions false revokes' t gs h
  granted_nil false revokes' gs t h = h

  nothing_to_do :
      (b : DataSeriesDefinition)
      → opts.delete_in_base ≡ false
      → (d : DataSeriesDefinitionDiff) × (diff_data_series rt ser opts (some b) none ≡ ok d)
        × (d.external_id ≡ b.data_series.external_id)
        × Reaches rt ser opts (some b) none d
  unfolding diff_data_series
  nothing_to_do b e = (
    record {
      external_id = b.data_series.external_id;
      data_series = none;
      structure = no_structure_diff;
      group_permissions = [];
      consumers = [];
      indexes = [];
    },
    rw e,
    refl,
    record {
      data_series = rw e (Leads-nothing (Serializer.series ser rt) _);
      structure = rw e (record {
        float_facts = Leads-nothing (Serializer.facts ser) _;
        string_facts = Leads-nothing (Serializer.facts ser) _;
        text_facts = Leads-nothing (Serializer.facts ser) _;
        timestamp_facts = Leads-nothing (Serializer.facts ser) _;
        image_facts = Leads-nothing (Serializer.facts ser) _;
        file_facts = Leads-nothing (Serializer.facts ser) _;
        json_facts = Leads-nothing (Serializer.facts ser) _;
        boolean_facts = Leads-nothing (Serializer.facts ser) _;
        dimensions = Leads-nothing (Serializer.dimensions ser) _;
      });
      indexes = rw e (Leads-nothing (Serializer.indexes ser) _);
      consumers = rw e (no_consumers opts.include_consumers);
      group_permissions = rw e (no_permissions opts.include_group_permissions);
    },
  )
    where
      no_consumers :
          (included : Bool)
          → IfIncluded included [] (Leads (Serializer.consumers ser rt) false b.consumers [] [])
      no_consumers true = Leads-nothing (Serializer.consumers ser rt) b.consumers
      no_consumers false = refl

      no_permissions :
          (included : Bool)
          → IfIncluded included [] (Grants ser.object_permissions false b.group_permissions [] [])
      no_permissions true = Grants-nothing ser.object_permissions W b.group_permissions
      no_permissions false = refl

  gone :
      (b : DataSeriesDefinition) (d : DataSeriesDefinitionDiff)
      → opts.delete_in_base ≡ true
      → d.data_series
        ≡ some (operation delete b.data_series.external_id (ser.data_series b.data_series))
      → ReachesChildren rt ser opts b (childless rt ser b) true true d
      → Reaches rt ser opts (some b) none d
  gone b d e is_op r = record {
    data_series = rw e (rw is_op (deleted (Serializer.series ser rt) b.data_series));
    structure = rw e r.structure;
    indexes = rw e r.indexes;
    consumers = rw e r.consumers;
    group_permissions = rw e r.group_permissions;
  }

  everything_goes :
      (b : DataSeriesDefinition)
      → opts.delete_in_base ≡ true
      → (d : DataSeriesDefinitionDiff) × (diff_data_series rt ser opts (some b) none ≡ ok d)
        × (d.external_id ≡ b.data_series.external_id)
        × Reaches rt ser opts (some b) none d
  unfolding diff_data_series
  everything_goes b e =
      let op : Option KeyedOperation =
        some (operation delete b.data_series.external_id (ser.data_series b.data_series)) in
      let (d, built, named, is_op, r) =
        definition_diff-Reaches b.data_series.external_id op b (childless rt ser b) true true in
      (d, simp e built, named, gone b d e is_op r)

  -- For any order in which sets are walked, and a `to_dict` of group permissions that writes their
  -- list under 'group_permissions': with at least one of two definitions, whose key is k,
  -- `diff_data_series` raises nothing, and the diff is named k. Under every key and for every kind
  -- of child, its operations are accepted by an instance that holds the base, and lead to the
  -- target's children. What only the base has is removed as the options say: without a target
  -- everything is removed if `delete_in_base` and nothing if not; with one, facts, dimensions and
  -- indexes are removed whatever `delete_in_base` is, consumers and permissions by their own flags.
  -- Consumers and permissions that are not included have no operation.
  pub diff_data_series-Reaches :
      (k : String) (b t : Option DataSeriesDefinition)
      → HasKey series_key k b t
      → (d : DataSeriesDefinitionDiff) × (diff_data_series rt ser opts b t ≡ ok d)
        × (d.external_id ≡ k)
        × Reaches rt ser opts b t d
  unfolding diff_data_series
  diff_data_series-Reaches k none none h = absurd h
  diff_data_series-Reaches k none (some t) h =
      let op : Option KeyedOperation =
        some (operation create t.data_series.external_id (ser.data_series t.data_series)) in
      let (d, built, named, is_op, r) =
        definition_diff-Reaches t.data_series.external_id op (childless rt ser t) t false false in
      (
        d,
        built,
        named ∙ h,
        record {
          data_series = rw is_op (created (Serializer.series ser rt) false t.data_series);
          structure = r.structure;
          indexes = r.indexes;
          consumers = included_nil opts.include_consumers _ d.consumers t r.consumers;
          group_permissions =
              granted_nil opts.include_group_permissions _ d.group_permissions t.group_permissions
                r.group_permissions;
        },
      )
  diff_data_series-Reaches k (some b) none h = elim (Bool-cases opts.delete_in_base) [
    | inl e ↦ let (d, built, named, r) = everything_goes b e in (d, built, named ∙ h, r)
    | inr e ↦ let (d, built, named, r) = nothing_to_do b e in (d, built, named ∙ h, r)
  ]
  diff_data_series-Reaches k (some b) (some t) (hb, ht) =
      let op : Option KeyedOperation = update_op_ds rt ser b.data_series t.data_series in
      let same : b.data_series.external_id ≡ t.data_series.external_id = hb ∙ sym ht in
      let (d, built, named, is_op, r) =
        definition_diff-Reaches b.data_series.external_id op b t opts.remove_missing_consumers
          opts.revoke_missing_group_permissions in
      (
        d,
        rw ((eq_iff b.data_series.external_id t.data_series.external_id).1 same) built,
        named ∙ hb,
        record {
          data_series = rw is_op (series_updated b.data_series t.data_series same);
          structure = r.structure;
          indexes = r.indexes;
          consumers = r.consumers;
          group_permissions = r.group_permissions;
        },
      )
