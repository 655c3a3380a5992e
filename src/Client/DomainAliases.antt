-- ===== src/Client/DomainAliases.antt =====
-- `invert_dict` of client/compose_client/library/models/domain_aliases.py: the aliases of domains that
-- a dump uses are read the other way round when the definitions are applied.
use nfcompose.Shared.{
  String, ◌≡◌, refl, ◌↔◌, ◌⊎◌, inl, inr, true, false, Option, none, some, List, [], ◌∷◌, arith,
  eq_iff, contains, Distinct, is_some, eq_refl, Option-cases, Bool-cases, if◌then◌else◌,
}
use nfcompose.Shared.Dict.{Dict, lookup, insert, has, keys, lookup-insert, contains-keys}

-- The loop over the items.
unfoldable pub invert_items : Dict String → Dict String → Option (Dict String)
invert_items out [] = some out
invert_items out ((k, v) ∷ d) =
    let rest = invert_items (insert v k out) d in if has out v then none else rest

unfoldable pub invert_dict : Dict String → Option (Dict String)
invert_dict d = invert_items [] d

invert_items_lem :
    (out d e : Dict String)
    → Distinct (keys d)
    → invert_items out d ≡ some e
    → (k v : String) → (lookup v e ≡ some k) ↔ ((lookup v out ≡ some k) ⊎ (lookup k d ≡ some v))
unfolding invert_items keys lookup
invert_items_lem out [] e u h k v = ground (arith, h)
invert_items_lem out ((i, w) ∷ d) e (fresh, u) h k v = elim (Bool-cases (has out w)) [
  | inl there ↦ ground (arith, h, there)
  | inr new ↦ ground (
    arith,
    h,
    new,
    fresh,
    invert_items_lem (insert w i out) d e u (ground (arith, h, new)) k v,
    lookup-insert v w i out,
    contains-keys d i,
    eq_iff w v,
    eq_iff i k,
  )
]

-- `d.values()`
unfoldable pub values : Dict String → List String
values [] = []
values ((k, v) ∷ d) = v ∷ values d

invert_items_done :
    (out d : Dict String)
    → Distinct (values d)
    → ((v : String) → contains (values d) v ≡ true → has out v ≡ false)
    → is_some (invert_items out d) ≡ true
unfolding invert_items values
invert_items_done out [] u h = refl
invert_items_done out ((k, v) ∷ d) (fresh, u) h =
    let new : has out v ≡ false = h v (ground (arith, eq_refl v)) in
    rw (new) (
      invert_items_done (insert v k out) d u
        (λ w there. ground (arith, h w, there, fresh, lookup-insert w v k out, eq_iff v w)))

-- A dictionary in which no two keys have the same value is inverted: the inverse has v at k exactly
-- where the dictionary has k at v.
pub invert_dict_inverse :
    (d : Dict String)
    → Distinct (keys d)
    → Distinct (values d)
    → (e : Dict String) × (invert_dict d ≡ some e)
      × ((k v : String) → (lookup v e ≡ some k) ↔ (lookup k d ≡ some v))
unfolding invert_dict lookup
invert_dict_inverse d u w = elim (Option-cases (invert_items [] d)) [
  | inl failed ↦ ground (arith, failed, invert_items_done [] d w (λ v there. refl))
  | inr (e, h) ↦ (e, h, λ k v. ground (arith, invert_items_lem [] d e u h k v))
]
