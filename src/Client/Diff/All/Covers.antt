-- ===== src/Client/Diff/All/Covers.antt =====
-- `diff_all` returns one diff for every key of the base or the target, and no other.
use nfcompose.Shared.{
  String, ◌≡◌, refl, sym, ◌∙◌, true, ◌||◌, Option, none, some, List, [], ◌∷◌, ◌++◌, map, arith,
  contains, contains-append, Distinct, is_some, eq_iff,
}
use nfcompose.Shared.Result.{Result, ok}
use nfcompose.Shared.Dict.{Dict, lookup, keys, by_key, contains-keys}
use nfcompose.Shared.Sets.{IsSetOrder}
use nfcompose.Client.Diff.Child.Latest.{latest, lookup-by_key_nil, key-latest}
use nfcompose.Client.Diff.All.{diff_each, diff_all}

abbrev pub All {ℓ κ} : {A : Type ℓ} → (A → Type κ) → List A → Type κ
All P [] = Unit
All P (x ∷ xs) = P x × All P xs

-- At least one of the two is there, and what is there has the key.
abbrev pub HasKey : {D : Type 0} → (D → String) → String → Option D → Option D → Type 0
HasKey key k none none = ⊥
HasKey key k none (some t) = key t ≡ k
HasKey key k (some b) none = key b ≡ k
HasKey key k (some b) (some t) = (key b ≡ k) × (key t ≡ k)

module _ {D E : Type 0} (diff : Option D → Option D → Result E) (key : D → String)
    (name : E → String) (Q : Option D → Option D → E → Type 0) where
  -- The diff of the two succeeds, is named `k`, and does what is promised of it.
  abbrev pub Succeeds : String → Option D → Option D → Type 0
  Succeeds k b t = (e : E) × (diff b t ≡ ok e) × (name e ≡ k) × Q b t e

  diff_each_lem :
      (base target : Dict D) (ks : List String)
      → ((k : String) → contains ks k ≡ true → Succeeds k (lookup k base) (lookup k target))
      → (es : List E) × (diff_each diff base target ks ≡ ok es)
        × (map name es ≡ ks)
        × All (λ e. Q (lookup (name e) base) (lookup (name e) target) e) es
  unfolding diff_each
  diff_each_lem base target [] h = ([], refl, refl, tt)
  diff_each_lem base target (k ∷ ks) h =
      let (e, built, named, q) = h k (ground (arith, eq_iff k k)) in
      let (es, all_built, names, each) =
        diff_each_lem base target ks (λ j m. h j (ground (arith, eq_iff k j))) in
      (e ∷ es, rw built (rw all_built), cc, (rw named q, each))

  has_key :
      (k : String) (b t : Option D)
      → ((x : D) → b ≡ some x → key x ≡ k)
      → ((x : D) → t ≡ some x → key x ≡ k)
      → (is_some b || is_some t) ≡ true
      → HasKey key k b t
  has_key k none none hb ht h = cc
  has_key k none (some t) hb ht h = ht t refl
  has_key k (some b) none hb ht h = hb b refl
  has_key k (some b) (some t) hb ht h = (hb b refl, ht t refl)

  module _ (set_order : List String → List String) (O : IsSetOrder set_order)
      (total : (k : String) (b t : Option D) → HasKey key k b t → Succeeds k b t)
      (base target : List D) where
    -- The keys that are compared.
    all_keys :
        (k : String)
        → contains (set_order (keys (by_key key [] base) ++ keys (by_key key [] target))) k
          ≡ (is_some (latest key k base) || is_some (latest key k target))
    all_keys k =
        rw
          (
            O.members,
            contains-append,
            contains-keys,
            contains-keys,
            lookup-by_key_nil key k base,
            lookup-by_key_nil key k target,
          )
          refl

    pub diff_all-covers :
        (es : List E) × (diff_all diff set_order key base target ≡ ok es)
        × Distinct (map name es)
        × ((k : String)
            → contains (map name es) k
              ≡ (is_some (latest key k base) || is_some (latest key k target)))
        × All (λ e. Q (latest key (name e) base) (latest key (name e) target) e) es
    unfolding diff_all
    diff_all-covers =
        let (es, built, names, each) =
          diff_each_lem (by_key key [] base) (by_key key [] target)
            (set_order (keys (by_key key [] base) ++ keys (by_key key [] target)))
            (λ k m.
              rw (lookup-by_key_nil key k base, lookup-by_key_nil key k target)
                (total k _ _ (
                  has_key k _ _ (key-latest key k base) (key-latest key k target)
                    (sym (all_keys k) ∙ m)))) in
        (
          es,
          built,
          rw names (O.distinct _),
          λ k. rw names (all_keys k),
          simp lookup-by_key_nil at each,
        )
