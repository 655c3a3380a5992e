-- ===== src/Skipper/Filter/Accepted.antt =====
-- When a filter is accepted.
use nfcompose.Shared.{
  String, List, [], ◌∷◌, ◌≡◌, ap, true, contains, Bool-cases, inl, inr, arith, eq_iff,
}
use nfcompose.Shared.Result.{Result, ok, err, validation_error}
use mathlib.Core.Path.{subst}
use nfcompose.Skipper.Filter.Monad.{State}
use nfcompose.Skipper.Filter.{UserDefinedFilter, all_handled, finish_filter}

pub record IsAccepted (result : Result (String × State)) (filter : UserDefinedFilter) : Type 0 where
  pub sql : String
  pub computed : result ≡ ok (sql, filter.state)
  pub handled : all_handled filter.state.keys_overall filter.state.handled_keys ≡ true

pub finish-IsAccepted :
    (result : Result (String × State)) (filter : UserDefinedFilter)
    → finish_filter result ≡ ok filter
    → IsAccepted result filter
unfolding finish_filter
finish-IsAccepted (err e) filter h = absurd (ground (arith, h))
finish-IsAccepted (ok (sql, state)) filter h =
    elim (Bool-cases (all_handled state.keys_overall state.handled_keys)) [
      | inl e ↦
          let same = ap (state_of state) (rw (e, finish_filter) at h) in
          record {
            sql = sql;
            computed = ap (λ s. ok (sql, s)) same;
            handled = subst (λ s. all_handled s.keys_overall s.handled_keys ≡ true) same e;
          }
      | inr e ↦ absurd (err_ok (rw (e, finish_filter) at h))
    ]
  where
    err_ok : ◌≡◌ {A = Result UserDefinedFilter} (err validation_error) (ok filter) → ⊥
    err_ok e = cc

    state_of : State → Result UserDefinedFilter → State
    state_of s (err e) = s
    state_of s (ok f) = f.state

pub all_handled-contains :
    (overall handled : List String) (k : String)
    → all_handled overall handled ≡ true
    → contains overall k ≡ true
    → contains handled k ≡ true
unfolding all_handled
all_handled-contains [] handled k h m = ground (arith, m)
all_handled-contains (x ∷ overall) handled k h m =
    ground (arith, h, m, eq_iff x k, all_handled-contains overall handled k)
