-- ===== src/Cluster/Getters.antt =====
-- `GetSplit`, `GetDeployment`, `GetConfigMap` and `ListNodes`
-- (operator/controllers/utils/k8s_getters.go).
use oai_k8s.Common.{String, ◌≡◌, Option, none, some}
use oai_k8s.Common.{
  Result, ok, err, panic, hang, out_of_fuel, not_found, wrap, Error, message, node_short,
  link_short, wrap_nil, wrapped, Action,
}

-- A missing object is no error.
abbrev pub absent_or {ℓ} : {A : Type ℓ} → String → Result A → Result (Option A)
absent_or context (ok a) = ok (some a)
absent_or context (err not_found) = ok none
absent_or context (err e) = err (wrap context e)
absent_or context panic = panic
absent_or context hang = hang
absent_or context out_of_fuel = out_of_fuel

abbrev pub get_if_exists {ℓ} :
    {World A : Type ℓ} → String → Action World A → Action World (Option A)
get_if_exists context m w = let (r, w') = m w in (absent_or context r, w')

-- client.IgnoreNotFound, on the error of a call.
abbrev pub ignore_not_found {ℓ} : {B : Type ℓ} → B → Error → Result B
ignore_not_found b not_found = ok b
ignore_not_found b e = err e

-- Where a getter finds an object, the client's call gave it.
pub absent_or-eq-some {ℓ} :
    {A : Type ℓ} (c d : String) (r : Result A) {a : A}
    → wrapped c (absent_or d r) ≡ ok (some a)
    → r ≡ ok a
absent_or-eq-some c d (ok b) h = cc
absent_or-eq-some c d (err (message s)) h = cc
absent_or-eq-some c d (err (node_short x y)) h = cc
absent_or-eq-some c d (err (link_short s)) h = cc
absent_or-eq-some c d (err not_found) h = cc
absent_or-eq-some c d (err (wrap s e)) h = cc
absent_or-eq-some c d (err (wrap_nil s)) h = cc
absent_or-eq-some c d panic h = cc
absent_or-eq-some c d hang h = cc
absent_or-eq-some c d out_of_fuel h = cc
