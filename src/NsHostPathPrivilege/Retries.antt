-- ===== src/NsHostPathPrivilege/Retries.antt =====
-- How often getNamespace asks, and what its answer means.
use admission_controller.Base.{
  ℕ, zero, suc, ◌+◌, ◌*◌, ◌≤◌, ◌<◌, String, true, none, some, List, [], ◌∷◌, ◌++◌, Error, ok, err,
  ◌≡◌, ap, ◌⊎◌, ◌↔◌, arith,
}
use admission_controller.Api.{Namespace}
use admission_controller.NsHostPathPrivilege.Lookup.{
  Cluster, Call, get, sleep, millisecond, Found, calls_of, attempts, retry_interval, get_namespace,
}

-- the requests among the calls
abbrev pub requests : List Call → ℕ
requests [] = 0
requests (get name ∷ calls) = suc (requests calls)
requests (sleep d ∷ calls) = requests calls

-- the time slept
abbrev pub slept : List Call → ℕ
slept [] = 0
slept (get name ∷ calls) = slept calls
slept (sleep d ∷ calls) = d + slept calls

module _ (c : Cluster) (name : String) where
  -- The i-th to (i+n-1)-th answers: the first that is not "not found" is this namespace.
  abbrev pub Finds : ℕ → ℕ → Namespace → Type 0
  Finds zero i ns = ⊥
  Finds (suc n) i ns =
      (c.client_get i name ≡ ok ns)
      ⊎ ((e : Error) × (c.client_get i name ≡ err e) × (e.not_found ≡ true)) × Finds n (suc i) ns

  requests-append : (xs ys : List Call) → requests (xs ++ ys) ≡ requests xs + requests ys
  requests-append [] ys = omega arith
  requests-append (get n ∷ xs) ys = omega (arith, requests-append xs ys)
  requests-append (sleep n ∷ xs) ys = requests-append xs ys

  slept-append : (xs ys : List Call) → slept (xs ++ ys) ≡ slept xs + slept ys
  slept-append [] ys = omega arith
  slept-append (get n ∷ xs) ys = slept-append xs ys
  slept-append (sleep n ∷ xs) ys = omega (arith, slept-append xs ys)

  calls_bounds :
      (d i : ℕ) → (requests (calls_of c name d i) ≡ 1) × (slept (calls_of c name d i) ≤ d)
  calls_bounds d zero = (omega arith, omega arith)
  calls_bounds d (suc i) = (ground arith, ground arith)

  attempts-bounds :
      (d n i : ℕ)
      → (requests (attempts c name d n i).1 ≤ n) × (slept (attempts c name d n i).1 ≤ n * d)
  unfolding attempts
  attempts-bounds d zero i = (omega arith, omega arith)
  attempts-bounds d (suc n) i = grind (
    arith,
    attempts-bounds d n (suc i),
    calls_bounds d i,
    requests-append (calls_of c name d i) (attempts c name d n (suc i)).1,
    slept-append (calls_of c name d i) (attempts c name d n (suc i)).1,
  )

  attempts-Finds :
      (d n i : ℕ) (ns : Namespace) → ((attempts c name d n i).0 ≡ (some ns, none)) ↔ Finds n i ns
  unfolding attempts
  attempts-Finds d zero i ns = (λ e. cc (ap (λ (f : Found). f.0) e), λ h. absurd h)
  attempts-Finds d (suc n) i ns = ground (arith, attempts-Finds d n (suc i) ns)

  -- the first round does not sleep
  attempts_first : (d n : ℕ) → slept (attempts c name d (suc n) 0).1 ≤ n * d
  unfolding attempts
  attempts_first d n =
      ground
        (arith, attempts-bounds d n 1, slept-append (calls_of c name d 0) (attempts c name d n 1).1)

  -- getNamespace makes at most three requests, and sleeps less than 400 ms in all, if the random
  -- number is below 100.
  pub get_namespace-bounds :
      c.int63n < 100
      → (requests (get_namespace c name).1 ≤ 3)
        × (slept (get_namespace c name).1 < 400 * millisecond)
  unfolding get_namespace
  get_namespace-bounds h =
      ground (arith, attempts-bounds (retry_interval c) 3 0, attempts_first (retry_interval c) 2)

  -- getNamespace returns a namespace exactly if the lister has it, or reports it as not found and
  -- one of the three answers of the API server is that namespace, after only "not found"s.
  pub get_namespace_iff :
      (ns : Namespace)
      → ((get_namespace c name).0 ≡ (some ns, none)) ↔ (
          (c.lister_get name ≡ ok ns)
          ⊎ ((e : Error) × (c.lister_get name ≡ err e) × (e.not_found ≡ true)) × Finds 3 0 ns)
  unfolding get_namespace
  get_namespace_iff ns = ground (arith, attempts-Finds (retry_interval c) 3 0 ns)
