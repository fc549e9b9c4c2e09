-- ===== src/NsHostPathPrivilege/Lookup.antt =====
-- getNamespace (pkg/nshostpathprivilege/server.go): the cached lister first, then at most three
-- requests to the API server.
use admission_controller.Base.{
  ℕ, zero, suc, ◌+◌, ◌*◌, String, true, false, not, Option, none, some, List, [], ◌∷◌, ◌++◌, Error,
  Result, ok, err, ltb, if◌then◌else◌,
}
use admission_controller.Api.{Namespace}

-- The replies of the lister and of the API server, whose i-th answer may differ from the one
-- before, and the value of `rand.Int63n(100)`.
pub record Cluster : Type 0 where
  pub lister_get : String → Result Namespace
  pub client_get : ℕ → String → Result Namespace
  pub int63n : ℕ

-- What getNamespace does meanwhile: requests to the API server, and sleeps in nanoseconds.
pub data Call : Type 0 where
  get : String → Call
  sleep : ℕ → Call

abbrev pub millisecond : ℕ
millisecond = 1000000

abbrev pub num_attempts : ℕ
num_attempts = 3

-- the pair that getNamespace returns
abbrev pub Found : Type 0
Found = Option Namespace × Option Error

module _ (c : Cluster) (name : String) (retry_interval : ℕ) where
  -- the calls of one round
  abbrev pub calls_of : ℕ → List Call
  calls_of i = if ltb 0 i then sleep retry_interval ∷ get name ∷ [] else get name ∷ []

  abbrev pub before : List Call → Found × List Call → Found × List Call
  before calls (found, rest) = (found, calls ++ rest)

  -- The loop, with the rounds that are left and the index of this one.
  unfoldable pub attempts : ℕ → ℕ → Found × List Call
  attempts zero i = ((none, none), [])
  attempts (suc n) i = elim (c.client_get i name) [
    | ok ns ↦ ((some ns, none), calls_of i)
    | err e ↦ elim (not e.not_found) [
      | true ↦ ((none, some e), calls_of i)
      | false ↦ before (calls_of i) (attempts n (suc i))
    ]
  ]

abbrev pub retry_interval : Cluster → ℕ
retry_interval c = (c.int63n + 100) * millisecond

unfoldable pub get_namespace : Cluster → String → Found × List Call
unfolding attempts
get_namespace c name = elim (c.lister_get name) [
  | ok ns ↦ ((some ns, none), [])
  | err e ↦
      if not e.not_found
      then ((none, some e), [])
      else attempts c name (retry_interval c) num_attempts 0
]
