-- ===== src/PodPriority/Setup.antt =====
-- createPriorityClass (pkg/podpriority/main.go): at startup every class of the list is created, or
-- brought up to date. The API server is a parameter.
pub mod Created
use admission_controller.Base.{
  ℤ, String, Bool, not, Option, none, some, List, [], ◌∷◌, Error, Result, ok, err, errorf, concat,
  if◌then◌else◌,
}
use admission_controller.Base.Dict.{Dict}
use admission_controller.PodPriority.Classes.{
  PreCreatePriorityClass, pre_create_priority_class_list,
}

-- scheduling/v1beta1.PriorityClass
pub record PriorityClass : Type 0 where
  pub name : String
  pub annotations : Dict String
  pub value : ℤ
  pub global_default : Bool

-- `clientset.Scheduling().PriorityClasses()`, on a state of the API server
pub record PriorityClasses : Type 1 where
  pub State : Type 0
  pub get : String → State → Result PriorityClass × State
  pub create : PriorityClass → State → Option Error × State
  pub update : PriorityClass → State → Option Error × State

-- the object that is sent for an entry of the list
abbrev pub create_pc : PreCreatePriorityClass → PriorityClass
create_pc p = record {
  name = p.name;
  annotations = ("description", p.description) ∷ [];
  value = p.value;
  global_default = p.global_default;
}

abbrev pub class_error : String → String → Error → Error
class_error what name e =
    errorf (concat (what ∷ " PriorityClass " ∷ name ∷ " err:" ∷ e.message ∷ []))

module _ (client : PriorityClasses) where
  open client use {State, get, create, update}

  create_or_update : PreCreatePriorityClass → Result PriorityClass → State → Option Error × State
  create_or_update p (err e) w =
      if not e.not_found
      then (some (class_error "get" p.name e), w)
      else let (failed, w') = create (create_pc p) w in
        (elim failed [ none ↦ none | some x ↦ some (class_error "create" p.name x) ], w')
  create_or_update p (ok _) w =
      let (failed, w') = update (create_pc p) w in
      (elim failed [ none ↦ none | some x ↦ some (class_error "create" p.name x) ], w')

  -- one round of the loop
  unfoldable pub ensure : PreCreatePriorityClass → State → Option Error × State
  unfolding create_or_update
  ensure p w = let (found, w') = get p.name w in create_or_update p found w'

  -- the loop
  unfoldable pub ensure_all : List PreCreatePriorityClass → State → Option Error × State
  ensure_all [] w = (none, w)
  ensure_all (p ∷ ps) w =
      let (failed, w') = ensure p w in
      elim failed [ some e ↦ (some e, w') | none ↦ ensure_all ps w' ]

  unfoldable pub create_priority_class : State → Option Error × State
  create_priority_class = ensure_all pre_create_priority_class_list
