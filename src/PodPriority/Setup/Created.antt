-- ===== src/PodPriority/Setup/Created.antt =====
-- When createPriorityClass succeeds, the API server holds the classes of the list.
use admission_controller.Base.{
  String, true, Option, none, some, List, [], ◌∷◌, Error, ok, err, ◌≡◌, ◌≢◌, refl, sym, ◌∙◌, All,
  arith, ne_of_==,
}
use mathlib.Core.Path.{subst}
use admission_controller.PodPriority.Classes.{
  PreCreatePriorityClass, pre_create_priority_class_list,
}
use admission_controller.PodPriority.Setup.{
  PriorityClass, PriorityClasses, create_pc, ensure, ensure_all, create_priority_class,
}

-- What the program relies on: `stored` is the class that a name stands for. Reading changes
-- nothing, a successful write stores its object and touches no other name, and a failed write
-- touches nothing.
pub record Stores (client : PriorityClasses) : Type 0 where
  pub stored : client.State → String → Option PriorityClass
  pub stored-get : (n k : String) (w : client.State) → stored (client.get n w).1 k ≡ stored w k
  pub stored-create :
      (c : PriorityClass) (w : client.State)
      → (client.create c w).0 ≡ none
      → stored (client.create c w).1 c.name ≡ some c
  pub stored-update :
      (c : PriorityClass) (w : client.State)
      → (client.update c w).0 ≡ none
      → stored (client.update c w).1 c.name ≡ some c
  pub create_others :
      (c : PriorityClass) (w : client.State) (k : String)
      → k ≢ c.name
      → stored (client.create c w).1 k ≡ stored w k
  pub update_others :
      (c : PriorityClass) (w : client.State) (k : String)
      → k ≢ c.name
      → stored (client.update c w).1 k ≡ stored w k

-- No two entries have the same name.
abbrev pub Distinct : List PreCreatePriorityClass → Type 0
Distinct [] = Unit
Distinct (p ∷ ps) = All (λ (q : PreCreatePriorityClass). p.name ≢ q.name) ps × Distinct ps

list-Distinct : Distinct pre_create_priority_class_list
list-Distinct = (
  (ne_of_== _ _ refl, (ne_of_== _ _ refl, (ne_of_== _ _ refl, (ne_of_== _ _ refl, tt)))),
  (
    (ne_of_== _ _ refl, (ne_of_== _ _ refl, (ne_of_== _ _ refl, tt))),
    ((ne_of_== _ _ refl, (ne_of_== _ _ refl, tt)), ((ne_of_== _ _ refl, tt), (tt, tt))),
  ),
)

module _ (client : PriorityClasses) (server : Stores client) where
  open client use {State}
  open server use {stored, stored-get, stored-create, stored-update, create_others, update_others}

  ensure-stored :
      (p : PreCreatePriorityClass) (w : State)
      → (ensure client p w).0 ≡ none
      → stored (ensure client p w).1 p.name ≡ some (create_pc p)
  unfolding ensure
  ensure-stored p w h = ground (
    arith,
    stored-create (create_pc p) (client.get p.name w).1,
    stored-update (create_pc p) (client.get p.name w).1,
  )

  ensure_others :
      (p : PreCreatePriorityClass) (w : State) (k : String)
      → k ≢ p.name
      → stored (ensure client p w).1 k ≡ stored w k
  unfolding ensure
  ensure_others p w k h = ground (
    arith,
    stored-get p.name k w,
    create_others (create_pc p) (client.get p.name w).1 k h,
    update_others (create_pc p) (client.get p.name w).1 k h,
  )

  ensure_all_others :
      (ps : List PreCreatePriorityClass) (w : State) (k : String)
      → All (λ (q : PreCreatePriorityClass). k ≢ q.name) ps
      → stored (ensure_all client ps w).1 k ≡ stored w k
  unfolding ensure_all
  ensure_all_others [] w k h = refl
  ensure_all_others (p ∷ ps) w k h =
      ground (arith, ensure_others p w k h.0, ensure_all_others ps (ensure client p w).1 k h.1)

  ensure_all-cons :
      (p : PreCreatePriorityClass) (ps : List PreCreatePriorityClass) (w : State)
      → (ensure client p w).0 ≡ none
      → ensure_all client (p ∷ ps) w ≡ ensure_all client ps (ensure client p w).1
  unfolding ensure_all
  ensure_all-cons p ps w e = rw (e, ensure_all)

  ensure_all-none :
      (p : PreCreatePriorityClass) (ps : List PreCreatePriorityClass) (w : State)
      → (ensure_all client (p ∷ ps) w).0 ≡ none
      → (ensure client p w).0 ≡ none
  unfolding ensure_all
  ensure_all-none p ps w h = ground arith

  -- The state holds the classes of the entries, as they are there.
  abbrev pub Holds : State → List PreCreatePriorityClass → Type 0
  Holds w = All λ (q : PreCreatePriorityClass). stored w q.name ≡ some (create_pc q)

  ensure_all-stored :
      (ps : List PreCreatePriorityClass) (w : State)
      → Distinct ps
      → (ensure_all client ps w).0 ≡ none
      → Holds (ensure_all client ps w).1 ps
  ensure_all-stored [] w d h = tt
  ensure_all-stored (p ∷ ps) w d h =
      let e = ensure_all-none p ps w h in
      let w' = (ensure client p w).1 in
      subst (λ (v : Option Error × State). Holds v.1 (p ∷ ps)) (sym (ensure_all-cons p ps w e))
        (
          ensure_all_others ps w' p.name d.0 ∙ ensure-stored p w e,
          ensure_all-stored ps w' d.1 (rw (ensure_all-cons p ps w e) at h),
        )

  -- If createPriorityClass returns no error, the API server holds every class of the list, as it is
  -- there; and whether it does or not, it touches no class of another name.
  pub create_priority_class-stored :
      (w : State)
      → ((create_priority_class client w).0 ≡ none
          → Holds (create_priority_class client w).1 pre_create_priority_class_list)
        × ((k : String)
            → All (λ (q : PreCreatePriorityClass). k ≢ q.name) pre_create_priority_class_list
            → stored (create_priority_class client w).1 k ≡ stored w k)
  unfolding create_priority_class
  create_priority_class-stored w = (
    ensure_all-stored pre_create_priority_class_list w list-Distinct,
    ensure_all_others pre_create_priority_class_list w,
  )

  -- The server answers: a class that is there is found, one that is not is reported as not found;
  -- a class is created under a name that is free, and updated under one that is not.
  pub record IsHealthy : Type 0 where
    pub finds :
        (n : String) (w : State) (c : PriorityClass)
        → stored w n ≡ some c
        → (client.get n w).0 ≡ ok c
    pub reports :
        (n : String) (w : State)
        → stored w n ≡ none
        → (e : Error) × ((client.get n w).0 ≡ err e) × (e.not_found ≡ true)
    pub creates :
        (c : PriorityClass) (w : State) → stored w c.name ≡ none → (client.create c w).0 ≡ none
    pub updates :
        (c : PriorityClass) (w : State) (old : PriorityClass)
        → stored w c.name ≡ some old
        → (client.update c w).0 ≡ none
