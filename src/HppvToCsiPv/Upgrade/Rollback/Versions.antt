-- ===== src/HppvToCsiPv/Upgrade/Rollback/Versions.antt =====
-- What the undo action of stepDeleteOldPV does against an API server with resource versions.
use admission_controller.Base.{
  String, false, Option, none, some, List, [], ◌∷◌, ◌++◌, Error, ok, ◌≡◌, ◌≢◌, refl, inl, inr,
  Option-cases, Result-cases,
}
use admission_controller.Api.{PersistentVolume}
use admission_controller.HppvToCsiPv.Upgrade.Cluster.{Cluster}
use admission_controller.HppvToCsiPv.Upgrade.Engine.{Undo, Outcome, recover, add_error}
use admission_controller.HppvToCsiPv.Upgrade.Store.{Stores}
use admission_controller.HppvToCsiPv.Upgrade.Steps.{
  UpdatePipeline, State, undo_delete, delete_old_pv, step_delete_old_pv, with_hostpath_pv,
}

-- Every object that the API server returns has a version, and it creates no object that has one.
pub record Versions (c : Cluster) (st : Stores c) : Type 0 where
  pub get_versioned :
      (n : String) (w : c.World) (pv : PersistentVolume)
      → (c.get n w).0 ≡ ok pv
      → pv.resource_version ≢ ""
  pub create_refuses :
      (pv : PersistentVolume) (w : c.World)
      → pv.resource_version ≢ ""
      → (e : Error) × ((c.create pv w).0 ≡ some e) × (st.stored (c.create pv w).1 ≡ st.stored w)

-- Undo actions that end with an error, wherever they stand among others, are seen in the errors.
module _ {S : Type 0} (u : Undo S) (fails : (s : S) → (e : Error) × ((u false s).0 ≡ some e)) where
  add_error-nonempty : (o : Option Error) (errs : List Error) → errs ≢ [] → add_error o errs ≢ []
  add_error-nonempty none errs h = h
  add_error-nonempty (some e) errs h = λ p. cc

  recover-nonempty :
      (before after : List (Undo S)) (s : S) → (recover false (before ++ u ∷ after) s).0 ≢ []
  unfolding recover
  recover-nonempty [] after s = let (e, f) = fails s in rw (f, recover) λ p. cc
  recover-nonempty (v ∷ before) after s =
      add_error-nonempty (v false s).0 _ (recover-nonempty before after (v false s).1)

module _ (c : Cluster) (st : Stores c) (versions : Versions c st) where
  -- The undo action does not bring the volume back, and says so.
  abbrev pub IsLost : Outcome (State c) → Type 0
  IsLost o =
      (undo : Undo (State c)) × (o.undo ≡ some undo)
      × ((s : State c) → st.stored (undo false s).1.world ≡ st.stored s.world)
      × ((before after : List (Undo (State c))) (s : State c)
          → (recover false (before ++ undo ∷ after) s).0 ≢ [])

  delete_old_pv-IsLost :
      (upl : UpdatePipeline) (pv : PersistentVolume) (s : State c)
      → pv.resource_version ≢ ""
      → (delete_old_pv c upl pv s).0.failure ≡ none
      → IsLost (delete_old_pv c upl pv s).0
  unfolding delete_old_pv undo_delete
  delete_old_pv-IsLost upl pv s version = elim (Option-cases (c.delete_pv upl.pv_name s.world).0) [
    | inr (e, f) ↦ rw (f, delete_old_pv) λ h. absurd cc
    | inl f ↦
        rw (f, delete_old_pv)
          λ h. (
            undo_delete c pv,
            refl,
            (λ s'. (versions.create_refuses pv s'.world version).2),
            recover-nonempty (undo_delete c pv) λ s'.
                let (e, refused, _) = versions.create_refuses pv s'.world version in (e, refused),
          )
  ]

  -- If stepDeleteOldPV has deleted the volume, against an API server that gives every object a version
  -- and creates none that has one, its undo action after a failure changes no stored volume, and
  -- wherever it stands among the undo actions of a run that fails, they report an error.
  pub step_delete_old_pv-IsLost :
      (upl : UpdatePipeline) (s : State c)
      → (step_delete_old_pv c upl s).0.failure ≡ none
      → IsLost (step_delete_old_pv c upl s).0
  unfolding step_delete_old_pv with_hostpath_pv
  step_delete_old_pv-IsLost upl s = elim (Result-cases (c.get upl.pv_name s.world).0) [
    | inr (e, g) ↦ rw (g, with_hostpath_pv) λ h. absurd cc
    | inl (pv, g) ↦ elim (Option-cases pv.host_path) [
      | inl none_path ↦ rw (g, with_hostpath_pv) (rw none_path λ h. absurd cc)
      | inr (p, path) ↦
          rw (g, with_hostpath_pv)
            (rw path (
              delete_old_pv-IsLost upl pv (record s { world = (c.get upl.pv_name s.world).1 })
                (versions.get_versioned upl.pv_name s.world pv g)))
    ]
  ]
