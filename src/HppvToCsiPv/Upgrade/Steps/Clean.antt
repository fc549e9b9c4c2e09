-- ===== src/HppvToCsiPv/Upgrade/Steps/Clean.antt =====
-- Releasing a claim gives back the annotations from before it.
use admission_controller.Base.{String, none, some, [], ◌∷◌, ◌≡◌, ap, ◌∙◌}
use admission_controller.Base.Dict
use admission_controller.Base.Dict.{Dict}
use admission_controller.Api.{Annotations}
use admission_controller.HppvToCsiPv.Upgrade.Steps.Annotate.{
  updating_pipeline_name, updating_pipeline_start_time, nil_if_empty, claim_annotations,
  release_annotations,
}

abbrev NoClaim : Dict String → Type 0
NoClaim m =
    (Dict.lookup updating_pipeline_name m ≡ none)
    × (Dict.lookup updating_pipeline_start_time m ≡ none)

-- No map, or a map with an entry and without the two annotations of a claim.
abbrev pub IsClean : Annotations → Type 0
IsClean none = Unit
IsClean (some []) = ⊥
IsClean (some (x ∷ m)) = NoClaim (x ∷ m)

release_map :
    (n now : String) (m : Dict String)
    → NoClaim m
    → Dict.delete updating_pipeline_start_time (
        Dict.delete updating_pipeline_name
          (Dict.insert updating_pipeline_start_time now (Dict.insert updating_pipeline_name n m)))
      ≡ m
release_map n now m (no_name, no_start) =
    Dict.delete_comm updating_pipeline_start_time updating_pipeline_name _
    ∙ ap (Dict.delete updating_pipeline_name)
        (Dict.delete-insert updating_pipeline_start_time now _)
    ∙ Dict.delete_comm updating_pipeline_name updating_pipeline_start_time _
    ∙ ap (Dict.delete updating_pipeline_start_time) (Dict.delete-insert updating_pipeline_name n m)
    ∙ ap (Dict.delete updating_pipeline_start_time)
        (Dict.delete_absent updating_pipeline_name m no_name)
    ∙ Dict.delete_absent updating_pipeline_start_time m no_start

-- Releasing a claim gives back the annotations from before it, if there were none, or some without the
-- two of a claim.
pub release-claim :
    (n now : String) (a : Annotations)
    → IsClean a
    → release_annotations (claim_annotations n now a) ≡ a
unfolding release_annotations claim_annotations
release-claim n now none h = ap nil_if_empty (
    release_map n now []
      (Dict.lookup-nil updating_pipeline_name, Dict.lookup-nil updating_pipeline_start_time))
release-claim n now (some []) h = absurd h
release-claim n now (some (x ∷ m)) h = ap nil_if_empty (release_map n now (x ∷ m) h)
