-- ===== src/HppvToCsiPv/Upgrade/Steps/Annotate.antt =====
-- The annotations by which a pipeline claims a volume: how stepCheck writes them and how its undo
-- action takes them away (hostpthpvupdate.go).
use admission_controller.Base.{String, none, some, [], ◌∷◌}
use admission_controller.Base.Dict
use admission_controller.Base.Dict.{Dict}
use admission_controller.Api.{Annotations}

abbrev pub updating_pipeline_name : String
updating_pipeline_name = "io.enndata.hppvtocsipv/updatingPipeline"

abbrev pub updating_pipeline_start_time : String
updating_pipeline_start_time = "io.enndata.hppvtocsipv/updatingPipelineStartTime"

-- `make(map[string]string)` for a nil map
abbrev pub made : Annotations → Dict String
made none = []
made (some m) = m

unfoldable pub claim_annotations : String → String → Annotations → Annotations
claim_annotations pipeline_name now a = some (
    Dict.insert updating_pipeline_start_time now
      (Dict.insert updating_pipeline_name pipeline_name (made a)))

-- a map with no entry becomes nil
abbrev pub nil_if_empty : Dict String → Annotations
nil_if_empty [] = none
nil_if_empty (x ∷ m) = some (x ∷ m)

-- `delete` on a nil map does nothing, and `len` of it is 0.
unfoldable pub release_annotations : Annotations → Annotations
release_annotations a =
    nil_if_empty
      (Dict.delete updating_pipeline_start_time (Dict.delete updating_pipeline_name (made a)))
