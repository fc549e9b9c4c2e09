-- ===== src/PodPriority/Classes.antt =====
-- The priority classes of pkg/podpriority/main.go and the choice among them.
use admission_controller.Base.{
  ℤ, pos, String, Bool, false, Option, none, some, List, [], ◌∷◌, Error, errorf, concat, ◌==◌,
  if◌then◌else◌,
}

pub record PreCreatePriorityClass : Type 0 where
  pub name : String
  pub value : ℤ  -- int32
  pub global_default : Bool
  pub description : String

abbrev pub default_class : PreCreatePriorityClass
default_class = record {
  name = "enndata-podpriority-default";
  value = pos 1000;
  global_default = false;
  description = "default PriorityClass";
}

abbrev pub hostpathpv_class : PreCreatePriorityClass
hostpathpv_class = record {
  name = "enndata-podpriority-hostpathpv";
  value = pos 2000;
  global_default = false;
  description = "use hostpath pv but is not critical pod";
}

abbrev pub normal_critical_class : PreCreatePriorityClass
normal_critical_class = record {
  name = "enndata-podpriority-normal-critical";
  value = pos 3000;
  global_default = false;
  description =
      "not use hostpath pv critical pod (scheduler.alpha.kubernetes.io/critical-pod=true)";
}

abbrev pub hostpathpv_critical_class : PreCreatePriorityClass
hostpathpv_critical_class = record {
  name = "enndata-podpriority-hostpathpv-critical";
  value = pos 4000;
  global_default = false;
  description =
      "use hostpath pv and is critical pod(scheduler.alpha.kubernetes.io/critical-pod=true)";
}

abbrev pub systempod_class : PreCreatePriorityClass
systempod_class = record {
  name = "enndata-podpriority-systempod";
  value = pos 5000;
  global_default = false;
  description = "systempod";
}

abbrev pub pre_create_priority_class_list : List PreCreatePriorityClass
pre_create_priority_class_list =
    default_class ∷ hostpathpv_class ∷ normal_critical_class ∷ hostpathpv_critical_class
    ∷ systempod_class ∷ []

abbrev named : PreCreatePriorityClass → Option Error → String × ℤ × Option Error
named p e = (p.name, p.value, e)

unfoldable pub get_priority_class_name_by_pod_type : String → String × ℤ × Option Error
get_priority_class_name_by_pod_type t =
    if t == "default"
    then named default_class none
    else if t == "hostpathpv"
    then named hostpathpv_class none
    else if t == "normal-critical"
    then named normal_critical_class none
    else if t == "hostpathpv-critical"
    then named hostpathpv_critical_class none
    else if t == "systempod"
    then named systempod_class none
    else named default_class (some (errorf (concat ("unknow type " ∷ t ∷ []))))
