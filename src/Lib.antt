-- ===== src/Lib.antt =====
-- The admission webhooks of this repository: four Kubernetes admission webhook servers, each an HTTPS
-- server that the API server asks about the creation or the update of an object, and the upgrade of
-- existing host path volumes that one of them runs in the background.
--
-- Parts, and the files that model them:
-- pkg/hostpathpvresource/server.go: a pod with a host path volume gets another scheduler. `admit`
--   and `Serve` are `admit` and `serve` of HostPathPvResource.
-- pkg/nshostpathprivilege/server.go: a pod may use host paths or privileges only if its namespace
--   is annotated so. NsHostPathPrivilege, with `getNamespace` in its child Lookup.
-- pkg/podpriority/server.go and main.go: a pod that names no priority class gets one by its kind.
--   PodPriority; the classes are in Classes, `createPriorityClass` in Setup.
-- pkg/hppvtocsipv/server.go: a new host path volume becomes a CSI volume. HppvToCsiPv, with
--   `GetGuid` in its child Guid.
-- pkg/hppvtocsipv/hostpthpvupdate.go: a pipeline of seven steps with undo actions that replaces an
--   existing host path volume. HppvToCsiPv/Upgrade: `Run` is `run` of Engine, the steps and
--   `createPVUpdatePipeline` are in Steps, and `upgrade` is a pipeline's whole run. The volumes that
--   wait for a pipeline, in `PVUpdateManager.Start`, are in Manager, as a step relation; the
--   interleavings of Start, Stop and the goroutines that Start makes are in Manager/Lifecycle. A
--   specification of the queue, as a line of volumes, is in Manager/Line.
--   Upgrade/Service has both together: the service with its queue, the API server and a pipeline for
--   each volume received, and the loop that empties the channel. In both, the end of the loop at a
--   closed stopCh is a step, which may come whenever the goroutine looks at its channels. What a
--   pipeline leaves of other volumes is in Upgrade/Frame, what it does where its calls succeed in
--   Upgrade/Success, and what its undo actions bring back in Upgrade/Rollback.
-- What the four servers have copies of, the HTTP handler, the responses, the JSON patch and the
--   scan of a pod's volumes, is in Webhook and is used by each of them.
-- How they meet: the API server calls several of them for one object, one after another. Admission
--   has that: the requests as the patches change them, the order of the two servers that change pods,
--   and what nshostpathprivilege answers after them.
-- pkg/common: what the programs share. Common/Registration has the configurations of the webhooks
--   and the functions that register them (config.go), Common/Clients the clients and the TLS
--   configuration (config.go), Common/Certs the files with the certificates (certs.go).
-- pkg/*/main.go: each server's module has a child Main with its flags and its main function; what
--   the four have copies of is in Common/Startup.
-- pkg/utils/metrics: the metric vectors, the admission latencies (admission.go), the timers
--   (metrics.go) and the health check (healthcheck.go) are in Metrics.
-- vendor/k8s.io/api: the objects and messages are in Api, with the fields that the program uses.
-- Base has the shared types, the Boolean tests and the maps; Examples applies the theorems.
--
-- How the code is translated. A Go call with a value and an error is a `Result`, or a pair of options
-- where both may be nil. A pointer that may be nil is an `Option`. `admit` is split where it returns
-- early: `admit` has the guards, `review` what follows. A handler's effects are a list of events, and
-- a nil dereference is the outcome `panicked`. A pipeline's step is a function on a state: the field
-- saveOldPV and the world outside. The slice of undo actions is a stack. A main function is the exit
-- code of its process or the server that it runs; a `glog.Fatal` in what it calls is an error there.
--
-- Parameters. JSON coding, MD5, the patch library with its order, the clock, the random number, the
-- listers, the API server, the volume lookup of extender-scheduler and the functions of
-- kubectl-plugins are arguments, in the records PodCodec, PvCodec, JsonPatch, Transport, Algorithm,
-- Cluster (two of them), PriorityClasses, Configurations, Kube and Files. What the theorems ask of
-- an API server is in the records Stores and IsHealthy (two of each), Versions and Answers, and
-- what they ask of the volume lookup in ReadsNamespace. With no other client writing meanwhile, a
-- volume that is read is the stored one, but for the version and the phase, which are left aside; a
-- write changes its own name only; and a create or an update that fails changes nothing.
-- WaitPVBound may see the volume bound, but with the same source. DeletePv may fail after it has
-- deleted the volume; FailsWhole says of one pipeline's call that it does not. Calls that depend on
-- nodes and controllers (the paths of the quota, its pods, the binding of the new volume) are
-- answered, in the states in which the pipeline makes them, as IsAnswered says. Patching has what
-- lies between two webhooks: the API server, encoding/json, which keeps the pods that have no empty
-- map, and the effect of a patch's operations, one after another; the library's own operations lead
-- to the new object at least where only the scheduler, the class or the priority differ.
--
-- Bounds. All loops are over lists or the characters of a text but for the one of `getNamespace`,
-- which counts down from 3, as the source counts up to it. There is no fuel. Times are natural
-- numbers of nanoseconds: the limits of the pipeline add up to 542 seconds, far below what an int64
-- holds, and a start time in the future gives 0 for the source's negative difference, which no limit
-- lies below either.
--
-- Not modelled: the passing of time in the pause between two pipelines, whose length is modelled,
-- how Prometheus keeps and serves the metrics, the parsing of the flags, the informers, the
-- connections of the HTTP servers, and log messages.
pub mod Base
pub mod Api
pub mod Webhook
pub mod Metrics
pub mod Common
pub mod Admission
pub mod HostPathPvResource
pub mod PodPriority
pub mod NsHostPathPrivilege
pub mod HppvToCsiPv
pub mod Examples
