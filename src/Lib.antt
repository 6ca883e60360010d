-- ===== src/Lib.antt =====
-- The Cryostat operator: what its controllers and its API do, and why that is right.
--
-- A user describes an installation of Cryostat by a `Cryostat` object. The API has two versions of
-- it, between which the API server converts; the controllers reconcile the cluster with the object:
-- they create and update the objects that the installation needs, and delete those that it needs no
-- more.
--
-- Parts, and the files that model them:
--   Api/V1beta1, Api/V1beta2: the structs of api/v1beta1/cryostat_types.go and
--     api/v1beta2/cryostat_types.go. A pointer, a slice or a map that may be nil is an `Option`, an
--     `int32` an unbounded integer, as no arithmetic is done on it. Types of Kubernetes are the
--     fields of the parameter `Kube` (Api/Kube).
--   Api/Conversion: `ConvertTo` and `ConvertFrom` of api/v1beta1/cryostat_conversion.go. The object
--     that Go writes the result into is the last argument.
--   Common: names, labels, resource requirements of
--     internal/controller/common/common_utils.go and naming.go, `CryostatInstance` of
--     internal/controller/model/instance.go. A map is an association list without repeated keys.
--     SHA-256, FNV-128 and Kubernetes quantities are parameters.
--   Cluster: the calls of the Kubernetes API and of controllerutil, which are no part of the
--     repository, as a record of operations on an unknown state with their documented behaviour as
--     laws; a state and error monad for the code that calls them; the loops over namespaces.
--     Cluster/Recreate is the pattern of objects that cannot be changed in place, Cluster/Apart says
--     that calls for one kind of object leave another alone, Cluster/Self is the status and the
--     events of the `Cryostat` object. Cluster/Memory obeys the laws.
--   Controller: internal/controller.
--     Controller/Rbac: rbac.go, with the role bindings of the target namespaces in Rbac and
--       Rbac/Namespaces, the service account and the legacy role in Rbac/ServiceAccount, the cluster
--       role binding in Rbac/ClusterBinding, and `reconcileRBAC` and `finalizeRBAC` in Rbac/All.
--       Rbac/Rounds has sequences of reconciliations of the access rights and edits between them.
--     Controller/PerNamespace: what role bindings and callback services share, one object for each
--       target namespace, by `toDelete` of rbac.go (Controller/Namespaces).
--     Controller/ServiceConfig, Controller/ServiceObject, Controller/Services: the settings, the
--       objects and the reconciliation of services.go.
--     Controller/Secrets: secrets.go. The generated passwords are arguments; what the API server
--       makes of `stringData` is the parameter `admit`.
--     Controller/ConfigMaps: configmaps.go. The execution of the nginx template, the encoding as
--       JSON and `path.Join` are the parameter `Formats`.
--     Controller/VolumeClaims: pvc.go. Quantities and the fields of a claim's specification are the
--       parameter `ClaimSpecs`.
--     Controller/Conditions: the conditions of the status and `configureTLS` of reconciler.go.
--     Controller/Hashes: `AnnotateWithObjRefHashes` of common/common_utils.go. `json.Marshal` and the
--       checksums are parameters, and so are the fields of a pod's specification that it reads.
--     Controller/Deployments: `createOrUpdateDeployment` of reconciler.go. Controller/FsGroup:
--       `getFSGroup`. Controller/Policies: networkpolicy.go without the policies of the core.
--     Controller/Templates: the deployments of the report generator, the database and the storage, of
--       common/resource_definitions/resource_definitions.go; their pods' specifications are arguments.
--     Controller/Reports: `reconcileReports` of reconciler.go. The pods' specification that
--       `NewPodForReports` builds is a parameter, in `ReportsCalls`.
--     Controller/Reconciler: `reconcileCryostat`, `finalizeCryostat` and `Reconcile` of reconciler.go
--       and cryostat_controller.go: the order of the calls and the handling of errors, over the
--       interface `Steps` of the methods that they call, of which nothing is assumed.
--     Controller/Watch: `mapFromTargetNamespace` of reconciler.go, which finds the installation of an
--       object in a target namespace.
--     An object's owner references are the parameter `Ownership` of Cluster. A dereference of a nil
--     pointer is an error of its own.
--   Webhook/Admission: the defaults and the validation of Cryostat objects of
--     internal/webhook/v1beta2; the API's answer to an access review is a parameter.
--   Webhook/Agent: internal/webhook/agent, the settings that a pod's labels give to its agent and
--     the Java options that start it; `strconv.ParseInt` and `ParseBool` are in Prelude/Strconv.
--   Webhook/Deployment: the labels that a deployment hands on to its pods. Durations and quantities
--     are parsed by parameters; their conversion to `int32` is written out (Prelude/Int).
-- Examples holds concrete values that the modules of tests share.
--
-- Fuel: `createOrUpdateRoleBinding`, `createOrUpdateClusterRoleBinding`, `createOrUpdateConfigMap` and
-- `createOrUpdateDeployment` call themselves after they have deleted an object that cannot be changed
-- in place. The model bounds this by fuel, of which two rounds are enough (Cluster/Recreate).
--
-- Go ranges over a map in any order; the model in the order of the source. Where a method writes the
-- instance's status, the model returns the instance with it.
--
-- A URL holds its host and its port apart, where Go prints both into `url.URL`'s `Host`.
--
-- Not modelled: the whole mutation of a pod, the certificates, `reconcileDatabase`
-- and `reconcileStorage`, the network policies of the core; the pod templates, the console plugin,
-- routes and ingresses, the manager's start, generated code. The interface `Steps` is not filled by
-- the modelled methods, as several of them are not modelled. Other
-- clients of the cluster that act between two calls are not modelled either, and neither are log
-- messages.
pub mod Prelude
pub mod Api
pub mod Common
pub mod Cluster
pub mod Controller
pub mod Webhook
pub mod Examples
