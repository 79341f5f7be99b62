-- ===== src/Lib.antt =====
-- A Kubernetes operator for WordPress: one resource, `WordPress`, from which the operator makes a
-- Deployment, Services, claims, Secrets, a MySQL StatefulSet, an Ingress and an autoscaler.
--
-- The parts and their files. The resource and its status (api/v1alpha1/wordpress_types.go) are
-- the records of Api. internal/controller/names.go is Names, defaults.go is Defaults, database.go
-- is Database with Database/Password and Database/Render, resources.go is Resources with
-- Resources/Deployment: pure functions from the resource to the objects. The rest is
-- internal/controller/wordpress_controller.go: validateSpec is Validation; the comparisons, the URL,
-- persistStatus, markFailed and ignoreConflict are Reconciler; applyService is Reconciler/Service,
-- reconcileDatabase Reconciler/Database, reconcilePVC and reconcileWordPressDeployment
-- Reconciler/Site, reconcileIngress and reconcileHPA Reconciler/Exposure, updateStatus
-- Reconciler/Progress, handleDeletion Reconciler/Deletion, and Reconcile itself Reconciler/Loop.
-- A step of the code is a helper named for what it does, with the guards in the code's order; what
-- follows a `Get` is a function of its answer.
--
-- A pass is an action on a state (Cluster/Action): the object in memory, which the code mutates
-- through a pointer, the world, and a list of the writes sent, which only the theorems look at. It
-- ends with a value, an error, or a nil dereference (Kube/Outcome). The API server, the retry loop
-- of client-go, the event recorder, crypto/rand, controllerutil and the conditions of package meta
-- are the record Cluster, whose every call may change the world in any way, since other
-- controllers run at the same time. What a theorem needs of them is a hypothesis of
-- Cluster/Lawful, which states their documentation; Sample is a cluster in memory, at which the
-- theorems are applied.
--
-- The objects of the Kubernetes API (Kube and its children) have the fields that the operator
-- names; all others are one field `rest`, of an unknown type, which is carried along. Types whose
-- values the operator only passes on are parameters with decided equality (Kube). A map is held in
-- the order of its keys (Base/StringMap), so that `reflect.DeepEqual` is equality. A 32-bit integer
-- is an integer: the operator does no arithmetic on them, it compares and prints them.
-- There is no fuel: the code has no loop but those over finite lists and maps, and the retry loop,
-- which is the library's and is described by the runs it may have (`Retried`).
--
-- The process (cmd/main.go, api/v1alpha1/groupversion_info.go and SetupWithManager) is Startup: the
-- flags and the options made from them in Startup/Options, the start of the manager and the
-- watches of the controller in Startup/Manager. controller-runtime, client-go and the packages flag
-- and crypto/tls are the record Runtime of Startup/Library; what the package flag makes of a command
-- line is a hypothesis of Startup/Parsing.
--
-- The generated deep copies (api/v1alpha1/zz_generated.deepcopy.go) are DeepCopy, on a memory of
-- cells (DeepCopy/Heap) in which pointers, slices and maps are references: the structs as they lie
-- in memory in DeepCopy/Structs, the methods DeepCopyInto in DeepCopy/Copies, and DeepCopy and
-- DeepCopyObject in DeepCopy/Objects. DeepCopy/Read gives the value of Api that a struct stands for.
-- The methods of the Kubernetes types are parameters. A slice is the cell of its elements, so its
-- length is its capacity; a new cell is counted when its content is complete. In the reconciler,
-- whose theorems do not depend on sharing, objects are values.
--
-- Beside what a pass may write (Reconciler/Writes, Reconciler/Data) there are the order of its writes
-- (Reconciler/Order), the pass that makes all objects (Reconciler/First), the pass over a site that
-- is up to date (Reconciler/Steady), the steps on objects that exist (Reconciler/Settled) or that
-- they have written (Reconciler/Settles), the pass without the user's Secret (Reconciler/Missing),
-- the delays that a pass asks for (Reconciler/Delays), Services of one key (Reconciler/Overwritten),
-- and the phase and the conditions over any sequence of passes (Reconciler/Coherent).
--
-- Not modelled: log lines and the set-up of the logger, contexts, and the manifests under config.
pub mod Base
pub mod Kube
pub mod Api
pub mod DeepCopy
pub mod Names
pub mod Defaults
pub mod Validation
pub mod Database
pub mod Resources
pub mod Cluster
pub mod Reconciler
pub mod Startup
pub mod Sample
