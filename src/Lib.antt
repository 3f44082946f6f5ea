-- ===== src/Lib.antt =====
-- elastic-env-operator, a Kubernetes operator that keeps the environments ("planes") of
-- applications: an SQBApplication describes a service with its hosts and subpaths, an SQBPlane an
-- environment, and an SQBDeployment a version of an application in a plane. The operator makes
-- deployments, services, ingresses, volume claims, virtual services, destination rules and scrapes
-- of them, and writes back which planes and mirrors run.
--
-- Parts and files, with the paths of the repository:
--
-- - Api: api/v1alpha1. Api.Types has the custom resources (a struct is a record, an embedded struct
--   is opened), Api.Core and Api.Meta what they embed of Kubernetes, Api.Merge the methods Merge,
--   Api.Webhook the three validations.
-- - Entity: domain/entity. Entity.Keys has the constants of entity.go. Entity.ConfigMap has the
--   configuration of sqbconfigmap_entity.go: `load_data` and `from_map` are FromMap, and each
--   getter is a function of its name. Entity.ConfigMap.Lifecycle is its life as a step relation,
--   where `ring` is the end of a goroutine that FromMap started. Entity.ConfigMap.Locks has the
--   locks that the methods take, with the documented behaviour of sync.RWMutex.
-- - Util: domain/util/util.go.
-- - Kinds: the objects of Kubernetes, Istio and the monitoring systems, as far as the operator
--   reads or writes them.
-- - Cluster and Operator: what the handlers are given. A `Resource` has the calls of the client for
--   one kind, over an unknown state of the cluster; `Operator` adds the functions of other
--   packages.
-- - Handler: domain/handler. Handler itself has CreateOrUpdate, UpdateStatus, Delete and IsDeleted
--   of handler.go, Handler.Reconcile has HandleReconcile over the interface SQBReconciler. The four
--   reconcilers are Handler.SqbApplication, Handler.SqbDeployment, Handler.SqbPlane and
--   Handler.Deployment.Status (Operate of deployment_handler.go). They call the handlers of the
--   kinds: Handler.Service, Handler.Ingress, Handler.Pvc, Handler.VirtualService (with Routes for
--   the generation and search of routes, Ranges for the order of the planes), Handler.Istio
--   (destination rules and the special virtual service), Handler.Monitoring,
--   Handler.SqbDeploymentList and Handler.Deployment (with Template, Volumes and Scheduling;
--   Written is about what mergo is taken to leave). In each of them `desired` is the object that
--   CreateOrUpdate makes of the one it found, and `create_or_update`, `delete` and `handle` are the
--   methods of these names. Handler.Settings has the questions that several handlers ask of an
--   application or deployment. The handlers of virtual services, of destination rules, of service
--   monitors and of the two gray kinds are modelled, but Operate does not call them: the calls are
--   comments in the source.
-- - Handler.Selection: how the selectors of services and scrapes fit the labels of pods and
--   services.
-- - Handler.Guards, with Handler.Reconcile.Keeping and Handler.Deployment.Status.Keeping: what a
--   reconciliation deletes. The absence of a deletion is written as a property of the cluster that
--   all writes and the other deletions keep; Base.Invariants has the rules for each way in which an
--   action is built. Handler.Deployment.Status.Storing is about what the cluster holds afterwards.
-- - Handler.Serving, Handler.Running and Handler.Marking: what a reconciliation leaves in the
--   cluster. Cluster.Stores is what the server is taken to promise: an object that was accepted is
--   read back, as far as `view` shows it (the names and numbers of ports, the number of replicas or
--   one, since the server fills in what a port or a deployment does not say), writes touch no
--   object of another name, and the calls for one kind leave another kind. Cluster.Answers is a
--   server that answers each call. Handler.Writing has what the shared CreateOrUpdate and Delete do
--   with such a server, and Base.Endings the rules for what holds when an action ends well.
-- - Controllers: controllers. The predicates on events, the reconciliation of the config map and,
--   in Controllers.Requests, the Reconcile methods of the four other controllers.
--   Controllers.Outcomes is about whole requests, from the controller to what is in the cluster
--   when they are done.
-- - System: the runs of the operator, as a step relation on the cluster and the configuration. A
--   step is a request of a controller, a load, the end of a timer, or a write by somebody else.
-- - Startup: main.go. `main` and `set_up` are the sequence of main, over the calls of
--   controller-runtime as a record; Startup.Waiting is initConfig, the goroutine that waits for the
--   configuration.
-- - Clientset: clientset/v1alpha1. Clientset.Rest has the REST client as a record, with requests of
--   which nothing is known; Applications, Deployments and Planes are the three typed clients, and
--   Clientset is client.go.
-- - Base: maps, texts, numbers and effects. Tests: objects and runs.
--
-- How the code is read. A method that may fail is an `Exec`: it takes a state and gives a result (a
-- value, an error or a panic) with the state, which keeps what was written before an error. A
-- reconciler's state is the object, which it changes in place, with the cluster. A map is nil or a
-- list of entries, of which the first with a key counts; `range` visits the entries in the order of
-- the list, so a statement for all maps holds for each order, except where the virtual services are
-- made: there each `range` has an order of its own (Handler.VirtualService.Ranges). int32 and int64
-- fields are integers, with a conversion written out where the code converts; the decimal digits of
-- an index are computed with as much fuel as the number, which is enough. initConfig polls on fuel:
-- 61 polls, since each comes at least a second after the one before and the timer runs for 60
-- seconds (Startup.WaitingLaws). Times count nanoseconds from the election of the leader, `pause`
-- is the time between a test and the `select` behind it, `late` is by how much the goroutine runs
-- later than its channel, and a `select` of two ready channels may take either. All other functions
-- are by structural recursion.
--
-- Parameters, for code that is not in the repository: the client of the cluster (a read does not
-- change the state, and nobody else writes between two calls of one reconciliation), encoding/json,
-- mergo, MD5, the texts of times and of intstr, the finalizers of controllerutil, the REST client
-- of client-go and the manager of controller-runtime. Within a reconciliation the configuration is
-- constant, and a reconciliation is one step of a run. Strings are compared as bytes, and ToLower
-- is for ASCII letters.
--
-- Not modelled: the deep copies (generated), the registration with the scheme, logging, and the
-- set-ups of the reconcilers and the webhook, which only call controller-runtime. Values that the
-- operator only copies (environment variables, host aliases, probes' handlers, resources) stand by
-- a text. A typed client's call that fails gives its error; what it decoded until then is left out.
pub mod Base
pub mod Api
pub mod Entity
pub mod Util
pub mod Startup
pub mod Kinds
pub mod Cluster
pub mod Operator
pub mod Handler
pub mod Controllers
pub mod System
pub mod Clientset
pub mod Tests
