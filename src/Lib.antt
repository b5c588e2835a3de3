-- ===== src/Lib.antt =====
-- Knative's source for GitLab: a controller that keeps a webhook of a GitLab project in step with a
-- `GitLabSource` resource, an adapter that turns the webhook's requests into CloudEvents, and a
-- `GitLabBinding` resource that mounts a GitLab access token into pods.
--
-- The parts, with the files of this directory and the code that they model:
--
-- Source/ - the API of a GitLabSource, pkg/apis/sources/v1alpha1. Source.Types has the records of
-- gitlabsource_types.go; Source.Status the `Mark…` methods and Source.EventTypes `EventTypes`,
-- `GitLabEventType` and `AsEventSource` of gitlabsource_lifecyle.go.
--
-- Binding/ - the API of a GitLabBinding, pkg/apis/bindings/v1alpha1. Binding.Types has the records
-- and `SetDefaults`; Binding.Validation the `Validate` methods, of both resources; Binding.Status
-- the status; Binding.PodSpec `Do` and `Undo`, with the constants of gitlab/client.go.
--
-- Secret - the getter of Secret values of pkg/secret/secret.go, with its cache.
--
-- Client/ - pkg/client/gitlab/webhook_client.go. Client.Hooks has the options that `Add` and `Edit`
-- build, Client.ProjectUrl `splitGitLabProjectURL`, Client.Webhooks the client and its getter,
-- which calls the Secret getter.
--
-- Adapter/ - pkg/adapter. Adapter.Webhook has `ServeHTTP` and `parse` of webhook.go, Adapter.Events
-- `handleEvent` and `postMessage`, and Adapter.Header `gitlabEventHeaderToEventType` of
-- receive_adapter.go. The handler passes a parsed payload to `handleEvent`. Adapter.Server has
-- `start` and `gracefulShutdown` as the steps of two goroutines, over any answers of the HTTP server;
-- from the start on they take at most five steps.
--
-- Reconciler/ - pkg/reconciler/source/gitlabsource.go. Reconciler.Cluster has the world of an action:
-- the resource, the environment, and the recorded events. Reconciler.Adapter has `resolveSinkURL`
-- and `reconcileAdapter`, Reconciler.Sync `syncWebhook`, and Reconciler.Kind `ReconcileKind` and
-- `FinalizeKind`. The getter of webhook clients is one of the services that the
-- reconciler is given, a parameter that the program fills by that of Client.Webhooks.
--
-- Runtime/ - the generated code around the reconciler,
-- pkg/client/injection/reconciler/sources/v1alpha1/gitlabsource. Runtime.Impl has the interfaces and
-- `reconcilerImpl`, Runtime.New the reconcilers that `NewReconciler` and `NewImpl` make of their
-- options; Runtime.State has state.go, the choice of the method by the leader election;
-- Runtime.Finalizers has `setFinalizerIfFinalizer` and `clearFinalizer`, with merge patches and
-- server-side apply, Runtime.StatusUpdate `updateStatus`, and Runtime.Reconcile `Reconcile`, which
-- calls all of them and the methods of Reconciler.
--
-- Clientset/ - the typed clients of pkg/client/clientset/versioned/typed, as the requests that they
-- send. Clientset.Local has the client of GitLabSources that the runtime
-- calls. Clientset.Config has the
-- constructors of clientset.go and of the clients of the groups.
--
-- Listers/ - pkg/client/listers, which read the caches of the informers.
--
-- Informers/ - pkg/client/informers/externalversions. Informers.Factory has factory.go, a state machine
-- with a step for each call that changes it, and Informers.Groups the groups, the versions, the
-- informers and generic.go, which ask the factory for informers and the clients for lists.
--
-- Injection/ - the folders client and informers of pkg/client/injection: contexts that carry the
-- client, the factories and the informers, over a store of the factories.
--
-- Copies/ - the deep copies of the API types, zz_generated.deepcopy.go of pkg/apis, over the memory of
-- Memory/: a pointer or a slice is an address, and a layout says which value an address stands for.
--
-- Controllers/ - pkg/reconciler/binding/controller.go and cmd/webhook/main.go.
--
-- Fakes/ - the fake clients of pkg/client/clientset/versioned/typed.
--
-- Base, Errors - shared helpers. An action takes a state to a result, which is a value, an error or
-- a panic, and the state behind it, so that what is written before an error stays written.
--
-- Tests/ - the theorems at concrete inputs.
--
-- Code of other projects is a parameter: the condition managers of knative.dev/pkg/apis, its field
-- errors and its sink resolver, the Kubernetes and Knative Serving clients, the GitLab API client and
-- its parser of webhooks, the CloudEvents SDK, `url.Parse`, and `unicode.ToLower` outside ASCII. What
-- is relied on is a law of the record or a named hypothesis. Each call answers from an environment
-- and leaves another one, so nothing is assumed of other writers between two calls.
--
-- All functions are structural recursions or have no recursion: there is no fuel. How often
-- `RetryUpdateConflicts` retries is a number of its documented behaviour. Texts are sequences of code
-- points, where Go has bytes. A Go map that is ranged over is visited in an arbitrary order.
--
-- Not modelled: the I/O of the HTTP server, logging, the wiring of the source's
-- controller and of the main functions, the registration of types, clients and informers, and the
-- waiting of a factory for its goroutines. Outside Copies/ and Injection/ a value of the model is never
-- changed in place, which the deep copies of the program justify.
pub mod Base
pub mod Errors
pub mod Source
pub mod Binding
pub mod Secret
pub mod Client
pub mod Adapter
pub mod Reconciler
pub mod Runtime
pub mod Controllers
pub mod Clientset
pub mod Listers
pub mod Memory
pub mod Informers
pub mod Injection
pub mod Copies
pub mod Fakes
pub mod Tests
