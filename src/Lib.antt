-- ===== src/Lib.antt =====
-- The frkr operator and its command line tool.
--
-- The operator runs seven reconcilers on a Kubernetes cluster. Each gets an object by its key, asks
-- the database, Kafka or the cluster for what the object's spec wants, writes what came of it into the
-- object's status (users and clients also get a Secret with their credentials), and answers with an
-- error or a delay. frkrctl creates such objects and waits for what the operator makes of them.
--
-- State and calls. Platform is the record of everything the program calls and does not implement:
-- the Kubernetes API, frkr-common, database/sql, kafka-go, the environment and the clock. Its
-- `State` is all that lies outside the program. A call takes the state and gives an `Outcome` (a
-- value or an error) beside the new state, so nothing is assumed of two calls in a row. Laws holds
-- what theorems assume of these calls, each a hypothesis of the theorems that name it, and some
-- modules have such a record of their own; Tests shows, on a platform in memory (Tests.Memory),
-- that each of them can be met. Base.Go writes Go's early returns as do blocks: a statement goes on
-- with a value or has returned; `deferred` is `defer`. Base.Keeps has the rules for what a block
-- leaves alone, and Base.Moves those for what it may do to a part of the state.
--
-- Which module models which file:
--   Api.*                  api/v1/*_types.go, the records of the custom resources
--   Copy.*                 api/v1/zz_generated.deepcopy.go: DeepCopyInto, DeepCopy and DeepCopyObject
--                          of each type, over the types as they lie in memory
--   Infra.Config, Infra.Database, Infra.Kafka
--                          internal/infra/infra.go: GetConfigFromEnv; ConnectInfraDB, EnsureTenant,
--                          CreateStream, GetStream, EnsureUser, EnsureClient; NewKafkaAdmin, CreateTopic
--   Controller.User        internal/controller/user_controller.go, Reconcile
--   Controller.Client      internal/controller/client_controller.go, Reconcile
--   Controller.Tenant      internal/controller/tenant_controller.go, Reconcile
--   Controller.Stream      internal/controller/stream_controller.go, Reconcile and updateStatus
--   Controller.Auth        internal/controller/auth_controller.go, Reconcile
--   Controller.DataPlane   internal/controller/dataplane_controller.go, Reconcile and its two tests
--   Controller.Init        internal/controller/init_controller.go, Reconcile and checkGateways
--   Controller.Pointer     the pointers to the connections in the reconcilers, and their tests for nil
--   Controller.Setup       internal/controller/controllers.go, SetupControllers, and SetupWithManager of
--                          each reconciler
--   Operator               cmd/operator/main.go, main
--   Api.Group              api/v1/groupversion_info.go, and init of each file of types
--   Operator.Scheme        cmd/operator/main.go, init
--   Operator.Vault         the seven reconcilers together, one request after another, over the secrets
--                          of the cluster; Laws.Vault says which secrets each call may write
--   Api.Access             the +kubebuilder:rbac markers, and what a role permits
--   Operator.Role          the role that the markers of the reconcilers describe (Makefile, manifests);
--                          Laws.Access says what each call asks of the Kubernetes API
--   Operator.Panics        the answers of the seven reconcilers to a request
--   Cli.Shared             cmd/frkrctl/cli_shared.go and k8s_util.go
--   Cli.Client, Cli.User, Cli.Tenant, Cli.Stream, Cli.Metrics, Cli.Setup
--                          the files of the same names under cmd/frkrctl
--   Cli.Root, Cli.Handlers cmd/frkrctl/main.go, and of the other files the commands, their init, and
--                          what their handlers take from the arguments and flags
--   Cli.Session            what a command runs in, and the polling loop of the create commands
-- The name of a definition is the name of the function in lower case with underscores. A body of
-- several steps is split, and each part says which; `reconcile` composes them in the order of the code.
-- The children of a module hold its theorems.
-- Controller.Init.Progress follows one object through its reconciliations; what the others do between
-- two of them is an arbitrary function of the state. Repeat, under Controller.Auth and
-- Controller.Tenant, is about a second reconciliation of one object. Cli.User.Waiting,
-- Cli.Client.Issued and Cli.Tenant.Waiting run a command beside the reconciler that it waits for,
-- Cli.Root.Issued and Cli.Root.Shown do so from the command line on, and Cli.Metrics.Follow runs one
-- command after another.
--
-- Command lines. Cli.Cobra has the tree of commands as data, and cobra and pflag as a parameter: how
-- they read a command line, the getters of flags, and Execute. Cli.Cobra.Paths and Cli.Cobra.Laws say
-- what they document: which command a path names, which flags it has and what they stand at, and which
-- invocations are accepted. Cli.Root.Requests says what each command line asks for, apart from the
-- tree. `printed` is what the program prints; what cobra prints is not in it.
--
-- Memory. In Copy, a pointer carries its address and what it points to, and a slice the address of its
-- array and the elements; a copy takes the next free address and gives the next one after it. Two
-- values share memory exactly if they reach an address in common. Everywhere else values are plain,
-- since a get fills an object that its caller owns. Copy.Metav1 has the types of
-- k8s.io/apimachinery, and Copy.Shape.MetaShapes says that their own copies are deep.
--
-- Numbers. A delay (`RequeueAfter`) is a number of nanoseconds. Go's int is `Base.Int.ℤ`: the code
-- only tests it for zero, prints it and hands it on. Polling takes the number of ticks that the select
-- takes before its time-out as an argument; theorems are about every such number. `Base.Text.decimal`
-- has fuel n + 1 for the digits of n, more than their number.
--
-- Not modelled: logging, the parsing of the operator's flags, the help texts of the commands, the
-- retries of controller-runtime, the deletion of owned secrets by Kubernetes, writes through a copy
-- and the capacity of slices. Requests are served one at a time.
pub mod Base
pub mod Api
pub mod Copy
pub mod Platform
pub mod Laws
pub mod Infra
pub mod Controller
pub mod Operator
pub mod Cli
mod Tests
