-- ===== src/Cli/Shared.antt =====
-- cmd/frkrctl/cli_shared.go and k8s_util.go: the namespace, and the Kubernetes client.
pub mod Namespace
use frkr_operator.Base.{String, ◌==◌, not, some, if◌then◌else◌}
use frkr_operator.Base.Go.{Error, made, wrapped, ok, fail, pure, return, ◌>>=◌, ◌>>◌}
use frkr_operator.Platform.{Platform}
use frkr_operator.Cli.Session.{Shell, Session, Command, try, look}

abbrev pub no_namespace : Error
no_namespace = made "namespace not specified (use --namespace, context, or FRKR_NAMESPACE)"

module _ (P : Platform) (H : Shell P) where
  -- The variable, else the namespace of the kubeconfig's current context. An empty one is none.
  unfoldable pub get_namespace : Command P String
  get_namespace =
      if not (P.getenv "FRKR_NAMESPACE" == "") then pure (P.getenv "FRKR_NAMESPACE") else (do
        found ← look P H.kubeconfig_namespace
        elim found [
          | fail e ↦ return (some no_namespace)
          | ok namespace ↦ if namespace == "" then return (some no_namespace) else pure namespace
        ])

  unfoldable pub get_k8s_client : Command P (Unit {0})
  get_k8s_client = do
    try P H.get_config λ e. return (some (wrapped "failed to get k8s config" e))
    try P H.new_client λ e. return (some (wrapped "failed to create k8s client" e))
    pure tt

  -- The two steps that every command but those on metrics begins with.
  abbrev pub connect : Command P String
  connect = do get_k8s_client; get_namespace
