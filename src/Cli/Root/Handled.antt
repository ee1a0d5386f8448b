-- ===== src/Cli/Root/Handled.antt =====
-- The handlers that read flags: each does what is asked of it, if its command declares the flags that
-- it reads.
use frkr_operator.Base.{ℕ, String, some, List, [], ◌∷◌, ◌≡◌, refl}
use frkr_operator.Base.Int.{pos}
use frkr_operator.Platform.{Platform}
use frkr_operator.Cli.Session.{Shell}
use frkr_operator.Cli.Metrics.{Value}
use frkr_operator.Cli.Cobra.{text, number, Flag, Info, Cobra}
use frkr_operator.Cli.Cobra.Laws.{CobraLaws}
use frkr_operator.Cli.Cobra.Flags.{text_given, number_given}
use frkr_operator.Cli.Handlers as Handlers
use frkr_operator.Cli.Root.Requests as Requests
use frkr_operator.Cli.Root.Requests.{serve}
use frkr_operator.Cli.Root.Serving.{Serves, HasFlag, reads_text, reads_number, by_any, by_one}

module _ (P : Platform) (C : Cobra P) (L : CobraLaws P C) (H : Shell P) (custom : Value → H.Custom)
    (ticks : ℕ) (input : List String) {declared : List Flag} {i : Info P} where
  pub client_create-Serves :
      i.run ≡ some (Handlers.client_create P C H custom ticks input)
      → i.args ≡ some 1
      → HasFlag declared "tenant-id" (text "")
      → HasFlag declared "stream-id" (text "")
      → HasFlag declared "secret" (text "")
      → Serves P H custom ticks input ("client" ∷ "create" ∷ []) declared i
  unfolding Handlers.client_create serve
  client_create-Serves e₀ e₁ f₁ f₂ f₃ =
      by_one P H custom ticks input
        (λ a given. Requests.create_client (record {
          client_id = a;
          tenant_id = text_given "tenant-id" "" given;
          stream_id = text_given "stream-id" "" given;
          secret = text_given "secret" "" given;
        }))
        e₀ e₁ Requests.asks_create_client
        (λ a given σ typed.
          rw
            (
              reads_text P C L typed "tenant-id" "" f₁,
              reads_text P C L typed "stream-id" "" f₂,
              reads_text P C L typed "secret" "" f₃,
            )
            refl)

  pub user_create-Serves :
      i.run ≡ some (Handlers.user_create P C H custom ticks input)
      → i.args ≡ some 1
      → HasFlag declared "output" (text "text")
      → HasFlag declared "tenant-id" (text "")
      → HasFlag declared "timeout" (number (pos 90))
      → Serves P H custom ticks input ("user" ∷ "create" ∷ []) declared i
  unfolding Handlers.user_create serve
  user_create-Serves e₀ e₁ f₁ f₂ f₃ =
      by_one P H custom ticks input
        (λ a given.
          Requests.create_user a (text_given "output" "text" given)
            (text_given "tenant-id" "" given) (number_given "timeout" (pos 90) given))
        e₀ e₁ Requests.asks_create_user
        (λ a given σ typed.
          rw
            (
              reads_text P C L typed "output" "text" f₁,
              reads_text P C L typed "tenant-id" "" f₂,
              reads_number P C L typed "timeout" (pos 90) f₃,
            )
            refl)

  pub tenant_get-Serves :
      i.run ≡ some (Handlers.tenant_get P C H custom ticks input)
      → i.args ≡ some 1
      → HasFlag declared "output" (text "text")
      → Serves P H custom ticks input ("tenant" ∷ "get" ∷ []) declared i
  unfolding Handlers.tenant_get serve
  tenant_get-Serves e₀ e₁ f₁ =
      by_one P H custom ticks input
        (λ a given. Requests.get_tenant a (text_given "output" "text" given)) e₀ e₁
        Requests.asks_get_tenant
        (λ a given σ typed. rw (reads_text P C L typed "output" "text" f₁) refl)

  pub stream_create-Serves :
      i.run ≡ some (Handlers.stream_create P C H custom ticks input)
      → i.args ≡ some 1
      → HasFlag declared "tenant-id" (text "")
      → HasFlag declared "description" (text "")
      → HasFlag declared "retention-days" (number (pos 7))
      → Serves P H custom ticks input ("stream" ∷ "create" ∷ []) declared i
  unfolding Handlers.stream_create serve
  stream_create-Serves e₀ e₁ f₁ f₂ f₃ =
      by_one P H custom ticks input
        (λ a given. Requests.create_stream (record {
          stream_name = a;
          tenant_id = text_given "tenant-id" "" given;
          description = text_given "description" "" given;
          retention_days = number_given "retention-days" (pos 7) given;
        }))
        e₀ e₁ Requests.asks_create_stream
        (λ a given σ typed.
          rw
            (
              reads_text P C L typed "tenant-id" "" f₁,
              reads_text P C L typed "description" "" f₂,
              reads_number P C L typed "retention-days" (pos 7) f₃,
            )
            refl)

  pub metrics_enable-Serves :
      i.run ≡ some (Handlers.metrics_enable P C H custom ticks input)
      → HasFlag declared "namespace" (text "frkr")
      → Serves P H custom ticks input ("metrics" ∷ "enable" ∷ []) declared i
  unfolding Handlers.metrics_enable serve
  metrics_enable-Serves e₀ f₁ =
      by_any P H custom ticks input
        (λ given. Requests.enable_metrics (text_given "namespace" "frkr" given)) e₀
        Requests.asks_enable_metrics
        (λ args given σ typed. rw (reads_text P C L typed "namespace" "frkr" f₁) refl)

  pub metrics_disable-Serves :
      i.run ≡ some (Handlers.metrics_disable P C H custom ticks input)
      → HasFlag declared "namespace" (text "frkr")
      → Serves P H custom ticks input ("metrics" ∷ "disable" ∷ []) declared i
  unfolding Handlers.metrics_disable serve
  metrics_disable-Serves e₀ f₁ =
      by_any P H custom ticks input
        (λ given. Requests.disable_metrics (text_given "namespace" "frkr" given)) e₀
        Requests.asks_disable_metrics
        (λ args given σ typed. rw (reads_text P C L typed "namespace" "frkr" f₁) refl)

  pub metrics_status-Serves :
      i.run ≡ some (Handlers.metrics_status P C H custom ticks input)
      → HasFlag declared "namespace" (text "frkr")
      → Serves P H custom ticks input ("metrics" ∷ "status" ∷ []) declared i
  unfolding Handlers.metrics_status serve
  metrics_status-Serves e₀ f₁ =
      by_any P H custom ticks input
        (λ given. Requests.show_metrics (text_given "namespace" "frkr" given)) e₀
        Requests.asks_show_metrics
        (λ args given σ typed. rw (reads_text P C L typed "namespace" "frkr" f₁) refl)
