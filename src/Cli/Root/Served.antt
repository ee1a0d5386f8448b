-- ===== src/Cli/Root/Served.antt =====
-- Every command of the tree does what is asked of it, whatever the command line.
use frkr_operator.Base.{ℕ, String, true, List, [], ◌≡◌, refl}
use frkr_operator.Platform.{Platform}
use frkr_operator.Cli.Session.{Shell}
use frkr_operator.Cli.Metrics.{Value}
use frkr_operator.Base.Text.{first_word}
use frkr_operator.Cli.Cobra.{Cobra}
use frkr_operator.Cli.Cobra.Paths.{Everywhere}
use frkr_operator.Cli.Cobra.Laws.{is_clear, CobraLaws}
use frkr_operator.Cli.Handlers as Handlers
use frkr_operator.Cli.Root.{frkrctl}
use frkr_operator.Cli.Root.Requests as Requests
use frkr_operator.Cli.Root.Requests.{serve}
use frkr_operator.Cli.Root.Serving.{Serves, by_none, by_any, by_one}
use frkr_operator.Cli.Root.Handled.{
  client_create-Serves, user_create-Serves, tenant_get-Serves, stream_create-Serves,
  metrics_enable-Serves, metrics_disable-Serves, metrics_status-Serves,
}

module _ (P : Platform) (C : Cobra P) (L : CobraLaws P C) (H : Shell P) (custom : Value → H.Custom)
    (ticks : ℕ) (input : List String) where
  pub clear : is_clear [] (frkrctl P C H custom ticks input) ≡ true
  unfolding is_clear frkrctl first_word
  clear = refl

  pub all-Serves : Everywhere (Serves P H custom ticks input) [] (frkrctl P C H custom ticks input)
  unfolding serve Handlers.client_list Handlers.user_list Handlers.user_reset_password
      Handlers.user_delete Handlers.tenant_create Handlers.stream_list Handlers.setup Everywhere
      frkrctl first_word
  all-Serves = (
    by_none P H custom ticks input refl,
    (
      (
        by_none P H custom ticks input refl,
        (
          (
            client_create-Serves P C L H custom ticks input refl refl (_, refl) (_, refl) (_, refl),
            tt,
          ),
          (
            (
              by_any P H custom ticks input (λ given. Requests.list_clients) refl
                  Requests.asks_list_clients (λ args given σ typed. refl),
              tt,
            ),
            tt,
          ),
        ),
      ),
      (
        (
          by_none P H custom ticks input refl,
          (
            (metrics_enable-Serves P C L H custom ticks input refl (_, refl), tt),
            (
              (metrics_disable-Serves P C L H custom ticks input refl (_, refl), tt),
              ((metrics_status-Serves P C L H custom ticks input refl (_, refl), tt), tt),
            ),
          ),
        ),
        (
          (
            by_any P H custom ticks input (λ given. Requests.set_up) refl Requests.asks_set_up
                (λ args given σ typed. refl),
            tt,
          ),
          (
            (
              by_none P H custom ticks input refl,
              (
                (
                  stream_create-Serves P C L H custom ticks input refl refl (_, refl) (_, refl)
                      (_, refl),
                  tt,
                ),
                (
                  (
                    by_any P H custom ticks input (λ given. Requests.list_streams) refl
                        Requests.asks_list_streams (λ args given σ typed. refl),
                    tt,
                  ),
                  tt,
                ),
              ),
            ),
            (
              (
                by_none P H custom ticks input refl,
                (
                  (
                    by_one P H custom ticks input (λ a given. Requests.create_tenant a) refl refl
                        Requests.asks_create_tenant (λ a given σ typed. refl),
                    tt,
                  ),
                  ((tenant_get-Serves P C L H custom ticks input refl refl (_, refl), tt), tt),
                ),
              ),
              (
                (
                  by_none P H custom ticks input refl,
                  (
                    (
                      user_create-Serves P C L H custom ticks input refl refl (_, refl) (_, refl)
                          (_, refl),
                      tt,
                    ),
                    (
                      (
                        by_any P H custom ticks input (λ given. Requests.list_users) refl
                            Requests.asks_list_users (λ args given σ typed. refl),
                        tt,
                      ),
                      (
                        (
                          by_one P H custom ticks input (λ a given. Requests.reset_password a) refl
                              refl Requests.asks_reset_password (λ a given σ typed. refl),
                          tt,
                        ),
                        (
                          (
                            by_one P H custom ticks input (λ a given. Requests.delete_user a) refl
                                refl Requests.asks_delete_user (λ a given σ typed. refl),
                            tt,
                          ),
                          tt,
                        ),
                      ),
                    ),
                  ),
                ),
                tt,
              ),
            ),
          ),
        ),
      ),
    ),
  )
