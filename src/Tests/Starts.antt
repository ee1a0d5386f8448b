-- ===== src/Tests/Starts.antt =====
-- Runs of the start of the operator.
use frkr_operator.Base.{String, Option, none, some, List, [], ◌∷◌, ◌++◌, map, ◌≡◌, refl, ap}
use mathlib.Core.Path.{subst}
use frkr_operator.Copy.Roots.{Root}
use frkr_operator.Base.Go.{Outcome, ok, fail, ◌>>=◌}
use frkr_operator.Infra.Config.{InfraConfig, get_config_from_env}
use frkr_operator.Infra.Database.{Db, connect_infra_db}
use frkr_operator.Controller.Setup.{
  Reconciler, user_reconciler, client_reconciler, tenant_reconciler, stream_reconciler,
  auth_config_reconciler, data_plane_reconciler, init_reconciler, Manager, setup_controllers,
}
use frkr_operator.Operator.{Runtime, default_flags, exit_success, main}
use frkr_operator.Operator.Registered.{RuntimeLaws, five, with_database, main_registers}
use frkr_operator.Tests.Memory.Watches.{
  Watch, watch_users, watch_clients, watch_tenants, watch_streams, watch_auth_configs,
  watch_data_planes, watch_inits,
}
use frkr_operator.Tests.Samples.{P, empty_world}

abbrev handle_of : Option (Db P) → Option String
handle_of none = none
handle_of (some d) = some d.handle

abbrev db_of : Option String → Option (Db P)
db_of none = none
db_of (some h) = some (record { handle = h })

abbrev note : Reconciler P → Watch
note (user_reconciler r) = watch_users (handle_of r.db)
note (client_reconciler r) = watch_clients (handle_of r.db)
note (tenant_reconciler r) = watch_tenants (handle_of r.db)
note (stream_reconciler r) = watch_streams (handle_of r.db) r.kafka_admin
note auth_config_reconciler = watch_auth_configs
note data_plane_reconciler = watch_data_planes
note init_reconciler = watch_inits

abbrev noted : Watch → Reconciler P
noted (watch_users d) = user_reconciler (record { db = db_of d })
noted (watch_clients d) = client_reconciler (record { db = db_of d })
noted (watch_tenants d) = tenant_reconciler (record { db = db_of d })
noted (watch_streams d k) = stream_reconciler (record { db = db_of d; kafka_admin = k })
noted watch_auth_configs = auth_config_reconciler
noted watch_data_planes = data_plane_reconciler
noted watch_inits = init_reconciler

db_of-handle_of : (d : Option (Db P)) → db_of (handle_of d) ≡ d
db_of-handle_of none = refl
db_of-handle_of (some d) = refl

noted-note : (r : Reconciler P) → noted (note r) ≡ r
noted-note (user_reconciler r) =
    ap (λ d. user_reconciler (record { db = d })) (db_of-handle_of r.db)
noted-note (client_reconciler r) =
    ap (λ d. client_reconciler (record { db = d })) (db_of-handle_of r.db)
noted-note (tenant_reconciler r) =
    ap (λ d. tenant_reconciler (record { db = d })) (db_of-handle_of r.db)
noted-note (stream_reconciler r) =
    ap (λ d. stream_reconciler (record { db = d; kafka_admin = r.kafka_admin }))
      (db_of-handle_of r.db)
noted-note auth_config_reconciler = refl
noted-note data_plane_reconciler = refl
noted-note init_reconciler = refl

abbrev entry : Root × Watch → Root × Reconciler P
entry (kind, w) = (kind, noted w)

map-noted :
    (ws : List (Root × Watch)) (kind : Root) (r : Reconciler P)
    → map entry (ws ++ ((kind, note r) ∷ [])) ≡ map entry ws ++ ((kind, r) ∷ [])
map-noted [] kind r = ap (λ x. (kind, x) ∷ []) (noted-note r)
map-noted (w ∷ ws) kind r = ap (λ ys. entry w ∷ ys) (map-noted ws kind r)

abbrev manager : Manager P
manager = record {
  complete = λ kind r s. (ok tt, record s { watches = s.watches ++ ((kind, note r) ∷ []) });
}

abbrev runtime : Runtime P
runtime = record {
  new_manager = λ options s. (ok manager, record s { watches = [] });
  add_healthz_check = λ name s. (ok tt, s);
  add_readyz_check = λ name s. (ok tt, s);
  start = λ s. (ok tt, s);
}

started : (main P runtime default_flags empty_world).0 ≡ exit_success
unfolding main setup_controllers connect_infra_db ◌>>=◌
started = refl

abbrev manager_of : Outcome (Manager P) → Manager P
manager_of (ok mgr) = mgr
manager_of (fail e) = manager

runtime_laws : RuntimeLaws P runtime
runtime_laws = record {
  registered = λ s. map entry s.watches;
  made_empty = λ flags s mgr h. refl;
  made_registers = λ flags s mgr h kind r t done.
      let same : manager ≡ mgr = ap manager_of h in
      subst
        (λ (m : Manager P).
          map entry (m.complete kind r t).1.watches ≡ map entry t.watches ++ ((kind, r) ∷ []))
        same (map-noted t.watches kind r);
  open_keeps = λ driver url. record { at = λ s. refl };
  max_open_keeps = λ d n s. refl;
  max_idle_keeps = λ d n s. refl;
  lifetime_keeps = λ d n s. refl;
  healthz_keeps = λ name. record { at = λ s. refl };
  readyz_keeps = λ name. record { at = λ s. refl };
  start_keeps = record { at = λ s. refl };
}

main_registers_example :
    (mgr : Manager P) × (made : ok manager ≡ ok mgr) × (config : InfraConfig) × (get_config_from_env
        P
      ≡ ok config)
    × (d : Db P) × (runtime_laws.registered (main P runtime default_flags empty_world).1
        ≡ five P runtime runtime_laws default_flags empty_world mgr made config empty_world
          ++ with_database P runtime runtime_laws d)
main_registers_example = main_registers P runtime runtime_laws default_flags empty_world started
