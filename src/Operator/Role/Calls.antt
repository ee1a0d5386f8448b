-- ===== src/Operator/Role/Calls.antt =====
-- The calls of the reconcilers, and the ways to build their statements, stay within the role.
use frkr_operator.Base.{String, Bool, true, false, Option, List, [], ◌∷◌, refl, if◌then◌else◌}
use frkr_operator.Base.Go.{
  Error, Outcome, Call, Go, pure, return, settle, attempt, outcome, reads, does, run, ◌>>=◌, ◌>>◌,
}
use frkr_operator.Base.Keeps.{Keeps, Keeps-pure, Keeps-return, Keeps-reads}
use frkr_operator.Base.Moves.{
  Moves, Moves-kept, Moves-settle, Moves-attempt, Moves-if, Moves-run, Moves-bind,
}
use frkr_operator.Api.Access.{Access, permits}
use frkr_operator.Api.Meta.{ObjectKey, Secret}
use frkr_operator.Api.User.{FrkrUser}
use frkr_operator.Api.Client.{FrkrClient}
use frkr_operator.Api.Tenant.{FrkrTenant}
use frkr_operator.Api.Stream.{FrkrStream}
use frkr_operator.Api.Auth.{FrkrAuthConfig}
use frkr_operator.Api.DataPlane.{FrkrDataPlane}
use frkr_operator.Api.Init.{FrkrInit}
use frkr_operator.Operator.Role.{manager_role}
use frkr_operator.Operator.Role.Rules.{Stays, Stays-IsPreorder, Stays-requested}
use frkr_operator.Platform.{Platform}
use frkr_operator.Laws.Access.{AccessLaws}

module _ {S A : Type 0} {log : S → List Access} where
  pub Stays-kept : (m : S → A × S) → Keeps log m → Moves Stays log m
  Stays-kept m k = Moves-kept Stays-IsPreorder m k

  pub Stays-same : (a : A) → Moves Stays log (λ s. (a, s))
  Stays-same a = record { at = λ s h. h }

  pub Stays-choice :
      (b : Bool) (m n : S → A × S)
      → Moves Stays log m
      → Moves Stays log n
      → Moves Stays log (if b then m else n)
  Stays-choice true m n km kn = km
  Stays-choice false m n km kn = kn

module _ {S Ret A : Type 0} {log : S → List Access} where
  pub Stays-pure : (a : A) → Moves Stays log (pure {R = Ret} a)
  Stays-pure a = Moves-kept Stays-IsPreorder _ (Keeps-pure a)

  pub Stays-return : (r : Ret) → Moves Stays log (return {A = A} r)
  Stays-return r = Moves-kept Stays-IsPreorder _ (Keeps-return r)

  pub Stays-reads : (f : S → A) → Moves Stays log (reads {R = Ret} f)
  Stays-reads f = Moves-kept Stays-IsPreorder _ (Keeps-reads f)

  pub Stays-outcome :
      (call : Call S A) → Moves Stays log call → Moves Stays log (outcome {R = Ret} call)
  unfolding outcome
  Stays-outcome call k = record { at = k.at }

  pub Stays-does : (f : S → A × S) → Moves Stays log f → Moves Stays log (does {R = Ret} f)
  unfolding does
  Stays-does f k = record { at = k.at }

  pub Stays-settle :
      (out : Outcome A) (handler : Error → Go S Ret A)
      → ((e : Error) → Moves Stays log (handler e))
      → Moves Stays log (settle out handler)
  Stays-settle = Moves-settle Stays-IsPreorder

  pub Stays-attempt :
      (call : Call S A) (handler : Error → Go S Ret A)
      → Moves Stays log call
      → ((e : Error) → Moves Stays log (handler e))
      → Moves Stays log (attempt call handler)
  Stays-attempt = Moves-attempt Stays-IsPreorder

  pub Stays-if :
      (b : Bool) (m n : Go S Ret A)
      → Moves Stays log m
      → Moves Stays log n
      → Moves Stays log (if b then m else n)
  Stays-if = Moves-if Stays-IsPreorder

module _ {S Ret : Type 0} {log : S → List Access} where
  pub Stays-run : (m : Go S Ret Ret) → Moves Stays log m → Moves Stays log (run m)
  Stays-run = Moves-run Stays-IsPreorder

module _ {S Ret A B : Type 0} {log : S → List Access} where
  pub Stays-bind :
      (m : Go S Ret A) (f : A → Go S Ret B)
      → Moves Stays log m
      → ((a : A) → Moves Stays log (f a))
      → Moves Stays log (m >>= f)
  Stays-bind = Moves-bind Stays-IsPreorder

  pub Stays-then :
      (m : Go S Ret A) (n : Go S Ret B)
      → Moves Stays log m
      → Moves Stays log n
      → Moves Stays log (m >> n)
  Stays-then m n km kn = Stays-bind m (λ _. n) km (λ _. kn)

pub ruleset stays_rules = (
  Stays-pure, Stays-return, Stays-reads, Stays-outcome, Stays-does, Stays-settle, Stays-attempt,
  Stays-if, Stays-run, Stays-bind, Stays-then,
)

module _ (P : Platform) (A : AccessLaws P) where
  pub users_get-Stays : (k : ObjectKey) → Moves Stays A.log (P.users.get k)
  unfolding manager_role permits
  users_get-Stays k =
      Stays-requested "frkr.io" "frkrusers" ("get" ∷ "list" ∷ "watch" ∷ []) _ (A.users.get k) refl

  pub users_update_status-Stays : (t : FrkrUser) → Moves Stays A.log (P.users.update_status t)
  unfolding manager_role permits
  users_update_status-Stays t =
      Stays-requested "frkr.io" "frkrusers/status" ("update" ∷ []) _ (A.users.update_status t) refl

  pub clients_get-Stays : (k : ObjectKey) → Moves Stays A.log (P.clients.get k)
  unfolding manager_role permits
  clients_get-Stays k =
      Stays-requested "frkr.io" "frkrclients" ("get" ∷ "list" ∷ "watch" ∷ []) _ (A.clients.get k)
        refl

  pub clients_update_status-Stays : (t : FrkrClient) → Moves Stays A.log (P.clients.update_status t)
  unfolding manager_role permits
  clients_update_status-Stays t =
      Stays-requested "frkr.io" "frkrclients/status" ("update" ∷ []) _ (A.clients.update_status t)
        refl

  pub tenants_get-Stays : (k : ObjectKey) → Moves Stays A.log (P.tenants.get k)
  unfolding manager_role permits
  tenants_get-Stays k =
      Stays-requested "frkr.io" "frkrtenants" ("get" ∷ "list" ∷ "watch" ∷ []) _ (A.tenants.get k)
        refl

  pub tenants_update_status-Stays : (t : FrkrTenant) → Moves Stays A.log (P.tenants.update_status t)
  unfolding manager_role permits
  tenants_update_status-Stays t =
      Stays-requested "frkr.io" "frkrtenants/status" ("update" ∷ []) _ (A.tenants.update_status t)
        refl

  pub streams_get-Stays : (k : ObjectKey) → Moves Stays A.log (P.streams.get k)
  unfolding manager_role permits
  streams_get-Stays k =
      Stays-requested "frkr.io" "frkrstreams" ("get" ∷ "list" ∷ "watch" ∷ []) _ (A.streams.get k)
        refl

  pub streams_update_status-Stays : (t : FrkrStream) → Moves Stays A.log (P.streams.update_status t)
  unfolding manager_role permits
  streams_update_status-Stays t =
      Stays-requested "frkr.io" "frkrstreams/status" ("update" ∷ []) _ (A.streams.update_status t)
        refl

  pub auth_configs_get-Stays : (k : ObjectKey) → Moves Stays A.log (P.auth_configs.get k)
  unfolding manager_role permits
  auth_configs_get-Stays k =
      Stays-requested "frkr.io" "frkrauthconfigs" ("get" ∷ "list" ∷ "watch" ∷ []) _
        (A.auth_configs.get k) refl

  pub auth_configs_update_status-Stays :
      (t : FrkrAuthConfig) → Moves Stays A.log (P.auth_configs.update_status t)
  unfolding manager_role permits
  auth_configs_update_status-Stays t =
      Stays-requested "frkr.io" "frkrauthconfigs/status" ("update" ∷ []) _
        (A.auth_configs.update_status t) refl

  pub data_planes_get-Stays : (k : ObjectKey) → Moves Stays A.log (P.data_planes.get k)
  unfolding manager_role permits
  data_planes_get-Stays k =
      Stays-requested "frkr.io" "frkrdataplanes" ("get" ∷ "list" ∷ "watch" ∷ []) _
        (A.data_planes.get k) refl

  pub data_planes_update_status-Stays :
      (t : FrkrDataPlane) → Moves Stays A.log (P.data_planes.update_status t)
  unfolding manager_role permits
  data_planes_update_status-Stays t =
      Stays-requested "frkr.io" "frkrdataplanes/status" ("update" ∷ []) _
        (A.data_planes.update_status t) refl

  pub inits_get-Stays : (k : ObjectKey) → Moves Stays A.log (P.inits.get k)
  unfolding manager_role permits
  inits_get-Stays k =
      Stays-requested "frkr.io" "frkrinits" ("get" ∷ "list" ∷ "watch" ∷ []) _ (A.inits.get k) refl

  pub inits_update_status-Stays : (t : FrkrInit) → Moves Stays A.log (P.inits.update_status t)
  unfolding manager_role permits
  inits_update_status-Stays t =
      Stays-requested "frkr.io" "frkrinits/status" ("update" ∷ []) _ (A.inits.update_status t) refl

  pub users_list-Stays : (ns : Option String) → Moves Stays A.log (P.users.list ns)
  unfolding manager_role permits
  users_list-Stays ns =
      Stays-requested "frkr.io" "frkrusers" ("get" ∷ "list" ∷ "watch" ∷ []) _ (A.users.list ns) refl

  pub users_delete-Stays : (t : FrkrUser) → Moves Stays A.log (P.users.delete t)
  unfolding manager_role permits
  users_delete-Stays t =
      Stays-requested "frkr.io" "frkrusers" ("delete" ∷ []) _ (A.users.delete t) refl

  pub data_planes_list-Stays : (ns : Option String) → Moves Stays A.log (P.data_planes.list ns)
  unfolding manager_role permits
  data_planes_list-Stays ns =
      Stays-requested "frkr.io" "frkrdataplanes" ("get" ∷ "list" ∷ "watch" ∷ []) _
        (A.data_planes.list ns) refl

  pub secrets_get-Stays : (k : ObjectKey) → Moves Stays A.log (P.secrets.get k)
  unfolding manager_role permits
  secrets_get-Stays k =
      Stays-requested "core" "secrets" ("get" ∷ "list" ∷ "watch" ∷ []) _ (A.secrets.get k) refl

  pub secrets_create-Stays : (t : Secret) → Moves Stays A.log (P.secrets.create t)
  unfolding manager_role permits
  secrets_create-Stays t =
      Stays-requested "core" "secrets" ("create" ∷ []) _ (A.secrets.create t) refl

  pub secrets_update-Stays : (t : Secret) → Moves Stays A.log (P.secrets.update t)
  unfolding manager_role permits
  secrets_update-Stays t =
      Stays-requested "core" "secrets" ("update" ∷ []) _ (A.secrets.update t) refl

  pub deployments_get-Stays : (k : ObjectKey) → Moves Stays A.log (P.deployments.get k)
  unfolding manager_role permits
  deployments_get-Stays k =
      Stays-requested "apps" "deployments" ("get" ∷ "list" ∷ "watch" ∷ []) _ (A.deployments.get k)
        refl
