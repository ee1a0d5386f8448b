-- ===== src/Operator/Role/Others.antt =====
-- The reconcilers of tenants, data planes, streams and auth configurations stay within the role.
use frkr_operator.Base.{
  String, Option, none, some, List, [], ◌∷◌, ◌≡◌, inl, inr, arith, Bool, true, false, if◌then◌else◌,
}
use frkr_operator.Base.Go.{pure, Outcome-cases}
use frkr_operator.Base.Int.{ℤ}
use frkr_operator.Base.Moves.{Moves}
use frkr_operator.Base.Keeps.{Keeps, keeps_rules}
use frkr_operator.Api.Meta.{NamespacedName, Verdict}
use frkr_operator.Api.User.{FrkrUser}
use frkr_operator.Api.Stream.{FrkrStream}
use frkr_operator.Platform.{Platform}
use frkr_operator.Laws.Access.{AccessLaws}
use frkr_operator.Infra.Database.{Db, ensure_tenant, create_stream}
use frkr_operator.Infra.Kafka.{KafkaAdmin, create_topic}
use frkr_operator.Controller.Tenant as Tenant
use frkr_operator.Controller.Stream as Stream
use frkr_operator.Controller.Auth as Auth
use frkr_operator.Controller.DataPlane as DataPlane
use frkr_operator.Operator.Role.{IsWithin}
use frkr_operator.Operator.Role.Rules.{Stays}
use frkr_operator.Operator.Role.Calls.{
  stays_rules, Stays-kept, Stays-then, tenants_get-Stays, tenants_update_status-Stays,
  streams_get-Stays, streams_update_status-Stays, auth_configs_get-Stays,
  auth_configs_update_status-Stays, data_planes_get-Stays, data_planes_update_status-Stays,
  users_list-Stays, users_delete-Stays,
}

module _ (P : Platform) (A : AccessLaws P) where
  pub ensure_tenant-Stays :
      (db : Db P) (name : String) → Moves Stays A.log (ensure_tenant P db name)
  unfolding ensure_tenant
  ensure_tenant-Stays db name = search (stays_rules, Stays-kept, A.tenant_row) depth 7

  tenant-ensure-Stays :
      (db : Option (Db P)) (name : String) → Moves Stays A.log (Tenant.ensure P db name)
  unfolding Tenant.ensure
  tenant-ensure-Stays none name = search stays_rules
  tenant-ensure-Stays (some db) name = search (stays_rules, ensure_tenant-Stays) depth 7

  pub tenant-Stays :
      (r : Tenant.TenantReconciler P) (req : NamespacedName)
      → Moves Stays A.log (Tenant.reconcile P r req)
  unfolding Tenant.reconcile
  tenant-Stays r req =
      search
        (stays_rules, tenant-ensure-Stays, tenants_get-Stays P A, tenants_update_status-Stays P A)
        depth 9

  pub plane-Stays : (req : NamespacedName) → Moves Stays A.log (DataPlane.reconcile P req)
  unfolding DataPlane.reconcile
  plane-Stays req =
      search (stays_rules, data_planes_get-Stays P A, data_planes_update_status-Stays P A) depth 9

  create_topic-Keeps :
      (k : KafkaAdmin) (topic : String) (n m : ℤ) → Keeps A.log (create_topic P k topic n m)
  unfolding create_topic
  create_topic-Keeps k topic n m =
      search (keeps_rules, A.dial, A.controller, A.create_topics, A.close) depth 9

  create_stream-Stays :
      (db : Db P) (tenant_id name description : String) (days : ℤ)
      → Moves Stays A.log (create_stream P db tenant_id name description days)
  unfolding create_stream
  create_stream-Stays db tenant_id name description days =
      search (stays_rules, Stays-kept, A.stream_row) depth 7

  give_up-Stays :
      {B : Type 0} (stream : FrkrStream) (reason text : String)
      → Moves Stays A.log (Stream.give_up P {A = B} stream reason text)
  unfolding Stream.give_up
  give_up-Stays stream reason text = search (stays_rules, streams_update_status-Stays P A) depth 9

  ensure_topic-Stays :
      (k : Option KafkaAdmin) (stream : FrkrStream) (topic : String)
      → Moves Stays A.log (Stream.ensure_topic P k stream topic)
  unfolding Stream.ensure_topic
  ensure_topic-Stays none stream topic = search stays_rules
  ensure_topic-Stays (some k) stream topic =
      search (stays_rules, Stays-kept, create_topic-Keeps, give_up-Stays) depth 7

  with_database-Stays :
      (db : Option (Db P)) (k : Option KafkaAdmin) (stream : FrkrStream)
      → Moves Stays A.log (Stream.with_database P db k stream)
  unfolding Stream.provision Stream.wait_for_database
  with_database-Stays none k stream = search (stays_rules, streams_update_status-Stays P A) depth 9
  with_database-Stays (some db) k stream =
      search
        (
          stays_rules,
          ensure_tenant-Stays,
          create_stream-Stays,
          give_up-Stays,
          ensure_topic-Stays,
          streams_update_status-Stays P A,
        )
        depth 12

  pub stream-Stays :
      (r : Stream.StreamReconciler P) (req : NamespacedName)
      → Moves Stays A.log (Stream.reconcile P r req)
  unfolding Stream.reconcile
  stream-Stays r req = search (stays_rules, with_database-Stays, streams_get-Stays P A) depth 7

  delete_users-IsWithin :
      (users : List FrkrUser) (s : P.State)
      → IsWithin (A.log s)
      → IsWithin (A.log (Auth.delete_users P users s))
  unfolding Auth.delete_users
  delete_users-IsWithin [] s h = h
  delete_users-IsWithin (user ∷ users) s h =
      delete_users-IsWithin users (P.users.delete user s).1 ((users_delete-Stays P A user).at s h)

  delete_listed-IsWithin :
      (s : P.State) → IsWithin (A.log s) → IsWithin (A.log (Auth.delete_listed P s))
  unfolding Auth.delete_listed
  delete_listed-IsWithin s h =
      let s' = (P.users.list none s).1 in
      let h' : IsWithin (A.log s') = (users_list-Stays P A none).at s h in
      elim (Outcome-cases (P.users.list none s).0) [
        | inl (users, e) ↦
            let ends : Auth.delete_listed P s ≡ Auth.delete_users P users s' = ground arith in
            rw ends (delete_users-IsWithin users s' h')
        | inr (err, e) ↦ let ends : Auth.delete_listed P s ≡ s' = ground arith in rw ends h'
      ]

  delete_if-IsWithin :
      (leaves : Bool) (s : P.State)
      → IsWithin (A.log s)
      → IsWithin (A.log (if leaves then Auth.delete_listed P s else s))
  delete_if-IsWithin true s h = delete_listed-IsWithin s h
  delete_if-IsWithin false s h = h

  delete-Stays :
      (leaves : Bool)
      → Moves Stays A.log
          (λ s. pure {R = Verdict} {A = Unit {0}} tt (if leaves then Auth.delete_listed P s else s))
  unfolding pure
  delete-Stays leaves = record { at = λ s. delete_if-IsWithin leaves s }

  pub auth-Stays : (req : NamespacedName) → Moves Stays A.log (Auth.reconcile P req)
  unfolding Auth.reconcile
  auth-Stays req =
      search
        (
          stays_rules,
          Stays-then,
          delete-Stays,
          auth_configs_get-Stays P A,
          auth_configs_update_status-Stays P A,
        )
        depth 9
