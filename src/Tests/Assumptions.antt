-- ===== src/Tests/Assumptions.antt =====
-- The platform in memory meets what the theorems assume.
use frkr_operator.Base.{
  ◌==◌, true, false, Option, none, some, refl, inl, inr, arith, Bool-cases, Option-cases,
}
use frkr_operator.Api.Meta.{key_of}
use frkr_operator.Platform.{Platform}
use frkr_operator.Laws.Conditions.{ConditionLaws}
use frkr_operator.Infra.Kafka.Connections.{ConnectionLaws}
use frkr_operator.Controller.User.Passwords.{UserStatusLaws}
use frkr_operator.Controller.Tenant.Ready.{TenantStatusLaws}
use frkr_operator.Controller.Stream.Ready.{StreamStatusLaws}
use frkr_operator.Controller.Auth.Switch.{UserLaws, AuthStatusLaws}
use frkr_operator.Controller.DataPlane.Health.{PlaneStatusLaws}
use frkr_operator.Controller.Init.Phases.{InitStatusLaws}
use frkr_operator.Tests.Memory.{Switches, memory}
use frkr_operator.Tests.Memory.Shelf.{find, find-insert, find-erase, find-erase_other}
use frkr_operator.Tests.Memory.Lines.{
  same_or_other, has, fresh, has-fresh, has-cons_other, has-without, has-without_other,
}
use frkr_operator.Tests.Memory.Listed.{find_condition-set, find_condition-set_other}

abbrev pub on_some {ℓ κ} : {A : Type ℓ} {B : Type κ} → (A → B) → Option A → Option B
on_some f none = none
on_some f (some a) = some (f a)

module _ (F : Switches) where
  abbrev M : Platform
  M = memory F

  pub user_status_laws : UserStatusLaws M
  user_status_laws = record {
    shown = λ s k. on_some (λ t. t.status) (find k s.users);
    get_shown = λ k s t h. elim (Option-cases (find k s.users)) [
      | inl e ↦ absurd (ground arith)
      | inr (a, e) ↦ ground arith
    ];
    update_shown = λ t s h. ground (arith, find-insert (key_of t.meta) t s.users);
  }

  pub tenant_status_laws : TenantStatusLaws M
  tenant_status_laws = record {
    shown = λ s k. on_some (λ t. t.status) (find k s.tenants);
    get_shown = λ k s t h. elim (Option-cases (find k s.tenants)) [
      | inl e ↦ absurd (ground arith)
      | inr (a, e) ↦ ground arith
    ];
    update_shown = λ t s h. ground (arith, find-insert (key_of t.meta) t s.tenants);
  }

  pub stream_status_laws : StreamStatusLaws M
  stream_status_laws = record {
    shown = λ s k. on_some (λ t. t.status) (find k s.streams);
    get_shown = λ k s t h. elim (Option-cases (find k s.streams)) [
      | inl e ↦ absurd (ground arith)
      | inr (a, e) ↦ ground arith
    ];
    update_shown = λ t s h. ground (arith, find-insert (key_of t.meta) t s.streams);
  }

  pub auth_status_laws : AuthStatusLaws M
  auth_status_laws = record {
    shown = λ s k. on_some (λ t. t.status) (find k s.auth_configs);
    get_shown = λ k s t h. elim (Option-cases (find k s.auth_configs)) [
      | inl e ↦ absurd (ground arith)
      | inr (a, e) ↦ ground arith
    ];
    update_shown = λ t s h. ground (arith, find-insert (key_of t.meta) t s.auth_configs);
  }

  pub plane_status_laws : PlaneStatusLaws M
  plane_status_laws = record {
    shown = λ s k. on_some (λ t. t.status) (find k s.data_planes);
    get_shown = λ k s t h. elim (Option-cases (find k s.data_planes)) [
      | inl e ↦ absurd (ground arith)
      | inr (a, e) ↦ ground arith
    ];
    update_shown = λ t s h. ground (arith, find-insert (key_of t.meta) t s.data_planes);
  }

  pub init_status_laws : InitStatusLaws M
  init_status_laws = record {
    shown = λ s k. on_some (λ t. t.status) (find k s.inits);
    get_shown = λ k s t h. elim (Option-cases (find k s.inits)) [
      | inl e ↦ absurd (ground arith)
      | inr (a, e) ↦ ground arith
    ];
    update_shown = λ t s h. ground (arith, find-insert (key_of t.meta) t s.inits);
  }

  pub condition_laws : ConditionLaws M
  condition_laws = record {
    set_found = λ s cs c. (c, find_condition-set cs c, refl, refl, refl);
    set_others = λ s cs c type h. find_condition-set_other cs c type h;
  }

  pub connection_laws : ConnectionLaws M
  connection_laws = record {
    same = same_or_other;
    is_open = λ s. has s.open_conns;
    dial_fresh = λ network address s conn h. elim (Bool-cases (address == "")) [
      | inl e ↦ absurd (ground arith)
      | inr e ↦ ground (arith, has-fresh s.open_conns)
    ];
    dial_others = λ network address s conn other h far. elim (Bool-cases (address == "")) [
      | inl e ↦ absurd (ground arith)
      | inr e ↦ ground (arith, has-cons_other s.open_conns (fresh s.open_conns) other)
    ];
    dial_fails = λ network address s err h. elim (Bool-cases (address == "")) [
      | inl e ↦ ground arith
      | inr e ↦ absurd (ground arith)
    ];
    close_ends = λ conn s. has-without conn s.open_conns;
    close_others = λ conn other s far. has-without_other conn other s.open_conns far;
    controller_keeps = λ conn. record { at = λ s. refl };
    topics_keep = λ conn topics. record { at = λ s. refl };
  }

  pub user_laws : UserLaws M
  user_laws = record {
    present = λ s k. elim (find k s.users) [ some t ↦ true | none ↦ false ];
    delete_ok = λ user s h. ground (arith, find-erase (key_of user.meta) s.users);
    delete_others = λ user s k h. elim (Option-cases (find k s.users)) [
      | inl e ↦ ground (arith, find-erase_other k (key_of user.meta) s.users e)
      | inr (a, e) ↦ absurd (ground arith)
    ];
    list_keeps = λ ns. record { at = λ s. ground arith };
    config_get_keeps = λ k. record { at = λ s. refl };
    config_status_keeps = λ c. record { at = λ s. refl };
  }
