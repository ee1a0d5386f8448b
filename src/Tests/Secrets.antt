-- ===== src/Tests/Secrets.antt =====
-- The secrets of the platform in memory meet what the theorems assume of the calls.
use frkr_operator.Base.{
  ◌==◌, ◌&&◌, none, some, ◌≡◌, refl, inl, inr, arith, ap, Bool-cases, Option-cases,
}
use frkr_operator.Base.Go.{Error, foreign, made, wrapped}
use frkr_operator.Api.Meta.{key_of}
use frkr_operator.Platform.{Platform}
use frkr_operator.Laws.Secrets.{SecretLaws}
use frkr_operator.Laws.Vault.{VaultLaws}
use frkr_operator.Tests.Memory.{Switches, timeout, ignore, memory}
use frkr_operator.Tests.Memory.Shelf.{find, find-insert, find-insert_other}
use frkr_operator.Tests.Assumptions.{on_some}

ignore_lem : (e err : Error) → ignore e ≡ some err → err ≡ e
ignore_lem (foreign kind text) err h = elim (Bool-cases (kind == "NotFound")) [
  | inl e ↦ absurd (ground arith)
  | inr e ↦ ground arith
]
ignore_lem (made text) err h = ground arith
ignore_lem (wrapped text e) err h = ground arith

timeout-kept : ignore timeout ≡ none → ⊥
timeout-kept h = ground arith

timed_out : (err : Error) → timeout ≡ err → ignore err ≡ none → ignore timeout ≡ none
timed_out err e h = rw (← e) at h

module _ (F : Switches) where
  abbrev M : Platform
  M = memory F

  pub secret_laws : SecretLaws M
  secret_laws = record {
    stored = λ s k. on_some (λ t. t.contents) (find k s.secrets);
    get_found = λ k s secret h. elim (Bool-cases (F.flaky_secrets && s.glitch)) [
      | inl e ↦ absurd (ground arith)
      | inr e ↦ elim (Option-cases (find k s.secrets)) [
        | inl e' ↦ absurd (ground arith)
        | inr (a, e') ↦ ground arith
      ]
    ];
    get_missing = λ k s err h i. elim (Bool-cases (F.flaky_secrets && s.glitch)) [
      | inl e ↦ absurd (timeout-kept (timed_out err (ground arith) i))
      | inr e ↦ elim (Option-cases (find k s.secrets)) [
        | inl e' ↦ ground arith
        | inr (a, e') ↦ absurd (ground arith)
      ]
    ];
    get_keeps = λ k. record { at = λ s. ground arith };
    create_stored = λ secret s h. ground (arith, find-insert (key_of secret.meta) secret s.secrets);
    update_stored = λ secret s h. ground (arith, find-insert (key_of secret.meta) secret s.secrets);
    owned = λ owner secret owned h. ground arith;
    ignored = ignore_lem;
    users_get_keeps = λ k. record { at = λ s. refl };
    users_status_keeps = λ user. record { at = λ s. refl };
    clients_get_keeps = λ k. record { at = λ s. refl };
    clients_status_keeps = λ c. record { at = λ s. refl };
    generate_keeps = record { at = λ s. refl };
    tenant_keeps = λ db name. record { at = λ s. ground arith };
    user_keeps = λ db tenant name password. record { at = λ s. refl };
    client_keeps = λ db tenant client secret stream. record { at = λ s. ground arith };
    get_client_keeps = λ db tenant client. record { at = λ s. refl };
  }

  pub vault_laws : VaultLaws M secret_laws
  unfolding secret_laws
  vault_laws = record {
    create_issues = λ secret s. record {
      others = λ j other.
          ap (on_some (λ t. t.contents))
            (find-insert_other j (key_of secret.meta) secret s.secrets other);
      own = inr (
        secret.contents,
        ground (arith, find-insert (key_of secret.meta) secret s.secrets),
        refl,
      );
    };
    update_issues = λ secret s. record {
      others = λ j other.
          ap (on_some (λ t. t.contents))
            (find-insert_other j (key_of secret.meta) secret s.secrets other);
      own = inr (
        secret.contents,
        ground (arith, find-insert (key_of secret.meta) secret s.secrets),
        refl,
      );
    };
    tenants_get = λ k. record { at = λ s. refl };
    tenants_status = λ t. record { at = λ s. refl };
    streams_get = λ k. record { at = λ s. refl };
    streams_status = λ t. record { at = λ s. refl };
    auth_configs_get = λ k. record { at = λ s. refl };
    auth_configs_status = λ t. record { at = λ s. refl };
    users_list = λ ns. record { at = λ s. ground arith };
    users_delete = λ t. record { at = λ s. refl };
    data_planes_get = λ k. record { at = λ s. refl };
    data_planes_list = λ ns. record { at = λ s. refl };
    data_planes_status = λ t. record { at = λ s. refl };
    inits_get = λ k. record { at = λ s. refl };
    inits_status = λ t. record { at = λ s. refl };
    deployments_get = λ k. record { at = λ s. refl };
    create_stream = λ db tenant_id name description days. record { at = λ s. refl };
    migrations = λ url. record { at = λ s. ground arith };
    version = λ url. record { at = λ s. refl };
    dial = λ network address. record { at = λ s. ground arith };
    controller = λ conn. record { at = λ s. refl };
    create_topics = λ conn topics. record { at = λ s. refl };
    close = λ conn s. refl;
  }
