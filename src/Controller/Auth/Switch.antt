-- ===== src/Controller/Auth/Switch.antt =====
-- What a change of the auth type does to the users.
use frkr_operator.Base.{
  String, Bool, true, false, Option, none, some, List, [], ◌∷◌, ◌≡◌, ◌≢◌, ◌↔◌, inl, inr, arith,
  eq_iff, Bool-cases, All, if◌then◌else◌,
}
use frkr_operator.Base.Keeps.{Keeps}
use frkr_operator.Base.Go.{Error, ok, fail, ◌>>=◌}
use frkr_operator.Api.Meta.{NamespacedName, ObjectKey, reply, done, key_of}
use frkr_operator.Api.User.{FrkrUser}
use frkr_operator.Api.Auth.{FrkrAuthConfig, FrkrAuthConfigStatus, auth_type_basic}
use frkr_operator.Platform.{Platform}
use frkr_operator.Laws.Status.{StatusLaws}
use frkr_operator.Controller.Auth.{leaves_basic, settled, delete_users, delete_listed, reconcile}

basic_ne_nil : ◌≢◌ {A = String} "basic" ""
basic_ne_nil = ground (arith, eq_iff "basic" "")

-- A switch away from basic: the last reconciliation saw "basic", and the spec says something else.
pub leaves_basic_iff :
    (c : FrkrAuthConfig)
    → (leaves_basic c ≡ true)
      ↔ ((c.status.previous_type ≡ auth_type_basic) × (c.spec.type ≢ auth_type_basic))
unfolding leaves_basic
leaves_basic_iff c = ground (
  arith,
  eq_iff c.status.previous_type "",
  eq_iff c.status.previous_type "basic",
  eq_iff c.status.previous_type c.spec.type,
  eq_iff c.spec.type "basic",
  basic_ne_nil,
)

-- Which users the cluster has: a successful delete removes its user, no delete brings one back, and
-- reads and the status of the auth configuration do not touch them.
pub record UserLaws (P : Platform) : Type 0 where
  pub present : P.State → ObjectKey → Bool
  pub delete_ok :
      (user : FrkrUser) (s : P.State)
      → (P.users.delete user s).0 ≡ ok tt
      → present (P.users.delete user s).1 (key_of user.meta) ≡ false
  pub delete_others :
      (user : FrkrUser) (s : P.State) (k : ObjectKey)
      → present s k ≡ false
      → present (P.users.delete user s).1 k ≡ false
  pub list_keeps : (ns : Option String) → Keeps present (P.users.list ns)
  pub config_get_keeps : (k : ObjectKey) → Keeps present (P.auth_configs.get k)
  pub config_status_keeps : (c : FrkrAuthConfig) → Keeps present (P.auth_configs.update_status c)

module _ (P : Platform) (U : UserLaws P) where
  open U use {present}

  -- Every delete of the loop succeeds.
  abbrev pub AllDeleted : List FrkrUser → P.State → Type 0
  AllDeleted [] s = Unit {0}
  AllDeleted (user ∷ users) s =
      ((P.users.delete user s).0 ≡ ok tt) × AllDeleted users (P.users.delete user s).1

  delete_users-absent :
      (users : List FrkrUser) (s : P.State) (k : ObjectKey)
      → present s k ≡ false
      → present (delete_users P users s) k ≡ false
  unfolding delete_users
  delete_users-absent [] s k h = h
  delete_users-absent (user ∷ users) s k h =
      delete_users-absent users (P.users.delete user s).1 k (U.delete_others user s k h)

  delete_users-removes :
      (users : List FrkrUser) (s : P.State)
      → AllDeleted users s
      → All (λ user. present (delete_users P users s) (key_of user.meta) ≡ false) users
  unfolding delete_users
  delete_users-removes [] s h = tt
  delete_users-removes (user ∷ users) s h = (
    delete_users-absent users (P.users.delete user s).1 (key_of user.meta) (U.delete_ok user s h.0),
    delete_users-removes users (P.users.delete user s).1 h.1,
  )

  -- On a switch away from basic, where the list of users over all namespaces can be had and every
  -- delete succeeds, none of the listed users is left after the reconciliation.
  pub reconcile-removes :
      (req : NamespacedName) (s : P.State) (c : FrkrAuthConfig) (users : List FrkrUser)
      → (P.auth_configs.get req s).0 ≡ ok c
      → c.status.previous_type ≡ auth_type_basic
      → c.spec.type ≢ auth_type_basic
      → (P.users.list none (P.auth_configs.get req s).1).0 ≡ ok users
      → AllDeleted users (P.users.list none (P.auth_configs.get req s).1).1
      → All (λ user. present (reconcile P req s).1 (key_of user.meta) ≡ false) users
  unfolding reconcile ◌>>=◌
  reconcile-removes req s c users found was now listed deleted =
      let s₁ = (P.auth_configs.get req s).1 in
      let s₂ = (P.users.list none s₁).1 in
      let same : present (reconcile P req s).1 ≡ present (delete_users P users s₂) = ground (
        arith,
        (leaves_basic_iff c).1 (was, now),
        (U.config_status_keeps (settled c)).at (delete_users P users s₂),
      ) in
      rw same (delete_users-removes users s₂ deleted)

  -- Without such a switch, and where the list fails, the same users are there afterwards.
  pub reconcile-keeps_users :
      (req : NamespacedName) (s : P.State) (c : FrkrAuthConfig) (e : Error)
      → (P.auth_configs.get req s).0 ≡ ok c
      → ((c.status.previous_type ≡ auth_type_basic) × (c.spec.type ≢ auth_type_basic)
          → (P.users.list none (P.auth_configs.get req s).1).0 ≡ fail e)
      → present (reconcile P req s).1 ≡ present s
  unfolding reconcile ◌>>=◌
  reconcile-keeps_users req s c e found lost =
      let s₁ = (P.auth_configs.get req s).1 in
      let s₂ = (P.users.list none s₁).1 in
      let got = (U.config_get_keeps req).at s in
      let read = (U.list_keeps none).at s₁ in
      elim (Bool-cases (leaves_basic c)) [
        | inl leaves ↦ ground (
          arith,
          leaves,
          lost ((leaves_basic_iff c).0 leaves),
          got,
          read,
          (U.config_status_keeps (settled c)).at s₂,
        )
        | inr stays ↦ ground (arith, stays, got, (U.config_status_keeps (settled c)).at s₁)
      ]

abbrev pub AuthStatusLaws : Platform → Type 0
AuthStatusLaws P = StatusLaws P.auth_configs (λ c. c.meta) (λ c. c.status)

module _ (P : Platform) (T : AuthStatusLaws P) where
  pub reconcile-shown :
      (req : NamespacedName) (s : P.State) (c : FrkrAuthConfig)
      → (P.auth_configs.get req s).0 ≡ ok c
      → (reconcile P req s).0 ≡ reply done none
      → T.shown (reconcile P req s).1 req ≡ some (settled c).status
  unfolding reconcile ◌>>=◌
  reconcile-shown req s c found h =
      let s₁ = (P.auth_configs.get req s).1 in
      let s₂ = if leaves_basic c then delete_listed P s₁ else s₁ in
      ground (arith, T.get_shown req s c found, T.update_shown (settled c) s₂)

module _ (P : Platform) (U : UserLaws P) (T : AuthStatusLaws P) where
  -- On a switch away from basic where the list of users fails, a reconciliation that ends with no
  -- error and no delay has deleted nobody, and the status that it leaves records the new type, so
  -- that the configuration with that status is no switch away from basic any more.
  pub reconcile-forgets_users :
      (req : NamespacedName) (s : P.State) (c : FrkrAuthConfig) (e : Error)
      → (P.auth_configs.get req s).0 ≡ ok c
      → c.status.previous_type ≡ auth_type_basic
      → c.spec.type ≢ auth_type_basic
      → (P.users.list none (P.auth_configs.get req s).1).0 ≡ fail e
      → (reconcile P req s).0 ≡ reply done none
      → (U.present (reconcile P req s).1 ≡ U.present s)
        × (status : FrkrAuthConfigStatus) × (T.shown (reconcile P req s).1 req ≡ some status)
        × (leaves_basic (record c { status = status }) ≡ false)
  reconcile-forgets_users req s c e found was now lost h = (
    reconcile-keeps_users P U req s c e found (λ _. lost),
    (settled c).status,
    settled_shown,
    stays,
  )
    where
      settled_shown : T.shown (reconcile P req s).1 req ≡ some (settled c).status
      settled_shown = reconcile-shown P T req s c found h

      stays : leaves_basic (settled c) ≡ false
      stays = elim (Bool-cases (leaves_basic (settled c))) [
        | inl leaves ↦ absurd (now ((leaves_basic_iff (settled c)).0 leaves).0)
        | inr kept ↦ kept
      ]
