-- ===== src/Controller/Auth/Repeat.antt =====
-- What a second reconciliation of an auth configuration does to the users.
use frkr_operator.Base.{none, ◌≡◌, arith}
use frkr_operator.Base.Go.{made, ok}
use frkr_operator.Api.Meta.{NamespacedName, reply, done}
use frkr_operator.Api.Auth.{FrkrAuthConfig}
use frkr_operator.Platform.{Platform}
use frkr_operator.Controller.Auth.{settled, reconcile}
use frkr_operator.Controller.Auth.Switch.{
  UserLaws, AuthStatusLaws, reconcile-keeps_users, reconcile-shown,
}

module _ (P : Platform) (U : UserLaws P) (T : AuthStatusLaws P) where
  -- When a reconciliation of an auth configuration has ended with no error and no delay, and the
  -- cluster still shows the status that it left, a later reconciliation deletes nobody, whatever its
  -- calls answer, as long as the spec asks for the same type.
  pub reconcile_again-keeps_users :
      (req : NamespacedName) (s t : P.State) (c d : FrkrAuthConfig)
      → (P.auth_configs.get req s).0 ≡ ok c
      → (reconcile P req s).0 ≡ reply done none
      → T.shown t req ≡ T.shown (reconcile P req s).1 req
      → (P.auth_configs.get req t).0 ≡ ok d
      → d.spec.type ≡ c.spec.type
      → U.present (reconcile P req t).1 ≡ U.present t
  reconcile_again-keeps_users req s t c d found h still later same =
      let left = reconcile-shown P T req s c found h in
      let here = (T.get_shown req t d later).0 in
      let seen : d.status ≡ (settled c).status = ground (arith, left, here, still) in
      reconcile-keeps_users P U req t d (made "") later
        (λ (was, now). absurd (now (ground (arith, seen))))
