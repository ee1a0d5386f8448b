-- ===== src/Controller/Setup/Order.antt =====
-- Which reconcilers the set-up registers, in which order, and with which connections.
use frkr_operator.Base.{Option, List, [], ◌∷◌, ◌++◌, ◌≡◌, refl, inl, inr, arith, ◌∙◌, ap}
use frkr_operator.Base.Go.{ok, Outcome-cases, ◌>>=◌}
use frkr_operator.Copy.Roots as Roots
use frkr_operator.Copy.Roots.{Root}
use frkr_operator.Platform.{Platform}
use frkr_operator.Infra.Database.{Db}
use frkr_operator.Infra.Kafka.{KafkaAdmin}
use frkr_operator.Controller.Setup.{
  Reconciler, user_reconciler, stream_reconciler, auth_config_reconciler, data_plane_reconciler,
  init_reconciler, Manager, watched, setup_with_manager, register_all,
}

appended {ℓ} :
    {A : Type ℓ} (xs : List A) (a b c d e : A)
    → ((((xs ++ (a ∷ [])) ++ (b ∷ [])) ++ (c ∷ [])) ++ (d ∷ [])) ++ (e ∷ [])
      ≡ xs ++ (a ∷ b ∷ c ∷ d ∷ e ∷ [])
appended [] a b c d e = refl
appended (x ∷ xs) a b c d e = ap (λ ys. x ∷ ys) (appended xs a b c d e)

-- A registration that succeeds adds its reconciler, with the kind of object that it is called for, to
-- those that the manager runs.
pub record ManagerLaws (P : Platform) (mgr : Manager P) : Type 0 where
  pub registered : P.State → List (Root × Reconciler P)
  pub complete_ok :
      (kind : Root) (r : Reconciler P) (s : P.State)
      → (mgr.complete kind r s).0 ≡ ok tt
      → registered (mgr.complete kind r s).1 ≡ registered s ++ ((kind, r) ∷ [])

module _ (P : Platform) (mgr : Manager P) (L : ManagerLaws P mgr) (db : Option (Db P))
    (k : Option KafkaAdmin) where
  -- A set-up that succeeds has registered the reconcilers of users, auth configurations, data
  -- planes, init objects and streams, each for its kind of object, once each and in this order, the first and the last with the
  -- same database, and no other.
  pub register_all_ok :
      (s : P.State)
      → (register_all P mgr db k s).0 ≡ ok tt
      → L.registered (register_all P mgr db k s).1
        ≡ L.registered s
          ++ ((Roots.user, user_reconciler (record { db = db }))
              ∷ (Roots.auth_config, auth_config_reconciler)
              ∷ (Roots.data_plane, data_plane_reconciler)
              ∷ (Roots.init, init_reconciler)
              ∷ (Roots.stream, stream_reconciler (record { db = db; kafka_admin = k }))
              ∷ [])
  unfolding register_all watched setup_with_manager ◌>>=◌
  register_all_ok s h =
      let user : Reconciler P = user_reconciler (record { db = db }) in
      let stream : Reconciler P = stream_reconciler (record { db = db; kafka_admin = k }) in
      let s₁ = (mgr.complete Roots.user user s).1 in
      let s₂ = (mgr.complete Roots.auth_config auth_config_reconciler s₁).1 in
      let s₃ = (mgr.complete Roots.data_plane data_plane_reconciler s₂).1 in
      let s₄ = (mgr.complete Roots.init init_reconciler s₃).1 in
      elim (Outcome-cases (mgr.complete Roots.user user s).0) [
        | inr (err, e) ↦ absurd (ground arith)
        | inl (_, e₁) ↦
            elim (Outcome-cases (mgr.complete Roots.auth_config auth_config_reconciler s₁).0) [
              | inr (err, e) ↦ absurd (ground arith)
              | inl (_, e₂) ↦
                  elim (Outcome-cases (mgr.complete Roots.data_plane data_plane_reconciler s₂).0) [
                    | inr (err, e) ↦ absurd (ground arith)
                    | inl (_, e₃) ↦
                        elim (Outcome-cases (mgr.complete Roots.init init_reconciler s₃).0) [
                          | inr (err, e) ↦ absurd (ground arith)
                          | inl (_, e₄) ↦
                              elim (Outcome-cases (mgr.complete Roots.stream stream s₄).0) [
                                | inr (err, e) ↦ absurd (ground arith)
                                | inl (_, e₅) ↦
                                    let last : L.registered (register_all P mgr db k s).1
                                        ≡ L.registered (mgr.complete Roots.stream stream s₄).1 =
                                      ground arith in
                                    last
                                    ∙ ground (
                                      arith,
                                      L.complete_ok Roots.user user s e₁,
                                      L.complete_ok Roots.auth_config auth_config_reconciler s₁ e₂,
                                      L.complete_ok Roots.data_plane data_plane_reconciler s₂ e₃,
                                      L.complete_ok Roots.init init_reconciler s₃ e₄,
                                      L.complete_ok Roots.stream stream s₄ e₅,
                                    )
                                    ∙ appended (L.registered s) (Roots.user, user)
                                        (Roots.auth_config, auth_config_reconciler)
                                        (Roots.data_plane, data_plane_reconciler)
                                        (Roots.init, init_reconciler) (Roots.stream, stream)
                              ]
                        ]
                  ]
            ]
      ]
