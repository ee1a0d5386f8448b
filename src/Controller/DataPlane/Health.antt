-- ===== src/Controller/DataPlane/Health.antt =====
-- What the status of a data plane says after a reconciliation.
use frkr_operator.Base.{
  Bool, true, false, ◌&&◌, none, some, [], ◌∷◌, ◌++◌, ◌≡◌, refl, arith, if◌then◌else◌,
}
use frkr_operator.Base.Go.{ok, ◌>>=◌}
use frkr_operator.Api.Meta.{
  NamespacedName, Condition, ConditionStatus, condition_true, condition_false, reply, done,
}
use frkr_operator.Api.DataPlane.{FrkrDataPlane, FrkrDataPlaneStatus}
use frkr_operator.Platform.{Platform}
use frkr_operator.Laws.Status.{StatusLaws}
use frkr_operator.Laws.Conditions.{ConditionLaws, find_condition}
use frkr_operator.Controller.DataPlane.{ready_condition, observed, reconcile}

abbrev pub PlaneStatusLaws : Platform → Type 0
PlaneStatusLaws P = StatusLaws P.data_planes (λ plane. plane.meta) (λ plane. plane.status)

abbrev pub health : Bool → ConditionStatus
health true = condition_true
health false = condition_false

module _ (P : Platform) (C : ConditionLaws P) where
  -- Whatever the two connection tests give: the flags of the status are their results, there is a
  -- warning for each test that failed and no other, and the condition "Ready" is true exactly when
  -- both passed.
  pub observed_lem :
      (plane : FrkrDataPlane) (postgres broker : Bool) (s : P.State)
      → let status = (observed P plane postgres broker s).status in
        (status.postgres_connected ≡ postgres)
        × (status.broker_connected ≡ broker)
        × (status.warnings
            ≡ (if postgres then [] else "Postgres connectivity test failed" ∷ [])
              ++ (if broker then [] else "Kafka-compatible broker connectivity test failed" ∷ []))
        × (condition : Condition) × (find_condition "Ready" status.conditions ≡ some condition)
        × (condition.status ≡ health (postgres && broker))
  unfolding observed
  observed_lem plane true true s =
      let set = C.set_found s plane.status.conditions (ready_condition true) in
      (refl, refl, refl, set.0, set.1, set.2)
  observed_lem plane true false s =
      let set = C.set_found s plane.status.conditions (ready_condition false) in
      (refl, refl, refl, set.0, set.1, set.2)
  observed_lem plane false true s =
      let set = C.set_found s plane.status.conditions (ready_condition false) in
      (refl, refl, refl, set.0, set.1, set.2)
  observed_lem plane false false s =
      let set = C.set_found s plane.status.conditions (ready_condition false) in
      (refl, refl, refl, set.0, set.1, set.2)

  -- A reconciliation of a data plane that exists, whatever its spec, that ends with no error and no
  -- delay leaves a status with both connections up, no warning, and the condition "Ready" true.
  pub reconcile-IsHealthy :
      (T : PlaneStatusLaws P) (req : NamespacedName) (s : P.State) (plane : FrkrDataPlane)
      → (P.data_planes.get req s).0 ≡ ok plane
      → (reconcile P req s).0 ≡ reply done none
      → (status : FrkrDataPlaneStatus) × (T.shown (reconcile P req s).1 req ≡ some status)
        × (status.postgres_connected ≡ true)
        × (status.broker_connected ≡ true)
        × (status.warnings ≡ [])
        × (condition : Condition) × (find_condition "Ready" status.conditions ≡ some condition)
        × (condition.status ≡ condition_true)
  unfolding reconcile ◌>>=◌
  reconcile-IsHealthy T req s plane found h =
      let s₁ = (P.data_planes.get req s).1 in
      let marked = observed P plane true true s₁ in
      let set = C.set_found s₁ plane.status.conditions (ready_condition true) in
      (
        marked.status,
        ground (arith, T.get_shown req s plane found, T.update_shown marked s₁),
        refl,
        refl,
        refl,
        set.0,
        set.1,
        set.2,
      )
