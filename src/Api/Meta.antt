-- ===== src/Api/Meta.antt =====
-- The fields that the program uses of Kubernetes' objects: metadata, keys, conditions, secrets,
-- deployments and `ctrl.Result`.
use frkr_operator.Base.{ℕ, String, List, Bool, true, false, Option, none, some}
use frkr_operator.Base.Go.{Error}
use frkr_operator.Base.Int.{ℤ}

pub record ObjectMeta : Type 0 where
  pub name : String
  pub namespace : String
  pub owner_references : List String

-- `types.NamespacedName`, which `client.ObjectKey` is another name of.
pub record NamespacedName : Type 0 where
  pub namespace : String
  pub name : String

abbrev pub ObjectKey : Type 0
ObjectKey = NamespacedName

pub data ConditionStatus : Type 0 where
  condition_true condition_false condition_unknown : ConditionStatus

pub record Condition : Type 0 where
  pub type : String
  pub status : ConditionStatus
  pub last_transition_time : String
  pub reason : String
  pub message : String

-- `Data`, a map from names to bytes.
abbrev pub SecretData : Type 0
SecretData = List (String × String)

pub record Secret : Type 0 where
  pub meta : ObjectMeta
  pub contents : SecretData

pub record Deployment : Type 0 where
  pub meta : ObjectMeta
  pub available_replicas : ℤ

-- `RequeueAfter` is a `time.Duration`: a number of nanoseconds.
pub record Result : Type 0 where
  pub requeue_after : ℕ

-- What a `Reconcile` ends with: its two results, or a panic.
pub data Verdict : Type 0 where
  reply : Result → Option Error → Verdict
  panicked : Verdict

-- `ctrl.Result{}` and `ctrl.Result{RequeueAfter: n}`
abbrev pub done : Result
done = record { requeue_after = 0 }

abbrev pub requeue : ℕ → Result
requeue n = record { requeue_after = n }

-- `client.ObjectKeyFromObject`
abbrev pub key_of : ObjectMeta → ObjectKey
key_of m = record { namespace = m.namespace; name = m.name }

-- Whether a reconciliation ends with an error, and after how many nanoseconds it asks to be called.
abbrev pub failed : Verdict → Bool
failed (reply result none) = false
failed (reply result (some e)) = true
failed panicked = false

abbrev pub delay : Verdict → ℕ
delay (reply result e) = result.requeue_after
delay panicked = 0
