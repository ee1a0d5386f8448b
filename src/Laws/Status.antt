-- ===== src/Laws/Status.antt =====
-- The status of the objects of one kind: a successful update is what the cluster then shows.
use frkr_operator.Base.{Option, some, ◌≡◌}
use frkr_operator.Base.Go.{ok}
use frkr_operator.Api.Meta.{ObjectMeta, ObjectKey, key_of}
use frkr_operator.Platform.{Objects}

-- `meta_of` and `status_of` are the two fields of the kind.
pub record StatusLaws {S T U : Type 0} (objects : Objects S T) (meta_of : T → ObjectMeta)
    (status_of : T → U) : Type 0 where
  pub shown : S → ObjectKey → Option U
  pub get_shown :
      (k : ObjectKey) (s : S) (t : T)
      → (objects.get k s).0 ≡ ok t
      → (shown s k ≡ some (status_of t)) × (key_of (meta_of t) ≡ k)
  pub update_shown :
      (t : T) (s : S)
      → (objects.update_status t s).0 ≡ ok tt
      → shown (objects.update_status t s).1 (key_of (meta_of t)) ≡ some (status_of t)
