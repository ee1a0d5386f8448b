-- ===== src/Copy/Roots/Deep.antt =====
-- Every deep copy of the API shares nothing with its origin.
use frkr_operator.Base.{ℕ, ◌<◌}
use frkr_operator.Copy.{Ref, Metav1}
use frkr_operator.Copy.Shape.{
  Shape, IsDeep, MetaShapes, flat_shape, ref_shape, new-IsDeep, IsSeparate, object_copy-IsSeparate,
}
use frkr_operator.Copy.User as User
use frkr_operator.Copy.User.Deep as UserDeep
use frkr_operator.Copy.Client as Client
use frkr_operator.Copy.Client.Deep as ClientDeep
use frkr_operator.Copy.Tenant as Tenant
use frkr_operator.Copy.Tenant.Deep as TenantDeep
use frkr_operator.Copy.Stream as Stream
use frkr_operator.Copy.Stream.Deep as StreamDeep
use frkr_operator.Copy.Auth as Auth
use frkr_operator.Copy.Auth.Deep as AuthDeep
use frkr_operator.Copy.DataPlane as DataPlane
use frkr_operator.Copy.DataPlane.Deep as DataPlaneDeep
use frkr_operator.Copy.Init as Init
use frkr_operator.Copy.Init.Deep as InitDeep
use frkr_operator.Copy.Roots.{
  PartType, user_spec, user_status, client_spec, client_status, tenant_spec, tenant_status,
  stream_spec, stream_status, oidc_config, auth_config_spec, auth_config_status, database_config,
  message_queue_config, data_plane_spec, data_plane_status, init_spec, init_status, Root, user,
  user_list, client, client_list, tenant, tenant_list, stream, stream_list, auth_config,
  auth_config_list, data_plane, data_plane_list, init, init_list, PartValue, RootValue, copy_part,
  copy_root, copy_object,
}

module _ (M : Metav1) (D : MetaShapes M) where
  abbrev pub part_shape : (p : PartType) → Shape (PartValue M p)
  part_shape user_spec = UserDeep.spec_shape
  part_shape user_status = UserDeep.status_shape M D
  part_shape client_spec = flat_shape
  part_shape client_status = ClientDeep.status_shape M D
  part_shape tenant_spec = flat_shape
  part_shape tenant_status = TenantDeep.status_shape M D
  part_shape stream_spec = flat_shape
  part_shape stream_status = StreamDeep.status_shape M D
  part_shape oidc_config = AuthDeep.oidc_shape
  part_shape auth_config_spec = AuthDeep.spec_shape
  part_shape auth_config_status = AuthDeep.status_shape M D
  part_shape database_config = flat_shape
  part_shape message_queue_config = DataPlaneDeep.queue_shape
  part_shape data_plane_spec = DataPlaneDeep.spec_shape
  part_shape data_plane_status = DataPlaneDeep.status_shape M D
  part_shape init_spec = InitDeep.spec_shape
  part_shape init_status = InitDeep.status_shape M D

  abbrev pub root_shape : (k : Root) → Shape (RootValue M k)
  root_shape user = UserDeep.object_shape M D
  root_shape user_list = UserDeep.list_of_shape M D
  root_shape client = ClientDeep.object_shape M D
  root_shape client_list = ClientDeep.list_of_shape M D
  root_shape tenant = TenantDeep.object_shape M D
  root_shape tenant_list = TenantDeep.list_of_shape M D
  root_shape stream = StreamDeep.object_shape M D
  root_shape stream_list = StreamDeep.list_of_shape M D
  root_shape auth_config = AuthDeep.object_shape M D
  root_shape auth_config_list = AuthDeep.list_of_shape M D
  root_shape data_plane = DataPlaneDeep.object_shape M D
  root_shape data_plane_list = DataPlaneDeep.list_of_shape M D
  root_shape init = InitDeep.object_shape M D
  root_shape init_list = InitDeep.list_of_shape M D

  part-IsDeep : (p : PartType) → IsDeep (ref_shape (part_shape p)) (copy_part M p)
  unfolding User.copy_spec User.copy_status Client.copy_spec Client.copy_status Tenant.copy_spec
      Tenant.copy_status Stream.copy_spec Stream.copy_status Auth.copy_oidc Auth.copy_spec
      Auth.copy_status DataPlane.copy_database DataPlane.copy_queue DataPlane.copy_spec
      DataPlane.copy_status Init.copy_spec Init.copy_status
  part-IsDeep user_spec =
      new-IsDeep (UserDeep.spec_shape) (User.copy_spec_into) (UserDeep.spec-IsDeep)
  part-IsDeep user_status =
      new-IsDeep (UserDeep.status_shape M D) (User.copy_status_into M) (UserDeep.status-IsDeep M D)
  part-IsDeep client_spec = new-IsDeep (flat_shape) (Client.copy_spec_into) (ClientDeep.spec-IsDeep)
  part-IsDeep client_status =
      new-IsDeep (ClientDeep.status_shape M D) (Client.copy_status_into M)
        (ClientDeep.status-IsDeep M D)
  part-IsDeep tenant_spec = new-IsDeep (flat_shape) (Tenant.copy_spec_into) (TenantDeep.spec-IsDeep)
  part-IsDeep tenant_status =
      new-IsDeep (TenantDeep.status_shape M D) (Tenant.copy_status_into M)
        (TenantDeep.status-IsDeep M D)
  part-IsDeep stream_spec = new-IsDeep (flat_shape) (Stream.copy_spec_into) (StreamDeep.spec-IsDeep)
  part-IsDeep stream_status =
      new-IsDeep (StreamDeep.status_shape M D) (Stream.copy_status_into M)
        (StreamDeep.status-IsDeep M D)
  part-IsDeep oidc_config =
      new-IsDeep (AuthDeep.oidc_shape) (Auth.copy_oidc_into) (AuthDeep.oidc-IsDeep)
  part-IsDeep auth_config_spec =
      new-IsDeep (AuthDeep.spec_shape) (Auth.copy_spec_into) (AuthDeep.spec-IsDeep)
  part-IsDeep auth_config_status =
      new-IsDeep (AuthDeep.status_shape M D) (Auth.copy_status_into M) (AuthDeep.status-IsDeep M D)
  part-IsDeep database_config =
      new-IsDeep (flat_shape) (DataPlane.copy_database_into) (DataPlaneDeep.database-IsDeep)
  part-IsDeep message_queue_config =
      new-IsDeep (DataPlaneDeep.queue_shape) (DataPlane.copy_queue_into)
        (DataPlaneDeep.queue-IsDeep)
  part-IsDeep data_plane_spec =
      new-IsDeep (DataPlaneDeep.spec_shape) (DataPlane.copy_spec_into) (DataPlaneDeep.spec-IsDeep)
  part-IsDeep data_plane_status =
      new-IsDeep (DataPlaneDeep.status_shape M D) (DataPlane.copy_status_into M)
        (DataPlaneDeep.status-IsDeep M D)
  part-IsDeep init_spec =
      new-IsDeep (InitDeep.spec_shape) (Init.copy_spec_into) (InitDeep.spec-IsDeep)
  part-IsDeep init_status =
      new-IsDeep (InitDeep.status_shape M D) (Init.copy_status_into M) (InitDeep.status-IsDeep M D)

  root-IsDeep : (k : Root) → IsDeep (ref_shape (root_shape k)) (copy_root M k)
  unfolding User.copy User.copy_list Client.copy Client.copy_list Tenant.copy Tenant.copy_list
      Stream.copy Stream.copy_list Auth.copy Auth.copy_list DataPlane.copy DataPlane.copy_list
      Init.copy Init.copy_list
  root-IsDeep user =
      new-IsDeep (UserDeep.object_shape M D) (User.copy_into M) (UserDeep.object-IsDeep M D)
  root-IsDeep user_list =
      new-IsDeep (UserDeep.list_of_shape M D) (User.copy_list_into M) (UserDeep.list-IsDeep M D)
  root-IsDeep client =
      new-IsDeep (ClientDeep.object_shape M D) (Client.copy_into M) (ClientDeep.object-IsDeep M D)
  root-IsDeep client_list =
      new-IsDeep (ClientDeep.list_of_shape M D) (Client.copy_list_into M)
        (ClientDeep.list-IsDeep M D)
  root-IsDeep tenant =
      new-IsDeep (TenantDeep.object_shape M D) (Tenant.copy_into M) (TenantDeep.object-IsDeep M D)
  root-IsDeep tenant_list =
      new-IsDeep (TenantDeep.list_of_shape M D) (Tenant.copy_list_into M)
        (TenantDeep.list-IsDeep M D)
  root-IsDeep stream =
      new-IsDeep (StreamDeep.object_shape M D) (Stream.copy_into M) (StreamDeep.object-IsDeep M D)
  root-IsDeep stream_list =
      new-IsDeep (StreamDeep.list_of_shape M D) (Stream.copy_list_into M)
        (StreamDeep.list-IsDeep M D)
  root-IsDeep auth_config =
      new-IsDeep (AuthDeep.object_shape M D) (Auth.copy_into M) (AuthDeep.object-IsDeep M D)
  root-IsDeep auth_config_list =
      new-IsDeep (AuthDeep.list_of_shape M D) (Auth.copy_list_into M) (AuthDeep.list-IsDeep M D)
  root-IsDeep data_plane =
      new-IsDeep (DataPlaneDeep.object_shape M D) (DataPlane.copy_into M)
        (DataPlaneDeep.object-IsDeep M D)
  root-IsDeep data_plane_list =
      new-IsDeep (DataPlaneDeep.list_of_shape M D) (DataPlane.copy_list_into M)
        (DataPlaneDeep.list-IsDeep M D)
  root-IsDeep init =
      new-IsDeep (InitDeep.object_shape M D) (Init.copy_into M) (InitDeep.object-IsDeep M D)
  root-IsDeep init_list =
      new-IsDeep (InitDeep.list_of_shape M D) (Init.copy_list_into M) (InitDeep.list-IsDeep M D)

  -- Where the deep copies of k8s.io/apimachinery are deep, so is that of every struct, object and
  -- list of the API: the copy is equal to its origin but for the addresses, a nil slice or pointer
  -- being copied to nil; it reaches only addresses that were free before; and no two parts of it
  -- reach the same address.
  pub copy-IsDeep :
      ((p : PartType) → IsDeep (ref_shape (part_shape p)) (copy_part M p))
      × ((k : Root) → IsDeep (ref_shape (root_shape k)) (copy_root M k))
  copy-IsDeep = (part-IsDeep, root-IsDeep)

  -- Where the deep copies of k8s.io/apimachinery are deep: `DeepCopyObject` of a nil object or list
  -- gives the nil interface, and of any other that reaches allocated addresses only, it gives a
  -- pointer that is not nil, to a value that is equal but for the addresses, shares none with it, and
  -- has no two parts that share one.
  pub copy_object-IsSeparate :
      (k : Root) (x : Ref (RootValue M k)) (n : ℕ)
      → ((a : ℕ) → (ref_shape (root_shape k)).Reaches x a → a < n)
      → IsSeparate (root_shape k) x (copy_object M k x n).0
  unfolding User.copy User.copy_list Client.copy Client.copy_list Tenant.copy Tenant.copy_list
      Stream.copy Stream.copy_list Auth.copy Auth.copy_list DataPlane.copy DataPlane.copy_list
      Init.copy Init.copy_list User.copy_object User.copy_list_object Client.copy_object
      Client.copy_list_object Tenant.copy_object Tenant.copy_list_object Stream.copy_object
      Stream.copy_list_object Auth.copy_object Auth.copy_list_object DataPlane.copy_object
      DataPlane.copy_list_object Init.copy_object Init.copy_list_object
  copy_object-IsSeparate user =
      object_copy-IsSeparate (UserDeep.object_shape M D) (User.copy_into M)
        (UserDeep.object-IsDeep M D)
  copy_object-IsSeparate user_list =
      object_copy-IsSeparate (UserDeep.list_of_shape M D) (User.copy_list_into M)
        (UserDeep.list-IsDeep M D)
  copy_object-IsSeparate client =
      object_copy-IsSeparate (ClientDeep.object_shape M D) (Client.copy_into M)
        (ClientDeep.object-IsDeep M D)
  copy_object-IsSeparate client_list =
      object_copy-IsSeparate (ClientDeep.list_of_shape M D) (Client.copy_list_into M)
        (ClientDeep.list-IsDeep M D)
  copy_object-IsSeparate tenant =
      object_copy-IsSeparate (TenantDeep.object_shape M D) (Tenant.copy_into M)
        (TenantDeep.object-IsDeep M D)
  copy_object-IsSeparate tenant_list =
      object_copy-IsSeparate (TenantDeep.list_of_shape M D) (Tenant.copy_list_into M)
        (TenantDeep.list-IsDeep M D)
  copy_object-IsSeparate stream =
      object_copy-IsSeparate (StreamDeep.object_shape M D) (Stream.copy_into M)
        (StreamDeep.object-IsDeep M D)
  copy_object-IsSeparate stream_list =
      object_copy-IsSeparate (StreamDeep.list_of_shape M D) (Stream.copy_list_into M)
        (StreamDeep.list-IsDeep M D)
  copy_object-IsSeparate auth_config =
      object_copy-IsSeparate (AuthDeep.object_shape M D) (Auth.copy_into M)
        (AuthDeep.object-IsDeep M D)
  copy_object-IsSeparate auth_config_list =
      object_copy-IsSeparate (AuthDeep.list_of_shape M D) (Auth.copy_list_into M)
        (AuthDeep.list-IsDeep M D)
  copy_object-IsSeparate data_plane =
      object_copy-IsSeparate (DataPlaneDeep.object_shape M D) (DataPlane.copy_into M)
        (DataPlaneDeep.object-IsDeep M D)
  copy_object-IsSeparate data_plane_list =
      object_copy-IsSeparate (DataPlaneDeep.list_of_shape M D) (DataPlane.copy_list_into M)
        (DataPlaneDeep.list-IsDeep M D)
  copy_object-IsSeparate init =
      object_copy-IsSeparate (InitDeep.object_shape M D) (Init.copy_into M)
        (InitDeep.object-IsDeep M D)
  copy_object-IsSeparate init_list =
      object_copy-IsSeparate (InitDeep.list_of_shape M D) (Init.copy_list_into M)
        (InitDeep.list-IsDeep M D)
