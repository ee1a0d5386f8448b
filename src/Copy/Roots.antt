-- ===== src/Copy/Roots.antt =====
-- Every deep copy of the API: of the parts of objects, and of the objects and lists themselves.
pub mod Deep
use frkr_operator.Base.{ℕ, ◌<◌, Option}
use frkr_operator.Copy.{Ref, Copier, Metav1}
use frkr_operator.Api.Client as ApiClient
use frkr_operator.Api.Tenant as ApiTenant
use frkr_operator.Api.Stream as ApiStream
use frkr_operator.Api.DataPlane as ApiDataPlane
use frkr_operator.Copy.User as User
use frkr_operator.Copy.Client as Client
use frkr_operator.Copy.Tenant as Tenant
use frkr_operator.Copy.Stream as Stream
use frkr_operator.Copy.Auth as Auth
use frkr_operator.Copy.DataPlane as DataPlane
use frkr_operator.Copy.Init as Init

-- The structs that are no objects of their own.
pub data PartType : Type 0 where
  user_spec user_status client_spec client_status tenant_spec tenant_status stream_spec
        stream_status oidc_config auth_config_spec auth_config_status database_config
        message_queue_config data_plane_spec data_plane_status init_spec init_status :
      PartType

-- The objects and lists, which implement `runtime.Object`.
pub data Root : Type 0 where
  user user_list client client_list tenant tenant_list stream stream_list auth_config
        auth_config_list data_plane data_plane_list init init_list :
      Root

module _ (M : Metav1) where
  abbrev pub PartValue : PartType → Type 0
  PartValue user_spec = User.FrkrUserSpec
  PartValue user_status = User.FrkrUserStatus M
  PartValue client_spec = ApiClient.FrkrClientSpec
  PartValue client_status = Client.FrkrClientStatus M
  PartValue tenant_spec = ApiTenant.FrkrTenantSpec
  PartValue tenant_status = Tenant.FrkrTenantStatus M
  PartValue stream_spec = ApiStream.FrkrStreamSpec
  PartValue stream_status = Stream.FrkrStreamStatus M
  PartValue oidc_config = Auth.OidcConfig
  PartValue auth_config_spec = Auth.FrkrAuthConfigSpec
  PartValue auth_config_status = Auth.FrkrAuthConfigStatus M
  PartValue database_config = ApiDataPlane.DatabaseConfig
  PartValue message_queue_config = DataPlane.MessageQueueConfig
  PartValue data_plane_spec = DataPlane.FrkrDataPlaneSpec
  PartValue data_plane_status = DataPlane.FrkrDataPlaneStatus M
  PartValue init_spec = Init.FrkrInitSpec
  PartValue init_status = Init.FrkrInitStatus M

  abbrev pub RootValue : Root → Type 0
  RootValue user = User.FrkrUser M
  RootValue user_list = User.FrkrUserList M
  RootValue client = Client.FrkrClient M
  RootValue client_list = Client.FrkrClientList M
  RootValue tenant = Tenant.FrkrTenant M
  RootValue tenant_list = Tenant.FrkrTenantList M
  RootValue stream = Stream.FrkrStream M
  RootValue stream_list = Stream.FrkrStreamList M
  RootValue auth_config = Auth.FrkrAuthConfig M
  RootValue auth_config_list = Auth.FrkrAuthConfigList M
  RootValue data_plane = DataPlane.FrkrDataPlane M
  RootValue data_plane_list = DataPlane.FrkrDataPlaneList M
  RootValue init = Init.FrkrInit M
  RootValue init_list = Init.FrkrInitList M

  abbrev pub copy_part : (p : PartType) → Copier (Ref (PartValue p))
  copy_part user_spec = User.copy_spec
  copy_part user_status = User.copy_status M
  copy_part client_spec = Client.copy_spec
  copy_part client_status = Client.copy_status M
  copy_part tenant_spec = Tenant.copy_spec
  copy_part tenant_status = Tenant.copy_status M
  copy_part stream_spec = Stream.copy_spec
  copy_part stream_status = Stream.copy_status M
  copy_part oidc_config = Auth.copy_oidc
  copy_part auth_config_spec = Auth.copy_spec
  copy_part auth_config_status = Auth.copy_status M
  copy_part database_config = DataPlane.copy_database
  copy_part message_queue_config = DataPlane.copy_queue
  copy_part data_plane_spec = DataPlane.copy_spec
  copy_part data_plane_status = DataPlane.copy_status M
  copy_part init_spec = Init.copy_spec
  copy_part init_status = Init.copy_status M

  abbrev pub copy_root : (k : Root) → Copier (Ref (RootValue k))
  copy_root user = User.copy M
  copy_root user_list = User.copy_list M
  copy_root client = Client.copy M
  copy_root client_list = Client.copy_list M
  copy_root tenant = Tenant.copy M
  copy_root tenant_list = Tenant.copy_list M
  copy_root stream = Stream.copy M
  copy_root stream_list = Stream.copy_list M
  copy_root auth_config = Auth.copy M
  copy_root auth_config_list = Auth.copy_list M
  copy_root data_plane = DataPlane.copy M
  copy_root data_plane_list = DataPlane.copy_list M
  copy_root init = Init.copy M
  copy_root init_list = Init.copy_list M

  abbrev pub copy_object : (k : Root) → Ref (RootValue k) → ℕ → Option (Ref (RootValue k)) × ℕ
  copy_object user = User.copy_object M
  copy_object user_list = User.copy_list_object M
  copy_object client = Client.copy_object M
  copy_object client_list = Client.copy_list_object M
  copy_object tenant = Tenant.copy_object M
  copy_object tenant_list = Tenant.copy_list_object M
  copy_object stream = Stream.copy_object M
  copy_object stream_list = Stream.copy_list_object M
  copy_object auth_config = Auth.copy_object M
  copy_object auth_config_list = Auth.copy_list_object M
  copy_object data_plane = DataPlane.copy_object M
  copy_object data_plane_list = DataPlane.copy_list_object M
  copy_object init = Init.copy_object M
  copy_object init_list = Init.copy_list_object M
