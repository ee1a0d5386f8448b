-- ===== src/Api/Group.antt =====
-- api/v1/groupversion_info.go, and the `init` functions of api/v1/*_types.go, which register the
-- types of the API group.
use frkr_operator.Base.{String, List, [], ◌∷◌, ◌++◌}
use frkr_operator.Copy.Roots as Roots
use frkr_operator.Copy.Roots.{Root}

pub record GroupVersion : Type 0 where
  pub group : String
  pub version : String

abbrev pub group_version : GroupVersion
group_version = record { group = "frkr.io"; version = "v1" }

-- `scheme.Builder`: the types that `AddToScheme` will add to a scheme under the group and version.
pub record Builder : Type 0 where
  pub group_version : GroupVersion
  pub types : List Root

abbrev pub scheme_builder : Builder
scheme_builder = record { group_version = group_version; types = [] }

-- `SchemeBuilder.Register(…)`
unfoldable pub register : List Root → Builder → Builder
register objects builder = record builder { types = builder.types ++ objects }

unfoldable pub init_auth_config : Builder → Builder
unfolding register
init_auth_config = register (Roots.auth_config ∷ Roots.auth_config_list ∷ [])

unfoldable pub init_client : Builder → Builder
unfolding register
init_client = register (Roots.client ∷ Roots.client_list ∷ [])

unfoldable pub init_data_plane : Builder → Builder
unfolding register
init_data_plane = register (Roots.data_plane ∷ Roots.data_plane_list ∷ [])

unfoldable pub init_init : Builder → Builder
unfolding register
init_init = register (Roots.init ∷ Roots.init_list ∷ [])

unfoldable pub init_stream : Builder → Builder
unfolding register
init_stream = register (Roots.stream ∷ Roots.stream_list ∷ [])

unfoldable pub init_tenant : Builder → Builder
unfolding register
init_tenant = register (Roots.tenant ∷ Roots.tenant_list ∷ [])

unfoldable pub init_user : Builder → Builder
unfolding register
init_user = register (Roots.user ∷ Roots.user_list ∷ [])

-- The builder when the package has been initialized: Go runs the `init` functions in the order of
-- the files' names.
unfoldable pub initialized : Builder
unfolding init_auth_config init_client init_data_plane init_init init_stream init_tenant init_user
    register
initialized = init_user (
    init_tenant
      (init_stream (init_init (init_data_plane (init_client (init_auth_config scheme_builder))))))

-- The Go type's name, under which a scheme knows a type.
unfoldable pub type_name : Root → String
type_name Roots.user = "FrkrUser"
type_name Roots.user_list = "FrkrUserList"
type_name Roots.client = "FrkrClient"
type_name Roots.client_list = "FrkrClientList"
type_name Roots.tenant = "FrkrTenant"
type_name Roots.tenant_list = "FrkrTenantList"
type_name Roots.stream = "FrkrStream"
type_name Roots.stream_list = "FrkrStreamList"
type_name Roots.auth_config = "FrkrAuthConfig"
type_name Roots.auth_config_list = "FrkrAuthConfigList"
type_name Roots.data_plane = "FrkrDataPlane"
type_name Roots.data_plane_list = "FrkrDataPlaneList"
type_name Roots.init = "FrkrInit"
type_name Roots.init_list = "FrkrInitList"
