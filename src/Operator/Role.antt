-- ===== src/Operator/Role.antt =====
-- The role of the operator, which controller-gen makes of the markers of all files, and what an
-- operator that stays within it does.
pub mod Rules
pub mod Calls
pub mod Secrets
pub mod Others
pub mod Inits
pub mod Within
use frkr_operator.Base.{Bool, true, List, ◌++◌, ◌≡◌, All}
use frkr_operator.Api.Access.{Access, Rule, permits}
use frkr_operator.Controller.User as User
use frkr_operator.Controller.Client as Client
use frkr_operator.Controller.Tenant as Tenant
use frkr_operator.Controller.Stream as Stream
use frkr_operator.Controller.Auth as Auth
use frkr_operator.Controller.DataPlane as DataPlane
use frkr_operator.Controller.Init as Init

unfoldable pub manager_role : List Rule
manager_role =
    Auth.rules
    ++ (Client.rules
        ++ (DataPlane.rules ++ (Init.rules ++ (Stream.rules ++ (Tenant.rules ++ User.rules)))))

-- Every access is one that the role permits.
abbrev pub IsWithin : List Access → Type 0
IsWithin log = All (λ a. permits manager_role a ≡ true) log
