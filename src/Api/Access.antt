-- ===== src/Api/Access.antt =====
-- What a client may ask of the Kubernetes API: the `+kubebuilder:rbac` markers, of which a role is
-- generated, and the accesses that a rule of a role permits.
use frkr_operator.Base.{String, ◌==◌, Bool, false, ◌&&◌, ◌||◌, List, [], ◌∷◌, has_text}

pub record Access : Type 0 where
  pub group : String
  pub resource : String
  pub verb : String

-- A marker: `groups=…,resources=…,verbs=…`.
pub record Rule : Type 0 where
  pub group : String
  pub resource : String
  pub verbs : List String

unfoldable pub permits : List Rule → Access → Bool
permits [] a = false
permits (r ∷ rs) a =
    (r.group == a.group && (r.resource == a.resource && has_text a.verb r.verbs)) || permits rs a

abbrev pub read_verbs : List String
read_verbs = "get" ∷ "list" ∷ "watch" ∷ []

abbrev pub all_verbs : List String
all_verbs = "get" ∷ "list" ∷ "watch" ∷ "create" ∷ "update" ∷ "patch" ∷ "delete" ∷ []

abbrev pub status_verbs : List String
status_verbs = "get" ∷ "update" ∷ "patch" ∷ []

abbrev pub rule : String → String → List String → Rule
rule group resource verbs = record { group = group; resource = resource; verbs = verbs }
