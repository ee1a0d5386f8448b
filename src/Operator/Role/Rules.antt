-- ===== src/Operator/Role/Rules.antt =====
-- Statements that stay within the role: one rule for each call and each way to build a statement.
use frkr_operator.Base.{
  String, ◌==◌, Bool, true, ◌&&◌, List, [], ◌∷◌, ◌++◌, ◌≡◌, All, inl, inr, arith, has_text, eq_iff,
  Bool-cases,
}
use frkr_operator.Base.Moves.{IsPreorder, Moves}
use frkr_operator.Api.Access.{Access, Rule, rule, permits}
use frkr_operator.Laws.Access.{Requests}
use frkr_operator.Operator.Role.{manager_role, IsWithin}

-- What was within the role still is.
abbrev pub Stays : List Access → List Access → Type 0
Stays before after = IsWithin before → IsWithin after

pub Stays-IsPreorder : IsPreorder Stays
Stays-IsPreorder = record { same = λ l h. h; then_on = λ k l m f g h. g (f h) }

-- A role permits each verb of a rule.
abbrev pub covers_verbs : List Rule → String → String → List String → Bool
covers_verbs role group resource [] = true
covers_verbs role group resource (v ∷ vs) =
    permits role (record { group = group; resource = resource; verb = v })
    && covers_verbs role group resource vs

covered :
    (role : List Rule) (group resource : String) (vs : List String) (v : String)
    → covers_verbs role group resource vs ≡ true
    → has_text v vs ≡ true
    → permits role (record { group = group; resource = resource; verb = v }) ≡ true
covered role group resource [] v c h = absurd (ground arith)
covered role group resource (u ∷ vs) v c h = elim (Bool-cases (u == v)) [
  | inl same ↦ rw (← (eq_iff u v).0 same) (ground arith)
  | inr other ↦ covered role group resource vs v (ground arith) (ground arith)
]

-- Then it permits what the rule permits.
covered_access :
    (role : List Rule) (group resource : String) (vs : List String) (a : Access)
    → covers_verbs role group resource vs ≡ true
    → permits (rule group resource vs ∷ []) a ≡ true
    → permits role a ≡ true
unfolding permits
covered_access role group resource vs a c h =
    let same_group : group ≡ a.group = (eq_iff group a.group).0 (ground arith) in
    let same_resource : resource ≡ a.resource = (eq_iff resource a.resource).0 (ground arith) in
    let known : has_text a.verb vs ≡ true = ground arith in
    rw (same_group, same_resource) at (covered role group resource vs a.verb c known)

All-covered :
    (role : List Rule) (group resource : String) (vs : List String) (added : List Access)
    → covers_verbs role group resource vs ≡ true
    → All (λ a. permits (rule group resource vs ∷ []) a ≡ true) added
    → All (λ a. permits role a ≡ true) added
All-covered role group resource vs [] c h = tt
All-covered role group resource vs (a ∷ added) c (h, hs) =
    (covered_access role group resource vs a c h, All-covered role group resource vs added c hs)

All-append : (Q : Access → Type 0) (xs ys : List Access) → All Q xs → All Q ys → All Q (xs ++ ys)
All-append Q [] ys h k = k
All-append Q (x ∷ xs) ys (p, h) k = (p, All-append Q xs ys h k)

-- A call that asks for what the role permits stays within it.
pub Stays-requested :
    {S X : Type 0} {log : S → List Access} (group resource : String) (vs : List String)
    (call : S → X × S)
    → Requests log (rule group resource vs) call
    → covers_verbs manager_role group resource vs ≡ true
    → Moves Stays log call
Stays-requested {log = log} group resource vs call q c = record {
  at = λ s within.
      let (added, grown, asked) = q.at s in
      rw grown (
        All-append (λ a. permits manager_role a ≡ true) (log s) added within
          (All-covered manager_role group resource vs added c asked));
}
