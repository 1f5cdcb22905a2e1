-- ===== src/Entities/Translation.antt =====
-- internal/entities/entities.go: KubernetesDeploymentStatusTranslation.
use deployment_manager.Common.{
  ℕ, ◌+◌, ◌≡◌, Bool, true, false, List, [], ◌∷◌, arith, if◌then◌else◌, ltb, ◌==◌, length,
}
use deployment_manager.Entities.Status.{NalejServiceStatus}

-- the types of a Kubernetes deployment condition that the `switch` tells apart
pub data ConditionType : Type 0 where
  available progressing other : ConditionType

pub record Counts : Type 0 where
  pub running : ℕ
  pub progressing : ℕ
  pub error : ℕ

-- the `switch` in the loop
unfoldable pub count_condition : ConditionType → Counts → Counts
count_condition ConditionType.available n = record n { running = n.running + 1 }
count_condition ConditionType.progressing n = record n { progressing = n.progressing + 1 }
count_condition ConditionType.other n = record n { error = n.error + 1 }

-- for _, c := range kStatus.Conditions
unfoldable pub count_conditions : List ConditionType → Counts → Counts
unfolding count_condition
count_conditions [] n = n
count_conditions (c ∷ cs) n = count_conditions cs (count_condition c n)

unfoldable pub kubernetes_deployment_status_translation : List ConditionType → NalejServiceStatus
unfolding count_conditions
kubernetes_deployment_status_translation conditions =
    let n = count_conditions conditions (record { running = 0; progressing = 0; error = 0 }) in
    if ltb 0 n.error
    then NalejServiceStatus.error
    else if length conditions == 0
    then NalejServiceStatus.deploying
    else if n.running == length conditions
    then NalejServiceStatus.running
    else if ltb 0 n.progressing
    then NalejServiceStatus.deploying
    else NalejServiceStatus.waiting

abbrev is_type : ConditionType → ConditionType → Bool
is_type ConditionType.available ConditionType.available = true
is_type ConditionType.progressing ConditionType.progressing = true
is_type ConditionType.other ConditionType.other = true
is_type _ _ = false

-- how often a condition type stands in the list
unfoldable pub occurrences : ConditionType → List ConditionType → ℕ
occurrences t [] = 0
occurrences t (c ∷ cs) = (if is_type t c then 1 else 0) + occurrences t cs

count_conditions-occurrences :
    (cs : List ConditionType) (n : Counts)
    → let m = count_conditions cs n in
      (m.running ≡ n.running + occurrences ConditionType.available cs)
      × (m.progressing ≡ n.progressing + occurrences ConditionType.progressing cs)
      × (m.error ≡ n.error + occurrences ConditionType.other cs)
unfolding count_conditions count_condition occurrences
count_conditions-occurrences [] n = omega arith
count_conditions-occurrences (ConditionType.available ∷ cs) n =
    omega (arith, count_conditions-occurrences cs (record n { running = n.running + 1 }))
count_conditions-occurrences (ConditionType.progressing ∷ cs) n =
    omega (arith, count_conditions-occurrences cs (record n { progressing = n.progressing + 1 }))
count_conditions-occurrences (ConditionType.other ∷ cs) n =
    omega (arith, count_conditions-occurrences cs (record n { error = n.error + 1 }))

length-occurrences :
    (cs : List ConditionType)
    → length cs
      ≡ occurrences ConditionType.available cs
        + occurrences ConditionType.progressing cs
        + occurrences ConditionType.other cs
unfolding occurrences
length-occurrences [] = omega arith
length-occurrences (ConditionType.available ∷ cs) = omega (arith, length-occurrences cs)
length-occurrences (ConditionType.progressing ∷ cs) = omega (arith, length-occurrences cs)
length-occurrences (ConditionType.other ∷ cs) = omega (arith, length-occurrences cs)

-- The translation depends on which condition types occur, and not on their order or number: a
-- condition that is neither Available nor Progressing gives ERROR; failing that, a Progressing
-- condition gives DEPLOYING; failing that, an Available one gives RUNNING; and no condition at all
-- gives DEPLOYING. So WAITING is never returned.
pub translation-occurrences :
    (cs : List ConditionType)
    → kubernetes_deployment_status_translation cs ≡ (
        if ltb 0 (occurrences ConditionType.other cs)
        then NalejServiceStatus.error
        else if ltb 0 (occurrences ConditionType.progressing cs)
        then NalejServiceStatus.deploying
        else if ltb 0 (occurrences ConditionType.available cs)
        then NalejServiceStatus.running
        else NalejServiceStatus.deploying)
unfolding kubernetes_deployment_status_translation
translation-occurrences cs = ground (
  arith,
  count_conditions-occurrences cs (record { running = 0; progressing = 0; error = 0 }),
  length-occurrences cs,
)
