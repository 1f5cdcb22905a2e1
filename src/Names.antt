-- ===== src/Names.antt =====
-- pkg/common/common.go, pkg/network/utils.go and pkg/kubernetes/kubernetes_utils.go: the names that
-- are given to Kubernetes. strings.ToLower, which follows the tables of Unicode, is a parameter.
-- A name is `none` where the source panics on a slice that is out of range.
use Prim.Native.String.{len}
use text.Mathlib.TextLemmas.{append_cancel_left}
use text.Mathlib.TextPositions.{len-append}
use deployment_manager.Common.{
  some_inj, ℕ, ◌≡◌, ◌≤◌, ◌<◌, refl, sym, ap, ◌∙◌, inl, inr, Bool, ◌&&◌, ◌||◌, Option, none, some,
  String, ◌↔◌, arith, if◌then◌else◌, concat, cut, keep_end, keep_where, remove_char, replace_char,
  ltb, leb, ◌==◌, len-slice, len-keep_end, keep_end-suffix, keep_end_short, Option-cases,
}

-- fmt.Sprintf("%s-%s", a, b)
abbrev pub with_dash : String → String → String
with_dash a b = concat a (concat "-" b)

-- GetNamespace, whose last parameter plays no part
unfoldable pub get_namespace : String → String → ℕ → Option String
get_namespace organization_id app_instance_id num_retry = elim (cut 0 18 organization_id) [
  | none ↦ none
  | some front ↦ some (keep_end 63 (with_dash front app_instance_id))
]

-- FormatNameWithHyphen
unfoldable pub format_name_with_hyphen : String → String
format_name_with_hyphen = replace_char 32 "-"

-- GeneratePVCName
unfoldable pub generate_pvc_name : String → String → String → String
generate_pvc_name group_id service_id index =
    keep_end 63 (with_dash (concat group_id service_id) index)

-- [-a-z0-9]
abbrev pub is_label_char : ℕ → Bool
is_label_char c = (c == 45) || (leb 97 c && leb c 122) || (leb 48 c && leb c 57)

-- ReformatLabel: the expression of its first test is no literal, so that the test never passes
unfoldable pub reformat_label : String → String
reformat_label = keep_where is_label_char

-- [-.a-zA-Z0-9]
abbrev is_name_char : ℕ → Bool
is_name_char c = is_label_char c || (c == 46) || (leb 65 c && leb c 90)

module _ (to_lower : String → String) where
  -- FormatName
  unfoldable pub format_name : String → String
  format_name name = remove_char 32 (to_lower name)

  -- GetNamePVC, whose first parameter plays no part in what it returns
  unfoldable pub get_name_pvc : String → String → String → Option String
  get_name_pvc name id index =
      let kept = keep_where is_name_char (to_lower id) in
      if ltb 61 (len kept)
      then elim (cut 0 61 kept) [ none ↦ none | some front ↦ some (with_dash front index) ]
      else some (with_dash kept index)

  -- GetServiceFQDN
  unfoldable pub get_service_fqdn : String → String → String → Option String
  unfolding format_name
  get_service_fqdn service_name organization_id app_instance_id = elim (cut 0 10 organization_id) [
    | none ↦ none
    | some org ↦ elim (cut 0 10 app_instance_id) [
      | none ↦ none
      | some app ↦ some (with_dash (format_name service_name) (with_dash org app))
    ]
  ]

  -- GetNetworkingName
  unfoldable pub get_networking_name : String → String → String → Option String
  unfolding format_name
  get_networking_name service_name organization_id app_instance_id =
      elim (cut 0 10 organization_id) [
        | none ↦ none
        | some org ↦ elim (cut 0 10 app_instance_id) [
          | none ↦ none
          | some app ↦ some (with_dash (format_name service_name) (with_dash org app))
        ]
      ]

len-cut : (n : ℕ) (s front : String) → cut 0 n s ≡ some front → len front ≤ n
unfolding cut
len-cut n s front h = ground (arith, len-slice s 0 n)

get_namespace-front :
    (org app ns : String) (n : ℕ)
    → get_namespace org app n ≡ some ns
    → (front : String) × (cut 0 18 org ≡ some front) × (ns ≡ keep_end 63 (with_dash front app))
unfolding get_namespace
get_namespace-front org app ns n h = elim (Option-cases (cut 0 18 org)) [
  | inl short ↦ absurd (ground arith)
  | inr (front, found) ↦ (front, found, ground arith)
]

-- GetNamespace panics exactly when the id of the organization is shorter than 18 bytes. A
-- namespace has at most 63 bytes and ends the text "organization-application", whatever the number
-- of retries is, and applications of one organization whose ids have at most 44 bytes have
-- different namespaces.
pub get_namespace-distinct :
    (org a b : String) (n : ℕ)
    → ((get_namespace org a n ≡ none) ↔ (len org < 18))
      × ((ns : String)
          → get_namespace org a n ≡ some ns
          → (len ns ≤ 63)
            × ((front : String) × (t : String) × (cut 0 18 org ≡ some front)
                × (concat t ns ≡ with_dash front a)))
      × ((m : ℕ) → get_namespace org a n ≡ get_namespace org a m)
      × ((ns : String)
          → len a ≤ 44
          → len b ≤ 44
          → get_namespace org a n ≡ some ns
          → get_namespace org b n ≡ some ns
          → a ≡ b)
unfolding get_namespace cut
get_namespace-distinct org a b n = (ground arith, ends, λ m. refl, apart)
  where
    ends :
        (ns : String)
        → get_namespace org a n ≡ some ns
        → (len ns ≤ 63)
          × ((front : String) × (t : String) × (cut 0 18 org ≡ some front)
              × (concat t ns ≡ with_dash front a))
    ends ns h =
        let (front, found, same) = get_namespace-front org a ns n h in
        let (t, tail) = keep_end-suffix 63 (with_dash front a) in
        rw same (len-keep_end 63 (with_dash front a), (front, t, found, tail))

    whole :
        (front app : String)
        → len front ≤ 18
        → len app ≤ 44
        → keep_end 63 (with_dash front app) ≡ with_dash front app
    whole front app f h =
        keep_end_short 63 (with_dash front app)
          (omega (arith, len-append front (concat "-" app), len-append "-" app))

    apart :
        (ns : String)
        → len a ≤ 44
        → len b ≤ 44
        → get_namespace org a n ≡ some ns
        → get_namespace org b n ≡ some ns
        → a ≡ b
    apart ns la lb ha hb =
        let (front, found, same) = get_namespace-front org a ns n ha in
        let (front', found', same') = get_namespace-front org b ns n hb in
        let one = some_inj (sym found ∙ found') in
        let f = len-cut 18 org front found in
        append_cancel_left "-" a b (
          append_cancel_left front (concat "-" a) (concat "-" b) (
            sym (whole front a f la)
            ∙ sym same
            ∙ same'
            ∙ ap (λ x. keep_end 63 (with_dash x b)) (sym one)
            ∙ whole front b f lb))
