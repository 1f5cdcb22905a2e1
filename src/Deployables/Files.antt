-- ===== src/Deployables/Files.antt =====
-- pkg/kubernetes/kubernetes_deployment.go: the names and the items of a list of volumes.
use deployment_manager.Common.{
  ◌≡◌, refl, ◌∙◌, ap, ◌⊎◌, inl, inr, Bool, true, false, ◌||◌, List, [], ◌∷◌, ◌++◌, String, All,
  arith, str_eq, eq_iff, map, Bool-cases,
}
use deployment_manager.Deployables.Volumes.{
  KeyToPath, Source, config_map, empty_dir, claim, Volume, add_item, add_to_volume,
}

abbrev HasItem : KeyToPath → List KeyToPath → Type 0
HasItem item [] = ⊥
HasItem item (first ∷ rest) = (first ≡ item) ⊎ HasItem item rest

abbrev InSource : KeyToPath → Source → Type 0
InSource item (config_map name items) = HasItem item items
InSource item _ = ⊥

-- a volume of the name has the item
abbrev pub Holds : String → KeyToPath → List Volume → Type 0
Holds name item [] = ⊥
Holds name item (v ∷ rest) = ((v.name ≡ name) × InSource item v.source) ⊎ Holds name item rest

abbrev pub named : String → List Volume → Bool
named name [] = false
named name (v ∷ rest) = str_eq v.name name || named name rest

-- no two volumes have one name
abbrev pub Unique : List Volume → Type 0
Unique [] = Unit
Unique (v ∷ rest) = (named v.name rest ≡ false) × Unique rest

-- the volume shows items of the config map
abbrev pub IsConfig : String → Volume → Type 0
IsConfig config v = (items : List KeyToPath) × (v.source ≡ config_map config items)

abbrev pub volume_names : List Volume → List String
volume_names = map (λ v. v.name)

HasItem-last : (item : KeyToPath) (items : List KeyToPath) → HasItem item (items ++ item ∷ [])
HasItem-last item [] = inl refl
HasItem-last item (first ∷ rest) = inr (HasItem-last item rest)

HasItem-append :
    (item new : KeyToPath) (items : List KeyToPath)
    → HasItem item items
    → HasItem item (items ++ new ∷ [])
HasItem-append item new [] h = elim h [ ]
HasItem-append item new (first ∷ rest) (inl h) = inl h
HasItem-append item new (first ∷ rest) (inr h) = inr (HasItem-append item new rest h)

InSource-add_item :
    (item new : KeyToPath) (source : Source)
    → InSource item source
    → InSource item (add_item new source)
InSource-add_item item new (config_map name items) h = HasItem-append item new items h
InSource-add_item item new (empty_dir size) h = h
InSource-add_item item new (claim name) h = h

-- add_to_volume

module _ (name : String) (new : KeyToPath) where
  pub names-add_to_volume :
      (vs : List Volume) → volume_names (add_to_volume name new vs) ≡ volume_names vs
  unfolding add_to_volume
  names-add_to_volume [] = refl
  names-add_to_volume (v ∷ vs) = ground (arith, names-add_to_volume vs)

  pub named-add_to_volume :
      (k : String) (vs : List Volume) → named k (add_to_volume name new vs) ≡ named k vs
  unfolding add_to_volume
  named-add_to_volume k [] = refl
  named-add_to_volume k (v ∷ vs) = ground (arith, named-add_to_volume k vs)

  pub Unique-add_to_volume : (vs : List Volume) → Unique vs → Unique (add_to_volume name new vs)
  unfolding add_to_volume
  Unique-add_to_volume [] u = tt
  Unique-add_to_volume (v ∷ vs) u = elim (Bool-cases (str_eq v.name name)) [
    | inl e ↦ rw e u
    | inr e ↦ rw e (named-add_to_volume v.name vs ∙ u.0, Unique-add_to_volume vs u.1)
  ]

  pub IsConfig-add_to_volume :
      (config : String) (vs : List Volume)
      → All (IsConfig config) vs
      → All (IsConfig config) (add_to_volume name new vs)
  unfolding add_to_volume
  IsConfig-add_to_volume config [] a = tt
  IsConfig-add_to_volume config (v ∷ vs) a = elim (Bool-cases (str_eq v.name name)) [
    | inl e ↦ let (items, is) = a.0 in rw e ((items ++ new ∷ [], ap (add_item new) is), a.1)
    | inr e ↦ rw e (a.0, IsConfig-add_to_volume config vs a.1)
  ]

  pub Holds-add_to_volume :
      (k : String) (item : KeyToPath) (vs : List Volume)
      → Holds k item vs
      → Holds k item (add_to_volume name new vs)
  unfolding add_to_volume
  Holds-add_to_volume k item [] h = elim h [ ]
  Holds-add_to_volume k item (v ∷ vs) h = elim (Bool-cases (str_eq v.name name)) [
    | inl e ↦ rw e (elim h [
      | inl (same, here) ↦ inl (same, InSource-add_item item new v.source here)
      | inr later ↦ inr later
    ])
    | inr e ↦
        rw e
          (elim h [ inl here ↦ inl here | inr later ↦ inr (Holds-add_to_volume k item vs later) ])
  ]

  pub Holds-added :
      (config : String) (vs : List Volume)
      → All (IsConfig config) vs
      → named name vs ≡ true
      → Holds name new (add_to_volume name new vs)
  unfolding add_to_volume
  Holds-added config [] a h = absurd (ground arith)
  Holds-added config (v ∷ vs) a h = elim (Bool-cases (str_eq v.name name)) [
    | inl e ↦
        let (items, is) = a.0 in
        rw e (inl ((eq_iff v.name name).0 e, rw is (HasItem-last new items)))
    | inr e ↦ rw e (inr (Holds-added config vs a.1 (ground arith)))
  ]

-- a volume at the end

pub names-end :
    (vs : List Volume) (v : Volume) → volume_names (vs ++ v ∷ []) ≡ volume_names vs ++ v.name ∷ []
names-end [] v = refl
names-end (w ∷ vs) v = ap (λ ns. w.name ∷ ns) (names-end vs v)

pub named-end :
    (k : String) (vs : List Volume) (v : Volume)
    → named k (vs ++ v ∷ []) ≡ (named k vs || str_eq v.name k)
named-end k [] v = ground arith
named-end k (w ∷ vs) v = ground (arith, named-end k vs v)

pub Unique-end :
    (vs : List Volume) (v : Volume) → Unique vs → named v.name vs ≡ false → Unique (vs ++ v ∷ [])
Unique-end [] v u new = (refl, tt)
Unique-end (w ∷ vs) v u new = (
  ground (arith, named-end w.name vs v, eq_iff v.name w.name, eq_iff w.name v.name),
  Unique-end vs v u.1 (ground arith),
)

pub IsConfig-end :
    (config : String) (vs : List Volume) (v : Volume)
    → All (IsConfig config) vs
    → IsConfig config v
    → All (IsConfig config) (vs ++ v ∷ [])
IsConfig-end config [] v a c = (c, tt)
IsConfig-end config (w ∷ vs) v a c = (a.0, IsConfig-end config vs v a.1 c)

pub Holds-before :
    (k : String) (item : KeyToPath) (vs : List Volume) (v : Volume)
    → Holds k item vs
    → Holds k item (vs ++ v ∷ [])
Holds-before k item [] v h = elim h [ ]
Holds-before k item (w ∷ vs) v (inl h) = inl h
Holds-before k item (w ∷ vs) v (inr h) = inr (Holds-before k item vs v h)

pub Holds-end :
    (config : String) (item : KeyToPath) (vs : List Volume) (v : Volume)
    → v.source ≡ config_map config (item ∷ [])
    → Holds v.name item (vs ++ v ∷ [])
Holds-end config item [] v is = inl (refl, rw is (inl refl))
Holds-end config item (w ∷ vs) v is = inr (Holds-end config item vs v is)
