-- ===== src/Deployables/Groups.antt =====
-- pkg/kubernetes: the loops over a map of services, and the loop over the services of Kubernetes.
use deployment_manager.Common.{
  ◌≡◌, refl, sym, ap, ◌∙◌, inl, inr, Bool, false, none, some, List, [], ◌∷◌, ◌++◌, String, Map,
  Option-cases,
}
use deployment_manager.Common.Result.{Result-cases}
use deployment_manager.Monitored.{Error}
use deployment_manager.Monitored.Invariant.{IsValid}
use deployment_manager.Deployables.Created.{
  Reaches, creation, StopsAtError, create_each-StopsAtError, delete_each-StopsAtError,
  create_each_refused, create_each_fine, delete_each_refused, delete_each_fine,
}
use deployment_manager.Deployables.Loops.{
  Object, Client, Progress, create_each, create_groups, create_missing, delete_each, delete_groups,
}

-- the lists of a map, one after the other
abbrev pub all_of {ℓ} : {A : Type ℓ} → Map (List A) → List A
all_of [] = []
all_of ((k, xs) ∷ rest) = xs ++ all_of rest

module _ {ℓ} {W : Type ℓ} (client : Client W) where
  -- the second loop, if the first has no error
  abbrev and_then : Error × Progress W → (Progress W → Error × Progress W) → Error × Progress W
  and_then r next = elim r.0 [ none ↦ next r.1 | some text ↦ (some text, r.1) ]

  create_each_nil :
      (monitored : Bool) (s : Progress W) → create_each client monitored [] s ≡ (none, s)
  unfolding create_each
  create_each_nil monitored s = refl

  delete_each_nil : (s : Progress W) → delete_each client [] s ≡ (none, s)
  unfolding delete_each
  delete_each_nil s = refl

  create_each-append :
      (monitored : Bool) (xs ys : List Object) (s : Progress W)
      → create_each client monitored (xs ++ ys) s
        ≡ and_then (create_each client monitored xs s) (create_each client monitored ys)
  create_each-append monitored [] ys s =
      sym (ap (λ r. and_then r (create_each client monitored ys)) (create_each_nil monitored s))
  create_each-append monitored (object ∷ xs) ys s =
      elim (Result-cases (client.create object s.world).0) [
        | inl (text, refused) ↦
            create_each_refused client monitored object (xs ++ ys) s text refused
            ∙ sym (
                ap (λ r. and_then r (create_each client monitored ys))
                  (create_each_refused client monitored object xs s text refused))
        | inr ((uid, labels), fine) ↦
            create_each_fine client monitored object (xs ++ ys) s uid labels fine
            ∙ create_each-append monitored xs ys _
            ∙ sym (
                ap (λ r. and_then r (create_each client monitored ys))
                  (create_each_fine client monitored object xs s uid labels fine))
      ]

  delete_each-append :
      (xs ys : List String) (s : Progress W)
      → delete_each client (xs ++ ys) s ≡ and_then (delete_each client xs s) (delete_each client ys)
  delete_each-append [] ys s =
      sym (ap (λ r. and_then r (delete_each client ys)) (delete_each_nil s))
  delete_each-append (name ∷ xs) ys s = elim (Option-cases (client.delete name s.world).0) [
    | inr (text, refused) ↦
        delete_each_refused client name (xs ++ ys) s text refused
        ∙ sym (
            ap (λ r. and_then r (delete_each client ys))
              (delete_each_refused client name xs s text refused))
    | inl fine ↦
        delete_each_fine client name (xs ++ ys) s fine
        ∙ delete_each-append xs ys _
        ∙ sym
            (ap (λ r. and_then r (delete_each client ys)) (delete_each_fine client name xs s fine))
  ]

  create_groups_lem :
      (monitored : Bool) (groups : Map (List Object)) (s : Progress W)
      → create_groups client monitored groups s ≡ create_each client monitored (all_of groups) s
  unfolding create_groups create_each
  create_groups_lem monitored [] s = refl
  create_groups_lem monitored ((service_id, objects) ∷ rest) s =
      elim (Option-cases (create_each client monitored objects s).0) [
        | inl fine ↦
            rw (create_each-append monitored objects (all_of rest) s, fine, create_groups, and_then)
              (create_groups_lem monitored rest (create_each client monitored objects s).1)
        | inr (text, refused) ↦
            rw
              (
                create_each-append monitored objects (all_of rest) s,
                refused,
                create_groups,
                and_then,
              )
              refl
      ]

  delete_groups_lem :
      (groups : Map (List String)) (s : Progress W)
      → delete_groups client groups s ≡ delete_each client (all_of groups) s
  unfolding delete_groups delete_each
  delete_groups_lem [] s = refl
  delete_groups_lem ((service_id, names) ∷ rest) s =
      elim (Option-cases (delete_each client names s).0) [
        | inl fine ↦
            rw (delete_each-append names (all_of rest) s, fine, delete_groups, and_then)
              (delete_groups_lem rest (delete_each client names s).1)
        | inr (text, refused) ↦
            rw (delete_each-append names (all_of rest) s, refused, delete_groups, and_then) refl
      ]

  -- While the look-up fails for another reason than that they are missing, no service is created.
  pub create_missing_silent :
      (objects : List Object) (s : Progress W)
      → ((name : String) → client.is_not_found name s.world ≡ false)
      → create_missing client objects s ≡ (none, s)
  unfolding create_missing
  create_missing_silent [] s h = refl
  create_missing_silent (object ∷ rest) s h =
      rw (h object.name, create_missing) (create_missing_silent rest s h)

  -- The loops of Deploy create their objects in order, and stop at the first that Kubernetes refuses
  -- to create: they return the error that it answers then and no error otherwise, and have created
  -- exactly the objects before it. What they do to the monitor is a history of proper calls, so that
  -- a valid monitor stays valid. The loops of Undeploy delete in the same way and do not touch the
  -- monitor. The nested loops over a map of services do as one loop over all the objects does.
  pub create_each-delete_each :
      (monitored : Bool) (groups : Map (List Object)) (names : Map (List String)) (s : Progress W)
      → let objects = all_of groups in
        let made = create_each client monitored objects s in
        let gone = delete_each client (all_of names) s in
        StopsAtError client Object (λ o. o.name) (creation client) objects s made
        × Reaches s.entries made.1.entries
        × (IsValid s.entries → IsValid made.1.entries)
        × StopsAtError client String (λ n. n) client.delete (all_of names) s gone
        × (gone.1.entries ≡ s.entries)
        × (create_groups client monitored groups s ≡ made)
        × (delete_groups client names s ≡ gone)
  create_each-delete_each monitored groups names s =
      let (created, reached, valid) = create_each-StopsAtError client monitored (all_of groups) s in
      let (deleted, same) = delete_each-StopsAtError client (all_of names) s in
      (
        created,
        reached,
        valid,
        deleted,
        same,
        create_groups_lem monitored groups s,
        delete_groups_lem names s,
      )
