-- ===== src/Deployables/Created.antt =====
-- pkg/kubernetes: what the loops of Deploy and Undeploy leave behind.
use deployment_manager.Common.{
  Advances, Advances-nil, Advances-fails, Advances-next, ◌≡◌, refl, sym, ap, subst, ◌∙◌, inl, inr,
  Bool, true, false, none, some, List, [], ◌∷◌, ◌++◌, String, All, Map, Option-cases, map,
}
use mathlib.Core.List.{append_assoc, append-nil}
use deployment_manager.Common.Result.{failed, ok, Result-cases}
use deployment_manager.Monitored.{Entries, Error, add_pending_resource}
use deployment_manager.Monitored.Invariant.{IsValid}
use deployment_manager.Monitored.Histories.{
  Call, adds_pending_resource, run, step, IsProper, run-IsValid,
}
use deployment_manager.Entities.Monitor.{new_monitored_platform_resource}
use deployment_manager.Deployables.Selectors.{created_resource}
use deployment_manager.Deployables.Loops.{
  Object, Client, Progress, note_created, create_each, delete_each,
}

-- the calls of the monitor between two states of its entries
abbrev pub Reaches : Entries → Entries → Type 0
Reaches p q = (calls : List Call) × All IsProper calls × (q ≡ run calls p)

Reaches-refl : (p : Entries) → Reaches p p
unfolding run
Reaches-refl p = ([], tt, refl)

Reaches-add_pending :
    (labels : Map String) (uid : String) (p q : Entries)
    → Reaches (add_pending_resource (created_resource labels uid) p).0 q
    → Reaches p q
unfolding run step created_resource new_monitored_platform_resource
Reaches-add_pending labels uid p q (calls, proper, same) =
    (adds_pending_resource (created_resource labels uid) ∷ calls, (refl, proper), same)

module _ {ℓ} {W : Type ℓ} (client : Client W) where
  pub create_each_refused :
      (monitored : Bool) (object : Object) (rest : List Object) (s : Progress W) (text : String)
      → (client.create object s.world).0 ≡ failed text
      → create_each client monitored (object ∷ rest) s
        ≡ (some text, record s { world = (client.create object s.world).1 })
  unfolding create_each
  create_each_refused monitored object rest s text refused = rw (refused, create_each) refl

  pub create_each_fine :
      (monitored : Bool) (object : Object) (rest : List Object) (s : Progress W) (uid : String)
      (labels : Map String)
      → (client.create object s.world).0 ≡ ok (uid, labels)
      → create_each client monitored (object ∷ rest) s
        ≡ create_each client monitored rest
            (note_created client monitored object uid labels (client.create object s.world).1 s)
  unfolding create_each
  create_each_fine monitored object rest s uid labels fine = rw (fine, create_each) refl

  pub delete_each_refused :
      (name : String) (rest : List String) (s : Progress W) (text : String)
      → (client.delete name s.world).0 ≡ some text
      → delete_each client (name ∷ rest) s
        ≡ (some text, record s { world = (client.delete name s.world).1 })
  unfolding delete_each
  delete_each_refused name rest s text refused = rw (refused, delete_each) refl

  pub delete_each_fine :
      (name : String) (rest : List String) (s : Progress W)
      → (client.delete name s.world).0 ≡ none
      → delete_each client (name ∷ rest) s
        ≡ delete_each client rest
            (record s { world = (client.delete name s.world).1; done = s.done ++ name ∷ [] })
  unfolding delete_each
  delete_each_fine name rest s fine = rw (fine, delete_each) refl

  note_created-Reaches :
      (monitored : Bool) (object : Object) (uid : String) (labels : Map String) (w : W)
      (s : Progress W) (q : Entries)
      → Reaches (note_created client monitored object uid labels w s).entries q
      → Reaches s.entries q
  unfolding note_created
  note_created-Reaches true object uid labels w s q h = Reaches-add_pending labels uid s.entries q h
  note_created-Reaches false object uid labels w s q h = h

  -- the answer of a creation, as an error or none
  abbrev pub creation : Object → W → Error × W
  creation object w =
      let (answer, end) = client.create object w in
      (elim answer as (λ _. Error) [ failed err ↦ some err | ok made ↦ none ], end)

  -- a loop over `xs` that stops at the first error that `act` answers, and notes the names of those
  -- before it
  abbrev pub StopsAtError :
      (A : Type 0)
      → (A → String)
      → (A → W → Error × W)
      → List A
      → Progress W
      → Error × Progress W
      → Type ℓ
  StopsAtError A name_of act xs s r =
      (done : List A) × (tried : List A) × Advances act xs s.world r.0 r.1.world done tried
      × (r.1.done ≡ s.done ++ map name_of done)

  StopsAtError-next :
      {A : Type 0} (name_of : A → String) (act : A → W → Error × W) (x : A) (xs : List A)
      (s s' : Progress W) (r : Error × Progress W)
      → (act x s.world).0 ≡ none
      → s'.world ≡ (act x s.world).1
      → s'.done ≡ s.done ++ name_of x ∷ []
      → StopsAtError A name_of act xs s' r
      → StopsAtError A name_of act (x ∷ xs) s r
  StopsAtError-next {A} name_of act x xs s s' r fine world noted (done, tried, advances, same) = (
    x ∷ done,
    x ∷ tried,
    Advances-next act x xs s.world _ _ done tried fine (rw world at advances),
    same
        ∙ ap (λ front. front ++ map name_of done) noted
        ∙ append_assoc s.done (name_of x ∷ []) (map name_of done),
  )

  StopsAtError-refused :
      {A : Type 0} (name_of : A → String) (act : A → W → Error × W) (x : A) (xs : List A)
      (s : Progress W) (text : String)
      → (act x s.world).0 ≡ some text
      → StopsAtError A name_of act (x ∷ xs) s (some text, record s { world = (act x s.world).1 })
  StopsAtError-refused {A} name_of act x xs s text refused =
      ([], x ∷ [], Advances-fails act x xs s.world text refused, sym (append-nil s.done))

  create_each_lem :
      (monitored : Bool) (objects : List Object) (s : Progress W)
      → let r = create_each client monitored objects s in
        StopsAtError Object (λ o. o.name) creation objects s r × Reaches s.entries r.1.entries
  unfolding create_each note_created
  create_each_lem monitored [] s =
      (([], [], Advances-nil creation s.world, sym (append-nil s.done)), Reaches-refl s.entries)
  create_each_lem monitored (object ∷ rest) s =
      let w = (client.create object s.world).1 in
      elim (Result-cases (client.create object s.world).0) [
        | inl (text, refused) ↦ rw (create_each_refused monitored object rest s text refused) (
          StopsAtError-refused (λ o. o.name) creation object rest s text (rw refused refl),
          Reaches-refl s.entries,
        )
        | inr ((uid, labels), fine) ↦
            let next = note_created client monitored object uid labels w s in
            let later = create_each_lem monitored rest next in
            rw (create_each_fine monitored object rest s uid labels fine) (
              StopsAtError-next (λ o. o.name) creation object rest s next
                  (create_each client monitored rest next) (rw fine refl) refl refl later.0,
              note_created-Reaches monitored object uid labels w s _ later.1,
            )
      ]

  pub create_each-StopsAtError :
      (monitored : Bool) (objects : List Object) (s : Progress W)
      → let r = create_each client monitored objects s in
        StopsAtError Object (λ o. o.name) creation objects s r
        × Reaches s.entries r.1.entries
        × (IsValid s.entries → IsValid r.1.entries)
  create_each-StopsAtError monitored objects s =
      let (stops, (calls, proper, same)) = create_each_lem monitored objects s in
      (
        stops,
        (calls, proper, same),
        λ v. subst IsValid (sym same) (run-IsValid calls s.entries proper v),
      )

  pub delete_each-StopsAtError :
      (names : List String) (s : Progress W)
      → let r = delete_each client names s in
        StopsAtError String (λ n. n) client.delete names s r × (r.1.entries ≡ s.entries)
  unfolding delete_each
  delete_each-StopsAtError [] s =
      (([], [], Advances-nil client.delete s.world, sym (append-nil s.done)), refl)
  delete_each-StopsAtError (name ∷ rest) s = elim (Option-cases (client.delete name s.world).0) [
    | inr (text, refused) ↦
        rw (delete_each_refused name rest s text refused)
          (StopsAtError-refused (λ n. n) client.delete name rest s text refused, refl)
    | inl fine ↦
        let next : Progress W = record s {
          world = (client.delete name s.world).1;
          done = s.done ++ name ∷ [];
        } in
        let later = delete_each-StopsAtError rest next in
        rw (delete_each_fine name rest s fine) (
          StopsAtError-next (λ n. n) client.delete name rest s next (delete_each client rest next)
              fine refl refl later.0,
          later.1,
        )
  ]
