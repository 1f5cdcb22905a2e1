-- ===== src/Tests/Informers.antt =====
-- The informers' calls at a concrete input: objects are their own keys, and the last deleted object
-- is kept.
use deployment_manager.Common.{ℕ, suc, ◌≡◌, refl, true, Option, none, some, List, [], ◌∷◌, String}
use deployment_manager.Common.Result.{Result, ok}
use deployment_manager.Events.Dispatcher.{EventType, Event, Handled, DeletedStore, dispatch}
use deployment_manager.Events.Informers.{Keys, Waiting, create_event, on_delete, on_delete-dispatch}

abbrev keys : Keys String
keys = record { deletion_key = λ o. ok o; meta_key = λ o. ok o; kind_of = λ o. ok "Pod" }

abbrev enqueue : Event → List Event → List Event
enqueue e waiting = e ∷ waiting

abbrev keep : String → Option String → Option String
keep obj kept = some obj

abbrev store : DeletedStore String (Option String)
store = record { get_by_key = λ key kept. ok kept; remove = λ key kept. kept }

abbrev gone : String → Result (Option String)
gone key = ok none

-- the function counts its calls
abbrev count_call : Option String → String → EventType → ℕ → Handled ℕ
count_call old obj type calls = some (none, suc calls)

abbrev start : Waiting (List Event) (Option String)
start = record { queue = []; deleted = none }

on_delete-dispatch_example :
    (e : Event) × (create_event keys enqueue keep "ns/web" EventType.delete ≡ ok e)
    × ((on_delete keys enqueue keep "ns/web" start).queue ≡ enqueue e [])
    × ((dispatch
          (λ kind. some gone)
          store
          (λ obj. true)
          (λ kind. some count_call)
          e
          (on_delete keys enqueue keep "ns/web" start).deleted
          0).0
        ≡ count_call none "ns/web" EventType.delete 0)
on_delete-dispatch_example =
    on_delete-dispatch keys enqueue keep (λ kind. some gone) store (λ obj. true)
      (λ kind. some count_call) "ns/web" "ns/web" "Pod" gone count_call start 0 (λ d. refl) refl
      refl refl refl refl refl
