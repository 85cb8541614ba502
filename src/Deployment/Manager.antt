-- ===== src/Deployment/Manager.antt =====
-- daemon/internal/deployment/manager.go: the tasks, which one a server has under way, and the locks on
-- the images. `start` takes its decision in two critical sections: `begin_start` is what it does
-- before the second one, with the answers of the other services as arguments, and `commit_start` is
-- the second one.
pub mod Locks
pub mod Trace
pub mod Table
pub mod Settle
pub mod Accounts
pub mod Kept
pub mod Invariant
pub mod Own
pub mod Ends
pub mod Alone
use prism_panel.Common.{
  ℕ, zero, suc, ◌+◌, ◌-◌, Bool, true, false, ◌||◌, ◌&&◌, not, List, [], ◌∷◌, ◌++◌, Option, none,
  some, ltb, if◌then◌else◌, ◌==◌, nat_eq, text_eq, contains, length,
}
use prism_panel.Common.Text.{Text}
use prism_panel.Common.Dict.{Dict, lookup, insert, delete}
use prism_panel.Common.Error.{
  Result, ok, err, ◌>>=◌, ◌>>◌, guard, deployment_already_running, deployment_not_found,
  instance_busy, instance_not_found, invalid_config, invalid_request, invalid_state,
}
use prism_panel.Server.{ServerConfig, mirror}
use prism_panel.Deployment.Task.{
  Kind, mirror_deploy, image_sync_back, Phase, releasing, ended, Task, Progress, new_task,
  is_finished, cancel_task, go_on, note_progress,
}

-- A `sync.RWMutex`
pub record Lock : Type 0 where
  pub readers : ℕ
  pub writer : Bool

-- A call of `start` between its two critical sections.
pub record Pending : Type 0 where
  pub server_id : Text
  pub kind : Kind
  pub targets : List ℕ

-- `mutating` are the servers whose image a call of `WithImageMutation` works on.
pub record Manager : Type 0 where
  pub tasks : Dict Text Task
  pub active : Dict Text Text
  pub locks : Text → Lock
  pub pending : List Pending
  pub mutating : List Text

-- `TryLock` and `TryRLock`
abbrev pub try_lock : Kind → Lock → Option Lock
try_lock mirror_deploy l = if l.writer then none else some (record l { readers = suc l.readers })
try_lock image_sync_back l =
    if l.writer || not (l.readers == 0) then none else some (record l { writer = true })

abbrev pub unlocked : Kind → Lock → Lock
unlocked mirror_deploy l = record l { readers = l.readers - 1 }
unlocked image_sync_back l = record l { writer = false }

unfoldable pub with_lock : Text → Lock → Manager → Manager
with_lock id l m = record m { locks = λ s. if s == id then l else m.locks s }

-- `unlockImage`
abbrev pub unlock_image : Text → Kind → Manager → Manager
unlock_image id kind m = with_lock id (unlocked kind (m.locks id)) m

-- The slots from one on.
abbrev pub slots_from : ℕ → ℕ → List ℕ
slots_from zero first = []
slots_from (suc n) first = first ∷ slots_from n (suc first)

abbrev pub insert_slot : ℕ → List ℕ → List ℕ
insert_slot s [] = s ∷ []
insert_slot s (t ∷ ts) =
    let rest = insert_slot s ts in
    if ltb s t then s ∷ t ∷ ts else (if s == t then t ∷ ts else t ∷ rest)

-- The set of the slots, sorted.
unfoldable pub sort_slots : List ℕ → List ℕ
sort_slots [] = []
sort_slots (s ∷ ss) = insert_slot s (sort_slots ss)

abbrev pub slots_ok : ℕ → List ℕ → Bool
slots_ok count [] = true
slots_ok count (s ∷ ss) = not (ltb s 1 || ltb count s) && slots_ok count ss

unfoldable pub normalize_slots : List ℕ → ℕ → Result (List ℕ)
normalize_slots requested count =
    if requested == []
    then ok (slots_from count 1)
    else guard (slots_ok count requested) instance_not_found >> ok (sort_slots requested)

-- What the other services answer: `servers.Get`, the test of the image, the two prechecks and
-- `ReserveDeployment`.
pub record Answers : Type 0 where
  pub found : Result ServerConfig
  pub image_there : Bool
  pub precheck : Kind → List ℕ → Result (Unit {0})
  pub reserves : List ℕ → Result (Unit {0})

abbrev pub is_sync_back : Kind → Bool
is_sync_back mirror_deploy = false
is_sync_back image_sync_back = true

abbrev pub locked : Option Lock → Result Lock
locked none = err instance_busy
locked (some l) = ok l

-- What `start` checks; the lock as it has been taken, and the targets.
unfoldable pub check_start : Answers → Kind → Text → List ℕ → Manager → Result (Lock × List ℕ)
check_start a kind server_id requested m = do
  cfg ← a.found
  guard (cfg.kind == mirror) invalid_state
  l ← locked (try_lock kind (m.locks server_id))
  guard (not (is_sync_back kind) || (length requested == 1)) invalid_request
  targets ← normalize_slots requested cfg.instance_count
  guard a.image_there invalid_config
  a.precheck kind targets
  guard (elim (lookup server_id m.active) [ none ↦ true | some id ↦ false ])
      deployment_already_running
  a.reserves targets
  ok (l, targets)

-- A call that fails gives the lock back, and leaves the manager as it was.
unfoldable pub begin_start : Answers → Kind → Text → List ℕ → Manager → Manager × Result (Unit {0})
begin_start a kind server_id requested m = elim (check_start a kind server_id requested m) [
  | err e ↦ (m, err e)
  | ok (l, targets) ↦ (
    record (with_lock server_id l m) {
      pending = record { server_id = server_id; kind = kind; targets = targets } ∷ m.pending;
    },
    ok tt,
  )
]

-- The second critical section, for the call that is first in the list.
unfoldable pub commit_first : Text → Pending → List Pending → Manager → Manager × Result (Unit {0})
commit_first task_id p rest m =
    let waiting = record m { pending = rest } in
    elim (lookup p.server_id m.active) [
      | some id ↦ (unlock_image p.server_id p.kind waiting, err deployment_already_running)
      | none ↦ (
        record waiting {
          tasks = insert task_id (new_task p.server_id p.kind p.targets) m.tasks;
          active = insert p.server_id task_id m.active;
        },
        ok tt,
      )
    ]

-- The calls that wait, with the one at an index in front.
abbrev pub bring : ℕ → List Pending → List Pending
bring zero ps = ps
bring (suc n) [] = []
bring (suc n) (p ∷ ps) = elim (bring n ps) [ [] ↦ p ∷ ps | q ∷ qs ↦ q ∷ p ∷ qs ]

-- Where no call waits at the index, nothing happens.
unfoldable pub commit_start : ℕ → Text → Manager → Manager × Result (Unit {0})
commit_start index task_id m = elim (bring index m.pending) [
  | [] ↦ (m, err invalid_request)
  | p ∷ rest ↦ commit_first task_id p rest m
]

-- `Cancel`
unfoldable pub cancel : Text → Bool → Manager → Manager × Result Task
cancel id force m = elim (lookup id m.tasks) [
  | none ↦ (m, err deployment_not_found)
  | some t ↦ let t' = cancel_task force t in (record m { tasks = insert id t' m.tasks }, ok t')
]

unfoldable pub get : Text → Manager → Result Task
get id m = elim (lookup id m.tasks) [ none ↦ err deployment_not_found | some t ↦ ok t ]

-- `Active`
unfoldable pub active_task : Text → Manager → Result Task
active_task server_id m = elim (lookup server_id m.active) [
  | none ↦ err deployment_not_found
  | some id ↦ get id m
]

-- What the goroutine does to the manager beside its task: it gives up its server where it finishes,
-- and releases what it holds at its end.
abbrev pub give_up : Phase → Text → Manager → Manager
give_up releasing server_id m = record m { active = delete server_id m.active }
give_up next server_id m = m

abbrev pub settle : Phase → Phase → Task → Manager → Manager
settle releasing next t m = unlock_image t.server_id t.kind m
settle ended next t m = m
settle before next t m = give_up next t.server_id m

-- A step of `run`.
unfoldable pub advance : Text → Option Text → Manager → Manager
advance id answer m = elim (lookup id m.tasks) [
  | none ↦ m
  | some t ↦
      let t' = go_on answer t in
      settle t.phase t'.phase t (record m { tasks = insert id t' m.tasks })
]

-- The progress of a copy.
unfoldable pub progress : Text → Progress → Manager → Manager
progress id p m = elim (lookup id m.tasks) [
  | none ↦ m
  | some t ↦ record m { tasks = insert id (note_progress p t) m.tasks }
]

-- `WithImageMutation`, up to the call of `mutate`, and from its return.
unfoldable pub begin_mutation : Text → Manager → Manager × Result (Unit {0})
begin_mutation server_id m = elim (try_lock image_sync_back (m.locks server_id)) [
  | none ↦ (m, err instance_busy)
  | some l ↦ (record (with_lock server_id l m) { mutating = server_id ∷ m.mutating }, ok tt)
]

abbrev pub without_one : Text → List Text → Option (List Text)
without_one id [] = none
without_one id (j ∷ js) =
    let rest = without_one id js in
    if id == j then some js else elim rest [ none ↦ none | some ks ↦ some (j ∷ ks) ]

unfoldable pub end_mutation : Text → Manager → Manager
end_mutation server_id m = elim (without_one server_id m.mutating) [
  | none ↦ m
  | some rest ↦ record (unlock_image server_id image_sync_back m) { mutating = rest }
]
