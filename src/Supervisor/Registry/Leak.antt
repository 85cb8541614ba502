-- ===== src/Supervisor/Registry/Leak.antt =====
-- A server of which an instance is locked for a deployment.
use prism_panel.Common.{
  ℕ, ◌≡◌, ◌≢◌, refl, subst, ◌∙◌, inl, inr, true, false, List, [], ◌∷◌, some, if◌then◌else◌, ◌==◌,
  text_eq, eq→≡, contains, arith, Bool-cases, Option-cases,
}
use prism_panel.Common.Text.{Text}
use prism_panel.Common.Error.{ok, err, instance_busy}
use prism_panel.Server.{Paths, ServerConfig, normalize, instances}
use prism_panel.Supervisor.Types.{Instance, Instances}
use prism_panel.Supervisor.Deployment.{held_as, with_op}
use prism_panel.Supervisor.Registry.{
  validate_server, Locking, refused, lock_server, with_held, apply_server,
}

pub with_held_at :
    (ids : List Text) (m : Instances) (j : Text)
    → with_held ids m j ≡ (if contains ids j then held_as true (m j) else m j)
unfolding with_held with_op
with_held_at [] m j = refl
with_held_at (id ∷ ids) m j = elim (Option-cases (m j)) [
  | inl e ↦ ground (arith, with_held_at ids m j)
  | inr (i, e) ↦ ground (arith, with_held_at ids m j)
]

-- Nobody holds a mutex.
abbrev pub AllFree : Instances → Type 0
AllFree m = (j : Text) (k : Instance) → m j ≡ some k → k.op_held ≡ false

-- An instance of the server that a deployment has locked.
abbrev pub IsPinned : Text → Instances → Text → Type 0
IsPinned server_id m j =
    (k : Instance) × (m j ≡ some k)
    × ((k.cfg.server_id == server_id) ≡ true)
    × (k.deployment_locked ≡ true)

-- The loop stops at a pinned instance, with its mutex taken.
abbrev Refuses : Text → Instances → Locking → Type 0
Refuses server_id m l =
    (j : Text) × (more : List Text) × (l ≡ refused (j ∷ more)) × IsPinned server_id m j

-- The rest of the keys, where the first is another instance.
later :
    (m : Instances) (v : Text) (visit : List Text) (id : Text) (i : Instance)
    → contains (v ∷ visit) id ≡ true
    → m id ≡ some i
    → (m v ≢ some i)
    → contains visit id ≡ true
later m v visit id i in_ e other = elim (Bool-cases (id == v)) [
  | inl same ↦ absurd (other (subst (λ x. m x ≡ some i) (eq→≡ id v same) e))
  | inr differ ↦ ground arith
]

lock_server_lem :
    (server_id : Text) (locked visit : List Text) (m : Instances) (id : Text)
    → AllFree m
    → contains visit id ≡ true
    → IsPinned server_id m id
    → Refuses server_id m (lock_server server_id locked visit m)
unfolding lock_server
lock_server_lem server_id locked [] m id free in_ pinned = absurd (ground arith)
lock_server_lem server_id locked (v ∷ visit) m id free in_ (i, e, own, lock) =
    elim (Option-cases (m v)) [
      | inl n ↦
          rw (n, lock_server)
            (lock_server_lem server_id locked visit m id free
              (later m v visit id i in_ e (λ p. ground (arith, p, n))) (i, e, own, lock))
      | inr (k, n) ↦ elim (Bool-cases (k.cfg.server_id == server_id)) [
        | inl mine ↦ elim (Bool-cases k.deployment_locked) [
          | inl held ↦
              (v, locked, rw (n, mine, free v k n, held, lock_server) refl, (k, n, mine, held))
          | inr loose ↦
              rw (n, mine, free v k n, loose, lock_server)
                (lock_server_lem server_id (v ∷ locked) visit m id free
                  (later m v visit id i in_ e (λ p. ground (arith, p, n))) (i, e, own, lock))
        ]
        | inr foreign ↦
            rw (n, foreign, lock_server)
              (lock_server_lem server_id locked visit m id free
                (later m v visit id i in_ e (λ p. ground (arith, p, n))) (i, e, own, lock))
      ]
    ]

-- The instance under the key, with its mutex taken.
abbrev pub IsStuck : Instances → Text → Type 0
IsStuck m j = (k : Instance) × (m j ≡ some k) × (k.op_held ≡ true) × (k.deployment_locked ≡ true)

-- A server that would be accepted, and of which an instance is locked for a deployment while nobody
-- holds a mutex: `ApplyServer` fails with INSTANCE_BUSY, and it leaves the mutex of an instance taken
-- that nobody held before.
pub apply_server_leak :
    (fs : Paths) (daemon_port : ℕ) (raw : ServerConfig) (visit : List Text) (m : Instances)
    (id : Text)
    → AllFree m
    → contains visit id ≡ true
    → IsPinned (normalize fs raw).server_id m id
    → validate_server daemon_port
        (instances fs (normalize fs raw))
        (normalize fs raw).server_id
        visit
        m
      ≡ ok tt
    → let r = apply_server fs daemon_port raw visit m in
      (r.1 ≡ err instance_busy) × ((j : Text) × IsStuck r.0 j)
unfolding apply_server
apply_server_leak fs daemon_port raw visit m id free in_ pinned valid =
    let server_id = (normalize fs raw).server_id in
    let (j, more, refuses, (k, e, mine, held)) =
      lock_server_lem server_id [] visit m id free in_ pinned in
    let at : IsStuck (with_held (j ∷ more) m) j =
      (record k { op_held = true }, with_held_at (j ∷ more) m j ∙ ground (arith, e), refl, held) in
    rw (valid, refuses, apply_server) (refl, (j, at))
