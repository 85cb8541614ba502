-- ===== src/Supervisor/Registry/Ports.antt =====
-- The ports of the managed instances, through the changes to the servers.
use prism_panel.Common.{
  ℕ, ◌≡◌, ◌≢◌, sym, ◌∙◌, inl, inr, true, false, List, [], some, ◌==◌, text_eq, nat_eq, contains,
  arith, Option-cases,
}
use prism_panel.Common.Text.{Text}
use prism_panel.Common.Error.{ok, Result-cases}
use prism_panel.Server.{Paths, ServerConfig, InstanceConfig, normalize, instances}
use prism_panel.Supervisor.Types.{Instance, Instances}
use prism_panel.Supervisor.Deployment.{unlock_operations}
use prism_panel.Supervisor.Registry.{
  check_candidates, check_pairs, validate_server, Locking, all_locked, held_back, refused,
  lock_server, with_held, target, with_targets, apply_locked, apply_server,
}
use prism_panel.Supervisor.Registry.Served.{
  served, served-with_held, served-unlock_operations, served_after, served-with_targets,
}
use prism_panel.Supervisor.Registry.Checks.{
  check_pairs_lem, check_candidate_lem, check_candidates_lem, validate_server_lem,
}

-- Managed instances have ports of their own, and none has that of the daemon.
pub record HasOwnPorts (daemon_port : ℕ) (m : Instances) : Type 0 where
  pub apart :
      (i j : Text) (c d : InstanceConfig)
      → served (m i) ≡ some c
      → served (m j) ≡ some d
      → c.port ≡ d.port
      → i ≡ j
  pub free : (i : Text) (c : InstanceConfig) → served (m i) ≡ some c → c.port ≢ daemon_port

-- Only what is served counts.
HasOwnPorts-served :
    (daemon_port : ℕ) (m n : Instances)
    → ((j : Text) → served (n j) ≡ served (m j))
    → HasOwnPorts daemon_port m
    → HasOwnPorts daemon_port n
HasOwnPorts-served daemon_port m n same h = record {
  apart = λ i j c d e f. h.apart i j c d (sym (same i) ∙ e) (sym (same j) ∙ f);
  free = λ i c e. h.free i c (sym (same i) ∙ e);
}

-- The keys are visited all.
abbrev pub Covers : List Text → Instances → Type 0
Covers visit m = (j : Text) (i : Instance) → m j ≡ some i → contains visit j ≡ true

served-contains :
    (visit : List Text) (m : Instances) (j : Text) (c : InstanceConfig)
    → Covers visit m
    → served (m j) ≡ some c
    → contains visit j ≡ true
served-contains visit m j c covers e = elim (Option-cases (m j)) [
  | inl n ↦ absurd (ground arith)
  | inr (i, n) ↦ covers j i n
]

module _ (daemon_port : ℕ) (server_id : Text) (targets : List InstanceConfig) (visit : List Text)
    (m : Instances) (covers : Covers visit m)
    (checked : check_candidates daemon_port server_id targets visit m ≡ ok tt)
    (paired : check_pairs targets ≡ ok tt) where
  -- A target's port is no port of another server's instance.
  target_apart :
      (i j : Text) (c d : InstanceConfig)
      → target i targets ≡ some c
      → served (m j) ≡ some d
      → (d.server_id == server_id) ≡ false
      → c.port ≢ d.port
  target_apart i j c d e f foreign =
      check_candidate_lem server_id c visit m j d
        (check_candidates_lem daemon_port server_id targets visit m i c checked e).1
        (served-contains visit m j d covers f) f foreign

  with_targets-HasOwnPorts :
      HasOwnPorts daemon_port m → HasOwnPorts daemon_port (with_targets server_id targets m)
  with_targets-HasOwnPorts h = record {
    apart = λ i j c d e f same. elim (served_after server_id targets m i c e) [
      | inl a ↦ elim (served_after server_id targets m j d f) [
        | inl b ↦ check_pairs_lem targets i j c d paired a b same
        | inr (b, foreign) ↦ absurd (target_apart i j c d a b foreign same)
      ]
      | inr (a, foreign) ↦ elim (served_after server_id targets m j d f) [
        | inl b ↦ absurd (target_apart j i d c b a foreign (sym same))
        | inr (b, _) ↦ h.apart i j c d a b same
      ]
    ];
    free = λ i c e. elim (served_after server_id targets m i c e) [
      | inl a ↦ (check_candidates_lem daemon_port server_id targets visit m i c checked a).0
      | inr (a, _) ↦ h.free i c a
    ];
  }

  -- The mutexes change nothing, however the loop that takes them ends.
  apply_locked-HasOwnPorts :
      (l : Locking)
      → HasOwnPorts daemon_port m
      → HasOwnPorts daemon_port (apply_locked server_id targets m l).0
  apply_locked-HasOwnPorts (held_back locked) h =
      HasOwnPorts-served daemon_port m (unlock_operations locked (with_held locked m))
        (λ j. served-unlock_operations locked (with_held locked m) j ∙ served-with_held locked m j)
        h
  apply_locked-HasOwnPorts (refused locked) h =
      HasOwnPorts-served daemon_port m (with_held locked m) (served-with_held locked m) h
  apply_locked-HasOwnPorts (all_locked locked) h =
      HasOwnPorts-served daemon_port (with_targets server_id targets m)
        (unlock_operations locked (with_targets server_id targets (with_held locked m)))
        (λ j.
          served-unlock_operations locked (with_targets server_id targets (with_held locked m)) j
          ∙ served-with_targets server_id targets (with_held locked m) m j
              (served-with_held locked m j))
        (with_targets-HasOwnPorts h)

-- Managed instances whose ports differ from each other and from that of the daemon still have such
-- ports after `ApplyServer`, whether it succeeds or fails, where its loops visit every instance.
pub apply_server-HasOwnPorts :
    (fs : Paths) (daemon_port : ℕ) (raw : ServerConfig) (visit : List Text) (m : Instances)
    → Covers visit m
    → HasOwnPorts daemon_port m
    → HasOwnPorts daemon_port (apply_server fs daemon_port raw visit m).0
unfolding apply_server
apply_server-HasOwnPorts fs daemon_port raw visit m covers h =
    let server = normalize fs raw in
    let targets = instances fs server in
    elim (Result-cases (validate_server daemon_port targets server.server_id visit m)) [
      | inr (code, e) ↦ rw (e, apply_server) h
      | inl (u, e) ↦
          let (checked, paired) =
            validate_server_lem daemon_port targets server.server_id visit m e in
          rw (e, apply_server)
            (apply_locked-HasOwnPorts daemon_port server.server_id targets visit m covers checked
              paired (lock_server server.server_id [] visit m) h)
    ]
