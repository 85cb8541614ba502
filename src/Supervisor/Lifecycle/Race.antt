-- ===== src/Supervisor/Lifecycle/Race.antt =====
-- Two orders in which a restart meets the end of the session that it has stopped.
use prism_panel.Common.{ℕ, ◌≡◌, true, false, Option, some, nat_eq, arith, eq_refl}
use prism_panel.Common.Text.{Text}
use prism_panel.Common.Error.{err, instance_busy}
use prism_panel.Supervisor.Types.{stopped, running, stopping, Client}
use prism_panel.Supervisor.Lifecycle.{
  then_starts, preparing, awaiting, World, answers, begin_start, go_on, begin_stop, enter,
  end_session, wait_session, restarts, stop_ends, exits, resume, step,
}

-- A running instance that nobody works on.
pub record IsServing (w : World) (c : Client) : Type 0 where
  pub open_ : w.closing ≡ false
  pub known : w.current.managed ≡ true
  pub free : w.current.op_held ≡ false
  pub unlocked : w.current.deployment_locked ≡ false
  pub serves : w.current.state ≡ running
  pub has_session : w.current.session ≡ some c

abbrev waiting : World → Client → World
waiting w c = record w {
  current = record w.current { op_held = true; state = stopping; expected_exit = true };
  task = awaiting c then_starts;
}

module _ (digest : Text → Text) where
  restarts_wait :
      (w : World) (c : Client) → IsServing w c → (step digest w restarts).0 ≡ waiting w c
  unfolding step enter begin_stop
  restarts_wait w c v = ground arith

  -- A restart of a running instance stops its session and waits until the connection is done. If it
  -- goes on before the goroutine that waits for the session has taken note of the end, it finds the
  -- instance still stopping and answers that the instance is busy, and the instance ends up stopped.
  -- In the other order it goes on to start the instance.
  pub restart_race :
      (w : World) (c : Client) (message : Option Text) (now : ℕ)
      → IsServing w c
      → let w1 = (step digest w restarts).0 in
        let early = step digest w1 (stop_ends true) in
        let noted = (step digest w1 (exits c false message now)).0 in
        (early.1 ≡ answers (err instance_busy))
        × ((step digest early.0 (exits c false message now)).0.current.state ≡ stopped)
        × ((step digest noted (stop_ends true)).0.task ≡ preparing)
  unfolding step resume go_on begin_start wait_session end_session
  restart_race w c message now v =
      rw (restarts_wait w c v) (ground (arith, eq_refl c.identity, v.has_session, v.open_))
