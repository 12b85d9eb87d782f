-- ===== src/Workers/Stop/Rounds.antt =====
-- The rounds of waiting for workers to stop: each one comes nearer to the end.
use opsiconfd.Prelude.{
  ℕ, zero, suc, ◌+◌, ◌-◌, ◌<◌, ◌≤◌, ◌≡◌, refl, sym, ap, subst, List, [], ◌∷◌, Option, none, some,
  Bool, true, false, leb, length, All, inl, inr, Bool-cases, arith, map,
}
use opsiconfd.Workers.Data.{System, IsPosix, Settings, Worker, stopped}
use opsiconfd.Workers.Stop.{is_running, look, looked, wait_for, kill_process, process_alive}

module _ {O P : Type 0} (sys : System O P) where
  open sys use {now, sleep}

  abbrev pub running : List (Worker P) → O → ℕ
  running [] o = 0
  running (w ∷ ws) o = (elim (is_running sys w o) [ true ↦ 1 | false ↦ 0 ]) + running ws o

  pub running-le : (ws : List (Worker P)) (o : O) → running ws o ≤ length ws
  running-le [] o = omega arith
  running-le (w ∷ ws) o = ground (arith, running-le ws o)

  -- A worker that has stopped, as the manager sees it and as the system does.
  pub record IsStopped (o : O) (w : Worker P) : Type 0 where
    pub is_stopped : w.worker_state ≡ stopped
    pub without_pid : w.worker_pid ≡ 0
    pub ended : is_running sys w o ≡ false

  abbrev pub processes : List (Worker P) → List (Option P)
  processes = map (λ w. w.process)

  -- All workers have stopped, and they are those with the processes `ps`.
  abbrev pub AllStopped : List (Option P) → Option (List (Worker P) × O) → Type 0
  AllStopped ps none = ⊥
  AllStopped ps (some (ws, o)) = All (IsStopped o) ws × (processes ws ≡ ps)

  processes-look :
      (late : Bool) (ws : List (Worker P)) (o : O)
      → processes (look sys late ws o).1.0 ≡ processes ws
  unfolding look
  processes-look late [] o = refl
  processes-look late (w ∷ ws) o =
      looking late (is_running sys w o) (look sys late ws o) (processes-look late ws o)
    where
      looking :
          (late b : Bool) (r : Bool × (List (Worker P) × O))
          → processes r.1.0 ≡ processes ws
          → processes (looked sys late b w ws o r).1.0 ≡ processes (w ∷ ws)
      looking late false r h = ap (λ ps. w.process ∷ ps) h
      looking false true r h = ap (λ ps. w.process ∷ ps) h
      looking true true r h = refl

  module _ (posix : IsPosix sys) where
    open posix use {slept, kill_later, stays_ended, stays_killed, killed}

    ended-sleep :
        (p : Option P) (o : O)
        → process_alive sys p o ≡ false
        → process_alive sys p (sleep 5 o) ≡ false
    ended-sleep none o e = refl
    ended-sleep (some p) o e = stays_ended p 5 o e

    ended-kill :
        (p q : Option P) (o : O)
        → process_alive sys p o ≡ false
        → process_alive sys p (kill_process sys q o) ≡ false
    ended-kill none q o e = refl
    ended-kill (some p) none o e = e
    ended-kill (some p) (some q) o e = stays_killed p q o e

    killed-kill :
        (p : Option P) (o : O) → process_alive sys p (sleep 5 (kill_process sys p o)) ≡ false
    killed-kill none o = refl
    killed-kill (some p) o = killed p o

    later-kill : (p : Option P) (o : O) → now o ≤ now (kill_process sys p o)
    later-kill none o = omega arith
    later-kill (some p) o = kill_later p o

    running-later :
        (ws : List (Worker P)) (o u : O)
        → ((w : Worker P) → is_running sys w o ≡ false → is_running sys w u ≡ false)
        → running ws u ≤ running ws o
    running-later [] o u h = omega arith
    running-later (w ∷ ws) o u h = ground (arith, running-later ws o u h, h w)

    killing :
        (q : Option P) (o : O) (w : Worker P)
        → is_running sys w o ≡ false
        → is_running sys w (sleep 5 (kill_process sys q o)) ≡ false
    unfolding is_running
    killing q o w e = ended-sleep w.process (kill_process sys q o) (ended-kill w.process q o e)

    -- What a round before the timeout does.
    look-early :
        (ws : List (Worker P)) (o : O)
        → ((look sys false ws o).1.1 ≡ o) × (running (look sys false ws o).1.0 o ≤ running ws o)
    unfolding look is_running
    look-early [] o = (refl, omega arith)
    look-early (w ∷ ws) o = elim (Bool-cases (process_alive sys w.process o)) [
      | inl e ↦ simp e ((look-early ws o).0, ground (arith, look-early ws o))
      | inr e ↦ simp e ((look-early ws o).0, ground (arith, look-early ws o))
    ]

    looked-true :
        (late : Bool) (w : Worker P) (ws : List (Worker P)) (o : O)
        (rest : Bool × (List (Worker P) × O))
        → ¬ ((looked sys late true w ws o rest).0 ≡ false)
    looked-true true w ws o rest h = cc h
    looked-true false w ws o rest h = cc h

    -- The last round leaves the system alone, and all workers stopped.
    look-last :
        (late : Bool) (ws : List (Worker P)) (o : O)
        → (look sys late ws o).0 ≡ false
        → ((look sys late ws o).1.1 ≡ o) × All (IsStopped o) (look sys late ws o).1.0
    unfolding look is_running
    look-last late [] o h = (refl, tt)
    look-last late (w ∷ ws) o h = elim (Bool-cases (process_alive sys w.process o)) [
      | inl e ↦ absurd (
          looked-true late w ws o (look sys late ws o)
            (subst (λ b. (looked sys late b w ws o (look sys late ws o)).0 ≡ false) e h))
      | inr e ↦
          let rest =
            look-last late ws o
              (subst (λ b. (looked sys late b w ws o (look sys late ws o)).0 ≡ false) e h) in
          simp e (rest.0, (record { is_stopped = refl; without_pid = refl; ended = e }, rest.1))
    ]

    ended-look :
        (p : Option P) (late : Bool) (ws : List (Worker P)) (o : O)
        → process_alive sys p o ≡ false
        → process_alive sys p (look sys late ws o).1.1 ≡ false
    unfolding look
    ended-look p late [] o e = e
    ended-look p late (w ∷ ws) o e =
        ground (arith, ended-kill p w.process o e, ended-look p late ws o e)

    look-late :
        (ws : List (Worker P)) (o : O)
        → (look sys true ws o).0 ≡ true
        → (now o ≤ now (look sys true ws o).1.1)
          × (running (look sys true ws o).1.0 (sleep 5 (look sys true ws o).1.1) < running ws o)
    unfolding look is_running
    look-late [] o h = ground arith
    look-late (w ∷ ws) o h = elim (Bool-cases (process_alive sys w.process o)) [
      | inl e ↦ simp e (
        later-kill w.process o,
        ground (
          arith,
          killed-kill w.process o,
          running-later ws o (sleep 5 (kill_process sys w.process o)) (killing w.process o),
        ),
      )
      | inr e ↦
          let h' = subst (λ b. (looked sys true b w ws o (look sys true ws o)).0 ≡ true) e h in
          simp e (
            (look-late ws o h').0,
            ground (
              arith,
              (look-late ws o h').1,
              ended-look w.process true ws o e,
              ended-sleep w.process (look sys true ws o).1.1,
            ),
          )
    ]

    sleeping :
        (o : O) (w : Worker P) → is_running sys w o ≡ false → is_running sys w (sleep 5 o) ≡ false
    unfolding is_running
    sleeping o w e = ended-sleep w.process o e

    measure-look :
        (late : ℕ) (b : Bool) (ws : List (Worker P)) (o : O)
        → leb late (now o) ≡ b
        → (look sys b ws o).0 ≡ true
        → (late - now (sleep 5 (look sys b ws o).1.1))
            + running (look sys b ws o).1.0 (sleep 5 (look sys b ws o).1.1)
          < (late - now o) + running ws o
    measure-look late true ws o e h =
        ground (arith, look-late ws o h, slept 5 (look sys true ws o).1.1)
    measure-look late false ws o e h =
        let ws' = (look sys false ws o).1.0 in
        let o' = (look sys false ws o).1.1 in
        ground (arith, look-early ws o, slept 5 o', running-later ws' o' (sleep 5 o') (sleeping o'))

    -- With fuel for the rounds that are left, the loop ends, and all workers have stopped.
    pub wait_for-ends :
        (settings : Settings) (n start : ℕ) (ws : List (Worker P)) (o : O)
        → ((start + settings.worker_stop_timeout) - now o) + running ws o < n
        → AllStopped (processes ws) (wait_for sys settings n start ws o)
    unfolding wait_for
    wait_for-ends settings zero start ws o h = absurd (omega arith)
    wait_for-ends settings (suc n) start ws o h =
        let limit = start + settings.worker_stop_timeout in
        let r = look sys (leb limit (now o)) ws o in
        let same = processes-look (leb limit (now o)) ws o in
        let next : Bool → Type 0 = λ b. AllStopped (processes ws) (elim b [
          | true ↦ wait_for sys settings n start r.1.0 (sleep 5 r.1.1)
          | false ↦ some (r.1.0, r.1.1)
        ]) in
        elim (Bool-cases r.0) [
          | inl e ↦ subst next (sym e) (
              subst (λ ps. AllStopped ps (wait_for sys settings n start r.1.0 (sleep 5 r.1.1))) same
                (wait_for-ends settings n start r.1.0 (sleep 5 r.1.1)
                  (ground (arith, measure-look limit (leb limit (now o)) ws o refl e))))
          | inr e ↦
              let ended = look-last (leb limit (now o)) ws o e in
              subst next (sym e) (subst (λ u. All (IsStopped u) r.1.0) (sym ended.0) ended.1, same)
        ]
