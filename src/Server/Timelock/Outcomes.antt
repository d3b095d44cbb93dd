-- ===== src/Server/Timelock/Outcomes.antt =====
-- How an owner-only call of packages/backend/src/contracts.ts ends.
use taop_protocol.Prelude.{
  ◌⊎◌, ◌<◌, ℕ, zero, suc, ◌≡◌, refl, sym, Bool, true, false, not, Text, Option, ltb, if◌then◌else◌,
  Bool-cases, inl, inr, arith, ap, ◌∙◌,
}
use taop_protocol.Indexer.{Result, ok, err}
use taop_protocol.Server.Io.{Io, >>=-ok, >>=-step, ◌>>◌, return, write, try_catch, caught, then_run}
use taop_protocol.Server.Contracts.{OwnerCall, Contracts, Codec, BackendState}
use taop_protocol.Server.Timelock.{
  TimelockResult, OwnerResult, execute_via_timelock, finish_operation, wait_ready, owner_call,
  through_timelock, directly,
}

caught_ok :
    {W : Type 0} (r : Result Bool × W)
    → (b : Bool) × (w' : W) × (caught {S = W} (λ e. return false) r ≡ (ok b, w'))
caught_ok (ok b, w) = (b, w, refl)
caught_ok (err e, w) = (false, w, refl)

same_run :
    {A W : Type 0} {a b : A} {s t : W} → Path (Result A × W) (ok a, s) (ok b, t) → (a ≡ b) × (s ≡ t)
same_run {a} h = (ap (λ x. value a x.0) h, ap (λ x. x.1) h)
  where
    value : {A : Type 0} → A → Result A → A
    value a (ok b) = b
    value a (err e) = a

module _ {W : Type 0} (contracts : Contracts W) where
  -- The delay that was read is 0, and the call was scheduled; the last call of all is the one that
  -- executes it, with the same salt, and the result is what that gave.
  pub record IsExecuted (target payload : Text) (w : W) (r : TimelockResult) (t : W) : Type 0 where
    pub at_delay : W
    pub at_schedule : W
    pub at_execute : W
    pub scheduled_hash : Option Text
    pub executed_hash : Option Text
    pub reads : contracts.get_min_delay (contracts.reset_oracle w) ≡ (ok 0, at_delay)
    pub schedules :
        contracts.schedule target payload (contracts.salt (contracts.reset_oracle w)) 0 at_delay
        ≡ (ok scheduled_hash, at_schedule)
    pub executes :
        contracts.execute target payload (contracts.salt (contracts.reset_oracle w)) at_execute
        ≡ (ok executed_hash, t)
    pub reported :
        r ≡ record { receipt = executed_hash; executed = true; scheduled = false; delay = 0 }

  -- The delay that was read is not 0, and the call that schedules with it is the last of all.
  pub record IsScheduled (target payload : Text) (w : W) (r : TimelockResult) (t : W) : Type 0 where
    pub delay : ℕ
    pub at_delay : W
    pub scheduled_hash : Option Text
    pub delayed : 0 < delay
    pub reads : contracts.get_min_delay (contracts.reset_oracle w) ≡ (ok delay, at_delay)
    pub schedules :
        contracts.schedule target payload (contracts.salt (contracts.reset_oracle w)) delay at_delay
        ≡ (ok scheduled_hash, t)
    pub reported :
        r ≡ record { receipt = scheduled_hash; executed = false; scheduled = true; delay = delay }

  abbrev pub IsOutcome : Text → Text → W → TimelockResult → W → Type 0
  IsOutcome target payload w r t =
      IsExecuted target payload w r t ⊎ IsScheduled target payload w r t

  IsOutcome-once :
      {target payload : Text} {w t : W} {r : TimelockResult}
      → IsOutcome target payload w r t
      → r.executed ≡ not r.scheduled
  IsOutcome-once (inl e) = rw e.reported refl
  IsOutcome-once (inr s) = rw s.reported refl

  -- How the part after the schedule ends, in either case.
  abbrev Finished : Text → Text → Text → ℕ → Option Text → W → TimelockResult → W → Type 0
  Finished target payload salt delay hash w r t =
      ((0 < delay)
        × (r ≡ record { receipt = hash; executed = false; scheduled = true; delay = delay })
        × (w ≡ t))
      ⊎ ((delay ≡ 0)
          × (at : W) × (done : Option Text) × (contracts.execute target payload salt at
              ≡ (ok done, t))
          × (r ≡ record { receipt = done; executed = true; scheduled = false; delay = 0 }))

  finish_operation-Finished :
      (target payload salt : Text) (delay : ℕ) (hash : Option Text) (w : W) {r : TimelockResult}
      {t : W}
      → finish_operation contracts target payload salt delay hash w ≡ (ok r, t)
      → Finished target payload salt delay hash w r t
  unfolding finish_operation
  finish_operation-Finished target payload salt delay hash w h = elim (Bool-cases (ltb 0 delay)) [
    | inl e ↦
        let (same, at_end) = same_run (rw (finish_operation, e) at h) in
        inl (ground (arith, e), sym same, at_end)
    | inr e ↦
        let k = rw (finish_operation, e) at h in
        let (id, w1, e1, k1) = >>=-ok (contracts.hash_operation target payload salt) _ w k in
        let (ready, w2, e2, k2) = >>=-ok (wait_ready contracts 10 id) _ w1 k1 in
        let (done, w3, e3, k3) = >>=-ok (contracts.execute target payload salt) _ w2 k2 in
        let (same, at_end) = same_run k3 in
        inr (ground (arith, e), w2, done, e3 ∙ ap (λ x. (ok done, x)) at_end, sym same)
  ]

  -- A call through the Timelock that does not throw read the delay and scheduled the call with it.
  -- Where the delay is 0 its last call executed what was scheduled, with the same salt, and it reports
  -- what that gave; where it is not, it made no other call after the schedule, and reports that and
  -- the delay.
  pub execute_via_timelock-IsOutcome :
      (target payload : Text) (w : W) {r : TimelockResult} {t : W}
      → execute_via_timelock contracts target payload w ≡ (ok r, t)
      → IsOutcome target payload w r t
  unfolding execute_via_timelock
  execute_via_timelock-IsOutcome target payload w {r} {t} h =
      let w0 = contracts.reset_oracle w in
      let salt = contracts.salt w0 in
      let (delay, w1, e1, k1) = >>=-ok contracts.get_min_delay _ w0 h in
      let (hash, w2, e2, k2) = >>=-ok (contracts.schedule target payload salt delay) _ w1 k1 in
      outcome delay w1 hash w2 e1 e2
        (finish_operation-Finished target payload salt delay hash w2 k2)
    where
      outcome :
          (delay : ℕ) (w1 : W) (hash : Option Text) (w2 : W)
          → contracts.get_min_delay (contracts.reset_oracle w) ≡ (ok delay, w1)
          → contracts.schedule target payload (contracts.salt (contracts.reset_oracle w)) delay w1
            ≡ (ok hash, w2)
          → Finished target payload (contracts.salt (contracts.reset_oracle w)) delay hash w2 r t
          → IsOutcome target payload w r t
      outcome delay w1 hash w2 e1 e2 (inl (later, same, at_end)) = inr (record {
        delay = delay;
        at_delay = w1;
        scheduled_hash = hash;
        delayed = later;
        reads = e1;
        schedules = e2 ∙ ap (λ x. (ok hash, x)) at_end;
        reported = same;
      })
      outcome delay w1 hash w2 e1 e2 (inr (now, at, done, e3, same)) = inl (record {
        at_delay = w1;
        at_schedule = w2;
        at_execute = at;
        scheduled_hash = hash;
        executed_hash = done;
        reads = rw now at e1;
        schedules = rw now at e2;
        executes = e3;
        reported = same;
      })

  directly_once :
      (owner : OwnerCall) (w : W) {r : OwnerResult} {t : W}
      → directly contracts owner w ≡ (ok r, t)
      → r.executed ≡ not r.scheduled
  unfolding directly
  directly_once owner w h =
      let (hash, w1, e1, k1) = >>=-ok (contracts.call_as_owner owner) _ w h in ground (arith, k1)

  through_timelock_once :
      (codec : Codec) (backend : BackendState) (owner : OwnerCall) (w : W) {r : OwnerResult} {t : W}
      → through_timelock contracts codec backend owner w ≡ (ok r, t)
      → r.executed ≡ not r.scheduled
  unfolding through_timelock
  through_timelock_once codec backend owner w h =
      let target = backend.deployment.ron in
      let payload = codec.encode_function_data owner in
      let (result, w1, e1, k1) = >>=-ok (execute_via_timelock contracts target payload) _ w h in
      let once = IsOutcome-once (execute_via_timelock-IsOutcome target payload w e1) in
      ground (arith, k1, once)

  -- An owner-only call that does not throw either executed the call or scheduled it, never both.
  pub owner_call_once :
      (codec : Codec) (backend : BackendState) (owner : OwnerCall) (w : W) {r : OwnerResult} {t : W}
      → owner_call contracts codec backend owner w ≡ (ok r, t)
      → r.executed ≡ not r.scheduled
  unfolding owner_call
  owner_call_once codec backend owner w h = elim (Bool-cases backend.uses_timelock) [
    | inl e ↦ through_timelock_once codec backend owner w (rw e at h)
    | inr e ↦ directly_once owner w (rw e at h)
  ]

  -- A node that takes every transaction of the Timelock, and whose delay is 0.
  pub record IsImmediate : Type 0 where
    pub no_delay : (w : W) → (w' : W) × (contracts.get_min_delay w ≡ (ok 0, w'))
    pub schedules :
        (target payload salt : Text) (delay : ℕ) (w : W)
        → (hash : Option Text) × (w' : W) × (contracts.schedule target payload salt delay w
            ≡ (ok hash, w'))
    pub hashes :
        (target payload salt : Text) (w : W)
        → (id : Text) × (w' : W) × (contracts.hash_operation target payload salt w ≡ (ok id, w'))
    pub executes :
        (target payload salt : Text) (w : W)
        → (hash : Option Text) × (w' : W) × (contracts.execute target payload salt w
            ≡ (ok hash, w'))

  probe_ready : Text → Io W Bool
  probe_ready id = try_catch (contracts.is_operation_ready id) (λ e. return false)

  probe_ready-ok : (id : Text) (w : W) → (b : Bool) × (w' : W) × (probe_ready id w ≡ (ok b, w'))
  unfolding probe_ready
  probe_ready-ok id w = caught_ok (contracts.is_operation_ready id w)

  wait_step :
      (ready : Bool) (wait : Io W Bool) (w : W)
      → (b : Bool) × (w' : W) × (wait (contracts.reset_oracle w) ≡ (ok b, w'))
      → (b : Bool) × (w' : W) × ((if ready
              then return true
              else write contracts.reset_oracle >> wait)
            w
          ≡ (ok b, w'))
  wait_step true wait w ih = (true, w, refl)
  wait_step false wait w ih = ih

  -- The wait ends, whatever the node answers.
  wait_ready-ok :
      (n : ℕ) (id : Text) (w : W)
      → (b : Bool) × (w' : W) × (wait_ready contracts n id w ≡ (ok b, w'))
  unfolding wait_ready probe_ready
  wait_ready-ok zero id w = (false, w, refl)
  wait_ready-ok (suc n) id w =
      let (ready, w1, e) = probe_ready-ok id w in
      let (b, w2, k) =
        wait_step ready (wait_ready contracts n id) w1
          (wait_ready-ok n id (contracts.reset_oracle w1)) in
      (b, w2, ap (then_run _) e ∙ k)

  -- Where the delay is 0 and the node takes the transactions of the Timelock, a call through it ends,
  -- whatever the node answers or throws when it is asked whether the operation is ready, and it ends
  -- with the execution of the call that it scheduled.
  pub execute_via_timelock-executes :
      IsImmediate
      → (target payload : Text) (w : W)
      → (r : TimelockResult) × (t : W) × (execute_via_timelock contracts target payload w
          ≡ (ok r, t))
        × IsExecuted target payload w r t
  unfolding execute_via_timelock finish_operation
  execute_via_timelock-executes node target payload w =
      let w0 = contracts.reset_oracle w in
      let salt = contracts.salt w0 in
      let (w1, e1) = node.no_delay w0 in
      let (hash, w2, e2) = node.schedules target payload salt 0 w1 in
      let (id, w3, e3) = node.hashes target payload salt w2 in
      let (ready, w4, e4) = wait_ready-ok 10 id w3 in
      let (done, t, e5) = node.executes target payload salt w4 in
      (
        record { receipt = done; executed = true; scheduled = false; delay = 0 },
        t,
        >>=-step contracts.get_min_delay _ w0 e1
            ∙ >>=-step (contracts.schedule target payload salt 0) _ w1 e2
            ∙ >>=-step (contracts.hash_operation target payload salt) _ w2 e3
            ∙ >>=-step (wait_ready contracts 10 id) _ w3 e4
            ∙ >>=-step (contracts.execute target payload salt) _ w4 e5,
        record {
          at_delay = w1;
          at_schedule = w2;
          at_execute = w4;
          scheduled_hash = hash;
          executed_hash = done;
          reads = e1;
          schedules = e2;
          executes = e5;
          reported = refl;
        },
      )
