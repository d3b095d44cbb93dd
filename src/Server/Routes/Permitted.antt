-- ===== src/Server/Routes/Permitted.antt =====
-- What the POST routes of packages/backend/src/server.ts do to the database, against any node.
use taop_protocol.Prelude.{
  ℕ, ◌≡◌, refl, inl, inr, Bool, Text, text, Option, none, some, if◌then◌else◌, arith, Bool-cases,
}
use taop_protocol.Index.{Index}
use taop_protocol.Index.Alerts.{Number}
use taop_protocol.Index.Cache.{mark_completion_resolved}
use taop_protocol.Server.Contracts.{OwnerCall, Contracts, Codec, BackendState, World}
use taop_protocol.Server.Replies.{
  BodyValue, Reply, failure, admin_failure, server_failure, is_truthy, whole_number,
}
use taop_protocol.Server.Timelock.{OwnerResult, owner_call}
use taop_protocol.Server.Timelock.Outcomes.{owner_call_once}
use taop_protocol.Server.Completions
use taop_protocol.Server.Routes.{Route, run_route, Permits, Audited}
use taop_protocol.Server.Routes.Ends.{
  Ends, Done, call-Ends, failure-status, admin_failure-status, server_failure-status,
  settle-Permits, audited, Ends-map, caught_same, either_status,
}
use taop_protocol.Server.Routes.Challenged.{challenge-Kept}

module _ {W : Type 0} (contracts : Contracts W) (codec : Codec) (text_of : BodyValue → Text)
    (number_of : BodyValue → Number) (backend : BackendState) where
  abbrev Kept : Route → World W → Type 0
  Kept route w =
      let out = run_route contracts codec text_of number_of backend route w in
      Permits number_of backend route out.0.status w.index out.1.index

  abbrev Promised : Route → World W → Reply → Index → Type 0
  Promised route w = Done number_of backend route w.index

  attest-Kept : (task_type cid : BodyValue) (w : World W) → Kept (Route.attest task_type cid) w
  unfolding run_route Completions.post_attest
  attest-Kept task_type cid w =
      let route = Route.attest task_type cid in
      settle-Permits number_of backend route w.index server_failure _ server_failure-status (
        call-Ends (contracts.attest_completion _ _) _ (Promised route w) w
          (λ made chain e. inr (refl, refl)))

  receipt-Kept : (id : ℕ) (cid : BodyValue) (w : World W) → Kept (Route.receipt id cid) w
  unfolding run_route Completions.post_receipt
  receipt-Kept id cid w =
      let route = Route.receipt id cid in
      settle-Permits number_of backend route w.index failure _ failure-status (
        call-Ends (contracts.attest_receipt id _) _ (Promised route w) _
          (λ hash chain e. inr (refl, refl)))

  revoke-Kept : (id : ℕ) (w : World W) → Kept (Route.revoke id) w
  unfolding run_route Completions.post_revoke
  revoke-Kept id w =
      let route = Route.revoke id in
      settle-Permits number_of backend route w.index failure _ failure-status (
        call-Ends (contracts.revoke_receipt id) _ (Promised route w) _
          (λ hash chain e. inr (refl, refl)))

  contest-Kept : (id : ℕ) (rebuttal : BodyValue) (w : World W) → Kept (Route.contest id rebuttal) w
  unfolding run_route Completions.post_contest
  contest-Kept id rebuttal w =
      let route = Route.contest id rebuttal in
      settle-Permits number_of backend route w.index failure _ failure-status (
        call-Ends (contracts.contest_challenge id _) _ (Promised route w) _
          (λ hash chain e. inr (refl, refl)))

  finalize-Kept : (id : ℕ) (w : World W) → Kept (Route.finalize id) w
  unfolding run_route Completions.post_finalize
  finalize-Kept id w =
      let route = Route.finalize id in
      settle-Permits number_of backend route w.index failure _ failure-status (
        call-Ends (contracts.finalize_challenge id) _ (Promised route w) _
          (λ hash chain e. inr (refl, refl)))

  resolve_body-status :
      (upheld : Bool) (r : OwnerResult)
      → (Completions.resolve_body contracts codec text_of backend upheld r).status ≡ 200
  unfolding Completions.resolve_body
  resolve_body-status upheld r = ground arith

  resolve-Kept : (id : ℕ) (upheld : BodyValue) (w : World W) → Kept (Route.resolve id upheld) w
  unfolding run_route Completions.post_resolve Completions.resolve_body Completions.audit
      Completions.note_resolved
  resolve-Kept id upheld w =
      let route = Route.resolve id upheld in
      let owner = OwnerCall.resolve_challenge id (is_truthy upheld) in
      let start = contracts.reset_oracle w.chain in
      settle-Permits number_of backend route w.index failure _ failure-status (
        call-Ends (owner_call contracts codec backend owner) _ (Promised route w)
          (record w { chain = start })
          (λ r chain e. inr (
            resolve_body-status (is_truthy upheld) r,
            audited backend (text "resolveChallenge") _
                (λ executed.
                  if executed
                  then mark_completion_resolved id (is_truthy upheld) w.index
                  else w.index)
                r (contracts.now_iso chain) (owner_call_once contracts codec backend owner start e),
          )))

  -- An owner-only call with its entry in the log.
  owner_tx-Ends :
      (owner : OwnerCall) (w : World W)
      → Ends w.index
          (λ reply ix'.
            (reply.status ≡ 200)
            × Audited backend
                (Completions.action_name owner)
                (Completions.args_detail owner)
                (λ executed. w.index)
                ix')
          (Completions.owner_tx contracts codec text_of backend owner w)
  unfolding Completions.owner_tx Completions.audit
  owner_tx-Ends owner w =
      let start = contracts.reset_oracle w.chain in
      call-Ends (owner_call contracts codec backend owner) _ _ (record w { chain = start })
        (λ r chain e. (
          refl,
          audited backend _ _ (λ executed. w.index) r (contracts.now_iso chain)
              (owner_call_once contracts codec backend owner start e),
        ))

  post_pause-Kept : (w : World W) → Kept Route.pausing w
  unfolding run_route Completions.post_pause
  post_pause-Kept w =
      settle-Permits number_of backend Route.pausing w.index admin_failure _ admin_failure-status (
        Ends-map w.index _ (Promised Route.pausing w) _ (λ reply ix' h. inr h)
          (owner_tx-Ends OwnerCall.pause w))

  post_unpause-Kept : (w : World W) → Kept Route.unpausing w
  unfolding run_route Completions.post_unpause
  post_unpause-Kept w =
      settle-Permits number_of backend Route.unpausing w.index admin_failure _ admin_failure-status
        (Ends-map w.index _ (Promised Route.unpausing w) _ (λ reply ix' h. inr h)
          (owner_tx-Ends OwnerCall.unpause w))

  cooldown-Ends :
      (body : BodyValue) (n : Option ℕ) (w : World W)
      → whole_number number_of body ≡ n
      → Ends w.index
          (Promised (Route.attest_cooldown body) w)
          (Completions.or_bad_cooldown contracts codec text_of backend n w)
  cooldown-Ends body none w h = inl (omega arith, refl)
  cooldown-Ends body (some n) w h =
      Ends-map w.index _ (Promised (Route.attest_cooldown body) w) _
        (λ reply ix' k. inr (k.0, (n, h, k.1))) (owner_tx-Ends (OwnerCall.set_attest_cooldown n) w)

  attest_cooldown-Kept : (body : BodyValue) (w : World W) → Kept (Route.attest_cooldown body) w
  unfolding run_route Completions.post_attest_cooldown
  attest_cooldown-Kept body w =
      settle-Permits number_of backend (Route.attest_cooldown body) w.index admin_failure _
        admin_failure-status (cooldown-Ends body (whole_number number_of body) w refl)

  submit_agent-Ends :
      (cid : BodyValue) (w : World W)
      → Ends w.index
          (λ reply ix'. ix' ≡ w.index)
          (Completions.submit_agent contracts codec text_of backend cid w)
  unfolding Completions.submit_agent
  submit_agent-Ends cid w = elim (Bool-cases (is_truthy cid)) [
    | inl t ↦ rw t (
        call-Ends (contracts.register_agent _) _ (λ reply ix'. ix' ≡ w.index) w
          (λ hash chain e. refl))
    | inr t ↦ rw t refl
  ]

  register_agent-Kept : (cid : BodyValue) (w : World W) → Kept (Route.register_agent cid) w
  unfolding run_route Completions.post_register_agent
  register_agent-Kept cid w =
      let same = caught_same _ w.index _ (submit_agent-Ends cid w) in
      elim (either_status _) [ inl p ↦ inl (p, same) | inr p ↦ inr (p, same) ]

  -- Whatever the node does, a request with a reply other than 200 leaves the database as it was; one
  -- with 200 does exactly what its route is for: a challenge marks its completion, a finalisation
  -- marks its completion disputed, and a resolution or an administrator's action adds one entry to the
  -- log that says either executed or scheduled, a resolution marking its completion exactly where it
  -- was executed; the other routes leave the database.
  pub run_route-Permits :
      (route : Route) (w : World W)
      → let out = run_route contracts codec text_of number_of backend route w in
        Permits number_of backend route out.0.status w.index out.1.index
  run_route-Permits (Route.attest task_type cid) w = attest-Kept task_type cid w
  run_route-Permits (Route.challenge id evidence) w =
      challenge-Kept contracts codec text_of number_of backend id evidence w
  run_route-Permits (Route.resolve id upheld) w = resolve-Kept id upheld w
  run_route-Permits (Route.receipt id cid) w = receipt-Kept id cid w
  run_route-Permits (Route.revoke id) w = revoke-Kept id w
  run_route-Permits (Route.contest id rebuttal) w = contest-Kept id rebuttal w
  run_route-Permits (Route.finalize id) w = finalize-Kept id w
  run_route-Permits Route.pausing w = post_pause-Kept w
  run_route-Permits Route.unpausing w = post_unpause-Kept w
  run_route-Permits (Route.attest_cooldown cooldown) w = attest_cooldown-Kept cooldown w
  run_route-Permits (Route.register_agent cid) w = register_agent-Kept cid w
