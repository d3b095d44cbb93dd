-- ===== src/Server/Routes/Challenged.antt =====
-- The route of packages/backend/src/server.ts that challenges a completion.
use taop_protocol.Prelude.{
  ℕ, ◌≡◌, ◌≢◌, refl, inl, inr, Text, text, Option, none, some, if◌then◌else◌, arith, Bool-cases,
  ltb,
}
use taop_protocol.Index.{Index}
use taop_protocol.Index.Alerts.{Number}
use taop_protocol.Indexer.{Result, ok, err}
use taop_protocol.Server.Io.{Io, then_run, caught, return}
use taop_protocol.Server.Contracts.{Contracts, Codec, BackendState, World, CompletionData}
use taop_protocol.Server.Replies.{BodyValue, Reply, refusal, literal, text_or, failure}
use taop_protocol.Server.Completions
use taop_protocol.Server.Routes.{Route, run_route, Permits}
use taop_protocol.Server.Routes.Ends.{
  Ends, Done, call-Ends, step-Ends, failure-status, settle-Permits,
}

module _ {W : Type 0} (contracts : Contracts W) (codec : Codec) (text_of : BodyValue → Text)
    (number_of : BodyValue → Number) (backend : BackendState) where
  abbrev Kept : Route → World W → Type 0
  Kept route w =
      let out = run_route contracts codec text_of number_of backend route w in
      Permits number_of backend route out.0.status w.index out.1.index

  abbrev Promised : Route → World W → Reply → Index → Type 0
  Promised route w = Done number_of backend route w.index

  submit_challenge-Ends :
      (id : ℕ) (body : BodyValue) (evidence : Text) (bond : ℕ) (w : World W)
      → Ends w.index
          (Promised (Route.challenge id body) w)
          (Completions.submit_challenge contracts codec text_of backend id evidence bond w)
  unfolding Completions.submit_challenge
  submit_challenge-Ends id body evidence bond w =
      call-Ends (contracts.challenge_completion id evidence bond) _
        (Promised (Route.challenge id body) w) w (λ hash chain e. inr (refl, refl))

  fund_challenge-Ends :
      (id : ℕ) (body : BodyValue) (evidence : Text) (bond : ℕ) (w : World W)
      → Ends w.index
          (Promised (Route.challenge id body) w)
          (Completions.fund_challenge contracts codec text_of backend id evidence bond w)
  unfolding Completions.fund_challenge
  fund_challenge-Ends id body evidence bond w =
      call-Ends (contracts.get_balance backend.agent_a_address) _
        (Promised (Route.challenge id body) w) w
        (λ balance chain e. elim (Bool-cases (ltb balance bond)) [
          | inl t ↦ rw t (inl (omega arith, refl))
          | inr t ↦ rw t (submit_challenge-Ends id body evidence bond (record w { chain = chain }))
        ])

  -- The check ends with a reply that refuses, or with none, and leaves the database.
  record Checked (ix : Index) (r : Result (Option Reply) × World W) : Type 0 where
    pub answer : Option Reply
    pub world : World W
    pub ends : r ≡ (ok answer, world)
    pub same : world.index ≡ ix
    pub refuses : (reply : Reply) → answer ≡ some reply → reply.status ≢ 200

  check_completion-Checked :
      (id : ℕ) (w : World W)
      → Checked w.index (Completions.check_completion contracts codec text_of backend id w)
  unfolding Completions.check_completion
  check_completion-Checked id w = go (contracts.get_completion id w.chain)
    where
      go :
          (r : Result CompletionData × W)
          → Checked w.index (
              caught
                (λ e.
                  return
                    (some (refusal 400 (literal "No such completion. Run the live demo first."))))
                (then_run
                  (λ c. return (
                    if Completions.is_missing c.agent
                    then some (
                        refusal 400 (
                          literal
                            "No such completion (id may be from a previous deployment). Run the live demo first to create a fresh one."))
                    else none))
                  (r.0, record w { chain = r.1 })))
      go (ok c, chain) = record {
        answer = _;
        world = record w { chain = chain };
        ends = refl;
        same = refl;
        refuses = λ reply e. ground (arith, e);
      }
      go (err e, chain) = record {
        answer = _;
        world = record w { chain = chain };
        ends = refl;
        same = refl;
        refuses = λ reply e. ground (arith, e);
      }

  or_refuse-Ends :
      (route : Route) (go : Io (World W) Reply) (answer : Option Reply) (w : World W)
      → ((reply : Reply) → answer ≡ some reply → reply.status ≢ 200)
      → Ends w.index (Promised route w) (go w)
      → Ends w.index
          (Promised route w)
          (Completions.or_refuse contracts codec text_of backend go answer w)
  or_refuse-Ends route go none w refuses h = h
  or_refuse-Ends route go (some reply) w refuses h = inl (refuses reply refl, refl)

  pub challenge-Kept : (id : ℕ) (body : BodyValue) (w : World W) → Kept (Route.challenge id body) w
  unfolding run_route Completions.post_challenge
  challenge-Kept id body w =
      let route = Route.challenge id body in
      settle-Permits number_of backend route w.index failure _ failure-status (
        call-Ends contracts.challenge_bond _ (Promised route w)
          (record w { chain = contracts.reset_agent_a w.chain })
          (λ bond chain e.
            let w1 : World W = record w { chain = chain } in
            let checked = check_completion-Checked id w1 in
            let evidence = text_or text_of body (text "ipfs://challenge-evidence") in
            let go = Completions.fund_challenge contracts codec text_of backend id evidence bond in
            let done =
              or_refuse-Ends route go checked.answer checked.world checked.refuses
                (fund_challenge-Ends id body evidence bond checked.world) in
            step-Ends (Completions.check_completion contracts codec text_of backend id) _
              (Done number_of backend route) w.index w1 checked.ends checked.same done))
