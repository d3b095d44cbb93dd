-- ===== src/Server/Routes.antt =====
-- The POST routes of packages/backend/src/server.ts as one function, and what each may do to the
-- database.
mod Ends
mod Challenged
pub mod Permitted
use taop_protocol.Prelude.{
  ℕ, ◌≡◌, ◌≢◌, ◌⊎◌, Bool, true, not, List, [], ◌∷◌, Text, text, Option, some, if◌then◌else◌,
}
use taop_protocol.Table.{Table}
use taop_protocol.Index.{Index, PayloadValue}
use taop_protocol.Index.Alerts.{Number}
use taop_protocol.Index.Cache.{
  record_admin_action, mark_completion_challenged, mark_completion_resolved,
}
use taop_protocol.Server.Io.{Io}
use taop_protocol.Server.Contracts.{
  OwnerCall, Contracts, Codec, BackendState, World, pause, unpause, set_attest_cooldown,
}
use taop_protocol.Server.Replies.{BodyValue, Reply, settle, is_truthy, whole_number}
use taop_protocol.Server.Completions
use taop_protocol.Server.Completions.{action_name, args_detail, resolve_detail}

pub data Route : Type 0 where
  attest : BodyValue → BodyValue → Route
  challenge : ℕ → BodyValue → Route
  resolve : ℕ → BodyValue → Route
  receipt : ℕ → BodyValue → Route
  revoke : ℕ → Route
  contest : ℕ → BodyValue → Route
  finalize : ℕ → Route
  pausing unpausing : Route
  attest_cooldown : BodyValue → Route
  register_agent : BodyValue → Route

module _ {W : Type 0} (contracts : Contracts W) (codec : Codec) (text_of : BodyValue → Text)
    (number_of : BodyValue → Number) (backend : BackendState) where
  unfoldable pub handler : Route → Io (World W) Reply
  handler (attest task_type cid) =
      Completions.post_attest contracts codec text_of backend task_type cid
  handler (challenge id evidence) =
      Completions.post_challenge contracts codec text_of backend id evidence
  handler (resolve id upheld) = Completions.post_resolve contracts codec text_of backend id upheld
  handler (receipt id cid) = Completions.post_receipt contracts codec text_of backend id cid
  handler (revoke id) = Completions.post_revoke contracts codec text_of backend id
  handler (contest id rebuttal) =
      Completions.post_contest contracts codec text_of backend id rebuttal
  handler (finalize id) = Completions.post_finalize contracts codec text_of backend id
  handler pausing = Completions.post_pause contracts codec text_of backend
  handler unpausing = Completions.post_unpause contracts codec text_of backend
  handler (attest_cooldown cooldown) =
      Completions.post_attest_cooldown contracts codec text_of backend number_of cooldown
  handler (register_agent cid) = Completions.post_register_agent contracts codec text_of backend cid

  -- The reply, and what the request leaves.
  unfoldable pub run_route : Route → World W → Reply × World W
  unfolding handler
  run_route route w = settle (handler route w)

-- The entry of the log for a call that was executed or scheduled, whatever its hash and its time.
pub record Audited (backend : BackendState) (action : Text) (detail : Table Text PayloadValue)
    (ix : Bool → Index) (ix' : Index) : Type 0 where
  pub tx_hash : Option Text
  pub now : Text
  pub executed : Bool
  pub logged :
      ix'
      ≡ record_admin_action action backend.oracle_address tx_hash
          (some detail)
          (some (not executed))
          (some executed)
          now
          (ix executed)

-- What a request that succeeds does to the database.
abbrev pub Accepted : (BodyValue → Number) → BackendState → Route → Index → Index → Type 0
Accepted number_of backend (attest task_type cid) ix ix' = ix' ≡ ix
Accepted number_of backend (challenge id evidence) ix ix' = ix' ≡ mark_completion_challenged id ix
Accepted number_of backend (resolve id upheld) ix ix' =
    Audited backend (text "resolveChallenge")
      ((text "completionId", PayloadValue.decimal id)
        ∷ (text "upheld", PayloadValue.boolean (is_truthy upheld))
        ∷ [])
      (λ executed. if executed then mark_completion_resolved id (is_truthy upheld) ix else ix) ix'
Accepted number_of backend (receipt id cid) ix ix' = ix' ≡ ix
Accepted number_of backend (revoke id) ix ix' = ix' ≡ ix
Accepted number_of backend (contest id rebuttal) ix ix' = ix' ≡ ix
Accepted number_of backend (finalize id) ix ix' = ix' ≡ mark_completion_resolved id true ix
Accepted number_of backend pausing ix ix' =
    Audited backend (text "pause") (args_detail pause) (λ executed. ix) ix'
Accepted number_of backend unpausing ix ix' =
    Audited backend (text "unpause") (args_detail unpause) (λ executed. ix) ix'
Accepted number_of backend (attest_cooldown cooldown) ix ix' =
    (n : ℕ) × (whole_number number_of cooldown ≡ some n)
    × Audited backend (text "setAttestCooldown") (args_detail (set_attest_cooldown n))
        (λ executed. ix) ix'
Accepted number_of backend (register_agent cid) ix ix' = ix' ≡ ix

-- A request that is refused or fails leaves the database; one that succeeds does what it is for.
abbrev pub Permits : (BodyValue → Number) → BackendState → Route → ℕ → Index → Index → Type 0
Permits number_of backend route status ix ix' =
    (status ≢ 200) × (ix' ≡ ix) ⊎ (status ≡ 200) × Accepted number_of backend route ix ix'
