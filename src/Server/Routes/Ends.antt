-- ===== src/Server/Routes/Ends.antt =====
-- How a body of a route of packages/backend/src/server.ts ends.
use taop_protocol.Prelude.{
  ℕ, ◌≡◌, ◌≢◌, refl, sym, ap, subst, ◌⊎◌, inl, inr, Bool, not, Text, some, arith,
}
use taop_protocol.Index.{Index, PayloadValue}
use taop_protocol.Table.{Table}
use native.Mathlib.Decide.{ℕ_discrete}
use taop_protocol.Index.Alerts.{Number}
use taop_protocol.Index.Cache.{record_admin_action}
use taop_protocol.Indexer.{Result, ok, err}
use taop_protocol.Server.Io.{Io, ◌>>=◌, >>=-step, then_run, caught, return}
use taop_protocol.Server.Contracts.{BackendState, World, call}
use taop_protocol.Server.Replies.{BodyValue, Reply, settle, failure, admin_failure, server_failure}
use taop_protocol.Server.Timelock.{OwnerResult}
use taop_protocol.Server.Routes.{Route, Permits, Audited}

-- A run from the tables `ix`: an error leaves them, and a value meets P.
abbrev pub Ends : {W A : Type 0} → Index → (A → Index → Type 0) → Result A × World W → Type 0
Ends ix P (ok a, w) = P a w.index
Ends ix P (err e, w) = w.index ≡ ix

module _ {W : Type 0} where
  run-Ends :
      {A B : Type 0} (f : A → Io (World W) B) (P : B → Index → Type 0) (w : World W)
      (r : Result A × W)
      → ((a : A) (chain : W)
          → r ≡ (ok a, chain)
          → Ends w.index P (f a (record w { chain = chain })))
      → Ends w.index P (then_run f (r.0, record w { chain = r.1 }))
  run-Ends f P w (ok a, chain) h = h a chain refl
  run-Ends f P w (err e, chain) h = refl

  -- A call of the node, and what follows where it answers.
  pub call-Ends :
      {A B : Type 0} (m : Io W A) (f : A → Io (World W) B) (P : B → Index → Type 0) (w : World W)
      → ((a : A) (chain : W)
          → m w.chain ≡ (ok a, chain)
          → Ends w.index P (f a (record w { chain = chain })))
      → Ends w.index P ((call m >>= f) w)
  call-Ends m f P w h = run-Ends f P w (m w.chain) h

  -- A step that ends with a value and leaves the tables.
  pub step-Ends :
      {A B : Type 0} (m : Io (World W) A) (f : A → Io (World W) B) (P : Index → B → Index → Type 0)
      (ix : Index) (w : World W) {a : A} {w' : World W}
      → m w ≡ (ok a, w')
      → w'.index ≡ ix
      → Ends w'.index (P w'.index) (f a w')
      → Ends ix (P ix) ((m >>= f) w)
  step-Ends {A} {B} m f P ix w {a} {w'} e same h =
      let moved : Ends ix (P ix) (f a w') = subst (λ ix. Ends ix (P ix) (f a w')) same h in
      subst (Ends ix (P ix)) (sym (>>=-step m f w e)) moved

pub failure-status : (e : Text) → (failure e).status ≢ 200
unfolding failure
failure-status e = ground arith

pub admin_failure-status : (e : Text) → (admin_failure e).status ≢ 200
unfolding admin_failure
admin_failure-status e = ground arith

pub server_failure-status : (e : Text) → (server_failure e).status ≢ 200
unfolding server_failure
server_failure-status e = ground arith

module _ (number_of : BodyValue → Number) (backend : BackendState) (route : Route)
    (ix : Index) where
  -- What a body of a route promises at its end.
  abbrev pub Done : Reply → Index → Type 0
  Done reply ix' = Permits number_of backend route reply.status ix ix'

module _ {W : Type 0} (number_of : BodyValue → Number) (backend : BackendState) (route : Route)
    (ix : Index) where
  pub settle-Permits :
      (fail : Text → Reply) (r : Result Reply × World W)
      → ((e : Text) → (fail e).status ≢ 200)
      → Ends ix (Done number_of backend route ix) r
      → let out = settle (caught (λ e. return (fail e)) r) in
        Permits number_of backend route out.0.status ix out.1.index
  settle-Permits fail (ok reply, w) failed h = h
  settle-Permits fail (err e, w) failed h = inl (failed e, h)

not_swap : (a b : Bool) → a ≡ not b → b ≡ not a
not_swap a b h = ground (arith, h)

pub audited :
    (backend : BackendState) (action : Text) (detail : Table Text PayloadValue) (ix : Bool → Index)
    (r : OwnerResult) (now : Text)
    → r.executed ≡ not r.scheduled
    → Audited backend action detail ix (
        record_admin_action action backend.oracle_address r.tx_hash
          (some detail)
          (some r.scheduled)
          (some r.executed)
          now
          (ix r.executed))
audited backend action detail ix r now once = record {
  tx_hash = r.tx_hash;
  now = now;
  executed = r.executed;
  logged =
      ap
        (λ (b : Bool).
          record_admin_action action backend.oracle_address r.tx_hash (some detail) (some b)
            (some r.executed) now (ix r.executed))
        (not_swap r.executed r.scheduled once);
}

module _ {W : Type 0} where
  -- A promise that follows from another.
  pub Ends-map :
      {A : Type 0} (ix : Index) (P Q : A → Index → Type 0) (r : Result A × World W)
      → ((a : A) (ix' : Index) → P a ix' → Q a ix')
      → Ends ix P r
      → Ends ix Q r
  Ends-map ix P Q (ok a, w) h k = h a w.index k
  Ends-map ix P Q (err e, w) h k = k

  pub caught_same :
      (fail : Text → Reply) (ix : Index) (r : Result Reply × World W)
      → Ends ix (λ reply ix'. ix' ≡ ix) r
      → (settle (caught (λ e. return (fail e)) r)).1.index ≡ ix
  caught_same fail ix (ok reply, w) h = h
  caught_same fail ix (err e, w) h = h

pub either_status : (status : ℕ) → (status ≢ 200) ⊎ (status ≡ 200)
either_status status = elim (ℕ_discrete status 200) [ yes p ↦ inr p | no p ↦ inl p ]
