-- ===== src/Server/Bootstrap/Owned.antt =====
-- Which capability the demo agent of packages/backend/src/contracts.ts ends up with.
use mathlib.Core.Option.{some-injective}
use taop_protocol.Prelude.{
  ℕ, zero, suc, ◌+◌, ◌≡◌, refl, sym, ap, ◌∙◌, subst, ◌⊎◌, inl, inr, Bool, true, false, Text, Option,
  none, some, arith, to_lower, text, nat_beq, if◌then◌else◌, Bool-cases,
}
use taop_protocol.Index.Cache.{is_capability_registered}
use taop_protocol.Indexer.{Result, ok, err}
use taop_protocol.Server.Io.{Io, then_run, caught, return}
use taop_protocol.Server.Contracts.{
  agent_a, Contracts, CapabilityData, Codec, BackendState, World, call,
}
use taop_protocol.Server.Bootstrap.{
  lora, demo_bond, is_own, certify_if_needed, adopt_cached, try_capability, use_cached,
  check_cached, is_lora, adopt_scanned, or_continue, scan_tokens, wait_visible, certify_new,
  register_fresh, note_capability, scan_or_register, sync_registry, ensure_capability,
}
use taop_protocol.Server.Runs.{Gives, Gives-map, bind-Gives, Gives-ok}

caught_id :
    {W : Type 0} (id : ℕ) (r : Result (Unit {0}) × World W)
    → r.1.capability_id ≡ id
    → Gives
        (λ (used : Bool) (w : World W). w.capability_id ≡ id)
        (then_run (λ u. return true) (caught (λ e. return tt) r))
caught_id id (ok u, w) h = h
caught_id id (err e, w) h = h

then_id :
    {W : Type 0} (id : ℕ) (f : World W → World W) (r : Result (Unit {0}) × World W)
    → ((w : World W) → (f w).capability_id ≡ w.capability_id)
    → r.1.capability_id ≡ id
    → Gives
        (λ (used : Bool) (w : World W). w.capability_id ≡ id)
        (then_run (λ u w. (ok true, f w)) r)
then_id id f (ok u, w) keeps h = keeps w ∙ h
then_id id f (err e, w) keeps h = tt

module _ {W : Type 0} (contracts : Contracts W) (codec : Codec) (backend : BackendState) where
  call-chain :
      {A : Type 0} (m : Io W A) (w : World W) {a : A} {w' : World W}
      → call m w ≡ (ok a, w')
      → m w.chain ≡ (ok a, w'.chain)
  call-chain m w e = ap (λ r. (r.0, r.1.chain)) e

  -- The node told that the capability is the agent's, or gave its id to a registration by the agent's
  -- key.
  abbrev pub Owned : ℕ → Type 0
  Owned id =
      ((cap : CapabilityData) × (w : W) × (w' : W) × (contracts.get_capability id w ≡ (ok cap, w'))
        × (is_own contracts codec backend cap ≡ true))
      ⊎ ((cid : Text) × (hash : Option Text) × (w : W) × (w' : W)
          × (contracts.register_capability_eth agent_a lora cid demo_bond w ≡ (ok (id, hash), w')))

  Read : ℕ → CapabilityData → Type 0
  Read id cap = (w : W) × (w' : W) × (contracts.get_capability id w ≡ (ok cap, w'))

  try_capability-Read :
      (id : ℕ) (w : World W)
      → Gives
          (λ found w'. (cap : CapabilityData) → found ≡ some cap → Read id cap)
          (try_capability contracts codec backend id w)
  unfolding try_capability Read
  try_capability-Read id w = go (contracts.get_capability id w.chain) refl
    where
      go :
          (r : Result CapabilityData × W)
          → contracts.get_capability id w.chain ≡ r
          → Gives
              (λ found w'. (cap : CapabilityData) → found ≡ some cap → Read id cap)
              (caught
                (λ e. return none)
                (then_run (λ cap. return (some cap)) (r.0, record w { chain = r.1 })))
      go (ok c, chain) e = λ cap h. (w.chain, chain, rw (some-injective _ _ h) at e)
      go (err m, chain) e = λ cap h. absurd (cc)

  certify_if_needed-same :
      (id : ℕ) (cap : CapabilityData) (w : World W)
      → (certify_if_needed contracts codec backend id cap w).1.capability_id ≡ w.capability_id
  unfolding certify_if_needed
  certify_if_needed-same id cap w = elim (Bool-cases cap.certified) [
    | inl e ↦ rw e refl
    | inr e ↦ rw e (go (contracts.certify_capability id w.chain))
  ]
    where
      go :
          (r : Result (Option Text) × W)
          → (then_run (λ h. return tt) (r.0, record w { chain = r.1 })).1.capability_id
            ≡ w.capability_id
      go (ok h, chain) = refl
      go (err e, chain) = refl

  owned :
      (id : ℕ) (cap : CapabilityData) (used : Bool) (w : World W)
      → Read id cap
      → is_own contracts codec backend cap ≡ true
      → w.capability_id ≡ id
      → used ≡ true
      → Owned w.capability_id
  unfolding Read
  owned id cap used w read own e h = subst Owned (sym e) (inl (cap, read.0, read.1, read.2, own))

  abbrev IfUsed : Bool → World W → Type 0
  IfUsed used w = used ≡ true → Owned w.capability_id

  adopt_cached-Gives :
      (id : ℕ) (cap : CapabilityData) (w : World W)
      → Gives (λ used w'. w'.capability_id ≡ id) (adopt_cached contracts codec backend id cap w)
  unfolding adopt_cached
  adopt_cached-Gives id cap w =
      caught_id id
        (certify_if_needed contracts codec backend id cap (record w { capability_id = id }))
        (certify_if_needed-same id cap (record w { capability_id = id }))

  adopt_scanned-Gives :
      (id : ℕ) (cap : CapabilityData) (w : World W)
      → Gives (λ used w'. w'.capability_id ≡ id) (adopt_scanned contracts codec backend id cap w)
  unfolding adopt_scanned note_capability
  adopt_scanned-Gives id cap w =
      then_id id (note_capability contracts codec backend id cap.creator cap.bond cap.metadata_cid)
        (certify_if_needed contracts codec backend id cap (record w { capability_id = id }))
        (λ w'. refl) (certify_if_needed-same id cap (record w { capability_id = id }))

  use_cached-Gives :
      (id : ℕ) (found : Option CapabilityData) (w : World W)
      → ((cap : CapabilityData) → found ≡ some cap → Read id cap)
      → Gives IfUsed (use_cached contracts codec backend id found w)
  unfolding use_cached
  use_cached-Gives id none w read = λ h. absurd (cc)
  use_cached-Gives id (some cap) w read = elim (Bool-cases (is_own contracts codec backend cap)) [
    | inl own ↦ rw own (
        Gives-map _ IfUsed _ (λ used w' e. owned id cap used w' (read cap refl) own e)
          (adopt_cached-Gives id cap w))
    | inr other ↦ rw other (λ h. absurd (cc))
  ]

  check_cached-Gives :
      (cached : Option ℕ) (w : World W)
      → Gives IfUsed (check_cached contracts codec backend cached w)
  unfolding check_cached
  check_cached-Gives none w = λ h. absurd (cc)
  check_cached-Gives (some id) w = elim (Bool-cases (nat_beq id 0)) [
    | inl e ↦ rw e (λ h. absurd (cc))
    | inr e ↦ rw e (
        bind-Gives (try_capability contracts codec backend id) _ IfUsed w
          (λ found w' k. use_cached-Gives id found w' (Gives-ok _ _ (try_capability-Read id w) k)))
  ]

  is_lora-own :
      (cap : CapabilityData)
      → is_lora contracts codec backend cap ≡ true
      → is_own contracts codec backend cap ≡ true
  unfolding is_lora
  is_lora-own cap h = ground (arith, h)

  or_continue-Gives :
      (id : ℕ) (rest : Io (World W) Bool) (found : Option CapabilityData) (w : World W)
      → ((cap : CapabilityData) → found ≡ some cap → Read id cap)
      → ((w' : World W) → Gives IfUsed (rest w'))
      → Gives IfUsed (or_continue contracts codec backend id rest found w)
  unfolding or_continue
  or_continue-Gives id rest none w read ih = ih w
  or_continue-Gives id rest (some cap) w read ih =
      elim (Bool-cases (is_lora contracts codec backend cap)) [
        | inl e ↦ rw e (
            Gives-map _ IfUsed _
              (λ used w' same. owned id cap used w' (read cap refl) (is_lora-own cap e) same)
              (adopt_scanned-Gives id cap w))
        | inr e ↦ rw e (ih w)
      ]

  scan_tokens-Gives :
      (n i : ℕ) (w : World W) → Gives IfUsed (scan_tokens contracts codec backend n i w)
  unfolding scan_tokens
  scan_tokens-Gives zero i w = λ h. absurd (cc)
  scan_tokens-Gives (suc n) i w =
      bind-Gives (call (contracts.token_by_index i)) _ IfUsed w (λ id w' e.
        elim (Bool-cases (nat_beq id 0)) [
          | inl z ↦ rw z (scan_tokens-Gives n (i + 1) w')
          | inr z ↦ rw z (
              bind-Gives (try_capability contracts codec backend id) _ IfUsed w' (λ found w2 k.
                or_continue-Gives id _ found w2 (Gives-ok _ _ (try_capability-Read id w') k)
                  (λ w3. scan_tokens-Gives n (i + 1) w3)))
        ])

  certify_new-Gives :
      (id : ℕ) (cid : Text) (w : World W)
      → Gives (λ u w'. w'.capability_id ≡ id) (certify_new contracts codec backend id cid w)
  unfolding certify_new note_capability
  certify_new-Gives id cid w =
      bind-Gives (call (contracts.certify_capability id)) _ (λ u w'. w'.capability_id ≡ id) w
        (λ hash w' e. refl)

  abbrev EndsOwned : Unit {0} → World W → Type 0
  EndsOwned u w = Owned w.capability_id

  register_fresh-Gives : (w : World W) → Gives EndsOwned (register_fresh contracts codec backend w)
  unfolding register_fresh
  register_fresh-Gives w = bind-Gives (call contracts.pin_model_card) _ EndsOwned w (λ cid w1 e1.
      let pinned : World W = record w1 { capability_metadata_cid = cid } in
      bind-Gives (call (contracts.register_capability_eth agent_a lora cid demo_bond)) _ EndsOwned
        pinned
        (λ made w2 e2.
          bind-Gives (wait_visible contracts codec backend 10 made.0) _ EndsOwned w2
            (λ visible w3 e3. certify_visible cid made visible w3 (
              w1.chain,
              w2.chain,
              call-chain (contracts.register_capability_eth agent_a lora cid demo_bond) pinned e2,
            ))))
    where
      certify_visible :
          (cid : Text) (made : ℕ × Option Text) (visible : Bool) (w : World W)
          → ((a : W) × (b : W) × (contracts.register_capability_eth agent_a lora cid demo_bond a
                ≡ (ok made, b)))
          → Gives EndsOwned (
              (if visible
                  then certify_new contracts codec backend made.0 cid
                  else (λ w. (err (text "not visible after register"), w)))
                w)
      certify_visible cid made true w h =
          Gives-map _ EndsOwned _
            (λ u w' same. subst Owned (sym same) (inr (cid, made.1, h.0, h.1, h.2)))
            (certify_new-Gives made.0 cid w)
      certify_visible cid made false w h = tt

  scan_or_register-Gives :
      (w : World W) → Gives EndsOwned (scan_or_register contracts codec backend w)
  unfolding scan_or_register
  scan_or_register-Gives w = bind-Gives (call contracts.total_supply) _ EndsOwned w (λ total w1 e1.
      bind-Gives (scan_tokens contracts codec backend total 0) _ EndsOwned w1 (λ taken w2 e2.
        elim (Bool-cases taken) [
          | inl t ↦ rw t (Gives-ok IfUsed _ (scan_tokens-Gives total 0 w1) e2 t)
          | inr t ↦ rw t (register_fresh-Gives w2)
        ]))

  ensure_capability-Gives :
      (w : World W) → Gives EndsOwned (ensure_capability contracts codec backend w)
  unfolding ensure_capability
  ensure_capability-Gives w =
      let chain = contracts.reset_oracle (contracts.reset_agent_a w.chain) in
      let ix = sync_registry (to_lower backend.deployment.registry) w.index in
      let synced : World W = record w { chain = chain; index = ix } in
      let cached = is_capability_registered codec.first_row backend.agent_a_address lora ix in
      bind-Gives (check_cached contracts codec backend cached) _ EndsOwned synced (λ used w1 e1.
        elim (Bool-cases used) [
          | inl t ↦ rw t (Gives-ok IfUsed _ (check_cached-Gives cached synced) e1 t)
          | inr t ↦ rw t (scan_or_register-Gives w1)
        ])

  -- Where ensureCapability, which a read-only start leaves out, does not throw, the capability that the
  -- backend then works with is one that the node gave with the demo agent as its creator, or the one
  -- that the node returned for a registration of the demo capability by the demo agent's own key.
  pub ensure_capability-Owned :
      (w w' : World W)
      → ensure_capability contracts codec backend w ≡ (ok tt, w')
      → Owned w'.capability_id
  ensure_capability-Owned w w' h = Gives-ok EndsOwned _ (ensure_capability-Gives w) h
