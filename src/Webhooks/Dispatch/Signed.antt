-- ===== src/Webhooks/Dispatch/Signed.antt =====
-- The signature of a delivery of packages/backend/src/webhooks.ts, as a subscriber checks it.
use taop_protocol.Prelude.{
  ℕ, ◌≡◌, ◌↔◌, refl, true, List, [], ◌∷◌, Text, text_beq_iff, Option, none, some, length,
  nat_beq_iff, arith,
}
use taop_protocol.Index.{Alert}
use taop_protocol.Webhooks.{Platform, WebhookConfig}
use taop_protocol.Webhooks.Signature.{sign_payload, verify_signature}
use taop_protocol.Webhooks.Dispatch.{DeliveryBody, Request, Response, Clock, delivery_request}

module _ {Body : Type 0} (platform : Platform Body) (bytes : Text → List ℕ) (secret : Text)
    (body : Body) where
  verify-sign_payload :
      verify_signature platform bytes secret body (some (sign_payload platform secret body)) ≡ true
  unfolding verify_signature sign_payload
  verify-sign_payload =
      let expected = bytes (sign_payload platform secret body) in
      ground
        (arith, nat_beq_iff (length expected) (length expected), text_beq_iff expected expected)

  -- A header that is not empty passes the check exactly if it has the bytes of the signature.
  verify_signature_iff :
      (c : ℕ) (cs : Text)
      → (verify_signature platform bytes secret body (some (c ∷ cs)) ≡ true)
        ↔ (bytes (c ∷ cs) ≡ bytes (sign_payload platform secret body))
  unfolding verify_signature
  verify_signature_iff c cs =
      let expected = bytes (sign_payload platform secret body) in
      let received = bytes (c ∷ cs) in
      (
        λ h. ground (arith, text_beq_iff expected received),
        λ e. rw e (
            ground (
              arith,
              nat_beq_iff (length expected) (length expected),
              text_beq_iff expected expected,
            )),
      )

module _ (platform : Platform DeliveryBody) (bytes : Text → List ℕ) (fetch : Request → Response)
    (status_message : ℕ → Text) (config : WebhookConfig) (clock : Clock) where
  abbrev request_with : Option Text → Alert → Request
  request_with secret =
      delivery_request platform fetch status_message (record config { secret = secret }) clock

  -- Where the configuration has a secret that is not empty, the request for an alert has a signature
  -- header, which passes the check under that secret with the body of the request; another header,
  -- not empty, passes this check exactly if it has the bytes of the one that was sent. Without a
  -- secret, or with an empty one, the request has no such header.
  pub verify_signature-delivery_request :
      (alert : Alert) (s : ℕ) (secret : Text) (c : ℕ) (header : Text)
      → let signed = request_with (some (s ∷ secret)) alert in
        (verify_signature platform bytes (s ∷ secret) signed.body signed.signature ≡ true)
        × ((sent : Text) × (signed.signature ≡ some sent)
            × ((verify_signature platform bytes (s ∷ secret) signed.body (some (c ∷ header)) ≡ true)
                ↔ (bytes (c ∷ header) ≡ bytes sent)))
        × ((request_with none alert).signature ≡ none)
        × ((request_with (some []) alert).signature ≡ none)
  unfolding delivery_request
  verify_signature-delivery_request alert s secret c header = (
    verify-sign_payload platform bytes (s ∷ secret) _,
    (_, refl, verify_signature_iff platform bytes (s ∷ secret) _ c header),
    refl,
    refl,
  )
