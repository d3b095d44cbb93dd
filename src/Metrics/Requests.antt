-- ===== src/Metrics/Requests.antt =====
-- The counters of responses of packages/backend/src/metrics.ts.
use taop_protocol.Prelude.{
  ℕ, ◌+◌, ◌≡◌, List, [], ◌∷◌, Text, Option, none, some, ◌==◌, text_eq, text_beq_iff, arith, count,
  bit, Bool-cases, Option-cases, inl, inr,
}
use taop_protocol.Table.{Table, find, update}
use taop_protocol.Table.Laws.{find-put, find-update}
use taop_protocol.Table.Counting.{IsKeyed, put-IsKeyed}
use taop_protocol.Metrics.{HttpEntry, request_key, count_response}

-- The responses so far, the oldest first, as pairs of the method and the status.
unfoldable pub count_responses : List (Text × ℕ) → Table Text HttpEntry → Table Text HttpEntry
count_responses [] entries = entries
count_responses ((method, status) ∷ rest) entries =
    count_responses rest (count_response method status entries)

abbrev pub counted : Option HttpEntry → ℕ
counted none = 0
counted (some e) = e.count

-- How many responses fall under a key.
abbrev pub matching : Text → List (Text × ℕ) → ℕ
matching key = count (λ r. request_key r.0 r.1 == key)

counted-count_response :
    (method : Text) (status : ℕ) (entries : Table Text HttpEntry) (key : Text)
    → counted (find key (count_response method status entries))
      ≡ bit (request_key method status == key) + counted (find key entries)
unfolding count_response
counted-count_response method status entries key =
    elim (Option-cases (find (request_key method status) entries)) [
      | inl e ↦
          rw (e, count_response)
            (rw (find-put (request_key method status) key _ entries)
              (ground (arith, e, text_beq_iff (request_key method status) key)))
      | inr (w, e) ↦
          rw (e, count_response)
            (rw (find-update (request_key method status) key _ entries)
              (elim (Bool-cases (request_key method status == key)) [
                | inl hit ↦ rw hit (
                    let same = (text_beq_iff (request_key method status) key).0 hit in
                    let found : find key entries ≡ some w = rw same at e in rw found (omega arith))
                | inr miss ↦ rw miss (omega arith)
              ]))
    ]

-- After any responses, the counter under a key tells how many of them have that key, whatever it
-- counted before.
pub counted-count_responses :
    (responses : List (Text × ℕ)) (entries : Table Text HttpEntry) (key : Text)
    → counted (find key (count_responses responses entries))
      ≡ matching key responses + counted (find key entries)
unfolding count_responses
counted-count_responses [] entries key = omega arith
counted-count_responses ((method, status) ∷ rest) entries key =
    let step = counted-count_response method status entries key in
    let ih = counted-count_responses rest (count_response method status entries) key in
    omega (arith, step, ih)

update-IsKeyed :
    (k : Text) (f : HttpEntry → HttpEntry) (t : Table Text HttpEntry)
    → IsKeyed t
    → IsKeyed (update k f t)
unfolding update
update-IsKeyed k f [] h = tt
update-IsKeyed k f ((i, w) ∷ t) h = elim (Bool-cases (i == k)) [
  | inl e ↦ rw e h
  | inr e ↦ rw e (
    rw (find-update k i f t) (ground (arith, text_beq_iff i k, text_beq_iff k i, h.0)),
    update-IsKeyed k f t h.1,
  )
]

count_response-IsKeyed :
    (method : Text) (status : ℕ) (entries : Table Text HttpEntry)
    → IsKeyed entries
    → IsKeyed (count_response method status entries)
unfolding count_response
count_response-IsKeyed method status entries h =
    elim (Option-cases (find (request_key method status) entries)) [
      | inl e ↦ rw (e, count_response) (put-IsKeyed (request_key method status) _ entries h)
      | inr (w, e) ↦ rw (e, count_response) (update-IsKeyed (request_key method status) _ entries h)
    ]

pub count_responses-IsKeyed :
    (responses : List (Text × ℕ)) (entries : Table Text HttpEntry)
    → IsKeyed entries
    → IsKeyed (count_responses responses entries)
unfolding count_responses
count_responses-IsKeyed [] entries h = h
count_responses-IsKeyed ((method, status) ∷ rest) entries h =
    count_responses-IsKeyed rest _ (count_response-IsKeyed method status entries h)
