-- ===== src/Metrics/Labels.antt =====
-- The labels of the counters of responses of packages/backend/src/metrics.ts.
use taop_protocol.Prelude.{
  ℕ, suc, ◌+◌, ◌*◌, ◌/◌, ◌≤◌, ◌<◌, ◌≡◌, refl, ap, true, ◌||◌, List, [], ◌∷◌, ◌++◌, Text, text,
  text_eq, text_beq, text_beq_iff, arith, length, length-append, All, Bool-cases, Option-cases, inl,
  inr,
}
use taop_protocol.Table.{Table, find}
use taop_protocol.Metrics.Decimal.{decimal, decimal_within}
use taop_protocol.Metrics.{
  known_methods, is_member, normalize_http_method, HttpEntry, status_class, request_key,
  count_response, to_upper,
}
use taop_protocol.Metrics.Requests.{count_responses, count_responses-IsKeyed}
use taop_protocol.Metrics.Within.{
  Within, length-Within, Within-put, Within-update, member-cons, member-head,
}

-- The methods that are labelled, with the bucket of the others, and the classes of statuses of at
-- most three digits.
abbrev methods : List Text
methods = text "OTHER" ∷ known_methods

abbrev classes : List Text
classes =
    text "0xx"
    ∷ text "1xx"
    ∷ text "2xx"
    ∷ text "3xx"
    ∷ text "4xx"
    ∷ text "5xx"
    ∷ text "6xx"
    ∷ text "7xx"
    ∷ text "8xx"
    ∷ text "9xx"
    ∷ []

keys_with : Text → List Text → List Text
keys_with method [] = []
keys_with method (c ∷ cs) = (method ++ b':' ∷ c) ∷ keys_with method cs

keys : List Text → List Text → List Text
keys [] cs = []
keys (m ∷ ms) cs = keys_with m cs ++ keys ms cs

member-append :
    (x : Text) (a b : List Text) → is_member x (a ++ b) ≡ (is_member x a || is_member x b)
unfolding is_member
member-append x [] b = refl
member-append x (y ∷ a) b = ground (arith, member-append x a b)

member-keys_with :
    (m c : Text) (cs : List Text)
    → is_member c cs ≡ true
    → is_member (m ++ b':' ∷ c) (keys_with m cs) ≡ true
unfolding is_member keys_with
member-keys_with m c [] h = absurd (cc)
member-keys_with m c (d ∷ cs) h = ground (
  arith,
  text_beq_iff d c,
  text_beq_iff (m ++ b':' ∷ d) (m ++ b':' ∷ c),
  member-keys_with m c cs,
  h,
)

member-keys :
    (m c : Text) (ms cs : List Text)
    → is_member m ms ≡ true
    → is_member c cs ≡ true
    → is_member (m ++ b':' ∷ c) (keys ms cs) ≡ true
unfolding is_member keys
member-keys m c [] cs h k = absurd (cc)
member-keys m c (n ∷ ms) cs h k =
    rw (member-append (m ++ b':' ∷ c) (keys_with n cs) (keys ms cs))
      (ground (arith, text_beq_iff n m, member-keys_with m c cs k, member-keys m c ms cs, h, k))

normalize-member : (method : Text) → is_member (normalize_http_method method) methods ≡ true
unfolding normalize_http_method
normalize-member method = elim (Bool-cases (is_member (to_upper method) known_methods)) [
  | inl e ↦ rw (e, normalize_http_method) (member-cons (to_upper method) _ known_methods e)
  | inr e ↦ rw (e, normalize_http_method) (member-head (text "OTHER") known_methods)
]

digit-member : (d : ℕ) → d < 10 → is_member ((48 + d) ∷ text "xx") classes ≡ true
unfolding is_member text_beq
digit-member d h = ground arith

decimal-digit : (d : ℕ) → d < 10 → decimal d ≡ (48 + d) ∷ []
unfolding decimal decimal_within
decimal-digit d h = ground arith

class-member : (status : ℕ) → status < 1000 → is_member (status_class status) classes ≡ true
unfolding status_class
class-member status h =
    rw (decimal-digit (status / 100) (omega arith)) (digit-member (status / 100) (omega arith))

abbrev all_keys : List Text
all_keys = keys methods classes

length-keys_with : (m : Text) (cs : List Text) → length (keys_with m cs) ≡ length cs
unfolding keys_with
length-keys_with m [] = refl
length-keys_with m (c ∷ cs) = ap suc (length-keys_with m cs)

length-keys : (ms cs : List Text) → length (keys ms cs) ≡ length ms * length cs
unfolding keys
length-keys [] cs = omega arith
length-keys (m ∷ ms) cs =
    grind
      (arith, length-append (keys_with m cs) (keys ms cs), length-keys_with m cs, length-keys ms cs)

count_response-Within :
    (method : Text) (status : ℕ) (entries : Table Text HttpEntry)
    → status < 1000
    → Within all_keys entries
    → Within all_keys (count_response method status entries)
unfolding count_response request_key
count_response-Within method status entries h w =
    elim (Option-cases (find (request_key method status) entries)) [
      | inl e ↦
          rw (e, count_response)
            (Within-put all_keys (request_key method status) _ entries
              (member-keys (normalize_http_method method) (status_class status) methods classes
                (normalize-member method) (class-member status h))
              w)
      | inr (x, e) ↦
          rw (e, count_response) (Within-update all_keys (request_key method status) _ entries w)
    ]

count_responses-Within :
    (responses : List (Text × ℕ)) (entries : Table Text HttpEntry)
    → All (λ r. r.1 < 1000) responses
    → Within all_keys entries
    → Within all_keys (count_responses responses entries)
unfolding count_responses
count_responses-Within [] entries h w = w
count_responses-Within ((method, status) ∷ rest) entries h w =
    count_responses-Within rest _ h.1 (count_response-Within method status entries h.0 w)

-- However many responses were counted, and whatever the tokens of their methods, there are at most 80
-- label sets, where the statuses have at most three digits.
pub length-count_responses :
    (responses : List (Text × ℕ))
    → All (λ r. r.1 < 1000) responses
    → length (count_responses responses []) ≤ 80
length-count_responses responses h =
    let bound =
      length-Within all_keys (count_responses responses [])
        (count_responses-IsKeyed responses [] tt) (count_responses-Within responses [] h tt) in
    omega (arith, bound, length-keys methods classes)
