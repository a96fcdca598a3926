-- ===== src/Jwt/Validity.antt =====
-- Which tokens `validateToken` of src/services/jwt.service.ts accepts.
use authentication_v.Base.{
  ℕ, ◌/◌, ◌≤◌, ◌≡◌, ◌≢◌, refl, subst, inl, inr, Bool-cases, Bool, true, false, Option, none, some,
  List, [], ◌∷◌, arith, ◌==◌,
}
use authentication_v.Kong.{Outcome, returned, threw}
use authentication_v.Jwt.Text.{Text, split}
use authentication_v.Jwt.Service.{
  Runtime, Payload, Parsed, malformed, null, claims, Validation, join, from_url, base64url_decode,
  is_past, is_future, check_times, check_payload, check_signature, check_parts, validate_token,
}

-- The second in which the token expires, where it has one that is not 0, is not before this one.
abbrev pub IsNotPast : ℕ → Payload → Type 0
IsNotPast now p = (second : ℕ) → p.exp ≡ some second → second ≢ 0 → now ≤ second

-- The second from which on the token is valid, where it has one, is not after this one.
abbrev pub IsNotFuture : ℕ → Payload → Type 0
IsNotFuture now p = (second : ℕ) → p.nbf ≡ some second → second ≤ now

-- A token of three parts whose signature is verified with the secret over the first two, whose payload has
-- the claims, and which has not expired and is already valid.
pub record IsAuthentic (runtime : Runtime) (now : ℕ) (token secret : Text) (p : Payload)
    : Type 0 where
  pub header : Text
  pub payload : Text
  pub signature : Text
  pub json : Text
  pub parts : split 46 token ≡ header ∷ payload ∷ signature ∷ []
  pub verified :
      runtime.verify
        (runtime.encode secret)
        (base64url_decode runtime signature)
        (runtime.encode (join header payload))
      ≡ returned true
  pub decoded : runtime.atob (from_url payload) ≡ some json
  pub parsed : runtime.parse json ≡ claims p
  pub not_past : IsNotPast (now / 1000) p
  pub not_future : IsNotFuture (now / 1000) p

-- The result that accepts a payload.
abbrev pub Accepts : Validation → Payload → Type 0
Accepts v p = (v.is_valid ≡ true) × (v.payload ≡ some p)

current_past :
    (now : ℕ) (exp : Option ℕ)
    → is_past now exp ≡ false
    → (second : ℕ) → exp ≡ some second
    → second ≢ 0
    → now ≤ second
current_past now exp h second e n = elim (Bool-cases (second == 0)) [
  | inl zero_second ↦ absurd (n (ground (arith, zero_second)))
  | inr positive ↦ ground (arith, h, e, positive)
]

past_current :
    (now : ℕ) (exp : Option ℕ)
    → ((second : ℕ) → exp ≡ some second → second ≢ 0 → now ≤ second)
    → is_past now exp ≡ false
past_current now none h = refl
past_current now (some second) h = elim (Bool-cases (second == 0)) [
  | inl zero_second ↦ ground (arith, zero_second)
  | inr positive ↦
      let later : now ≤ second = h second refl (λ z. ground (arith, z, positive)) in
      ground (arith, later, positive)
]

begun_future :
    (now : ℕ) (nbf : Option ℕ)
    → is_future now nbf ≡ false
    → (second : ℕ) → nbf ≡ some second
    → second ≤ now
begun_future now nbf h second e = ground (arith, h, e)

future_begun :
    (now : ℕ) (nbf : Option ℕ)
    → ((second : ℕ) → nbf ≡ some second → second ≤ now)
    → is_future now nbf ≡ false
future_begun now none h = refl
future_begun now (some second) h = let begun : second ≤ now = h second refl in ground (arith, begun)

check_times-Accepts :
    (now : ℕ) (d : Parsed) (p : Payload)
    → Accepts (check_times now d) p
    → (d ≡ claims p) × (is_past now p.exp ≡ false) × (is_future now p.nbf ≡ false)
unfolding check_times
check_times-Accepts now malformed p h = absurd (cc h.0)
check_times-Accepts now null p h = absurd (cc h.0)
check_times-Accepts now (claims q) p h = elim (Bool-cases (is_past now q.exp)) [
  | inl past ↦ absurd (ground (arith, h.0, past))
  | inr current ↦ elim (Bool-cases (is_future now q.nbf)) [
    | inl future ↦ absurd (ground (arith, h.0, current, future))
    | inr begun ↦
        let same : q ≡ p = ground (arith, h.1, current, begun) in
        subst
          (λ (r : Payload).
            (claims q ≡ claims r) × (is_past now r.exp ≡ false) × (is_future now r.nbf ≡ false))
          same (refl, current, begun)
  ]
]

module _ (runtime : Runtime) where
  check_payload-Accepts :
      (now : ℕ) (o : Option Text) (p : Payload)
      → Accepts (check_payload runtime now o) p
      → (json : Text) × (o ≡ some json)
        × (runtime.parse json ≡ claims p)
        × (is_past now p.exp ≡ false)
        × (is_future now p.nbf ≡ false)
  unfolding check_payload
  check_payload-Accepts now none p h = absurd (cc h.0)
  check_payload-Accepts now (some json) p h =
      let times = check_times-Accepts now (runtime.parse json) p h in
      (json, refl, times.0, times.1, times.2)

  check_signature-Accepts :
      (now : ℕ) (payload : Text) (o : Outcome Bool) (p : Payload)
      → Accepts (check_signature runtime now payload o) p
      → (o ≡ returned true)
        × Accepts (check_payload runtime now (runtime.atob (from_url payload))) p
  unfolding check_signature
  check_signature-Accepts now payload threw p h = absurd (cc h.0)
  check_signature-Accepts now payload (returned false) p h = absurd (cc h.0)
  check_signature-Accepts now payload (returned true) p h = (refl, h)

  -- The parts of a token that is accepted.
  HasParts : ℕ → Text → List Text → Payload → Type 0
  HasParts now secret parts p =
      (header : Text) × (payload : Text) × (signature : Text) × (parts
        ≡ header ∷ payload ∷ signature ∷ [])
      × Accepts
          (check_signature runtime now payload (
            runtime.verify (runtime.encode secret) (base64url_decode runtime signature)
              (runtime.encode (join header payload))))
          p

  check_parts-Accepts :
      (now : ℕ) (secret : Text) (parts : List Text) (p : Payload)
      → Accepts (check_parts runtime now secret parts) p
      → HasParts now secret parts p
  unfolding check_parts HasParts
  check_parts-Accepts now secret [] p h = absurd (cc h.0)
  check_parts-Accepts now secret (a ∷ []) p h = absurd (cc h.0)
  check_parts-Accepts now secret (a ∷ b ∷ []) p h = absurd (cc h.0)
  check_parts-Accepts now secret (a ∷ b ∷ c ∷ []) p h = (a, b, c, refl, h)
  check_parts-Accepts now secret (a ∷ b ∷ c ∷ d ∷ rest) p h = absurd (cc h.0)

  pub validate_token-IsAuthentic :
      (now : ℕ) (token secret : Text) (p : Payload)
      → Accepts (validate_token runtime now token secret) p
      → IsAuthentic runtime now token secret p
  unfolding validate_token HasParts
  validate_token-IsAuthentic now token secret p h =
      let found = check_parts-Accepts (now / 1000) secret (split 46 token) p h in
      let signed = check_signature-Accepts (now / 1000) found.1 _ p found.4 in
      let read = check_payload-Accepts (now / 1000) (runtime.atob (from_url found.1)) p signed.1 in
      record {
        header = found.0;
        payload = found.1;
        signature = found.2;
        json = read.0;
        parts = found.3;
        verified = signed.0;
        decoded = read.1;
        parsed = read.2;
        not_past = λ second e n. current_past (now / 1000) p.exp read.3 second e n;
        not_future = λ second e. begun_future (now / 1000) p.nbf read.4 second e;
      }

  pub authentic-Accepts :
      (now : ℕ) (token secret : Text) (p : Payload)
      → IsAuthentic runtime now token secret p
      → Accepts (validate_token runtime now token secret) p
  unfolding validate_token check_parts check_signature check_payload check_times
  authentic-Accepts now token secret p a =
      let current = past_current (now / 1000) p.exp a.not_past in
      let begun = future_begun (now / 1000) p.nbf a.not_future in
      rw (a.parts, a.verified, a.decoded, a.parsed, current, begun) (refl, refl)
