-- ===== src/Email/Token/Laws.antt =====
-- A signed token verifies until it expires, and only a token with the right signature verifies.
use chronos_appointment_sche.Base.{
  ℕ, ◌+◌, ◌/◌, ◌≤◌, ◌≡◌, refl, Bool, true, false, none, some, List, [], ◌∷◌, ◌++◌, arith, ltb, ◌==◌,
  ==_refl, ==_iff, if◌then◌else◌, Option-cases, inl, inr,
}
use chronos_appointment_sche.Email.Token.{
  Text, Payload, Parsed, Codec, purpose_text, dot, before_dot, after_dot, same_text, same_length,
  is_empty, is_purpose, sign_token, verify_token,
}

abbrev pub has_dot : Text → Bool
has_dot [] = false
has_dot (c ∷ s) = if c == dot then true else has_dot s

-- What base64url, SHA-256 and JSON promise: the alphabet has no dot, a digest is not empty, and what
-- was written is read back.
pub record IsCodec (codec : Codec) : Type 0 where
  pub encode_dot : (s : Text) → has_dot (codec.encode s) ≡ false
  pub hmac_dot : (s : Text) → has_dot (codec.hmac s) ≡ false
  pub hmac_empty : (s : Text) → is_empty (codec.hmac s) ≡ false
  pub encode_empty : (p : Payload) → is_empty (codec.encode (codec.stringify p)) ≡ false
  pub decode-encode : (s : Text) → codec.decode (codec.encode s) ≡ s
  pub parse-stringify :
      (p : Payload)
      → codec.parse (codec.stringify p)
        ≡ some (record { sub = some p.sub; purpose = some p.purpose; exp = some p.exp })

before_dot-append : (a b : Text) → has_dot a ≡ false → before_dot (a ++ dot ∷ b) ≡ a
before_dot-append [] b h = refl
before_dot-append (c ∷ a) b h = ground (arith, before_dot-append a b)

after_dot-append : (a b : Text) → has_dot a ≡ false → after_dot (a ++ dot ∷ b) ≡ b
after_dot-append [] b h = refl
after_dot-append (c ∷ a) b h = ground (arith, after_dot-append a b)

before_dot_all : (a : Text) → has_dot a ≡ false → before_dot a ≡ a
before_dot_all [] h = refl
before_dot_all (c ∷ a) h = ground (arith, before_dot_all a)

pub same_text_refl : (a : List ℕ) → same_text a a ≡ true
same_text_refl [] = refl
same_text_refl (c ∷ a) = ground (arith, ==_refl c, same_text_refl a)

same_length_refl : (a : List ℕ) → same_length a a ≡ true
same_length_refl [] = refl
same_length_refl (c ∷ a) = ground (arith, same_length_refl a)

pub same_text_eq : (a b : List ℕ) → same_text a b ≡ true → a ≡ b
same_text_eq [] [] h = refl
same_text_eq [] (d ∷ b) h = ground arith
same_text_eq (c ∷ a) [] h = ground arith
same_text_eq (c ∷ a) (d ∷ b) h = ground (arith, ==_iff c d, same_text_eq a b)

-- A token that was signed for a client at `t` verifies at `now`, and names that client, exactly until
-- seven days, counted in whole seconds, have passed; after that nothing is answered.
pub verify_token-sign_token :
    (codec : Codec) (client t now : ℕ)
    → IsCodec codec
    → verify_token codec (sign_token codec client t) now
      ≡ (if ltb (t / 1000 + 604800) (now / 1000) then none else some client)
unfolding verify_token sign_token
verify_token-sign_token codec client t now h =
    let p : Payload = record { sub = client; purpose = purpose_text; exp = t / 1000 + 604800 } in
    let s = codec.stringify p in
    ground (
      arith,
      before_dot-append (codec.encode s) (codec.hmac s) (h.encode_dot s),
      after_dot-append (codec.encode s) (codec.hmac s) (h.encode_dot s),
      before_dot_all (codec.hmac s) (h.hmac_dot s),
      h.hmac_empty s,
      h.encode_empty p,
      h.decode-encode s,
      h.parse-stringify p,
      same_text_refl (codec.bytes (codec.hmac s)),
      same_length_refl (codec.hmac s),
      same_text_refl purpose_text,
    )

-- A token that verifies carries the signature of its payload, and the payload names the client, the
-- purpose of unsubscribing, and an expiry that has not passed.
pub record IsAuthentic (codec : Codec) (token : Text) (now client : ℕ) : Type 0 where
  pub payload : Text
  pub parsed : Parsed
  pub decoded : payload ≡ codec.decode (before_dot token)
  pub signature : codec.bytes (before_dot (after_dot token)) ≡ codec.bytes (codec.hmac payload)
  pub read : codec.parse payload ≡ some parsed
  pub sub : parsed.sub ≡ some client
  pub purpose : is_purpose parsed.purpose ≡ true
  pub in_time : (exp : ℕ) × (parsed.exp ≡ some exp) × (now / 1000 ≤ exp)

-- A token, forged or signed, that verifies is authentic.
pub verify_token-IsAuthentic :
    (codec : Codec) (token : Text) (now : ℕ) {client : ℕ}
    → verify_token codec token now ≡ some client
    → IsAuthentic codec token now client
unfolding verify_token
verify_token-IsAuthentic codec token now {client} h =
    let payload = codec.decode (before_dot token) in
    let sig = before_dot (after_dot token) in
    elim (Option-cases (codec.parse payload)) [
      | inl e ↦ absurd (ground arith)
      | inr (p, e) ↦ elim (Option-cases p.exp) [
        | inl f ↦ absurd (ground arith)
        | inr (x, f) ↦ record {
          payload = payload;
          parsed = p;
          decoded = refl;
          signature =
              same_text_eq (codec.bytes sig) (codec.bytes (codec.hmac payload)) (ground arith);
          read = e;
          sub = ground arith;
          purpose = ground arith;
          in_time = (x, f, ground arith);
        }
      ]
    ]
