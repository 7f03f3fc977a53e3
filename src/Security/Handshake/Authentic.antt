-- ===== src/Security/Handshake/Authentic.antt =====
-- The handshake and the check of the device's public key.
use geberit_aquaclean.Prelude.{
  ℕ, ◌≤◌, ◌≡◌, ◌⊎◌, inl, inr, refl, sym, ap, ◌∙◌, Bool, true, false, Bool-cases, some, [], ◌∷◌,
  ◌==◌, ltb, ◌&&◌, if◌then◌else◌, length, arith, Error, Result, ok, err, value_error,
}
use geberit_aquaclean.Prelude.Io.{and_run, raise}
use geberit_aquaclean.Prelude.Bytes.{Bytes, slice}
use geberit_aquaclean.Security.AesCtr.{init}
use geberit_aquaclean.Security.Link.{Security, RxFrame, u_ctrl, att_u, att_i}
use geberit_aquaclean.Security.Handshake.{
  Connection, same_bytes, start, send_raw, send_i, await_rx, establish, auth_key_of, verify,
  ke_request, exchange_keys, perform_handshake, is_i_security, is_u_frame, sec_ke_resp, sec_ep_resp,
  sec_ep_req, sec_version_resp, sec_version_req, hdlc_sabm_type, hdlc_ua_type,
}
use geberit_aquaclean.Security.Handshake.Keeps.{Keeps, Keeps_trans, await_rx-Keeps}

pub same_bytes→eq : (xs ys : Bytes) → same_bytes xs ys ≡ true → xs ≡ ys
unfolding same_bytes
same_bytes→eq [] [] h = refl
same_bytes→eq [] (y ∷ ys) h = absurd cc
same_bytes→eq (x ∷ xs) [] h = absurd cc
same_bytes→eq (x ∷ xs) (y ∷ ys) h = elim (Bool-cases (x == y)) [
  | inl e ↦
      let head : x ≡ y = ground arith in
      let tail : xs ≡ ys = same_bytes→eq xs ys (sym (ap (λ b. b && same_bytes xs ys) e) ∙ h) in
      rw (head, tail) refl
  | inr e ↦ absurd (let no : false ≡ true = sym (ap (λ b. b && same_bytes xs ys) e) ∙ h in cc)
]

-- The handshake has raised, is not done, and the ciphers are those that there were.
pub record Refused (s : Security) (r : Result (Unit {0}) × Connection) : Type 0 where
  pub error : Error
  pub raised : r.0 ≡ err error
  pub kept : Keeps s r.1.security

through :
    {A : Type 0} (P : Result (Unit {0}) × Connection → Type 0) (s : Security)
    (r : Result A × Connection) (f : A → Connection → Result (Unit {0}) × Connection)
    → Keeps s r.1.security
    → ((a : A) (c : Connection)
        → Keeps s c.security
        → r ≡ (ok a, c)
        → Refused s (f a c) ⊎ P (f a c))
    → Refused s (and_run r f) ⊎ P (and_run r f)
through P s (err e, c) f h k = inl (record { error = e; raised = refl; kept = h })
through P s (ok a, c) f h k = k a c h refl

-- The case split of an `if` that raises in one branch.
past_guard :
    (P : Result (Unit {0}) × Connection → Type 0) (s : Security) (b : Bool) (e : Error)
    (m : Connection → Result (Unit {0}) × Connection) (c : Connection)
    → Keeps s c.security
    → (b ≡ false → Refused s (m c) ⊎ P (m c))
    → Refused s ((if b then raise e else m) c) ⊎ P ((if b then raise e else m) c)
past_guard P s true e m c h k = inl (record { error = e; raised = refl; kept = h })
past_guard P s false e m c h k = k refl

past_check :
    (P : Result (Unit {0}) × Connection → Type 0) (s : Security) (b : Bool) (e : Error)
    (m : Connection → Result (Unit {0}) × Connection) (c : Connection)
    → Keeps s c.security
    → (b ≡ true → Refused s (m c) ⊎ P (m c))
    → Refused s ((if b then m else raise e) c) ⊎ P ((if b then m else raise e) c)
past_check P s true e m c h k = k refl
past_check P s false e m c h k = inl (record { error = e; raised = refl; kept = h })

send_i-Keeps : (payload : Bytes) (c : Connection) → Keeps c.security (send_i payload c).1.security
unfolding send_i att_i
send_i-Keeps payload c = record { done = refl; reads = refl; sends = refl }

await_or :
    (aes : Bytes → Bytes → Bytes) (P : Result (Unit {0}) × Connection → Type 0) (s : Security)
    (wanted : RxFrame → Bool) (c : Connection)
    (f : RxFrame → Connection → Result (Unit {0}) × Connection)
    → s.handshake_done ≡ false
    → Keeps s c.security
    → ((a : RxFrame) (c' : Connection)
        → Keeps s c'.security
        → await_rx aes wanted c ≡ (ok a, c')
        → Refused s (f a c') ⊎ P (f a c'))
    → Refused s (and_run (await_rx aes wanted c) f) ⊎ P (and_run (await_rx aes wanted c) f)
await_or aes P s wanted c f d h k =
    through P s (await_rx aes wanted c) f
      (Keeps_trans s c.security _ h (await_rx-Keeps aes wanted c (h.done ∙ d))) k

module _ (aes : Bytes → Bytes → Bytes) (hkdf : Bytes → Bytes → ℕ → Bytes)
    (aes_cmac : Bytes → Bytes → Bytes) (public_key : Bytes → Bytes)
    (exchange : Bytes → Bytes → Result Bytes) where
  -- The handshake is done, with the keys of a KE response that is authenticated.
  pub record Verified (private_key nonce1 nonce2 ke : Bytes) (r : Result (Unit {0}) × Connection)
      : Type 0 where
    pub shared_secret : Bytes
    pub long : 49 ≤ length ke
    pub authentic :
        slice 33 49 ke
        ≡ aes_cmac (auth_key_of aes hkdf aes_cmac public_key exchange nonce1) (slice 1 33 ke)
    pub secret : exchange private_key (slice 1 33 ke) ≡ ok shared_secret
    pub ended : r.0 ≡ ok tt
    pub done : r.1.security.handshake_done ≡ true
    pub reads :
        r.1.security.rx_cipher ≡ some (init aes (slice 0 16 (hkdf shared_secret nonce1 32)) nonce2)
    pub sends :
        r.1.security.tx_cipher ≡ some (init aes (slice 16 32 (hkdf shared_secret nonce1 32)) nonce2)

  -- The same, where that response came in reply to the request.
  pub record Exchanged (private_key ep : Bytes) (c : Connection)
      (r : Result (Unit {0}) × Connection) : Type 0 where
    pub ke : RxFrame
    pub rest : Connection
    pub long : 33 ≤ length ep
    pub reply :
        await_rx aes
          (is_i_security sec_ke_resp)
          (send_i
            (ke_request aes hkdf aes_cmac public_key exchange private_key (slice 1 17 ep))
            c).1
        ≡ (ok ke, rest)
    pub verified : Verified private_key (slice 1 17 ep) (slice 17 33 ep) ke.payload r

  -- The same, where the nonces are those of the EP response: the frames for which the handshake waits
  -- after each of its requests, from the connection `c` on.
  pub record Accepted (private_key : Bytes) (c : Connection) (r : Result (Unit {0}) × Connection)
      : Type 0 where
    pub ua : RxFrame
    pub version : RxFrame
    pub ep : RxFrame
    pub connected : Connection
    pub versioned : Connection
    pub answered : Connection
    pub connects :
        await_rx aes
          (is_u_frame (u_ctrl hdlc_ua_type))
          (send_raw (att_u hdlc_sabm_type) (start c).1).1
        ≡ (ok ua, connected)
    pub tells_version :
        await_rx aes (is_i_security sec_version_resp) (send_i (sec_version_req ∷ []) connected).1
        ≡ (ok version, versioned)
    pub reply :
        await_rx aes (is_i_security sec_ep_resp) (send_i (sec_ep_req ∷ []) versioned).1
        ≡ (ok ep, answered)
    pub exchanged : Exchanged private_key ep.payload answered r

  verify_lem :
      (private_key nonce1 nonce2 ke : Bytes) (s : Security) (c : Connection)
      → Keeps s c.security
      → Refused s (verify aes hkdf aes_cmac public_key exchange private_key nonce1 nonce2 ke c)
        ⊎ Verified private_key nonce1 nonce2 ke
            (verify aes hkdf aes_cmac public_key exchange private_key nonce1 nonce2 ke c)
  unfolding verify establish
  verify_lem private_key nonce1 nonce2 ke s c h =
      let P = Verified private_key nonce1 nonce2 ke in
      past_guard P s (ltb (length ke) 49) value_error _ c h (λ l.
        past_check P s _ value_error _ c h (λ a.
          through P s (exchange private_key (slice 1 33 ke), c) _ h
            (λ shared_secret. λ c'. λ h'. λ e. inr (record {
              shared_secret = shared_secret;
              long = ground arith;
              authentic = same_bytes→eq _ _ a;
              secret = ap (λ r. r.0) e;
              ended = refl;
              done = refl;
              reads = refl;
              sends = refl;
            }))))

  exchange_keys_lem :
      (private_key ep : Bytes) (s : Security) (c : Connection)
      → s.handshake_done ≡ false
      → Keeps s c.security
      → Refused s (exchange_keys aes hkdf aes_cmac public_key exchange private_key ep c)
        ⊎ Exchanged private_key ep c
            (exchange_keys aes hkdf aes_cmac public_key exchange private_key ep c)
  unfolding exchange_keys
  exchange_keys_lem private_key ep s c f h =
      let P = Exchanged private_key ep c in
      let asked =
        (send_i (ke_request aes hkdf aes_cmac public_key exchange private_key (slice 1 17 ep))
          c).1 in
      let h' : Keeps s asked.security = Keeps_trans s c.security _ h (send_i-Keeps _ c) in
      past_guard P s (ltb (length ep) 33) value_error _ c h (λ l.
        await_or aes P s (is_i_security sec_ke_resp) asked _ f h' (λ ke. λ c'. λ k. λ e.
          elim (verify_lem private_key (slice 1 17 ep) (slice 17 33 ep) ke.payload s c' k) [
            | inl r ↦ inl r
            | inr v ↦
                inr (record { ke = ke; rest = c'; long = ground arith; reply = e; verified = v })
          ]))

  -- Whatever is in the queue and whatever arrives: a handshake that was not done either raises,
  -- and leaves it not done and the ciphers alone, or ends with ciphers whose nonces are those of the EP
  -- response that answered its request, and whose keys come from the KE response that answered the
  -- next one, with a public key that passed the check.
  pub perform_handshake-Accepted :
      (private_key : Bytes) (c : Connection)
      → c.security.handshake_done ≡ false
      → Refused c.security (perform_handshake aes hkdf aes_cmac public_key exchange private_key c)
        ⊎ Accepted private_key c
            (perform_handshake aes hkdf aes_cmac public_key exchange private_key c)
  unfolding perform_handshake start send_raw
  perform_handshake-Accepted private_key c f =
      let s = c.security in
      let P = Accepted private_key c in
      let c0 = (send_raw (att_u hdlc_sabm_type) (start c).1).1 in
      await_or aes P s (is_u_frame (u_ctrl hdlc_ua_type)) c0 _ f
        (record { done = refl; reads = refl; sends = refl })
        (λ ua. λ c1. λ h1. λ e1.
          let c1' = (send_i (sec_version_req ∷ []) c1).1 in
          await_or aes P s (is_i_security sec_version_resp) c1' _ f
            (Keeps_trans s c1.security c1'.security h1 (send_i-Keeps (sec_version_req ∷ []) c1))
            (λ vr. λ c2. λ h2. λ e2.
              let c2' = (send_i (sec_ep_req ∷ []) c2).1 in
              await_or aes P s (is_i_security sec_ep_resp) c2' _ f
                (Keeps_trans s c2.security c2'.security h2 (send_i-Keeps (sec_ep_req ∷ []) c2))
                (λ ep. λ c3. λ h3. λ e3. elim (exchange_keys_lem private_key ep.payload s c3 f h3) [
                  | inl r ↦ inl r
                  | inr x ↦ inr (record {
                    ua = ua;
                    version = vr;
                    ep = ep;
                    connected = c1;
                    versioned = c2;
                    answered = c3;
                    connects = e1;
                    tells_version = e2;
                    reply = e3;
                    exchanged = x;
                  })
                ])))
