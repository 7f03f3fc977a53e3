-- ===== src/Security/Session/Conversation.antt =====
-- Messages one after the other, from one end of a session to the other.
use geberit_aquaclean.Prelude.{◌≡◌, refl, ap, ◌∙◌, List, [], ◌∷◌, ◌++◌, All, Result, ok, err, ◌>>=◌}
use geberit_aquaclean.Prelude.Bytes.{Bytes, IsBytes}
use geberit_aquaclean.Security.Link.{Security}
use geberit_aquaclean.Security.Session.{feed_att_bytes, wrap_for_send}
use geberit_aquaclean.Security.Session.Deliver.{Paired, wrapped, feed_att_bytes-wrap_for_send}

module _ (aes : Bytes → Bytes → Bytes) where
  abbrev pub delivered_then :
      Result (List Bytes) × Security → (Security → Result (List Bytes)) → Result (List Bytes)
  delivered_then (err e, r) later = err e
  delivered_then (ok messages, r) later = later r >>= λ more. ok (messages ++ more)

  -- What the receiver delivers while the sender wraps the messages, each of which arrives before the next.
  unfoldable pub converse : Security → Security → List Bytes → Result (List Bytes)
  converse s r [] = ok []
  converse s r (payload ∷ payloads) = wrap_for_send aes s payload >>= λ sent.
      delivered_then (feed_att_bytes aes r sent.0) (λ r'. converse sent.1 r' payloads)

module _ (aes : Bytes → Bytes → Bytes)
    (aes_bytes : (key block : Bytes) → IsBytes (aes key block)) where
  -- Paired ends deliver every message, exactly, and in the order in which they were wrapped.
  pub converse-Paired :
      (s r : Security) (payloads : List Bytes)
      → Paired aes s r
      → All IsBytes payloads
      → converse aes s r payloads ≡ ok payloads
  unfolding converse
  converse-Paired s r [] p h = refl
  converse-Paired s r (payload ∷ payloads) p (h, hs) =
      let (sent, delivered, next) = feed_att_bytes-wrap_for_send aes aes_bytes s r payload p h in
      let s' = (wrapped aes p.cipher s payload).1 in
      let fed = feed_att_bytes aes r (wrapped aes p.cipher s payload).0 in
      ap
        (λ o. o >>= λ sent.
          delivered_then aes (feed_att_bytes aes r sent.0) (λ r'. converse aes sent.1 r' payloads))
        sent
      ∙ ap (λ o. delivered_then aes (o, fed.1) (λ r'. converse aes s' r' payloads)) delivered
      ∙ ap (λ o. o >>= λ more. ok (payload ∷ more)) (converse-Paired s' fed.1 payloads next hs)
