-- ===== src/Client/Alba/Stats/Asked.antt =====
-- What `get_instanced_stats_async` asks of the device, and the one exception that it may raise.
use geberit_aquaclean.Prelude.{
  ℕ, zero, suc, bit_and, bit_or, ◌≡◌, refl, ap, sym, ◌∙◌, ◌⊎◌, inl, inr, Option, none, some, List,
  [], ◌∷◌, ◌++◌, append-nil, append_assoc, map, ok, err, type_error,
}
use geberit_aquaclean.Prelude.Bits.{◌>>>◌}
use geberit_aquaclean.Prelude.Bytes.{Bytes}
use geberit_aquaclean.Ble20.Address.{encode_address}
use geberit_aquaclean.Ble20.Client.{Ble20, Io, and_run, ◌>>=◌, ret, pure}
use geberit_aquaclean.Ble20.Requests.{read_cmd, read, optional}
use geberit_aquaclean.Ble20.Requests.Asked.{Answers, optional-Answers, ret-Answers, bind-Answers}
use geberit_aquaclean.Client.Alba.Base.{number_read}
use geberit_aquaclean.Client.Alba.Stats.{
  read_number_at, pct_of, read_progress, read_parts, read_version, version_of, stat_instances,
  read_counters, get_instanced_stats_async,
}

-- Ends with a value and sends `requests`, or raises TypeError and sends the first of them.
abbrev pub Ends : {A : Type 0} → Io A → List Bytes → Type 0
Ends {A = A} m requests =
    (c : Ble20)
    → ((a : A) × (c' : Ble20) × (m c ≡ (ok a, c')) × (c'.sent ≡ c.sent ++ requests))
      ⊎ ((c' : Ble20) × (asked : List Bytes) × (unasked : List Bytes) × (m c ≡ (err type_error, c'))
          × (requests ≡ asked ++ unasked)
          × (c'.sent ≡ c.sent ++ asked))

Answers-Ends :
    {A : Type 0} (m : Io A) (requests : List Bytes) → Answers m requests → Ends m requests
Answers-Ends m requests h c = inl (h c)

bind-Ends :
    {A B : Type 0} (m : Io A) (f : A → Io B) (requests requests' : List Bytes)
    → Ends m requests
    → ((a : A) → Ends (f a) requests')
    → Ends (m >>= f) (requests ++ requests')
bind-Ends m f requests requests' h k c = elim (h c) [
  | inr (c', asked, unasked, e, r, s) ↦ inr (
    c',
    asked,
    unasked ++ requests',
    ap (λ o. and_run o f) e,
    ap (λ l. l ++ requests') r ∙ append_assoc asked unasked requests',
    s,
  )
  | inl (a, c', e, s) ↦ elim (k a c') [
    | inl (b, c'', e', s') ↦ inl (
      b,
      c'',
      ap (λ o. and_run o f) e ∙ e',
      s' ∙ ap (λ l. l ++ requests') s ∙ append_assoc c.sent requests requests',
    )
    | inr (c'', asked, unasked, e', r, s') ↦ inr (
      c'',
      requests ++ asked,
      unasked,
      ap (λ o. and_run o f) e ∙ e',
      ap (λ l. requests ++ l) r ∙ sym (append_assoc requests asked unasked),
      s' ∙ ap (λ l. l ++ asked) s ∙ append_assoc c.sent requests asked,
    )
  ]
]

abbrev pub address_at : ℕ → ℕ → Bytes
address_at dp_id instance_id =
    bit_and dp_id 0xff ∷ bit_or (bit_and (dp_id >>> 8) 0x7f) 0x80 ∷ instance_id ∷ []

-- A request to read an instance of a data point.
abbrev pub request_at : ℕ → ℕ → Bytes
request_at dp_id instance_id = read_cmd ∷ address_at dp_id instance_id

read_number_at-Answers :
    (dp_id instance_id : ℕ)
    → encode_address dp_id (some instance_id) ≡ ok (address_at dp_id instance_id)
    → Answers (read_number_at dp_id instance_id) (request_at dp_id instance_id ∷ [])
unfolding read_number_at
read_number_at-Answers dp_id instance_id e =
    bind-Answers (optional (read dp_id (some instance_id))) _ (request_at dp_id instance_id ∷ []) []
      (optional-Answers dp_id (some instance_id) (address_at dp_id instance_id) e)
      (λ raw. ret-Answers (number_read raw))

-- Reading one, in front of what follows.
then_at :
    {B : Type 0} (dp_id instance_id : ℕ) (f : Option ℕ → Io B) (requests : List Bytes)
    → encode_address dp_id (some instance_id) ≡ ok (address_at dp_id instance_id)
    → ((n : Option ℕ) → Answers (f n) requests)
    → Answers (read_number_at dp_id instance_id >>= f) (request_at dp_id instance_id ∷ requests)
then_at dp_id instance_id f requests e h =
    bind-Answers (read_number_at dp_id instance_id) f (request_at dp_id instance_id ∷ []) requests
      (read_number_at-Answers dp_id instance_id e) h

then_at-Ends :
    {B : Type 0} (dp_id instance_id : ℕ) (f : Option ℕ → Io B) (requests : List Bytes)
    → encode_address dp_id (some instance_id) ≡ ok (address_at dp_id instance_id)
    → ((n : Option ℕ) → Ends (f n) requests)
    → Ends (read_number_at dp_id instance_id >>= f) (request_at dp_id instance_id ∷ requests)
then_at-Ends dp_id instance_id f requests e h =
    bind-Ends (read_number_at dp_id instance_id) f (request_at dp_id instance_id ∷ []) requests
      (Answers-Ends _ _ (read_number_at-Answers dp_id instance_id e)) h

read_parts3-Answers :
    (dp_id : ℕ) → Answers (read_parts dp_id 0 3 []) (map (request_at dp_id) (0 ∷ 1 ∷ 2 ∷ []))
unfolding read_parts encode_address
read_parts3-Answers dp_id =
    then_at dp_id 0 _ _ refl
      (λ _. then_at dp_id 1 _ _ refl (λ _. then_at dp_id 2 _ _ refl (λ _. ret-Answers _)))

read_parts2-Answers :
    (dp_id : ℕ) → Answers (read_parts dp_id 0 2 []) (map (request_at dp_id) (0 ∷ 1 ∷ []))
unfolding read_parts encode_address
read_parts2-Answers dp_id =
    then_at dp_id 0 _ _ refl (λ _. then_at dp_id 1 _ _ refl (λ _. ret-Answers _))

read_version-Ends :
    (dp_id n : ℕ) (requests : List Bytes)
    → Answers (read_parts dp_id 0 n []) requests
    → Ends (read_version dp_id n) (requests ++ [])
unfolding read_version
read_version-Ends dp_id n requests h = Answers-Ends (read_version dp_id n) (requests ++ []) (
    bind-Answers (read_parts dp_id 0 n []) _ requests [] h
      (λ parts. ret-Answers (version_of parts parts)))

read_counters-Ends :
    (dp_id : ℕ)
    → Ends
        (read_counters dp_id stat_instances [])
        (map (request_at dp_id) (2 ∷ 31 ∷ 32 ∷ 33 ∷ 34 ∷ 35 ∷ 36 ∷ []))
unfolding read_counters encode_address
read_counters-Ends dp_id = Answers-Ends _ _ (
    then_at dp_id 2 _ _ refl (λ _. then_at dp_id 31 _ _ refl (λ _. then_at dp_id 32 _ _ refl (λ _.
      then_at dp_id 33 _ _ refl (λ _.
        then_at dp_id 34 _ _ refl (λ _.
          then_at dp_id 35 _ _ refl (λ _. then_at dp_id 36 _ _ refl (λ _. ret-Answers _))))))))

-- The requests to instances of data points, one data point after the other.
abbrev pub requests_at : List (ℕ × List ℕ) → List Bytes
requests_at [] = []
requests_at (entry ∷ entries) = map (request_at entry.0) entry.1 ++ requests_at entries

-- The order of the requests.
abbrev pub stats_requests : List Bytes
stats_requests = requests_at (
    (565, 0 ∷ 1 ∷ 2 ∷ 3 ∷ [])
    ∷ (568, 0 ∷ 1 ∷ 2 ∷ 3 ∷ [])
    ∷ (586, 0 ∷ 1 ∷ 2 ∷ 3 ∷ [])
    ∷ (785, 0 ∷ 1 ∷ 2 ∷ [])
    ∷ (786, 0 ∷ 1 ∷ [])
    ∷ (787, 0 ∷ 1 ∷ 2 ∷ [])
    ∷ (405, 2 ∷ 31 ∷ 32 ∷ 33 ∷ 34 ∷ 35 ∷ 36 ∷ [])
    ∷ (688, 2 ∷ 31 ∷ 32 ∷ 33 ∷ 34 ∷ 35 ∷ 36 ∷ [])
    ∷ (689, 2 ∷ 31 ∷ 32 ∷ 33 ∷ 34 ∷ 35 ∷ 36 ∷ [])
    ∷ [])

module _ {Float : Type 0} (percent : ℕ → ℕ → Float) where
  pct_of-cases :
      (max_total elapsed_total : Option ℕ)
      → ((p : Option Float) × (pct_of percent max_total elapsed_total ≡ ok p))
        ⊎ (pct_of percent max_total elapsed_total ≡ err type_error)
  unfolding pct_of
  pct_of-cases none elapsed = inl (none, refl)
  pct_of-cases (some zero) elapsed = inl (none, refl)
  pct_of-cases (some (suc m)) none = inr refl
  pct_of-cases (some (suc m)) (some n) = inl (some (percent n (suc m)), refl)

  pct_of-Ends :
      {B : Type 0} (max_total elapsed_total : Option ℕ) (f : Option Float → B)
      → Ends (pure (pct_of percent max_total elapsed_total) >>= λ p. ret (f p)) []
  pct_of-Ends max_total elapsed_total f c = elim (pct_of-cases max_total elapsed_total) [
    | inl (p, e) ↦
        inl (f p, c, ap (λ r. and_run (r, c) (λ p. ret (f p))) e, sym (append-nil c.sent))
    | inr e ↦
        inr (c, [], [], ap (λ r. and_run (r, c) (λ p. ret (f p))) e, refl, sym (append-nil c.sent))
  ]

  read_progress-Ends :
      (dp_id : ℕ) → Ends (read_progress percent dp_id) (map (request_at dp_id) (0 ∷ 1 ∷ 2 ∷ 3 ∷ []))
  unfolding read_progress encode_address
  read_progress-Ends dp_id = then_at-Ends dp_id 0 _ _ refl (λ max_total.
      then_at-Ends dp_id 1 _ _ refl (λ elapsed_total. then_at-Ends dp_id 2 _ _ refl (λ max_step.
        then_at-Ends dp_id 3 _ _ refl (λ elapsed_step. pct_of-Ends max_total elapsed_total _))))

  -- Whatever the device answers, the statistics are read, by these requests in this order, or TypeError
  -- ends the reading after the first of them.
  pub get_instanced_stats_async-Ends : Ends (get_instanced_stats_async percent) stats_requests
  unfolding get_instanced_stats_async
  get_instanced_stats_async-Ends = bind-Ends _ _ _ _ (read_progress-Ends 565) (λ _.
      bind-Ends _ _ _ _ (read_progress-Ends 568) (λ _.
        bind-Ends _ _ _ _ (read_progress-Ends 586) (λ _.
          bind-Ends _ _ _ _ (read_version-Ends 785 3 _ (read_parts3-Answers 785)) (λ _.
            bind-Ends _ _ _ _ (read_version-Ends 786 2 _ (read_parts2-Answers 786)) (λ _.
              bind-Ends _ _ _ _ (read_version-Ends 787 3 _ (read_parts3-Answers 787)) (λ _.
                bind-Ends _ _ _ _ (read_counters-Ends 405) (λ _.
                  bind-Ends _ _ _ _ (read_counters-Ends 688) (λ _.
                    bind-Ends _ _ _ [] (read_counters-Ends 689)
                      (λ _. Answers-Ends _ _ (ret-Answers _))))))))))
