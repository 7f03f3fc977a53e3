-- ===== src/Client/Alba/Connect.antt =====
-- `post_connect` with an inventory that is given or cached.
use geberit_aquaclean.Prelude.{
  ℕ, ◌≡◌, ◌≢◌, ◌==◌, ◌⊎◌, inl, inr, refl, ap, ◌∙◌, [], ◌∷◌, ◌++◌, get_or, All, Result, ok, err,
  timeout_error,
}
use geberit_aquaclean.Prelude.Bytes.{Bytes}
use geberit_aquaclean.Ble20.Client.{Ble20, Io, and_run, send, await_frame}
use geberit_aquaclean.Ble20.Client.Headed.{IsHeaded, Waited, await_frame-Waited}
use geberit_aquaclean.Ble20.Requests.{
  capabilities, capabilities_cmd, capabilities_ack, timed_out, event_storage_inventory, optional,
}
use geberit_aquaclean.Ble20.Requests.Asked.{caught-ok}
use geberit_aquaclean.Ble20.Inventory.{Inventory}
use geberit_aquaclean.Client.Alba.Base.{get_firmware_version_list_async, read_versions}
use geberit_aquaclean.Client.Alba.{
  AlbaClient, with_ble20, lift, post_connect, initialise, choose_inventory, use_inventory,
}

-- What `capabilities` makes of its wait.
capabilities_of : Result Bytes × Ble20 → Result ℕ × Ble20
capabilities_of r = timed_out 0 (and_run r (λ frame c. (ok (get_or frame 1 0), c)))

waited-ok :
    (r : Result Bytes × Ble20)
    → ((frame : Bytes) × (r.0 ≡ ok frame)) ⊎ (r.0 ≡ err timeout_error)
    → (n : ℕ) × (c : Ble20) × (capabilities_of r ≡ (ok n, c))
unfolding capabilities_of timed_out
waited-ok (ok frame, c) h = (get_or frame 1 0, c, refl)
waited-ok (err e, c) (inl (frame, k)) = absurd cc
waited-ok (err e, c) (inr k) =
    let same : e ≡ timeout_error = cc in (0, c, ap (λ e. timed_out 0 (err e, c)) same)

-- While no empty frame is in the queue, `capabilities` raises nothing.
capabilities_total :
    (c : Ble20) → All IsHeaded c.rx_queue → (n : ℕ) × (c' : Ble20) × (capabilities c ≡ (ok n, c'))
unfolding capabilities capabilities_of send
capabilities_total c h =
    let asked : Ble20 = record c { sent = c.sent ++ (capabilities_cmd ∷ []) ∷ [] } in
    let w : Waited (λ cmd. cmd == capabilities_ack)
        (await_frame (λ cmd. cmd == capabilities_ack) asked) =
      await_frame-Waited (λ cmd. cmd == capabilities_ack) asked h in
    waited-ok (await_frame (λ cmd. cmd == capabilities_ack) asked)
      (elim w.outcome [ inl (frame, _, e, _, _) ↦ inl (frame, e) | inr e ↦ inr e ])

-- A call that succeeds, in front of what follows.
lift-ok :
    {A B : Type 0} (m : Io A) (f : A → AlbaClient → Result B × AlbaClient) (c : AlbaClient) (a : A)
    (b : Ble20)
    → m c.ble20 ≡ (ok a, b)
    → and_run (lift m c) f ≡ f a (record c { ble20 = b })
lift-ok m f c a b e = ap (λ r. and_run (with_ble20 c r) f) e

-- The rest of `post_connect` raises nothing, and keeps the inventory.
initialise_total :
    (c : AlbaClient)
    → All IsHeaded c.ble20.rx_queue
    → (c' : AlbaClient) × (initialise c ≡ (ok tt, c'))
      × (c'.inventory ≡ c.inventory)
      × (c'.base_inventory ≡ c.base_inventory)
unfolding initialise
initialise_total c h =
    let (caps, b1, e1) = capabilities_total c.ble20 h in
    let stored = event_storage_inventory caps b1 in
    let (s, e2) = caught-ok stored in
    let read = read_versions stored.1 in
    let (versions, e3) = caught-ok read in
    (
      record c { ble20 = read.1; firmware_versions = versions },
      lift-ok capabilities _ c caps b1 e1
          ∙ lift-ok (optional (event_storage_inventory caps)) _ (record c { ble20 = b1 }) s stored.1
              e2
          ∙ lift-ok get_firmware_version_list_async _ (record c { ble20 = stored.1 }) versions
              read.1 e3,
      refl,
      refl,
    )

-- The inventory that is used: the one that is given, or else the one that the client has.
abbrev pub preferred : Inventory → Inventory → Inventory
preferred (entry ∷ given) cached = entry ∷ given
preferred [] cached = cached

-- With an inventory that is not empty, and no empty frame in the queue, `post_connect` raises nothing,
-- whatever the device answers, and both clients then have that inventory.
pub post_connect-preferred :
    (given : Inventory) (c : AlbaClient)
    → preferred given c.inventory ≢ []
    → All IsHeaded c.ble20.rx_queue
    → (c' : AlbaClient) × (post_connect given c ≡ (ok tt, c'))
      × (c'.inventory ≡ preferred given c.inventory)
      × (c'.base_inventory ≡ preferred given c.inventory)
unfolding post_connect choose_inventory
post_connect-preferred (entry ∷ given) c n h = initialise_total (use_inventory (entry ∷ given) c) h
post_connect-preferred [] c n h = cached c.inventory n
  where
    cached :
        (l : Inventory)
        → l ≢ []
        → (c' : AlbaClient) × (and_run (choose_inventory [] l c) (λ _. initialise) ≡ (ok tt, c'))
          × (c'.inventory ≡ l)
          × (c'.base_inventory ≡ l)
    cached [] k = absurd (k refl)
    cached (entry ∷ l) k = initialise_total (use_inventory (entry ∷ l) c) h
