-- ===== src/Frames/Validation/Marks.antt =====
-- The mask of an acknowledgement and the counters that it marks.
use geberit_aquaclean.Prelude.{
  ℕ, zero, suc, ◌+◌, ◌-◌, ◌*◌, ◌/◌, ◌%◌, ◌^◌, ◌≤◌, ◌<◌, ◌≡◌, ◌≢◌, ◌⊎◌, refl, sym, ap, subst, ◌∙◌,
  bit_and, Bool, false, Bool-cases, inl, inr, Option, none, some, [], ◌∷◌, arith, ◌==◌, ==_iff, ltb,
  lt→ltb, if◌then◌else◌, length, length-set, take, All, get_elem?, get_elem?-set_self,
  get_elem?-set_ne, get_or, set, Error, ok,
}
use geberit_aquaclean.Prelude.Bits.{◌<<<◌}
use geberit_aquaclean.Prelude.Bytes.{Bytes, at}
use geberit_aquaclean.Frames.Validation.{
  mark_item, mark_loop, unless_raised, mark_transaction_ok_packets, get_highest_ok_frame_cnt,
}
use native.Mathlib.Nat.{pow-suc}

-- Bit `j` of the mask, counted from the lowest bit of its first byte.
unfoldable pub is_acked : Bytes → ℕ → Bool
is_acked mask j = bit_and (get_or mask (j / 8) 0) (2 ^ (j % 8)) == 2 ^ (j % 8)

at-get_or : (mask : Bytes) (k : ℕ) → k < length mask → at mask k ≡ ok (get_or mask k 0)
at-get_or [] k h = absurd (omega arith)
at-get_or (b ∷ mask) zero h = refl
at-get_or (b ∷ mask) (suc k) h = at-get_or mask k (omega arith)

-- The counters once frame `i` is marked, if its bit is set.
abbrev marked : Bytes → ℕ → Bytes → Bytes
marked mask i counters = if is_acked mask i then set counters i 255 else counters

mark_item_ok :
    (b var2 i : ℕ) (counters : Bytes)
    → i < length counters
    → mark_item (ok b) var2 i counters
      ≡ (if bit_and b var2 == var2 then set counters i 255 else counters, none)
unfolding mark_item
mark_item_ok b var2 i counters h = elim (Bool-cases (bit_and b var2 == var2)) [
  | inl z ↦ rw (z, lt→ltb i (length counters) h) refl
  | inr z ↦ rw (z) refl
]

next_bit :
    (i var2 : ℕ)
    → ((i % 8 == 0) ≡ false → var2 * 2 ≡ 2 ^ (i % 8))
    → (if i % 8 == 0 then 1 else var2 <<< 1) ≡ 2 ^ (i % 8)
next_bit i var2 v = elim (Bool-cases (i % 8 == 0)) [
  | inl z ↦ rw (z) (ap (λ k. 2 ^ k) (sym ((==_iff (i % 8) 0).0 z)))
  | inr z ↦ rw (z) (v z)
]

-- One step of the loop, with the byte and the bit that stand for `i`.
mark_loop-step :
    (n i groups var2 : ℕ) (mask counters : Bytes)
    → groups ≡ (i + 7) / 8
    → ((i % 8 == 0) ≡ false → var2 * 2 ≡ 2 ^ (i % 8))
    → i < 8 * length mask
    → i < length counters
    → mark_loop (suc n) i groups var2 mask counters
      ≡ mark_loop n (suc i) (i / 8 + 1) (2 ^ (i % 8)) mask (marked mask i counters)
unfolding mark_loop is_acked unless_raised
mark_loop-step n i groups var2 mask counters g v hm hc =
    let group : (if i % 8 == 0 then groups + 1 else groups) ≡ i / 8 + 1 = ground arith in
    let bit : ℕ = 2 ^ (i % 8) in
    let byte : at mask (i / 8 + 1 - 1) ≡ ok (get_or mask (i / 8) 0) =
      ap (at mask) (omega arith) ∙ at-get_or mask (i / 8) (omega arith) in
    let round : ℕ → ℕ → Bytes × Option Error = λ g v.
      let this = mark_item (at mask (g - 1)) v i counters in
      unless_raised this.1 this (mark_loop n (suc i) g v mask this.0) in
    ap (λ g. round g (if i % 8 == 0 then 1 else var2 <<< 1)) group
    ∙ ap (round (i / 8 + 1)) (next_bit i var2 v)
    ∙ ap
        (λ (this : Bytes × Option Error).
          unless_raised this.1 this (mark_loop n (suc i) (i / 8 + 1) bit mask this.0))
        (ap (λ r. mark_item r bit i counters) byte
          ∙ mark_item_ok (get_or mask (i / 8) 0) bit i counters hc)

length-marked :
    (mask : Bytes) (i : ℕ) (counters : Bytes) → length (marked mask i counters) ≡ length counters
length-marked mask i counters = elim (Bool-cases (is_acked mask i)) [
  | inl z ↦ rw (z) (length-set counters i 255)
  | inr z ↦ rw (z) refl
]

next_power : (i : ℕ) → (suc i % 8 == 0) ≡ false → 2 ^ (i % 8) * 2 ≡ 2 ^ (suc i % 8)
next_power i z =
    let apart : suc i % 8 ≢ 0 = λ e. absurd (ground arith) in
    let up : suc i % 8 ≡ suc (i % 8) = omega (arith, apart) in
    sym (ap (λ k. 2 ^ k) up ∙ pow-suc 2 (i % 8))

get_elem?-marked_ne :
    (mask : Bytes) (i j : ℕ) (counters : Bytes)
    → i ≢ j
    → get_elem? (marked mask i counters) j ≡ get_elem? counters j
get_elem?-marked_ne mask i j counters h = elim (Bool-cases (is_acked mask i)) [
  | inl z ↦ rw (z) (get_elem?-set_ne counters 255 h)
  | inr z ↦ rw (z) refl
]

-- Counter `j` when its frame is taken into account: 255 where its bit is set.
unfoldable pub confirmed : Bytes → Bytes → ℕ → Option ℕ
confirmed mask counters j = if is_acked mask j then some 255 else get_elem? counters j

get_elem?-marked_self :
    (mask : Bytes) (i : ℕ) (counters : Bytes)
    → i < length counters
    → get_elem? (marked mask i counters) i ≡ confirmed mask counters i
unfolding confirmed
get_elem?-marked_self mask i counters h = elim (Bool-cases (is_acked mask i)) [
  | inl z ↦ rw (z) (get_elem?-set_self counters i 255 h)
  | inr z ↦ rw (z) refl
]

-- What the loop does from `i` on with `n` frames: to those before and behind, and to those it meets.
record Marked (n i : ℕ) (mask counters : Bytes) (r : Bytes × Option Error) : Type 0 where
  raised : r.1 ≡ none
  before : (j : ℕ) → j < i → get_elem? r.0 j ≡ get_elem? counters j
  behind : (j : ℕ) → i + n ≤ j → get_elem? r.0 j ≡ get_elem? counters j
  among : (j : ℕ) → i ≤ j → j < i + n → get_elem? r.0 j ≡ confirmed mask counters j

Marked-suc :
    (n i : ℕ) (mask counters : Bytes) (r : Bytes × Option Error)
    → i < length counters
    → Marked n (suc i) mask (marked mask i counters) r
    → Marked (suc n) i mask counters r
unfolding confirmed
Marked-suc n i mask counters r h m = record {
  raised = m.raised;
  before = λ j k.
      m.before j (omega arith)
      ∙ get_elem?-marked_ne mask i j counters (λ e. absurd (omega (arith, e)));
  behind = λ j k.
      m.behind j (omega arith)
      ∙ get_elem?-marked_ne mask i j counters (λ e. absurd (omega (arith, e)));
  among = λ j l k. elim (Bool-cases (i == j)) [
    | inl z ↦
        let e : i ≡ j = (==_iff i j).0 z in
        subst (λ j. get_elem? r.0 j ≡ confirmed mask counters j) e
          (m.before i (omega arith) ∙ get_elem?-marked_self mask i counters h)
    | inr z ↦
        let apart : i ≢ j = λ e. absurd (ground arith) in
        m.among j (ground arith) (omega arith)
        ∙ ap (λ o. if is_acked mask j then some 255 else o)
            (get_elem?-marked_ne mask i j counters apart)
  ];
}

mark_loop-Marked :
    (n i groups var2 : ℕ) (mask counters : Bytes)
    → groups ≡ (i + 7) / 8
    → ((i % 8 == 0) ≡ false → var2 * 2 ≡ 2 ^ (i % 8))
    → i + n ≤ 8 * length mask
    → i + n ≤ length counters
    → Marked n i mask counters (mark_loop n i groups var2 mask counters)
unfolding mark_loop
mark_loop-Marked zero i groups var2 mask counters g v hm hc = record {
  raised = refl;
  before = λ j k. refl;
  behind = λ j k. refl;
  among = λ j l k. absurd (omega (arith, l, k));
}
mark_loop-Marked (suc n) i groups var2 mask counters g v hm hc =
    let later =
      mark_loop-Marked n (suc i) (i / 8 + 1) (2 ^ (i % 8)) mask (marked mask i counters)
        (omega arith) (next_power i) (omega arith) (omega (arith, length-marked mask i counters)) in
    subst (Marked (suc n) i mask counters)
      (sym (mark_loop-step n i groups var2 mask counters g v (omega arith) (omega arith)))
      (Marked-suc n i mask counters _ (omega arith) later)

-- Where the mask has a bit and the counters have a place for every frame of the transaction,
-- `MarkTransactionOkPackets` raises nothing, sets the counter of every frame whose bit is set to 255,
-- and leaves every other counter as it was.
pub mark_transaction_ok_packets-confirmed :
    (frame_cnt : ℕ) (mask counters : Bytes) (j : ℕ)
    → frame_cnt ≤ 8 * length mask
    → frame_cnt ≤ length counters
    → ((mark_transaction_ok_packets frame_cnt mask counters).1 ≡ none)
      × (get_elem? (mark_transaction_ok_packets frame_cnt mask counters).0 j
          ≡ (if ltb j frame_cnt then confirmed mask counters j else get_elem? counters j))
unfolding mark_transaction_ok_packets
mark_transaction_ok_packets-confirmed frame_cnt mask counters j hm hc =
    let m =
      mark_loop-Marked frame_cnt 0 0 1 mask counters (omega arith) (λ z. absurd (ground arith))
        (omega arith) (omega arith) in
    (
      m.raised,
      elim (Bool-cases (ltb j frame_cnt)) [
        | inl z ↦ rw (z) (m.among j (omega arith) (ground arith))
        | inr z ↦ rw (z) (m.behind j (ground arith))
      ],
    )

some_injective : (a b : ℕ) → some a ≡ some b → a ≡ b
some_injective a b e = cc

other_counter : (c : ℕ) → (c == 255) ≡ false → some c ≢ some 255
other_counter c z e = let same : c ≡ 255 = some_injective c 255 e in absurd (ground arith)

step_stop :
    (counters : Bytes) (n k : ℕ)
    → (k ≡ n) ⊎ (get_elem? counters k ≢ some 255)
    → (suc k ≡ suc n) ⊎ (get_elem? counters k ≢ some 255)
step_stop counters n k (inl e) = inl (ap suc e)
step_stop counters n k (inr h) = inr h

-- Where every frame has a counter, `_get_highest_ok_frame_cnt` raises nothing, and counts the
-- confirmed frames up to the first that is not.
pub get_highest_ok_frame_cnt_lem :
    (frame_cnt : ℕ) (counters : Bytes)
    → frame_cnt ≤ length counters
    → (k : ℕ) × (get_highest_ok_frame_cnt frame_cnt counters ≡ ok k)
      × (k ≤ frame_cnt)
      × All (λ c. c ≡ 255) (take k counters)
      × ((k ≡ frame_cnt) ⊎ (get_elem? counters k ≢ some 255))
unfolding get_highest_ok_frame_cnt
get_highest_ok_frame_cnt_lem zero counters h = (0, refl, omega arith, tt, inl refl)
get_highest_ok_frame_cnt_lem (suc n) [] h = absurd (omega arith)
get_highest_ok_frame_cnt_lem (suc n) (c ∷ counters) h = elim (Bool-cases (c == 255)) [
  | inl z ↦
      let (k, e, l, a, stop) = get_highest_ok_frame_cnt_lem n counters (omega arith) in
      (suc k, rw (z, e) refl, omega arith, ((==_iff c 255).0 z, a), step_stop counters n k stop)
  | inr z ↦ (0, rw (z) refl, omega arith, tt, inr (other_counter c z))
]
