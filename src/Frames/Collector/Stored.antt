-- ===== src/Frames/Collector/Stored.antt =====
-- What `put`, `find`, `set_bitmap` and `join` do with the stored frames.
use geberit_aquaclean.Prelude.{
  ℕ, zero, suc, ◌+◌, ◌*◌, ◌/◌, ◌%◌, ◌<◌, ◌≡◌, ◌≢◌, refl, sym, ap, ◌∙◌, bit_or, Bool, true, false,
  Bool-cases, Option-cases, inl, inr, none, some, [], ◌∷◌, ◌++◌, arith, ◌==◌, ==_iff, ==_refl,
  if◌then◌else◌, length, length-set, get_elem?, set, ok,
}
use geberit_aquaclean.Prelude.Bits.{◌<<<◌}
use geberit_aquaclean.Prelude.Bytes.{Bytes}
use geberit_aquaclean.Frames.Collector.{FrameData, find, put, set_bitmap, join}
use geberit_aquaclean.Frames.Collector.Assembly.{find_same, find_other}

pub then_branch {ℓ} : {A : Type ℓ} (b : Bool) (x y : A) → b ≡ true → (if b then x else y) ≡ x
then_branch true x y e = refl
then_branch false x y e = absurd cc

pub else_branch {ℓ} : {A : Type ℓ} (b : Bool) (x y : A) → b ≡ false → (if b then x else y) ≡ y
else_branch true x y e = absurd cc
else_branch false x y e = refl

pub differ : (i j : ℕ) → i ≢ j → (i == j) ≡ false
differ i j h = ground arith

pub true≢false : true ≢ false
true≢false e = absurd cc

pub none≢some : (q : Bytes) → none ≢ some q
none≢some q e = absurd cc

pub length-put :
    (i : ℕ) (p : Bytes) (fd : FrameData) → find i fd ≡ none → length (put i p fd) ≡ suc (length fd)
unfolding put find
length-put i p [] e = refl
length-put i p ((j, q) ∷ rest) e = elim (Bool-cases (i == j)) [
  | inl z ↦ absurd (none≢some q (sym e ∙ find_same i j q rest z))
  | inr z ↦ rw (z) (ap suc (length-put i p rest (sym (find_other i j q rest z) ∙ e)))
]

pub find-put_self : (i : ℕ) (p : Bytes) (fd : FrameData) → find i (put i p fd) ≡ some p
unfolding put find
find-put_self i p [] = rw (==_refl i) refl
find-put_self i p ((j, q) ∷ rest) = elim (Bool-cases (i == j)) [
  | inl z ↦ rw (z, ==_refl i) refl
  | inr z ↦ rw (z, z) (find-put_self i p rest)
]

pub find-put_other :
    (i j : ℕ) (p : Bytes) (fd : FrameData) → j ≢ i → find j (put i p fd) ≡ find j fd
unfolding put find
find-put_other i j p [] h = rw (differ j i h) refl
find-put_other i j p ((k, q) ∷ rest) h = elim (Bool-cases (i == k)) [
  | inl z ↦
      let apart : j ≢ k = λ e. h (e ∙ sym ((==_iff i k).0 z)) in
      rw (z) (find_other j i p rest (differ j i h) ∙ sym (find_other j k q rest (differ j k apart)))
  | inr z ↦ rw (z) (ap (λ r. if j == k then some q else r) (find-put_other i j p rest h))
]

get_elem?_lt :
    (bitmap : Bytes) (i : ℕ) → i < length bitmap → (b : ℕ) × (get_elem? bitmap i ≡ some b)
get_elem?_lt [] i h = absurd (omega arith)
get_elem?_lt (b ∷ bitmap) zero h = (b, refl)
get_elem?_lt (b ∷ bitmap) (suc i) h = get_elem?_lt bitmap i (omega arith)

pub set_bitmap_ok :
    (bitmap : Bytes) (i : ℕ)
    → i < 8 * length bitmap
    → (bitmap' : Bytes) × (set_bitmap bitmap i ≡ ok bitmap') × (length bitmap' ≡ length bitmap)
unfolding set_bitmap
set_bitmap_ok bitmap i h =
    let (b, e) = get_elem?_lt bitmap (i / 8) (omega arith) in
    (set bitmap (i / 8) (bit_or b (1 <<< (i % 8))), rw (e) refl, length-set bitmap (i / 8) _)

pub join_ok :
    (fd : FrameData) (i n : ℕ)
    → ((j : ℕ) → j < n + i → find j fd ≢ none)
    → (data' : Bytes) × (join fd i n ≡ ok data')
unfolding join
join_ok fd i zero h = ([], refl)
join_ok fd i (suc n) h = elim (Option-cases (find i fd)) [
  | inl z ↦ absurd (h i (omega arith) z)
  | inr (p, z) ↦
      let (rest, e) = join_ok fd (suc i) n (λ j k. h j (omega arith)) in (p ++ rest, rw (z, e) refl)
]
