-- ===== src/Api/Filter/Reading.antt =====
-- What `result` makes of a response that holds a number of records with different ids.
use geberit_aquaclean.Prelude.{
  ℕ, ◌+◌, ◌≤◌, ◌≡◌, refl, ap, sym, ◌∙◌, ◌≢◌, false, [], ◌∷◌, ◌++◌, ◌==◌, lt→ltb, length,
  length-append, append_assoc, append-nil, All, arith,
}
use geberit_aquaclean.Prelude.Bytes.{to_le4, from_le-to_le4}
use geberit_aquaclean.Prelude.Dict.{insert}
use geberit_aquaclean.Api.Records.{Records, flat, FitsWord}
use geberit_aquaclean.Api.Filter.{filter_records, filter_status, filter_result}

-- No record has the id.
abbrev IsFresh : ℕ → Records → Type 0
IsFresh id = All (λ (entry : ℕ × ℕ). entry.0 ≢ id)

abbrev pub HasDistinct : Records → Type 0
HasDistinct [] = Unit
HasDistinct (entry ∷ records) = IsFresh entry.0 records × HasDistinct records

insert-fresh :
    (id v : ℕ) (records : Records)
    → IsFresh id records
    → insert id v records ≡ records ++ (id, v) ∷ []
unfolding insert
insert-fresh id v [] h = refl
insert-fresh id v (entry ∷ records) (h, hs) =
    let no : (entry.0 == id) ≡ false = ground arith in rw (no, insert-fresh id v records hs) refl

-- The records that are read next are new to those that were read.
abbrev IsDisjoint : Records → Records → Type 0
IsDisjoint found records = All (λ (entry : ℕ × ℕ). IsFresh entry.0 found) records

IsFresh-append : (id : ℕ) (xs ys : Records) → IsFresh id xs → IsFresh id ys → IsFresh id (xs ++ ys)
IsFresh-append id [] ys h k = k
IsFresh-append id (x ∷ xs) ys (p, h) k = (p, IsFresh-append id xs ys h k)

IsDisjoint-next :
    (found records : Records) (id v : ℕ)
    → IsDisjoint found records
    → IsFresh id records
    → IsDisjoint (found ++ (id, v) ∷ []) records
IsDisjoint-next found [] id v h k = tt
IsDisjoint-next found (entry ∷ records) id v (h, hs) (k, ks) = (
  IsFresh-append entry.0 found ((id, v) ∷ []) h ((λ e. k (sym e)), tt),
  IsDisjoint-next found records id v hs ks,
)

filter_records-flat :
    (count : ℕ) (records found : Records)
    → length found + length records ≤ count
    → HasDistinct records
    → IsDisjoint found records
    → All FitsWord records
    → filter_records count (flat records) found ≡ found ++ records
unfolding filter_records flat to_le4
filter_records-flat count [] found n h d f = sym (append-nil found)
filter_records-flat count ((id, v) ∷ records) found n (h, hs) (d, ds) (f, fs) =
    rw (lt→ltb (length found) count (omega arith), from_le-to_le4 v f, insert-fresh id v found d)
      (filter_records-flat count records (found ++ (id, v) ∷ [])
          (omega (arith, n, length-append found ((id, v) ∷ []))) hs
          (IsDisjoint-next found records id v ds h) fs
        ∙ append_assoc found ((id, v) ∷ []) records)

empty : (records : Records) → IsDisjoint [] records
empty [] = tt
empty (entry ∷ records) = (tt, empty records)

-- A response whose count is that of its records, with different ids, gives these records, in order.
pub filter_result-flat :
    (records : Records)
    → HasDistinct records
    → All FitsWord records
    → filter_result (length records ∷ flat records) ≡ filter_status records
unfolding filter_result
filter_result-flat records h f =
    ap filter_status
      (filter_records-flat (length records) records [] (omega arith) h (empty records) f)
