-- ===== src/Quarantine/Mapping.antt =====
-- The map of quarantine.go by its look-ups.
use famclaw.Prelude.{
  ◌≡◌, refl, sym, ap, ◌∙◌, inl, inr, Bool, true, false, String, Option, none, some, List, [], ◌∷◌,
  if◌then◌else◌, Bool-cases, arith,
}
use famclaw.Prelude.Text.{str_eq, eq_iff, joined, apart, flipped}
use famclaw.Quarantine.{QuarantineEntry, find, put, remove, load_rows}

pub find-put :
    (target : String) (e : QuarantineEntry) (entries : List QuarantineEntry)
    → find target (put e entries)
      ≡ (if str_eq e.scan_target target then some e else find target entries)
unfolding find put
find-put target e [] = refl
find-put target e (f ∷ entries) = elim (Bool-cases (str_eq f.scan_target e.scan_target)) [
  | inl same ↦ let j = joined f.scan_target e.scan_target target same in ground arith
  | inr other ↦ elim (Bool-cases (str_eq f.scan_target target)) [
    | inl here ↦ let d = apart f.scan_target e.scan_target target other here in ground arith
    | inr away ↦ ground (arith, find-put target e entries)
  ]
]

pub find-remove :
    (target key : String) (entries : List QuarantineEntry)
    → find target (remove key entries) ≡ (if str_eq key target then none else find target entries)
unfolding find remove
find-remove target key [] = ground arith
find-remove target key (e ∷ entries) = elim (Bool-cases (str_eq e.scan_target key)) [
  | inl same ↦
      let j = joined e.scan_target key target same in ground (arith, find-remove target key entries)
  | inr other ↦ elim (Bool-cases (str_eq e.scan_target target)) [
    | inl here ↦
        let d = apart e.scan_target key target other here in
        ground (arith, find-remove target key entries)
    | inr away ↦ ground (arith, find-remove target key entries)
  ]
]

-- The first of two look-ups that finds something.
abbrev pub or_else : Option QuarantineEntry → Option QuarantineEntry → Option QuarantineEntry
or_else none o = o
or_else (some e) o = some e

-- No scan target stands twice: the table's primary key.
abbrev pub Keyed : List QuarantineEntry → Type 0
Keyed [] = Unit
Keyed (e ∷ entries) = (find e.scan_target entries ≡ none) × Keyed entries

none_if : (b : Bool) (o : Option QuarantineEntry) → o ≡ none → (if b then none else o) ≡ none
none_if true o h = refl
none_if false o h = h

pub Keyed-put :
    (e : QuarantineEntry) (entries : List QuarantineEntry) → Keyed entries → Keyed (put e entries)
unfolding put find
Keyed-put e [] k = (refl, tt)
Keyed-put e (f ∷ entries) k = elim (Bool-cases (str_eq f.scan_target e.scan_target)) [
  | inl same ↦ rw same (rw ((eq_iff f.scan_target e.scan_target).0 same) at k.0, k.1)
  | inr other ↦ rw other (
    find-put f.scan_target e entries ∙ rw (flipped f.scan_target e.scan_target other) k.0,
    Keyed-put e entries k.1,
  )
]

pub Keyed-remove :
    (key : String) (entries : List QuarantineEntry) → Keyed entries → Keyed (remove key entries)
unfolding remove find
Keyed-remove key [] k = tt
Keyed-remove key (e ∷ entries) k = elim (Bool-cases (str_eq e.scan_target key)) [
  | inl same ↦ rw same (Keyed-remove key entries k.1)
  | inr other ↦ rw other (
    find-remove e.scan_target key entries
        ∙ none_if (str_eq key e.scan_target) (find e.scan_target entries) k.0,
    Keyed-remove key entries k.1,
  )
]

pub find-load_rows :
    (target : String) (blocked rows : List QuarantineEntry)
    → Keyed rows
    → find target (load_rows blocked rows) ≡ or_else (find target rows) (find target blocked)
unfolding find load_rows
find-load_rows target blocked [] k = refl
find-load_rows target blocked (e ∷ rows) k =
    let ih = find-load_rows target (put e blocked) rows k.1 in
    let p = find-put target e blocked in
    elim (Bool-cases (str_eq e.scan_target target)) [
      | inl same ↦
          let z : find target rows ≡ none =
            ap (λ t. find t rows) (sym ((eq_iff e.scan_target target).0 same)) ∙ k.0 in
          ground arith
      | inr other ↦ ground arith
    ]
