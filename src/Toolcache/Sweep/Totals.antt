-- ===== src/Toolcache/Sweep/Totals.antt =====
-- The bytes of a user's rows, and what deletions make of them.
use famclaw.Prelude.{
  ℕ, ◌+◌, ◌≤◌, ◌≡◌, refl, ap, inl, inr, false, ◌&&◌, String, List, [], ◌∷◌, leb, arith, All,
  if◌then◌else◌, Bool-cases,
}
use famclaw.Prelude.Text.{str_eq, eq_iff, eq_refl, joined, flipped}
use famclaw.Toolcache.Rows.{
  CacheRow, delete_cache, insert_by_access, list_by_user_order_by_accessed, is_listed,
  distinct_users,
}
use famclaw.Toolcache.Sweep.{sum_bytes}

-- The bytes of all rows of a user, and of those of them with one id.
abbrev pub total_of : String → List CacheRow → ℕ
total_of user [] = 0
total_of user (r ∷ rows) =
    if str_eq r.user_name user then r.bytes + total_of user rows else total_of user rows

abbrev pub bytes_of : (user id : String) → List CacheRow → ℕ
bytes_of user id [] = 0
bytes_of user id (r ∷ rows) =
    if str_eq r.user_name user && str_eq r.id id
    then r.bytes + bytes_of user id rows
    else bytes_of user id rows

-- Another id, and the primary key: no id stands twice.
abbrev pub IsOther : String → CacheRow → Type 0
IsOther id r = str_eq id r.id ≡ false

abbrev pub Distinct : List CacheRow → Type 0
Distinct [] = Unit
Distinct (r ∷ rows) = All (IsOther r.id) rows × Distinct rows

pub total_of-delete_cache :
    (user id : String) (rows : List CacheRow)
    → total_of user (delete_cache id rows) + bytes_of user id rows ≡ total_of user rows
unfolding delete_cache
total_of-delete_cache user id [] = refl
total_of-delete_cache user id (r ∷ rows) =
    let ih = total_of-delete_cache user id rows in
    elim (Bool-cases (str_eq r.id id)) [ inl s ↦ ground (arith, ih) | inr n ↦ ground (arith, ih) ]

pub bytes_of-delete_cache :
    (user id k : String) (rows : List CacheRow)
    → str_eq id k ≡ false
    → bytes_of user k (delete_cache id rows) ≡ bytes_of user k rows
unfolding delete_cache
bytes_of-delete_cache user id k [] n = refl
bytes_of-delete_cache user id k (r ∷ rows) n =
    let ih = bytes_of-delete_cache user id k rows n in
    elim (Bool-cases (str_eq r.id id)) [
      | inl s ↦ let j = joined r.id id k s in ground arith
      | inr d ↦ ground arith
    ]

pub All-delete_cache :
    (P : CacheRow → Type 0) (id : String) (rows : List CacheRow)
    → All P rows
    → All P (delete_cache id rows)
unfolding delete_cache
All-delete_cache P id [] h = tt
All-delete_cache P id (r ∷ rows) h = elim (Bool-cases (str_eq r.id id)) [
  | inl s ↦ rw s (All-delete_cache P id rows h.1)
  | inr n ↦ rw n (h.0, All-delete_cache P id rows h.1)
]

pub Distinct-delete_cache :
    (id : String) (rows : List CacheRow) → Distinct rows → Distinct (delete_cache id rows)
unfolding delete_cache
Distinct-delete_cache id [] h = tt
Distinct-delete_cache id (r ∷ rows) h = elim (Bool-cases (str_eq r.id id)) [
  | inl s ↦ rw s (Distinct-delete_cache id rows h.1)
  | inr n ↦ rw n (All-delete_cache (IsOther r.id) id rows h.0, Distinct-delete_cache id rows h.1)
]

pub All-insert_by_access :
    (P : CacheRow → Type 0) (r : CacheRow) (rows : List CacheRow)
    → P r
    → All P rows
    → All P (insert_by_access r rows)
unfolding insert_by_access
All-insert_by_access P r [] p h = (p, tt)
All-insert_by_access P r (q ∷ rows) p h = elim (Bool-cases (leb r.accessed_at q.accessed_at)) [
  | inl l ↦ rw l (p, h)
  | inr g ↦ rw g (h.0, All-insert_by_access P r rows p h.1)
]

Distinct-insert_by_access :
    (r : CacheRow) (rows : List CacheRow)
    → All (IsOther r.id) rows
    → Distinct rows
    → Distinct (insert_by_access r rows)
unfolding insert_by_access
Distinct-insert_by_access r [] o h = (tt, tt)
Distinct-insert_by_access r (q ∷ rows) o h = elim (Bool-cases (leb r.accessed_at q.accessed_at)) [
  | inl l ↦ rw l (o, h)
  | inr g ↦ rw g (
    All-insert_by_access (IsOther q.id) r rows (flipped r.id q.id o.0) h.0,
    Distinct-insert_by_access r rows o.1 h.1,
  )
]

sum_bytes-insert_by_access :
    (r : CacheRow) (rows : List CacheRow)
    → sum_bytes (insert_by_access r rows) ≡ r.bytes + sum_bytes rows
unfolding insert_by_access sum_bytes
sum_bytes-insert_by_access r [] = refl
sum_bytes-insert_by_access r (q ∷ rows) = ground (arith, sum_bytes-insert_by_access r rows)

pub sum_bytes-listed :
    (user : String) (rows : List CacheRow)
    → sum_bytes (list_by_user_order_by_accessed user rows) ≡ total_of user rows
unfolding list_by_user_order_by_accessed sum_bytes
sum_bytes-listed user [] = refl
sum_bytes-listed user (r ∷ rows) =
    let ih = sum_bytes-listed user rows in
    ground (arith, sum_bytes-insert_by_access r (list_by_user_order_by_accessed user rows))

-- What holds of all rows holds of those of a user.
pub All-listed :
    (P : CacheRow → Type 0) (user : String) (rows : List CacheRow)
    → All P rows
    → All P (list_by_user_order_by_accessed user rows)
unfolding list_by_user_order_by_accessed
All-listed P user [] h = tt
All-listed P user (r ∷ rows) h = elim (Bool-cases (str_eq r.user_name user)) [
  | inl u ↦ rw u (
      All-insert_by_access P r (list_by_user_order_by_accessed user rows) h.0
        (All-listed P user rows h.1))
  | inr o ↦ rw o (All-listed P user rows h.1)
]

pub Distinct-listed :
    (user : String) (rows : List CacheRow)
    → Distinct rows
    → Distinct (list_by_user_order_by_accessed user rows)
unfolding list_by_user_order_by_accessed
Distinct-listed user [] h = tt
Distinct-listed user (r ∷ rows) h = elim (Bool-cases (str_eq r.user_name user)) [
  | inl u ↦ rw u (
      Distinct-insert_by_access r (list_by_user_order_by_accessed user rows)
        (All-listed (IsOther r.id) user rows h.0) (Distinct-listed user rows h.1))
  | inr o ↦ rw o (Distinct-listed user rows h.1)
]

-- The rows of the user hold at least the bytes of this one.
abbrev pub IsPresent : String → List CacheRow → CacheRow → Type 0
IsPresent user rows r = r.bytes ≤ bytes_of user r.id rows

pub All-weaken :
    (P Q : CacheRow → Type 0) (f : (r : CacheRow) → P r → Q r) (rows : List CacheRow)
    → All P rows
    → All Q rows
All-weaken P Q f [] h = tt
All-weaken P Q f (r ∷ rows) h = (f r h.0, All-weaken P Q f rows h.1)

pub listed-IsPresent :
    (user : String) (rows : List CacheRow)
    → All (IsPresent user rows) (list_by_user_order_by_accessed user rows)
unfolding list_by_user_order_by_accessed
listed-IsPresent user [] = tt
listed-IsPresent user (r ∷ rows) =
    let more =
      All-weaken (IsPresent user rows) (IsPresent user (r ∷ rows)) (λ q h. ground arith)
        (list_by_user_order_by_accessed user rows) (listed-IsPresent user rows) in
    elim (Bool-cases (str_eq r.user_name user)) [
      | inl u ↦ rw u (
          All-insert_by_access (IsPresent user (r ∷ rows)) r
            (list_by_user_order_by_accessed user rows) (rw (u, eq_refl r.id) (omega arith)) more)
      | inr o ↦ rw o more
    ]

pub total_of-unlisted :
    (user : String) (rows : List CacheRow)
    → is_listed user (distinct_users rows) ≡ false
    → total_of user rows ≡ 0
unfolding distinct_users is_listed
total_of-unlisted user [] h = refl
total_of-unlisted user (r ∷ rows) h =
    let ih = total_of-unlisted user rows in
    elim (Bool-cases (str_eq r.user_name user)) [
      | inl s ↦
          let same : is_listed r.user_name (distinct_users rows)
              ≡ is_listed user (distinct_users rows) =
            ap (λ u. is_listed u (distinct_users rows)) ((eq_iff r.user_name user).0 s) in
          ground arith
      | inr n ↦ ground arith
    ]
