-- ===== src/Toolcache/Sweep/Capped.antt =====
-- What a sweep leaves.
use famclaw.Prelude.{
  ℕ, ◌-◌, ◌≤◌, ◌<◌, ◌≡◌, ◌==◌, refl, sym, inl, inr, ◌⊎◌, Bool, true, false, ◌||◌, String, List, [],
  ◌∷◌, leb, ltb, arith, All, Bool-cases,
}
use mathlib.Core.Path.{subst}
use famclaw.Prelude.Text.{str_eq, eq_iff, eq_refl, flipped}
use famclaw.Toolcache.Rows.{
  CacheRow, delete_cache, list_expired, list_by_user_order_by_accessed, is_listed, distinct_users,
}
use famclaw.Toolcache.Sweep.{
  CacheState, SweepCalls, purge, purge_all, sum_bytes, evict, evict_user, evict_users, evict_pass,
  sweep,
}
use famclaw.Toolcache.Sweep.Totals.{
  total_of, IsOther, Distinct, total_of-delete_cache, bytes_of-delete_cache, sum_bytes-listed,
  Distinct-listed, IsPresent, All-weaken, listed-IsPresent, total_of-unlisted,
}
use famclaw.Toolcache.Sweep.Stays.{
  Stays, purge_all-Stays, evict_user-Stays, evict_users-Stays, Distinct-Stays, All-Stays, IsWithin,
  IsWithin-Stays,
}

-- A row that has not expired.
abbrev pub IsLive : ℕ → CacheRow → Type 0
IsLive now r = now ≤ r.expires_at

-- Whether an id is that of one of the rows.
abbrev has_id : String → List CacheRow → Bool
has_id id [] = false
has_id id (r ∷ rows) = str_eq r.id id || has_id id rows

module _ (c : SweepCalls) (now cap : ℕ) (works : (id : String) → c.row_deleted id ≡ true) where
  rows-purge : (r : CacheRow) (s : CacheState) → (purge c now r s).rows ≡ delete_cache r.id s.rows
  unfolding purge
  rows-purge r s = rw (works r.id) refl

  still-IsPresent :
      (user id : String) (rows l : List CacheRow)
      → All (IsOther id) l
      → All (IsPresent user rows) l
      → All (IsPresent user (delete_cache id rows)) l
  still-IsPresent user id rows [] o h = tt
  still-IsPresent user id rows (r ∷ l) o h = (
    omega (arith, bytes_of-delete_cache user id r.id rows o.0, h.0),
    still-IsPresent user id rows l o.1 h.1,
  )

  -- Evicting the listed rows one after the other brings the total under the cap.
  evict-IsWithin :
      (user : String) (total : ℕ) (l : List CacheRow) (s : CacheState)
      → Distinct l
      → All (IsPresent user s.rows) l
      → total_of user s.rows ≤ total
      → total ≤ sum_bytes l
      → IsWithin user cap (evict c now cap total l s).rows
  unfolding evict sum_bytes
  evict-IsWithin user total [] s k p h b = omega arith
  evict-IsWithin user total (r ∷ l) s k p h b = elim (Bool-cases (leb total cap)) [
    | inl e ↦ rw e (let e' : total ≤ cap = ground arith in omega arith)
    | inr n ↦
        let split = total_of-delete_cache user r.id s.rows in
        let less : total_of user (delete_cache r.id s.rows) ≤ total - r.bytes =
          omega (arith, split, p.0) in
        rw n (
          evict-IsWithin user (total - r.bytes) l (purge c now r s) k.1
            (subst (λ rows. All (IsPresent user rows) l) (sym (rows-purge r s))
              (still-IsPresent user r.id s.rows l k.0 p.1))
            (subst (λ rows. total_of user rows ≤ total - r.bytes) (sym (rows-purge r s)) less)
            (omega arith))
  ]

  evict_user-IsWithin :
      (user : String) (s : CacheState)
      → c.user_listed user ≡ true
      → Distinct s.rows
      → IsWithin user cap (evict_user c now cap user s).rows
  unfolding evict_user
  evict_user-IsWithin user s l k = rw l (
      evict-IsWithin user _ (list_by_user_order_by_accessed user s.rows) s
        (Distinct-listed user s.rows k) (listed-IsPresent user s.rows)
        (omega (arith, sum_bytes-listed user s.rows)) (omega arith))

  evict_users-IsWithin :
      (user : String) (users : List String) (s : CacheState)
      → ((u : String) → c.user_listed u ≡ true)
      → Distinct s.rows
      → is_listed user users ≡ true
      → IsWithin user cap (evict_users c now cap users s).rows
  unfolding evict_users is_listed
  evict_users-IsWithin user [] s l k e = cc
  evict_users-IsWithin user (v ∷ users) s l k e = elim (Bool-cases (str_eq v user)) [
    | inl same ↦
        evict_users-Stays c now cap (IsWithin user cap) (IsWithin-Stays user cap) users
          (evict_user c now cap v s)
          (subst (λ w. IsWithin w cap (evict_user c now cap v s).rows) ((eq_iff v user).0 same)
            (evict_user-IsWithin v s (l v) k))
    | inr other ↦
        evict_users-IsWithin user users (evict_user c now cap v s) l
          (evict_user-Stays c now cap Distinct Distinct-Stays v s k) (rw other at e)
  ]

  evict_pass-IsWithin :
      (user : String) (s : CacheState)
      → c.users_listed ≡ true
      → ((u : String) → c.user_listed u ≡ true)
      → 0 < cap
      → Distinct s.rows
      → IsWithin user cap (evict_pass c now cap s).rows
  unfolding evict_pass
  evict_pass-IsWithin user s m l b k =
      let t : ltb 0 cap ≡ true = ground arith in
      rw (t, m)
        (elim (Bool-cases (is_listed user (distinct_users s.rows))) [
          | inl e ↦ evict_users-IsWithin user (distinct_users s.rows) s l k e
          | inr n ↦
              evict_users-Stays c now cap (IsWithin user cap) (IsWithin-Stays user cap)
                (distinct_users s.rows) s (omega (arith, total_of-unlisted user s.rows n))
        ])

  evict_pass-Stays :
      (Q : List CacheRow → Type 0) (stays : Stays Q) (s : CacheState)
      → Q s.rows
      → Q (evict_pass c now cap s).rows
  unfolding evict_pass
  evict_pass-Stays Q stays s h = elim (Bool-cases (ltb 0 cap)) [
    | inr n ↦ rw n h
    | inl e ↦ elim (Bool-cases c.users_listed) [
      | inl m ↦ rw (e, m) (evict_users-Stays c now cap Q stays (distinct_users s.rows) s h)
      | inr n ↦ rw (e, n) h
    ]
  ]

  -- A row that has not expired, or whose id is among these rows.
  abbrev IsCovered : List CacheRow → CacheRow → Type 0
  IsCovered l r = (now ≤ r.expires_at) ⊎ (has_id r.id l ≡ true)

  IsCovered-cons :
      (r : CacheRow) (l rows : List CacheRow)
      → All (IsCovered l) rows
      → All (IsCovered (r ∷ l)) rows
  IsCovered-cons r l rows =
      All-weaken (IsCovered l) (IsCovered (r ∷ l))
        (λ q h. elim h [ inl n ↦ inl n | inr e ↦ inr (ground arith) ]) rows

  expired-IsCovered : (rows : List CacheRow) → All (IsCovered (list_expired now rows)) rows
  unfolding list_expired
  expired-IsCovered [] = tt
  expired-IsCovered (r ∷ rows) = elim (Bool-cases (ltb r.expires_at now)) [
    | inl e ↦
        let same : list_expired now (r ∷ rows) ≡ r ∷ list_expired now rows = rw e refl in
        subst (λ l. All (IsCovered l) (r ∷ rows)) (sym same)
          (
            inr (rw (eq_refl r.id) refl),
            IsCovered-cons r (list_expired now rows) rows (expired-IsCovered rows),
          )
    | inr n ↦
        let same : list_expired now (r ∷ rows) ≡ list_expired now rows = rw n refl in
        subst (λ l. All (IsCovered l) (r ∷ rows)) (sym same)
          (inl (ground arith), expired-IsCovered rows)
  ]

  delete-IsCovered :
      (r : CacheRow) (l rows : List CacheRow)
      → All (IsCovered (r ∷ l)) rows
      → All (IsCovered l) (delete_cache r.id rows)
  unfolding delete_cache
  delete-IsCovered r l [] h = tt
  delete-IsCovered r l (q ∷ rows) h = elim (Bool-cases (str_eq q.id r.id)) [
    | inl e ↦ rw e (delete-IsCovered r l rows h.1)
    | inr n ↦ rw n (
      elim h.0 [ inl f ↦ inl f | inr e ↦ inr (let o = flipped q.id r.id n in ground arith) ],
      delete-IsCovered r l rows h.1,
    )
  ]

  purge_all-IsLive :
      (l : List CacheRow) (s : CacheState)
      → All (IsCovered l) s.rows
      → All (IsLive now) (purge_all c now l s).rows
  unfolding purge_all
  purge_all-IsLive [] s h =
      All-weaken (IsCovered []) (IsLive now) (λ q h. elim h [ inl n ↦ n | inr e ↦ cc ]) s.rows h
  purge_all-IsLive (r ∷ l) s h = purge_all-IsLive l (purge c now r s) (
      subst (λ rows. All (IsCovered l) rows) (sym (rows-purge r s)) (delete-IsCovered r l s.rows h))

  -- After a sweep whose calls succeed, of rows whose ids are distinct, no row is left that has expired,
  -- and the rows of each user hold at most as many bytes as the cap, or there is none (a cap of 0).
  pub sweep-IsWithin :
      (user : String) (s : CacheState)
      → c.expired_listed ≡ true
      → c.users_listed ≡ true
      → ((u : String) → c.user_listed u ≡ true)
      → Distinct s.rows
      → let rows = (sweep c now cap s).0.rows in
        All (IsLive now) rows × ((cap ≡ 0) ⊎ (total_of user rows ≤ cap))
  unfolding sweep
  sweep-IsWithin user s e m l k =
      let purged = purge_all c now (list_expired now s.rows) s in
      let live = purge_all-IsLive (list_expired now s.rows) s (expired-IsCovered s.rows) in
      rw e (
        evict_pass-Stays (All (IsLive now)) (All-Stays (IsLive now)) purged live,
        elim (Bool-cases (cap == 0)) [
          | inl z ↦ inl (ground arith)
          | inr b ↦ inr (
              evict_pass-IsWithin user purged m l (ground arith)
                (purge_all-Stays c now cap Distinct Distinct-Stays (list_expired now s.rows) s k))
        ],
      )
