-- ===== src/Notify/Token/RoundTrip.antt =====
-- A token that was made is accepted as long as it is valid.
use famclaw.Prelude.{
  ℕ, suc, ◌+◌, ◌*◌, ◌≤◌, ◌≡◌, refl, ◌∙◌, ap, true, false, some, List, [], ◌∷◌, ◌==◌, arith, All,
  All-append, append_assoc,
}
use famclaw.Notify.Base64.{IsByte, decode-encode}
use famclaw.Notify.Decimal.{
  format_int, nonneg, max_int64, IsDigit, format_int-IsDigit, parse_int-format_int,
}
use famclaw.Notify.Token.{
  colon, joined, Sign, payload_of, generate_token, cut_colon, split_n, same_bytes, is_expired,
  accepted, verify_parts, verify_split, verify_token,
}

-- A byte that may stand in an id or an action.
abbrev pub IsPlain : ℕ → Type 0
IsPlain c = IsByte c × ((c == colon) ≡ false)

cut_colon-append : (s rest : List ℕ) → All IsPlain s → cut_colon (joined s rest) ≡ some (s, rest)
unfolding cut_colon
cut_colon-append [] rest h = refl
cut_colon-append (c ∷ s) rest h = rw h.0.1 (rw (cut_colon-append s rest h.1) refl)

split_n-append :
    (n : ℕ) (s rest : List ℕ) → All IsPlain s → split_n (suc n) (joined s rest) ≡ s ∷ split_n n rest
unfolding split_n
split_n-append n s rest h = rw (split_n, cut_colon-append s rest h) refl

same_bytes_refl : (s : List ℕ) → same_bytes s s ≡ true
unfolding same_bytes
same_bytes_refl [] = refl
same_bytes_refl (a ∷ s) = ground (arith, same_bytes_refl s)

All-map {ℓ} :
    {A : Type ℓ} (P Q : A → Type 0) (f : (a : A) → P a → Q a) (l : List A) → All P l → All Q l
All-map P Q f [] h = tt
All-map P Q f (a ∷ l) h = (f a h.0, All-map P Q f l h.1)

IsDigit-IsPlain : (c : ℕ) → IsDigit c → IsPlain c
IsDigit-IsPlain c h = (omega arith, ground arith)

split_n-zero : (s : List ℕ) → split_n 0 s ≡ s ∷ []
unfolding split_n
split_n-zero s = refl

joined_parts :
    (id action issued sig : List ℕ)
    → joined (payload_of id action issued) sig ≡ joined id (joined action (joined issued sig))
joined_parts id action issued sig =
    append_assoc id (colon ∷ joined action issued) (colon ∷ sig)
    ∙ ap (λ t. joined id t) (append_assoc action (colon ∷ issued) (colon ∷ sig))

split_n_parts :
    (id action issued sig : List ℕ)
    → All IsPlain id
    → All IsPlain action
    → All IsPlain issued
    → split_n 3 (joined (payload_of id action issued) sig) ≡ id ∷ action ∷ issued ∷ sig ∷ []
split_n_parts id action issued sig h k l =
    ap (λ t. split_n 3 t) (joined_parts id action issued sig)
    ∙ split_n-append 2 id (joined action (joined issued sig)) h
    ∙ ap (λ t. id ∷ t) (split_n-append 1 action (joined issued sig) k)
    ∙ ap (λ t. id ∷ action ∷ t)
        (split_n-append 0 issued sig l ∙ ap (λ t. issued ∷ t) (split_n-zero sig))

format_int-IsPlain : (n : ℕ) → All IsPlain (format_int n)
format_int-IsPlain n = All-map IsDigit IsPlain IsDigit-IsPlain (format_int n) (format_int-IsDigit n)

bytes_of : (l : List ℕ) → All IsPlain l → All IsByte l
bytes_of = All-map IsPlain IsByte λ c h. h.0

module _ (sign : Sign) (id action secret : List ℕ) (issued now hours : ℕ) where
  raw_bytes :
      All IsPlain id
      → All IsPlain action
      → All IsByte (sign secret (payload_of id action (format_int issued)))
      → All IsByte (
          joined
            (payload_of id action (format_int issued))
            (sign secret (payload_of id action (format_int issued))))
  raw_bytes h k b =
      All-append IsByte (payload_of id action (format_int issued))
        (colon ∷ sign secret (payload_of id action (format_int issued)))
        (All-append IsByte id (colon ∷ joined action (format_int issued)) (bytes_of id h) (
          omega arith,
          All-append IsByte action (colon ∷ format_int issued) (bytes_of action k)
              (omega arith, bytes_of (format_int issued) (format_int-IsPlain issued)),
        ))
        (omega arith, b)

  valid :
      issued ≤ now
      → now ≤ issued + hours * 3600
      → issued + hours * 3600 ≤ max_int64
      → is_expired now (nonneg hours) (nonneg issued) ≡ false
  unfolding is_expired
  valid a b c = ground arith

  accepted_parts :
      issued ≤ max_int64
      → is_expired now (nonneg hours) (nonneg issued) ≡ false
      → verify_parts sign now
          (nonneg hours)
          secret
          id
          action
          (format_int issued)
          (sign secret (payload_of id action (format_int issued)))
        ≡ accepted id action
  unfolding verify_parts
  accepted_parts b e =
      rw (verify_parts, parse_int-format_int issued b)
        (rw (e, same_bytes_refl (sign secret (payload_of id action (format_int issued)))) refl)

  split_accepted :
      issued ≤ max_int64
      → is_expired now (nonneg hours) (nonneg issued) ≡ false
      → verify_split sign now (nonneg hours) secret (
          id
          ∷ action
          ∷ format_int issued
          ∷ sign secret (payload_of id action (format_int issued))
          ∷ [])
        ≡ accepted id action
  unfolding verify_split
  split_accepted = accepted_parts

  -- A link is accepted, for its own approval and action, from the second in which it was made until
  -- its time is over: if neither of the two holds a colon, the signature is made of bytes, and the
  -- end of the time is a number that an int64 holds.
  pub verify_token-generate_token :
      All IsPlain id
      → All IsPlain action
      → All IsByte (sign secret (payload_of id action (format_int issued)))
      → issued ≤ now
      → now ≤ issued + hours * 3600
      → issued + hours * 3600 ≤ max_int64
      → verify_token sign now (generate_token sign issued id action secret) secret (nonneg hours)
        ≡ accepted id action
  unfolding verify_token generate_token
  verify_token-generate_token h k b before after small =
      let sig = sign secret (payload_of id action (format_int issued)) in
      rw
        (
          verify_token,
          decode-encode (joined (payload_of id action (format_int issued)) sig) (raw_bytes h k b),
        )
        (ap (λ parts. verify_split sign now (nonneg hours) secret parts)
            (split_n_parts id action (format_int issued) sig h k (format_int-IsPlain issued))
          ∙ split_accepted (omega arith) (valid before after small))
