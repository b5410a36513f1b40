-- ===== src/Compress/Truncation.antt =====
-- What the compression of internal/compress/compress.go drops and keeps.
use mathlib.Core.List.{Sublistᴰ}
use mathlib.Core.List.Sublistᴰ as Sub
use mathlib.Core.Path.{subst}
use famclaw.Prelude.{
  ℕ, suc, ◌+◌, ◌≤◌, ◌≡◌, refl, ap, ◌∙◌, ◌⊎◌, inl, inr, Bool, true, false, String, List, [], ◌∷◌,
  map, arith, leb, ltb, if◌then◌else◌, length, All, Bool-cases, leb→le,
}
use famclaw.Compress.{
  Message, Entry, message_tokens, total_tokens, masked_total, drop_pass, skips_prunable, skips_kept,
  mark_protected, kept_messages, protected_messages, truncate,
}

abbrev messages_of : List Entry → List Message
messages_of = map (λ e. e.message)

-- A protected message is kept.
abbrev IsSafe : Entry → Type 0
IsSafe e = e.protected ≡ true → e.keep ≡ true

module _ (estimate : String → ℕ) where
  masked_total-kept :
      (es : List Entry) → masked_total estimate es ≡ total_tokens estimate (kept_messages es)
  unfolding masked_total total_tokens kept_messages
  masked_total-kept [] = refl
  masked_total-kept (e ∷ es) = ground (arith, masked_total-kept es)

  module _ (skip : Entry → Bool) (protects : (e : Entry) → e.protected ≡ true → skip e ≡ true)
      (budget : ℕ) where
    abbrev passed : Entry → ℕ
    passed e = if e.keep then message_tokens estimate e.message else 0

    -- The three ways in which a pass goes on.
    drop_pass_cases :
        (P : List Entry → Type 0) (before : ℕ) (e : Entry) (es : List Entry)
        → P (e ∷ drop_pass estimate skip budget (before + passed e) es)
        → P (e ∷ es)
        → (skip e ≡ false
            → P (record e { keep = false } ∷ drop_pass estimate skip budget before es))
        → P (drop_pass estimate skip budget before (e ∷ es))
    unfolding drop_pass
    drop_pass_cases P before e es skipped stopped dropped = elim (Bool-cases (skip e)) [
      | inl s ↦ rw s skipped
      | inr s ↦ elim (Bool-cases (leb (before + masked_total estimate (e ∷ es)) budget)) [
        | inl fits ↦ rw (s, fits) stopped
        | inr over ↦ rw (s, over) (dropped s)
      ]
    ]

    -- A pass changes no message, and drops no protected one.
    messages-drop_pass :
        (before : ℕ) (es : List Entry)
        → messages_of (drop_pass estimate skip budget before es) ≡ messages_of es
    unfolding drop_pass
    messages-drop_pass before [] = refl
    messages-drop_pass before (e ∷ es) =
        drop_pass_cases (λ fs. messages_of fs ≡ messages_of (e ∷ es)) before e es
          (ap (λ ms. e.message ∷ ms) (messages-drop_pass (before + passed e) es)) refl
          (λ s. ap (λ ms. e.message ∷ ms) (messages-drop_pass before es))

    protected-drop_pass :
        (before : ℕ) (es : List Entry)
        → protected_messages (drop_pass estimate skip budget before es) ≡ protected_messages es
    unfolding drop_pass protected_messages
    protected-drop_pass before [] = refl
    protected-drop_pass before (e ∷ es) =
        let f = λ (ms : List Message). if e.protected then e.message ∷ ms else ms in
        drop_pass_cases (λ fs. protected_messages fs ≡ protected_messages (e ∷ es)) before e es
          (ap f (protected-drop_pass (before + passed e) es)) refl
          (λ s. ap f (protected-drop_pass before es))

    IsSafe-drop_pass :
        (before : ℕ) (es : List Entry)
        → All IsSafe es
        → All IsSafe (drop_pass estimate skip budget before es)
    unfolding drop_pass
    IsSafe-drop_pass before [] h = h
    IsSafe-drop_pass before (e ∷ es) h =
        drop_pass_cases (All IsSafe) before e es (h.0, IsSafe-drop_pass (before + passed e) es h.1)
          h (λ s. (λ p. cc (protects e p), IsSafe-drop_pass before es h.1))

mark_protected-IsSafe : (n i : ℕ) (ms : List Message) → All IsSafe (mark_protected n i ms)
unfolding mark_protected
mark_protected-IsSafe n i [] = tt
mark_protected-IsSafe n i (m ∷ ms) = (λ p. refl, mark_protected-IsSafe n (suc i) ms)

messages-mark_protected : (n i : ℕ) (ms : List Message) → messages_of (mark_protected n i ms) ≡ ms
unfolding mark_protected
messages-mark_protected n i [] = refl
messages-mark_protected n i (m ∷ ms) = ap (λ l. m ∷ l) (messages-mark_protected n (suc i) ms)

kept-sublist : (es : List Entry) → Sublistᴰ (kept_messages es) (messages_of es)
unfolding kept_messages
kept-sublist [] = Sub.slnil
kept-sublist (e ∷ es) = elim (Bool-cases e.keep) [
  | inl k ↦ rw k (Sub.cons-cons refl (kept-sublist es))
  | inr k ↦ rw k (Sub.cons (kept-sublist es))
]

protected-sublist : (es : List Entry) → Sublistᴰ (protected_messages es) (messages_of es)
unfolding protected_messages
protected-sublist [] = Sub.slnil
protected-sublist (e ∷ es) = elim (Bool-cases e.protected) [
  | inl k ↦ rw k (Sub.cons-cons refl (protected-sublist es))
  | inr k ↦ rw k (Sub.cons (protected-sublist es))
]

-- In safe entries every protected message is kept.
protected-sublist_kept :
    (es : List Entry) → All IsSafe es → Sublistᴰ (protected_messages es) (kept_messages es)
unfolding protected_messages kept_messages
protected-sublist_kept [] h = Sub.slnil
protected-sublist_kept (e ∷ es) h = elim (Bool-cases e.protected) [
  | inl p ↦ rw (p, h.0 p) (Sub.cons-cons refl (protected-sublist_kept es h.1))
  | inr p ↦ elim (Bool-cases e.keep) [
    | inl k ↦ rw (p, k) (Sub.cons (protected-sublist_kept es h.1))
    | inr k ↦ rw (p, k) (protected-sublist_kept es h.1)
  ]
]

-- The system prompt, the last three messages and the pinned ones.
abbrev pub essential : List Message → List Message
essential messages = protected_messages (mark_protected (length messages) 0 messages)

-- The messages of a result are some of the given ones, in their order, all essential ones among
-- them; they fit the budget, or nothing else is left, or there were no more than four.
pub record IsTruncation (estimate : String → ℕ) (budget : ℕ) (messages result : List Message)
    : Type 0 where
  pub ordered : Sublistᴰ result messages
  pub safe : Sublistᴰ (essential messages) result
  pub fits :
      (total_tokens estimate result ≤ budget)
      ⊎ (result ≡ essential messages)
      ⊎ (length messages ≤ 4)

module _ (estimate : String → ℕ) (messages : List Message) (budget : ℕ) where
  abbrev entries : List Entry
  entries = mark_protected (length messages) 0 messages

  abbrev pass1 : List Entry
  pass1 = drop_pass estimate skips_prunable budget 0 entries

  abbrev pass2 : List Entry
  pass2 = drop_pass estimate skips_kept budget 0 pass1

  prunable_protects : (e : Entry) → e.protected ≡ true → skips_prunable e ≡ true
  prunable_protects e p = ground arith

  kept_protects : (e : Entry) → e.protected ≡ true → skips_kept e ≡ true
  kept_protects e p = ground arith

  messages-pass2 : messages_of pass2 ≡ messages
  messages-pass2 =
      messages-drop_pass estimate skips_kept kept_protects budget 0 pass1
      ∙ messages-drop_pass estimate skips_prunable prunable_protects budget 0 entries
      ∙ messages-mark_protected (length messages) 0 messages

  protected-pass2 : protected_messages pass2 ≡ essential messages
  protected-pass2 =
      protected-drop_pass estimate skips_kept kept_protects budget 0 pass1
      ∙ protected-drop_pass estimate skips_prunable prunable_protects budget 0 entries

  pass2-IsSafe : All IsSafe pass2
  pass2-IsSafe = IsSafe-drop_pass estimate skips_kept kept_protects budget 0 pass1 (
      IsSafe-drop_pass estimate skips_prunable prunable_protects budget 0 entries
        (mark_protected-IsSafe (length messages) 0 messages))

  -- Truncation keeps the order of the messages and every essential one, and its result fits the
  -- budget, or is the essential messages alone, or there were at most four messages.
  pub truncate-IsTruncation :
      IsTruncation estimate budget messages (truncate estimate messages budget)
  unfolding truncate
  truncate-IsTruncation = elim (Bool-cases (leb (length messages) 4)) [
    | inl few ↦ rw few (record {
      ordered = Sub.refl messages;
      safe =
          subst (λ l. Sublistᴰ (essential messages) l)
            (messages-mark_protected (length messages) 0 messages) (protected-sublist entries);
      fits = inr (inr (leb→le _ _ few));
    })
    | inr many ↦ elim (Bool-cases (ltb budget (masked_total estimate pass2))) [
      | inl over ↦
          rw (many, over)
            (record {
              ordered =
                  subst (λ l. Sublistᴰ (protected_messages pass2) l) messages-pass2
                    (protected-sublist pass2);
              safe =
                  subst (λ l. Sublistᴰ l (protected_messages pass2)) protected-pass2 (Sub.refl _);
              fits = inr (inl protected-pass2);
            })
      | inr fits ↦
          rw (many, fits)
            (record {
              ordered =
                  subst (λ l. Sublistᴰ (kept_messages pass2) l) messages-pass2 (kept-sublist pass2);
              safe =
                  subst (λ l. Sublistᴰ l (kept_messages pass2)) protected-pass2
                    (protected-sublist_kept pass2 pass2-IsSafe);
              fits = inl (ground (arith, masked_total-kept estimate pass2));
            })
    ]
  ]
