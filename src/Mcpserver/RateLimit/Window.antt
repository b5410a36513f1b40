-- ===== src/Mcpserver/RateLimit/Window.antt =====
-- The sliding window of policy_ratelimit.go.
use famclaw.Prelude.{
  ℕ, suc, ◌+◌, ◌≤◌, ◌<◌, ◌≡◌, refl, sym, ap, ◌∙◌, inl, inr, Bool, true, false, ◌&&◌, String, Option,
  none, some, List, [], ◌∷◌, ◌++◌, arith, leb, ltb, if◌then◌else◌, length, All, All-append,
  Bool-cases, append_assoc,
}
use mathlib.Core.Path.{subst}
use mathlib.Core.Option.{some-injective}
use famclaw.Prelude.Text.{str_eq, eq_iff, eq_refl}
use famclaw.Mcpserver.RateLimit.{
  second, rate_limits, RateLimiter, new_rate_limiter, drop_stale, admit, allow, note_passed, Call,
  allow_all, set_calls,
}

-- The times in the second that follows `w`, its end included.
unfoldable pub in_window : ℕ → List ℕ → ℕ
in_window w [] = 0
in_window w (t ∷ times) =
    let rest = in_window w times in if ltb w t && leb t (w + second) then suc rest else rest

-- The clock does not go back.
abbrev pub InOrder : ℕ → List Call → Type 0
InOrder from [] = Unit
InOrder from (c ∷ calls) = (from ≤ c.now) × InOrder c.now calls

in_window-append : (w : ℕ) (l k : List ℕ) → in_window w (l ++ k) ≡ in_window w l + in_window w k
unfolding in_window
in_window-append w [] k = omega arith
in_window-append w (t ∷ l) k = ground (arith, in_window-append w l k)

in_window-le_length : (w : ℕ) (l : List ℕ) → in_window w l ≤ length l
unfolding in_window
in_window-le_length w [] = omega arith
in_window-le_length w (t ∷ l) = ground (arith, in_window-le_length w l)

abbrev Stale : ℕ → ℕ → Type 0
Stale now t = t + second ≤ now

in_window-Stale :
    (w now : ℕ) (l : List ℕ) → All (Stale now) l → now ≤ w + second → in_window w l ≡ 0
unfolding in_window
in_window-Stale w now [] h k = refl
in_window-Stale w now (t ∷ l) h k = ground (arith, in_window-Stale w now l h.1 k, h.0)

Stale-later : (now then' : ℕ) (l : List ℕ) → now ≤ then' → All (Stale now) l → All (Stale then') l
Stale-later now then' [] h k = tt
Stale-later now then' (t ∷ l) h k = (omega (arith, k.0, h), Stale-later now then' l h k.1)

record Dropped (now : ℕ) (l : List ℕ) : Type 0 where
  stale : List ℕ
  split : l ≡ stale ++ drop_stale now l
  all_stale : All (Stale now) stale

drop_stale-Dropped : (now : ℕ) (l : List ℕ) → Dropped now l
unfolding drop_stale
drop_stale-Dropped now [] = record { stale = []; split = refl; all_stale = tt }
drop_stale-Dropped now (t ∷ l) = elim (Bool-cases (ltb now (t + second))) [
  | inl e ↦ record { stale = []; split = rw (e, drop_stale) refl; all_stale = tt }
  | inr e ↦
      let d = drop_stale-Dropped now l in
      record {
        stale = t ∷ d.stale;
        split = rw (e, drop_stale) (ap (λ k. t ∷ k) d.split);
        all_stale = (ground arith, d.all_stale);
      }
]

-- Of the calls that were let through, those that the limiter no longer holds are over a second old,
-- and no second has too many.
record Inv (tool : String) (limit now : ℕ) (p : RateLimiter × List ℕ) : Type 0 where
  old : List ℕ
  split : p.1 ≡ old ++ p.0.calls tool
  all_old : All (Stale now) old
  limited : (w : ℕ) → in_window w p.1 ≤ limit

Inv-later :
    (tool : String) (limit now then' : ℕ) (p : RateLimiter × List ℕ)
    → now ≤ then'
    → Inv tool limit now p
    → Inv tool limit then' p
Inv-later tool limit now then' p h i = record {
  old = i.old;
  split = i.split;
  all_old = Stale-later now then' i.old h i.all_old;
  limited = i.limited;
}

-- One more call at `now`, if fewer than the limit are recent.
limited-pass :
    (limit now w : ℕ) (old recent : List ℕ)
    → All (Stale now) old
    → length recent < limit
    → in_window w (old ++ recent) ≤ limit
    → in_window w ((old ++ recent) ++ now ∷ []) ≤ limit
unfolding in_window
limited-pass limit now w old recent s r h = elim (Bool-cases (ltb w now && leb now (w + second))) [
  | inl e ↦
      let z = in_window-Stale w now old s (ground arith) in
      let a = in_window-append w (old ++ recent) (now ∷ []) in
      let b = in_window-append w old recent in let k = in_window-le_length w recent in ground arith
  | inr e ↦ let a = in_window-append w (old ++ recent) (now ∷ []) in ground arith
]

module _ (tool : String) (limit : ℕ) (c : Call) (rl : RateLimiter) (passed : List ℕ) where
  -- Nothing is noted, and the calls of the tool stay.
  Inv-unchanged :
      (rl' : RateLimiter) (ok : Bool)
      → (ok && str_eq c.tool tool) ≡ false
      → rl'.calls tool ≡ rl.calls tool
      → Inv tool limit c.now (rl, passed)
      → Inv tool limit c.now (rl', note_passed tool c ok passed)
  Inv-unchanged rl' ok e q i = rw e (record {
    old = i.old;
    split = i.split ∙ ap (λ k. i.old ++ k) (sym q);
    all_old = i.all_old;
    limited = i.limited;
  })

  Inv-passed :
      str_eq c.tool tool ≡ true
      → length (drop_stale c.now (rl.calls tool)) < limit
      → Inv tool limit c.now (rl, passed)
      → Inv tool limit c.now (
        set_calls tool (drop_stale c.now (rl.calls tool) ++ c.now ∷ []) rl,
        note_passed tool c true passed,
      )
  Inv-passed e r i =
      let d = drop_stale-Dropped c.now (rl.calls tool) in
      let recent = drop_stale c.now (rl.calls tool) in
      let split =
        i.split ∙ ap (λ k. i.old ++ k) d.split ∙ sym (append_assoc i.old d.stale recent) in
      let stale = All-append (Stale c.now) i.old d.stale i.all_old d.all_stale in
      rw e (record {
        old = i.old ++ d.stale;
        split =
            rw (eq_refl tool) (
              ap (λ k. k ++ c.now ∷ []) split
              ∙ append_assoc (i.old ++ d.stale) recent (c.now ∷ []));
        all_old = stale;
        limited = λ w.
            subst (λ k. in_window w (k ++ c.now ∷ []) ≤ limit) (sym split)
              (limited-pass limit c.now w (i.old ++ d.stale) recent stale r
                (subst (λ k. in_window w k ≤ limit) split (i.limited w)));
      })

  recent_fewer :
      (l : ℕ)
      → c.tool ≡ tool
      → l ≡ limit
      → leb l (length (drop_stale c.now (rl.calls c.tool))) ≡ false
      → length (drop_stale c.now (rl.calls tool)) < limit
  recent_fewer l t e f =
      subst (λ k. length (drop_stale c.now (rl.calls k)) < limit) t (ground arith)

  -- The three ends of `admit`.
  admit-Inv :
      (o : Option ℕ)
      → rate_limits c.tool ≡ o
      → rate_limits tool ≡ some limit
      → Inv tool limit c.now (rl, passed)
      → let p = admit c.tool c.now rl o in Inv tool limit c.now (p.0, note_passed tool c p.1 passed)
  unfolding admit
  admit-Inv none e q i = elim (Bool-cases (str_eq c.tool tool)) [
    | inl same ↦ let t = (eq_iff c.tool tool).0 same in cc
    | inr other ↦ Inv-unchanged rl true other refl i
  ]
  admit-Inv (some l) e q i =
      let recent = drop_stale c.now (rl.calls c.tool) in
      elim (Bool-cases (leb l (length recent))) [
        | inl full ↦ rw full (Inv-unchanged rl false refl refl i)
        | inr free ↦ rw free (elim (Bool-cases (str_eq c.tool tool)) [
          | inl same ↦
              let t = (eq_iff c.tool tool).0 same in
              let limits = some-injective l limit (sym e ∙ ap rate_limits t ∙ q) in
              subst
                (λ k. Inv tool limit c.now (
                  set_calls k (drop_stale c.now (rl.calls k) ++ c.now ∷ []) rl,
                  note_passed tool c true passed,
                ))
                (sym t) (Inv-passed same (recent_fewer l t limits free) i)
          | inr other ↦ Inv-unchanged _ true other (rw other refl) i
        ])
      ]

allow_all-Inv :
    (tool : String) (limit from : ℕ) (calls : List Call) (p : RateLimiter × List ℕ)
    → rate_limits tool ≡ some limit
    → InOrder from calls
    → Inv tool limit from p
    → (w : ℕ) → in_window w (allow_all tool calls p).1 ≤ limit
unfolding allow_all allow
allow_all-Inv tool limit from [] p q o i = i.limited
allow_all-Inv tool limit from (c ∷ calls) (rl, passed) q o i =
    allow_all-Inv tool limit c.now calls _ q o.1 (
      admit-Inv tool limit c rl passed (rate_limits c.tool) refl q
        (Inv-later tool limit from c.now (rl, passed) o.0 i))

-- Whatever tools are called and when, as long as the clock does not go back, a new limiter lets
-- through at most as many calls of a tool in any second as the tool's limit.
pub allow_all_limited :
    (tool : String) (limit from : ℕ) (calls : List Call)
    → rate_limits tool ≡ some limit
    → InOrder from calls
    → (w : ℕ) → in_window w (allow_all tool calls (new_rate_limiter, [])).1 ≤ limit
unfolding in_window
allow_all_limited tool limit from calls q o =
    allow_all-Inv tool limit from calls (new_rate_limiter, []) q o
      (record { old = []; split = refl; all_old = tt; limited = λ w. omega arith })
