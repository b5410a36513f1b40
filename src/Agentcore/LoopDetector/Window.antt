-- ===== src/Agentcore/LoopDetector/Window.antt =====
-- The rolling window of internal/agentcore/loop_detector.go.
use famclaw.Prelude.{
  ℕ, zero, suc, ◌+◌, ◌-◌, ◌≤◌, ◌<◌, ◌≡◌, ◌↔◌, refl, sym, ap, ◌∙◌, ◌⊎◌, String, List, [], ◌∷◌, ◌++◌,
  leb, if◌then◌else◌, length, ◌==◌, arith, length-append, length-drop, drop, Bool-cases, inl, inr,
  append_assoc, append-nil, leb→le,
}
use mathlib.Core.List.{tail}
use mathlib.Core.Path.{subst}
use famclaw.Prelude.Text.{str_eq, eq_iff}
use famclaw.Agentcore.LoopDetector.{
  ActionLoopDetector, stop, new_action_loop_detector, push, count, max_count_of, max_count, nudge,
}

-- The actions of a turn, pushed in their order.
pub push_all : List String → ActionLoopDetector → ActionLoopDetector
push_all [] d = d
push_all (h ∷ l) d = push_all l (push h d)

drop-append {ℓ} :
    {A : Type ℓ} (n : ℕ) (xs ys : List A) → n ≤ length xs → drop n (xs ++ ys) ≡ drop n xs ++ ys
drop-append zero xs ys h = refl
drop-append (suc n) [] ys h = absurd (omega arith)
drop-append (suc n) (x ∷ xs) ys h = drop-append n xs ys (omega arith)

drop-nil : (n : ℕ) → drop {A = String} n [] ≡ []
drop-nil zero = refl
drop-nil (suc n) = refl

tail-drop : (n : ℕ) (xs : List String) → tail (drop n xs) ≡ drop (suc n) xs
tail-drop zero [] = refl
tail-drop zero (x ∷ xs) = refl
tail-drop (suc n) [] = refl
tail-drop (suc n) (x ∷ xs) = tail-drop n xs

slide :
    (k m : ℕ) (actions : List String) (h : String)
    → suc k ≤ length actions
    → m ≡ suc k
    → tail (drop k actions) ++ h ∷ [] ≡ drop m (actions ++ h ∷ [])
slide k m actions h p e = rw (e, tail-drop k actions) (sym (drop-append (suc k) actions (h ∷ []) p))

-- The window holds the last `cap` of the actions so far.
pub record IsWindow (cap : ℕ) (actions : List String) (d : ActionLoopDetector) : Type 0 where
  pub cap_eq : d.cap ≡ cap
  pub window_eq : d.window ≡ drop (length actions - cap) actions

module _ (cap : ℕ) (actions : List String) (h : String) (positive : 0 < cap) where
  push_window :
      (w : List String)
      → (push h (record { window = w; cap = cap })).window
        ≡ (if leb cap (length w) then tail w else w) ++ h ∷ []
  unfolding push
  push_window w = elim (Bool-cases (cap == 0)) [ inl z ↦ absurd (ground arith) | inr z ↦ rw z ]

  push_cap : (w : List String) → (push h (record { window = w; cap = cap })).cap ≡ cap
  unfolding push
  push_cap w = ground arith

  window-push :
      (w : List String)
      → w ≡ drop (length actions - cap) actions
      → (push h (record { window = w; cap = cap })).window
        ≡ drop (length (actions ++ h ∷ []) - cap) (actions ++ h ∷ [])
  window-push w e =
      let n = length actions in
      let len : length w ≡ n - (n - cap) = ap length e ∙ length-drop (n - cap) actions in
      let grown : length (actions ++ h ∷ []) ≡ n + 1 = length-append actions (h ∷ []) in
      elim (Bool-cases (leb cap (length w))) [
        | inl full ↦
            let f = leb→le cap (length w) full in
            rw (push_window w, full, e)
              (slide (n - cap) (length (actions ++ h ∷ []) - cap) actions h (omega arith)
                (omega arith))
        | inr room ↦
            let f : length w < cap = ground arith in
            let z : n - cap ≡ 0 = omega arith in
            let y : length (actions ++ h ∷ []) - cap ≡ 0 = omega arith in
            rw (push_window w, room, e, z, y)
      ]

IsWindow-push :
    (cap : ℕ) (actions : List String) (h : String) (d : ActionLoopDetector)
    → 0 < cap
    → IsWindow cap actions d
    → IsWindow cap (actions ++ h ∷ []) (push h d)
IsWindow-push cap actions h d p w =
    subst
      (λ (k : ℕ). IsWindow cap (actions ++ h ∷ []) (push h (record { window = d.window; cap = k })))
      (sym w.cap_eq)
      (record {
        cap_eq = push_cap cap actions h p d.window;
        window_eq = window-push cap actions h p d.window w.window_eq;
      })

IsWindow-push_all :
    (cap : ℕ) (before l : List String) (d : ActionLoopDetector)
    → 0 < cap
    → IsWindow cap before d
    → IsWindow cap (before ++ l) (push_all l d)
unfolding push_all
IsWindow-push_all cap before [] d p w = rw (append-nil before) w
IsWindow-push_all cap before (h ∷ l) d p w =
    subst (λ t. IsWindow cap t (push_all l (push h d))) (append_assoc before (h ∷ []) l)
      (IsWindow-push_all cap (before ++ h ∷ []) l (push h d) p (IsWindow-push cap before h d p w))

-- After any pushes a new detector holds the last `cap` actions in their order, or the last 20 if it
-- was made with a capacity of 0.
pub push_all-IsWindow :
    (cap : ℕ) (l : List String)
    → let cap' = if cap == 0 then 20 else cap in
      IsWindow cap' l (push_all l (new_action_loop_detector cap))
unfolding new_action_loop_detector
push_all-IsWindow cap l =
    IsWindow-push_all (if cap == 0 then 20 else cap) [] l _ (ground arith)
      (record { cap_eq = refl; window_eq = sym (drop-nil (0 - (if cap == 0 then 20 else cap))) })

count-le-max_count_of :
    (window l : List String) (h : String) → 0 < count h l → count h window ≤ max_count_of window l
unfolding max_count_of count
count-le-max_count_of window [] h p = absurd (omega arith)
count-le-max_count_of window (j ∷ l) h p = elim (Bool-cases (str_eq j h)) [
  | inl here ↦ rw ((eq_iff j h).0 here) (omega arith)
  | inr there ↦ let k = count-le-max_count_of window l h (rw there at p) in omega arith
]

-- The greatest count is that of some action, unless it is 0.
max_count_of-attained :
    (window l : List String)
    → (max_count_of window l ≡ 0) ⊎ ((h : String) × (count h window ≡ max_count_of window l))
unfolding max_count_of
max_count_of-attained window [] = inl refl
max_count_of-attained window (j ∷ l) =
    elim (Bool-cases (leb (max_count_of window l) (count j window))) [
      | inl big ↦ inr (j, ground arith)
      | inr small ↦ elim (max_count_of-attained window l) [
        | inl z ↦ absurd (ground arith)
        | inr (h, e) ↦ inr (h, ground arith)
      ]
    ]

-- The detector's hardest nudge, to stop, comes exactly when some action stands at least twelve times
-- in the window.
pub nudge_stop_iff :
    (d : ActionLoopDetector) → (nudge d ≡ stop) ↔ ((h : String) × (12 ≤ count h d.window))
unfolding nudge max_count
nudge_stop_iff d = (
  λ e. elim (max_count_of-attained d.window d.window) [
    | inl z ↦ absurd (ground arith)
    | inr (h, m) ↦ (h, ground arith)
  ],
  λ (h, m). let k = count-le-max_count_of d.window d.window h (omega arith) in ground arith,
)

-- A new detector that has seen some actions gives the hardest nudge, to stop, exactly when one of the
-- actions stands at least twelve times among the last `cap` of them, or the last 20 if the detector was
-- made with a capacity of 0.
pub nudge-push_all :
    (cap : ℕ) (l : List String)
    → let cap' = if cap == 0 then 20 else cap in
      (nudge (push_all l (new_action_loop_detector cap)) ≡ stop)
      ↔ ((h : String) × (12 ≤ count h (drop (length l - cap') l)))
nudge-push_all cap l =
    let d = push_all l (new_action_loop_detector cap) in
    subst (λ w. (nudge d ≡ stop) ↔ ((h : String) × (12 ≤ count h w)))
      (push_all-IsWindow cap l).window_eq (nudge_stop_iff d)
