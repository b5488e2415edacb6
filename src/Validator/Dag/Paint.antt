-- ===== src/Validator/Dag/Paint.antt =====
-- How the colors change while the search runs.
use spexmachina.Prelude.{
  String, ℕ, ◌+◌, ◌≤◌, ◌<◌, List, [], ◌∷◌, ◌==◌, contains, true, false, ◌≡◌, ◌≢◌, refl, sym, ap,
  subst, ◌⊎◌, inl, inr, arith, Bool-cases, eq_iff, eq_refl, ◌∙◌,
}
use spexmachina.Validator.Dag.{Color, white, gray, black, Search, paint, set_parent}

pub Color-cases : (c : Color) → (c ≡ white) ⊎ ((c ≡ gray) ⊎ (c ≡ black))
Color-cases white = inl refl
Color-cases gray = inr (inl refl)
Color-cases black = inr (inr refl)

abbrev is_white : Color → ℕ
is_white white = 1
is_white gray = 0
is_white black = 0

-- How many of these nodes are white.
unfoldable pub whites : (String → Color) → List String → ℕ
whites color [] = 0
whites color (x ∷ xs) = is_white (color x) + whites color xs

-- A node keeps its color and parent, or goes from white to black.
abbrev pub Grows : Search → Search → Type 0
Grows s s' =
    (x : String)
    → ((s'.color x ≡ s.color x) × (s'.parent x ≡ s.parent x))
      ⊎ ((s.color x ≡ white) × (s'.color x ≡ black))

pub Grows-refl : (s : Search) → Grows s s
Grows-refl s x = inl (refl, refl)

pub Grows-trans : (s t u : Search) → Grows s t → Grows t u → Grows s u
Grows-trans s t u g h x = elim (g x) [
  | inl a ↦ elim (h x) [ inl b ↦ inl (b.0 ∙ a.0, b.1 ∙ a.1) | inr b ↦ inr (sym a.0 ∙ b.0, b.1) ]
  | inr a ↦ elim (h x) [ inl b ↦ inr (a.0, b.0 ∙ a.1) | inr b ↦ inr (a.0, b.1) ]
]

-- A color that is not white stays.
pub Grows-kept :
    (s s' : Search)
    → Grows s s'
    → (x : String) → s.color x ≢ white
    → (s'.color x ≡ s.color x) × (s'.parent x ≡ s.parent x)
Grows-kept s s' g x h = elim (g x) [ inl a ↦ a | inr a ↦ elim (h a.0) [ ] ]

pub Grows-black :
    (s s' : Search) → Grows s s' → (x : String) → s.color x ≡ black → s'.color x ≡ black
Grows-black s s' g x h = elim (g x) [ inl a ↦ a.0 ∙ h | inr a ↦ a.1 ]

pub Grows-gray : (s s' : Search) → Grows s s' → (x : String) → s'.color x ≡ gray → s.color x ≡ gray
Grows-gray s s' g x h = elim (g x) [ inl a ↦ sym a.0 ∙ h | inr a ↦ cc (a.1, h) ]

pub Grows-white :
    (s s' : Search) → Grows s s' → (x : String) → s'.color x ≡ white → s.color x ≡ white
Grows-white s s' g x h = elim (g x) [ inl a ↦ sym a.0 ∙ h | inr a ↦ a.0 ]

pub whites-le :
    (color color' : String → Color) (xs : List String)
    → ((x : String) → color' x ≡ white → color x ≡ white)
    → whites color' xs ≤ whites color xs
unfolding whites
whites-le color color' [] h = omega arith
whites-le color color' (x ∷ xs) h =
    let ih = whites-le color color' xs h in
    elim (Color-cases (color' x)) [
      | inl e ↦ rw (e, h x e) (omega (arith, ih))
      | inr (inl e) ↦ rw e (omega (arith, ih))
      | inr (inr e) ↦ rw e (omega (arith, ih))
    ]

pub whites-lt :
    (color color' : String → Color) (xs : List String) (node : String)
    → ((x : String) → color' x ≡ white → color x ≡ white)
    → contains xs node ≡ true
    → color node ≡ white
    → color' node ≡ gray
    → whites color' xs < whites color xs
unfolding whites contains
whites-lt color color' [] node h there e f = cc there
whites-lt color color' (x ∷ xs) node h there e f = elim (Bool-cases (x == node)) [
  | inl k ↦
      let same = (eq_iff x node).0 k in
      let rest = whites-le color color' xs h in rw (same, e, f) (omega (arith, rest))
  | inr k ↦
      let ih = whites-lt color color' xs node h (ground (arith, k, there)) e f in
      elim (Color-cases (color' x)) [
        | inl w ↦ rw (w, h x w) (omega (arith, ih))
        | inr (inl w) ↦ rw w (omega (arith, ih))
        | inr (inr w) ↦ rw w (omega (arith, ih))
      ]
]

pub paint-here : (c : Color) (node : String) (s : Search) → (paint c node s).color node ≡ c
paint-here c node s = rw (eq_refl node) refl

pub paint-else :
    (c : Color) (node : String) (s : Search) (x : String)
    → (node == x) ≡ false
    → (paint c node s).color x ≡ s.color x
paint-else c node s x h = rw h refl

-- What dfs does to a white node, in all.
pub Grows-paint :
    (node : String) (s s' : Search)
    → s.color node ≡ white
    → Grows (paint gray node s) s'
    → Grows s (paint black node s')
Grows-paint node s s' w g x = elim (Bool-cases (node == x)) [
  | inl e ↦
      subst
        (λ y.
          ((paint black node s').color y ≡ s.color y) × (s'.parent y ≡ s.parent y)
          ⊎ ((s.color y ≡ white) × ((paint black node s').color y ≡ black)))
        ((eq_iff node x).0 e) (inr (w, paint-here black node s'))
  | inr e ↦ elim (g x) [
    | inl a ↦ inl (paint-else black node s' x e ∙ a.0 ∙ paint-else gray node s x e, a.1)
    | inr a ↦ inr (sym (paint-else gray node s x e) ∙ a.0, paint-else black node s' x e ∙ a.1)
  ]
]

pub parent-else :
    (child node : String) (s : Search) (x : String)
    → (child == x) ≡ false
    → (set_parent child node s).parent x ≡ s.parent x
parent-else child node s x h = rw h refl

pub parent-here : (child node : String) (s : Search) → (set_parent child node s).parent child ≡ node
parent-here child node s = rw (eq_refl child) refl

pub Grows-set_parent :
    (child node : String) (s s' : Search)
    → s.color child ≡ white
    → s'.color child ≡ black
    → Grows (set_parent child node s) s'
    → Grows s s'
Grows-set_parent child node s s' w b g x = elim (Bool-cases (child == x)) [
  | inl e ↦
      let same = (eq_iff child x).0 e in inr (ap s.color (sym same) ∙ w, ap s'.color (sym same) ∙ b)
  | inr e ↦ elim (g x) [ inl a ↦ inl (a.0, a.1 ∙ parent-else child node s x e) | inr a ↦ inr a ]
]
