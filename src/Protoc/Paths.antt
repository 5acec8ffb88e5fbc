-- ===== src/Protoc/Paths.antt =====
-- The paths that unzip extracts: they lie below the directory.
use mathlib.Core.List.{reverse, reverse-cons, reverse-append, reverse-reverse, append_assoc}
use empower_technical_interv.Prelude.{
  ◌≡◌, refl, sym, ap, subst, ◌∙◌, inl, inr, Bool, true, false, ◌||◌, List, [], ◌∷◌, ◌++◌, String,
  str_eq, str_eq-cases, str_eq_refl, All, arith, Bool-cases,
}
use empower_technical_interv.Prelude.Text.{split_at}
use empower_technical_interv.Protoc.Release.{
  clean_part, clean_parts, is_rooted, clean, has_wanted_prefix, is_wanted, join_target, lies_below,
}

-- A part that filepath.Clean leaves alone.
abbrev IsPlain : String → Type 0
IsPlain part = (str_eq part "" ≡ false) × ((str_eq part "." ≡ false) × (str_eq part ".." ≡ false))

abbrev AllUp : List String → Type 0
AllUp parts = All (λ part. str_eq part ".." ≡ true) parts

-- A stack of clean parts: plain ones on top of the `..` that could not be taken back.
data IsTidy : List String → Type 0 where
  up : (parts : List String) → AllUp parts → IsTidy parts
  plain :
      (part : String) (parts : List String) → IsPlain part → IsTidy parts → IsTidy (part ∷ parts)

IsTidy-tail : (part : String) (parts : List String) → IsTidy (part ∷ parts) → IsTidy parts
IsTidy-tail part parts (up _ h) = up parts h.1
IsTidy-tail part parts (plain _ _ p t) = t

IsTidy-up :
    (top : String) (stack : List String)
    → IsTidy (top ∷ stack)
    → str_eq top ".." ≡ true
    → AllUp (top ∷ stack)
IsTidy-up top stack (up _ h) f = h
IsTidy-up top stack (plain _ _ p t) f = absurd (ground arith)

clean_part-IsTidy :
    (stack : List String) (part : String) → IsTidy stack → IsTidy (clean_part false stack part)
unfolding clean_part
clean_part-IsTidy [] part t = elim (Bool-cases (str_eq part "")) [
  | inl e ↦ rw e (up [] tt)
  | inr full ↦ elim (Bool-cases (str_eq part ".")) [
    | inl e ↦ rw full (rw e (up [] tt))
    | inr moves ↦ elim (Bool-cases (str_eq part "..")) [
      | inl e ↦ rw full (rw moves (rw e (up (part ∷ []) (e, tt))))
      | inr e ↦ rw full (rw moves (rw e (plain part [] (full, (moves, e)) t)))
    ]
  ]
]
clean_part-IsTidy (top ∷ stack) part t = elim (Bool-cases (str_eq part "")) [
  | inl e ↦ rw e t
  | inr full ↦ elim (Bool-cases (str_eq part ".")) [
    | inl e ↦ rw full (rw e t)
    | inr moves ↦ elim (Bool-cases (str_eq part "..")) [
      | inr e ↦ rw full (rw moves (rw e (plain part (top ∷ stack) (full, (moves, e)) t)))
      | inl e ↦ elim (Bool-cases (str_eq top "..")) [
        | inl f ↦
            rw full (rw moves (rw e (rw f (up (part ∷ top ∷ stack) (e, IsTidy-up top stack t f)))))
        | inr f ↦ rw full (rw moves (rw e (rw f (IsTidy-tail top stack t))))
      ]
    ]
  ]
]

clean_parts-IsTidy :
    (parts stack : List String) → IsTidy stack → IsTidy (clean_parts false stack parts)
unfolding clean_parts
clean_parts-IsTidy [] stack t = t
clean_parts-IsTidy (part ∷ parts) stack t =
    clean_parts-IsTidy parts (clean_part false stack part) (clean_part-IsTidy stack part t)

-- The part at the bottom of the stack.
abbrev bottom : List String → String
bottom [] = ".."
bottom (p ∷ []) = p
bottom (p ∷ q ∷ ps) = bottom (q ∷ ps)

AllUp-bottom : (parts : List String) → AllUp parts → str_eq (bottom parts) ".." ≡ true
AllUp-bottom [] h = str_eq_refl ".."
AllUp-bottom (p ∷ []) h = h.0
AllUp-bottom (p ∷ q ∷ ps) h = AllUp-bottom (q ∷ ps) h.1

-- A tidy stack with a plain bottom is plain.
IsTidy-IsPlain :
    (parts : List String) → IsTidy parts → str_eq (bottom parts) ".." ≡ false → All IsPlain parts
IsTidy-IsPlain parts (up _ h) low = absurd (ground (arith, AllUp-bottom parts h))
IsTidy-IsPlain _ (plain part [] p t) low = (p, tt)
IsTidy-IsPlain _ (plain part (q ∷ ps) p t) low = (p, IsTidy-IsPlain (q ∷ ps) t low)

-- Plain parts are pushed, one after the other.
clean_part-plain :
    (rooted : Bool) (stack : List String) (part : String)
    → IsPlain part
    → clean_part rooted stack part ≡ part ∷ stack
unfolding clean_part
clean_part-plain rooted [] part (a, (b, c)) = rw a (rw b (rw c refl))
clean_part-plain rooted (top ∷ stack) part (a, (b, c)) = rw a (rw b (rw c refl))

clean_parts-plain :
    (rooted : Bool) (parts stack : List String)
    → All IsPlain parts
    → clean_parts rooted stack parts ≡ reverse parts ++ stack
unfolding clean_parts
clean_parts-plain rooted [] stack h = refl
clean_parts-plain rooted (part ∷ parts) stack (p, ps) =
    ap (λ t. clean_parts rooted t parts) (clean_part-plain rooted stack part p)
    ∙ clean_parts-plain rooted parts (part ∷ stack) ps
    ∙ sym (append_assoc (reverse parts) (part ∷ []) stack)
    ∙ ap (λ t. t ++ stack) (sym (reverse-cons part parts))

All-append-IsPlain :
    (xs ys : List String) → All IsPlain xs → All IsPlain ys → All IsPlain (xs ++ ys)
All-append-IsPlain [] ys h k = k
All-append-IsPlain (x ∷ xs) ys h k = (h.0, All-append-IsPlain xs ys h.1 k)

reverse-IsPlain : (parts : List String) → All IsPlain parts → All IsPlain (reverse parts)
reverse-IsPlain [] h = tt
reverse-IsPlain (p ∷ ps) (h, hs) =
    subst (All IsPlain) (sym (reverse-cons p ps))
      (All-append-IsPlain (reverse ps) (p ∷ []) (reverse-IsPlain ps hs) (h, tt))

-- The first part of the reversed stack is its bottom.
abbrev first : List String → String
first [] = ".."
first (p ∷ ps) = p

first-snoc :
    (ps : List String) (p q : String)
    → first ((ps ++ (q ∷ [])) ++ (p ∷ [])) ≡ first (ps ++ (q ∷ []))
first-snoc [] p q = refl
first-snoc (r ∷ ps) p q = refl

first-reverse : (parts : List String) → first (reverse parts) ≡ bottom parts
first-reverse [] = refl
first-reverse (p ∷ []) = refl
first-reverse (p ∷ q ∷ ps) =
    ap first (reverse-cons p (q ∷ ps) ∙ ap (λ t. t ++ p ∷ []) (reverse-cons q ps))
    ∙ first-snoc (reverse ps) p q
    ∙ sym (ap first (reverse-cons q ps))
    ∙ first-reverse (q ∷ ps)

not_up : (p : String) → (str_eq p "bin" || str_eq p "include") ≡ true → str_eq p ".." ≡ false
unfolding str_eq
not_up p h = elim (str_eq-cases p "bin") [
  | inl (e, same) ↦ ap (λ t. str_eq t "..") same
  | inr (e, differs) ↦ elim (str_eq-cases p "include") [
    | inl (f, same) ↦ ap (λ t. str_eq t "..") same
    | inr (f, differs') ↦ absurd (ground arith)
  ]
]

-- A wanted name is not empty, and its first part is no `..`.
wanted-first :
    (rooted : Bool) (parts : List String)
    → has_wanted_prefix rooted parts ≡ true
    → (rooted ≡ false)
      × ((str_eq (first parts) ".." ≡ false)
          × ((p : String) × ((ps : List String) × (parts ≡ p ∷ ps))))
unfolding has_wanted_prefix
wanted-first true parts h = absurd (cc)
wanted-first false [] h = absurd (cc)
wanted-first false (p ∷ []) h = absurd (cc)
wanted-first false (p ∷ q ∷ ps) h = (refl, (not_up p h, (p, (q ∷ ps, refl))))

lies_below-append :
    (dir : List String) (p : String) (ps : List String) → lies_below dir (dir ++ p ∷ ps) ≡ true
unfolding lies_below
lies_below-append [] p ps = refl
lies_below-append (d ∷ dir) p ps = rw (str_eq_refl d) (lies_below-append dir p ps)

-- The test for entries that escape never fires: the cleaned name of an entry under bin/ or include/ has
-- no `..`, so that its target lies below the directory.
pub no_entry_escapes :
    (rooted : Bool) (dir : List String) (name : String)
    → is_wanted name ≡ true
    → lies_below dir (join_target rooted dir (clean name)) ≡ true
unfolding is_wanted clean join_target
no_entry_escapes rooted dir name h =
    let parts = clean_parts (is_rooted name) [] (split_at b'/' name) in
    let (relative, (low, (p, (ps, shape)))) = wanted-first (is_rooted name) (reverse parts) h in
    let tidy : IsTidy parts =
      subst (λ r. IsTidy (clean_parts r [] (split_at b'/' name))) (sym relative)
        (clean_parts-IsTidy (split_at b'/' name) [] (up [] tt)) in
    let all_plain =
      reverse-IsPlain parts
        (IsTidy-IsPlain parts tidy (ap (λ t. str_eq t "..") (sym (first-reverse parts)) ∙ low)) in
    let target : reverse (clean_parts rooted (reverse dir) (reverse parts)) ≡ dir ++ reverse parts =
      ap reverse (clean_parts-plain rooted (reverse parts) (reverse dir) all_plain)
      ∙ reverse-append (reverse (reverse parts)) (reverse dir)
      ∙ ap (λ t. t ++ reverse (reverse (reverse parts))) (reverse-reverse dir)
      ∙ ap (λ t. dir ++ t) (reverse-reverse (reverse parts)) in
    ap (lies_below dir) (target ∙ ap (λ t. dir ++ t) shape) ∙ lies_below-append dir p ps
