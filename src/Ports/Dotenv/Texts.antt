-- ===== src/Ports/Dotenv/Texts.antt =====
-- Splitting and joining of texts, as the functions of this part use them.
use Prim.Native.Char.{Char, code}
use empower_technical_interv.Prelude.{
  ℕ, zero, suc, ◌≡◌, refl, ap, ◌∙◌, inl, inr, false, List, [], ◌∷◌, ◌++◌, String, str_eq,
  str_eq-cases, ◌==◌, All, Bool-cases,
}
use empower_technical_interv.Prelude.Text.{split_at, push_front, ◌<>◌}
use empower_technical_interv.Ports.Dotenv.{trim_newlines, join_lines, drop_last_empty}

-- No character of the text is a newline.
abbrev pub IsLine : String → Type 0
IsLine String.[] = Unit
IsLine (String.◌∷◌ c s) = ((code c == 10) ≡ false) × IsLine s

-- A line with its newline, in front of more text.
pub split_at-line : (l s : String) → IsLine l → split_at 10 (l <> ("\n" <> s)) ≡ l ∷ split_at 10 s
split_at-line String.[] s h = refl
split_at-line (String.◌∷◌ c l) s (here, rest) = rw here (ap (push_front c) (split_at-line l s rest))

<>_assoc : (a b c : String) → (a <> b) <> c ≡ a <> (b <> c)
<>_assoc String.[] b c = refl
<>_assoc (String.◌∷◌ x a) b c = ap (λ t. String.◌∷◌ x t) (<>_assoc a b c)

pub split_at-join :
    (l : String) (ls : List String)
    → All IsLine (l ∷ ls)
    → split_at 10 (join_lines (l ∷ ls) <> "\n") ≡ (l ∷ ls) ++ "" ∷ []
unfolding join_lines
split_at-join l [] (h, t) = split_at-line l "" h
split_at-join l (k ∷ ls) (h, t) =
    ap (split_at 10) (<>_assoc l ("\n" <> join_lines (k ∷ ls)) "\n")
    ∙ split_at-line l (join_lines (k ∷ ls) <> "\n") h
    ∙ ap (λ rest. l ∷ rest) (split_at-join k ls t)

pub drop_last_empty-append : (ls : List String) → drop_last_empty (ls ++ "" ∷ []) ≡ ls
unfolding str_eq
drop_last_empty-append [] = refl
drop_last_empty-append (l ∷ []) = refl
drop_last_empty-append (l ∷ k ∷ ls) = ap (λ t. l ∷ t) (drop_last_empty-append (k ∷ ls))

push_front-IsLine :
    (c : Char) (ls : List String)
    → (code c == 10) ≡ false
    → All IsLine ls
    → All IsLine (push_front c ls)
push_front-IsLine c [] h hs = ((h, tt), tt)
push_front-IsLine c (l ∷ ls) h (here, rest) = ((h, here), rest)

pub split_at-IsLine : (s : String) → All IsLine (split_at 10 s)
split_at-IsLine String.[] = (tt, tt)
split_at-IsLine (String.◌∷◌ c s) = elim (Bool-cases (code c == 10)) [
  | inl newline ↦ rw newline (tt, split_at-IsLine s)
  | inr other ↦ rw other (push_front-IsLine c (split_at 10 s) other (split_at-IsLine s))
]

-- A few empty lines.
abbrev pub blanks : ℕ → List String
blanks zero = []
blanks (suc n) = "" ∷ blanks n

pub split_at-cons : (s : String) → (l : String) × (ls : List String) × (split_at 10 s ≡ l ∷ ls)
split_at-cons String.[] = ("", [], refl)
split_at-cons (String.◌∷◌ c s) =
    let (l, ls, e) = split_at-cons s in
    elim (Bool-cases (code c == 10)) [
      | inl newline ↦ ("", split_at 10 s, rw newline refl)
      | inr other ↦ (String.◌∷◌ c l, ls, rw other (ap (push_front c) e))
    ]

push_front-append :
    (c : Char) (s : String) (n : ℕ)
    → push_front c (split_at 10 s ++ blanks n) ≡ push_front c (split_at 10 s) ++ blanks n
push_front-append c s n = let (l, ls, e) = split_at-cons s in rw e refl

-- Newlines at the end only add empty lines.
pub split_at-trim :
    (s : String) → (n : ℕ) × (split_at 10 s ≡ split_at 10 (trim_newlines s) ++ blanks n)
unfolding trim_newlines
split_at-trim String.[] = (0, refl)
split_at-trim (String.◌∷◌ c s) =
    let (n, e) = split_at-trim s in
    elim (Bool-cases (code c == 10)) [
      | inr other ↦ (
        n,
        rw (other, trim_newlines)
            (rw other (ap (push_front c) e ∙ push_front-append c (trim_newlines s) n)),
      )
      | inl newline ↦ elim (str_eq-cases (trim_newlines s) "") [
        | inl (blank, same) ↦ (
          suc n,
          rw newline (rw blank (ap (λ ls. "" ∷ ls) (e ∙ ap (λ t. split_at 10 t ++ blanks n) same))),
        )
        | inr (full, differs) ↦ (n, rw newline (rw full (rw newline (ap (λ ls. "" ∷ ls) e))))
      ]
    ]
