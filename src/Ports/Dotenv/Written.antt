-- ===== src/Ports/Dotenv/Written.antt =====
-- The lines that RenderEnv writes, as ParseOverrides reads them.
use Prim.Native.Char.{Char, code}
use Prim.Native.String.{char_at}
use empower_technical_interv.Prelude.{
  ℕ, zero, suc, ◌+◌, ◌*◌, ◌/◌, ◌%◌, ◌≤◌, ◌<◌, ◌≡◌, refl, ap, ◌∙◌, inl, inr, true, false, ◌&&◌, some,
  String, str_eq, str_eq_ne, str_eq_refl, ltb, leb, arith, Bool-cases,
}
use empower_technical_interv.Prelude.Int.{pos, i64_max}
use empower_technical_interv.Prelude.Text.{◌<>◌}
use empower_technical_interv.Config.Numbers.{
  atoi, magnitude, unsigned, signed, digits_value, digits_front, is_digit,
}
use empower_technical_interv.Relay.{itoa, digits_of}
use empower_technical_interv.Ports.Dotenv.{
  is_name_code, starts_upper, ends_with, skip_spaces, mark_front, name_front, match_value,
  match_name, assignment, port_line, Assignment,
}
use empower_technical_interv.Ports.Dotenv.Texts.{IsLine}

abbrev IsDigit : Char → Type 0
IsDigit c = (48 ≤ code c) × (code c ≤ 57)

-- A text of digits, at least one.
abbrev Digits : String → Type 0
Digits String.[] = Unit
Digits (String.◌∷◌ c s) = IsDigit c × Digits s

abbrev Numeral : String → Type 0
Numeral String.[] = ⊥
Numeral (String.◌∷◌ c s) = IsDigit c × Digits s

digit_code : (d : ℕ) → d < 10 → code (char_at "0123456789" d) ≡ 48 + d
digit_code zero h = refl
digit_code (suc zero) h = refl
digit_code (suc (suc zero)) h = refl
digit_code (suc (suc (suc zero))) h = refl
digit_code (suc (suc (suc (suc zero)))) h = refl
digit_code (suc (suc (suc (suc (suc zero))))) h = refl
digit_code (suc (suc (suc (suc (suc (suc zero)))))) h = refl
digit_code (suc (suc (suc (suc (suc (suc (suc zero))))))) h = refl
digit_code (suc (suc (suc (suc (suc (suc (suc (suc zero)))))))) h = refl
digit_code (suc (suc (suc (suc (suc (suc (suc (suc (suc zero))))))))) h = refl
digit_code (suc (suc (suc (suc (suc (suc (suc (suc (suc (suc d)))))))))) h = absurd (omega arith)

-- The next digit of a number, as a character.
abbrev last_digit : ℕ → Char
last_digit n = char_at "0123456789" (n % 10)

code-last_digit : (n : ℕ) → code (last_digit n) ≡ 48 + n % 10
code-last_digit n = digit_code (n % 10) (omega arith)

last_digit-IsDigit : (n : ℕ) → IsDigit (last_digit n)
last_digit-IsDigit n = omega (arith, code-last_digit n)

digits_of-Numeral : (f n : ℕ) (acc : String) → n < f → Digits acc → Numeral (digits_of f n acc)
unfolding digits_of
digits_of-Numeral zero n acc h d = absurd (omega arith)
digits_of-Numeral (suc f) n acc h d = elim (Bool-cases (ltb n 10)) [
  | inl small ↦ rw small (last_digit-IsDigit n, d)
  | inr large ↦ rw large (
      digits_of-Numeral f (n / 10) (String.◌∷◌ (last_digit n) acc) (ground arith)
        (last_digit-IsDigit n, d))
]

-- One digit more.
digits_value-last :
    (v n : ℕ) (acc : String)
    → digits_value v (String.◌∷◌ (last_digit n) acc) ≡ digits_value (v * 10 + n % 10) acc
unfolding digits_value is_digit
digits_value-last v n acc = ground (arith, code-last_digit n)

digits_value-digits_of :
    (f n : ℕ) (acc : String) → n < f → digits_value 0 (digits_of f n acc) ≡ digits_value n acc
unfolding digits_of
digits_value-digits_of zero n acc h = absurd (omega arith)
digits_value-digits_of (suc f) n acc h = elim (Bool-cases (ltb n 10)) [
  | inl small ↦ rw small (digits_value-last 0 n acc ∙ ap (λ m. digits_value m acc) (ground arith))
  | inr large ↦ rw large (
      digits_value-digits_of f (n / 10) (String.◌∷◌ (last_digit n) acc) (ground arith)
      ∙ digits_value-last (n / 10) n acc
      ∙ ap (λ m. digits_value m acc) (omega arith))
]

pub itoa-Numeral : (n : ℕ) → Numeral (itoa (pos n))
unfolding itoa
itoa-Numeral n = digits_of-Numeral (suc n) n "" (omega arith) tt

itoa_value : (n : ℕ) → digits_value 0 (itoa (pos n)) ≡ some n
unfolding itoa digits_value
itoa_value n = digits_value-digits_of (suc n) n "" (omega arith)

-- Atoi on a text that starts with a digit.
atoi-Numeral :
    (s : String)
    → Numeral s
    → (n : ℕ) → digits_value 0 s ≡ some n
    → n ≤ i64_max
    → atoi s ≡ some (pos n)
unfolding atoi magnitude unsigned signed
atoi-Numeral String.[] h n v small = absurd h
atoi-Numeral (String.◌∷◌ c s) (h, hs) n v small = ground arith

-- strconv.Atoi reads what strconv.Itoa writes.
pub atoi-itoa : (n : ℕ) → n ≤ i64_max → atoi (itoa (pos n)) ≡ some (pos n)
atoi-itoa n small = atoi-Numeral (itoa (pos n)) (itoa-Numeral n) n (itoa_value n) small

digits_front-Digits : (s : String) → Digits s → digits_front s ≡ (s, "")
unfolding digits_front is_digit
digits_front-Digits String.[] h = refl
digits_front-Digits (String.◌∷◌ c s) (h, hs) =
    let digit : (leb b'0' (code c) && leb (code c) b'9') ≡ true = ground arith in
    rw digit (ap (λ (p : String × String). (String.◌∷◌ c p.0, p.1)) (digits_front-Digits s hs))

skip_spaces-Numeral : (s : String) → Numeral s → skip_spaces s ≡ s
unfolding skip_spaces
skip_spaces-Numeral String.[] h = absurd h
skip_spaces-Numeral (String.◌∷◌ c s) (h, hs) = ground arith

Numeral-Digits : (s : String) → Numeral s → Digits s
Numeral-Digits String.[] h = tt
Numeral-Digits (String.◌∷◌ c s) h = h

Numeral-ne : (s : String) → Numeral s → str_eq s "" ≡ false
Numeral-ne String.[] h = absurd h
Numeral-ne (String.◌∷◌ c s) h = str_eq_ne (String.◌∷◌ c s) "" (λ e. cc)

-- A name that the regular expression accepts.
abbrev NameCodes : String → Type 0
NameCodes String.[] = Unit
NameCodes (String.◌∷◌ c s) = (is_name_code (code c) ≡ true) × NameCodes s

abbrev pub IsPortName : String → Type 0
IsPortName name = NameCodes name × (starts_upper name ≡ true) × (ends_with "_PORT" name ≡ true)

name_front-stops :
    (name : String) (c : Char) (s : String)
    → NameCodes name
    → is_name_code (code c) ≡ false
    → name_front (name <> String.◌∷◌ c s) ≡ (name, String.◌∷◌ c s)
unfolding name_front
name_front-stops String.[] c s h stop = rw stop refl
name_front-stops (String.◌∷◌ d name) c s (h, hs) stop =
    rw h (ap (λ (p : String × String). (String.◌∷◌ d p.0, p.1)) (name_front-stops name c s hs stop))

skip_spaces-upper :
    (name s : String) → starts_upper name ≡ true → skip_spaces (name <> s) ≡ name <> s
unfolding skip_spaces
skip_spaces-upper String.[] s h = absurd (cc)
skip_spaces-upper (String.◌∷◌ c name) s h = ground arith

mark_front-upper :
    (name s : String) → starts_upper name ≡ true → mark_front b'#' (name <> s) ≡ (false, name <> s)
unfolding mark_front
mark_front-upper String.[] s h = absurd (cc)
mark_front-upper (String.◌∷◌ c name) s h = ground arith

abbrev read_line : String → String → Assignment
read_line name value = record { commented = false; name = name; value = value }

match_value-Numeral :
    (name d : String)
    → IsPortName name
    → Numeral d
    → match_value false name d ≡ some (read_line name d)
unfolding match_value skip_spaces
match_value-Numeral name d (codes, upper, suffix) h =
    rw (skip_spaces-Numeral d h, match_value)
      (rw (digits_front-Digits d (Numeral-Digits d h))
        (rw upper (rw suffix (rw (Numeral-ne d h) (rw (str_eq_refl "") refl)))))

match_name-value :
    (name d : String)
    → IsPortName name
    → match_name false (name <> ("=" <> d)) ≡ match_value false name d
unfolding match_name mark_front skip_spaces
match_name-value name d (codes, upper, suffix) =
    rw (skip_spaces-upper name ("=" <> d) upper, match_name)
      (rw (name_front-stops name _ d codes refl) refl)

pub assignment-port_line :
    (name : String) (port : ℕ)
    → IsPortName name
    → assignment (port_line name port) ≡ some (read_line name (itoa (pos port)))
unfolding assignment port_line
assignment-port_line name port h =
    let d = itoa (pos port) in
    rw (skip_spaces-upper name ("=" <> d) h.1, assignment)
      (rw (mark_front-upper name ("=" <> d) h.1)
        (match_name-value name d h ∙ match_value-Numeral name d h (itoa-Numeral port)))

-- A name or a number holds no line break.
Digits-IsLine : (s : String) → Digits s → IsLine s
Digits-IsLine String.[] h = tt
Digits-IsLine (String.◌∷◌ c s) (h, hs) = (ground arith, Digits-IsLine s hs)

NameCodes-IsLine : (name s : String) → NameCodes name → IsLine s → IsLine (name <> s)
NameCodes-IsLine String.[] s h t = t
NameCodes-IsLine (String.◌∷◌ c name) s (h, hs) t = (ground arith, NameCodes-IsLine name s hs t)

pub port_line-IsLine : (name : String) (port : ℕ) → IsPortName name → IsLine (port_line name port)
unfolding port_line
port_line-IsLine name port h =
    NameCodes-IsLine name _ h.0
      (refl, Digits-IsLine (itoa (pos port)) (Numeral-Digits _ (itoa-Numeral port)))
