-- ===== src/TextSafe/Safety.antt =====
-- What `scrub` of src/textsafe.rs lets through.
use stavlos.Common.{
  ℕ, zero, suc, ◌+◌, ◌-◌, ◌/◌, ◌%◌, ◌≤◌, ◌<◌, Text, codes, Bool, true, false, not, ◌&&◌, ◌||◌, [],
  ◌∷◌, ◌++◌, all, any, length, leb, ltb, ◌==◌, if◌then◌else◌, ◌≡◌, refl, ap, arith, inl, inr,
  Bool-cases,
}
use stavlos.Common.Bytes.{Bytes}
use stavlos.TextSafe.Scrub.{
  Mode, is_visible, is_frame, rune, bidi, invisible, control, hex_digits, zeros, upper_hex,
  lower_hex, hidden_char, caret, shown, advance, scrub_from, scrub,
}

-- A character that neither moves the cursor nor reorders a line, and can be seen in visible mode
abbrev is_safe : Mode → ℕ → Bool
is_safe mode c = not (control c) && not (hidden_char mode c)

-- A printable ASCII character, a tab or a newline
abbrev pub is_plain : ℕ → Bool
is_plain c = (leb 32 c && ltb c 127) || (c == 9 || c == 10)

-- A control character of ASCII or of the upper half of Latin-1, but tab and newline
abbrev pub steers : ℕ → Bool
steers c = (ltb c 32 && not (c == 9 || c == 10)) || (ltb 126 c && ltb c 160)

-- An embedding, override, isolate or mark of a direction
abbrev pub reorders : ℕ → Bool
reorders c =
    (ltb 0x2029 c && ltb c 0x202f)
    || (ltb 0x2065 c && ltb c 0x206a)
    || any (λ d. c == d) (0x061c ∷ 0x200e ∷ 0x200f ∷ [])

-- The soft hyphen, the zero-width space, the word joiner and the byte-order mark
abbrev pub blank_mark : ℕ → Bool
blank_mark c = any (λ d. c == d) (0x00ad ∷ 0x200b ∷ 0x2060 ∷ 0xfeff ∷ [])

abbrev pub is_harmless : Mode → ℕ → Bool
is_harmless mode c = not (steers c) && (not (reorders c) && not (is_visible mode && blank_mark c))

all-append :
    (p : ℕ → Bool) (xs ys : Text) → all p xs ≡ true → all p ys ≡ true → all p (xs ++ ys) ≡ true
all-append p [] ys h k = k
all-append p (x ∷ xs) ys h k = ground (arith, h, all-append p xs ys (ground (arith, h)) k)

-- Visible characters of ASCII are safe in every mode.
ascii_safe : (mode : Mode) (c : ℕ) → 32 ≤ c → c < 127 → is_safe mode c ≡ true
unfolding control hidden_char bidi invisible
ascii_safe mode c a b = ground (arith, a, b)

digit_safe :
    (mode : Mode) (ten c : ℕ)
    → 65 ≤ ten
    → ten ≤ 97
    → is_safe mode (if ltb (c % 16) 10 then b'0' + c % 16 else ten + (c % 16 - 10)) ≡ true
digit_safe mode ten c a b =
    ascii_safe mode (if ltb (c % 16) 10 then b'0' + c % 16 else ten + (c % 16 - 10))
      (ground (arith, a, b)) (ground (arith, a, b))

hex_digits-safe :
    (mode : Mode) (ten n c : ℕ)
    → 65 ≤ ten
    → ten ≤ 97
    → all (is_safe mode) (hex_digits ten n c) ≡ true
unfolding hex_digits
hex_digits-safe mode ten zero c a b = refl
hex_digits-safe mode ten (suc n) c a b =
    all-append (is_safe mode) (if ltb c 16 then [] else hex_digits ten n (c / 16))
      ((if ltb (c % 16) 10 then b'0' + c % 16 else ten + (c % 16 - 10)) ∷ [])
      (elim (Bool-cases (ltb c 16)) [
        | inl e ↦ rw e refl
        | inr e ↦ rw e (hex_digits-safe mode ten n (c / 16) a b)
      ])
      (ap (λ x. x && true) (digit_safe mode ten c a b))

ascii-safe :
    (mode : Mode) (s : Text)
    → all (λ c. leb 32 c && ltb c 127) s ≡ true
    → all (is_safe mode) s ≡ true
ascii-safe mode [] h = refl
ascii-safe mode (c ∷ s) h = ground (
  arith,
  h,
  ascii_safe mode c (ground (arith, h)) (ground (arith, h)),
  ascii-safe mode s (ground (arith, h)),
)

zeros-safe : (mode : Mode) (n : ℕ) → all (is_safe mode) (zeros n) ≡ true
unfolding zeros
zeros-safe mode zero = refl
zeros-safe mode (suc n) =
    ground (arith, ascii_safe mode b'0' (omega arith) (omega arith), zeros-safe mode n)

-- A number in angle brackets
bracket-safe :
    (mode : Mode) (xs ys : Text)
    → all (λ c. leb 32 c && ltb c 127) xs ≡ true
    → all (is_safe mode) ys ≡ true
    → all (is_safe mode) ((xs ++ ys) ++ (b'>' ∷ [])) ≡ true
bracket-safe mode xs ys h k =
    all-append (is_safe mode) (xs ++ ys) (b'>' ∷ [])
      (all-append (is_safe mode) xs ys (ascii-safe mode xs h) k) (ascii-safe mode (b'>' ∷ []) refl)

upper_hex-safe : (mode : Mode) (c : ℕ) → all (is_safe mode) (upper_hex c) ≡ true
unfolding upper_hex
upper_hex-safe mode c =
    all-append (is_safe mode) (zeros (4 - length (hex_digits b'A' 6 c))) (hex_digits b'A' 6 c)
      (zeros-safe mode (4 - length (hex_digits b'A' 6 c)))
      (hex_digits-safe mode b'A' 6 c (omega arith) (omega arith))

caret-safe : (mode : Mode) (c : ℕ) → all (is_safe mode) (caret c) ≡ true
unfolding caret lower_hex
caret-safe mode c = elim (Bool-cases (c == 0x7f)) [
  | inl e ↦ rw e (ascii-safe mode (codes "^?") refl)
  | inr e ↦ elim (Bool-cases (ltb c 32)) [
    | inl l ↦ rw (e, l) (ascii-safe mode (b'^' ∷ (b'@' + c) ∷ []) (ground (arith, l)))
    | inr l ↦
        rw (e, l)
          (bracket-safe mode (b'<' ∷ []) (hex_digits b'a' 6 c) refl
            (hex_digits-safe mode b'a' 6 c (omega arith) (omega arith)))
  ]
]

shown-safe : (mode : Mode) (c : ℕ) → all (is_safe mode) (shown mode c) ≡ true
unfolding shown
shown-safe mode c = elim (Bool-cases (hidden_char mode c)) [
  | inl h ↦ elim (Bool-cases (is_visible mode)) [
    | inl v ↦ rw (h, v) (bracket-safe mode (codes "<U+") (upper_hex c) refl (upper_hex-safe mode c))
    | inr v ↦ rw (h, v) refl
  ]
  | inr h ↦ elim (Bool-cases (control c)) [
    | inr k ↦ rw (h, k) (ground (arith, h, k))
    | inl k ↦ elim (Bool-cases (is_visible mode)) [
      | inl v ↦ rw (h, k, v) (caret-safe mode c)
      | inr v ↦ rw (h, k, v) refl
    ]
  ]
]

scrub_from-safe :
    (mode : Mode) (skip : ℕ) (s : Bytes)
    → is_frame mode ≡ false
    → all (is_safe mode) (scrub_from mode skip s) ≡ true
unfolding scrub_from
scrub_from-safe mode skip [] f = refl
scrub_from-safe mode (suc skip) (b ∷ bs) f = scrub_from-safe mode skip bs f
scrub_from-safe mode zero (b ∷ bs) f =
    let c = (rune b bs).0 in
    let on = advance mode c (rune b bs).1 (b ∷ bs) - 1 in
    rw (scrub_from, f)
      (all-append (is_safe mode) (shown mode c) (scrub_from mode on bs) (shown-safe mode c)
        (scrub_from-safe mode on bs f))

plain-unhidden : (mode : Mode) (c : ℕ) → is_plain c ≡ true → hidden_char mode c ≡ false
unfolding hidden_char bidi invisible
plain-unhidden mode c h = ground (arith, h)

plain-uncontrolled : (c : ℕ) → is_plain c ≡ true → control c ≡ false
unfolding control
plain-uncontrolled c h = ground (arith, h)

plain-kept : (mode : Mode) (c : ℕ) → is_plain c ≡ true → shown mode c ≡ c ∷ []
unfolding shown
plain-kept mode c h = ground (arith, h, plain-unhidden mode c h, plain-uncontrolled c h)

plain-advance : (mode : Mode) (c : ℕ) (bs : Bytes) → is_plain c ≡ true → advance mode c 1 bs ≡ 1
unfolding advance
plain-advance mode c bs h = ground (arith, h, plain-unhidden mode c h, plain-uncontrolled c h)

plain-rune : (c : ℕ) (bs : Bytes) → is_plain c ≡ true → rune c bs ≡ (c, 1)
unfolding rune
plain-rune c bs h = ground (arith, h)

not_escape : (c : ℕ) → is_plain c ≡ true → (c == 0x1b) ≡ false
unfolding control
not_escape c h = ground (arith, h)

scrub_from-kept : (mode : Mode) (s : Bytes) → all is_plain s ≡ true → scrub_from mode 0 s ≡ s
unfolding scrub_from
scrub_from-kept mode [] h = refl
scrub_from-kept mode (b ∷ bs) h =
    let p : is_plain b ≡ true = ground (arith, h) in
    let rest = scrub_from-kept mode bs (ground (arith, h)) in
    elim (Bool-cases (is_frame mode)) [
      | inl f ↦
          rw
            (
              scrub_from,
              f,
              plain-rune b bs p,
              not_escape b p,
              plain-kept mode b p,
              plain-advance mode b (b ∷ bs) p,
            )
            (ap (λ r. b ∷ r) rest)
      | inr f ↦
          rw
            (scrub_from, f, plain-rune b bs p, plain-kept mode b p, plain-advance mode b (b ∷ bs) p)
            (ap (λ r. b ∷ r) rest)
    ]

control-steers : (c : ℕ) → control c ≡ false → steers c ≡ false
unfolding control
control-steers c h = ground (arith, h)

bidi-reorders : (c : ℕ) → bidi c ≡ false → reorders c ≡ false
unfolding bidi
bidi-reorders c h = ground (arith, h)

invisible-blank_mark : (c : ℕ) → invisible c ≡ false → blank_mark c ≡ false
unfolding invisible
invisible-blank_mark c h = ground (arith, h)

harmless_from :
    (v s r u k b i : Bool)
    → (not k && not (b || (v && i))) ≡ true
    → (k ≡ false → s ≡ false)
    → (b ≡ false → r ≡ false)
    → (i ≡ false → u ≡ false)
    → (not s && (not r && not (v && u))) ≡ true
harmless_from v s r u k b i h x y z = ground (arith, h, x, y, z)

safe_harmless : (mode : Mode) (c : ℕ) → is_safe mode c ≡ true → is_harmless mode c ≡ true
unfolding hidden_char
safe_harmless mode c h =
    harmless_from (is_visible mode) (steers c) (reorders c) (blank_mark c) (control c) (bidi c)
      (invisible c) h (control-steers c) (bidi-reorders c) (invisible-blank_mark c)

all_harmless :
    (mode : Mode) (s : Text) → all (is_safe mode) s ≡ true → all (is_harmless mode) s ≡ true
all_harmless mode [] h = refl
all_harmless mode (c ∷ s) h =
    ground
      (arith, safe_harmless mode c (ground (arith, h)), all_harmless mode s (ground (arith, h)))

-- Whatever bytes come in, text scrubbed in clean or visible mode has no control character but
-- tab and newline and no character that reorders a line, and in visible mode no soft hyphen, zero-width
-- space, word joiner or byte-order mark either. In every mode bytes that are printable ASCII, tabs and newlines come out as they went in.
pub scrub-safe :
    (s : Bytes) (mode : Mode)
    → (is_frame mode ≡ false → all (is_harmless mode) (scrub s mode) ≡ true)
      × (all is_plain s ≡ true → scrub s mode ≡ s)
unfolding scrub
scrub-safe s mode = (
  λ f. all_harmless mode (scrub_from mode 0 s) (scrub_from-safe mode 0 s f),
  scrub_from-kept mode s,
)
