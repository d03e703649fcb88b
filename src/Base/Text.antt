-- ===== src/Base/Text.antt =====
-- Python's `str`: stripping, slicing, order, and the text of a formatted message.
use Prim.Native.Nat.{ℕ, zero, suc, compare, Ordering}
use Prim.Native.Char.{Char, code}
use Prim.Native.String.{String, ◌++◌ as append}
use mathlib.Core.Bool.{Bool, true, false, ◌&&◌, ◌||◌}
use mathlib.Core.Path.{◌≡◌, refl, ap, ◌∙◌}
use mathlib.Core.Logic.{inl, inr}
use native.Mathlib.Omega.{arith}
use maxbot.Base.Tests.{leb, ◌==◌, if◌then◌else◌, Bool-cases}

-- `str.isspace` of one character, by its code point.
is_space : ℕ → Bool
is_space c =
    (leb 0x9 c && leb c 0xd)
    || (leb 0x1c c && leb c 0x20)
    || c == 0x85
    || c == 0xa0
    || c == 0x1680
    || (leb 0x2000 c && leb c 0x200a)
    || c == 0x2028
    || c == 0x2029
    || c == 0x202f
    || c == 0x205f
    || c == 0x3000

-- `if s:`, true of every text but the empty one.
unfoldable pub truthy : String → Bool
truthy String.[] = false
truthy (String.◌∷◌ c s) = true

-- `s.lstrip()`
unfoldable pub lstrip : String → String
unfolding is_space
lstrip String.[] = ""
lstrip (String.◌∷◌ c s) =
    let rest = lstrip s in if is_space (code c) then rest else (String.◌∷◌ c s)

keep_unless_blank : Char → String → String
keep_unless_blank c String.[] = if is_space (code c) then "" else (String.◌∷◌ c "")
keep_unless_blank c (String.◌∷◌ d s) = String.◌∷◌ c (String.◌∷◌ d s)

-- `s.rstrip()`
unfoldable pub rstrip : String → String
unfolding keep_unless_blank is_space
rstrip String.[] = ""
rstrip (String.◌∷◌ c s) = keep_unless_blank c (rstrip s)

-- `s.strip()`
unfoldable pub strip : String → String
unfolding lstrip rstrip
strip s = rstrip (lstrip s)

-- `s[:n]`
unfoldable pub clip : ℕ → String → String
clip zero s = ""
clip (suc n) String.[] = ""
clip (suc n) (String.◌∷◌ c s) = String.◌∷◌ c (clip n s)

-- `a < b` on texts, by code points; SQLite compares their UTF-8 bytes, which order them alike.
unfoldable pub str_lt : String → String → Bool
str_lt String.[] String.[] = false
str_lt String.[] (String.◌∷◌ d t) = true
str_lt (String.◌∷◌ c s) String.[] = false
str_lt (String.◌∷◌ c s) (String.◌∷◌ d t) =
    let rest = str_lt s t in
    elim (compare (code c) (code d)) [
      | Ordering.lt ↦ true
      | Ordering.eq ↦ rest
      | Ordering.gt ↦ false
    ]

-- An f-string with one value at its end.
unfoldable pub fmt : String → String → String
fmt a b = append a b

-- Text that is stripped stays as it is when it is stripped again.
keep-rstrip :
    (c : Char) (t : String) → rstrip t ≡ t → rstrip (keep_unless_blank c t) ≡ keep_unless_blank c t
unfolding rstrip keep_unless_blank
keep-rstrip c String.[] h = elim (Bool-cases (is_space (code c))) [
  | inl e ↦ rw e refl
  | inr e ↦ rw (e, e) refl
]
keep-rstrip c (String.◌∷◌ d t) h = ap (keep_unless_blank c) h

rstrip-rstrip : (s : String) → rstrip (rstrip s) ≡ rstrip s
unfolding rstrip
rstrip-rstrip String.[] = refl
rstrip-rstrip (String.◌∷◌ c s) = keep-rstrip c (rstrip s) (rstrip-rstrip s)

-- No blank at the left end.
starts_with_text : String → Bool
starts_with_text String.[] = true
starts_with_text (String.◌∷◌ c s) = if is_space (code c) then false else true

lstrip-starts_with_text : (s : String) → starts_with_text (lstrip s) ≡ true
unfolding lstrip starts_with_text
lstrip-starts_with_text String.[] = refl
lstrip-starts_with_text (String.◌∷◌ c s) = elim (Bool-cases (is_space (code c))) [
  | inl e ↦ rw e (lstrip-starts_with_text s)
  | inr e ↦ rw (e, e) refl
]

lstrip_id : (s : String) → starts_with_text s ≡ true → lstrip s ≡ s
unfolding lstrip starts_with_text
lstrip_id String.[] h = refl
lstrip_id (String.◌∷◌ c s) h = elim (Bool-cases (is_space (code c))) [
  | inl e ↦ absurd (ground (arith, h, e))
  | inr e ↦ rw e refl
]

rstrip-starts_with_text :
    (s : String) → starts_with_text s ≡ true → starts_with_text (rstrip s) ≡ true
unfolding rstrip starts_with_text keep_unless_blank
rstrip-starts_with_text String.[] h = refl
rstrip-starts_with_text (String.◌∷◌ c s) h = keep c (rstrip s) h
  where
    keep :
        (c : Char) (t : String)
        → (if is_space (code c) then false else true) ≡ true
        → starts_with_text (keep_unless_blank c t) ≡ true
    keep c String.[] h = elim (Bool-cases (is_space (code c))) [
      | inl e ↦ rw e refl
      | inr e ↦ rw (e, e) refl
    ]
    keep c (String.◌∷◌ d t) h = h

pub strip-strip : (s : String) → strip (strip s) ≡ strip s
unfolding strip
strip-strip s =
    ap rstrip (
      lstrip_id (rstrip (lstrip s))
        (rstrip-starts_with_text (lstrip s) (lstrip-starts_with_text s)))
    ∙ rstrip-rstrip (lstrip s)
