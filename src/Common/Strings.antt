-- ===== src/Common/Strings.antt =====
-- What the program uses of Go's `strings` and `fmt`, on strings of characters. A slice is one of
-- bytes; the characters that the source looks for are ASCII, so that no slice of it ends inside a
-- character unless a name does.
use Prim.Native.Nat.{ℕ, zero, suc, ◌+◌, ◌-◌, ◌≤◌, ◌/◌, ◌%◌, compare, Ordering}
use Prim.Native.Char.{Char, code, len_utf8}
use Prim.Native.String.{String, [], ◌∷◌, ◌++◌, len, slice, fits}
use Prim.Native.String.len
use Prim.Native.String.slice
use mathlib.Core.Path.{◌≡◌, refl, ◌∙◌, ap}
use mathlib.Core.Logic.{inl, inr}
use mathlib.Core.Bool.{Bool, true, false, not, ◌&&◌, ◌||◌}
use mathlib.Core.Option.{Option, none, some}
use native.Mathlib.Nat.{add-sub_cancel_left}
use native.Mathlib.Omega.{arith}
use text.Mathlib.TextLemmas.{nil-append, cons-append}
use text.Mathlib.TextPositions.{slice_all}
use deployment_manager.Common.Tests.{leb, ltb, ◌==◌, if◌then◌else◌, Bool-cases}

-- the characters that pass a test, as ReplaceAllString(s, "") leaves them for a class of others
unfoldable pub keep_where : (ℕ → Bool) → String → String
keep_where test [] = []
keep_where test (d ∷ s) = let rest = keep_where test s in if test (code d) then d ∷ rest else rest

-- strings.Replace(s, c, "", -1) for a text of one character, given by its code
unfoldable pub remove_char : ℕ → String → String
unfolding keep_where
remove_char c = keep_where (λ d. not (d == c))

-- strings.Replace(s, c, r, -1) for a text of one character
unfoldable pub replace_char : ℕ → Char → String → String
replace_char c r [] = []
replace_char c r (d ∷ s) = (if code d == c then r else d) ∷ replace_char c r s

-- unicode.IsSpace, by code
unfoldable pub is_space : ℕ → Bool
is_space c =
    (leb 9 c && leb c 13)
    || (c == 32)
    || (c == 133)
    || (c == 160)
    || (c == 5760)
    || (leb 8192 c && leb c 8202)
    || (c == 8232)
    || (c == 8233)
    || (c == 8239)
    || (c == 8287)
    || (c == 12288)

unfoldable pub trim_left : String → String
unfolding is_space
trim_left [] = []
trim_left (c ∷ s) = let rest = trim_left s in if is_space (code c) then rest else c ∷ s

unfoldable pub trim_right : String → String
unfolding is_space
trim_right [] = []
trim_right (c ∷ s) = elim (trim_right s) [
  | [] ↦ if is_space (code c) then [] else c ∷ []
  | d ∷ rest ↦ c ∷ (d ∷ rest)
]

-- strings.TrimSpace
unfoldable pub trim_space : String → String
unfolding trim_left trim_right
trim_space s = trim_right (trim_left s)

-- strings.HasPrefix
unfoldable pub has_prefix : String → String → Bool
has_prefix s [] = true
has_prefix [] (d ∷ t) = false
has_prefix (c ∷ s) (d ∷ t) = let rest = has_prefix s t in if code c == code d then rest else false

-- s[a:b], which panics (none) past the end
unfoldable pub cut : ℕ → ℕ → String → Option String
cut a b s = if leb a b && leb b (len s) then some (slice s a b) else none

-- what is kept of a name that is too long: s[len(s)-n:]
unfoldable pub keep_end : ℕ → String → String
keep_end n s = if ltb n (len s) then slice s (len s - n) (len s) else s

abbrev digit : ℕ → String
digit n = slice "0123456789" n (n + 1)

-- on fuel: a number has fewer digits than it counts, plus one
unfoldable decimal_digits : ℕ → ℕ → String
decimal_digits zero n = ""
decimal_digits (suc fuel) n =
    let front = decimal_digits fuel (n / 10) in
    if ltb n 10 then digit n else front ++ digit (n % 10)

-- %d
unfoldable pub decimal : ℕ → String
unfolding decimal_digits
decimal n = decimal_digits (suc n) n

-- a character is kept if it fits
len-fits :
    (w b : ℕ) (c : Char) (rest : String)
    → len rest ≤ b - w
    → len_utf8 c ≡ w
    → len (fits (compare w b) c rest) ≤ b
len-fits w b c rest h e = go (compare w b) refl
  where
    go : (o : Ordering) → compare w b ≡ o → len (fits o c rest) ≤ b
    go Ordering.lt found = rw (len.cons c rest, e) (ground arith)
    go Ordering.eq found = rw (len.cons c rest, e) (ground arith)
    go Ordering.gt found = rw len.nil (omega arith)

pub len-slice : (s : String) (a b : ℕ) → len (slice s a b) ≤ b - a
len-slice [] a b = rw (slice.nil a b, len.nil) (omega arith)
len-slice (c ∷ s) zero b = rw (slice.cons-zero c s b) (
    omega (
      arith,
      len-fits (len_utf8 c) b c (slice s 0 (b - len_utf8 c))
          (ground (arith, len-slice s 0 (b - len_utf8 c))) refl,
    ))
len-slice (c ∷ s) (suc a) b =
    rw (slice.cons-suc c s a b) (omega (arith, len-slice s (suc a - len_utf8 c) (b - len_utf8 c)))

pub len-keep_end : (n : ℕ) (s : String) → len (keep_end n s) ≤ n
unfolding keep_end
len-keep_end n s = ground (arith, len-slice s (len s - n) (len s))

-- a slice up to the end is what follows something
slice-end : (s : String) (a : ℕ) → (t : String) × (t ++ slice s a (len s) ≡ s)
slice-end [] a = ([], rw (slice.nil a (len [])) (nil-append []))
slice-end (c ∷ s) zero = ([], rw (slice_all (c ∷ s)) (nil-append (c ∷ s)))
slice-end (c ∷ s) (suc a) =
    let (t, tail) = slice-end s (suc a - len_utf8 c) in
    (
      c ∷ t,
      rw
          (
            slice.cons-suc c s a (len (c ∷ s)),
            len.cons c s,
            add-sub_cancel_left (len_utf8 c) (len s),
          )
          (cons-append c t (slice s (suc a - len_utf8 c) (len s)) ∙ ap (λ u. c ∷ u) tail),
    )

-- what is kept of a name is its end
pub keep_end-suffix : (n : ℕ) (s : String) → (t : String) × (t ++ keep_end n s ≡ s)
unfolding keep_end
keep_end-suffix n s = elim (Bool-cases (ltb n (len s))) [
  | inl long ↦ rw long (slice-end s (len s - n))
  | inr short ↦ ([], rw short (nil-append s))
]

pub keep_end_short : (n : ℕ) (s : String) → len s ≤ n → keep_end n s ≡ s
unfolding keep_end
keep_end_short n s h = ground arith
