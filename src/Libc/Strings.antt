-- ===== src/Libc/Strings.antt =====
-- C strings, as the bytes before their NUL: strncmp and strcmp against a literal, and strtok.
use Prim.Native.Char.{code}
use Prim.Native.String.{String}
use lancet_tool.Base.{
  ℕ, ◌≡◌, refl, List, [], ◌∷◌, ◌++◌, Option, some, none, Bool, true, false, ◌&&◌, ◌==◌,
  if◌then◌else◌, ==_of_ne, ==_refl,
}
use lancet_tool.Libc.Decimal.{AllNe}

-- The bytes of a literal.
abbrev pub codes : String → List ℕ
codes String.[] = []
codes (String.◌∷◌ c s) = code c ∷ codes s

-- `strncmp(s, p, strlen(p)) == 0`
unfoldable pub is_prefix : (p s : List ℕ) → Bool
is_prefix [] s = true
is_prefix (c ∷ p) [] = false
is_prefix (c ∷ p) (x ∷ s) = (x == c) && is_prefix p s

-- `strcmp(s, t) == 0`
unfoldable pub same_text : (s t : List ℕ) → Bool
same_text [] [] = true
same_text [] (y ∷ t) = false
same_text (x ∷ s) [] = false
same_text (x ∷ s) (y ∷ t) = (x == y) && same_text s t

-- A text up to the first `d`, and what is behind that.
unfoldable pub field : (d : ℕ) (s : List ℕ) → List ℕ × List ℕ
field d [] = ([], [])
field d (c ∷ s) = let later = field d s in if c == d then ([], s) else (c ∷ later.0, later.1)

-- `strtok` and `strtok_r` with the one delimiter `d`: the next token, and the text that is left;
-- `none` for NULL.
unfoldable pub token : (d : ℕ) (s : List ℕ) → Option (List ℕ × List ℕ)
unfolding field
token d [] = none
token d (c ∷ s) = let later = token d s in if c == d then later else some (field d (c ∷ s))

-- What a call of strtok gives, and what the next call goes on with.
unfoldable pub next_token : ℕ → List ℕ → Option (List ℕ) × List ℕ
unfolding token
next_token d s = elim (token d s) [ none ↦ (none, []) | some found ↦ (some found.0, found.1) ]

pub field-found : (d : ℕ) (w rest : List ℕ) → AllNe d w → field d (w ++ d ∷ rest) ≡ (w, rest)
unfolding field
field-found d [] rest h = rw (==_refl d) refl
field-found d (c ∷ w) rest (h, hs) = rw (==_of_ne c d h, field-found d w rest hs) refl

pub field-last : (d : ℕ) (w : List ℕ) → AllNe d w → field d w ≡ (w, [])
unfolding field
field-last d [] h = refl
field-last d (c ∷ w) (h, hs) = rw (==_of_ne c d h, field-last d w hs) refl

-- A token that a delimiter ends, and the last one.
token-found :
    (d c : ℕ) (w rest : List ℕ) → AllNe d (c ∷ w) → token d (c ∷ w ++ d ∷ rest) ≡ some (c ∷ w, rest)
unfolding token field
token-found d c w rest (h, hs) = rw (==_of_ne c d h, field-found d w rest hs) refl

token-last : (d c : ℕ) (w : List ℕ) → AllNe d (c ∷ w) → token d (c ∷ w) ≡ some (c ∷ w, [])
unfolding token field
token-last d c w (h, hs) = rw (==_of_ne c d h, field-last d w hs) refl

pub next_token-found :
    (d c : ℕ) (w rest : List ℕ)
    → AllNe d (c ∷ w)
    → next_token d (c ∷ w ++ d ∷ rest) ≡ (some (c ∷ w), rest)
unfolding next_token
next_token-found d c w rest h = rw (token-found d c w rest h, next_token) refl

pub next_token-last :
    (d c : ℕ) (w : List ℕ) → AllNe d (c ∷ w) → next_token d (c ∷ w) ≡ (some (c ∷ w), [])
unfolding next_token
next_token-last d c w h = rw (token-last d c w h, next_token) refl

-- A prefix is found in front of anything.
pub is_prefix-append : (p s : List ℕ) → is_prefix p (p ++ s) ≡ true
unfolding is_prefix
is_prefix-append [] s = refl
is_prefix-append (c ∷ p) s = rw (==_refl c) (is_prefix-append p s)

pub next_token-nil : (d : ℕ) → next_token d [] ≡ (none, [])
unfolding next_token
next_token-nil d = refl
