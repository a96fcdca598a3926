-- ===== src/Redis/Matching.antt =====
-- What the regular expressions of src/utils/cache-error-detector.ts mean, without running them, and that the
-- matcher of Detector finds what they mean.
use Prim.Native.Char.{code}
use Prim.Native.String.{String}
use authentication_v.Base.{
  ℕ, ◌+◌, ◌≤◌, ◌≡◌, ◌⊎◌, inl, inr, refl, ap, Bool, true, ◌&&◌, Option, none, some, List, [], ◌∷◌,
  ◌++◌, arith, ◌==◌, Bool-cases,
}
use authentication_v.Redis.Detector.{
  codes, lower_all, to_lower, is_space, Piece, word, spaces, optional, strip, matches_here, occurs,
}

-- A character of white space, as the regular expressions of JavaScript count it.
abbrev pub IsSpace : ℕ → Type 0
IsSpace c =
    ((9 ≤ c) × (c ≤ 13))
    ⊎ (c ≡ 32)
    ⊎ (c ≡ 160)
    ⊎ (c ≡ 5760)
    ⊎ ((8192 ≤ c) × (c ≤ 8202))
    ⊎ (c ≡ 8232)
    ⊎ (c ≡ 8233)
    ⊎ (c ≡ 8239)
    ⊎ (c ≡ 8287)
    ⊎ (c ≡ 12288)
    ⊎ (c ≡ 65279)

abbrev pub AllSpace : List ℕ → Type 0
AllSpace [] = Unit
AllSpace (c ∷ cs) = IsSpace c × AllSpace cs

-- The second text is the first one with its letters from A to Z in lower case.
abbrev pub IsLowered : List ℕ → List ℕ → Type 0
IsLowered [] [] = Unit
IsLowered [] (d ∷ ds) = ⊥
IsLowered (c ∷ cs) [] = ⊥
IsLowered (c ∷ cs) (d ∷ ds) =
    (((65 ≤ c) × (c ≤ 90) × (d ≡ c + 32)) ⊎ (((c ≤ 64) ⊎ (91 ≤ c)) × (d ≡ c))) × IsLowered cs ds

-- The characters of a text, as numbers.
abbrev pub letters : String → List ℕ
letters String.[] = []
letters (String.◌∷◌ c s) = code c ∷ letters s

-- A text begins with the pieces: with the word, with any white space, with or without the character.
unfoldable pub Begins : List Piece → List ℕ → Type 0
Begins [] t = Unit
Begins (word w ∷ ps) t = (rest : List ℕ) × (t ≡ w ++ rest) × Begins ps rest
Begins (spaces ∷ ps) t =
    (gap : List ℕ) × (rest : List ℕ) × AllSpace gap × (t ≡ gap ++ rest) × Begins ps rest
Begins (optional c ∷ ps) t = Begins ps t ⊎ ((rest : List ℕ) × (t ≡ c ∷ rest) × Begins ps rest)

-- The pieces stand somewhere in a text.
abbrev pub StandsIn : List Piece → List ℕ → Type 0
StandsIn ps t = (front : List ℕ) × (rest : List ℕ) × (t ≡ front ++ rest) × Begins ps rest

pub letters-codes : (s : String) → letters s ≡ codes s
letters-codes String.[] = refl
letters-codes (String.◌∷◌ c s) = ap (λ (l : List ℕ). code c ∷ l) (letters-codes s)

tested_white : (c : ℕ) → is_space c ≡ true → IsSpace c
tested_white c h = ground (arith, h)

white_tested : (c : ℕ) → IsSpace c → is_space c ≡ true
white_tested c h = ground (arith, h)

pub lowered : (t : List ℕ) → IsLowered t (lower_all t)
lowered [] = tt
lowered (c ∷ t) = (ground arith, lowered t)

pub lowered_unique : (t low : List ℕ) → IsLowered t low → low ≡ lower_all t
lowered_unique [] [] h = refl
lowered_unique [] (d ∷ low) h = absurd h
lowered_unique (c ∷ t) [] h = absurd h
lowered_unique (c ∷ t) (d ∷ low) (h, k) =
    let same : d ≡ to_lower c = ground (arith, h) in rw (same, lowered_unique t low k) refl

strip-word : (w t r : List ℕ) → strip w t ≡ some r → t ≡ w ++ r
unfolding strip
strip-word [] t r h = cc h
strip-word (c ∷ w) [] r h = absurd (cc h)
strip-word (c ∷ w) (d ∷ t) r h = elim (Bool-cases (c == d)) [
  | inl same ↦
      let rest : t ≡ w ++ r = strip-word w t r (ground (arith, h, same)) in
      let head : d ≡ c = ground (arith, same) in rw (rest, head) refl
  | inr other ↦ absurd (ground (arith, h, other))
]

word-strip : (w r : List ℕ) → strip w (w ++ r) ≡ some r
unfolding strip
word-strip [] r = refl
word-strip (c ∷ w) r = ground (arith, word-strip w r)

and_left : (a b : Bool) → (a && b) ≡ true → a ≡ true
and_left a b h = ground (arith, h)

and_right : (a b : Bool) → (a && b) ≡ true → b ≡ true
and_right a b h = ground (arith, h)

-- One more character of white space in the gap, and the character that may lack.
widen :
    (c : ℕ) (ps : List Piece) (t : List ℕ)
    → IsSpace c
    → Begins (spaces ∷ ps) t
    → Begins (spaces ∷ ps) (c ∷ t)
unfolding Begins
widen c ps t k (gap, rest, spaced, same, b) =
    (c ∷ gap, rest, (k, spaced), ap (λ (l : List ℕ). c ∷ l) same, b)

letter :
    (c d : ℕ) (t : List ℕ) (ps : List Piece)
    → d ≡ c
    → Begins ps t
    → (rest : List ℕ) × (d ∷ t ≡ c ∷ rest) × Begins ps rest
letter c d t ps same b = (t, ap (λ (x : ℕ). x ∷ t) same, b)

module _ (ps : List Piece) (ih : (t : List ℕ) → matches_here ps t ≡ true → Begins ps t) where
  word-Begins : (w t : List ℕ) → matches_here (word w ∷ ps) t ≡ true → Begins (word w ∷ ps) t
  unfolding matches_here Begins
  word-Begins w t h =
      elim (strip w t) as (λ (o : Option (List ℕ)). strip w t ≡ o → Begins (word w ∷ ps) t) [
        | none ↦ λ q. absurd (ground (arith, h, q))
        | some r ↦ λ q. (r, strip-word w t r q, ih r (ground (arith, h, q)))
      ]
        refl

  spaces-Begins : (t : List ℕ) → matches_here (spaces ∷ ps) t ≡ true → Begins (spaces ∷ ps) t
  unfolding matches_here Begins
  spaces-Begins [] h = ([], [], tt, refl, ih [] h)
  spaces-Begins (c ∷ t) h = elim (Bool-cases (matches_here ps (c ∷ t))) [
    | inl here ↦ ([], c ∷ t, tt, refl, ih (c ∷ t) here)
    | inr past ↦
        let both : (is_space c && matches_here (spaces ∷ ps) t) ≡ true = ground (arith, h, past) in
        let white : is_space c ≡ true = and_left (is_space c) (matches_here (spaces ∷ ps) t) both in
        widen c ps t (tested_white c white)
          (spaces-Begins t (and_right (is_space c) (matches_here (spaces ∷ ps) t) both))
  ]

  optional-Begins :
      (c : ℕ) (t : List ℕ) → matches_here (optional c ∷ ps) t ≡ true → Begins (optional c ∷ ps) t
  unfolding matches_here Begins
  optional-Begins c [] h = inl (ih [] h)
  optional-Begins c (d ∷ t) h = elim (Bool-cases (matches_here ps (d ∷ t))) [
    | inl without ↦ inl (ih (d ∷ t) without)
    | inr with_it ↦
        inr (letter c d t ps (ground (arith, h, with_it)) (ih t (ground (arith, h, with_it))))
  ]

-- The matcher finds the pieces at the start of a text only where the text begins with them.
matches-Begins : (ps : List Piece) (t : List ℕ) → matches_here ps t ≡ true → Begins ps t
unfolding Begins
matches-Begins [] t h = tt
matches-Begins (word w ∷ ps) t h = word-Begins ps (matches-Begins ps) w t h
matches-Begins (spaces ∷ ps) t h = spaces-Begins ps (matches-Begins ps) t h
matches-Begins (optional c ∷ ps) t h = optional-Begins ps (matches-Begins ps) c t h

spaces-matches :
    (ps : List Piece) (gap rest : List ℕ)
    → AllSpace gap
    → matches_here ps rest ≡ true
    → matches_here (spaces ∷ ps) (gap ++ rest) ≡ true
unfolding matches_here
spaces-matches ps [] [] k h = h
spaces-matches ps [] (c ∷ rest) k h = ground (arith, h)
spaces-matches ps (c ∷ gap) rest (k, ks) h =
    ground (arith, white_tested c k, spaces-matches ps gap rest ks h)

optional-matches :
    (c : ℕ) (ps : List Piece) (t : List ℕ)
    → matches_here ps t ≡ true
    → matches_here (optional c ∷ ps) t ≡ true
unfolding matches_here
optional-matches c ps [] h = h
optional-matches c ps (d ∷ t) h = ground (arith, h)

word-matches :
    (w : List ℕ) (ps : List Piece) (rest : List ℕ)
    → matches_here ps rest ≡ true
    → matches_here (word w ∷ ps) (w ++ rest) ≡ true
unfolding matches_here
word-matches w ps rest h = ground (arith, word-strip w rest, h)

Begins-matches : (ps : List Piece) (t : List ℕ) → Begins ps t → matches_here ps t ≡ true
unfolding matches_here Begins
Begins-matches [] t b = refl
Begins-matches (word w ∷ ps) t (rest, same, b) =
    rw same (word-matches w ps rest (Begins-matches ps rest b))
Begins-matches (spaces ∷ ps) t (gap, rest, spaced, same, b) =
    rw same (spaces-matches ps gap rest spaced (Begins-matches ps rest b))
Begins-matches (optional c ∷ ps) t (inl b) = optional-matches c ps t (Begins-matches ps t b)
Begins-matches (optional c ∷ ps) t (inr (rest, same, b)) =
    rw same (ground (arith, Begins-matches ps rest b))

later : (c : ℕ) (ps : List Piece) (t : List ℕ) → StandsIn ps t → StandsIn ps (c ∷ t)
later c ps t (front, rest, same, b) = (c ∷ front, rest, ap (λ (l : List ℕ). c ∷ l) same, b)

pub occurs-StandsIn : (ps : List Piece) (t : List ℕ) → occurs ps t ≡ true → StandsIn ps t
unfolding occurs
occurs-StandsIn ps [] h = ([], [], refl, matches-Begins ps [] h)
occurs-StandsIn ps (c ∷ t) h = elim (Bool-cases (matches_here ps (c ∷ t))) [
  | inl here ↦ ([], c ∷ t, refl, matches-Begins ps (c ∷ t) here)
  | inr past ↦ later c ps t (occurs-StandsIn ps t (ground (arith, h, past)))
]

here-occurs : (ps : List Piece) (t : List ℕ) → matches_here ps t ≡ true → occurs ps t ≡ true
unfolding occurs
here-occurs ps [] h = h
here-occurs ps (c ∷ t) h = ground (arith, h)

front-occurs :
    (ps : List Piece) (front rest : List ℕ)
    → matches_here ps rest ≡ true
    → occurs ps (front ++ rest) ≡ true
unfolding occurs
front-occurs ps [] rest h = here-occurs ps rest h
front-occurs ps (c ∷ front) rest h = ground (arith, front-occurs ps front rest h)

pub StandsIn-occurs : (ps : List Piece) (t : List ℕ) → StandsIn ps t → occurs ps t ≡ true
StandsIn-occurs ps t (front, rest, same, b) =
    rw same (front-occurs ps front rest (Begins-matches ps rest b))
