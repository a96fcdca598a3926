-- ===== src/Redis/Broken.antt =====
-- Which messages src/utils/cache-error-detector.ts takes for those of a broken connection, told without its
-- table and without regular expressions that are run.
use Prim.Native.String.{String}
use authentication_v.Base.{
  ℕ, ◌≡◌, ◌⊎◌, ◌↔◌, inl, inr, refl, ap, sym, ◌∙◌, subst, Bool, true, false, ◌||◌, List, [], ◌∷◌,
  ◌++◌, arith, str_eq, eq_iff, Bool-cases,
}
use authentication_v.Redis.Detector.{
  codes, lower_all, Piece, word, spaces, optional, strip, matches_here, occurs, occurs_any, Pattern,
  includes, regex, matches, ErrorPattern, connection_patterns, is_connection_error,
  is_recoverable_error, detect_cache_error,
}
use authentication_v.Redis.Matching.{
  letters, letters-codes, IsLowered, StandsIn, lowered, lowered_unique, occurs-StandsIn,
  StandsIn-occurs,
}
use authentication_v.Redis.Messages.{any_matches, is_connection_error_iff}

-- The codes of broken connections.
abbrev pub broken_codes : List String
broken_codes =
    "ERR_REDIS_CONNECTION_CLOSED" ∷ "EPIPE" ∷ "ENOTCONN" ∷ "ECONNRESET" ∷ "ECONNREFUSED"
    ∷ "ETIMEDOUT" ∷ "EHOSTUNREACH" ∷ "ENETUNREACH" ∷ "EADDRNOTAVAIL" ∷ "ENETDOWN" ∷ "ENOENT" ∷ []

abbrev two : String → String → List Piece
two a b = word (letters a) ∷ spaces ∷ word (letters b) ∷ []

-- The phrases of broken connections.
abbrev pub broken_phrases : List (List Piece)
broken_phrases =
    two "connection" "closed"
    ∷ two "connection" "lost"
    ∷ two "socket" "closed"
    ∷ (word (letters "socket") ∷ spaces ∷ two "hang" "up")
    ∷ two "broken" "pipe"
    ∷ two "read" "econnreset"
    ∷ two "connection" "reset"
    ∷ two "connection" "timeout"
    ∷ (word (letters "operation")
        ∷ spaces
        ∷ word (letters "time")
        ∷ optional 100
        ∷ spaces
        ∷ word (letters "out")
        ∷ [])
    ∷ []

abbrev pub SomeCode : List String → String → Type 0
SomeCode [] m = ⊥
SomeCode (c ∷ cs) m = StandsIn (word (letters c) ∷ []) (letters m) ⊎ SomeCode cs m

abbrev pub SomePhrase : List (List Piece) → List ℕ → Type 0
SomePhrase [] t = ⊥
SomePhrase (ps ∷ pss) t = StandsIn ps t ⊎ SomePhrase pss t

-- The message has one of the codes, or, in lower case, one of the phrases.
abbrev pub IsBroken : String → Type 0
IsBroken m =
    SomeCode broken_codes m
    ⊎ ((low : List ℕ) × IsLowered (letters m) low × SomePhrase broken_phrases low)

abbrev add_code : Pattern → List String → List String
add_code (includes text) rest = text ∷ rest
add_code (regex alternatives) rest = rest

abbrev add_phrases : Pattern → List (List Piece) → List (List Piece)
add_phrases (includes text) rest = rest
add_phrases (regex alternatives) rest = alternatives ++ rest

-- The codes and the phrases of a table.
abbrev codes_in : List ErrorPattern → List String
codes_in [] = []
codes_in (p ∷ ps) = add_code p.pattern (codes_in ps)

abbrev phrases_in : List ErrorPattern → List (List Piece)
phrases_in [] = []
phrases_in (p ∷ ps) = add_phrases p.pattern (phrases_in ps)

-- Whether a message has one of the codes.
abbrev has_code : List String → String → Bool
has_code [] m = false
has_code (c ∷ cs) m = occurs (word (codes c) ∷ []) (codes m) || has_code cs m

occurs_any-append :
    (a b : List (List Piece)) (t : List ℕ)
    → occurs_any (a ++ b) t ≡ (occurs_any a t || occurs_any b t)
unfolding occurs_any
occurs_any-append [] b t = refl
occurs_any-append (ps ∷ a) b t = ground (arith, occurs_any-append a b t)

split_pattern :
    (p : Pattern) (cs : List String) (pss : List (List Piece)) (m : String)
    → (matches p m || (has_code cs m || occurs_any pss (lower_all (codes m))))
      ≡ (has_code (add_code p cs) m || occurs_any (add_phrases p pss) (lower_all (codes m)))
unfolding matches
split_pattern (includes text) cs pss m = ground arith
split_pattern (regex alternatives) cs pss m =
    ground (arith, occurs_any-append alternatives pss (lower_all (codes m)))

-- A table matches where one of its codes or of its phrases does.
any_matches-split :
    (ps : List ErrorPattern) (m : String)
    → any_matches ps m
      ≡ (has_code (codes_in ps) m || occurs_any (phrases_in ps) (lower_all (codes m)))
unfolding occurs_any
any_matches-split [] m = refl
any_matches-split (p ∷ ps) m =
    ap (λ (b : Bool). matches p.pattern m || b) (any_matches-split ps m)
    ∙ split_pattern p.pattern (codes_in ps) (phrases_in ps) m

or_cases : (a b : Bool) → (a || b) ≡ true → (a ≡ true) ⊎ (b ≡ true)
or_cases true b h = inl refl
or_cases false b h = inr h

or_intro : (a b : Bool) → (a ≡ true) ⊎ (b ≡ true) → (a || b) ≡ true
or_intro a b h = ground (arith, h)

has_code-SomeCode : (cs : List String) (m : String) → has_code cs m ≡ true → SomeCode cs m
has_code-SomeCode [] m h = absurd (cc h)
has_code-SomeCode (c ∷ cs) m h = elim (Bool-cases (occurs (word (codes c) ∷ []) (codes m))) [
  | inl here ↦
      inl (
        rw (letters-codes c, letters-codes m)
          (occurs-StandsIn (word (codes c) ∷ []) (codes m) here))
  | inr past ↦ inr (has_code-SomeCode cs m (ground (arith, h, past)))
]

SomeCode-has_code : (cs : List String) (m : String) → SomeCode cs m → has_code cs m ≡ true
SomeCode-has_code [] m x = elim x [ ]
SomeCode-has_code (c ∷ cs) m (inl here) =
    let there : StandsIn (word (codes c) ∷ []) (codes m) =
      subst (λ (l : List ℕ). StandsIn (word l ∷ []) (codes m)) (letters-codes c)
        (subst (λ (l : List ℕ). StandsIn (word (letters c) ∷ []) l) (letters-codes m) here) in
    or_intro (occurs (word (codes c) ∷ []) (codes m)) (has_code cs m)
      (inl (StandsIn-occurs (word (codes c) ∷ []) (codes m) there))
SomeCode-has_code (c ∷ cs) m (inr later) = ground (arith, SomeCode-has_code cs m later)

occurs_any-SomePhrase :
    (pss : List (List Piece)) (t : List ℕ) → occurs_any pss t ≡ true → SomePhrase pss t
unfolding occurs_any
occurs_any-SomePhrase [] t h = absurd (cc h)
occurs_any-SomePhrase (ps ∷ pss) t h = elim (Bool-cases (occurs ps t)) [
  | inl here ↦ inl (occurs-StandsIn ps t here)
  | inr past ↦ inr (occurs_any-SomePhrase pss t (ground (arith, h, past)))
]

SomePhrase-occurs_any :
    (pss : List (List Piece)) (t : List ℕ) → SomePhrase pss t → occurs_any pss t ≡ true
unfolding occurs_any
SomePhrase-occurs_any [] t x = elim x [ ]
SomePhrase-occurs_any (ps ∷ pss) t (inl here) = ground (arith, StandsIn-occurs ps t here)
SomePhrase-occurs_any (ps ∷ pss) t (inr later) = ground (arith, SomePhrase-occurs_any pss t later)

empty-refused : any_matches connection_patterns "" ≡ is_connection_error ""
unfolding is_connection_error detect_cache_error matches occurs_any occurs matches_here strip
empty-refused = refl

empty-unmatched : any_matches connection_patterns "" ≡ false
unfolding matches occurs_any occurs matches_here strip
empty-unmatched = refl

matched : (m : String) → is_connection_error m ≡ any_matches connection_patterns m
matched m = elim (Bool-cases (str_eq m "")) [
  | inl empty ↦
      subst (λ (t : String). is_connection_error t ≡ any_matches connection_patterns t)
        (sym ((eq_iff m "").0 empty)) (sym empty-refused)
  | inr other ↦ (is_connection_error_iff m (λ e. ground (arith, e, other, eq_iff m ""))).0
]

message_iff : (m : String) → (is_connection_error m ≡ true) ↔ IsBroken m
message_iff m =
    let low = lower_all (codes m) in
    let in_lower =
      subst (λ (t : List ℕ). IsLowered t low) (sym (letters-codes m)) (lowered (codes m)) in
    let coded = has_code broken_codes m in
    let phrased = occurs_any broken_phrases low in
    let whole : is_connection_error m ≡ (coded || phrased) =
      matched m ∙ any_matches-split connection_patterns m in
    (
      λ h. elim (or_cases coded phrased (sym whole ∙ h)) [
        | inl code ↦ inl (has_code-SomeCode broken_codes m code)
        | inr phrase ↦ inr (low, in_lower, occurs_any-SomePhrase broken_phrases low phrase)
      ],
      λ broken.
          whole
          ∙ or_intro coded phrased (elim broken [
            | inl code ↦ inl (SomeCode-has_code broken_codes m code)
            | inr (l, lowers, phrase) ↦ inr (
                SomePhrase-occurs_any broken_phrases low (
                  subst (SomePhrase broken_phrases)
                    (lowered_unique (codes m) l
                      (subst (λ (t : List ℕ). IsLowered t l) (letters-codes m) lowers))
                    phrase))
          ]),
    )

recovers : (m : String) → is_connection_error m ≡ true → is_recoverable_error m ≡ true
recovers m h = elim (Bool-cases (str_eq m "")) [
  | inl empty ↦
      let none_here : is_connection_error "" ≡ false = sym empty-refused ∙ empty-unmatched in
      let here = subst (λ (t : String). is_connection_error t ≡ true) ((eq_iff m "").0 empty) h in
      absurd (cc (none_here, here))
  | inr other ↦ (is_connection_error_iff m (λ e. ground (arith, e, other, eq_iff m ""))).1 h
]

-- A message is one of a broken connection exactly when it has one of the eleven codes, or when it has, its
-- letters taken in lower case, one of the nine phrases, with any white space or none between their words;
-- and then the error is recoverable.
pub is_connection_error-IsBroken :
    (m : String)
    → ((is_connection_error m ≡ true) ↔ IsBroken m) × (IsBroken m → is_recoverable_error m ≡ true)
is_connection_error-IsBroken m = (message_iff m, λ broken. recovers m ((message_iff m).1 broken))
