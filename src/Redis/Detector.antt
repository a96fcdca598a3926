-- ===== src/Redis/Detector.antt =====
-- `detectCacheError` of src/utils/cache-error-detector.ts, with the regular expressions that it uses.
use Prim.Native.Char.{code}
use Prim.Native.String.{String}
use authentication_v.Base.{
  ℕ, ◌+◌, Bool, true, false, ◌&&◌, ◌||◌, Option, none, some, List, [], ◌∷◌, leb, ◌==◌, ◌++◌, str_eq,
  if◌then◌else◌,
}

pub data Category : Type 0 where
  connection_closed connection_refused connection_timeout connection_reset : Category
  network_error readonly_mode server_busy unknown : Category

-- The characters of a text, as numbers.
abbrev pub codes : String → List ℕ
codes String.[] = []
codes (String.◌∷◌ c s) = code c ∷ codes s

abbrev pub to_lower : ℕ → ℕ
to_lower c = if leb 65 c && leb c 90 then c + 32 else c

abbrev pub lower_all : List ℕ → List ℕ
lower_all [] = []
lower_all (c ∷ cs) = to_lower c ∷ lower_all cs

-- `\s`
abbrev pub is_space : ℕ → Bool
is_space c =
    (leb 9 c && leb c 13)
    || c == 32
    || c == 160
    || c == 5760
    || (leb 8192 c && leb c 8202)
    || c == 8232
    || c == 8233
    || c == 8239
    || c == 8287
    || c == 12288
    || c == 65279

-- A piece of a regular expression: a word, `\s*`, or a character with `?`.
pub data Piece : Type 0 where
  word : List ℕ → Piece
  spaces : Piece
  optional : ℕ → Piece

-- What is left of a text after a word at its start.
unfoldable pub strip : List ℕ → List ℕ → Option (List ℕ)
strip [] t = some t
strip (c ∷ w) [] = none
strip (c ∷ w) (d ∷ t) = let rest = strip w t in if c == d then rest else none

-- Whether the pieces match at the start of a text.
unfoldable pub matches_here : List Piece → List ℕ → Bool
unfolding strip
matches_here [] t = true
matches_here (word w ∷ ps) t = elim (strip w t) [ none ↦ false | some rest ↦ matches_here ps rest ]
matches_here (spaces ∷ ps) [] = matches_here ps []
matches_here (spaces ∷ ps) (c ∷ t) =
    let here = matches_here ps (c ∷ t) in
    let past = matches_here (spaces ∷ ps) t in here || (is_space c && past)
matches_here (optional c ∷ ps) [] = matches_here ps []
matches_here (optional c ∷ ps) (d ∷ t) =
    let without = matches_here ps (d ∷ t) in
    let with_it = matches_here ps t in without || (c == d && with_it)

-- Whether the pieces match somewhere.
unfoldable pub occurs : List Piece → List ℕ → Bool
unfolding matches_here
occurs ps [] = matches_here ps []
occurs ps (c ∷ t) = let later = occurs ps t in matches_here ps (c ∷ t) || later

-- A pattern of the table: `message.includes(text)`, or a regular expression with the flag `i`, given
-- by its alternatives in lower case.
pub data Pattern : Type 0 where
  includes : String → Pattern
  regex : List (List Piece) → Pattern

unfoldable pub occurs_any : List (List Piece) → List ℕ → Bool
unfolding occurs
occurs_any [] t = false
occurs_any (ps ∷ alternatives) t = occurs ps t || occurs_any alternatives t

unfoldable pub matches : Pattern → String → Bool
unfolding occurs_any occurs
matches (includes text) message = occurs (word (codes text) ∷ []) (codes message)
matches (regex alternatives) message = occurs_any alternatives (lower_all (codes message))

-- `ErrorPattern`
pub record ErrorPattern : Type 0 where
  pub pattern : Pattern
  pub category : Category
  pub is_recoverable : Bool
  pub should_reconnect : Bool

abbrev reconnecting : Category → Pattern → ErrorPattern
reconnecting category pattern = record {
  pattern = pattern;
  category = category;
  is_recoverable = true;
  should_reconnect = true;
}

abbrev staying : Category → Bool → Pattern → ErrorPattern
staying category is_recoverable pattern = record {
  pattern = pattern;
  category = category;
  is_recoverable = is_recoverable;
  should_reconnect = false;
}

abbrev w : String → Piece
w text = word (codes text)

-- The patterns that ask for a reconnection, which stand first in the table.
abbrev pub connection_patterns : List ErrorPattern
connection_patterns =
    reconnecting connection_closed (includes "ERR_REDIS_CONNECTION_CLOSED")
    ∷ reconnecting connection_closed (includes "EPIPE")
    ∷ reconnecting connection_closed (includes "ENOTCONN")
    ∷ reconnecting connection_closed (
        regex (
          (w "connection" ∷ spaces ∷ w "closed" ∷ [])
          ∷ (w "connection" ∷ spaces ∷ w "lost" ∷ [])
          ∷ []))
    ∷ reconnecting connection_closed (
        regex (
          (w "socket" ∷ spaces ∷ w "closed" ∷ [])
          ∷ (w "socket" ∷ spaces ∷ w "hang" ∷ spaces ∷ w "up" ∷ [])
          ∷ []))
    ∷ reconnecting connection_closed (regex ((w "broken" ∷ spaces ∷ w "pipe" ∷ []) ∷ []))
    ∷ reconnecting connection_reset (includes "ECONNRESET")
    ∷ reconnecting connection_reset (regex ((w "read" ∷ spaces ∷ w "econnreset" ∷ []) ∷ []))
    ∷ reconnecting connection_reset (regex ((w "connection" ∷ spaces ∷ w "reset" ∷ []) ∷ []))
    ∷ reconnecting connection_refused (includes "ECONNREFUSED")
    ∷ reconnecting connection_timeout (includes "ETIMEDOUT")
    ∷ reconnecting connection_timeout (regex ((w "connection" ∷ spaces ∷ w "timeout" ∷ []) ∷ []))
    ∷ reconnecting connection_timeout
        (regex ((w "operation" ∷ spaces ∷ w "time" ∷ optional 100 ∷ spaces ∷ w "out" ∷ []) ∷ []))
    ∷ reconnecting network_error (includes "EHOSTUNREACH")
    ∷ reconnecting network_error (includes "ENETUNREACH")
    ∷ reconnecting network_error (includes "EADDRNOTAVAIL")
    ∷ reconnecting network_error (includes "ENETDOWN")
    ∷ reconnecting network_error (includes "ENOENT")
    ∷ []

-- The patterns of answers of a server that is there.
abbrev pub server_patterns : List ErrorPattern
server_patterns =
    staying readonly_mode false (regex ((w "readonly" ∷ []) ∷ []))
    ∷ staying server_busy true (regex ((w "loading" ∷ []) ∷ []))
    ∷ staying server_busy true (regex ((w "busy" ∷ []) ∷ []))
    ∷ staying server_busy true (regex ((w "clusterdown" ∷ []) ∷ []))
    ∷ []

-- `ERROR_PATTERNS`
abbrev pub error_patterns : List ErrorPattern
error_patterns = connection_patterns ++ server_patterns

-- `CacheErrorInfo`, without the message, which is the one given.
pub record ErrorInfo : Type 0 where
  pub category : Category
  pub is_recoverable : Bool
  pub should_reconnect : Bool

abbrev pub unknown_error : ErrorInfo
unknown_error = record { category = unknown; is_recoverable = false; should_reconnect = false }

-- The loop over the table: the first pattern that matches decides.
unfoldable pub first_match : List ErrorPattern → String → ErrorInfo
first_match [] message = unknown_error
first_match (p ∷ ps) message =
    let rest = first_match ps message in
    if matches p.pattern message
    then record {
      category = p.category;
      is_recoverable = p.is_recoverable;
      should_reconnect = p.should_reconnect;
    }
    else rest

-- The message of the error, which is the empty text where it has none.
unfoldable pub detect_cache_error : String → ErrorInfo
detect_cache_error message =
    if str_eq message "" then unknown_error else first_match error_patterns message

unfoldable pub is_connection_error : String → Bool
is_connection_error message = (detect_cache_error message).should_reconnect

unfoldable pub is_recoverable_error : String → Bool
is_recoverable_error message = (detect_cache_error message).is_recoverable
