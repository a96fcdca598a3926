-- ===== src/Jwt/Base64.antt =====
-- The base64url encoding of src/services/jwt.service.ts, over the base64 of the runtime.
use authentication_v.Base.{
  ℕ, zero, suc, ◌+◌, ◌%◌, ◌≤◌, ◌≡◌, refl, ap, sym, ◌∙◌, Bool, true, ◌&&◌, ◌||◌, List, [], ◌∷◌, ◌++◌,
  arith, leb, ◌==◌,
}
use authentication_v.Jwt.Text.{Text, length, replace, remove}
use authentication_v.Jwt.Service.{
  Runtime, to_url, from_url, pad, base64url_encode_buffer, base64url_decode,
}

-- The characters of base64: letters, digits, `+` and `/`.
abbrev pub is_base64 : ℕ → Bool
is_base64 c =
    (leb 65 c && leb c 90)
    || (leb 97 c && leb c 122)
    || (leb 48 c && leb c 57)
    || c == 43
    || c == 47

abbrev pub all_base64 : Text → Bool
all_base64 [] = true
all_base64 (c ∷ t) = is_base64 c && all_base64 t

abbrev pub repeat : ℕ → Text
repeat zero = []
repeat (suc n) = 61 ∷ repeat n

-- What `Buffer` documents of base64: characters of the alphabet, then at most two `=` that make the
-- length a multiple of four; and decoding gives the bytes back.
pub record IsEncodable (runtime : Runtime) (bytes : List ℕ) : Type 0 where
  pub body : Text
  pub padding : ℕ
  pub alphabet : all_base64 body ≡ true
  pub short : padding ≤ 2
  pub whole : (length body + padding) % 4 ≡ 0
  pub encoded : runtime.to_base64 bytes ≡ body ++ repeat padding
  pub decoded : runtime.from_base64 (body ++ repeat padding) ≡ bytes

to_url-repeat : (n : ℕ) → to_url (repeat n) ≡ []
unfolding to_url replace remove
to_url-repeat zero = refl
to_url-repeat (suc n) = to_url-repeat n

-- Encoding for URLs drops the padding.
pub to_url-padded :
    (body : Text) (n : ℕ) → all_base64 body ≡ true → to_url (body ++ repeat n) ≡ to_url body
unfolding to_url replace remove
to_url-padded [] n h = to_url-repeat n
to_url-padded (c ∷ body) n h = ground (arith, h, to_url-padded body n)

pub from_url-to_url : (body : Text) → all_base64 body ≡ true → from_url (to_url body) ≡ body
unfolding to_url from_url replace remove
from_url-to_url [] h = refl
from_url-to_url (c ∷ body) h = ground (arith, h, from_url-to_url body)

append_nil : (t : Text) → t ++ [] ≡ t
append_nil [] = refl
append_nil (c ∷ t) = ap (λ (l : Text). c ∷ l) (append_nil t)

append_repeat : (t : Text) (n : ℕ) → (t ++ (61 ∷ [])) ++ repeat n ≡ t ++ repeat (suc n)
append_repeat [] n = refl
append_repeat (c ∷ t) n = ap (λ (l : Text). c ∷ l) (append_repeat t n)

length-snoc : (t : Text) (c : ℕ) → length (t ++ (c ∷ [])) ≡ length t + 1
length-snoc [] c = refl
length-snoc (d ∷ t) c = omega (arith, length-snoc t c)

-- The padding loop restores a padding that is short.
pad-whole :
    (rounds n : ℕ) (t : Text)
    → n ≤ rounds
    → n ≤ 3
    → (length t + n) % 4 ≡ 0
    → pad rounds t ≡ t ++ repeat n
unfolding pad
pad-whole zero zero t r s h = sym (append_nil t)
pad-whole zero (suc n) t r s h = absurd (omega (arith, r))
pad-whole (suc rounds) zero t r s h = ground (arith, h, append_nil t)
pad-whole (suc rounds) (suc n) t r s h =
    let rest =
      pad-whole rounds n (t ++ (61 ∷ [])) (omega (arith, r)) (omega (arith, s))
        (omega (arith, h, length-snoc t 61)) in
    ground (arith, h, s, rest, append_repeat t n)

-- What is encoded for URLs is decoded again.
pub decode-encode :
    (runtime : Runtime) (bytes : List ℕ)
    → IsEncodable runtime bytes
    → base64url_decode runtime (base64url_encode_buffer runtime bytes) ≡ bytes
unfolding base64url_decode base64url_encode_buffer
decode-encode runtime bytes e =
    let url = ap to_url e.encoded ∙ to_url-padded e.body e.padding e.alphabet in
    let text = ap from_url url ∙ from_url-to_url e.body e.alphabet in
    let padded =
      pad-whole 3 e.padding e.body (omega (arith, e.short)) (omega (arith, e.short)) e.whole in
    ap runtime.from_base64 (ap (pad 3) text ∙ padded) ∙ e.decoded
