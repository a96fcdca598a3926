-- ===== src/Redis/Reference.antt =====
-- A server and a codec for the tests: the texts are a dictionary, which no command reaches while the
-- server is down.
use Prim.Native.Char.{Char, code}
use authentication_v.Base.{
  ◌≡◌, ◌⊎◌, inl, inr, refl, ap, Bool, Option, none, some, String, arith, str_eq, eq_iff, ◌==◌,
  if◌then◌else◌, Bool-cases,
}
use authentication_v.Base.Dict.{
  Dict, get as lookup, set as insert, delete as remove, get-set, get-delete,
}
use authentication_v.Kong.{ConsumerSecret}
use authentication_v.Redis.Timeout.{Settled, fulfilled, failed, done}
use authentication_v.Redis.Server.{Server, Codec}

pub record Texts : Type 0 where
  pub texts : Dict String
  pub is_up : Bool

abbrev pub answer : {A : Type 0} → Texts → A → Settled A
answer r a = if r.is_up then fulfilled a else failed "connect ECONNREFUSED 127.0.0.1:6379"

abbrev pub set_text : String → String → Texts → Texts
set_text key text r = if r.is_up then record r { texts = insert key text r.texts } else r

abbrev pub delete_text : String → Texts → Texts
delete_text key r = if r.is_up then record r { texts = remove key r.texts } else r

abbrev pub TextAt : String → String → Texts → Type 0
TextAt key text r = lookup key r.texts ≡ some text

pub text_after_set :
    (k u key t : String) (r : Texts)
    → TextAt key t (set_text k u r)
    → ((key ≡ k) × (t ≡ u)) ⊎ TextAt key t r
text_after_set k u key t r h = elim (Bool-cases (str_eq k key)) [
  | inl here ↦ elim (Bool-cases r.is_up) [
    | inl up ↦ inl (ground (arith, eq_iff k key), ground (arith, get-set k key u r.texts))
    | inr down ↦ inr (ground arith)
  ]
  | inr past ↦ inr (ground (arith, get-set k key u r.texts))
]

pub text_after_delete :
    (k key t : String) (r : Texts) → TextAt key t (delete_text k r) → TextAt key t r
text_after_delete k key t r h = ground (arith, get-delete k key r.texts)

pub text_stored :
    (key t : String) (r : Texts)
    → answer r (lookup key r.texts) ≡ fulfilled (some t)
    → TextAt key t r
text_stored key t r h = elim (Bool-cases r.is_up) [
  | inl up ↦ ground (arith, h, up)
  | inr down ↦ absurd (ground (arith, h, down))
]

abbrev pub reference_server : Server Texts
reference_server = record {
  connect = λ r. (r, answer r done);
  select = λ db r. (r, answer r done);
  ping = λ r. (r, answer r "PONG");
  get = λ key r. (r, answer r (lookup key r.texts));
  set = λ key text r. (set_text key text r, answer r done);
  expire = λ key ttl r. (r, answer r done);
  del = λ key r. (delete_text key r, answer r done);
  Stored = TextAt;
  get_stored = λ key r t h. text_stored key t r h;
  stored_before_connect = λ key t r h. h;
  stored_before_select = λ db key t r h. h;
  stored_before_ping = λ key t r h. h;
  stored_before_get = λ k key t r h. h;
  stored_before_set = λ k u key t r h. text_after_set k u key t r h;
  stored_before_expire = λ k ttl key t r h. h;
  stored_before_del = λ k key t r h. text_after_delete k key t r h;
}

-- A text in front of another one, so that it can be taken off again: each character after an `x`, and an
-- `e` at the end.
unfoldable pub put : String → String → String
put String.[] rest = String.◌∷◌ "e" rest
put (String.◌∷◌ c s) rest = String.◌∷◌ "x" (String.◌∷◌ c (put s rest))

grow : Char → Option (String × String) → Option (String × String)
grow c none = none
grow c (some (s, rest)) = some (String.◌∷◌ c s, rest)

unfoldable pub take : String → Option (String × String)
unfolding grow
take String.[] = none
take (String.◌∷◌ tag String.[]) = if code tag == 101 then some ("", "") else none
take (String.◌∷◌ tag (String.◌∷◌ c s)) =
    let more = grow c (take s) in if code tag == 101 then some ("", String.◌∷◌ c s) else more

take-put : (s rest : String) → take (put s rest) ≡ some (s, rest)
unfolding take put
take-put String.[] String.[] = refl
take-put String.[] (String.◌∷◌ c rest) = refl
take-put (String.◌∷◌ c s) rest = ap (grow c) (take-put s rest)

abbrev pub secret_of : String → String → String → Option (Option String) → ConsumerSecret
secret_of id key secret consumer = record {
  id = id;
  key = key;
  secret = secret;
  consumer = consumer;
}

abbrev pub encode_consumer : Option (Option String) → String
encode_consumer none = ""
encode_consumer (some none) = "n"
encode_consumer (some (some id)) = put id ""

abbrev pub encode : ConsumerSecret → String
encode v = put v.id (put v.key (put v.secret (encode_consumer v.consumer)))

abbrev pub decode_last :
    (Option (Option String) → ConsumerSecret) → Option (String × String) → Settled ConsumerSecret
decode_last make none = failed "JSON Parse error: Unexpected EOF"
decode_last make (some (id, rest)) = fulfilled (make (some (some id)))

abbrev pub decode_consumer :
    (Option (Option String) → ConsumerSecret) → String → Settled ConsumerSecret
decode_consumer make String.[] = fulfilled (make none)
decode_consumer make (String.◌∷◌ c s) =
    if code c == 110 then fulfilled (make (some none)) else decode_last make (take (String.◌∷◌ c s))

abbrev pub decode_field :
    (String → String → Settled ConsumerSecret) → Option (String × String) → Settled ConsumerSecret
decode_field next none = failed "JSON Parse error: Unexpected EOF"
decode_field next (some (field, rest)) = next field rest

abbrev pub decode : String → Settled ConsumerSecret
decode text =
    decode_field
      (λ id r1.
        decode_field
          (λ key r2.
            decode_field (λ secret r3. decode_consumer (secret_of id key secret) r3) (take r2))
          (take r1))
      (take text)

decode_consumer-encode :
    (make : Option (Option String) → ConsumerSecret) (consumer : Option (Option String))
    → decode_consumer make (encode_consumer consumer) ≡ fulfilled (make consumer)
unfolding take put
decode_consumer-encode make none = refl
decode_consumer-encode make (some none) = refl
decode_consumer-encode make (some (some String.[])) = refl
decode_consumer-encode make (some (some (String.◌∷◌ c s))) =
    ap (decode_last make) (take-put (String.◌∷◌ c s) "")

pub decode-encode : (v : ConsumerSecret) → decode (encode v) ≡ fulfilled v
decode-encode v =
    let last = encode_consumer v.consumer in
    rw
      (
        take-put v.id (put v.key (put v.secret last)),
        take-put v.key (put v.secret last),
        take-put v.secret last,
      )
      (decode_consumer-encode (secret_of v.id v.key v.secret) v.consumer)

abbrev pub reference_codec : Codec
reference_codec = record {
  encode = λ v. encode v;
  decode = λ t. decode t;
  decode-encode = λ v. decode-encode v;
}
