-- ===== src/Redis/Server.antt =====
-- The Redis server and the codec of the values, as far as src/services/cache/shared-redis-cache.ts relies
-- on them: parameters, with the documented behaviour as laws.
use authentication_v.Base.{ℕ, ◌≡◌, ◌⊎◌, Option, some, String}
use authentication_v.Kong.{ConsumerSecret}
use authentication_v.Redis.Timeout.{Settled, fulfilled, Done}

-- A connection to a server with the states `R`. Each command ends with a reply or with an error, and a
-- command that ends with an error may have changed the state all the same. `Stored` tells the text that
-- the server keeps under a key: only a SET of the key makes it store another one.
pub record Server (R : Type 0) : Type 1 where
  pub connect : R → R × Settled Done
  pub select : ℕ → R → R × Settled Done
  pub ping : R → R × Settled String
  pub get : String → R → R × Settled (Option String)
  pub set : String → String → R → R × Settled Done
  pub expire : String → ℕ → R → R × Settled Done
  pub del : String → R → R × Settled Done
  pub Stored : String → String → R → Type 0
  pub get_stored :
      (key : String) (r : R) (t : String) → (get key r).1 ≡ fulfilled (some t) → Stored key t r
  pub stored_before_connect : (key t : String) (r : R) → Stored key t (connect r).0 → Stored key t r
  pub stored_before_select :
      (db : ℕ) (key t : String) (r : R) → Stored key t (select db r).0 → Stored key t r
  pub stored_before_ping : (key t : String) (r : R) → Stored key t (ping r).0 → Stored key t r
  pub stored_before_get : (k key t : String) (r : R) → Stored key t (get k r).0 → Stored key t r
  pub stored_before_set :
      (k u key t : String) (r : R)
      → Stored key t (set k u r).0
      → ((key ≡ k) × (t ≡ u)) ⊎ Stored key t r
  pub stored_before_expire :
      (k : String) (ttl : ℕ) (key t : String) (r : R)
      → Stored key t (expire k ttl r).0
      → Stored key t r
  pub stored_before_del : (k key t : String) (r : R) → Stored key t (del k r).0 → Stored key t r

-- `JSON.stringify`, and `JSON.parse` with the lenient schema of the secrets after it.
pub record Codec : Type 0 where
  pub encode : ConsumerSecret → String
  pub decode : String → Settled ConsumerSecret
  pub decode-encode : (v : ConsumerSecret) → decode (encode v) ≡ fulfilled v
