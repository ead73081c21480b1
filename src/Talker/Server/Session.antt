-- ===== src/Talker/Server/Session.antt =====
-- A SET and a GET of clients of ServerTalker (src/server_talker.cpp).
use build_your_own_redis.Prelude.{
  ℕ, ◌≡◌, refl, ap, ◌∙◌, Bool, true, false, Option, none, some, [], ◌∷◌, ◌++◌, if◌then◌else◌,
}
use build_your_own_redis.Text.{Bytes, text}
use build_your_own_redis.Message.{Message, simple_string, bulk_string}
use build_your_own_redis.Command.{set, get}
use build_your_own_redis.Command.Construct.{construct}
use build_your_own_redis.Command.RoundTrip.{IsLifetime, try_parse-construct}
use build_your_own_redis.Storage
use build_your_own_redis.Storage.Keyspace.Expiry.{is_alive, get-set_self}
use build_your_own_redis.Middleware
use build_your_own_redis.Middleware.Replicas.{Middleware, set_and_push, push, push_all}
use build_your_own_redis.Server.{is_replica}
use build_your_own_redis.Talker.Server.{World, ServerTalker, heard, Outside, say}
use build_your_own_redis.Talker.Server.Listen.{hear_set, hear_get, hear_parsed, obey, listen}

-- A master, to which a client sends SET
abbrev pub after_set : ℕ → Bytes → Bytes → Option ℕ → ℕ → World → World
after_set now key value expire_ms slot w =
    say slot (simple_string (text "OK"))
      (record w { middleware = set_and_push now key value expire_ms w.middleware })

listen-set :
    (outside : Outside) (now : ℕ) (key value : Bytes) (expire_ms : Option ℕ) (t : ServerTalker)
    (w : World)
    → is_replica w.info ≡ false
    → IsLifetime expire_ms
    → listen outside now (construct (set key value expire_ms)) t w
      ≡ heard t (after_set now key value expire_ms t.slot w)
unfolding listen hear_parsed obey hear_set
listen-set outside now key value expire_ms t w r h =
    rw (try_parse-construct (set key value expire_ms) h, r) refl

listen-get :
    (outside : Outside) (now : ℕ) (key : Bytes) (t : ServerTalker) (w : World)
    → listen outside now (construct (get key)) t w ≡ hear_get now key t w
unfolding listen hear_parsed obey
listen-get outside now key t w = rw (try_parse-construct (get key) tt) refl

-- The answer of GET as a message
abbrev value_message : Option Bytes → Message
value_message o = elim o [ none ↦ bulk_string [] | some value ↦ bulk_string value ]

abbrev pub after_get : ℕ → Bytes → ℕ → World → World
after_get now key slot w =
    say slot (value_message (Middleware.Replicas.get now key w.middleware).1)
      (record w { middleware = (Middleware.Replicas.get now key w.middleware).0 })

hear_get-after :
    (now : ℕ) (key : Bytes) (t : ServerTalker) (w : World)
    → hear_get now key t w ≡ heard t (after_get now key t.slot w)
unfolding hear_get Middleware.Replicas.get
hear_get-after now key t w = refl

sent-after_get :
    (now : ℕ) (key : Bytes) (slot : ℕ) (w : World)
    → (after_get now key slot w).middleware.sent
      ≡ w.middleware.sent
        ++ (slot, value_message (Storage.Keyspace.get now key w.middleware.storage).1) ∷ []
unfolding Middleware.Replicas.get
sent-after_get now key slot w = refl

storage-after_set :
    (now : ℕ) (key value : Bytes) (expire_ms : Option ℕ) (slot : ℕ) (w : World)
    → (after_set now key value expire_ms slot w).middleware.storage
      ≡ Storage.Keyspace.set now key value expire_ms w.middleware.storage
unfolding set_and_push push
storage-after_set now key value expire_ms slot w = refl

value_message-if :
    (b : Bool) (value : Bytes)
    → value_message (if b then some value else none) ≡ bulk_string (if b then value else [])
value_message-if true value = refl
value_message-if false value = refl

-- A SET of one client on a master is followed by a GET of the same key by any client: both return, and
-- the answer to the GET is the value, or the empty bulk string once the lifetime has passed. The
-- lifetime, if there is one, is an int above 0.
pub listen-set-get :
    (outside : Outside) (now later : ℕ) (key value : Bytes) (expire_ms : Option ℕ)
    (t r : ServerTalker) (w : World)
    → is_replica w.info ≡ false
    → IsLifetime expire_ms
    → (u v : World) × (listen outside now (construct (set key value expire_ms)) t w ≡ heard t u)
      × (listen outside later (construct (get key)) r u ≡ heard r v)
      × (v.middleware.sent
          ≡ u.middleware.sent
            ++ (r.slot, bulk_string (if is_alive now expire_ms later then value else [])) ∷ [])
listen-set-get outside now later key value expire_ms t r w m h =
    let u = after_set now key value expire_ms t.slot w in
    (
      u,
      after_get later key r.slot u,
      listen-set outside now key value expire_ms t w m h,
      listen-get outside later key r u ∙ hear_get-after later key r u,
      sent-after_get later key r.slot u
          ∙ ap (λ o. u.middleware.sent ++ (r.slot, value_message o) ∷ [])
              (ap (λ d. (Storage.Keyspace.get later key d).1)
                  (storage-after_set now key value expire_ms t.slot w)
                ∙ get-set_self now later key value expire_ms w.middleware.storage)
          ∙ ap (λ a. u.middleware.sent ++ (r.slot, a) ∷ [])
              (value_message-if (is_alive now expire_ms later) value),
    )
